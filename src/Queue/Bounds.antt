-- ===== src/Queue/Bounds.antt =====
-- THospf/Queue.cpp: how deep the nearest leaf of a queue lies.
use ospfbasic.Prelude.{◌^◌, ◌≡◌, sym, subst, ◌≤◌, suc, List, Option, none, some}
use ospfbasic.Queue.{Item, Tree, empty, dist, size, add, rmhead, Side, del, item_at}
use ospfbasic.Queue.Shape.{dist-fits}
use ospfbasic.Queue.Least.{IsQueue, add-inserts, del-removes, rmhead-least, TakesLeast}

-- What the operations make of the empty queue.
pub data Built : Tree → Type 0 where
  built_empty : Built empty
  built_add : {t : Tree} (i : Item) → Built t → Built (add i t)
  built_rmhead : {t : Tree} → Built t → Built (rmhead t).1
  built_del :
      {t : Tree} (ss : List Side) (i : Item) → item_at ss t ≡ some i → Built t → Built (del ss t)

takes-IsQueue : (t : Tree) (r : Option Item × Tree) → TakesLeast t r → IsQueue r.1
takes-IsQueue t (none, u) (e, h) = subst IsQueue (sym h) record { leftist = tt; heap = tt }
takes-IsQueue t (some i, u) h = h.0

Built-IsQueue : {t : Tree} → Built t → IsQueue t
Built-IsQueue built_empty = record { leftist = tt; heap = tt }
Built-IsQueue (built_add {t} i b) = (add-inserts i t (Built-IsQueue b)).0
Built-IsQueue (built_rmhead {t} b) = takes-IsQueue t (rmhead t) (rmhead-least t (Built-IsQueue b))
Built-IsQueue (built_del {t} ss i e b) = (del-removes ss t i e (Built-IsQueue b)).0

-- In a queue that `add`, `rmhead` and `del`, in any order, make of the empty one, 2 to the power of
-- `dist` is at most one more than the number of elements.
pub Built-dist_fits : {t : Tree} → Built t → 2 ^ dist t ≤ suc (size t)
Built-dist_fits {t} b = dist-fits t (Built-IsQueue b).leftist
