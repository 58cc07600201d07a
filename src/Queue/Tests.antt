-- ===== src/Queue/Tests.antt =====
-- A queue of three timers, of which the second and the third are due in the same second.
use ospfbasic.Prelude.{ℕ, ◌+◌, ◌≡◌, ◌≤◌, refl, ◌^◌, Bool, [], ◌∷◌, some, arith, suc}
use ospfbasic.Queue.{
  Item, Tree, empty, node, dist, size, add, del, rmhead, to_right, item_at, combine, splice, settle,
  cmp_cost,
}
use ospfbasic.Queue.Contents.{one, count}
use ospfbasic.Queue.Bounds.{Built, built_empty, built_add, built_del, Built-dist_fits}
use ospfbasic.Queue.Least.{IsQueue, TakesLeast, add-inserts, del-removes, rmhead-least}

abbrev timer : ℕ → ℕ → ℕ → Item
timer k sec ms = record { elt = k; cost0 = sec; cost1 = ms; tie1 = 0; tie2 = 0 }

abbrev three : Tree
three = add (timer 3 7 500) (add (timer 2 7 200) (add (timer 1 9 0) empty))

abbrev two_leaves : Tree
two_leaves =
    node (timer 2 7 200) 2 (node (timer 1 9 0) 1 empty empty) (node (timer 3 7 500) 1 empty empty)

built : three ≡ two_leaves
unfolding add combine splice settle cmp_cost size
built = refl

first : (rmhead three).0 ≡ some (timer 2 7 200)
unfolding add combine splice settle cmp_cost size rmhead
first = refl

two_leaves-IsQueue : IsQueue two_leaves
unfolding cmp_cost
two_leaves-IsQueue = record {
  leftist = (omega arith, refl, (omega arith, refl, tt, tt), (omega arith, refl, tt, tt));
  heap = (refl, refl, (tt, tt, tt, tt), (tt, tt, tt, tt));
}

add-inserts_example :
    IsQueue (add (timer 4 7 300) two_leaves)
    × ((pass : Item → Bool)
        → count pass (add (timer 4 7 300) two_leaves)
          ≡ count pass two_leaves + one (pass (timer 4 7 300)))
add-inserts_example = add-inserts (timer 4 7 300) two_leaves two_leaves-IsQueue

third_at : item_at (to_right ∷ []) two_leaves ≡ some (timer 3 7 500)
unfolding item_at
third_at = refl

del-removes_example :
    IsQueue (del (to_right ∷ []) two_leaves)
    × ((pass : Item → Bool)
        → count pass (del (to_right ∷ []) two_leaves) + one (pass (timer 3 7 500))
          ≡ count pass two_leaves)
del-removes_example =
    del-removes (to_right ∷ []) two_leaves (timer 3 7 500) third_at two_leaves-IsQueue

rmhead-least_example : TakesLeast two_leaves (rmhead two_leaves)
rmhead-least_example = rmhead-least two_leaves two_leaves-IsQueue

third_built : item_at (to_right ∷ []) three ≡ some (timer 3 7 500)
unfolding add combine splice settle cmp_cost size item_at
third_built = refl

two-Built : Built (del (to_right ∷ []) three)
two-Built =
    built_del (to_right ∷ []) (timer 3 7 500) third_built
      (built_add (timer 3 7 500) (built_add (timer 2 7 200) (built_add (timer 1 9 0) built_empty)))

Built-dist_fits_example :
    2 ^ dist (del (to_right ∷ []) three) ≤ suc (size (del (to_right ∷ []) three))
Built-dist_fits_example = Built-dist_fits two-Built
