-- ===== src/Pending/Tests.antt =====
-- Two waiting neighbors, and a third that comes.
use ospfbasic.Prelude.{◌≡◌, refl, true, [], ◌∷◌, ◌++◌, none, some, arith, ◌==◌, if◌then◌else◌}
use ospfbasic.Router.Actions.{mem_ptr, erase_ptr}
use ospfbasic.Pending.{Pending, add_pend_adj, del_pend_adj, get_next_adj, update}
use ospfbasic.Pending.Refines.{
  Represents, TakesFirst, add_pend_adj-Represents, del_pend_adj-Represents, get_next_adj-TakesFirst,
}

abbrev two_waiting : Pending
two_waiting = record {
  n_adj_pend = λ p. if p == 5 then true else p == 9;
  next_pend = λ p. if p == 5 then some 9 else none;
  g_adj_head = some 5;
  g_adj_tail = some 9;
}

two_waiting-Represents : Represents (5 ∷ 9 ∷ []) two_waiting
unfolding mem_ptr
two_waiting-Represents = record {
  chain = (refl, (refl, refl));
  tail = refl;
  distinct = (refl, (refl, tt));
  flags = λ q. ground arith;
}

taken_first : (get_next_adj (add_pend_adj 7 two_waiting)).0 ≡ some 5
unfolding get_next_adj add_pend_adj update
taken_first = refl

add_pend_adj-Represents_example :
    Represents
      (if mem_ptr 7 (5 ∷ 9 ∷ []) then 5 ∷ 9 ∷ [] else (5 ∷ 9 ∷ []) ++ 7 ∷ [])
      (add_pend_adj 7 two_waiting)
add_pend_adj-Represents_example =
    add_pend_adj-Represents 7 two_waiting (5 ∷ 9 ∷ []) two_waiting-Represents

del_pend_adj-Represents_example :
    (u : Pending) × (del_pend_adj 3 9 two_waiting ≡ some u)
    × Represents (erase_ptr 9 (5 ∷ 9 ∷ [])) u
del_pend_adj-Represents_example =
    del_pend_adj-Represents 3 9 two_waiting (5 ∷ 9 ∷ []) (omega arith) two_waiting-Represents

get_next_adj-TakesFirst_example : TakesFirst (5 ∷ 9 ∷ []) (get_next_adj two_waiting)
get_next_adj-TakesFirst_example =
    get_next_adj-TakesFirst two_waiting (5 ∷ 9 ∷ []) two_waiting-Represents
