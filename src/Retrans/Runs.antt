-- ===== src/Retrans/Runs.antt =====
-- THospf/ospfAck.cpp: the timer's action, and runs of a neighbor whose advertisements are flooded,
-- acknowledged and sent again.
use ospfbasic.Prelude.{
  ℕ, ◌+◌, ◌≡◌, refl, ap, inl, inr, true, false, List, [], ◌∷◌, ◌++◌, Option, none, some, ◌==◌,
  if◌then◌else◌, length, length-append, arith, Bool-cases,
}
use ospfbasic.Retrans.{
  Advert, Neighbor, Source, garbage_collect, get_next_retrans, retrans_updates, add_to_retranslist,
  remove_from_retranslist, collect, action,
}
use ospfbasic.Retrans.Wakeup.{Counted, Marked, occurs, Next, get_next_retrans-Next}
use ospfbasic.Retrans.Packets.{Keeps, Keeps-trans, Moves-Keeps, occurs-append}
use ospfbasic.Retrans.Updates.{Sized, is_running, Resumed, retrans_updates-Resumed}
use ospfbasic.Retrans.Sound.{IsSound, Returns, add_to_retranslist-IsSound}
use ospfbasic.Retrans.Acknowledged.{remove_from_retranslist-IsSound, Sized-Keeps, shorter-Awake}

garbage_collect-length :
    (db : ℕ → Advert) (xs : List ℕ)
    → length (garbage_collect db xs).0 + (garbage_collect db xs).1 ≡ length xs
unfolding garbage_collect
garbage_collect-length db [] = omega arith
garbage_collect-length db (x ∷ xs) = let h = garbage_collect-length db xs in ground arith

apart :
    (db : ℕ → Advert) (x b : ℕ) → ((db x).valid ≡ false) → ((db b).valid ≡ true) → (x == b) ≡ false
apart db x b e v = elim (Bool-cases (x == b)) [
  | inl t ↦ let q : x ≡ b = ground arith in cc (e, v, q)
  | inr t ↦ t
]

garbage_collect-occurs :
    (db : ℕ → Advert) (b : ℕ) (xs : List ℕ)
    → ((db b).valid ≡ true)
    → occurs b (garbage_collect db xs).0 ≡ occurs b xs
unfolding garbage_collect
garbage_collect-occurs db b [] v = refl
garbage_collect-occurs db b (x ∷ xs) v = elim (Bool-cases (db x).valid) [
  | inl e ↦ rw e (ap (λ n. (if x == b then 1 else 0) + n) (garbage_collect-occurs db b xs v))
  | inr e ↦
      let d : (x == b) ≡ false = apart db x b e v in
      rw (e, d) (omega (arith, garbage_collect-occurs db b xs v))
]

collect-IsSound : (others : ℕ → ℕ) (np : Neighbor) → IsSound others np → IsSound others (collect np)
unfolding collect
collect-IsSound others np s =
    let r = garbage_collect-length np.lsas np.retrans in
    let f = garbage_collect-length np.lsas np.failed_retrans in
    record {
      counted = omega (arith, s.counted);
      marked = λ b v.
          let h = s.marked b v in
          let o = garbage_collect-occurs np.lsas b np.retrans v in
          let p = garbage_collect-occurs np.lsas b np.failed_retrans v in omega arith;
      awake = shorter-Awake np (collect np) refl (omega arith) s.awake;
      sized = s.sized;
    }

-- The lists at the beginning of the action.
abbrev failed_all : Neighbor → Neighbor
failed_all fired = record fired {
  lsat = none;
  failed_retrans = fired.failed_retrans ++ fired.pend_retrans;
  pend_retrans = [];
}

failed_all-Keeps : (fired : Neighbor) → Keeps fired (failed_all fired)
failed_all-Keeps fired =
    let g = length-append fired.failed_retrans fired.pend_retrans in
    record {
      same_rxmt_interval = refl;
      same_lsas = refl;
      keeps_count = λ extra c. omega arith;
      keeps_marks = λ others m b v.
          let h = m b v in
          let o = occurs-append b fired.failed_retrans fired.pend_retrans in omega arith;
    }

window-Keeps : (np : Neighbor) (w : ℕ) → Keeps np (record np { retrans_window = w })
window-Keeps np w = record {
  same_rxmt_interval = refl;
  same_lsas = refl;
  keeps_count = λ extra c. c;
  keeps_marks = λ others m. m;
}

-- The action's second half.
resumed-IsSound :
    (others : ℕ → ℕ) (np np2 : Neighbor)
    → Counted 0 np
    → Marked others np
    → Sized np
    → Keeps np np2
    → (np2.pend_retrans ≡ [])
    → Returns
        (IsSound others)
        (elim (retrans_updates np2) [ none ↦ none | some np4 ↦ some (collect np4) ])
resumed-IsSound others np np2 c m s k e =
    go (retrans_updates np2) (retrans_updates-Resumed np2 e (Sized-Keeps np np2 k s))
  where
    go :
        (r : Option Neighbor)
        → Resumed np2 r
        → Returns (IsSound others) (elim r [ none ↦ none | some np4 ↦ some (collect np4) ])
    go none u = u
    go (some np4) (j, w) =
        let all = Keeps-trans np np2 np4 k j in
        collect-IsSound others np4 (record {
          counted = all.keeps_count 0 c;
          marked = all.keeps_marks others m;
          awake = w;
          sized = Sized-Keeps np np4 all s;
        })

action-IsSound :
    (others : ℕ → ℕ) (np : Neighbor) → IsSound others np → Returns (IsSound others) (action np)
unfolding action
action-IsSound others fired s =
    go (get_next_retrans (failed_all fired)) (get_next_retrans-Next (failed_all fired))
  where
    go :
        (r : Option (Neighbor × (ℕ × Option (Source × ℕ))))
        → Next (failed_all fired) r
        → Returns (IsSound others) (elim r [
          | none ↦ none
          | some (np2, (nexttime, found)) ↦
              elim (retrans_updates (record np2 {
                retrans_window = elim found [ none ↦ np2.retrans_window | some x ↦ 1 ];
              })) [ none ↦ none | some np4 ↦ some (collect np4) ]
        ])
    go none n = n
    go (some (np2, (nexttime, found))) n =
        let kept =
          Keeps-trans fired (failed_all fired) np2 (failed_all-Keeps fired)
            (Moves-Keeps (failed_all fired) np2 n.1) in
        let w : ℕ = elim found [ none ↦ np2.retrans_window | some x ↦ 1 ] in
        resumed-IsSound others fired (record np2 { retrans_window = w }) s.counted s.marked s.sized
          (Keeps-trans fired np2 _ kept (window-Keeps np2 w)) n.1.same_pend

-- What happens to a neighbor: an advertisement is flooded to it, it acknowledges one, or its timer
-- fires if it runs.
pub data Event : Type 0 where
  flooded acknowledged : ℕ → Event
  timer_fired : Event

unfoldable pub step : Event → Neighbor → Option Neighbor
step (flooded a) np = some (add_to_retranslist a np)
step (acknowledged a) np = remove_from_retranslist a np
step timer_fired np = if is_running np.lsat then action np else some np

unfoldable pub run : List Event → Neighbor → Option Neighbor
run [] np = some np
run (e ∷ es) np = elim (step e np) [ none ↦ none | some np2 ↦ run es np2 ]

step-IsSound :
    (others : ℕ → ℕ) (e : Event) (np : Neighbor)
    → IsSound others np
    → Returns (IsSound others) (step e np)
unfolding step
step-IsSound others (flooded a) np s = add_to_retranslist-IsSound others a np s
step-IsSound others (acknowledged a) np s = remove_from_retranslist-IsSound others a np s
step-IsSound others timer_fired np s = elim (Bool-cases (is_running np.lsat)) [
  | inl e ↦ rw (e, step) (action-IsSound others np s)
  | inr e ↦ rw (e, step) s
]

-- Floods, acknowledgments and timeouts in any order all return, and with each of them the timer runs
-- as long as any advertisement waits, retrans_cnt is the number of those that wait modulo 2^32, and
-- lsa_rxmt of every valid advertisement counts, modulo 2^16, how often it is in this neighbor's lists
-- and in the others'. Advertisements
-- are not empty.
pub run-IsSound :
    (others : ℕ → ℕ) (events : List Event) (np : Neighbor)
    → IsSound others np
    → Returns (IsSound others) (run events np)
unfolding run
run-IsSound others [] np s = s
run-IsSound others (e ∷ es) np s =
    go (run-IsSound others es) (step e np) (step-IsSound others e np s)
  where
    go :
        ((q : Neighbor) → IsSound others q → Returns (IsSound others) (run es q))
        → (r : Option Neighbor) → Returns (IsSound others) r
        → Returns (IsSound others) (elim r [ none ↦ none | some np2 ↦ run es np2 ])
    go ih none h = h
    go ih (some np2) h = ih np2 h
