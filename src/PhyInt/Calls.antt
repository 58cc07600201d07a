-- ===== src/PhyInt/Calls.antt =====
-- THospf/phyint.cpp: which calls of the system the operations make.
use ospfbasic.Prelude.{
  ℕ, suc, ◌+◌, ◌≡◌, refl, ◌∙◌, inl, inr, true, List, [], ◌∷◌, Option, none, some, arith, ◌==◌,
  if◌then◌else◌, Bool-cases, Option-cases, ==_iff,
}
use ospfbasic.PhyInt.{
  SysCall, phy_open, phy_close, leave, PhyState, put, deref, phy_attach, phy_detach, multi_join,
  multi_leave, PhyOp, attach, detach, join_group, leave_group, phy_op, phy_ops,
}

-- How often an interface has been opened and closed.
unfoldable pub opens : ℕ → List SysCall → ℕ
opens p [] = 0
opens p (phy_open q ∷ cs) = let rest = opens p cs in if q == p then suc rest else rest
opens p (_ ∷ cs) = opens p cs

unfoldable pub closes : ℕ → List SysCall → ℕ
closes p [] = 0
closes p (phy_close q ∷ cs) = let rest = closes p cs in if q == p then suc rest else rest
closes p (_ ∷ cs) = closes p cs

unfoldable pub leaves : List SysCall → ℕ
leaves [] = 0
leaves (leave g p ∷ cs) = suc (leaves cs)
leaves (_ ∷ cs) = leaves cs

abbrev pub is_open : Option ℕ → ℕ
is_open none = 0
is_open (some n) = 1

-- The interfaces in the table are those that have been opened once more than closed, and the
-- others as often.
abbrev pub InStep : PhyState → Type 0
InStep st = (p : ℕ) → opens p st.calls ≡ closes p st.calls + is_open (st.phyints p)

put_open :
    (t : ℕ → Option ℕ) (p : ℕ) (v : Option ℕ) (q : ℕ)
    → is_open (put t p v q) ≡ (if q == p then is_open v else is_open (t q))
unfolding put
put_open t p v q = ground arith

-- At the interface of an operation, whatever its table's entry is called.
at_entry :
    (p q : ℕ) (st : PhyState) (o : Option ℕ)
    → InStep st
    → st.phyints p ≡ o
    → (q == p) ≡ true
    → opens q st.calls ≡ closes q st.calls + is_open o
at_entry p q st o h e k = h q ∙ rw ((==_iff q p).0 k, e) refl

phy_attach-InStep : (p : ℕ) (st : PhyState) → InStep st → InStep (phy_attach p st)
unfolding phy_attach opens closes
phy_attach-InStep p st h q = elim (Option-cases (st.phyints p)) [
  | inl e ↦
      rw (e, phy_attach)
        (ground (arith, h q, at_entry p q st none h e, put_open st.phyints p (some 1) q))
  | inr (n, e) ↦
      rw (e, phy_attach)
        (ground (arith, h q, at_entry p q st (some n) h e, put_open st.phyints p (some (suc n)) q))
]

phy_detach-InStep : (p : ℕ) (st : PhyState) → InStep st → InStep (phy_detach p st)
unfolding phy_detach opens closes
phy_detach-InStep p st h q = elim (Option-cases (st.phyints p)) [
  | inl e ↦ rw (e, phy_detach) (h q)
  | inr (n, e) ↦ elim (Bool-cases (deref n == 0)) [
    | inl z ↦
        rw (e, phy_detach, z)
          (ground (arith, h q, at_entry p q st (some n) h e, put_open st.phyints p none q))
    | inr z ↦
        rw (e, phy_detach, z)
          (ground
            (arith, h q, at_entry p q st (some n) h e, put_open st.phyints p (some (deref n)) q))
  ]
]

multi_join-InStep : (p g : ℕ) (st : PhyState) → InStep st → InStep (multi_join p g st)
unfolding multi_join opens closes
multi_join-InStep p g st h q = elim (Option-cases (st.ospf_member p g)) [
  | inl e ↦ rw (e, multi_join) (h q)
  | inr (n, e) ↦ rw (e, multi_join) (h q)
]

multi_leave-InStep : (p g : ℕ) (st : PhyState) → InStep st → InStep (multi_leave p g st)
unfolding multi_leave opens closes
multi_leave-InStep p g st h q = elim (Option-cases (st.ospf_member p g)) [
  | inl e ↦ rw (e, multi_leave) (h q)
  | inr (n, e) ↦ elim (Bool-cases (deref n == 0)) [
    | inl z ↦ rw (e, multi_leave, z) (h q)
    | inr z ↦ rw (e, multi_leave, z) (h q)
  ]
]

-- If the interfaces in the table are those opened once more than closed, and all others have been
-- closed as often as opened, that is so too after any sequence of the operations.
pub phy_ops-InStep : (os : List PhyOp) (st : PhyState) → InStep st → InStep (phy_ops os st)
unfolding phy_ops phy_op
phy_ops-InStep [] st h = h
phy_ops-InStep (attach p ∷ os) st h = phy_ops-InStep os _ (phy_attach-InStep p st h)
phy_ops-InStep (detach p ∷ os) st h = phy_ops-InStep os _ (phy_detach-InStep p st h)
phy_ops-InStep (join_group p g ∷ os) st h = phy_ops-InStep os _ (multi_join-InStep p g st h)
phy_ops-InStep (leave_group p g ∷ os) st h = phy_ops-InStep os _ (multi_leave-InStep p g st h)

-- Without members in the table no group is left, and none gets in.
abbrev pub NeverLeft : PhyState → Type 0
NeverLeft st = ((p g : ℕ) → st.ospf_member p g ≡ none) × (leaves st.calls ≡ 0)

op-NeverLeft : (o : PhyOp) (st : PhyState) → NeverLeft st → NeverLeft (phy_op o st)
unfolding phy_op phy_attach phy_detach multi_join multi_leave leaves
op-NeverLeft (attach p) st h = elim (Option-cases (st.phyints p)) [
  | inl e ↦ rw (e, phy_attach) h
  | inr (n, e) ↦ rw (e, phy_attach) h
]
op-NeverLeft (detach p) st h = elim (Option-cases (st.phyints p)) [
  | inl e ↦ rw (e, phy_detach) h
  | inr (n, e) ↦ elim (Bool-cases (deref n == 0)) [
    | inl z ↦ rw (e, phy_detach, z) h
    | inr z ↦ rw (e, phy_detach, z) h
  ]
]
op-NeverLeft (join_group p g) st h = rw (h.0 p g, multi_join) h
op-NeverLeft (leave_group p g) st h = rw (h.0 p g, multi_leave) h

-- If no group has been left and the table has no members, no sequence of the operations leaves a
-- group, however often it joins it, and the table still has no members.
pub phy_ops-NeverLeft : (os : List PhyOp) (st : PhyState) → NeverLeft st → NeverLeft (phy_ops os st)
unfolding phy_ops
phy_ops-NeverLeft [] st h = h
phy_ops-NeverLeft (o ∷ os) st h = phy_ops-NeverLeft os (phy_op o st) (op-NeverLeft o st h)
