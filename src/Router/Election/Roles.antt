-- ===== src/Router/Election/Roles.antt =====
-- THospf/InterfaceFSM.cpp: the role that `Interface::ifa_elect` gives the router itself.
use ospfbasic.Prelude.{ℕ, ◌≡◌, ◌≢◌, sym, ◌∙◌, List, [], ◌∷◌, arith, All}
use ospfbasic.Fsm.Interface.{ifs_other}
use ospfbasic.Router.State.{Ptr, Neighbor, Interface, unknown_addr}
use ospfbasic.Router.Election.{
  BackupScan, scan_backup, start_backup, DrScan, scan_dr, start_dr, role, conclude, elect_pass,
  elect,
}

-- No neighbor has the router's own address.
abbrev pub Foreign : ℕ → List Ptr → (Ptr → Neighbor) → Type 0
Foreign addr ps nbr = All (λ p. (nbr p).n_addr ≢ addr) ps

scan_backup-Foreign :
    (ps : List Ptr) (nbr : Ptr → Neighbor) (c : BackupScan) (addr : ℕ)
    → Foreign addr ps nbr
    → c.bdr ≢ addr
    → (scan_backup ps nbr c).bdr ≢ addr
unfolding scan_backup
scan_backup-Foreign [] nbr c addr f h = h
scan_backup-Foreign (p ∷ ps) nbr c addr f h =
    scan_backup-Foreign ps nbr _ addr f.1 (ground (arith, f.0, h))

scan_dr-Foreign :
    (ps : List Ptr) (nbr : Ptr → Neighbor) (c : DrScan) (addr : ℕ)
    → Foreign addr ps nbr
    → c.dr ≢ addr
    → (scan_dr ps nbr c).dr ≢ addr
unfolding scan_dr
scan_dr-Foreign [] nbr c addr f h = h
scan_dr-Foreign (p ∷ ps) nbr c addr f h = scan_dr-Foreign ps nbr _ addr f.1 (ground (arith, f.0, h))

-- What a pass leaves as it is.
pass_kept :
    (my_id : ℕ) (nbr : Ptr → Neighbor) (i : Interface)
    → ((elect_pass my_id nbr i).if_addr ≡ i.if_addr)
      × ((elect_pass my_id nbr i).if_drpri ≡ i.if_drpri)
      × ((elect_pass my_id nbr i).if_Neighborlist ≡ i.if_Neighborlist)
unfolding elect_pass conclude
pass_kept my_id nbr i = ground arith

pass-Foreign :
    (my_id : ℕ) (nbr : Ptr → Neighbor) (i : Interface)
    → i.if_drpri ≡ 0
    → i.if_addr ≢ unknown_addr
    → Foreign i.if_addr i.if_Neighborlist nbr
    → ((elect_pass my_id nbr i).if_dr ≢ i.if_addr) × ((elect_pass my_id nbr i).if_bdr ≢ i.if_addr)
unfolding elect_pass conclude start_backup start_dr
pass-Foreign my_id nbr i none_pri known f =
    let b0 = start_backup my_id i in
    let b = scan_backup i.if_Neighborlist nbr b0 in
    let B = scan_backup-Foreign i.if_Neighborlist nbr b0 i.if_addr f (ground arith) in
    let D = scan_dr-Foreign i.if_Neighborlist nbr (start_dr my_id i b) i.if_addr f (ground arith) in
    ground (arith, B, D)

-- A router with priority 0, whose address is known and is no neighbor's, makes itself neither
-- designated router nor backup, in either pass and whatever the neighbors declare.
pub elect-other :
    (my_id : ℕ) (nbr : Ptr → Neighbor) (i : Interface)
    → i.if_drpri ≡ 0
    → i.if_addr ≢ unknown_addr
    → Foreign i.if_addr i.if_Neighborlist nbr
    → ((elect my_id nbr i).if_state ≡ ifs_other)
      × ((elect my_id nbr i).if_dr ≢ i.if_addr)
      × ((elect my_id nbr i).if_bdr ≢ i.if_addr)
unfolding elect role
elect-other my_id nbr i none_pri known f =
    let once = elect_pass my_id nbr i in
    let k = pass_kept my_id nbr i in
    let k2 = pass_kept my_id nbr once in
    let one = pass-Foreign my_id nbr i none_pri known f in
    let f2 : Foreign once.if_addr once.if_Neighborlist nbr = rw (k.0, k.2) f in
    let two = pass-Foreign my_id nbr once (k.1 ∙ none_pri) (λ e. known ((sym k.0) ∙ e)) f2 in
    ground (arith, k, k2, one, two)
