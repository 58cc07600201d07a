-- ===== src/Router/Election.antt =====
-- THospf/InterfaceFSM.cpp: the loops of `Interface::ifa_elect`, which elects the designated router
-- and its backup among the neighbors of an interface and the router itself.
pub mod Ranks
pub mod Roles
use ospfbasic.Prelude.{
  ℕ, Bool, true, false, not, ◌&&◌, ◌||◌, List, [], ◌∷◌, Option, none, some, ltb, leb, ◌==◌,
  if◌then◌else◌,
}
use ospfbasic.Fsm.Neighbor.{nbs_2way, at_most}
use ospfbasic.Fsm.Interface.{IfState, ifs_other, ifs_backup, ifs_dr}
use ospfbasic.Router.State.{Ptr, Neighbor, Interface, unknown_addr}

abbrev pub declared_dr : Neighbor → Bool
declared_dr n = n.n_dr == n.n_addr

abbrev pub declared_bdr : Neighbor → Bool
declared_bdr n = n.n_bdr == n.n_addr

-- The variables of the first loop: `bdr_p`, `if_bdr`, `declared`, `c_pri` and `c_id`.
pub record BackupScan : Type 0 where
  pub bdr_p : Option Ptr
  pub bdr : ℕ
  pub declared : Bool
  pub c_pri : ℕ
  pub c_id : ℕ

-- The two comparisons that pass over a neighbor.
abbrev pub is_lower : Neighbor → ℕ → ℕ → Bool
is_lower n c_pri c_id = ltb n.prior c_pri || n.prior == c_pri && ltb n.n_id c_id

-- Whether the first loop says `continue`.
unfoldable pub skips_backup : Neighbor → BackupScan → Bool
skips_backup n c =
    if not (at_most nbs_2way n.n_state)
    then true
    else if n.prior == 0
    then true
    else if declared_dr n
    then true
    else if c.declared
    then not (declared_bdr n) || is_lower n c.c_pri c.c_id
    else if not (declared_bdr n)
    then is_lower n c.c_pri c.c_id
    else false

unfoldable pub scan_backup : List Ptr → (Ptr → Neighbor) → BackupScan → BackupScan
scan_backup [] nbr c = c
scan_backup (p ∷ ps) nbr c = scan_backup ps nbr (
    if skips_backup (nbr p) c then c else record {
      bdr_p = some p;
      bdr = (nbr p).n_addr;
      declared = declared_bdr (nbr p);
      c_pri = (nbr p).prior;
      c_id = (nbr p).n_id;
    })

-- Where the first loop starts: with the router itself, unless it is the designated router or may
-- not be elected.
unfoldable pub start_backup : ℕ → Interface → BackupScan
start_backup my_id i =
    if not (i.if_dr == i.if_addr) && not (i.if_drpri == 0)
    then record {
      bdr_p = none;
      bdr = i.if_addr;
      declared = i.if_bdr == i.if_addr;
      c_pri = i.if_drpri;
      c_id = my_id;
    }
    else record { bdr_p = none; bdr = unknown_addr; declared = false; c_pri = 0; c_id = 0 }

-- The variables of the second loop: `if_dr_n`, `if_dr`, `c_pri` and `c_id`.
pub record DrScan : Type 0 where
  pub dr_n : Option Ptr
  pub dr : ℕ
  pub c_pri : ℕ
  pub c_id : ℕ

unfoldable pub skips_dr : Neighbor → DrScan → Bool
skips_dr n c =
    if not (at_most nbs_2way n.n_state)
    then true
    else if n.prior == 0
    then true
    else if not (declared_dr n)
    then true
    else is_lower n c.c_pri c.c_id

unfoldable pub scan_dr : List Ptr → (Ptr → Neighbor) → DrScan → DrScan
scan_dr [] nbr c = c
scan_dr (p ∷ ps) nbr c = scan_dr ps nbr (
    if skips_dr (nbr p) c
    then c
    else record { dr_n = some p; dr = (nbr p).n_addr; c_pri = (nbr p).prior; c_id = (nbr p).n_id })

-- The second loop starts with `c_id` as the first left it.
unfoldable pub start_dr : ℕ → Interface → BackupScan → DrScan
start_dr my_id i b =
    if i.if_dr == i.if_addr && not (i.if_drpri == 0)
    then record { dr_n = none; dr = i.if_dr; c_pri = i.if_drpri; c_id = my_id }
    else record { dr_n = none; dr = unknown_addr; c_pri = 0; c_id = b.c_id }

-- The state that the addresses give.
unfoldable pub role : Interface → IfState
role i =
    if i.if_dr == i.if_addr then ifs_dr else if i.if_bdr == i.if_addr then ifs_backup else ifs_other

-- With no designated router elected the backup takes its place.
unfoldable pub conclude : Interface → BackupScan → DrScan → Interface
conclude i b d =
    let j =
      if d.dr == unknown_addr
      then record i { if_bdr = b.bdr; if_dr = b.bdr; if_dr_n = b.bdr_p }
      else record i { if_bdr = b.bdr; if_dr = d.dr; if_dr_n = d.dr_n } in
    record j { if_state = role j }

-- One pass of the outer loop.
unfoldable pub elect_pass : ℕ → (Ptr → Neighbor) → Interface → Interface
elect_pass my_id nbr i =
    let b = scan_backup i.if_Neighborlist nbr (start_backup my_id i) in
    conclude i b (scan_dr i.if_Neighborlist nbr (start_dr my_id i b))

-- Whether the outer loop goes on to the second pass.
unfoldable pub passes_again : Interface → Interface → Bool
passes_again prev i =
    if not (i.if_dr == prev.if_dr) && (i.if_dr == i.if_addr || prev.if_dr == i.if_addr)
    then true
    else if i.if_bdr == prev.if_bdr
    then false
    else i.if_bdr == i.if_addr || prev.if_bdr == i.if_addr

-- The outer loop and the state that it leaves.
unfoldable pub elect : ℕ → (Ptr → Neighbor) → Interface → Interface
elect my_id nbr i =
    let once = elect_pass my_id nbr i in
    let last = if passes_again i once then elect_pass my_id nbr once else once in
    record last { if_state = role last }
