-- ===== src/Exchange.antt =====
-- THospf/ospfDD.cpp: how `recv_dd` judges a database description packet, the sequence number that it
-- goes on with, and the headers of the packets that `send_dd` sends in Exchange.
pub mod Channel
pub mod Protocol
pub mod Invariant
pub mod Progress
mod Tests
use ospfbasic.Prelude.{
  ℕ, ◌+◌, ◌-◌, ◌%◌, ◌^◌, Bool, true, false, not, ◌&&◌, ◌||◌, ltb, ◌==◌, if◌then◌else◌,
}
use ospfbasic.Fsm.Neighbor.{
  NbrState, nbs_down, nbs_attempt, nbs_init, nbs_2way, nbs_exstart, nbs_exchange, nbs_loading,
  nbs_full,
}

-- The header of a packet: the bits of `dd_imms`, and whether no advertisement's header follows.
pub record DdPkt : Type 0 where
  pub dd_opts : ℕ
  pub dd_init : Bool
  pub dd_more : Bool
  pub dd_master : Bool
  pub dd_seqno : ℕ
  pub is_empty : Bool

-- What `recv_dd` reads of the router and the neighbor.
pub record Side : Type 0 where
  pub my_id : ℕ
  pub n_id : ℕ
  pub n_state : NbrState
  pub n_ddseq : ℕ
  pub n_opts : ℕ

unfoldable pub is_master : Side → Bool
is_master n = ltb n.n_id n.my_id

-- Where `recv_dd` goes from its `switch`: it returns; it raises NBE_DDRCVD, and judges the packet again
-- where that leaves; it raises NBE_NEGDONE and goes on; it raises NBE_SEQNOMISM; it sends the last
-- packet again; or it goes on with the packet.
pub data Verdict : Type 0 where
  ignored evaluated negotiated mismatched repeated taken : Verdict

abbrev pub same_flag : Bool → Bool → Bool
same_flag true b = b
same_flag false b = not b

-- The sender's claim to be the slave does not go with our own role.
abbrev pub wrong_role : Side → DdPkt → Bool
wrong_role n p = not (same_flag (not p.dd_master) (is_master n))

abbrev pub is_inconsistent : Side → DdPkt → Bool
is_inconsistent n p = wrong_role n p || p.dd_init || not (n.n_opts == p.dd_opts)

-- The cases of the `switch`.
unfoldable pub in_exstart : Side → DdPkt → Verdict
in_exstart n p =
    if wrong_role n p
    then ignored
    else if is_master n && not p.dd_init && p.dd_seqno == n.n_ddseq
    then negotiated
    else if not (is_master n) && p.dd_init && p.dd_more && p.is_empty
    then negotiated
    else ignored

unfoldable pub in_exchange : Side → DdPkt → Verdict
in_exchange n p =
    if is_inconsistent n p
    then mismatched
    else if is_master n
    then (if p.dd_seqno == n.n_ddseq
        then taken
        else if p.dd_seqno == (n.n_ddseq + (2 ^ 32 - 1)) % 2 ^ 32
        then ignored
        else mismatched)
    else if p.dd_seqno == (n.n_ddseq + 1) % 2 ^ 32
    then taken
    else if p.dd_seqno == n.n_ddseq
    then repeated
    else mismatched

unfoldable pub in_full : Side → DdPkt → Verdict
in_full n p =
    if is_inconsistent n p
    then mismatched
    else if is_master n && p.dd_seqno == (n.n_ddseq + (2 ^ 32 - 1)) % 2 ^ 32
    then ignored
    else if not (is_master n) && p.dd_seqno == n.n_ddseq
    then repeated
    else mismatched

-- The cases of Init and 2-Way once NBE_DDRCVD is raised, with the side that this leaves: in ExStart
-- they fall into its case.
unfoldable pub judge_evaluated : Side → DdPkt → Verdict
judge_evaluated n p = elim n.n_state [ nbs_exstart ↦ in_exstart n p | _ ↦ ignored ]

unfoldable pub judge : Side → DdPkt → Verdict
judge n p = elim n.n_state [
  | nbs_init ↦ evaluated
  | nbs_2way ↦ evaluated
  | nbs_exstart ↦ in_exstart n p
  | nbs_exchange ↦ in_exchange n p
  | nbs_loading ↦ in_full n p
  | nbs_full ↦ in_full n p
  | _ ↦ ignored
]

-- The sequence number behind a packet that is gone on with.
unfoldable pub advance : Side → DdPkt → Side
advance n p = record n { n_ddseq = if is_master n then (n.n_ddseq + 1) % 2 ^ 32 else p.dd_seqno }

-- The header that `send_dd` fills in in Exchange, with the options that its memory, which nothing
-- sets before, holds once SPO_EXT is set, for a rest of the database or none, and for some headers or none.
unfoldable pub dd_header : ℕ → Bool → Bool → Side → DdPkt
dd_header opts more bare n = record {
  dd_opts = opts;
  dd_init = false;
  dd_more = more;
  dd_master = is_master n;
  dd_seqno = n.n_ddseq;
  is_empty = bare;
}
