-- ===== src/Aging.antt =====
-- THospf/LSA.cpp: `start_aging` and `stop_aging`, on the lists of advertisements of the same age,
-- linked in both directions from `AgeBins`. Advertisements are addresses; the list of those of
-- `MaxAge` is a sequence.
pub mod Links
pub mod Refines
pub mod Started
mod Tests
use ospfbasic.Prelude.{
  ℕ, Bool, true, false, not, List, [], ◌∷◌, ◌++◌, Option, none, some, ◌==◌, if◌then◌else◌,
}
use ospfbasic.Router.State.{Ptr}
use ospfbasic.Pending.{update}
use ospfbasic.Lsa.{max_age, has_do_not_age, age_to_bin}

pub record Aging : Type 0 where
  pub lsa_rcvage : Ptr → ℕ
  pub lsa_agebin : Ptr → ℕ
  pub in_agebin : Ptr → Bool
  pub lsa_agefwd : Ptr → Option Ptr
  pub lsa_agerv : Ptr → Option Ptr
  pub age_bins : ℕ → Option Ptr
  pub max_age_list : List Ptr

-- `p->field = v` where `p` is not the null pointer.
abbrev pub assign_at : Option Ptr → Option Ptr → (Ptr → Option Ptr) → Ptr → Option Ptr
assign_at none v f = f
assign_at (some p) v f = update f p v

-- The assignment to `AgeBins` where there is no element before.
abbrev pub assign_head : Option Ptr → ℕ → Option Ptr → (ℕ → Option Ptr) → ℕ → Option Ptr
assign_head none bin v bins = update bins bin v
assign_head (some p) bin v bins = bins

-- `stop_aging`.
unfoldable pub stop_aging : Ptr → Aging → Aging
stop_aging p st =
    let fwd = assign_at (st.lsa_agerv p) (st.lsa_agefwd p) st.lsa_agefwd in
    let bins = assign_head (st.lsa_agerv p) (st.lsa_agebin p) (st.lsa_agefwd p) st.age_bins in
    let rv = assign_at (fwd p) (st.lsa_agerv p) st.lsa_agerv in
    if not (st.in_agebin p) then st else record st {
      in_agebin = update st.in_agebin p false;
      lsa_agefwd = update fwd p none;
      lsa_agerv = update rv p none;
      age_bins = bins;
    }

-- The bin of an age, or of age 0 where the advertisement does not age.
unfoldable pub starting_bin : ℕ → ℕ → ℕ
starting_bin bin0 age = if has_do_not_age age then age_to_bin bin0 0 else age_to_bin bin0 age

-- The rest of `start_aging`, for an advertisement that is not in a bin.
unfoldable pub file_aging : ℕ → Ptr → Aging → Aging
file_aging bin0 p st =
    let bin = starting_bin bin0 (st.lsa_rcvage p) in
    if st.lsa_rcvage p == max_age
    then record st {
      lsa_agebin = update st.lsa_agebin p (age_to_bin bin0 0);
      max_age_list = st.max_age_list ++ p ∷ [];
    }
    else record st {
      in_agebin = update st.in_agebin p true;
      lsa_agebin = update st.lsa_agebin p bin;
      lsa_agefwd = update st.lsa_agefwd p (st.age_bins bin);
      lsa_agerv = assign_at (st.age_bins bin) (some p) (update st.lsa_agerv p none);
      age_bins = update st.age_bins bin (some p);
    }

-- `start_aging`, with `LSA::Bin0`.
unfoldable pub start_aging : ℕ → Ptr → Aging → Aging
start_aging bin0 p st = file_aging bin0 p (if st.in_agebin p then stop_aging p st else st)
