-- ===== src/Aging/Tests.antt =====
-- Two advertisements of age 3, the first of which starts again.
use ospfbasic.Prelude.{ℕ, ◌≡◌, refl, false, List, [], none, some, arith}
use ospfbasic.Router.State.{Ptr}
use ospfbasic.Router.Actions.{mem_ptr}
use ospfbasic.Pending.{update}
use ospfbasic.Lsa.{age_to_bin, bin_to_age}
use ospfbasic.Aging.{Aging, stop_aging, starting_bin, file_aging, start_aging}
use ospfbasic.Aging.Refines.{Represents, without}
use ospfbasic.Aging.Started.{filed, first_age, start_aging-Represents}

abbrev no_lists : ℕ → List Ptr
no_lists b = []

abbrev nothing_ages : Aging
nothing_ages = record {
  lsa_rcvage = λ p. 3;
  lsa_agebin = λ p. 0;
  in_agebin = λ p. false;
  lsa_agefwd = λ p. none;
  lsa_agerv = λ p. none;
  age_bins = λ b. none;
  max_age_list = [];
}

nothing_ages-Represents : Represents no_lists nothing_ages
nothing_ages-Represents = record {
  chain = λ b. refl;
  back = λ b q m. unfold mem_ptr in ground (arith, m);
  distinct = λ b. tt;
  held = λ b q. unfold mem_ptr in refl;
  bounded = λ q e. ground (arith, e);
}

abbrev one_ages : Aging
one_ages = start_aging 10 1 nothing_ages

abbrev two_age : Aging
two_age = start_aging 10 2 one_ages

-- The second is in front of the first, in the bin of age 3.
two_linked :
    (two_age.age_bins 7 ≡ some 2) × (two_age.lsa_agefwd 2 ≡ some 1) × (two_age.lsa_agerv 1 ≡ some 2)
unfolding start_aging file_aging starting_bin stop_aging update age_to_bin
two_linked = (refl, refl, refl)

-- The first is taken out from behind the second, and is in front of it afterwards.
first_again :
    ((start_aging 11 1 two_age).age_bins 8 ≡ some 1)
    × ((start_aging 11 1 two_age).age_bins 7 ≡ some 2)
    × ((start_aging 11 1 two_age).lsa_agefwd 2 ≡ none)
unfolding start_aging file_aging starting_bin stop_aging update age_to_bin
first_again = (refl, refl, refl)

abbrev one_list : ℕ → List Ptr
one_list = filed 10 3 1 (without 1 no_lists)

one_ages-Represents : Represents one_list one_ages
one_ages-Represents =
    (start_aging-Represents 10 1 nothing_ages no_lists (omega arith) refl nothing_ages-Represents).0

start_aging-Represents_example :
    Represents (filed 10 3 2 (without 2 one_list)) two_age
    × (bin_to_age 10 (two_age.lsa_agebin 2) ≡ first_age 3)
unfolding start_aging file_aging
start_aging-Represents_example =
    start_aging-Represents 10 2 one_ages one_list (omega arith) refl one_ages-Represents
