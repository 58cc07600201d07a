-- ===== src/Lsa/Age.antt =====
-- THospf/LSA.h: the ring of bins by which advertisements age.
use ospfbasic.Prelude.{ℕ, suc, ◌≡◌, ◌≤◌, arith, ◌==◌, if◌then◌else◌}
use ospfbasic.Lsa.{max_age, age_to_bin, bin_to_age, next_bin0}

-- `Bin2Age` undoes `Age2Bin` for ages up to MaxAge, and the bin is one of the ring's.
pub bin_to_age-age_to_bin :
    (bin0 age : ℕ)
    → bin0 ≤ max_age
    → age ≤ max_age
    → (bin_to_age bin0 (age_to_bin bin0 age) ≡ age) × (age_to_bin bin0 age ≤ max_age)
unfolding bin_to_age age_to_bin
bin_to_age-age_to_bin bin0 age h k = ground arith

-- With each second the age of a bin grows by one; the bin of MaxAge becomes that of age 0, and
-- `Bin0` stays in the ring.
pub bin_to_age-next_bin0 :
    (bin0 bin : ℕ)
    → bin0 ≤ max_age
    → bin ≤ max_age
    → (bin_to_age (next_bin0 bin0) bin
        ≡ (if bin_to_age bin0 bin == max_age then 0 else suc (bin_to_age bin0 bin)))
      × (next_bin0 bin0 ≤ max_age)
unfolding bin_to_age age_to_bin next_bin0
bin_to_age-next_bin0 bin0 bin h k = ground arith
