-- ===== src/Checksum/Fletcher/Tests.antt =====
-- Fletcher's checksum on a router advertisement with one link.
use ospfbasic.Prelude.{ℕ, ◌≡◌, ◌≢◌, refl, true, List, [], ◌∷◌, set, arith}
use ospfbasic.Checksum.Fletcher.{fletcher, message_length, verify_cksum, generate_cksum}
use ospfbasic.Checksum.Fletcher.Verify.{verify-generate, fletcher-detects}

-- From `ls_opts` on: options, type, id, originator, sequence number, checksum, length 36, body.
abbrev advert : List ℕ
advert =
    2 ∷ 1 ∷ 1 ∷ 1 ∷ 1 ∷ 1 ∷ 1 ∷ 1 ∷ 1 ∷ 1 ∷ 128 ∷ 0 ∷ 0 ∷ 1 ∷ 7 ∷ 9 ∷ 0 ∷ 36 ∷ 0 ∷ 0 ∷ 0 ∷ 1 ∷ 10
    ∷ 0 ∷ 0 ∷ 0 ∷ 255 ∷ 255 ∷ 255 ∷ 0 ∷ 3 ∷ 0 ∷ 0 ∷ 10 ∷ []

advert_unchecked : verify_cksum advert ≢ true
unfolding verify_cksum
advert_unchecked h = cc h

abbrev tail4 : List ℕ
tail4 = 1 ∷ 2 ∷ 251 ∷ 1 ∷ []

verify-generate_example :
    (verify_cksum (generate_cksum advert) ≡ true)
    × (message_length (generate_cksum advert) ≡ message_length advert)
unfolding message_length
verify-generate_example = verify-generate advert (omega arith) (omega arith)

fletcher-detects_example : (fletcher (set (254 ∷ 2 ∷ 254 ∷ []) 1 3) 0).0 ≢ 0
unfolding fletcher
fletcher-detects_example = fletcher-detects (254 ∷ 2 ∷ 254 ∷ []) 1 3 2 refl refl (omega arith)
