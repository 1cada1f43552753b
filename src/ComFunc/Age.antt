-- ===== src/ComFunc/Age.antt =====
-- `Age` of src/common/com_func.cpp.
mod Tests
use business.Base.{ℕ, ◌+◌, ◌≡◌, refl, Bool, ◌&&◌, List, [], ◌∷◌, arith, ltb, if◌then◌else◌}
use business.Base.Int.{ℤ, pos, negsuc, leb_ℤ}

-- The index of the band that an age falls into; -1 for none.
unfoldable pub age_index : ℤ → ℤ
age_index age =
    if leb_ℤ (pos 0) age && leb_ℤ age (pos 6)
    then pos 0
    else if leb_ℤ (pos 7) age && leb_ℤ age (pos 12)
    then pos 1
    else if leb_ℤ (pos 13) age && leb_ℤ age (pos 18)
    then pos 2
    else if leb_ℤ (pos 19) age && leb_ℤ age (pos 28)
    then pos 3
    else if leb_ℤ (pos 29) age && leb_ℤ age (pos 35)
    then pos 4
    else if leb_ℤ (pos 36) age && leb_ℤ age (pos 45)
    then pos 5
    else if leb_ℤ (pos 46) age && leb_ℤ age (pos 55)
    then pos 6
    else if leb_ℤ (pos 56) age
    then pos 7
    else negsuc 0

-- How many of the limits a number exceeds.
abbrev pub exceeded : List ℕ → ℕ → ℕ
exceeded [] n = 0
exceeded (l ∷ ls) n = (if ltb l n then 1 else 0) + exceeded ls n

-- The index of an age that is not negative is the number of band limits below it, without an upper
-- end to the last band; a negative age gets -1.
pub age_index-exceeded :
    (age : ℤ)
    → age_index age ≡ elim age [
      | pos n ↦ pos (exceeded (6 ∷ 12 ∷ 18 ∷ 28 ∷ 35 ∷ 45 ∷ 55 ∷ []) n)
      | negsuc n ↦ negsuc 0
    ]
unfolding age_index
age_index-exceeded (pos n) = ground arith
age_index-exceeded (negsuc n) = ground arith
