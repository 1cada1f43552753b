-- ===== src/ComFunc/Age/Tests.antt =====
-- Ages in and beyond the bands.
use business.Base.{◌≡◌, refl, [], ◌∷◌}
use business.Base.Int.{pos}
use business.ComFunc.Age.{age_index, exceeded, age_index-exceeded}

age_index-exceeded_example :
    age_index (pos 36) ≡ pos (exceeded (6 ∷ 12 ∷ 18 ∷ 28 ∷ 35 ∷ 45 ∷ 55 ∷ []) 36)
age_index-exceeded_example = age_index-exceeded (pos 36)

-- The last band has no upper end.
beyond_hundred : age_index (pos 250) ≡ pos 7
unfolding age_index
beyond_hundred = refl
