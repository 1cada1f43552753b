-- ===== src/ComFunc/Hash.antt =====
-- `BKDRHash` and `EasyHash` of src/common/com_func.cpp, on `unsigned int` of 32 bits and a signed
-- `char`, as the x86 build has them.

mod Tests
use business.Base.{
  ℕ, ◌+◌, ◌-◌, ◌*◌, ◌%◌, ◌^◌, ◌<◌, ◌≡◌, refl, Bool, true, false, List, [], ◌∷◌, ◌++◌, Option, none,
  some, arith, ltb, ◌==◌, if◌then◌else◌,
}
use business.Base.Text.{Text}
use business.ComFunc.Segment.{IsFree}

-- A `char` converted to `unsigned int`, which extends its sign.
unfoldable pub char_value : ℕ → ℕ
char_value c = if ltb c 128 then c else c + (2 ^ 32 - 256)

-- A C string ends at its first zero byte.
unfoldable pub bkdr_from : ℕ → Text → ℕ
unfolding char_value
bkdr_from hash [] = hash
bkdr_from hash (c ∷ s) =
    let rest = bkdr_from ((hash * 131 + char_value c) % 2 ^ 32) s in if c == 0 then hash else rest

-- `none` is the division by zero.
unfoldable pub bkdr_hash : Text → ℕ → Option ℕ
unfolding bkdr_from
bkdr_hash str m = if m == 0 then none else some (bkdr_from 0 str % m)

unfoldable pub easy_from : ℕ → Text → ℕ
unfolding char_value
easy_from hash [] = hash
easy_from hash (c ∷ s) =
    let rest = easy_from ((hash + char_value c) % 2 ^ 32) s in if c == 0 then hash else rest

unfoldable pub easy_hash : Text → ℕ
unfolding easy_from
easy_hash str = easy_from 0 str

easy_from-bound : (hash : ℕ) (s : Text) → hash < 2 ^ 32 → easy_from hash s < 2 ^ 32
unfolding easy_from
easy_from-bound hash [] lt = lt
easy_from-bound hash (c ∷ s) lt =
    ground (arith, lt, easy_from-bound ((hash + char_value c) % 2 ^ 32) s (omega arith))

easy_from-shift :
    (hash : ℕ) (s : Text) → hash < 2 ^ 32 → easy_from hash s ≡ (hash + easy_from 0 s) % 2 ^ 32
unfolding easy_from
easy_from-shift hash [] lt = omega (arith, lt)
easy_from-shift hash (c ∷ s) lt = ground (
  arith,
  lt,
  easy_from-shift ((hash + char_value c) % 2 ^ 32) s (omega arith),
  easy_from-shift ((0 + char_value c) % 2 ^ 32) s (omega arith),
)

-- On texts without zero bytes, the hash of two texts one after the other is the sum of their hashes
-- modulo 2 ^ 32, so their order does not matter.
pub easy_hash-append :
    (s t : Text) → IsFree 0 s → easy_hash (s ++ t) ≡ (easy_hash s + easy_hash t) % 2 ^ 32
unfolding easy_hash easy_from
easy_hash-append [] t free = omega (arith, easy_from-bound 0 t (omega arith))
easy_hash-append (c ∷ s) t (hc, free) = ground (
  arith,
  hc,
  easy_from-shift ((0 + char_value c) % 2 ^ 32) (s ++ t) (omega arith),
  easy_from-shift ((0 + char_value c) % 2 ^ 32) s (omega arith),
  easy_hash-append s t free,
)

-- A table of `m` entries is never indexed out of range.
pub bkdr_hash-bound : (str : Text) (m h : ℕ) → bkdr_hash str m ≡ some h → h < m
unfolding bkdr_hash
bkdr_hash-bound str m h eq = ground (arith, eq)
