-- ===== src/Base/Decimal.antt =====
-- `operator<<` of an output stream on integers: decimal digits, with the proof that they are enough.
use business.Base.{
  ℕ, zero, suc, ◌+◌, ◌*◌, ◌-◌, ◌/◌, ◌%◌, ◌<◌, ◌≡◌, ap, ◌∙◌, [], ◌∷◌, arith, ◌==◌, if◌then◌else◌,
  Bool-cases, inl, inr,
}
use business.Base.Int.{ℤ, pos, negsuc}
use business.Base.Text.{Text}

-- The digits of `n` before `later`, on fuel.
unfoldable show_from : ℕ → ℕ → Text → Text
show_from zero n later = later
show_from (suc fuel) n later =
    let longer = show_from fuel (n / 10) ((48 + n % 10) ∷ later) in
    if n / 10 == 0 then (48 + n % 10) ∷ later else longer

unfoldable pub show_ℕ : ℕ → Text
unfolding show_from
show_ℕ n = show_from (suc n) n []

unfoldable pub show_ℤ : ℤ → Text
unfolding show_ℕ
show_ℤ (pos n) = show_ℕ n
show_ℤ (negsuc n) = b'-' ∷ show_ℕ (suc n)

-- The number that digits stand for, after those read so far.
unfoldable pub read_from : ℕ → Text → ℕ
read_from n [] = n
read_from n (digit ∷ digits) = read_from (10 * n + (digit - 48)) digits

read_from-show_from :
    (fuel n : ℕ) (later : Text)
    → n < fuel
    → read_from 0 (show_from fuel n later) ≡ read_from n later
unfolding read_from show_from
read_from-show_from zero n later h = omega arith
read_from-show_from (suc fuel) n later h = elim (Bool-cases (n / 10 == 0)) [
  | inl last ↦ rw (show_from, last) (ap (λ m. read_from m later) (ground (arith, last)))
  | inr more ↦
      rw (show_from, more)
        (read_from-show_from fuel (n / 10) ((48 + n % 10) ∷ later) (ground (arith, more))
          ∙ ap (λ m. read_from m later) (omega arith))
]

-- The digits of a number stand for that number.
pub read_from-show_ℕ : (n : ℕ) → read_from 0 (show_ℕ n) ≡ n
unfolding show_ℕ read_from
read_from-show_ℕ n = read_from-show_from (suc n) n [] (omega arith)
