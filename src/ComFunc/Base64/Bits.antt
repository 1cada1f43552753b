-- ===== src/ComFunc/Base64/Bits.antt =====
-- The masks and shifts as arithmetic, and the alphabet as a bijection, checked value by value.
use Prim.Native.Nat.{bit_and}
use business.Base.{
  ℕ, ◌+◌, ◌*◌, ◌/◌, ◌%◌, ◌<◌, ◌≡◌, refl, true, not, ◌&&◌, arith, ◌==◌, ==_iff, all_below,
  all_below_sound,
}
use business.ComFunc.Base64.{Quad, is_base64, to_quad, to_triple, letter, digit}

module _ (f g : ℕ → ℕ) (n : ℕ) (table : all_below n (λ x. f x == g x) ≡ true) where
  by_table : (x : ℕ) → x < n → f x ≡ g x
  by_table x h = (==_iff (f x) (g x)).0 (all_below_sound n (λ x. f x == g x) x table h)

-- The masks of `base64_encode`, on bytes.
mask_fc : (x : ℕ) → x < 256 → bit_and x 0xfc / 4 ≡ x / 4
unfolding all_below
mask_fc = by_table (λ x. bit_and x 0xfc / 4) (λ x. x / 4) 256 refl

mask_03 : (x : ℕ) → x < 256 → bit_and x 0x03 ≡ x % 4
unfolding all_below
mask_03 = by_table (λ x. bit_and x 0x03) (λ x. x % 4) 256 refl

mask_f0 : (x : ℕ) → x < 256 → bit_and x 0xf0 / 16 ≡ x / 16
unfolding all_below
mask_f0 = by_table (λ x. bit_and x 0xf0 / 16) (λ x. x / 16) 256 refl

mask_0f : (x : ℕ) → x < 256 → bit_and x 0x0f ≡ x % 16
unfolding all_below
mask_0f = by_table (λ x. bit_and x 0x0f) (λ x. x % 16) 256 refl

mask_c0 : (x : ℕ) → x < 256 → bit_and x 0xc0 / 64 ≡ x / 64
unfolding all_below
mask_c0 = by_table (λ x. bit_and x 0xc0 / 64) (λ x. x / 64) 256 refl

mask_3f : (x : ℕ) → x < 256 → bit_and x 0x3f ≡ x % 64
unfolding all_below
mask_3f = by_table (λ x. bit_and x 0x3f) (λ x. x % 64) 256 refl

-- The masks of `base64_decode`, on six bits.
mask_30 : (x : ℕ) → x < 64 → bit_and x 0x30 / 16 ≡ x / 16
unfolding all_below
mask_30 = by_table (λ x. bit_and x 0x30 / 16) (λ x. x / 16) 64 refl

mask_3c : (x : ℕ) → x < 64 → bit_and x 0x3c / 4 ≡ x / 4
unfolding all_below
mask_3c = by_table (λ x. bit_and x 0x3c / 4) (λ x. x / 4) 64 refl

abbrev pub InQuad : Quad → Type 0
InQuad (a, b, c, d) = (a < 64) × (b < 64) × (c < 64) × (d < 64)

module _ (a b c : ℕ) (ha : a < 256) (hb : b < 256) (hc : c < 256) where
  pub to_quad_lem : to_quad (a, b, c) ≡ (a / 4, a % 4 * 16 + b / 16, b % 16 * 4 + c / 64, c % 64)
  unfolding to_quad
  to_quad_lem =
      ground
        (arith, mask_fc a ha, mask_03 a ha, mask_f0 b hb, mask_0f b hb, mask_c0 c hc, mask_3f c hc)

  pub to_quad-InQuad : InQuad (to_quad (a, b, c))
  to_quad-InQuad = rw to_quad_lem (omega arith)

module _ (a b c d : ℕ) (ha : a < 64) (hb : b < 64) (hc : c < 64) (hd : d < 64) where
  pub to_triple_lem : to_triple (a, b, c, d) ≡ (a * 4 + b / 16, b % 16 * 16 + c / 4, c % 4 * 64 + d)
  unfolding to_triple
  to_triple_lem =
      ground (arith, mask_30 b hb, mask_0f b (omega arith), mask_3c c hc, mask_03 c (omega arith))

-- What is packed into four letters is unpacked again.
pub to_triple-to_quad :
    (a b c : ℕ) → a < 256 → b < 256 → c < 256 → to_triple (to_quad (a, b, c)) ≡ (a, b, c)
to_triple-to_quad a b c ha hb hc = rw (to_quad_lem a b c ha hb hc) (
    rw
      (to_triple_lem (a / 4) (a % 4 * 16 + b / 16) (b % 16 * 4 + c / 64) (c % 64) (omega arith)
        (omega arith) (omega arith) (omega arith))
      (ground arith))

-- Every letter has its digit, is in the alphabet and is not the padding.
pub digit-letter : (x : ℕ) → x < 64 → digit (letter x) ≡ x
unfolding all_below digit letter
digit-letter = by_table (λ x. digit (letter x)) (λ x. x) 64 refl

pub letter-is_base64 : (x : ℕ) → x < 64 → (not (letter x == b'=') && is_base64 (letter x)) ≡ true
unfolding all_below is_base64 letter
letter-is_base64 x h =
    all_below_sound 64 (λ x. not (letter x == b'=') && is_base64 (letter x)) x refl h
