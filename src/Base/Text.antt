-- ===== src/Base/Text.antt =====
-- `std::string` as the list of its bytes, with the comparisons and searches that the program uses.
use Prim.Native.Char.{code}
use Prim.Native.String.{String}
use business.Base.{ℕ, ◌≡◌, refl, Bool, true, false, ◌&&◌, ◌||◌, List, [], ◌∷◌, arith, ltb, ◌==◌}

abbrev pub Text : Type 0
Text = List ℕ

-- The code points of a literal, which are its bytes: the program's literals are ASCII.
unfoldable pub codes : String → Text
codes String.[] = []
codes (String.◌∷◌ c s) = code c ∷ codes s

-- `operator==`
unfoldable pub text_eq : Text → Text → Bool
text_eq [] [] = true
text_eq [] (y ∷ ys) = false
text_eq (x ∷ xs) [] = false
text_eq (x ∷ xs) (y ∷ ys) = (x == y) && text_eq xs ys

-- `operator<`, which compares bytes as unsigned numbers
unfoldable pub text_lt : Text → Text → Bool
text_lt xs [] = false
text_lt [] (y ∷ ys) = true
text_lt (x ∷ xs) (y ∷ ys) = ltb x y || ((x == y) && text_lt xs ys)

abbrev pub is_empty : Text → Bool
is_empty [] = true
is_empty (x ∷ xs) = false

pub text_eq_refl : (a : Text) → text_eq a a ≡ true
unfolding text_eq
text_eq_refl [] = refl
text_eq_refl (x ∷ xs) = ground (arith, text_eq_refl xs)

pub text_eq_sound : (a b : Text) → text_eq a b ≡ true → a ≡ b
unfolding text_eq
text_eq_sound [] [] h = refl
text_eq_sound [] (y ∷ ys) h = cc
text_eq_sound (x ∷ xs) [] h = cc
text_eq_sound (x ∷ xs) (y ∷ ys) h = ground (arith, text_eq_sound xs ys)
