-- ===== src/Json/Collect.antt =====
-- Values that a loop makes one after the other, and a loop that reads them again.
use business.Base.{◌≡◌, refl, ap, List, [], ◌∷◌}
use business.Json.{Parse, thrown, refused, got, ◌>>=◌, collect, bind_got}

module _ {A : Type 0} {B : Type 0} {V : Type 0} {S : Type 0} (p : A → Parse B) (v : A → B → V)
    (s : A → B → S) (g : V → Parse S) (reads : (x : A) (b : B) → g (v x b) ≡ got (s x b)) where
  read_step :
      (x : A) (o : Parse B) (vs : Parse (List V)) (ss : Parse (List S))
      → (vs >>= collect g) ≡ ss
      → (((o >>= λ b. got (v x b)) >>= λ y. vs >>= λ ys. got (y ∷ ys)) >>= collect g)
        ≡ ((o >>= λ b. got (s x b)) >>= λ y. ss >>= λ ys. got (y ∷ ys))
  unfolding collect
  read_step x thrown vs ss e = refl
  read_step x refused vs ss e = refl
  read_step x (got b) thrown ss e = ap (λ r. r >>= λ ys. got (s x b ∷ ys)) e
  read_step x (got b) refused ss e = ap (λ r. r >>= λ ys. got (s x b ∷ ys)) e
  read_step x (got b) (got vs) ss e =
      bind_got _ (reads x b) (ap (λ r. r >>= λ ys. got (s x b ∷ ys)) e)

  -- Values that are made one after the other and read again.
  pub collect-read :
      (xs : List A)
      → (collect (λ x. p x >>= λ b. got (v x b)) xs >>= collect g)
        ≡ collect (λ x. p x >>= λ b. got (s x b)) xs
  unfolding collect
  collect-read [] = refl
  collect-read (x ∷ xs) =
      read_step x (p x) (collect (λ x. p x >>= λ b. got (v x b)) xs)
        (collect (λ x. p x >>= λ b. got (s x b)) xs) (collect-read xs)
