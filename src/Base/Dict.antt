-- ===== src/Base/Dict.antt =====
-- Maps as association lists without order: `std::map`, where the program does not use the order.
use business.Base.{
  ◌≡◌, refl, Bool, true, false, List, [], ◌∷◌, Option, none, some, arith, if◌then◌else◌, Bool-cases,
  inl, inr, ==_refl,
}
use business.Base.Int.{ℤ, eq_ℤ, eq_of_parts}
use business.Base.Text.{Text, text_eq, text_eq_refl, text_eq_sound}

pub record Eq {ℓ} (A : Type ℓ) : Type ℓ where
  pub beq : A → A → Bool
  pub beq_refl : (a : A) → beq a a ≡ true
  pub beq_sound : (a b : A) → beq a b ≡ true → a ≡ b

pub int_sound : (a b : ℤ) → eq_ℤ a b ≡ true → a ≡ b
int_sound a b h = eq_of_parts a b (ground arith)

instance abbrev pub int_eq : Eq ℤ
int_eq = record { beq = eq_ℤ; beq_refl = λ a. ==_refl _; beq_sound = int_sound }

instance abbrev pub text_eq_laws : Eq Text
text_eq_laws = record { beq = text_eq; beq_refl = text_eq_refl; beq_sound = text_eq_sound }

abbrev pub Dict {ℓ κ} : Type ℓ → Type κ → Type (ℓ ⊔ κ)
Dict K V = List (K × V)

module _ {ℓ κ} {K : Type ℓ} {V : Type κ} ⦃e : Eq K⦄ where
  -- `find`
  unfoldable pub lookup : K → Dict K V → Option V
  lookup k [] = none
  lookup k ((j, v) ∷ d) = if e.beq j k then some v else lookup k d

  -- `d[k] = v`
  unfoldable pub assign : K → V → Dict K V → Dict K V
  assign k v [] = (k, v) ∷ []
  assign k v ((j, w) ∷ d) = if e.beq j k then (j, v) ∷ d else (j, w) ∷ assign k v d

  -- `erase`
  unfoldable pub erase : K → Dict K V → Dict K V
  erase k [] = []
  erase k ((j, w) ∷ d) = if e.beq j k then erase k d else (j, w) ∷ erase k d

  pub lookup-assign : (k : K) (v : V) (d : Dict K V) → lookup k (assign k v d) ≡ some v
  unfolding lookup assign
  lookup-assign k v [] = rw (e.beq_refl k) refl
  lookup-assign k v ((j, w) ∷ d) = ground (arith, lookup-assign k v d)

  pub lookup-assign_ne :
      (k q : K) (v : V) (d : Dict K V) → e.beq k q ≡ false → lookup q (assign k v d) ≡ lookup q d
  unfolding lookup assign
  lookup-assign_ne k q v [] h = rw h refl
  lookup-assign_ne k q v ((j, w) ∷ d) h = elim (Bool-cases (e.beq j k)) [
    | inl same ↦ rw (same, e.beq_sound j k same, h) refl
    | inr other ↦ rw (other, lookup-assign_ne k q v d h) refl
  ]

  pub lookup-erase : (k : K) (d : Dict K V) → lookup k (erase k d) ≡ none
  unfolding lookup erase
  lookup-erase k [] = refl
  lookup-erase k ((j, w) ∷ d) = ground (arith, lookup-erase k d)

  pub lookup-erase_ne :
      (k q : K) (d : Dict K V) → e.beq k q ≡ false → lookup q (erase k d) ≡ lookup q d
  unfolding lookup erase
  lookup-erase_ne k q [] h = refl
  lookup-erase_ne k q ((j, w) ∷ d) h = elim (Bool-cases (e.beq j k)) [
    | inl same ↦ rw (same, e.beq_sound j k same, h) (lookup-erase_ne k q d h)
    | inr other ↦ rw (other, lookup-erase_ne k q d h) refl
  ]
