-- ===== src/Json/Got.antt =====
-- Whether code that can be refused or throw comes to its end.
use business.Base.{◌≡◌, refl, Bool, true, false, ◌&&◌, List, ◌∷◌, Option, none, some, if◌then◌else◌}
use business.Json.{Parse, thrown, refused, got, ◌>>=◌, demand}

abbrev pub is_got {ℓ} : {A : Type ℓ} → Parse A → Bool
is_got thrown = false
is_got refused = false
is_got (got a) = true

pub is_got-demand {ℓ κ} :
    {A : Type ℓ} {B : Type κ} (f : A → B) (o : Option A)
    → is_got (demand o >>= λ a. got (f a)) ≡ elim o [ none ↦ false | some a ↦ true ]
is_got-demand f none = refl
is_got-demand f (some a) = refl

pub is_got-got {ℓ κ} :
    {A : Type ℓ} {B : Type κ} (f : A → B) (m : Parse A) → is_got (m >>= λ a. got (f a)) ≡ is_got m
is_got-got f thrown = refl
is_got-got f refused = refl
is_got-got f (got a) = refl

pub is_got-cons {ℓ} :
    {A : Type ℓ} (m : Parse A) (rest : Parse (List A))
    → is_got (m >>= λ x. rest >>= λ xs. got (x ∷ xs)) ≡ is_got m && is_got rest
is_got-cons thrown rest = refl
is_got-cons refused rest = refl
is_got-cons (got x) rest = is_got-got (λ xs. x ∷ xs) rest

pub asked {ℓ} :
    {A : Type ℓ} (b : Bool) (m : Parse A) (t : Bool)
    → is_got m ≡ t
    → is_got (if b then refused else m) ≡ (if b then false else t)
asked true m t h = refl
asked false m t h = h
