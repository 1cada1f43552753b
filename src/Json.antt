-- ===== src/Json.antt =====
-- What the data classes use of jsoncpp, as a record of functions, and a result type for code that
-- returns false early or lets an exception of jsoncpp through.
pub mod Laws
pub mod Small
pub mod Writer
pub mod SmallWriter
pub mod Members
pub mod Collect
pub mod Append
pub mod Got
use business.Base.{
  ◌≡◌, refl, ap, ◌∙◌, ℕ, Bool, true, false, List, [], ◌∷◌, ◌++◌, Option, none, some, if◌then◌else◌,
}
use business.Base.Int.{ℤ}
use business.Base.Text.{Text, codes}

-- `thrown` is an exception, `refused` an early `return false`.
pub data Parse {ℓ} (A : Type ℓ) : Type ℓ where
  thrown refused : Parse A
  got : A → Parse A

infixl 1 ◌>>=◌
abbrev pub ◌>>=◌ {ℓ κ} : {A : Type ℓ} {B : Type κ} → Parse A → (A → Parse B) → Parse B
thrown >>= f = thrown
refused >>= f = refused
got a >>= f = f a

-- A step that is known to succeed.
pub bind_got {ℓ κ} :
    {A : Type ℓ} {B : Type κ} {m : Parse A} {a : A} {r : Parse B} (f : A → Parse B)
    → m ≡ got a
    → f a ≡ r
    → (m >>= f) ≡ r
bind_got f e h = ap (λ x. x >>= f) e ∙ h

pub bind_assoc {ℓ κ μ} :
    {A : Type ℓ} {B : Type κ} {C : Type μ} (m : Parse A) (f : A → Parse B) (g : B → Parse C)
    → ((m >>= f) >>= g) ≡ (m >>= λ a. f a >>= g)
bind_assoc thrown f g = refl
bind_assoc refused f g = refl
bind_assoc (got a) f g = refl

pub bind_nothing {ℓ} : {A : Type ℓ} (m : Parse A) → (m >>= λ a. got a) ≡ m
bind_nothing thrown = refl
bind_nothing refused = refl
bind_nothing (got a) = refl

-- A call of jsoncpp: `none` is its exception.
abbrev pub call {ℓ} : {A : Type ℓ} → Option A → Parse A
call none = thrown
call (some a) = got a

-- A condition that the code answers with `return false`.
abbrev pub demand {ℓ} : {A : Type ℓ} → Option A → Parse A
demand none = refused
demand (some a) = got a

abbrev pub get_or_else {ℓ} : {A : Type ℓ} → Option A → A → A
get_or_else none old = old
get_or_else (some a) old = a

-- A loop that appends what its body makes of each element.
unfoldable pub collect {ℓ κ} : {A : Type ℓ} {B : Type κ} → (A → Parse B) → List A → Parse (List B)
collect f [] = got []
collect f (x ∷ xs) = f x >>= λ y. collect f xs >>= λ ys. got (y ∷ ys)

-- `Json::Value` with the members that the program calls; `items` is `size()` and `operator[](i)` of an
-- array, and `parse` is `CharReader::parse`, false or with an exception as `none`.
pub record JsonLib : Type 1 where
  pub Value : Type 0
  pub parse : Text → Option Value
  pub is_object : Value → Bool
  pub is_array : Value → Bool
  pub is_string : Value → Bool
  pub is_int : Value → Bool
  pub is_int64 : Value → Bool
  pub is_bool : Value → Bool
  pub is_double : Value → Bool
  pub Double : Type 0
  pub is_member : Value → Text → Option Bool
  pub at : Value → Text → Option Value
  pub items : Value → List Value
  pub as_string : Value → Option Text
  pub as_int : Value → Option ℤ
  pub as_int64 : Value → Option ℤ
  pub as_bool : Value → Option Bool
  pub as_double : Value → Option Double
  pub as_uint : Value → Option ℕ

module _ (J : JsonLib) where
  -- `hobotcommon::parse_json`
  unfoldable pub parse_json : Text → Option (J.Value)
  parse_json in_str = elim (J.parse in_str) [
    | none ↦ none
    | some out_jv ↦ if J.is_object out_jv then some out_jv else none
  ]

  -- `v.isMember(k) && test(v[k])`, with `get(v[k])` where it holds
  unfoldable pub field {ℓ} :
      {A : Type ℓ} → (J.Value → Bool) → (J.Value → Option A) → J.Value → Text → Parse (Option A)
  field test get v k = call (J.is_member v k) >>= λ there.
      if there
      then (call (J.at v k) >>= λ w.
          if test w then (call (get w) >>= λ a. got (some a)) else got none)
      else got none

  abbrev pub text_field : J.Value → Text → Parse (Option Text)
  text_field = field J.is_string J.as_string

  abbrev pub int_field : J.Value → Text → Parse (Option ℤ)
  int_field = field J.is_int J.as_int

  abbrev pub int64_field : J.Value → Text → Parse (Option ℤ)
  int64_field = field J.is_int64 J.as_int64

  abbrev pub object_field : J.Value → Text → Parse (Option (J.Value))
  object_field = field J.is_object (λ w. some w)

  abbrev pub array_field : J.Value → Text → Parse (Option (List (J.Value)))
  array_field = field J.is_array (λ w. some (J.items w))
