-- ===== src/Json/Laws.antt =====
-- What jsoncpp documents, and which code cannot throw because of it.
use business.Base.{
  ◌≡◌, refl, Bool, true, false, List, [], ◌∷◌, Option, none, some, All, if◌then◌else◌, Bool-cases,
  Option-cases, inl, inr,
}
use business.Base.Int.{ℤ}
use business.Base.Text.{Text}
use business.Json.{
  Parse, thrown, refused, got, ◌>>=◌, call, demand, collect, JsonLib, parse_json, field, text_field,
  int_field, int64_field, object_field, array_field,
}

-- No exception, and a result that has a property.
abbrev pub Ensures {ℓ} : {A : Type ℓ} → (A → Type 0) → Parse A → Type 0
Ensures P thrown = ⊥
Ensures P refused = Unit
Ensures P (got a) = P a

-- A value that is there, with a property; a property of the value, if it is there.
abbrev pub IsSome {ℓ} : {A : Type ℓ} → (A → Type 0) → Option A → Type 0
IsSome P none = ⊥
IsSome P (some a) = P a

abbrev pub OnSome {ℓ} : {A : Type ℓ} → (A → Type 0) → Option A → Type 0
OnSome P none = Unit
OnSome P (some a) = P a

abbrev pub Always {ℓ} : {A : Type ℓ} → A → Type 0
Always a = Unit

pub bind-Ensures {ℓ κ} :
    {A : Type ℓ} {B : Type κ} (P : A → Type 0) (Q : B → Type 0) (p : Parse A) (f : A → Parse B)
    → Ensures P p
    → ((a : A) → P a → Ensures Q (f a))
    → Ensures Q (p >>= f)
bind-Ensures P Q thrown f h k = h
bind-Ensures P Q refused f h k = tt
bind-Ensures P Q (got a) f h k = k a h

pub weaken-Ensures {ℓ} :
    {A : Type ℓ} (P Q : A → Type 0) (p : Parse A)
    → Ensures P p
    → ((a : A) → P a → Q a)
    → Ensures Q p
weaken-Ensures P Q thrown h k = h
weaken-Ensures P Q refused h k = tt
weaken-Ensures P Q (got a) h k = k a h

pub call-Ensures {ℓ} :
    {A : Type ℓ} (P : A → Type 0) (o : Option A) → IsSome P o → Ensures P (call o)
call-Ensures P none h = h
call-Ensures P (some a) h = h

pub demand-Ensures {ℓ} :
    {A : Type ℓ} (P : A → Type 0) (o : Option A) → OnSome P o → Ensures P (demand o)
demand-Ensures P none h = tt
demand-Ensures P (some a) h = h

-- What follows a condition.
pub after-demand {ℓ κ} :
    {A : Type ℓ} {B : Type κ} (P : A → Type 0) (Q : B → Type 0) (o : Option A) (f : A → Parse B)
    → OnSome P o
    → ((a : A) → P a → Ensures Q (f a))
    → Ensures Q (demand o >>= f)
after-demand P Q none f h rest = tt
after-demand P Q (some a) f h rest = rest a h

pub OnSome-Always {ℓ} : {A : Type ℓ} (o : Option A) → OnSome Always o
OnSome-Always none = tt
OnSome-Always (some a) = tt

pub if-Ensures {ℓ} :
    {A : Type ℓ} (P : A → Type 0) (b : Bool) (p q : Parse A)
    → (b ≡ true → Ensures P p)
    → (b ≡ false → Ensures P q)
    → Ensures P (if b then p else q)
if-Ensures P true p q hp hq = hp refl
if-Ensures P false p q hp hq = hq refl

pub collect-Ensures {ℓ} :
    {A B : Type ℓ} (P : A → Type 0) (f : A → Parse B) (xs : List A)
    → ((a : A) → P a → Ensures Always (f a))
    → All P xs
    → Ensures Always (collect f xs)
unfolding collect
collect-Ensures P f [] h all = tt
collect-Ensures P f (x ∷ xs) h (hx, all) =
    bind-Ensures Always Always (f x) _ (h x hx)
      λ y u. bind-Ensures Always Always (collect f xs) _ (collect-Ensures P f xs h all) λ ys v. tt

-- An object can be asked for any member; a value of a kind can be taken as that kind.
pub record IsJson (J : JsonLib) : Type 0 where
  pub member : (v : J.Value) (k : Text) → J.is_object v ≡ true → IsSome Always (J.is_member v k)
  pub at : (v : J.Value) (k : Text) → J.is_object v ≡ true → IsSome Always (J.at v k)
  pub string : (v : J.Value) → J.is_string v ≡ true → IsSome Always (J.as_string v)
  pub int : (v : J.Value) → J.is_int v ≡ true → IsSome Always (J.as_int v)
  pub int64 : (v : J.Value) → J.is_int64 v ≡ true → IsSome Always (J.as_int64 v)

module _ (J : JsonLib) (laws : IsJson J) where
  -- A member of an object that passes a test has what the test says.
  pub field-Ensures :
      {A : Type 0} (P : A → Type 0) (test : J.Value → Bool) (get : J.Value → Option A) (v : J.Value)
      (k : Text)
      → J.is_object v ≡ true
      → ((w : J.Value) → test w ≡ true → IsSome P (get w))
      → Ensures (OnSome P) (field J test get v k)
  unfolding field
  field-Ensures P test get v k obj fits =
      bind-Ensures Always (OnSome P) (call (J.is_member v k)) _
        (call-Ensures Always _ (laws.member v k obj))
        λ there u.
          if-Ensures (OnSome P) there _ _
            (λ is_there.
              bind-Ensures Always (OnSome P) (call (J.at v k)) _
                (call-Ensures Always _ (laws.at v k obj))
                λ w u.
                  if-Ensures (OnSome P) (test w) _ _
                    (λ passed.
                      bind-Ensures P (OnSome P) (call (get w)) _ (call-Ensures P _ (fits w passed))
                        λ a ha. ha)
                    (λ failed. tt))
            (λ missing. tt)

  -- What follows a member that is read, in code that never throws.
  module _ {B : Type 0} (Q : B → Type 0) (v : J.Value) (k : Text) (obj : J.is_object v ≡ true) where
    pub after-text :
        (f : Option Text → Parse B)
        → ((o : Option Text) → Ensures Q (f o))
        → Ensures Q (text_field J v k >>= f)
    after-text f rest =
        bind-Ensures (OnSome Always) Q (text_field J v k) f
          (field-Ensures Always J.is_string J.as_string v k obj laws.string) λ o u. rest o

    pub after-int :
        (f : Option ℤ → Parse B)
        → ((o : Option ℤ) → Ensures Q (f o))
        → Ensures Q (int_field J v k >>= f)
    after-int f rest =
        bind-Ensures (OnSome Always) Q (int_field J v k) f
          (field-Ensures Always J.is_int J.as_int v k obj laws.int) λ o u. rest o

    pub after-int64 :
        (f : Option ℤ → Parse B)
        → ((o : Option ℤ) → Ensures Q (f o))
        → Ensures Q (int64_field J v k >>= f)
    after-int64 f rest =
        bind-Ensures (OnSome Always) Q (int64_field J v k) f
          (field-Ensures Always J.is_int64 J.as_int64 v k obj laws.int64) λ o u. rest o

    pub after-array :
        (f : Option (List (J.Value)) → Parse B)
        → ((o : Option (List (J.Value))) → Ensures Q (f o))
        → Ensures Q (array_field J v k >>= f)
    after-array f rest =
        bind-Ensures (OnSome Always) Q (array_field J v k) f
          (field-Ensures Always J.is_array _ v k obj (λ w h. tt)) λ o u. rest o

    pub after-object :
        (f : Option (J.Value) → Parse B)
        → ((o : Option (J.Value)) → OnSome (λ w. J.is_object w ≡ true) o → Ensures Q (f o))
        → Ensures Q (object_field J v k >>= f)
    after-object f rest =
        bind-Ensures (OnSome (λ w. J.is_object w ≡ true)) Q (object_field J v k) f
          (field-Ensures (λ w. J.is_object w ≡ true) J.is_object _ v k obj (λ w h. h)) rest

  -- A text that is parsed is an object.
  pub parse_json-IsObject : (s : Text) → OnSome (λ w. J.is_object w ≡ true) (parse_json J s)
  unfolding parse_json
  parse_json-IsObject s = elim (Option-cases (J.parse s)) [
    | inl failed ↦ rw (parse_json, failed) tt
    | inr (w, parsed) ↦ elim (Bool-cases (J.is_object w)) [
      | inl obj ↦ rw (parse_json, parsed) (rw obj obj)
      | inr other ↦ rw (parse_json, parsed) (rw other tt)
    ]
  ]
