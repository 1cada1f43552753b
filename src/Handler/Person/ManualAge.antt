-- ===== src/Handler/Person/ManualAge.antt =====
-- Every person that is read has a manual age.
use business.Base.{
  ◌≡◌, refl, Bool, true, false, ◌||◌, List, [], ◌∷◌, ◌++◌, Option, none, some, arith, Bool-cases,
  Option-cases, inl, inr,
}
use business.Base.Int.{pos, negsuc, eq_ℤ}
use business.Base.Text.{Text, text_eq, codes}
use business.Json.{
  Parse, thrown, refused, got, ◌>>=◌, get_or_else, JsonLib, parse_json, int_field, object_field,
  field, text_field, array_field,
}
use business.Handler.Person.{
  Attribute, unknown_age, is_manual_age, complete_attributes, TrackResult, PersonResult,
  parse_attribute, note_attribute, attribute_loop, parse_attributes, parse_track, parse_person,
  Found, read_result, get_person_result,
}

-- A property of the result, if there is one.
abbrev pub Yields {ℓ} : {A : Type ℓ} → (A → Type 0) → Parse A → Type 0
Yields P thrown = Unit
Yields P refused = Unit
Yields P (got a) = P a

bind-Yields {ℓ κ} :
    {A : Type ℓ} {B : Type κ} (P : A → Type 0) (Q : B → Type 0) (p : Parse A) (f : A → Parse B)
    → Yields P p
    → ((a : A) → P a → Yields Q (f a))
    → Yields Q (p >>= f)
bind-Yields P Q thrown f h k = tt
bind-Yields P Q refused f h k = tt
bind-Yields P Q (got a) f h k = k a h

-- Whatever the first part is.
after-Yields {ℓ κ} :
    {A : Type ℓ} {B : Type κ} (Q : B → Type 0) (p : Parse A) (f : A → Parse B)
    → ((a : A) → Yields Q (f a))
    → Yields Q (p >>= f)
after-Yields Q thrown f k = tt
after-Yields Q refused f k = tt
after-Yields Q (got a) f k = k a

abbrev pub has_manual_age : List Attribute → Bool
has_manual_age [] = false
has_manual_age (a ∷ attributes) = is_manual_age a || has_manual_age attributes

-- The flag of the loop is right.
abbrev IsNoted : Bool × List Attribute → Type 0
IsNoted (found, attributes) = found ≡ true → has_manual_age attributes ≡ true

has_manual_age-append :
    (attributes : List Attribute) (a : Attribute)
    → has_manual_age (attributes ++ a ∷ []) ≡ (has_manual_age attributes || is_manual_age a)
has_manual_age-append [] a = ground (arith, Bool-cases (is_manual_age a))
has_manual_age-append (b ∷ attributes) a = ground (arith, has_manual_age-append attributes a)

note_attribute-IsNoted :
    (o : Option Attribute) (state : Bool × List Attribute)
    → IsNoted state
    → IsNoted (note_attribute o state)
note_attribute-IsNoted none (found, attributes) noted = noted
note_attribute-IsNoted (some a) (true, attributes) noted =
    λ h. ground (arith, noted refl, has_manual_age-append attributes a)
note_attribute-IsNoted (some a) (false, attributes) noted =
    λ h. ground (arith, h, has_manual_age-append attributes a)

complete_attributes-has_manual_age :
    (state : Bool × List Attribute)
    → IsNoted state
    → has_manual_age (complete_attributes state) ≡ true
unfolding complete_attributes unknown_age is_manual_age text_eq codes
complete_attributes-has_manual_age (true, attributes) noted = noted refl
complete_attributes-has_manual_age (false, attributes) noted =
    ground (arith, has_manual_age-append attributes unknown_age)

module _ (J : JsonLib) where
  attribute_loop-IsNoted :
      (vs : List (J.Value)) (state : Bool × List Attribute)
      → IsNoted state
      → Yields IsNoted (attribute_loop J vs state)
  unfolding attribute_loop
  attribute_loop-IsNoted [] state noted = noted
  attribute_loop-IsNoted (v ∷ vs) state noted =
      after-Yields IsNoted (parse_attribute J v) _ λ o.
        attribute_loop-IsNoted vs (note_attribute o state) (note_attribute-IsNoted o state noted)

  abbrev pub HasManualAge : PersonResult J → Type 0
  HasManualAge person = has_manual_age person.person_attributes ≡ true

  abbrev AreManual : List Attribute → Type 0
  AreManual new = has_manual_age new ≡ true

  parse_attributes-AreManual :
      (person : J.Value) (attributes : List Attribute)
      → Yields AreManual (parse_attributes J person attributes)
  unfolding parse_attributes codes
  parse_attributes-AreManual person attributes =
      after-Yields AreManual (array_field J person (codes "attribute")) _ λ found.
        bind-Yields IsNoted AreManual (attribute_loop J (get_or_else found []) (false, attributes))
          _ (attribute_loop-IsNoted (get_or_else found []) (false, attributes) (λ h. absurd cc))
          complete_attributes-has_manual_age

  parse_person-HasManualAge :
      (person : J.Value) (old : PersonResult J) → Yields HasManualAge (parse_person J person old)
  unfolding parse_person codes
  parse_person-HasManualAge person old =
      after-Yields HasManualAge (text_field J person (codes "id")) _ λ id.
        after-Yields HasManualAge (text_field J person (codes "url")) _ λ url.
          after-Yields HasManualAge (text_field J person (codes "set_name")) _ λ set_name.
            after-Yields HasManualAge (int_field J person (codes "type")) _ λ type.
              after-Yields HasManualAge (int_field J person (codes "is_auto_reg")) _ λ is_auto_reg.
                after-Yields HasManualAge
                  (field J J.is_double J.as_double person (codes "slimilar")) _
                  λ similar.
                    after-Yields HasManualAge (int_field J person (codes "atime")) _ λ atime.
                      bind-Yields AreManual HasManualAge
                        (parse_attributes J person old.person_attributes) _
                        (parse_attributes-AreManual person old.person_attributes) (λ new h. h)

  abbrev pub IsComplete : Found J → Type 0
  IsComplete f = f.ok ≡ true → HasManualAge f.person

  read_result-IsComplete :
      (result : J.Value) (track : TrackResult J) (person : PersonResult J)
      → Yields IsComplete (read_result J result track person)
  unfolding read_result codes
  read_result-IsComplete result track person =
      after-Yields IsComplete (object_field J result (codes "track_result")) _ (elim [
        | none ↦ λ ok. absurd cc
        | some track_jv ↦ after-Yields IsComplete (parse_track J track_jv track) _ λ track'.
            after-Yields IsComplete (object_field J result (codes "person_result")) _ (elim [
              | none ↦ λ ok. absurd cc
              | some person_jv ↦
                  bind-Yields HasManualAge IsComplete (parse_person J person_jv person) _
                    (parse_person-HasManualAge person_jv person) (λ person' h ok. h)
            ])
      ])

  -- Reading the result of the tracing service without an exception and with success leaves an attribute
  -- with the type of a manual age, whatever the service sent and whatever attributes there were.
  pub get_person_result-HasManualAge :
      (pic_result : Text) (track : TrackResult J) (person : PersonResult J)
      → Yields IsComplete (get_person_result J pic_result track person)
  unfolding get_person_result codes
  get_person_result-HasManualAge pic_result track person =
      elim (Option-cases (parse_json J pic_result)) [
        | inl failed ↦ rw (get_person_result, failed) (λ ok. absurd cc)
        | inr (result_jv, parsed) ↦
            rw (get_person_result, parsed)
              (after-Yields IsComplete (int_field J result_jv (codes "error_code")) _ λ code.
                elim (Bool-cases (eq_ℤ (get_or_else code (negsuc 0)) (pos 0))) [
                  | inl zero ↦ rw zero (
                      after-Yields IsComplete (object_field J result_jv (codes "result")) _ (elim [
                        | none ↦ λ ok. absurd cc
                        | some r ↦ read_result-IsComplete r track person
                      ]))
                  | inr other ↦ rw other (λ ok. absurd cc)
                ])
      ]
