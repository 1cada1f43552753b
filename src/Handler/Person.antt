-- ===== src/Handler/Person.antt =====
-- `getPersonResult` of src/handler/pre_handler.cpp, which reads the result of the tracing service that redis
-- kept. What is read before a `break` stays in the session.
pub mod ManualAge
use business.Base.{
  ℕ, Bool, true, false, ◌||◌, List, [], ◌∷◌, ◌++◌, Option, none, some, if◌then◌else◌,
}
use business.Base.Int.{ℤ, pos, negsuc, eq_ℤ}
use business.Base.Text.{Text, codes, text_eq, is_empty}
use business.Json.{
  Parse, thrown, refused, got, ◌>>=◌, call, get_or_else, JsonLib, parse_json, field, text_field,
  int_field, object_field, array_field,
}

-- `PersonResultAttribute`
pub record Attribute : Type 0 where
  pub type : Text
  pub value : Text
  pub confidence : ℤ
  pub mtime : ℤ
  pub is_manual : Bool

abbrev pub new_attribute : Attribute
new_attribute = record {
  type = [];
  value = [];
  confidence = pos 0;
  mtime = pos 0;
  is_manual = false;
}

-- The attribute that is added when the service names no manual age.
unfoldable pub unknown_age : Attribute
unfolding codes
unknown_age = record new_attribute { type = codes "manual_age"; value = codes "-1" }

unfoldable pub is_manual_age : Attribute → Bool
unfolding codes text_eq
is_manual_age a = text_eq a.type (codes "manual_age")

abbrev pub is_blank : Option Text → Bool
is_blank none = false
is_blank (some t) = is_empty t

-- After the loop: the flag says whether it met a manual age.
unfoldable pub complete_attributes : Bool × List Attribute → List Attribute
unfolding unknown_age
complete_attributes (found, attributes) =
    if found then attributes else attributes ++ unknown_age ∷ []

abbrev pub note_attribute : Option Attribute → Bool × List Attribute → Bool × List Attribute
note_attribute none (found, attributes) = (found, attributes)
note_attribute (some a) (found, attributes) = (found || is_manual_age a, attributes ++ a ∷ [])

module _ (J : JsonLib) where
  -- `TrackResult`, `PersonResult`; what the person has beyond this is not read here.
  pub record TrackResult : Type 0 where
    pub age : ℤ
    pub gender : ℤ
    pub score : J.Double

  pub record PersonResult : Type 0 where
    pub id : Text
    pub url : Text
    pub set_name : Text
    pub type : ℤ
    pub is_auto_reg : ℤ
    pub similar : J.Double
    pub atime : ℤ
    pub person_attributes : List Attribute

  -- One element of `attribute`; `none` is the `continue` on an empty type.
  unfoldable pub parse_attribute : J.Value → Parse (Option Attribute)
  unfolding codes
  parse_attribute v = do
    type ← text_field J v (codes "type")
    if is_blank type then got none else (do
      value ← text_field J v (codes "value")
      confidence ← int_field J v (codes "confidence")
      mtime ← int_field J v (codes "mtime")
      is_manual ← field J J.is_bool J.as_bool v (codes "is_manual")
      got (
          some (record {
            type = get_or_else type [];
            value = get_or_else value [];
            confidence = get_or_else confidence (pos 0);
            mtime = get_or_else mtime (pos 0);
            is_manual = get_or_else is_manual false;
          })))

  unfoldable pub attribute_loop :
      List (J.Value) → Bool × List Attribute → Parse (Bool × List Attribute)
  unfolding parse_attribute is_manual_age
  attribute_loop [] state = got state
  attribute_loop (v ∷ vs) state =
      parse_attribute v >>= λ o. attribute_loop vs (note_attribute o state)

  unfoldable pub parse_attributes : J.Value → List Attribute → Parse (List Attribute)
  unfolding codes attribute_loop complete_attributes
  parse_attributes person attributes = do
    found ← array_field J person (codes "attribute")
    state ← attribute_loop (get_or_else found []) (false, attributes)
    got (complete_attributes state)

  unfoldable pub parse_track : J.Value → TrackResult → Parse TrackResult
  unfolding codes
  parse_track track old = do
    age ← int_field J track (codes "age")
    gender ← int_field J track (codes "gender")
    score ← field J J.is_double J.as_double track (codes "score")
    got (record {
      age = get_or_else age old.age;
      gender = get_or_else gender old.gender;
      score = get_or_else score old.score;
    })

  unfoldable pub parse_person : J.Value → PersonResult → Parse PersonResult
  unfolding codes parse_attributes
  parse_person person old = do
    id ← text_field J person (codes "id")
    url ← text_field J person (codes "url")
    set_name ← text_field J person (codes "set_name")
    type ← int_field J person (codes "type")
    is_auto_reg ← int_field J person (codes "is_auto_reg")
    similar ← field J J.is_double J.as_double person (codes "slimilar")
    atime ← int_field J person (codes "atime")
    person_attributes ← parse_attributes person old.person_attributes
    got (record {
      id = get_or_else id old.id;
      url = get_or_else url old.url;
      set_name = get_or_else set_name old.set_name;
      type = get_or_else type old.type;
      is_auto_reg = get_or_else is_auto_reg old.is_auto_reg;
      similar = get_or_else similar old.similar;
      atime = get_or_else atime old.atime;
      person_attributes = person_attributes;
    })

  -- The results so far, and what `getPersonResult` returns.
  pub record Found : Type 0 where
    pub track : TrackResult
    pub person : PersonResult
    pub ok : Bool

  unfoldable pub read_result : J.Value → TrackResult → PersonResult → Parse Found
  unfolding codes parse_track parse_person
  read_result result track person = do
    found_track ← object_field J result (codes "track_result")
    elim found_track [
      | none ↦ got (record { track = track; person = person; ok = false })
      | some track_jv ↦ do
        track' ← parse_track track_jv track
        found_person ← object_field J result (codes "person_result")
        elim found_person [
          | none ↦ got (record { track = track'; person = person; ok = false })
          | some person_jv ↦ do
            person' ← parse_person person_jv person
            got (record { track = track'; person = person'; ok = true })
        ]
    ]

  unfoldable pub get_person_result : Text → TrackResult → PersonResult → Parse Found
  unfolding codes parse_json read_result
  get_person_result pic_result track person =
      let failed : Found = record { track = track; person = person; ok = false } in
      elim (parse_json J pic_result) [
        | none ↦ got failed
        | some result_jv ↦ do
          code ← int_field J result_jv (codes "error_code")
          if eq_ℤ (get_or_else code (negsuc 0)) (pos 0)
              then (do
                result ← object_field J result_jv (codes "result")
                elim result [ none ↦ got failed | some r ↦ read_result r track person ])
              else got failed
      ]
