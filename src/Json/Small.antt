-- ===== src/Json/Small.antt =====
-- A small JSON for tests, with any parser of texts.
use business.Base.{ℕ, ◌≡◌, Bool, true, false, List, [], ◌∷◌, Option, none, some, if◌then◌else◌}
use business.Base.Int.{ℤ, pos}
use business.Base.Text.{Text, text_eq}
use business.Json.{JsonLib}
use business.Json.Laws.{IsJson, IsSome, Always}

-- Arrays and objects are chains of items and of members.
pub data Json : Type 0 where
  number : ℤ → Json
  text : Text → Json
  no_items : Json
  item : Json → Json → Json
  no_members : Json
  member : Text → Json → Json → Json

abbrev pub is_number : Json → Bool
is_number (number n) = true
is_number _ = false

abbrev pub is_text : Json → Bool
is_text (text t) = true
is_text _ = false

abbrev pub is_list : Json → Bool
is_list no_items = true
is_list (item v rest) = true
is_list _ = false

abbrev pub is_members : Json → Bool
is_members no_members = true
is_members (member k v rest) = true
is_members _ = false

abbrev pub items_of : Json → List Json
items_of (item v rest) = v ∷ items_of rest
items_of _ = []

-- A missing member is null, for which the empty object stands in.
abbrev pub lookup : Json → Text → Json
lookup (member name v rest) k = let later = lookup rest k in if text_eq name k then v else later
lookup _ k = no_members

abbrev pub has_name : Json → Text → Bool
has_name (member name v rest) k =
    let later = has_name rest k in if text_eq name k then true else later
has_name _ k = false

abbrev pub of_members {ℓ} : {A : Type ℓ} → Json → A → Option A
of_members v a = if is_members v then some a else none

abbrev pub text_of : Json → Option Text
text_of (text t) = some t
text_of _ = none

abbrev pub number_of : Json → Option ℤ
number_of (number n) = some n
number_of _ = none

abbrev pub natural_of : Json → Option ℕ
natural_of (number (pos n)) = some n
natural_of _ = none

abbrev pub json_with : (Text → Option Json) → JsonLib
json_with parse = record {
  Value = Json;
  parse = parse;
  is_object = is_members;
  is_array = is_list;
  is_string = is_text;
  is_int = is_number;
  is_int64 = is_number;
  is_bool = λ v. false;
  is_double = λ v. false;
  Double = ℕ;
  is_member = λ v k. of_members v (has_name v k);
  at = λ v k. of_members v (lookup v k);
  items = items_of;
  as_string = text_of;
  as_int = number_of;
  as_int64 = number_of;
  as_bool = λ v. none;
  as_double = λ v. none;
  as_uint = natural_of;
}

text_of-is_text : (v : Json) → is_text v ≡ true → IsSome Always (text_of v)
text_of-is_text (number n) h = absurd cc
text_of-is_text (text t) h = tt
text_of-is_text no_items h = absurd cc
text_of-is_text (item v w) h = absurd cc
text_of-is_text no_members h = absurd cc
text_of-is_text (member k v w) h = absurd cc

number_of-is_number : (v : Json) → is_number v ≡ true → IsSome Always (number_of v)
number_of-is_number (number n) h = tt
number_of-is_number (text t) h = absurd cc
number_of-is_number no_items h = absurd cc
number_of-is_number (item v w) h = absurd cc
number_of-is_number no_members h = absurd cc
number_of-is_number (member k v w) h = absurd cc

pub json_with-IsJson : (parse : Text → Option Json) → IsJson (json_with parse)
json_with-IsJson parse = record {
  member = λ v k obj. rw obj tt;
  at = λ v k obj. rw obj tt;
  string = text_of-is_text;
  int = number_of-is_number;
  int64 = number_of-is_number;
}
