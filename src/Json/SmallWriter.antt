-- ===== src/Json/SmallWriter.antt =====
-- The small JSON of the tests can be written, by the laws.
use business.Base.{
  ◌≡◌, refl, ap, ap₂, sym, ◌∙◌, true, false, List, [], ◌∷◌, ◌++◌, Option, none, some, arith,
  if◌then◌else◌, Bool-cases, inl, inr,
}
use business.Base.Int.{pos}
use business.Base.Text.{Text, text_eq, text_eq_refl, text_eq_sound, is_empty}
use business.Json.Small.{
  Json, number, text, no_items, item, no_members, member, is_members, json_with, has_name, items_of,
}
use business.Json.Small
use business.Json.Writer.{JsonWriter, IsWriter}

abbrev pub array_of : List Json → Json
array_of [] = no_items
array_of (v ∷ vs) = item v (array_of vs)

abbrev pub set_in : Json → Text → Json → Json
set_in (member name v rest) k w =
    let later = set_in rest k w in
    if text_eq name k then member name w rest else member name v later
set_in no_members k w = member k w no_members
set_in v k w = v

abbrev pub item_last : Json → Json → Json
item_last (item v rest) w = item v (item_last rest w)
item_last _ w = item w no_items

abbrev pub append_in : Json → Json → Option Json
append_in (item v rest) w = some (item_last (item v rest) w)
append_in no_items w = some (item w no_items)
append_in no_members w = some (item w no_items)
append_in _ w = none

-- With any printer.
abbrev pub writer_with : (parse : Text → Option Json) → (Json → Text) → JsonWriter (json_with parse)
writer_with parse print = record {
  null_value = no_members;
  of_int = number;
  of_text = text;
  of_double = λ d. number (pos d);
  array = array_of;
  set = set_in;
  append_to = append_in;
  to_styled_string = print;
}

-- Chains that end in no members.
abbrev IsObject : Json → Type 0
IsObject (member name v rest) = IsObject rest
IsObject no_members = Unit
IsObject _ = ⊥

IsObject-members : (v : Json) → IsObject v → is_members v ≡ true
IsObject-members (member name v rest) h = refl
IsObject-members no_members h = refl
IsObject-members (number n) h = absurd h
IsObject-members (text t) h = absurd h
IsObject-members no_items h = absurd h
IsObject-members (item v rest) h = absurd h

IsObject-set_in : (v : Json) (k : Text) (w : Json) → IsObject v → IsObject (set_in v k w)
IsObject-set_in (member name v rest) k w h = elim (Bool-cases (text_eq name k)) [
  | inl same ↦ rw (IsObject, same) h
  | inr other ↦ rw (IsObject, other) (IsObject-set_in rest k w h)
]
IsObject-set_in no_members k w h = tt
IsObject-set_in (number n) k w h = absurd h
IsObject-set_in (text t) k w h = absurd h
IsObject-set_in no_items k w h = absurd h
IsObject-set_in (item v rest) k w h = absurd h

has_name-set_in : (v : Json) (k : Text) (w : Json) → IsObject v → has_name (set_in v k w) k ≡ true
has_name-set_in (member name v rest) k w h = ground (arith, has_name-set_in rest k w h)
has_name-set_in no_members k w h = rw (text_eq_refl k) refl
has_name-set_in (number n) k w h = absurd h
has_name-set_in (text t) k w h = absurd h
has_name-set_in no_items k w h = absurd h
has_name-set_in (item v rest) k w h = absurd h

lookup-set_in : (v : Json) (k : Text) (w : Json) → IsObject v → Small.lookup (set_in v k w) k ≡ w
lookup-set_in (member name v rest) k w h = ground (arith, lookup-set_in rest k w h)
lookup-set_in no_members k w h = rw (text_eq_refl k) refl
lookup-set_in (number n) k w h = absurd h
lookup-set_in (text t) k w h = absurd h
lookup-set_in no_items k w h = absurd h
lookup-set_in (item v rest) k w h = absurd h

-- Another name is the same as before; `eq` decides on names as `text_eq` does.
other_name :
    (j k name : Text) → text_eq j k ≡ false → text_eq name k ≡ true → text_eq name j ≡ false
other_name j k name e same = elim (Bool-cases (text_eq name j)) [
  | inr other ↦ other
  | inl too ↦ absurd (
      let a = text_eq_sound name k same in
      let b = text_eq_sound name j too in
      clash (sym e ∙ ap₂ text_eq (sym b ∙ a) refl ∙ text_eq_refl k))
]
  where
    clash : false ≡ true → ⊥
    clash e = absurd cc

fresh_name : (j k : Text) → text_eq j k ≡ false → text_eq k j ≡ false
fresh_name j k e = other_name j k k e (text_eq_refl k)

has_name-set_in_ne :
    (v : Json) (j k : Text) (w : Json)
    → IsObject v
    → text_eq j k ≡ false
    → has_name (set_in v k w) j ≡ has_name v j
has_name-set_in_ne (member name v rest) j k w h e = elim (Bool-cases (text_eq name k)) [
  | inl same ↦ ground (arith, same)
  | inr other ↦ ground (arith, other, has_name-set_in_ne rest j k w h e)
]
has_name-set_in_ne no_members j k w h e = rw (fresh_name j k e) refl
has_name-set_in_ne (number n) j k w h e = absurd h
has_name-set_in_ne (text t) j k w h e = absurd h
has_name-set_in_ne no_items j k w h e = absurd h
has_name-set_in_ne (item v rest) j k w h e = absurd h

lookup-set_in_ne :
    (v : Json) (j k : Text) (w : Json)
    → IsObject v
    → text_eq j k ≡ false
    → Small.lookup (set_in v k w) j ≡ Small.lookup v j
lookup-set_in_ne (member name v rest) j k w h e = elim (Bool-cases (text_eq name k)) [
  | inl same ↦ ground (arith, same, other_name j k name e same)
  | inr other ↦ ground (arith, other, lookup-set_in_ne rest j k w h e)
]
lookup-set_in_ne no_members j k w h e = rw (fresh_name j k e) refl
lookup-set_in_ne (number n) j k w h e = absurd h
lookup-set_in_ne (text t) j k w h e = absurd h
lookup-set_in_ne no_items j k w h e = absurd h
lookup-set_in_ne (item v rest) j k w h e = absurd h

set_in-set_in :
    (v : Json) (k : Text) (a b : Json) → IsObject v → set_in (set_in v k a) k b ≡ set_in v k b
set_in-set_in (member name v rest) k a b h = ground (arith, set_in-set_in rest k a b h)
set_in-set_in no_members k a b h = rw (text_eq_refl k) refl
set_in-set_in (number n) k a b h = absurd h
set_in-set_in (text t) k a b h = absurd h
set_in-set_in no_items k a b h = absurd h
set_in-set_in (item v rest) k a b h = absurd h

pub items-array_of : (vs : List Json) → items_of (array_of vs) ≡ vs
items-array_of [] = refl
items-array_of (v ∷ vs) = ap (λ ws. v ∷ ws) (items-array_of vs)

item_last-array_of :
    (vs : List Json) (w : Json) → item_last (array_of vs) w ≡ array_of (vs ++ w ∷ [])
item_last-array_of [] w = refl
item_last-array_of (v ∷ vs) w = ap (item v) (item_last-array_of vs w)

append_in-array_of :
    (vs : List Json) (w : Json) → append_in (array_of vs) w ≡ some (array_of (vs ++ w ∷ []))
append_in-array_of [] w = refl
append_in-array_of (v ∷ vs) w = ap some (item_last-array_of (v ∷ vs) w)

pub writer_with-IsWriter :
    (parse : Text → Option Json) (print : Json → Text)
    → ((v : Json) → is_empty (print v) ≡ false)
    → IsWriter (json_with parse) (writer_with parse print)
writer_with-IsWriter parse print printed = record {
  IsDoc = IsObject;
  doc_null = tt;
  doc_set = IsObject-set_in;
  member_set = λ v k w h.
      rw (IsObject-members (set_in v k w) (IsObject-set_in v k w h), has_name-set_in v k w h) refl;
  at_set = λ v k w h.
      rw (IsObject-members (set_in v k w) (IsObject-set_in v k w h), lookup-set_in v k w h) refl;
  member_set_ne = λ v j k w h e.
      rw
        (
          IsObject-members (set_in v k w) (IsObject-set_in v k w h),
          IsObject-members v h,
          has_name-set_in_ne v j k w h e,
        )
        refl;
  at_set_ne = λ v j k w h e.
      rw
        (
          IsObject-members (set_in v k w) (IsObject-set_in v k w h),
          IsObject-members v h,
          lookup-set_in_ne v j k w h e,
        )
        refl;
  set_again = set_in-set_in;
  at_null = λ k. refl;
  member_null = λ k. refl;
  items_null = refl;
  append_null = λ w. refl;
  append_array = append_in-array_of;
  items_array = items-array_of;
  is_string_text = λ t. refl;
  as_string_text = λ t. refl;
  is_int_int = λ n. refl;
  as_int_int = λ n. refl;
  printed = printed;
}
