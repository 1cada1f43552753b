-- ===== src/Workflow/GetPlugin/Choice.antt =====
-- What a document of Mongo means for a data type, read without state, and what a lookup that agrees with
-- it leaves (src/package/workflow/module/module_get_plugin.cpp).
use business.Base.{
  ◌≡◌, Bool, true, false, ◌&&◌, List, [], ◌∷◌, ◌++◌, Option, none, some, if◌then◌else◌,
}
use business.Base.Int.{ℤ, eq_ℤ}
use business.Base.Text.{Text, codes}
use business.Workflow.{Session}
use business.Workflow.Modules.{repair_proc_chain}
use business.Workflow.GetPlugin.{
  Bson, Plugin, Lookup, no_connection, mongo_error, result, utf8_at, int32_at, array_at,
  optional_at,
}

abbrev pub is_some {ℓ} : {A : Type ℓ} → Option A → Bool
is_some none = false
is_some (some a) = true

abbrev pub number_ok : Option (Option ℤ) → Bool
number_ok none = true
number_ok (some n) = is_some n

module _ (B : Bson) where
  -- The texts of the values, if each is a text.
  unfoldable pub texts : List (B.Value) → Option (List Text)
  texts [] = some []
  texts (v ∷ vs) =
      let rest = texts vs in
      elim (B.utf8 v) [ none ↦ none | some t ↦ elim rest [ none ↦ none | some ts ↦ some (t ∷ ts) ] ]

  abbrev pub texts_in : Option (List (B.Value)) → Option (Option (List Text))
  texts_in none = none
  texts_in (some vs) = elim (texts vs) [ none ↦ none | some ts ↦ some (some ts) ]

  -- The topics of the first channel of a data type, or that there is none; `none` if a read on the way
  -- there fails.
  unfoldable pub first_channel : List (B.Value) → ℤ → Option (Option (List Text))
  unfolding texts
  first_channel [] datatype = some none
  first_channel (v ∷ vs) datatype =
      let later = first_channel vs datatype in
      elim (int32_at B v (codes "event_type_id")) [
        | none ↦ none
        | some n ↦
            if eq_ℤ n datatype then texts_in (array_at B v (codes "topic_channel")) else later
      ]

  abbrev pub is_readable : B.Value → Bool
  is_readable doc =
      (((is_some (utf8_at B doc (codes "service_adapter"))
            && is_some (utf8_at B doc (codes "app_id")))
          && number_ok (optional_at B doc (codes "face_rect_from")))
        && number_ok (optional_at B doc (codes "face_attr_from")))
      && number_ok (optional_at B doc (codes "replay_push_flag"))

  abbrev pub channels_in : Option (List (B.Value)) → ℤ → Option (Option (List Text))
  channels_in none datatype = none
  channels_in (some vs) datatype = first_channel vs datatype

  abbrev pub channels_of : Option (B.Value) → ℤ → Option (Option (List Text))
  channels_of none datatype = some none
  channels_of (some w) datatype = channels_in (B.array w) datatype

  -- What the answer of Mongo means for a data type.
  unfoldable pub chosen : Lookup B → ℤ → Option (Option (List Text))
  unfolding first_channel
  chosen no_connection datatype = none
  chosen mongo_error datatype = none
  chosen (result none) datatype = some none
  chosen (result (some doc)) datatype =
      if is_readable doc then channels_of (B.at doc (codes "data_channel")) datatype else none

-- What a lookup leaves, by what is chosen: nothing of the chain is touched by a failure, nor without a
-- channel; the topics of a channel are appended, and the chain is repaired.
unfoldable pub IsChoice :
    Option (Option (List Text)) → List Text → Session → Bool × Plugin × Session → Type 0
IsChoice none old s (ok, p, t) = (ok ≡ false) × (t ≡ s)
IsChoice (some none) old s (ok, p, t) = (ok ≡ true) × (p.topiclist ≡ old) × (t ≡ s)
IsChoice (some (some topics)) old s (ok, p, t) =
    (ok ≡ true) × (p.topiclist ≡ old ++ topics) × (t ≡ repair_proc_chain s)
