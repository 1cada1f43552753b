-- ===== src/Workflow/PictureWait/Laws.antt =====
-- The pieces of the picture wait, for a writer that keeps its laws and a redis that does not fail.
use mathlib.Core.List.{map-append}
use business.Base.{
  ◌≡◌, refl, sym, ap, ◌∙◌, Bool, true, false, inl, List, [], ◌∷◌, ◌++◌, Option, none, some, map,
}
use business.Base.Int.{ℤ}
use business.Base.Text.{Text, codes, text_eq, is_empty}
use business.Json.{JsonLib, got, field, int_field, text_field}
use business.Json.Writer.{JsonWriter, IsWriter}
use business.Redis.{RedisServer, get_value_by_key, set_advanced_key_value, got_value}
use business.Redis.Laws.{IsHealthy}
use business.Workflow.PictureWait.{append_text, keep, texts_of, business_type, trace_type}
use business.Workflow.PictureWait.Slots.{Slot, waiting, passed, released, document, type_of}

module _ (J : JsonLib) where
  pub field-there :
      {A : Type 0} (test : J.Value → Bool) (get : J.Value → Option A) (v : J.Value) (k : Text)
      (w : J.Value) (a : A)
      → J.is_member v k ≡ some true
      → J.at v k ≡ some w
      → test w ≡ true
      → get w ≡ some a
      → field J test get v k ≡ got (some a)
  unfolding field
  field-there test get v k w a there found passes gets = rw (there, found, passes, gets) refl

module _ (J : JsonLib) (W : JsonWriter J) (laws : IsWriter J W) where
  pub texts_of-array : (ps : List Text) → texts_of J (map W.of_text ps) ≡ got ps
  unfolding texts_of
  texts_of-array [] = refl
  texts_of-array (p ∷ ps) =
      rw (laws.is_string_text p, laws.as_string_text p, texts_of-array ps) refl

  -- The stored type.
  type_under :
      (n : ℤ) (k : Text) (w : J.Value)
      → text_eq (codes "ptype") k ≡ false
      → int_field J (W.set (W.set W.null_value (codes "ptype") (W.of_int n)) k w) (codes "ptype")
        ≡ got (some n)
  type_under n k w other =
      let base = W.set W.null_value (codes "ptype") (W.of_int n) in
      let doc = laws.doc_set W.null_value (codes "ptype") (W.of_int n) laws.doc_null in
      field-there J J.is_int J.as_int (W.set base k w) (codes "ptype") (W.of_int n) n
        (laws.member_set_ne base (codes "ptype") k w doc other
          ∙ laws.member_set W.null_value (codes "ptype") (W.of_int n) laws.doc_null)
        (laws.at_set_ne base (codes "ptype") k w doc other
          ∙ laws.at_set W.null_value (codes "ptype") (W.of_int n) laws.doc_null)
        (laws.is_int_int n) (laws.as_int_int n)

  pub ptype-document :
      (s : Slot) → int_field J (document J W s) (codes "ptype") ≡ got (some (type_of s))
  unfolding document codes text_eq
  ptype-document (waiting ps) = type_under business_type (codes "message_list") _ refl
  ptype-document (passed r) = type_under trace_type (codes "trace_result") _ refl
  ptype-document (released r) =
      let base = W.set W.null_value (codes "trace_result") (W.of_text r) in
      let doc = laws.doc_set W.null_value (codes "trace_result") (W.of_text r) laws.doc_null in
      field-there J J.is_int J.as_int _ (codes "ptype") (W.of_int trace_type) trace_type
        (laws.member_set base (codes "ptype") _ doc) (laws.at_set base (codes "ptype") _ doc)
        (laws.is_int_int trace_type) (laws.as_int_int trace_type)

  -- The events that wait.
  pub list-document :
      (ps : List Text)
      → J.at (document J W (waiting ps)) (codes "message_list") ≡ some (W.array (map W.of_text ps))
  unfolding document
  list-document ps =
      laws.at_set (W.set W.null_value (codes "ptype") (W.of_int business_type))
        (codes "message_list") _ (laws.doc_set W.null_value (codes "ptype") _ laws.doc_null)

  -- The result that waits.
  pub result-passed :
      (r : Text) → text_field J (document J W (passed r)) (codes "trace_result") ≡ got (some r)
  unfolding document
  result-passed r =
      let base = W.set W.null_value (codes "ptype") (W.of_int trace_type) in
      let doc = laws.doc_set W.null_value (codes "ptype") (W.of_int trace_type) laws.doc_null in
      field-there J J.is_string J.as_string _ (codes "trace_result") (W.of_text r) r
        (laws.member_set base (codes "trace_result") _ doc)
        (laws.at_set base (codes "trace_result") _ doc) (laws.is_string_text r)
        (laws.as_string_text r)

  pub result-released :
      (r : Text) → text_field J (document J W (released r)) (codes "trace_result") ≡ got (some r)
  unfolding document codes text_eq
  result-released r =
      let base = W.set W.null_value (codes "trace_result") (W.of_text r) in
      let doc = laws.doc_set W.null_value (codes "trace_result") (W.of_text r) laws.doc_null in
      field-there J J.is_string J.as_string (W.set base (codes "ptype") (W.of_int trace_type))
        (codes "trace_result") (W.of_text r) r
        (laws.member_set_ne base (codes "trace_result") (codes "ptype") _ doc refl
          ∙ laws.member_set W.null_value (codes "trace_result") _ laws.doc_null)
        (laws.at_set_ne base (codes "trace_result") (codes "ptype") _ doc refl
          ∙ laws.at_set W.null_value (codes "trace_result") _ laws.doc_null)
        (laws.is_string_text r) (laws.as_string_text r)

  -- An event that is added to the document.
  pub append_text-first :
      (p : Text)
      → append_text J W
          (W.set W.null_value (codes "ptype") (W.of_int business_type))
          (codes "message_list")
          p
        ≡ got (document J W (waiting (p ∷ [])))
  unfolding append_text document codes text_eq
  append_text-first p =
      rw
        (
          laws.at_set_ne W.null_value (codes "message_list") (codes "ptype")
              (W.of_int business_type) laws.doc_null refl,
          laws.at_null (codes "message_list"),
          laws.append_null (W.of_text p),
        )
        refl

  set_again :
      (ps : List Text) (p : Text)
      → W.set
          (document J W (waiting ps))
          (codes "message_list")
          (W.array (map W.of_text ps ++ W.of_text p ∷ []))
        ≡ document J W (waiting (ps ++ p ∷ []))
  unfolding document
  set_again ps p =
      laws.set_again (W.set W.null_value (codes "ptype") (W.of_int business_type))
        (codes "message_list") _ _ (laws.doc_set W.null_value (codes "ptype") _ laws.doc_null)
      ∙ ap
          (λ ws.
            W.set (W.set W.null_value (codes "ptype") (W.of_int business_type))
              (codes "message_list") (W.array ws))
          (sym (map-append _ _ _))

  pub append_text-next :
      (ps : List Text) (p : Text)
      → append_text J W (document J W (waiting ps)) (codes "message_list") p
        ≡ got (document J W (waiting (ps ++ p ∷ [])))
  unfolding append_text
  append_text-next ps p =
      rw (list-document ps, laws.append_array (map W.of_text ps) (W.of_text p))
        (ap got (set_again ps p))

-- What redis has after a command.
module _ (S : RedisServer) (h : IsHealthy S) where
  pub get-absent :
      (k : Text) (st : S.State)
      → h.view k st ≡ none
      → get_value_by_key S k [] st ≡ (([], false), (S.get k st).1)
  unfolding get_value_by_key got_value
  get-absent k st e = rw (h.get_value k st, e) refl

  pub get-present :
      (k t : Text) (st : S.State)
      → h.view k st ≡ some t
      → is_empty t ≡ false
      → get_value_by_key S k [] st ≡ ((t, true), (S.get k st).1)
  unfolding get_value_by_key got_value
  get-present k t st e full = rw (h.get_value k st, e, full) refl

  module _ (J : JsonLib) (W : JsonWriter J) where
    pub view-keep :
        (k : Text) (v : J.Value) (st : S.State)
        → h.view k (keep S J W k v st) ≡ some (W.to_styled_string v)
    unfolding keep set_advanced_key_value
    view-keep k v st = h.set_value k _ _ false st (inl refl)

    pub view-keep_ne :
        (j k : Text) (v : J.Value) (st : S.State)
        → text_eq j k ≡ false
        → h.view j (keep S J W k v st) ≡ h.view j st
    unfolding keep set_advanced_key_value
    view-keep_ne j k v st other = h.set_keeps j k _ _ false st other
