-- ===== src/Data/Output/Topics.antt =====
-- What the outputs say of a person who is not registered, and what happens without the face set.
use business.Base.{
  ◌≡◌, ◌⊎◌, inl, inr, refl, ap, ◌∙◌, Bool, true, false, List, [], ◌∷◌, Option, none, some,
  if◌then◌else◌, arith,
}
use business.Base.Int.{ℤ, pos}
use business.Base.Text.{Text, codes, text_eq, is_empty}
use business.Json.{JsonLib}
use business.Json.Writer.{JsonWriter, IsWriter}
use business.Data.{IpcInfo}
use business.Data.Event.{CaptureFace, EventInfo}
use business.Data.Capture.{Face, CaptureInfo}
use business.Handler.Person.{Attribute}
use business.Data.Output.{
  Person, PluginInfo, to_topics, set_attribute, set_attributes, link, match_link, envelope,
  is_noreg, is_age_or_gender,
}
use business.Data.Output.Requests.{
  FaceSet, mongo_failed, no_set, set_found, switch_face_set, ipc_data, event_data, person_data,
  scored, business_topics, business_push, pictured_request, business_request, capture_topics,
  capture_data_of, switched_request, capture_request,
}
use business.Workflow.KafkaOutput.{KafkaOutputInfo}

module _ (J : JsonLib) (W : JsonWriter J) (laws : IsWriter J W) where
  -- A document with data whose link to the person's picture is empty.
  pub record HidesPerson (doc : J.Value) : Type 0 where
    pub data_jv : J.Value
    pub tmp_jv : J.Value
    pub has_data : J.at doc (codes "data") ≡ some data_jv
    pub has_link : J.at data_jv (codes "match_url") ≡ some tmp_jv
    pub no_url : J.at tmp_jv (codes "url") ≡ some (W.of_text [])
    pub no_expire : J.at tmp_jv (codes "expire") ≡ some (W.of_text [])

  module _ (atoi : Text → ℤ) (expire_text : ℤ → Text) where
    pub doc_attributes :
        (numeric : Text → Bool) (elems : List Attribute) (v : J.Value)
        → laws.IsDoc v
        → laws.IsDoc (set_attributes J W atoi expire_text numeric elems v)
    unfolding set_attributes set_attribute
    doc_attributes numeric [] v h = h
    doc_attributes numeric (elem ∷ elems) v h =
        doc_attributes numeric elems _ (one (is_empty elem.type))
      where
        one :
            (b : Bool)
            → laws.IsDoc (
                if b
                then v
                else W.set v elem.type (
                    if numeric elem.type then W.of_int (atoi elem.value) else W.of_text elem.value))
        one true = h
        one false = laws.doc_set v elem.type _ h

    doc_scored :
        (p : Person J) (v : J.Value) → laws.IsDoc v → laws.IsDoc (scored J W atoi expire_text p v)
    unfolding scored
    doc_scored p v h = laws.doc_set _ _ _ (doc_attributes is_age_or_gender p.person_attributes v h)

    pub doc_person :
        (p : Person J) (v : J.Value)
        → laws.IsDoc v
        → laws.IsDoc (person_data J W atoi expire_text p v)
    unfolding person_data
    doc_person p v h = laws.doc_set _ _ _ (laws.doc_set _ _ _ (laws.doc_set v _ _ h))

    pub doc_ipc : (ipc : IpcInfo) → laws.IsDoc (ipc_data J W atoi expire_text ipc)
    unfolding ipc_data
    doc_ipc ipc = laws.doc_set _ _ _ (laws.doc_set _ _ _ (laws.doc_set _ _ _ laws.doc_null))

    pub hides :
        (ipc : IpcInfo) (p : Person J) (v : J.Value)
        → is_noreg p.id ≡ true
        → laws.IsDoc v
        → HidesPerson (
            envelope J W atoi expire_text ipc
              (W.set v (codes "match_url") (match_link J W atoi expire_text p)))
    unfolding envelope match_link codes text_eq
    hides ipc p v noreg h =
        let inner = W.set v (codes "match_url") (match_link J W atoi expire_text p) in
        let half = W.set W.null_value (codes "url") (W.of_text []) in
        let half_doc = laws.doc_set W.null_value (codes "url") (W.of_text []) laws.doc_null in
        record {
          data_jv = inner;
          tmp_jv = W.set half (codes "expire") (W.of_text []);
          has_data =
              laws.at_set_ne (W.set W.null_value (codes "data") inner) (codes "data")
                (codes "source") _ (laws.doc_set W.null_value _ _ laws.doc_null) refl
              ∙ laws.at_set W.null_value (codes "data") inner laws.doc_null;
          has_link = laws.at_set v (codes "match_url") _ h ∙ ap some (rw (match_link, noreg) refl);
          no_url =
              laws.at_set_ne half (codes "url") (codes "expire") _ half_doc refl
              ∙ laws.at_set W.null_value (codes "url") _ laws.doc_null;
          no_expire = laws.at_set half (codes "expire") _ half_doc;
        }

    doc_event :
        (ipc : IpcInfo) (e : EventInfo) (plugin : PluginInfo)
        → laws.IsDoc (event_data J W atoi expire_text ipc e plugin)
    unfolding event_data
    doc_event ipc e plugin = laws.doc_set _ _ _ (
        laws.doc_set _ _ _
          (laws.doc_set _ _ _ (laws.doc_set _ _ _ (laws.doc_set _ _ _ (doc_ipc ipc)))))

    doc_capture :
        (ipc : IpcInfo) (face : Face) (track_id : ℤ) (plugin : PluginInfo) (p : Person J)
        → laws.IsDoc (capture_data_of J W atoi expire_text ipc face track_id plugin p)
    unfolding capture_data_of
    doc_capture ipc face track_id plugin p = doc_scored p _ (
        laws.doc_set _ _ _ (doc_person p _ (laws.doc_set _ _ _ (laws.doc_set _ _ _ (doc_ipc ipc)))))

    -- Outputs that are the same for each of some topics, and hide the person.
    abbrev pub Hidden : List Text → List KafkaOutputInfo → Type 0
    Hidden topics outputs =
        (doc : J.Value) × (outputs ≡ to_topics (W.to_styled_string doc) topics) × HidesPerson doc

    pub business_request-Hidden :
        (ipc : IpcInfo) (e : EventInfo) (p : Person J) (plugin : PluginInfo) (topic : Text)
        (face : CaptureFace) (faces : List CaptureFace)
        → e.msg_type ≡ pos 2
        → e.capture_uris ≡ face ∷ faces
        → is_noreg p.id ≡ true
        → Hidden
            (business_topics J W atoi expire_text plugin topic)
            (business_request J W atoi expire_text ipc e p plugin topic).1
    unfolding business_request pictured_request business_push
    business_request-Hidden ipc e p plugin topic face faces two some_face noreg =
        let v =
          scored J W atoi expire_text p
            (person_data J W atoi expire_text p (event_data J W atoi expire_text ipc e plugin)) in
        let url =
          W.set v (codes "capture_url")
            (link J W atoi expire_text face.gen_url face.gen_url_expire) in
        (
          envelope J W atoi expire_text ipc
              (W.set url (codes "match_url") (match_link J W atoi expire_text p)),
          rw (business_request, two, some_face) refl,
          hides ipc p url noreg (
              laws.doc_set v (codes "capture_url") _
                (doc_scored p _ (doc_person p _ (doc_event ipc e plugin)))),
        )

    abbrev pub OnOutputs : List Text → Option (Bool × List KafkaOutputInfo) → Type 0
    OnOutputs topics none = ⊥
    OnOutputs topics (some (ok, outputs)) = (ok ≡ true) × ((outputs ≡ []) ⊎ Hidden topics outputs)

    switched-OnOutputs :
        (ipc : IpcInfo) (c : CaptureInfo) (plugin : PluginInfo) (topic : Text) (r : Bool × Person J)
        (face : Face) (faces : List Face)
        → c.faces ≡ face ∷ faces
        → is_noreg r.1.id ≡ true
        → OnOutputs
            (capture_topics J W atoi expire_text plugin topic)
            (switched_request J W atoi expire_text ipc c plugin topic r)
    unfolding switched_request
    switched-OnOutputs ipc c plugin topic (false, p) face faces e noreg = (refl, inl refl)
    switched-OnOutputs ipc c plugin topic (true, p) face faces e noreg =
        rw (switched_request, e)
          (
            refl,
            inr (
              _,
              refl,
              hides ipc p _ noreg (
                  laws.doc_set _ _ _
                    (laws.doc_set _ _ _ (doc_capture ipc face c.track_id plugin p))),
            ),
          )

id-switch_face_set :
    (J : JsonLib) (answer : FaceSet) (p : Person J) → (switch_face_set J answer p).1.id ≡ p.id
unfolding switch_face_set
id-switch_face_set J mongo_failed p = ground arith
id-switch_face_set J no_set p = ground arith
id-switch_face_set J (set_found id type) p = ground arith

-- A person whose id begins with "noreg" is not shown: every output for an event of type 2 with a picture,
-- and every output for a capture with a face, has in its data an empty url and an empty time for the
-- person's picture, whatever the attributes are. With a face, a capture's request succeeds, and it has
-- either no outputs or the same text for each of its topics; an event has the same text for each of the
-- plugin's topics, if it is enabled, and for the configured one.
pub requests-Hidden :
    (J : JsonLib) (W : JsonWriter J) (laws : IsWriter J W) (atoi : Text → ℤ)
    (expire_text : ℤ → Text) (ipc : IpcInfo) (e : EventInfo) (c : CaptureInfo) (answer : FaceSet)
    (p : Person J) (plugin : PluginInfo) (topic : Text) (face : CaptureFace)
    (faces : List CaptureFace) (shot : Face) (shots : List Face)
    → e.msg_type ≡ pos 2
    → e.capture_uris ≡ face ∷ faces
    → c.faces ≡ shot ∷ shots
    → is_noreg p.id ≡ true
    → Hidden J W laws atoi expire_text
        (business_topics J W atoi expire_text plugin topic)
        (business_request J W atoi expire_text ipc e p plugin topic).1
      × OnOutputs J W laws atoi expire_text
          (capture_topics J W atoi expire_text plugin topic)
          (capture_request J W atoi expire_text ipc c answer p plugin topic)
unfolding capture_request
requests-Hidden J W laws atoi expire_text ipc e c answer p plugin topic face faces shot shots two
      some_face some_shot noreg =
    (
      business_request-Hidden J W laws atoi expire_text ipc e p plugin topic face faces two
          some_face noreg,
      switched-OnOutputs J W laws atoi expire_text ipc c plugin topic (switch_face_set J answer p)
          shot shots some_shot (ap is_noreg (id-switch_face_set J answer p) ∙ noreg),
    )
