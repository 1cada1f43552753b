-- ===== src/Data/Output/Requests.antt =====
-- `makeKafkaRequest` of src/data/business_data.cpp and src/data/capture_data.cpp, with
-- `SwitchFaceSetIdBySetName`: the result, and the outputs that are added to the list.
use business.Base.{
  ◌+◌, Bool, true, false, List, [], ◌∷◌, ◌++◌, Option, none, some, ◌*◌, if◌then◌else◌,
}
use business.Base.Int.{ℤ, pos, negsuc, eq_ℤ, ltb_ℤ}
use business.Base.Text.{Text, codes, is_empty}
use business.Json.{JsonLib}
use business.Json.Writer.{JsonWriter}
use business.Data.{IpcInfo}
use business.Data.Event.{CaptureFace, EventInfo}
use business.Data.Capture.{Face, CaptureInfo}
use business.Data.Output.{
  Person, PluginInfo, to_topics, set_attributes, link, match_link, envelope, is_age_or_gender,
}
use business.Workflow.KafkaOutput.{KafkaOutputInfo}

-- The face set in Mongo by its name: no connection or an exception, no such set, or its id and type.
pub data FaceSet : Type 0 where
  mongo_failed no_set : FaceSet
  set_found : Text → Text → FaceSet

module _ (J : JsonLib) where
  -- `SwitchFaceSetIdBySetName`
  unfoldable pub switch_face_set : FaceSet → Person J → Bool × Person J
  switch_face_set answer p = if is_empty p.set_name then (true, p) else elim answer [
    | mongo_failed ↦ (false, p)
    | no_set ↦ (false, p)
    | set_found id type ↦ (true, record p { set_name = id; set_type = type })
  ]

-- 1000 times a time.
unfoldable pub thousandfold : ℤ → ℤ
thousandfold (pos n) = pos (n * 1000)
thousandfold (negsuc n) = negsuc (n * 1000 + 999)

module _ (J : JsonLib) (W : JsonWriter J) (atoi : Text → ℤ) (expire_text : ℤ → Text) where
  unfoldable pub ipc_data : IpcInfo → J.Value
  unfolding codes
  ipc_data ipc =
      let a = W.set W.null_value (codes "app_id") (W.of_text ipc.app_id) in
      let b = W.set a (codes "space_id") (W.of_text ipc.space_id) in
      W.set b (codes "device_sn") (W.of_text ipc.device_id)

  unfoldable pub person_data : Person J → J.Value → J.Value
  unfolding codes
  person_data p v =
      let a = W.set v (codes "face_id") (W.of_text p.id) in
      let b = W.set a (codes "faceset_id") (W.of_text p.set_name) in
      W.set b (codes "faceset_type") (W.of_text p.set_type)

  unfoldable pub event_data : IpcInfo → EventInfo → PluginInfo → J.Value
  unfolding codes ipc_data
  event_data ipc e plugin =
      let a = W.set (ipc_data ipc) (codes "track_id") (W.of_int e.track_id) in
      let b = W.set a (codes "in_out_type") (W.of_int e.event_type) in
      let c = W.set b (codes "event_time") (W.of_int e.event_time) in
      let d = W.set c (codes "msg_type") (W.of_int e.msg_type) in
      W.set d (codes "data_type") (W.of_int plugin.datatype)

  -- `-1` of the tracing result stands for nothing found.
  abbrev pub traced_or : ℤ → ℤ → ℤ
  traced_or traced own = if eq_ℤ traced (negsuc 0) then own else traced

  -- The part for an event of type 1.
  unfoldable pub flow_data : EventInfo → Person J → J.Value → J.Value
  unfolding codes
  flow_data e p v =
      let a = W.set v (codes "age") (W.of_int (traced_or p.track_age e.age)) in
      let b = W.set a (codes "manual_age") (W.of_int (negsuc 0)) in
      W.set b (codes "gender") (W.of_int (traced_or p.track_gender e.gender))

  -- The person with its attributes and score.
  unfoldable pub scored : Person J → J.Value → J.Value
  unfolding codes set_attributes
  scored p v =
      W.set (set_attributes J W atoi expire_text is_age_or_gender p.person_attributes v)
        (codes "score") (W.of_double p.similar)

  unfoldable pub business_topics : PluginInfo → Text → List Text
  business_topics plugin topic = (if plugin.enable then plugin.topiclist else []) ++ topic ∷ []

  unfoldable pub business_push : IpcInfo → PluginInfo → Text → J.Value → Bool × List KafkaOutputInfo
  unfolding envelope business_topics
  business_push ipc plugin topic data_jv = (
    true,
    to_topics (W.to_styled_string (envelope J W atoi expire_text ipc data_jv))
        (business_topics plugin topic),
  )

  -- What an event of type 2 adds about its person and pictures; nothing is sent without a picture.
  unfoldable pub pictured_request :
      IpcInfo
      → List CaptureFace
      → Person J
      → PluginInfo
      → Text
      → J.Value
      → Bool × List KafkaOutputInfo
  unfolding codes link match_link business_push
  pictured_request ipc [] p plugin topic v = (true, [])
  pictured_request ipc (face ∷ faces) p plugin topic v =
      let linked =
        W.set v (codes "capture_url")
          (link J W atoi expire_text face.gen_url face.gen_url_expire) in
      business_push ipc plugin topic
        (W.set linked (codes "match_url") (match_link J W atoi expire_text p))

  -- `BusinessData::makeKafkaRequest`; `topic` is what the configuration gives, or empty.
  unfoldable pub business_request :
      IpcInfo → EventInfo → Person J → PluginInfo → Text → Bool × List KafkaOutputInfo
  unfolding event_data flow_data person_data scored pictured_request business_push
  business_request ipc e p plugin topic =
      let data_jv = event_data ipc e plugin in
      if eq_ℤ e.msg_type (pos 1)
      then business_push ipc plugin topic (flow_data e p data_jv)
      else if eq_ℤ e.msg_type (pos 2)
      then pictured_request ipc e.capture_uris p plugin topic (scored p (person_data p data_jv))
      else business_push ipc plugin topic data_jv

  unfoldable pub capture_topics : PluginInfo → Text → List Text
  capture_topics plugin topic = if plugin.enable then plugin.topiclist else topic ∷ []

  unfoldable pub capture_data_of : IpcInfo → Face → ℤ → PluginInfo → Person J → J.Value
  unfolding codes ipc_data thousandfold person_data scored
  capture_data_of ipc face track_id plugin p =
      let tmstp = face.systm in
      let time = if ltb_ℤ tmstp (pos 2000000000) then thousandfold tmstp else tmstp in
      let a = W.set (ipc_data ipc) (codes "event_time") (W.of_int time) in
      let b = W.set a (codes "track_id") (W.of_int track_id) in
      let c = person_data p b in scored p (W.set c (codes "data_type") (W.of_int plugin.datatype))

  -- `CaptureData::makeKafkaRequest` after the face set. Without a face it reads `faces_[0]` all the same,
  -- which is undefined: `none`.
  unfoldable pub switched_request :
      IpcInfo
      → CaptureInfo
      → PluginInfo
      → Text
      → Bool × Person J
      → Option (Bool × List KafkaOutputInfo)
  unfolding codes capture_data_of link match_link envelope capture_topics
  switched_request ipc c plugin topic (false, p) = some (true, [])
  switched_request ipc c plugin topic (true, p) = elim c.faces [
    | [] ↦ none
    | face ∷ faces ↦
        let data_jv = capture_data_of ipc face c.track_id plugin p in
        let url = link J W atoi expire_text face.gen_url face.gen_url_expire in
        let a = W.set data_jv (codes "capture_url") url in
        let b = W.set a (codes "capture_time") (W.of_int face.systm) in
        let d = W.set b (codes "match_url") (match_link J W atoi expire_text p) in
        some (
          true,
          to_topics (W.to_styled_string (envelope J W atoi expire_text ipc d))
              (capture_topics plugin topic),
        )
  ]

  -- `return -1` in a function that returns `bool` is `true`.
  unfoldable pub capture_request :
      IpcInfo
      → CaptureInfo
      → FaceSet
      → Person J
      → PluginInfo
      → Text
      → Option (Bool × List KafkaOutputInfo)
  unfolding switch_face_set switched_request
  capture_request ipc c answer p plugin topic =
      switched_request ipc c plugin topic (switch_face_set J answer p)
