-- ===== src/Data/Output/Others.antt =====
-- `makeKafkaRequest` of src/data/xiashun_capture_data.cpp and of src/data/screenshot_data.cpp.
use business.Base.{Bool, true, ◌||◌, List, [], ◌∷◌, Option, none, some, if◌then◌else◌}
use business.Base.Int.{ℤ, pos}
use business.Base.Text.{Text, codes, text_eq}
use business.Consumer.Process.{of_int32, to_int32}
use business.Json.{JsonLib}
use business.Json.Writer.{JsonWriter}
use business.Data.{IpcInfo}
use business.Data.Capture.{Face, CaptureInfo}
use business.Data.Screenshot.{TaskInfo, is_output}
use business.Data.Output.{Person, set_attributes, link, match_link, envelope}
use business.Data.Output.Requests.{ipc_data, person_data}
use business.Workflow.KafkaOutput.{KafkaOutputInfo}

-- The attributes that the xiashun capture writes as numbers.
abbrev pub is_group_or_gender : Text → Bool
is_group_or_gender type =
    text_eq type (codes "gender") || text_eq type (codes "age_group") || text_eq type (codes "age")

module _ (J : JsonLib) (W : JsonWriter J) (atoi : Text → ℤ) (expire_text : ℤ → Text) where
  unfoldable pub xiashun_data : IpcInfo → Face → ℤ → Person J → J.Value
  unfolding codes
  xiashun_data ipc face track_id p =
      let a = W.set (ipc_data J W atoi expire_text ipc) (codes "track_id") (W.of_int track_id) in
      let b =
        W.set (person_data J W atoi expire_text p a) (codes "in_out_type") (W.of_int (pos 0)) in
      let c = W.set b (codes "event_time") (W.of_int face.tmst) in
      let d = W.set c (codes "msg_type") (W.of_int (pos 2)) in
      W.set (set_attributes J W atoi expire_text is_group_or_gender p.person_attributes d)
        (codes "score") (W.of_double p.similar)

  unfoldable pub xiashun_document : IpcInfo → Face → ℤ → Person J → J.Value
  unfolding codes xiashun_data
  xiashun_document ipc face track_id p =
      let linked =
        W.set (xiashun_data ipc face track_id p) (codes "capture_url")
          (link J W atoi expire_text face.gen_url face.gen_url_expire) in
      envelope J W atoi expire_text ipc
        (W.set linked (codes "match_url") (match_link J W atoi expire_text p))

  -- `xiashunCaptureData::makeKafkaRequest`. It reads `faces_[0]` before it tests that there is a face.
  unfoldable pub xiashun_request :
      IpcInfo → CaptureInfo → Person J → Text → Option (Bool × List KafkaOutputInfo)
  xiashun_request ipc c p topic = elim c.faces [
    | [] ↦ none
    | face ∷ faces ↦ some (
      true,
      record {
        topic = topic;
        content = W.to_styled_string (xiashun_document ipc face c.track_id p);
      }
          ∷ [],
    )
  ]

  -- What the outputs of a screenshot have in common; the time is cut to an `int`.
  unfoldable pub screenshot_document : IpcInfo → ℤ → Text → J.Value
  unfolding codes of_int32 to_int32
  screenshot_document ipc payload_type payload =
      let a = W.set W.null_value (codes "device_id") (W.of_text ipc.device_id) in
      let b = W.set a (codes "time") (W.of_int (to_int32 (of_int32 ipc.timestamp))) in
      let c = W.set b (codes "ptype") (W.of_int payload_type) in
      W.set c (codes "payload") (W.of_text payload)

  abbrev pub for_app : J.Value → Text → J.Value
  for_app out_jv uid = W.set out_jv (codes "app_id") (W.of_text uid)

  -- The loop over the tasks, which keeps `out_jv` from one output to the next.
  unfoldable pub screenshot_loop : Text → List TaskInfo → J.Value → List KafkaOutputInfo
  unfolding codes is_output
  screenshot_loop topic [] out_jv = []
  screenshot_loop topic (taskinfo ∷ rest) out_jv =
      let next = for_app out_jv taskinfo.uid in
      let later = screenshot_loop topic rest (if is_output taskinfo then next else out_jv) in
      if is_output taskinfo
      then record { topic = topic; content = W.to_styled_string next } ∷ later
      else later

  -- `ScreenshootData::makeKafkaRequest`
  unfoldable pub screenshot_request :
      IpcInfo → ℤ → Text → List TaskInfo → Text → Bool × List KafkaOutputInfo
  unfolding screenshot_document screenshot_loop
  screenshot_request ipc payload_type payload tasks topic =
      (true, screenshot_loop topic tasks (screenshot_document ipc payload_type payload))
