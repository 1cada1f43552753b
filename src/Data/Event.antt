-- ===== src/Data/Event.antt =====
-- src/data/business_data.cpp and src/data/xiashun_business_data.cpp: how an event is read.
use business.Base.{List, [], ◌∷◌, none, some, if◌then◌else◌}
use business.Base.Int.{ℤ, pos, ◌+ℤ◌}
use business.Base.Text.{Text, codes}
use business.Json.{
  Parse, got, ◌>>=◌, call, demand, get_or_else, collect, JsonLib, text_field, int_field,
  int64_field, object_field, array_field,
}
use business.Data.{IpcInfo, new_ipc_info, data_of, payload_of, parse_ipc_info, msg_id_of}

-- `EventInfo::CaptureFace`
pub record CaptureFace : Type 0 where
  pub pic_box : List ℤ
  pub face_box : List ℤ
  pub url : Text
  pub gen_url : Text
  pub gen_url_expire : ℤ

abbrev pub new_capture_face : CaptureFace
new_capture_face = record {
  pic_box = [];
  face_box = [];
  url = [];
  gen_url = [];
  gen_url_expire = pos 0;
}

-- `EventInfo`; its position in the urls is in the session's cursor.
pub record EventInfo : Type 0 where
  pub group_id : Text
  pub extra : Text
  pub event_time : ℤ
  pub send_time : ℤ
  pub line_id : ℤ
  pub event_type : ℤ
  pub msg_type : ℤ
  pub track_id : ℤ
  pub capture_uris : List CaptureFace
  pub age : ℤ
  pub gender : ℤ
  pub replay : ℤ

abbrev pub new_event_info : EventInfo
new_event_info = record {
  group_id = [];
  extra = [];
  event_time = pos 0;
  send_time = pos 0;
  line_id = pos 0;
  event_type = pos 0;
  msg_type = pos 0;
  track_id = pos 0;
  capture_uris = [];
  age = pos 0;
  gender = pos 0;
  replay = pos 0;
}

-- What `parse` of a business class leaves: the message's id, the ipc, the event and the data type of the
-- plugin, which starts as 0.
pub record BusinessData : Type 0 where
  pub msg_id : Text
  pub ipc : IpcInfo
  pub event : EventInfo
  pub datatype : ℤ

module _ (J : JsonLib) where
  -- The loop over a box, which keeps the elements that are integers.
  unfoldable pub ints : List (J.Value) → Parse (List ℤ)
  ints [] = got []
  ints (v ∷ vs) =
      let rest = ints vs in
      if J.is_int v then (do n ← call (J.as_int v); ns ← rest; got (n ∷ ns)) else rest

  unfoldable pub box_of : J.Value → Text → Parse (List ℤ)
  unfolding ints
  box_of face key = do found ← array_field J face key; ints (get_or_else found [])

  -- One element of `capture_uris`: a text, an object, or anything else, which leaves the defaults.
  unfoldable pub parse_capture_face : J.Value → Parse CaptureFace
  unfolding codes box_of
  parse_capture_face face =
      if J.is_string face
      then (do url ← call (J.as_string face); got (record new_capture_face { url = url }))
      else if J.is_object face
      then (do
        url ← text_field J face (codes "uri")
        pic_box ← box_of face (codes "pibx")
        face_box ← box_of face (codes "fcbx")
        got (record new_capture_face {
          url = get_or_else url [];
          pic_box = pic_box;
          face_box = face_box;
        }))
      else got new_capture_face

  -- `BusinessData::ParseEvent`, with the data type that it sets beside the message type
  unfoldable pub parse_event : J.Value → Parse (EventInfo × ℤ)
  unfolding codes collect parse_capture_face
  parse_event payload_jv = do
    found ← object_field J payload_jv (codes "event")
    event_jv ← demand found
    replay ← int_field J event_jv (codes "replay")
    group_id ← text_field J event_jv (codes "group_id")
    extra ← text_field J event_jv (codes "extra")
    event_time ← int64_field J event_jv (codes "event_time")
    send_time ← int64_field J event_jv (codes "send_time")
    line_id ← int_field J event_jv (codes "line_id")
    event_type ← int_field J event_jv (codes "event_type")
    msg_type ← int_field J event_jv (codes "msg_type")
    track_id ← int64_field J event_jv (codes "track_id")
    uris ← array_field J event_jv (codes "capture_uris")
    faces ← collect parse_capture_face (get_or_else uris [])
    age ← int_field J event_jv (codes "age")
    gender ← int_field J event_jv (codes "gender")
    got (
      record {
        group_id = get_or_else group_id [];
        extra = get_or_else extra [];
        event_time = get_or_else event_time (pos 0);
        send_time = get_or_else send_time (pos 0);
        line_id = get_or_else line_id (pos 0);
        event_type = get_or_else event_type (pos 0);
        msg_type = get_or_else msg_type (pos 0);
        track_id = get_or_else track_id (pos 0);
        capture_uris = faces;
        age = get_or_else age (pos 0);
        gender = get_or_else gender (pos 0);
        replay = get_or_else replay (pos 0);
      },
      elim msg_type [ none ↦ pos 0 | some n ↦ n +ℤ pos 2 ],
    )

  -- `BusinessData::parse`
  unfoldable pub parse_business : ℤ → J.Value → Parse BusinessData
  unfolding data_of msg_id_of payload_of parse_ipc_info parse_event
  parse_business unset total_jv = do
    data_jv ← data_of J total_jv
    id ← msg_id_of J total_jv
    payload_jv ← payload_of J data_jv
    ipc ← parse_ipc_info J data_jv (new_ipc_info unset)
    (event, datatype) ← parse_event payload_jv
    got (record { msg_id = id; ipc = ipc; event = event; datatype = datatype })

  -- `xiashunBusinessData::ParseEvent`
  unfoldable pub parse_flow : J.Value → Parse EventInfo
  unfolding codes
  parse_flow payload_jv = do
    found ← object_field J payload_jv (codes "event")
    event_jv ← demand found
    replay ← int_field J event_jv (codes "replay")
    event_time ← int64_field J event_jv (codes "timestamp")
    line_id ← int_field J event_jv (codes "line_id")
    event_type ← int_field J event_jv (codes "flow_type")
    track_id ← int64_field J event_jv (codes "person_id")
    got (record new_event_info {
      msg_type = pos 0;
      replay = get_or_else replay (pos 0);
      event_time = get_or_else event_time (pos 0);
      line_id = get_or_else line_id (pos 0);
      event_type = get_or_else event_type (pos 0);
      track_id = get_or_else track_id (pos 0);
    })

  -- `xiashunBusinessData::parse`
  unfoldable pub parse_xiashun_business : ℤ → J.Value → Parse BusinessData
  unfolding data_of msg_id_of payload_of parse_ipc_info parse_flow
  parse_xiashun_business unset total_jv = do
    data_jv ← data_of J total_jv
    id ← msg_id_of J total_jv
    payload_jv ← payload_of J data_jv
    ipc ← parse_ipc_info J data_jv (new_ipc_info unset)
    event ← parse_flow payload_jv
    got (record { msg_id = id; ipc = ipc; event = event; datatype = pos 0 })
