-- ===== src/Workflow/Save/Documents.antt =====
-- The documents and the filters of src/package/workflow/module/module_business_output.cpp, and
-- `GetSaveMongoData` of src/data.
use business.Base.{List, [], ◌∷◌, ◌++◌, map, if◌then◌else◌}
use business.Base.Int.{ℤ, pos, negsuc, eq_ℤ}
use business.Base.Text.{Text, codes, is_empty}
use business.Data.{IpcInfo}
use business.Data.Event.{EventInfo}
use business.Data.Capture.{CaptureInfo}
use business.Data.Output.{is_age_or_gender}
use business.Handler.Person.{Attribute}
use business.Workflow.Save.Collection.{
  text, int, double, texts, is_text, is_int, is_not, Filter, Document,
}

-- `SaveMongoData`
pub record SaveData : Type 0 where
  pub event_type : ℤ
  pub msg_type : ℤ
  pub event_time : ℤ
  pub track_id : ℤ
  pub urls : List Text

-- What `GetSaveMongoData` does: an undefined read, false, or the data.
pub data MongoData : Type 0 where
  undefined not_saved : MongoData
  to_save : SaveData → MongoData

-- The object whose `GetSaveMongoData` is called; the others have that of `BaseData`.
pub data SaveSource : Type 0 where
  business_data xiashun_business_data : EventInfo → SaveSource
  xiashun_capture_data : CaptureInfo → SaveSource
  other_data : SaveSource

-- `xiashunCaptureData::GetSaveMongoData`, which reads `faces_[0]`.
unfoldable pub capture_save_data : CaptureInfo → MongoData
capture_save_data c = elim c.faces [
  | [] ↦ undefined
  | face ∷ faces ↦ to_save (record {
    event_type = pos 0;
    msg_type = pos 2;
    event_time = face.tmst;
    track_id = c.track_id;
    urls = map (λ f. f.url) (face ∷ faces);
  })
]

-- `GetSaveMongoData`
unfoldable pub get_save_mongo_data : SaveSource → MongoData
unfolding capture_save_data
get_save_mongo_data (business_data e) = to_save (record {
  event_type = e.event_type;
  msg_type = e.msg_type;
  event_time = e.event_time;
  track_id = e.track_id;
  urls = map (λ f. f.url) e.capture_uris;
})
get_save_mongo_data (xiashun_business_data e) = to_save (record {
  event_type = e.event_type;
  msg_type = e.msg_type;
  event_time = e.event_time;
  track_id = e.track_id;
  urls = [];
})
get_save_mongo_data (xiashun_capture_data c) = capture_save_data c
get_save_mongo_data other_data = not_saved

-- `getReplay`, which only `BusinessData` has of those that save.
unfoldable pub get_replay : SaveSource → ℤ
get_replay (business_data e) = e.replay
get_replay _ = pos 0

-- What is written of `session->person_result_`.
pub record SavedPerson (Double : Type 0) : Type 0 where
  pub id : Text
  pub set_name : Text
  pub set_type : Text
  pub url : Text
  pub similar : Double
  pub person_attributes : List Attribute

-- What is read of a session: the object of its data, the results, and age and gender of the event.
pub record Passage (Double : Type 0) : Type 0 where
  pub ipc : IpcInfo
  pub source : SaveSource
  pub person : SavedPerson Double
  pub track_age : ℤ
  pub track_gender : ℤ
  pub event_age : ℤ
  pub event_gender : ℤ

-- `app_id + "_user_event"`
unfoldable pub collection_of : IpcInfo → Text
unfolding codes
collection_of ipc = ipc.app_id ++ codes "_user_event"

unfoldable pub key_filter : IpcInfo → SaveData → Filter
unfolding codes
key_filter ipc d =
    (codes "device_sn", is_text ipc.device_id)
    ∷ (codes "track_id", is_int d.track_id)
    ∷ (codes "app_id", is_text ipc.app_id)
    ∷ (codes "space_id", is_text ipc.space_id)
    ∷ (codes "in_out_type", is_int d.event_type)
    ∷ []

unfoldable pub big_filter : IpcInfo → SaveData → Filter
unfolding codes key_filter
big_filter ipc d = key_filter ipc d ++ (codes "msg_type", is_int (pos 2)) ∷ []

unfoldable pub replay_filter : IpcInfo → SaveData → Filter
unfolding codes key_filter
replay_filter ipc d = key_filter ipc d ++ (codes "replay", is_not (pos 1)) ∷ []

-- `-1` of the tracing result stands for nothing found.
abbrev pub found_or : ℤ → ℤ → ℤ
found_or found own = if eq_ℤ found (negsuc 0) then own else found

module _ {Double : Type 0} (atoi : Text → ℤ) where
  -- The attributes of the person that have a type.
  unfoldable pub attribute_fields : List Attribute → Document Double
  attribute_fields [] = []
  attribute_fields (elem ∷ rest) =
      let later = attribute_fields rest in
      if is_empty elem.type
      then later
      else (
        elem.type,
        if is_age_or_gender elem.type then int (atoi elem.value) else text elem.value,
      )
        ∷ later

  unfoldable pub big_document :
      Text → Passage Double → SavedPerson Double → SaveData → Document Double
  unfolding codes attribute_fields
  big_document now x p d =
      (codes "app_id", text x.ipc.app_id)
      ∷ (codes "space_id", text x.ipc.space_id)
      ∷ (codes "device_sn", text x.ipc.device_id)
      ∷ (codes "track_id", int d.track_id)
      ∷ (codes "face_id", text p.id)
      ∷ (codes "faceset_id", text p.set_name)
      ∷ (codes "faceset_type", text p.set_type)
      ∷ (codes "event_time", int d.event_time)
      ∷ (codes "msg_type", int d.msg_type)
      ∷ (codes "capture_url", texts d.urls)
      ∷ (codes "match_url", text p.url)
      ∷ (codes "score", double p.similar)
      ∷ (codes "created_time", text now)
      ∷ (codes "updated_time", text now)
      ∷ (codes "in_out_type", int d.event_type)
      ∷ attribute_fields p.person_attributes

  unfoldable pub small_document : Text → Passage Double → SaveData → Document Double
  unfolding codes
  small_document now x d =
      (codes "app_id", text x.ipc.app_id)
      ∷ (codes "space_id", text x.ipc.space_id)
      ∷ (codes "device_sn", text x.ipc.device_id)
      ∷ (codes "track_id", int d.track_id)
      ∷ (codes "age", int (found_or x.track_age x.event_age))
      ∷ (codes "gender", int (found_or x.track_gender x.event_gender))
      ∷ (codes "in_out_type", int d.event_type)
      ∷ (codes "event_time", int d.event_time)
      ∷ (codes "msg_type", int d.msg_type)
      ∷ (codes "created_time", text now)
      ∷ (codes "updated_time", text now)
      ∷ []

  unfoldable pub plain_document : Text → Passage Double → SaveData → Document Double
  unfolding codes
  plain_document now x d =
      (codes "app_id", text x.ipc.app_id)
      ∷ (codes "space_id", text x.ipc.space_id)
      ∷ (codes "device_sn", text x.ipc.device_id)
      ∷ (codes "track_id", int d.track_id)
      ∷ (codes "in_out_type", int d.event_type)
      ∷ (codes "event_time", int d.event_time)
      ∷ (codes "created_time", text now)
      ∷ (codes "updated_time", text now)
      ∷ []

  -- The fields of `$set`.
  unfoldable pub document_of :
      Text → Passage Double → SavedPerson Double → SaveData → Document Double
  unfolding big_document small_document plain_document
  document_of now x p d =
      if eq_ℤ d.msg_type (pos 2)
      then big_document now x p d
      else if eq_ℤ d.msg_type (pos 1)
      then small_document now x d
      else plain_document now x d

unfoldable pub with_replay : {Double : Type 0} → Document Double → Document Double
unfolding codes
with_replay doc = doc ++ (codes "replay", int (pos 1)) ∷ []
