-- ===== src/Data/Capture.antt =====
-- src/data/capture_data.cpp and src/data/xiashun_capture_data.cpp: how a capture is read, and what its faces
-- say.
pub mod WaitKey
use business.Base.{ℕ, List, [], ◌∷◌, none, some, get_elem?, if◌then◌else◌}
use business.Base.Int.{ℤ, pos, negsuc}
use business.Base.Text.{Text, codes, is_empty, text_lt}
use business.ComFunc.Age.{age_index}
use business.ComFunc.Segment.{getsplitstr}
use business.Json.{
  Parse, got, ◌>>=◌, call, demand, get_or_else, collect, JsonLib, text_field, int_field,
  int64_field, object_field, array_field,
}
use business.Data.{IpcInfo, new_ipc_info, data_of, payload_of, parse_ipc_info, msg_id_of}
use business.Data.Event.{box_of}

-- `CaptureInfo::Person::Face`
pub record Face : Type 0 where
  pub tmst : ℤ
  pub systm : ℤ
  pub pic_box : List ℤ
  pub face_box : List ℤ
  pub url : Text
  pub gen_url : Text
  pub gen_url_expire : ℤ
  pub age : ℤ
  pub gender : ℤ

-- `CaptureInfo::Background`
pub record Background : Type 0 where
  pub tmst : ℤ
  pub systm : ℤ
  pub track_ids : List ℕ
  pub url : Text

abbrev pub new_background : Background
new_background = record { tmst = pos 0; systm = pos 0; track_ids = []; url = [] }

-- `CaptureInfo`, with the fields of its person
pub record CaptureInfo : Type 0 where
  pub type : ℤ
  pub replay : ℤ
  pub background : Background
  pub track_id : ℤ
  pub faces : List Face

abbrev pub new_capture_info : CaptureInfo
new_capture_info = record {
  type = pos 0;
  replay = pos 0;
  background = new_background;
  track_id = pos 0;
  faces = [];
}

pub record CaptureData : Type 0 where
  pub msg_id : Text
  pub ipc : IpcInfo
  pub capture : CaptureInfo
  pub datatype : ℤ

module _ (J : JsonLib) where
  -- One element of `face`. It is not tested for being an object before its members are asked for.
  unfoldable pub parse_face : J.Value → Parse Face
  unfolding codes box_of age_index
  parse_face face = do
    tmst ← int64_field J face (codes "tmst")
    systm ← int64_field J face (codes "systm")
    url ← text_field J face (codes "uri")
    pic_box ← box_of J face (codes "pibx")
    face_box ← box_of J face (codes "fcbx")
    age ← int_field J face (codes "age")
    sex ← int_field J face (codes "sex")
    got (record {
      tmst = get_or_else tmst (pos 0);
      systm = get_or_else systm (pos 0);
      pic_box = pic_box;
      face_box = face_box;
      url = get_or_else url [];
      gen_url = [];
      gen_url_expire = pos 0;
      age = elim age [ none ↦ pos 0 | some n ↦ age_index n ];
      gender = get_or_else sex (pos 0);
    })

  unfoldable pub parse_background : J.Value → Parse Background
  unfolding codes collect
  parse_background background = do
    ids ← array_field J background (codes "tkid")
    track_ids ← collect (λ v. call (J.as_uint v)) (get_or_else ids [])
    tmst ← int64_field J background (codes "tmst")
    systm ← int64_field J background (codes "systm")
    url ← text_field J background (codes "uri")
    got (record {
      tmst = get_or_else tmst (pos 0);
      systm = get_or_else systm (pos 0);
      track_ids = track_ids;
      url = get_or_else url [];
    })

  -- `ParseCapture`: a person, or else a background.
  unfoldable pub parse_capture : J.Value → Parse CaptureInfo
  unfolding codes collect parse_face parse_background
  parse_capture payload_jv = do
    found ← object_field J payload_jv (codes "capture")
    capture_jv ← demand found
    replay ← int_field J capture_jv (codes "replay")
    let capture = record new_capture_info { replay = get_or_else replay (pos 0) }
    person ← object_field J capture_jv (codes "pesn")
    elim person [
      | some pesn ↦ do
        track_id ← int64_field J pesn (codes "tkid")
        face ← array_field J pesn (codes "face")
        faces ← collect parse_face (get_or_else face [])
        got (record capture {
          type = pos 1;
          track_id = get_or_else track_id (pos 0);
          faces = faces;
        })
      | none ↦ do
        behind ← object_field J capture_jv (codes "bkgd")
        elim behind [
          | none ↦ got capture
          | some bkgd ↦ do
            background ← parse_background bkgd
            got (record capture { type = pos 2; background = background })
        ]
    ]

  -- `CaptureData::parse`
  unfoldable pub parse_capture_data : ℤ → J.Value → Parse CaptureData
  unfolding data_of msg_id_of payload_of parse_ipc_info parse_capture
  parse_capture_data unset total_jv = do
    data_jv ← data_of J total_jv
    id ← msg_id_of J total_jv
    payload_jv ← payload_of J data_jv
    ipc ← parse_ipc_info J data_jv (new_ipc_info unset)
    capture ← parse_capture payload_jv
    got (record { msg_id = id; ipc = ipc; capture = capture; datatype = pos 1 })

  -- `xiashunCaptureData::parse`, which leaves the plugin's data type alone
  unfoldable pub parse_xiashun_capture : ℤ → J.Value → Parse CaptureData
  unfolding data_of msg_id_of payload_of parse_ipc_info parse_capture
  parse_xiashun_capture unset total_jv = do
    data_jv ← data_of J total_jv
    id ← msg_id_of J total_jv
    payload_jv ← payload_of J data_jv
    ipc ← parse_ipc_info J data_jv (new_ipc_info unset)
    capture ← parse_capture payload_jv
    got (record { msg_id = id; ipc = ipc; capture = capture; datatype = pos 0 })

-- `getFaceAgeByOrder` and `getFaceGenderByOrder`
unfoldable pub face_age : List Face → ℕ → ℤ
face_age faces face_num = elim (get_elem? faces face_num) [ none ↦ negsuc 0 | some face ↦ face.age ]

unfoldable pub face_gender : List Face → ℕ → ℤ
face_gender faces face_num = elim (get_elem? faces face_num) [
  | none ↦ negsuc 0
  | some face ↦ face.gender
]

-- `getPicWaitKey`, from the urls of the faces: `keep_max` is one round of its loop.
unfoldable pub keep_max : Text → Text → Text
unfolding text_lt getsplitstr
keep_max maxurl url =
    let temp = getsplitstr url in
    if is_empty maxurl then temp else if text_lt maxurl temp then temp else maxurl

unfoldable pub pic_wait_key_from : Text → List Text → Text
unfolding keep_max
pic_wait_key_from maxurl [] = maxurl
pic_wait_key_from maxurl (url ∷ urls) = pic_wait_key_from (keep_max maxurl url) urls

unfoldable pub pic_wait_key : List Text → Text
unfolding pic_wait_key_from
pic_wait_key urls = pic_wait_key_from [] urls
