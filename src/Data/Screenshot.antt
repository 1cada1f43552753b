-- ===== src/Data/Screenshot.antt =====
-- src/data/screenshot_data.cpp: a background picture with the tasks that ask for it.
use business.Base.{Bool, ◌&&◌, not, List, [], ◌∷◌, none, some, if◌then◌else◌}
use business.Base.Int.{ℤ, pos, eq_ℤ}
use business.Base.Text.{Text, codes, text_eq}
use business.Json.{
  Parse, got, ◌>>=◌, call, demand, get_or_else, JsonLib, parse_json, text_field, int_field,
  object_field, array_field,
}
use business.Data.{IpcInfo, new_ipc_info, data_of, parse_ipc_info, msg_id_of}
use business.Data.Capture.{CaptureInfo, new_capture_info, parse_background}

pub record TaskInfo : Type 0 where
  pub task_id : Text
  pub uid : Text
  pub device_id : Text
  pub extra : Text
  pub type : ℤ

pub record ScreenshotData : Type 0 where
  pub msg_id : Text
  pub ipc : IpcInfo
  pub capture : CaptureInfo
  pub payload : Text
  pub tasks : List TaskInfo

module _ (J : JsonLib) where
  -- `task[key].isString() ? task[key].asString() : ""`
  unfoldable pub text_at : J.Value → Text → Parse Text
  text_at task key = do
    v ← call (J.at task key)
    if J.is_string v then call (J.as_string v) else got []

  unfoldable pub int_at : J.Value → Text → Parse ℤ
  int_at task key = do
    v ← call (J.at task key)
    if J.is_int v then call (J.as_int v) else got (pos 0)

  unfoldable pub parse_task : J.Value → Parse TaskInfo
  unfolding codes text_at int_at
  parse_task task = do
    type ← int_at task (codes "busi_type")
    task_id ← text_at task (codes "task_id")
    uid ← text_at task (codes "uid")
    device_id ← text_at task (codes "device_id")
    extra ← text_at task (codes "extra")
    got (record { task_id = task_id; uid = uid; device_id = device_id; extra = extra; type = type })

  unfoldable pub task_list : List (J.Value) → Parse (List TaskInfo)
  unfolding parse_task
  task_list [] = got []
  task_list (v ∷ vs) =
      let rest = task_list vs in
      if J.is_object v then (do task ← parse_task v; tasks ← rest; got (task ∷ tasks)) else rest

  -- `parseTasks`, which never refuses
  unfoldable pub parse_tasks : J.Value → Parse (List TaskInfo)
  unfolding codes task_list
  parse_tasks tasks_jv = do
    found ← array_field J tasks_jv (codes "tasks")
    task_list (get_or_else found [])

  -- `ParseScrennshot`
  unfoldable pub parse_screenshot : J.Value → Parse CaptureInfo
  unfolding codes parse_background
  parse_screenshot payload_jv = do
    found ← object_field J payload_jv (codes "capture")
    capture_jv ← demand found
    replay ← int_field J capture_jv (codes "replay")
    let capture = record new_capture_info { replay = get_or_else replay (pos 0) }
    behind ← object_field J capture_jv (codes "bkgd")
    elim behind [
      | none ↦ got capture
      | some bkgd ↦ do
        background ← parse_background J bkgd
        got (record capture { type = pos 2; background = background })
    ]

  -- `ScreenshootData::parse`
  unfoldable pub parse_screenshot_data : ℤ → J.Value → Parse ScreenshotData
  unfolding codes parse_json data_of msg_id_of parse_ipc_info parse_screenshot parse_tasks
  parse_screenshot_data unset total_jv = do
    data_jv ← data_of J total_jv
    id ← msg_id_of J total_jv
    bid ← text_field J data_jv (codes "bid")
    tasks_text ← demand bid
    tasks_jv ← demand (parse_json J tasks_text)
    text ← text_field J data_jv (codes "payload")
    payload ← demand text
    payload_jv ← demand (parse_json J payload)
    ipc ← parse_ipc_info J data_jv (new_ipc_info unset)
    capture ← parse_screenshot payload_jv
    tasks ← parse_tasks tasks_jv
    got (record { msg_id = id; ipc = ipc; capture = capture; payload = payload; tasks = tasks })

-- The tasks that `makeKafkaRequest` makes an output for.
unfoldable pub is_output : TaskInfo → Bool
unfolding codes text_eq
is_output taskinfo = eq_ℤ taskinfo.type (pos 6) && not (text_eq taskinfo.extra (codes "city"))
