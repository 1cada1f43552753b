-- ===== src/Data.antt =====
-- include/data and src/data: what a message becomes when it is read. `BaseData` holds the parts that the
-- data classes share.
pub mod Output
pub mod Capture
pub mod Event
pub mod Screenshot
pub mod Factory
pub mod Total
mod Tests
use business.Base.{
  ℕ, Bool, true, false, ◌&&◌, not, List, [], ◌∷◌, ◌++◌, Option, none, some, if◌then◌else◌,
}
use business.Base.Int.{ℤ, pos}
use business.Base.Text.{Text, codes, text_eq, is_empty}
use business.Json.{
  Parse, thrown, refused, got, ◌>>=◌, call, demand, get_or_else, JsonLib, parse_json, text_field,
  int64_field, object_field,
}

-- `IPCInfo`
pub record IpcInfo : Type 0 where
  pub space_id : Text
  pub app_id : Text
  pub device_id : Text
  pub uid : Text
  pub version : Text
  pub timestamp : ℤ

-- The members are default-initialised; the timestamp is not set then, and stands for any value.
abbrev pub new_ipc_info : ℤ → IpcInfo
new_ipc_info unset = record {
  space_id = [];
  app_id = [];
  device_id = [];
  uid = [];
  version = [];
  timestamp = unset;
}

-- An id by its level, where the level has the name that is asked for and the id is not empty.
unfoldable pub level_id : Text → Option Text → Option Text → Text → Text
unfolding text_eq
level_id wanted name id old =
    if text_eq (get_or_else name []) wanted && not (is_empty (get_or_else id []))
    then get_or_else id []
    else old

unfoldable pub default_space : IpcInfo → IpcInfo
unfolding codes
default_space ipc =
    if is_empty ipc.space_id
    then record ipc { space_id = ipc.app_id ++ codes "defaultspace" }
    else ipc

-- The tenant must be known.
unfoldable pub checked_ipc : IpcInfo → Parse IpcInfo
unfolding default_space
checked_ipc ipc = if is_empty ipc.app_id then refused else got (default_space ipc)

module _ (J : JsonLib) where
  -- The value of the member `data`, as an object or as the text of one.
  unfoldable pub data_of : J.Value → Parse (J.Value)
  unfolding codes parse_json
  data_of total_jv = do
    there ← call (J.is_member total_jv (codes "data"))
    if there
        then (do
          w ← call (J.at total_jv (codes "data"))
          if J.is_object w
              then got w
              else if J.is_string w
              then (do s ← call (J.as_string w); demand (parse_json J s))
              else refused)
        else refused

  -- The member `payload`, the text of an object.
  unfoldable pub payload_of : J.Value → Parse (J.Value)
  unfolding codes parse_json
  payload_of data_jv = do
    text ← text_field J data_jv (codes "payload")
    payload ← demand text
    demand (parse_json J payload)

  -- `BaseData::parseIpcInfo`
  unfoldable pub parse_ipc_info : J.Value → IpcInfo → Parse IpcInfo
  unfolding codes level_id checked_ipc
  parse_ipc_info data_jv ipc = do
    uid ← text_field J data_jv (codes "uid")
    version ← text_field J data_jv (codes "ver")
    did ← text_field J data_jv (codes "did")
    device_id ← demand did
    timestamp ← int64_field J data_jv (codes "tmst")
    app_id ← text_field J data_jv (codes "app_id")
    space_id ← text_field J data_jv (codes "space_id")
    levelone_name ← text_field J data_jv (codes "levelone_name")
    leveltwo_name ← text_field J data_jv (codes "leveltwo_name")
    levelone_id ← text_field J data_jv (codes "levelone_id")
    leveltwo_id ← text_field J data_jv (codes "leveltwo_id")
    checked_ipc (record {
      space_id =
          level_id (codes "space_id") leveltwo_name leveltwo_id (get_or_else space_id ipc.space_id);
      app_id = level_id (codes "app_id") levelone_name levelone_id (get_or_else app_id ipc.app_id);
      device_id = device_id;
      uid = get_or_else uid ipc.uid;
      version = get_or_else version ipc.version;
      timestamp = get_or_else timestamp ipc.timestamp;
    })

  -- What `parse` of every class reads first: the data, the message's id and the ipc.
  unfoldable pub msg_id_of : J.Value → Parse Text
  unfolding codes
  msg_id_of total_jv = do id ← text_field J total_jv (codes "msg_id"); got (get_or_else id [])
