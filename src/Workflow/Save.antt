-- ===== src/Workflow/Save.antt =====
-- `SaveBusinessMongo` of src/package/workflow/module/module_business_output.cpp, with `GetSaveMongoData` of the
-- data classes. The collection of Mongo and what a call of it answers are parameters.
pub mod Documents
pub mod Collection
mod Keys
mod Kept
mod Always
mod Tests
use business.Base.{Bool, true, false, List, [], ◌∷◌, ◌++◌, Option, none, some, if◌then◌else◌}
use business.Base.Int.{ℤ, pos, eq_ℤ}
use business.Base.Text.{Text, codes, is_empty}
use business.Data.Output.Requests.{FaceSet, mongo_failed, no_set, set_found}
use business.Workflow.Save.Documents.{
  SavedPerson, Passage, SaveData, MongoData, undefined, not_saved, to_save, get_save_mongo_data,
  get_replay, collection_of, key_filter, big_filter, replay_filter, document_of, with_replay,
}
use business.Workflow.Save.Collection.{Filter, Document, Mongo}

-- What `update_one` does: it succeeds, fails, or fails after the server has written. A document that sets a
-- field twice, as an attribute of the person can make it, is an error of the server: `unwritten`.
pub data Written : Type 0 where
  written unwritten unnoticed : Written

-- What happens outside during one call.
pub record Env : Type 0 where
  pub face_set : FaceSet
  pub connected : Bool
  pub finds_big : Bool
  pub finds_original : Bool
  pub update : Written
  pub current_time : Text

module _ {Double : Type 0} where
  -- `SwitchFaceSetIdBySetName`
  unfoldable pub switch_set : FaceSet → SavedPerson Double → Bool × SavedPerson Double
  switch_set answer p = if is_empty p.set_name then (true, p) else elim answer [
    | mongo_failed ↦ (false, p)
    | no_set ↦ (false, p)
    | set_found id type ↦ (true, record p { set_name = id; set_type = type })
  ]

module _ {Double : Type 0} (M : Mongo Double) (atoi : Text → ℤ) where
  -- `update_one` with `upsert`; an exception makes the function return -1.
  unfoldable pub write : Written → Text → Filter → Document Double → M.State → Bool × M.State
  write written collection filter doc st = (true, M.update_one collection filter doc st)
  write unwritten collection filter doc st = (false, st)
  write unnoticed collection filter doc st = (false, M.update_one collection filter doc st)

  -- A replayed passage is not stored over an original one.
  unfoldable pub store :
      Env → Passage Double → SavedPerson Double → SaveData → M.State → Bool × M.State
  unfolding write document_of with_replay get_replay
  store env x p d st =
      let collection = collection_of x.ipc in
      let doc = document_of atoi env.current_time x p d in
      if eq_ℤ (get_replay x.source) (pos 1)
      then (if env.finds_original
          then (if M.has collection (replay_filter x.ipc d) st
              then (true, st)
              else write env.update collection (key_filter x.ipc d) (with_replay doc) st)
          else (false, st))
      else write env.update collection (key_filter x.ipc d) doc st

  -- A message of type 1 is not stored over one of type 2.
  unfoldable pub store_unless_big :
      Env → Passage Double → SavedPerson Double → SaveData → M.State → Bool × M.State
  store_unless_big env x p d st =
      if eq_ℤ d.msg_type (pos 1)
      then (if env.finds_big
          then (if M.has (collection_of x.ipc) (big_filter x.ipc d) st
              then (true, st)
              else store env x p d st)
          else (false, st))
      else store env x p d st

  abbrev pub with_data :
      Env → Passage Double → SavedPerson Double → MongoData → M.State → Option (Bool × M.State)
  with_data env x p undefined st = none
  with_data env x p not_saved st = some (false, st)
  with_data env x p (to_save d) st = some (store_unless_big env x p d st)

  abbrev pub after_set :
      Env → Passage Double → Bool × SavedPerson Double → M.State → Option (Bool × M.State)
  after_set env x (false, p) st = some (false, st)
  after_set env x (true, p) st =
      if env.connected
      then with_data env x p (get_save_mongo_data x.source) st
      else some (false, st)

  -- `SaveBusinessMongo`: whether it returns 0; `none` is a read beyond the end of the faces.
  unfoldable pub save_business_mongo : Env → Passage Double → M.State → Option (Bool × M.State)
  unfolding switch_set get_save_mongo_data
  save_business_mongo env x st = after_set env x (switch_set env.face_set x.person) st

  -- One call after the other. After a crash the service is started again.
  abbrev pub state_after : Option (Bool × M.State) → M.State → M.State
  state_after none st = st
  state_after (some (ok, st')) st = st'

  unfoldable pub run_saves : List (Env × Passage Double) → M.State → M.State
  run_saves [] st = st
  run_saves ((env, x) ∷ rest) st = run_saves rest (state_after (save_business_mongo env x st) st)
