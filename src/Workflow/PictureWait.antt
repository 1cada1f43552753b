-- ===== src/Workflow/PictureWait.antt =====
-- src/package/workflow/module/module_picture_waiting.cpp: an event waits in redis, under a key made of
-- its pictures, until the capture with these pictures has been traced; the capture then hands its result
-- to the events that wait, and leaves it for those that come later.
pub mod Laws
pub mod Slots
pub mod Handshake
mod Tests
use business.Base.{
  ℕ, suc, ◌+◌, ◌/◌, Bool, true, false, not, ◌&&◌, ◌||◌, List, [], ◌∷◌, ◌++◌, map, Option, none,
  some, if◌then◌else◌,
}
use business.Base.Int.{ℤ, pos, eq_ℤ}
use business.Base.Text.{Text, codes, is_empty}
use business.Json.{
  Parse, thrown, refused, got, ◌>>=◌, call, JsonLib, int_field, text_field, array_field,
}
use business.Json.Writer.{JsonWriter}
use business.Redis.{RedisServer, get_value_by_key, set_advanced_key_value, red_lock, red_unlock}

-- `PictureWaitResult`
pub data WaitResult : Type 0 where
  pass wait : WaitResult

-- What the module reads of the session and its data.
pub record Waiting : Type 0 where
  pub uid_ : Text
  pub payload : Text
  pub ptype : ℤ
  pub key : Text
  pub trace_space_result_ : Text

-- The result, and the calls to other parts: `getPersonResult` with its text, and `handleFromRedis` with
-- the payload and the tracing result.
pub record Outcome : Type 0 where
  pub flag : WaitResult
  pub asked : Option Text
  pub replayed : List (Text × Text)

abbrev pub only : WaitResult → Outcome
only flag = record { flag = flag; asked = none; replayed = [] }

abbrev pub business_type : ℤ
business_type = pos 32

abbrev pub trace_type : ℤ
trace_type = pos 8

-- Each message with the tracing result that it is replayed with.
abbrev pub map_pairs : List Text → Text → List (Text × Text)
map_pairs messages result = map (λ text. (text, result)) messages

abbrev pub cache_timeout : ℕ
cache_timeout = 600000

abbrev pub lock_timeout : ℕ
lock_timeout = 5000

-- `"lock_" + key`
unfoldable pub lock_key_of : Text → Text
unfolding codes
lock_key_of key = codes "lock_" ++ key

module _ (J : JsonLib) where
  -- The texts in an array; the other elements are passed over.
  unfoldable pub texts_of : List (J.Value) → Parse (List Text)
  texts_of [] = got []
  texts_of (v ∷ vs) =
      let rest = texts_of vs in
      if J.is_string v
      then (do text ← call (J.as_string v); later ← rest; got (text ∷ later))
      else rest

  module _ (W : JsonWriter J) where
    -- `value_json[k].append(Json::Value(text))`
    unfoldable pub append_text : J.Value → Text → Text → Parse (J.Value)
    append_text v k text = do
      list ← call (J.at v k)
      grown ← call (W.append_to list (W.of_text text))
      got (W.set v k grown)

module _ (S : RedisServer) (J : JsonLib) (W : JsonWriter J) where
  -- `SetAdvancedKeyValue` of a document; its failure is only logged.
  unfoldable pub keep : Text → J.Value → S.State → S.State
  unfolding set_advanced_key_value
  keep key v st = (set_advanced_key_value S key (W.to_styled_string v) cache_timeout false st).1

  unfoldable pub handle_without_key : Waiting → S.State → Parse (Outcome × S.State)
  unfolding codes append_text keep
  handle_without_key x st =
      let value_json = W.set W.null_value (codes "ptype") (W.of_int x.ptype) in
      if eq_ℤ x.ptype business_type
      then (do
        listed ← append_text J W value_json (codes "message_list") x.payload
        got (only wait, keep x.key listed st))
      else got (
        only pass,
        keep x.key (W.set value_json (codes "trace_result") (W.of_text x.trace_space_result_)) st,
      )

  -- A result that waits for this event.
  unfoldable pub take_result : J.Value → S.State → Parse (Outcome × S.State)
  unfolding codes
  take_result data_json st = do
    found ← text_field J data_json (codes "trace_result")
    got (record { flag = pass; asked = found; replayed = [] }, st)

  -- One more event that waits.
  unfoldable pub join_waiting : Waiting → J.Value → S.State → Parse (Outcome × S.State)
  unfolding codes append_text keep
  join_waiting x data_json st = do
    listed ← append_text J W data_json (codes "message_list") x.payload
    got (only wait, keep x.key listed st)

  -- The traced capture that the events wait for.
  unfoldable pub release : Waiting → J.Value → S.State → Parse (Outcome × S.State)
  unfolding codes texts_of keep
  release x data_json st = do
    list ← call (J.at data_json (codes "message_list"))
    messages ← texts_of J (J.items list)
    let value_json = W.set W.null_value (codes "trace_result") (W.of_text x.trace_space_result_)
    got (
      record { flag = pass; asked = none; replayed = map_pairs messages x.trace_space_result_ },
      keep x.key (W.set value_json (codes "ptype") (W.of_int x.ptype)) st,
    )

  -- The switch on the stored type.
  unfoldable pub by_type : ℤ → Waiting → J.Value → S.State → Parse (Outcome × S.State)
  unfolding take_result join_waiting release
  by_type value_type x data_json st =
      if eq_ℤ value_type trace_type
      then if eq_ℤ x.ptype business_type then take_result data_json st else got (only pass, st)
      else if eq_ℤ value_type business_type
      then if eq_ℤ x.ptype business_type
        then join_waiting x data_json st
        else if eq_ℤ x.ptype trace_type
        then release x data_json st
        else got (only pass, st)
      else got (only pass, st)

  -- `reader_parse` is `Json::Reader::parse`.
  module _ (reader_parse : Text → Option (J.Value)) where
    unfoldable pub handle_with_key : Text → Waiting → S.State → Parse (Outcome × S.State)
    unfolding codes by_type
    handle_with_key value x st = elim (reader_parse value) [
      | none ↦ got (only pass, st)
      | some data_json ↦ do
        value_type ← int_field J data_json (codes "ptype")
        elim value_type [ none ↦ got (only pass, st) | some n ↦ by_type n x data_json st ]
    ]

    -- What is done under the lock.
    unfoldable pub handle_locked : (Text × Bool) × S.State → Waiting → Parse (Outcome × S.State)
    unfolding handle_without_key handle_with_key
    handle_locked ((get_data, ret), st) x =
        if not ret || is_empty get_data
        then handle_without_key x st
        else handle_with_key get_data x st

    -- `clock` is that of `RedLock`, which gets as much fuel as it needs.
    module _ (clock : ℕ → ℕ) where
      unfoldable pub unlock : Waiting → Outcome × S.State → Outcome × S.State
      unfolding red_unlock lock_key_of
      unlock x (result, st) = (result, (red_unlock S (lock_key_of x.key) x.uid_ st).1)

      unfoldable pub after_lock : Waiting → Option (Bool × S.State) → Parse (Outcome × S.State)
      unfolding handle_locked get_value_by_key unlock
      after_lock x none = refused
      after_lock x (some (false, st)) = got (only pass, st)
      after_lock x (some (true, st)) = do
        handled ← handle_locked (get_value_by_key S x.key [] st) x
        got (unlock x handled)

      unfoldable pub get_result_of_wait : Waiting → S.State → Parse (Outcome × S.State)
      unfolding after_lock red_lock lock_key_of
      get_result_of_wait x st =
          if is_empty x.key
          then got (only pass, st)
          else after_lock x (
              red_lock S clock (suc (lock_timeout / 10 + 1)) (lock_key_of x.key) x.uid_ lock_timeout
                lock_timeout st)
