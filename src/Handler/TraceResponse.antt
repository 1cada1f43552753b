-- ===== src/Handler/TraceResponse.antt =====
-- `ProcTraceSpaceResponse` of src/handler/pre_handler_http_response.cpp, which reads the same members as
-- `getPersonResult` and keeps the body, and `handleFromRedis` of
-- src/package/consumer/XBusinessHandler.cpp, which reads a kept body for an event that waited.
pub mod Replay
mod Tests
use business.Base.{Bool, true, false, ◌||◌, Option, none, some, if◌then◌else◌}
use business.Base.Int.{ℤ, pos, negsuc, eq_ℤ}
use business.Base.Text.{Text, codes}
use business.Json.{
  Parse, thrown, refused, got, ◌>>=◌, JsonLib, parse_json, int_field, object_field, field,
}
use business.Data.Factory.{ParsedData, read_message}
use business.Handler.Person.{TrackResult, PersonResult, Found, read_result, get_person_result}

-- The error codes that are accepted: 0 and -10041.
unfoldable pub accepts : Option ℤ → Bool
accepts none = false
accepts (some n) = eq_ℤ n (pos 0) || eq_ℤ n (negsuc 10040)

module _ (J : JsonLib) where
  abbrev pub not_found : TrackResult J → PersonResult J → Found J
  not_found track person = record { track = track; person = person; ok = false }

  -- The end: `trace_space_result_` is the body if all was read.
  abbrev pub keep_body : Text → Text → Found J → Parse (Found J × Text)
  keep_body body old found = got (found, if found.ok then body else old)

  unfoldable pub read_body :
      Option (J.Value) → Text → TrackResult J → PersonResult J → Text → Parse (Found J × Text)
  unfolding read_result
  read_body none body track person old = got (not_found track person, old)
  read_body (some result) body track person old =
      read_result J result track person >>= keep_body body old

  unfoldable pub read_accepted :
      Bool → J.Value → Text → TrackResult J → PersonResult J → Text → Parse (Found J × Text)
  unfolding codes read_body
  read_accepted false body_jv body track person old = got (not_found track person, old)
  read_accepted true body_jv body track person old = do
    result ← object_field J body_jv (codes "result")
    read_body result body track person old

  unfoldable pub read_response :
      Option (J.Value) → Text → TrackResult J → PersonResult J → Text → Parse (Found J × Text)
  unfolding codes accepts read_accepted
  read_response none body track person old = got (not_found track person, old)
  read_response (some body_jv) body track person old = do
    code ← int_field J body_jv (codes "error_code")
    read_accepted (accepts code) body_jv body track person old

  -- `ProcTraceSpaceResponse`, with the results and `trace_space_result_` after it.
  unfoldable pub proc_trace_space_response :
      Bool → Text → TrackResult J → PersonResult J → Text → Parse (Found J × Text)
  unfolding parse_json read_response
  proc_trace_space_response status_ok body track person old =
      if status_ok
      then read_response (parse_json J body) body track person old
      else got (not_found track person, old)

  -- The session of an event from redis, as far as its message and its results.
  pub record Replayed : Type 0 where
    pub event : ParsedData
    pub track : TrackResult J
    pub person : PersonResult J

  abbrev pub push_found : ParsedData → Found J → Parse Replayed
  push_found d found =
      if found.ok
      then got (record { event = d; track = found.track; person = found.person })
      else refused

  -- `handleFromRedis`: `refused` where it returns false; `track` and `person` are those of a new session.
  unfoldable pub handle_from_redis :
      ℤ → Text → Text → TrackResult J → PersonResult J → Parse Replayed
  unfolding read_message get_person_result
  handle_from_redis unset payload pic_result track person = do
    d ← read_message J unset payload
    found ← get_person_result J pic_result track person
    push_found d found
