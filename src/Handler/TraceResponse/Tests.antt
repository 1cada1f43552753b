-- ===== src/Handler/TraceResponse/Tests.antt =====
-- Two answers of the tracing service, and an event that waits for one.
use business.Base.{◌≡◌, refl, true, [], ◌∷◌, Option, none, some, if◌then◌else◌}
use business.Base.Int.{pos, negsuc, ℤ}
use business.Base.Text.{Text, codes, text_eq}
use business.Json.{JsonLib, refused, got}
use business.Json.Small.{Json, number, text, member, no_members, json_with}
use business.Handler.Person.{PersonResult, TrackResult, Found, unknown_age}
use business.Handler.TraceResponse.{proc_trace_space_response, handle_from_redis}
use business.Handler.TraceResponse.Replay.{Replays, handle_from_redis-accepted}

abbrev answer : ℤ → Json
answer code = member (codes "error_code") (number code) (
    member (codes "result")
      (member (codes "track_result") no_members (
        member (codes "person_result") (member (codes "id") (text (codes "p1")) no_members)
          no_members))
      no_members)

abbrev message : Json
message =
    member (codes "data")
      (member (codes "did") (text (codes "cam")) (
        member (codes "app_id") (text (codes "shop")) (
          member (codes "ptype") (number (pos 32))
            (member (codes "payload") (text (codes "event")) no_members))))
      no_members

abbrev parse_text : Text → Option Json
parse_text t =
    if text_eq t (codes "message")
    then some message
    else if text_eq t (codes "event")
    then some
        (member (codes "event") (member (codes "msg_type") (number (pos 2)) no_members) no_members)
    else if text_eq t (codes "found")
    then some (answer (pos 0))
    else if text_eq t (codes "odd")
    then some (answer (negsuc 10040))
    else none

abbrev json : JsonLib
json = json_with parse_text

abbrev no_track : TrackResult json
no_track = record { age = negsuc 0; gender = negsuc 0; score = 0 }

abbrev nobody : PersonResult json
nobody = record {
  id = [];
  url = [];
  set_name = [];
  type = pos 0;
  is_auto_reg = pos 0;
  similar = 0;
  atime = pos 0;
  person_attributes = [];
}

abbrev found : Found json
found = record {
  track = no_track;
  person = record nobody { id = codes "p1"; person_attributes = unknown_age ∷ [] };
  ok = true;
}

-- The answer with -10041 is accepted for the capture and refused for the event.
accepted_then_refused :
    (proc_trace_space_response json true (codes "odd") no_track nobody []
      ≡ got (found, codes "odd"))
    × (handle_from_redis json (pos 0) (codes "message") (codes "odd") no_track nobody ≡ refused)
unfolding proc_trace_space_response handle_from_redis codes text_eq business.Json.field
accepted_then_refused = (refl, refl)

accepted :
    proc_trace_space_response json true (codes "found") no_track nobody []
    ≡ got (found, codes "found")
unfolding proc_trace_space_response codes text_eq business.Json.field
accepted = refl

handle_from_redis-accepted_example :
    Replays json (pos 0) (codes "message") (codes "found") (codes "found") no_track nobody found
handle_from_redis-accepted_example =
    handle_from_redis-accepted json (pos 0) true (codes "message") (codes "found") []
      (codes "found") no_track nobody found accepted refl
