-- ===== src/Data/Tests.antt =====
-- A small JSON, and messages of it: an event, and a capture whose `face` holds a number.
use business.Base.{◌⊎◌, All, ℕ, ◌≡◌, refl, true, List, [], ◌∷◌, Option, none, some, if◌then◌else◌}
use business.Base.Int.{pos, negsuc}
use business.Base.Text.{Text, codes, text_lt, text_eq}
use business.Json.Small.{
  Json, number, text, item, no_items, member, no_members, json_with, json_with-IsJson,
}
use business.Json.{thrown, JsonLib, field}
use business.Json.Laws.{IsJson, Ensures}
use business.ComFunc.Segment.{getsplitstr, find_last_of}
use business.Data.Capture.WaitKey.{IsSegment, IsAtLeast, pic_wait_key-IsAtLeast}
use business.Data.Capture.{pic_wait_key}
use business.Handler.Person.{PersonResult, TrackResult, get_person_result}
use business.Handler.Person.ManualAge.{Yields, IsComplete, get_person_result-HasManualAge}
use business.Data.Factory.{parse_data, parse, read_message}
use business.Data.Total.{is_event, EventHasIds, parse_data-EventHasIds}

-- The texts that parse: two messages and their payloads.
abbrev message : ℕ → Text → Json
message type payload =
    member (codes "data")
      (member (codes "did") (text (codes "cam")) (
        member (codes "app_id") (text (codes "shop")) (
          member (codes "ptype") (number (pos type))
            (member (codes "payload") (text payload) no_members))))
      no_members

abbrev parse_text : Text → Option Json
parse_text t =
    if text_eq t (codes "event message")
    then some (message 32 (codes "event"))
    else if text_eq t (codes "capture message")
    then some (message 8 (codes "capture"))
    else if text_eq t (codes "event")
    then some
        (member (codes "event") (member (codes "msg_type") (number (pos 2)) no_members) no_members)
    else if text_eq t (codes "capture")
    then some (
        member (codes "capture")
          (member (codes "pesn") (member (codes "face") (item (number (pos 3)) no_items) no_members)
            no_members)
          no_members)
    else if text_eq t (codes "traced")
    then some (
        member (codes "error_code") (number (pos 0)) (
          member (codes "result")
            (member (codes "track_result") no_members
              (member (codes "person_result") no_members no_members))
            no_members))
    else none

abbrev small_json : JsonLib
small_json = json_with parse_text

small_json-IsJson : IsJson small_json
small_json-IsJson = json_with-IsJson parse_text

-- A number in `face` makes `isMember` throw, and nothing catches the exception.
face_number_throws : read_message small_json (pos 0) (codes "capture message") ≡ thrown
unfolding read_message parse_data parse codes text_eq field
face_number_throws = refl

parse_data-EventHasIds_example :
    Ensures
      (λ found. is_event found.0 ≡ true → Ensures EventHasIds (parse small_json (pos 0) found))
      (parse_data small_json (codes "event message"))
parse_data-EventHasIds_example =
    parse_data-EventHasIds small_json small_json-IsJson (pos 0) (codes "event message")

abbrev pictures : List Text
pictures = codes "s3/b/17.jpg" ∷ codes "s3/b/20.jpg" ∷ []

pic_wait_key-IsAtLeast_example :
    ((pic_wait_key pictures ≡ []) ⊎ IsSegment (pic_wait_key pictures) pictures)
    × All (λ url. IsAtLeast (pic_wait_key pictures) (getsplitstr url)) pictures
pic_wait_key-IsAtLeast_example = pic_wait_key-IsAtLeast pictures

key_of_pictures : pic_wait_key pictures ≡ codes "20.jpg"
unfolding pic_wait_key codes text_lt getsplitstr find_last_of
key_of_pictures = refl

abbrev nobody : PersonResult small_json
nobody = record {
  id = [];
  url = [];
  set_name = [];
  type = pos 0;
  is_auto_reg = pos 0;
  similar = 0;
  atime = pos 0;
  person_attributes = [];
}

abbrev no_track : TrackResult small_json
no_track = record { age = negsuc 0; gender = negsuc 0; score = 0 }

get_person_result-HasManualAge_example :
    Yields (IsComplete small_json) (get_person_result small_json (codes "traced") no_track nobody)
get_person_result-HasManualAge_example =
    get_person_result-HasManualAge small_json (codes "traced") no_track nobody
