-- ===== src/Workflow/Save/Tests.antt =====
-- A collection that keeps every document that was written, and two messages about one passage.
use business.Base.{◌≡◌, refl, Bool, true, false, ◌&&◌, ◌||◌, List, [], ◌∷◌, Option, none, some, All}
use business.Base.Int.{ℤ, pos, negsuc}
use business.Base.Text.{Text, codes, text_eq, text_eq_refl}
use business.Base.Dict.{lookup, text_eq_laws}
use business.Data.{IpcInfo}
use business.Data.Event.{EventInfo, new_event_info}
use business.Data.Output.Requests.{no_set}
use business.Workflow.Save.Documents.{
  Passage, SaveData, to_save, business_data, xiashun_business_data, get_replay, get_save_mongo_data,
  collection_of, big_filter,
}
use business.Workflow.Save.Collection.{
  Field, Cond, is_not, Filter, Document, Mongo, IsMongo, Sets, meets,
}
use business.Workflow.Save.Keys.{IsSame}
use business.Workflow.Save.Always.{save_business_mongo-IsHeld_always}
use business.Workflow.Save.{Env, written, save_business_mongo, run_saves, state_after}

abbrev holds : {Double : Type 0} → Option (Field Double) → Cond → Bool
holds none (is_not m) = true
holds none c = false
holds (some v) c = meets v c

abbrev all_hold : {Double : Type 0} → Document Double → Filter → Bool
all_hold D [] = true
all_hold D ((k, c) ∷ G) = holds (lookup k D) c && all_hold D G

abbrev has_document : {Double : Type 0} → Text → Filter → List (Text × Document Double) → Bool
has_document c G [] = false
has_document c G ((name, D) ∷ st) = (text_eq name c && all_hold D G) || has_document c G st

abbrev journal : Mongo (Unit {0})
journal = record {
  State = List (Text × Document (Unit {0}));
  has = has_document;
  update_one = λ c F D st. (c, D) ∷ st;
}

all_hold-Sets : (D : Document (Unit {0})) (G : Filter) → All (Sets D) G → all_hold D G ≡ true
all_hold-Sets D [] h = refl
all_hold-Sets D ((k, c) ∷ G) ((v, found, met), rest) = rw (found, met, all_hold-Sets D G rest) refl

or_true : (b : Bool) → (b || true) ≡ true
or_true true = refl
or_true false = refl

journal-IsMongo : IsMongo journal
journal-IsMongo = record {
  has_set = λ c F G D st sets. rw (text_eq_refl c, all_hold-Sets D G sets) refl;
  has_kept = λ c d F G D st h found. rw found (or_true _);
}

abbrev camera : IpcInfo
camera = record {
  space_id = codes "hall";
  app_id = codes "shop";
  device_id = codes "cam";
  uid = [];
  version = [];
  timestamp = pos 0;
}

abbrev event_of : ℤ → EventInfo
event_of msg_type = record new_event_info { msg_type = msg_type; track_id = pos 7 }

abbrev passage : ℤ → Passage (Unit {0})
passage msg_type = record {
  ipc = camera;
  source = business_data (event_of msg_type);
  person = record {
    id = codes "p1";
    set_name = [];
    set_type = [];
    url = [];
    similar = tt;
    person_attributes = [];
  };
  track_age = negsuc 0;
  track_gender = negsuc 0;
  event_age = pos 30;
  event_gender = pos 1;
}

abbrev data_of_type : ℤ → SaveData
data_of_type msg_type = record {
  event_type = new_event_info.event_type;
  msg_type = msg_type;
  event_time = new_event_info.event_time;
  track_id = pos 7;
  urls = [];
}

abbrev env : Env
env = record {
  face_set = no_set;
  connected = true;
  finds_big = true;
  finds_original = true;
  update = written;
  current_time = codes "now";
}

abbrev atoi : Text → ℤ
atoi t = pos 0

abbrev one_record : List (Text × Document (Unit {0}))
one_record = state_after journal atoi (save_business_mongo journal atoi env (passage (pos 2)) []) []

saved : save_business_mongo journal atoi env (passage (pos 2)) [] ≡ some (true, one_record)
unfolding save_business_mongo business.Workflow.Save.store_unless_big business.Workflow.Save.store
saved = refl

source_of_type :
    (n : ℤ) → get_save_mongo_data (business_data (event_of n)) ≡ to_save (data_of_type n)
unfolding get_save_mongo_data
source_of_type n = refl

same : IsSame camera (data_of_type (pos 1)) camera (data_of_type (pos 2))
unfolding codes text_eq
same = record { device = refl; track = refl; app = refl; space = refl; direction = refl }

save_business_mongo-IsHeld_always_example :
    let now = run_saves journal atoi ((env, passage (pos 1)) ∷ []) one_record in
    (has_document (collection_of camera) (big_filter camera (data_of_type (pos 2))) now ≡ true)
    × (state_after journal atoi (save_business_mongo journal atoi env (passage (pos 1)) now) now
        ≡ now)
unfolding get_replay
save_business_mongo-IsHeld_always_example =
    save_business_mongo-IsHeld_always journal journal-IsMongo atoi env (passage (pos 2))
      (data_of_type (pos 2)) [] one_record ((env, passage (pos 1)) ∷ []) env (passage (pos 1))
      (data_of_type (pos 1)) (source_of_type (pos 2)) refl refl saved (source_of_type (pos 1)) refl
      same

-- The replay mark of a xiashun message is read and then ignored.
ignored_replay :
    get_replay (xiashun_business_data (record new_event_info { replay = pos 1 })) ≡ pos 0
unfolding get_replay
ignored_replay = refl
