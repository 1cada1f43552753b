-- ===== src/Data/Output/Tests.antt =====
-- An event and a capture of a person who is not registered.
use business.Base.{◌≡◌, refl, true, false, List, [], ◌∷◌, none, some, map}
use business.Base.Int.{ℤ, pos, negsuc}
use business.Base.Text.{Text, codes, text_eq, is_empty}
use business.Json.{JsonLib}
use business.Json.Small.{Json, json_with}
use business.Json.SmallWriter.{writer_with, writer_with-IsWriter}
use business.Json.Writer.{JsonWriter, IsWriter}
use business.Data.{IpcInfo}
use business.Data.Event.{EventInfo, new_event_info, new_capture_face}
use business.Data.Capture.{new_capture_info}
use business.Data.Output.{Person, PluginInfo, is_noreg}
use business.Data.Output.Requests.{
  mongo_failed, set_found, business_topics, business_request, capture_topics, capture_request,
  switch_face_set, switched_request,
}
use business.Data.Output.Topics.{Hidden, OnOutputs, requests-Hidden}
use business.Data.Capture.{CaptureInfo, Face}
use business.Data.Screenshot.{TaskInfo}
use business.Data.Output.Others.{xiashun_request, screenshot_request, screenshot_document}
use business.Data.Output.Own.{
  asking, output_for, screenshot_request-asking, xiashun_request-HidesPerson,
}
use business.Data.Output.Topics.{HidesPerson}
use business.Workflow.KafkaOutput.{KafkaOutputInfo}

abbrev json : JsonLib
json = json_with (λ t. none)

abbrev writer : JsonWriter json
writer = writer_with (λ t. none) (λ v. codes "document")

printed : (v : Json) → is_empty (writer.to_styled_string v) ≡ false
unfolding codes
printed v = refl

writer-IsWriter : IsWriter json writer
writer-IsWriter = writer_with-IsWriter (λ t. none) (λ v. codes "document") printed

abbrev ipc : IpcInfo
ipc = record {
  space_id = codes "space";
  app_id = codes "app";
  device_id = codes "cam";
  uid = [];
  version = [];
  timestamp = pos 0;
}

abbrev somebody : Person json
somebody = record {
  id = codes "noreg_7";
  set_name = codes "guests";
  set_type = [];
  similar = 3;
  gen_url = codes "http://x";
  gen_url_expire = pos 9;
  person_attributes = [];
  track_age = negsuc 0;
  track_gender = pos 1;
}

abbrev plugin : PluginInfo
plugin = record { enable = true; datatype = pos 4; topiclist = codes "plugin" ∷ [] }

abbrev event : EventInfo
event = record new_event_info { msg_type = pos 2; capture_uris = new_capture_face ∷ [] }

abbrev atoi : Text → ℤ
atoi t = pos 0

abbrev expire_text : ℤ → Text
expire_text n = []

abbrev shot : Face
shot = record {
  tmst = pos 0;
  systm = pos 0;
  pic_box = [];
  face_box = [];
  url = codes "a.jpg";
  gen_url = codes "link";
  gen_url_expire = pos 0;
  age = pos 20;
  gender = pos 1;
}

abbrev one_shot : CaptureInfo
one_shot = record new_capture_info { faces = shot ∷ [] }

requests-Hidden_example :
    Hidden json writer writer-IsWriter atoi expire_text
      (business_topics json writer atoi expire_text plugin (codes "default"))
      (business_request json writer atoi expire_text ipc event somebody plugin (codes "default")).1
    × OnOutputs json writer writer-IsWriter atoi expire_text
        (capture_topics json writer atoi expire_text plugin (codes "default"))
        (capture_request json writer atoi expire_text ipc one_shot
          (set_found (codes "5") (codes "guest"))
          somebody
          plugin
          (codes "default"))
requests-Hidden_example =
    requests-Hidden json writer writer-IsWriter atoi expire_text ipc event one_shot
      (set_found (codes "5") (codes "guest")) somebody plugin (codes "default") new_capture_face []
      shot [] refl refl refl (unfold is_noreg codes text_eq in refl)

-- When the face set of a capture's person cannot be found, the request has no outputs and is no failure.
unsent :
    capture_request json writer atoi expire_text ipc new_capture_info mongo_failed somebody plugin
      (codes "default")
    ≡ some (true, [])
unfolding capture_request switch_face_set switched_request codes
unsent = refl

-- Without a face, and with the face set at hand, the request reads beyond the faces.
reads_no_face :
    capture_request json writer atoi expire_text ipc new_capture_info
      (set_found (codes "5") (codes "guest"))
      somebody
      plugin
      (codes "default")
    ≡ none
unfolding capture_request switch_face_set switched_request codes
reads_no_face = refl

-- An event goes to the plugin's topic and to the configured one.
abbrev topics_of : List KafkaOutputInfo → List Text
topics_of [] = []
topics_of (o ∷ os) = o.topic ∷ topics_of os

two_topics :
    topics_of
      (business_request json writer atoi expire_text ipc event somebody plugin (codes "default")).1
    ≡ codes "plugin" ∷ codes "default" ∷ []
unfolding business_request business_topics codes
two_topics = refl

abbrev task_of : Text → Text → ℤ → TaskInfo
task_of uid extra type = record {
  task_id = [];
  uid = uid;
  device_id = [];
  extra = extra;
  type = type;
}

abbrev tasks : List TaskInfo
tasks =
    task_of (codes "shop") [] (pos 6)
    ∷ task_of (codes "town") (codes "city") (pos 6)
    ∷ task_of (codes "mall") [] (pos 6)
    ∷ []

two_tasks :
    asking tasks ≡ task_of (codes "shop") [] (pos 6) ∷ task_of (codes "mall") [] (pos 6) ∷ []
unfolding asking codes text_eq business.Data.Screenshot.is_output
two_tasks = refl

screenshot_request-asking_example :
    screenshot_request json writer atoi expire_text ipc (pos 1) (codes "picture") tasks (codes "t")
    ≡ (
      true,
      map
          (output_for json writer writer-IsWriter atoi expire_text
            (codes "t")
            (screenshot_document json writer atoi expire_text ipc (pos 1) (codes "picture")))
          (asking tasks),
    )
screenshot_request-asking_example =
    screenshot_request-asking json writer writer-IsWriter atoi expire_text ipc (pos 1)
      (codes "picture") tasks (codes "t")

abbrev face : Face
face = record {
  tmst = pos 3;
  systm = pos 4;
  pic_box = [];
  face_box = [];
  url = codes "s3/b/1.jpg";
  gen_url = codes "http://1";
  gen_url_expire = pos 9;
  age = pos 3;
  gender = pos 0;
}

abbrev capture : CaptureInfo
capture = record new_capture_info { faces = face ∷ [] }

xiashun_request-HidesPerson_example :
    (doc : Json) × (xiashun_request json writer atoi expire_text ipc capture somebody (codes "t")
      ≡ some (true, record { topic = codes "t"; content = writer.to_styled_string doc } ∷ []))
    × HidesPerson json writer writer-IsWriter doc
xiashun_request-HidesPerson_example =
    xiashun_request-HidesPerson json writer writer-IsWriter atoi expire_text ipc capture somebody
      (codes "t") face [] refl (unfold is_noreg codes text_eq in refl)
