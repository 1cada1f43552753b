-- ===== src/Workflow/GetPlugin/Tests.antt =====
-- A document with two channels, of which the second is for the session.
use business.Base.{◌≡◌, refl, true, false, [], ◌∷◌, none, some, if◌then◌else◌}
use business.Base.Int.{ℤ, pos}
use business.Base.Text.{codes}
use business.Json.Small.{
  Json, number, text, no_items, item, no_members, member, is_list, items_of, lookup, has_name,
  text_of, number_of,
}
use business.Workflow.{Session, init, capture_data}
use business.Workflow.Modules.{Answer, plugin_process}
use business.Workflow.GetPlugin.{Bson, Plugin, result, get_info_by_app_id, get_plugin_process}
use business.Workflow.GetPlugin.Choice.{IsChoice, chosen}
use business.Workflow.GetPlugin.Refines.{
  answer_of, get_info_by_app_id-IsChoice, get_plugin_process-answer,
}

abbrev small_bson : Bson
small_bson = record {
  Value = Json;
  at = λ v key. if has_name v key then some (lookup v key) else none;
  utf8 = text_of;
  int32 = number_of;
  array = λ v. if is_list v then some (items_of v) else none;
}

abbrev channel : ℤ → Json → Json
channel id topics =
    member (codes "event_type_id") (number id) (member (codes "topic_channel") topics no_members)

abbrev document_of : Json → Json
document_of topics = member (codes "service_adapter") (text (codes "shop")) (
    member (codes "app_id") (text (codes "a")) (
      member (codes "replay_push_flag") (number (pos 1)) (
        member (codes "data_channel")
          (item (channel (pos 1) no_items) (item (channel (pos 2) topics) no_items)) no_members)))

abbrev document : Json
document = document_of (item (text (codes "t")) (item (text (codes "u")) no_items))

abbrev plugin : Plugin
plugin = record {
  enable = false;
  app_id = [];
  face_rect_from = pos 0;
  face_attr_from = pos 0;
  replay_push_flag = pos 0;
  service_adapter = [];
  topiclist = [];
}

abbrev session : Session
session = init none capture_data [] (pos 2) none

-- A topic that is no text fails the lookup; the topic before it stays in the plugin.
half_read :
    (get_info_by_app_id small_bson
      (result (some (document_of (item (text (codes "t")) (item (number (pos 1)) no_items)))))
      plugin
      session).1.topiclist
    ≡ codes "t" ∷ []
unfolding get_info_by_app_id codes init business.Base.Text.text_eq
half_read = refl

get_info_by_app_id-IsChoice_example :
    IsChoice
      (some (some (codes "t" ∷ codes "u" ∷ [])))
      []
      session
      (get_info_by_app_id small_bson (result (some document)) plugin session)
unfolding chosen codes init business.Base.Text.text_eq
get_info_by_app_id-IsChoice_example =
    get_info_by_app_id-IsChoice small_bson (result (some document)) plugin session

abbrev answer : Answer
answer = record {
  path = true;
  reply = none;
  outputs = none;
  replayed = false;
  wait = some false;
  saved = false;
  plugin = none;
}

get_plugin_process-answer_example :
    (
      (get_plugin_process small_bson (result (some document)) plugin session).1,
      (get_plugin_process small_bson (result (some document)) plugin session).2,
    )
    ≡ plugin_process
        (answer_of answer (chosen small_bson (result (some document)) session.datatype))
        session
get_plugin_process-answer_example =
    get_plugin_process-answer small_bson answer (result (some document)) plugin session
