-- ===== src/Workflow/GetPlugin.antt =====
-- `GetPluginModule` of src/package/workflow/module/module_get_plugin.cpp, read by read: what a failed read
-- leaves of the plugin and of the chain stays. Mongo and bsoncxx are parameters.
mod Choice
mod Refines
mod Tests
use business.Base.{ℕ, Bool, true, false, List, [], ◌∷◌, ◌++◌, Option, none, some, if◌then◌else◌}
use business.Base.Int.{ℤ, eq_ℤ}
use business.Base.Text.{Text, codes}
use business.Workflow.{Session, final, mongo_failed}
use business.Workflow.Modules.{Next, stop, go_on, repair_proc_chain}

-- What the module calls of bsoncxx: `operator[]`, whose element may be missing, and the getters, which
-- throw on another type.
pub record Bson : Type 1 where
  pub Value : Type 0
  pub at : Value → Text → Option Value
  pub utf8 : Value → Option Text
  pub int32 : Value → Option ℤ
  pub array : Value → Option (List Value)

-- `PluginInfo`; its `datatype` is the one of `Session`.
pub record Plugin : Type 0 where
  pub enable : Bool
  pub app_id : Text
  pub face_rect_from : ℤ
  pub face_attr_from : ℤ
  pub replay_push_flag : ℤ
  pub service_adapter : Text
  pub topiclist : List Text

-- Whether the reads so far went without an exception, and the plugin after them.
abbrev pub also : Bool × Plugin → (Plugin → Bool × Plugin) → Bool × Plugin
also (false, p) f = (false, p)
also (true, p) f = f p

-- A text that must be there.
abbrev pub put_text : Option Text → (Text → Plugin → Plugin) → Plugin → Bool × Plugin
put_text none set p = (false, p)
put_text (some t) set p = (true, set t p)

-- `if (element)`, and a number then.
abbrev pub put_number : Option (Option ℤ) → (ℤ → Plugin → Plugin) → Plugin → Bool × Plugin
put_number none set p = (true, p)
put_number (some none) set p = (false, p)
put_number (some (some n)) set p = (true, set n p)

-- `repairProcChain`
unfoldable pub repair : Plugin → Session → Session
unfolding repair_proc_chain
repair p s = if p.enable then repair_proc_chain s else s

module _ (B : Bson) where
  -- What `find_one` answers: no connection, an exception, or the document if there is one.
  pub data Lookup : Type 0 where
    no_connection mongo_error : Lookup
    result : Option (B.Value) → Lookup

  abbrev pub utf8_at : B.Value → Text → Option Text
  utf8_at v key = elim (B.at v key) [ none ↦ none | some w ↦ B.utf8 w ]

  abbrev pub int32_at : B.Value → Text → Option ℤ
  int32_at v key = elim (B.at v key) [ none ↦ none | some w ↦ B.int32 w ]

  abbrev pub array_at : B.Value → Text → Option (List (B.Value))
  array_at v key = elim (B.at v key) [ none ↦ none | some w ↦ B.array w ]

  -- An element that may be missing, and its number.
  abbrev pub optional_at : B.Value → Text → Option (Option ℤ)
  optional_at v key = elim (B.at v key) [ none ↦ none | some w ↦ some (B.int32 w) ]

  unfoldable pub read_fields : B.Value → Plugin → Bool × Plugin
  read_fields doc p =
      also
        (also
          (also
            (also
              (put_text (utf8_at doc (codes "service_adapter"))
                (λ t q. record q { service_adapter = t }) (record p { enable = true }))
              (put_text (utf8_at doc (codes "app_id")) (λ t q. record q { app_id = t })))
            (put_number (optional_at doc (codes "face_rect_from"))
              (λ n q. record q { face_rect_from = n })))
          (put_number (optional_at doc (codes "face_attr_from"))
            (λ n q. record q { face_attr_from = n })))
        (put_number (optional_at doc (codes "replay_push_flag"))
          (λ n q. record q { replay_push_flag = n }))

  unfoldable pub push_topics : List (B.Value) → Plugin → Bool × Plugin
  push_topics [] p = (true, p)
  push_topics (v ∷ vs) p = elim (B.utf8 v) [
    | none ↦ (false, p)
    | some topic ↦ push_topics vs (record p { topiclist = p.topiclist ++ topic ∷ [] })
  ]

  abbrev pub after_topics : Bool × Plugin → Session → Bool × Plugin × Session
  after_topics (false, p) s = (false, p, s)
  after_topics (true, p) s = (true, p, repair p s)

  abbrev pub read_topics : Option (List (B.Value)) → Plugin → Session → Bool × Plugin × Session
  read_topics none p s = (false, p, s)
  read_topics (some vs) p s = after_topics (push_topics vs p) s

  -- The loop over `data_channel`, which the first channel of the data type ends.
  unfoldable pub read_channels : List (B.Value) → Plugin → Session → Bool × Plugin × Session
  unfolding push_topics repair
  read_channels [] p s = (true, p, s)
  read_channels (v ∷ vs) p s =
      let later = read_channels vs p s in
      elim (int32_at v (codes "event_type_id")) [
        | none ↦ (false, p, s)
        | some datatype ↦
            if eq_ℤ datatype s.datatype
            then read_topics (array_at v (codes "topic_channel")) p s
            else later
      ]

  abbrev pub read_array : Option (List (B.Value)) → Plugin → Session → Bool × Plugin × Session
  read_array none p s = (false, p, s)
  read_array (some vs) p s = read_channels vs p s

  -- `if (element)`, and the channels then.
  abbrev pub read_data_channel : Option (B.Value) → Plugin → Session → Bool × Plugin × Session
  read_data_channel none p s = (true, p, s)
  read_data_channel (some w) p s = read_array (B.array w) p s

  abbrev pub after_fields : B.Value → Bool × Plugin → Session → Bool × Plugin × Session
  after_fields doc (false, p) s = (false, p, s)
  after_fields doc (true, p) s = read_data_channel (B.at doc (codes "data_channel")) p s

  -- `getInfoByAppId`, with the plugin and the session after it.
  unfoldable pub get_info_by_app_id : Lookup → Plugin → Session → Bool × Plugin × Session
  unfolding read_fields read_channels
  get_info_by_app_id no_connection p s = (false, p, s)
  get_info_by_app_id mongo_error p s = (false, p, s)
  get_info_by_app_id (result none) p s = (true, p, s)
  get_info_by_app_id (result (some doc)) p s = after_fields doc (read_fields doc p) s

  abbrev pub after_info : Bool × Plugin × Session → Plugin × Session × Next
  after_info (false, p, s) = (p, final mongo_failed s, stop)
  after_info (true, p, s) = (p, (go_on s).0, (go_on s).1)

  -- `GetPluginModule::Process`
  unfoldable pub get_plugin_process : Lookup → Plugin → Session → Plugin × Session × Next
  unfolding get_info_by_app_id go_on final
  get_plugin_process found p s = after_info (get_info_by_app_id found p s)
