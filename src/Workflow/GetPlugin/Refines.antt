-- ===== src/Workflow/GetPlugin/Refines.antt =====
-- `getInfoByAppId` of src/package/workflow/module/module_get_plugin.cpp against a reader without state,
-- and `GetPluginModule::Process` against the module as Workflow/Modules has it.
use business.Base.{
  ◌≡◌, refl, sym, subst, ◌∙◌, Bool, true, false, ◌&&◌, List, [], ◌∷◌, ◌++◌, Option, none, some,
  if◌then◌else◌, append_assoc, append-nil, inl, inr, Option-cases, Bool-cases,
}
use business.Base.Int.{ℤ, eq_ℤ}
use business.Base.Text.{Text, codes}
use business.Workflow.{Session}
use business.Workflow.Modules.{Answer, plugin_process}
use business.Workflow.GetPlugin.Choice.{
  is_some, number_ok, texts, texts_in, first_channel, is_readable, channels_in, channels_of, chosen,
  IsChoice,
}
use business.Workflow.GetPlugin.{
  Bson, Plugin, also, put_text, put_number, repair, Lookup, no_connection, mongo_error, result,
  utf8_at, int32_at, array_at, optional_at, read_fields, push_topics, after_topics, read_topics,
  read_channels, read_array, read_data_channel, after_fields, get_info_by_app_id, after_info,
  get_plugin_process,
}

-- A step on the plugin that goes well as `b` says, and keeps the topics.
abbrev Keeps : Bool → List Text → Bool × Plugin → Type 0
Keeps b old (ok, p) = (ok ≡ b) × (p.enable ≡ true) × (p.topiclist ≡ old)

also-Keeps :
    (b c : Bool) (old : List Text) (d : Bool × Plugin) (f : Plugin → Bool × Plugin)
    → Keeps b old d
    → ((p : Plugin) → p.enable ≡ true → p.topiclist ≡ old → Keeps c old (f p))
    → Keeps (b && c) old (also d f)
also-Keeps true c old (true, p) f (ok, on, same) h = h p on same
also-Keeps false c old (false, p) f (ok, on, same) h = (refl, on, same)
also-Keeps true c old (false, p) f (ok, on, same) h = absurd cc
also-Keeps false c old (true, p) f (ok, on, same) h = absurd cc

put_text-Keeps :
    (o : Option Text) (set : Text → Plugin → Plugin) (old : List Text) (p : Plugin)
    → ((t : Text) → ((set t p).enable ≡ p.enable) × ((set t p).topiclist ≡ p.topiclist))
    → p.enable ≡ true
    → p.topiclist ≡ old
    → Keeps (is_some o) old (put_text o set p)
put_text-Keeps none set old p kept on same = (refl, on, same)
put_text-Keeps (some t) set old p kept on same = (refl, (kept t).0 ∙ on, (kept t).1 ∙ same)

put_number-Keeps :
    (o : Option (Option ℤ)) (set : ℤ → Plugin → Plugin) (old : List Text) (p : Plugin)
    → ((n : ℤ) → ((set n p).enable ≡ p.enable) × ((set n p).topiclist ≡ p.topiclist))
    → p.enable ≡ true
    → p.topiclist ≡ old
    → Keeps (number_ok o) old (put_number o set p)
put_number-Keeps none set old p kept on same = (refl, on, same)
put_number-Keeps (some none) set old p kept on same = (refl, on, same)
put_number-Keeps (some (some n)) set old p kept on same = (refl, (kept n).0 ∙ on, (kept n).1 ∙ same)

module _ (B : Bson) where
  read_fields-Keeps :
      (doc : B.Value) (p : Plugin) → Keeps (is_readable B doc) p.topiclist (read_fields B doc p)
  unfolding read_fields
  read_fields-Keeps doc p =
      also-Keeps _ _ old _ _
        (also-Keeps _ _ old _ _
          (also-Keeps _ _ old _ _
            (also-Keeps _ _ old _ _
              (put_text-Keeps (utf8_at B doc (codes "service_adapter")) _ old _ (λ t. (refl, refl))
                refl refl)
              (λ q. put_text-Keeps (utf8_at B doc (codes "app_id")) _ old q (λ t. (refl, refl))))
            (λ q.
              put_number-Keeps (optional_at B doc (codes "face_rect_from")) _ old q
                (λ n. (refl, refl))))
          (λ q.
            put_number-Keeps (optional_at B doc (codes "face_attr_from")) _ old q
              (λ n. (refl, refl))))
        (λ q.
          put_number-Keeps (optional_at B doc (codes "replay_push_flag")) _ old q
            (λ n. (refl, refl)))
    where
      old : List Text
      old = p.topiclist

abbrev IsPushed : Option (List Text) → List Text → Bool × Plugin → Type 0
IsPushed none old (ok, p) = ok ≡ false
IsPushed (some ts) old (ok, p) = (ok ≡ true) × (p.enable ≡ true) × (p.topiclist ≡ old ++ ts)

module _ (B : Bson) where
  with_first-IsPushed :
      (r : Option (List Text)) (t : Text) (old : List Text) (d : Bool × Plugin)
      → IsPushed r (old ++ t ∷ []) d
      → IsPushed (elim r [ none ↦ none | some ts ↦ some (t ∷ ts) ]) old d
  with_first-IsPushed none t old (ok, p) h = h
  with_first-IsPushed (some ts) t old (ok, p) (h, on, e) = (h, on, e ∙ append_assoc old (t ∷ []) ts)

  push_topics-IsPushed :
      (vs : List (B.Value)) (p : Plugin)
      → p.enable ≡ true
      → IsPushed (texts B vs) p.topiclist (push_topics B vs p)
  unfolding texts push_topics
  push_topics-IsPushed [] p on = (refl, on, sym (append-nil p.topiclist))
  push_topics-IsPushed (v ∷ vs) p on = elim (Option-cases (B.utf8 v)) [
    | inl thrown ↦ rw (push_topics, texts, thrown) refl
    | inr (t, is) ↦
        rw (push_topics, texts, is)
          (with_first-IsPushed (texts B vs) t p.topiclist _
            (push_topics-IsPushed vs (record p { topiclist = p.topiclist ++ t ∷ [] }) on))
  ]

  after_topics-IsChoice :
      (r : Option (List Text)) (old : List Text) (d : Bool × Plugin) (s : Session)
      → IsPushed r old d
      → IsChoice (elim r [ none ↦ none | some ts ↦ some (some ts) ]) old s (after_topics B d s)
  unfolding IsChoice repair
  after_topics-IsChoice none old (true, p) s h = absurd cc
  after_topics-IsChoice none old (false, p) s h = (refl, refl)
  after_topics-IsChoice (some ts) old (true, p) s (h, on, e) = (refl, e, rw on refl)
  after_topics-IsChoice (some ts) old (false, p) s (h, on, e) = absurd cc

  read_topics-IsChoice :
      (o : Option (List (B.Value))) (p : Plugin) (s : Session)
      → p.enable ≡ true
      → IsChoice (texts_in B o) p.topiclist s (read_topics B o p s)
  unfolding IsChoice
  read_topics-IsChoice none p s on = (refl, refl)
  read_topics-IsChoice (some vs) p s on =
      after_topics-IsChoice (texts B vs) p.topiclist (push_topics B vs p) s
        (push_topics-IsPushed vs p on)

  read_channels-IsChoice :
      (vs : List (B.Value)) (p : Plugin) (s : Session)
      → p.enable ≡ true
      → IsChoice (first_channel B vs s.datatype) p.topiclist s (read_channels B vs p s)
  unfolding IsChoice first_channel read_channels
  read_channels-IsChoice [] p s on = (refl, refl, refl)
  read_channels-IsChoice (v ∷ vs) p s on =
      elim (Option-cases (int32_at B v (codes "event_type_id"))) [
        | inl thrown ↦ rw (read_channels, first_channel, thrown) (refl, refl)
        | inr (n, is) ↦ elim (Bool-cases (eq_ℤ n s.datatype)) [
          | inl same ↦
              rw (read_channels, first_channel, is, same)
                (read_topics-IsChoice (array_at B v (codes "topic_channel")) p s on)
          | inr other ↦
              rw (read_channels, first_channel, is, other) (read_channels-IsChoice vs p s on)
        ]
      ]

  read_array-IsChoice :
      (o : Option (List (B.Value))) (p : Plugin) (s : Session)
      → p.enable ≡ true
      → IsChoice (channels_in B o s.datatype) p.topiclist s (read_array B o p s)
  unfolding IsChoice
  read_array-IsChoice none p s on = (refl, refl)
  read_array-IsChoice (some vs) p s on = read_channels-IsChoice vs p s on

  read_data_channel-IsChoice :
      (o : Option (B.Value)) (p : Plugin) (s : Session)
      → p.enable ≡ true
      → IsChoice (channels_of B o s.datatype) p.topiclist s (read_data_channel B o p s)
  unfolding IsChoice
  read_data_channel-IsChoice none p s on = (refl, refl, refl)
  read_data_channel-IsChoice (some w) p s on = read_array-IsChoice (B.array w) p s on

  after_fields-IsChoice :
      (b : Bool) (doc : B.Value) (old : List Text) (d : Bool × Plugin) (s : Session)
      → Keeps b old d
      → IsChoice
          (if b then channels_of B (B.at doc (codes "data_channel")) s.datatype else none)
          old
          s
          (after_fields B doc d s)
  unfolding IsChoice
  after_fields-IsChoice true doc old (false, p) s (h, on, e) = absurd cc
  after_fields-IsChoice false doc old (true, p) s (h, on, e) = absurd cc
  after_fields-IsChoice false doc old (false, p) s (h, on, e) = (refl, refl)
  after_fields-IsChoice true doc old (true, p) s (h, on, e) =
      subst
        (λ topics.
          IsChoice (channels_of B (B.at doc (codes "data_channel")) s.datatype) topics s
            (read_data_channel B (B.at doc (codes "data_channel")) p s))
        e (read_data_channel-IsChoice (B.at doc (codes "data_channel")) p s on)

-- Whatever Mongo holds, `getInfoByAppId` does what a reader without state says. It returns false exactly
-- if the lookup or a read up to the end of the chosen channel fails, and then the session is as it was.
-- Otherwise the topics of the first channel of the session's data type are appended to those of the
-- plugin, all of them in their order, and the chain is repaired; without a document or such a channel
-- the topics and the session are as they were.
pub get_info_by_app_id-IsChoice :
    (B : Bson) (found : Lookup B) (p : Plugin) (s : Session)
    → IsChoice (chosen B found s.datatype) p.topiclist s (get_info_by_app_id B found p s)
unfolding IsChoice chosen get_info_by_app_id
get_info_by_app_id-IsChoice B no_connection p s = (refl, refl)
get_info_by_app_id-IsChoice B mongo_error p s = (refl, refl)
get_info_by_app_id-IsChoice B (result none) p s = (refl, refl, refl)
get_info_by_app_id-IsChoice B (result (some doc)) p s =
    after_fields-IsChoice B (is_readable B doc) doc p.topiclist (read_fields B doc p) s
      (read_fields-Keeps B doc p)

abbrev pub answer_of : Answer → Option (Option (List Text)) → Answer
answer_of a choice = record a {
  plugin = elim choice [ none ↦ none | some topics ↦ some (is_some topics) ];
}

module _ (B : Bson) where
  after_info-answer :
      (a : Answer) (choice : Option (Option (List Text))) (old : List Text) (s : Session)
      → (r : Bool × Plugin × Session) → IsChoice choice old s r
      → ((after_info B r).1, (after_info B r).2) ≡ plugin_process (answer_of a choice) s
  unfolding IsChoice plugin_process
  after_info-answer a none old s (ok, p, t) (failed, same) = rw (failed, same) refl
  after_info-answer a (some none) old s (ok, p, t) (went, e, same) = rw (went, same) refl
  after_info-answer a (some (some ts)) old s (ok, p, t) (went, e, same) = rw (went, same) refl

-- `GetPluginModule::Process`, read by read, does to a session what the module of Workflow/Modules does for
-- the answer that the document means: failure, no channel for the data type, or a channel. So what is
-- shown of all runs there holds with every content of Mongo.
pub get_plugin_process-answer :
    (B : Bson) (a : Answer) (found : Lookup B) (p : Plugin) (s : Session)
    → ((get_plugin_process B found p s).1, (get_plugin_process B found p s).2)
      ≡ plugin_process (answer_of a (chosen B found s.datatype)) s
unfolding get_plugin_process
get_plugin_process-answer B a found p s =
    after_info-answer B a (chosen B found s.datatype) p.topiclist s (get_info_by_app_id B found p s)
      (get_info_by_app_id-IsChoice B found p s)
