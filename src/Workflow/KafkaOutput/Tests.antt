-- ===== src/Workflow/KafkaOutput/Tests.antt =====
-- A producer whose queue is full for the first few messages.
use business.Base.{ℕ, zero, suc, ◌≡◌, refl, Bool, true, false, List, [], ◌∷◌, ◌++◌, some}
use business.Base.Text.{Text, codes, text_eq}
use business.Base.Dict.{Dict, text_eq_laws, lookup, assign}
use business.Workflow.KafkaOutput.{
  Producer, KafkaOutputInfo, push_all, push_data_to_kafka, find_topic, add_topic, try_produce,
  send_to,
}
use business.Workflow.KafkaOutput.Accepted.{IsProducer, IsNamed, Pushed, push_all-Pushed}

-- How often it is still full, and what it has accepted.
record Queue : Type 0 where
  full : ℕ
  log : List KafkaOutputInfo

abbrev accept : Text → Text → ℕ → List KafkaOutputInfo → Bool × Queue
accept t d zero log =
    (true, record { full = 0; log = log ++ record { topic = t; content = d } ∷ [] })
accept t d (suc n) log = (false, record { full = n; log = log })

abbrev busy : Producer
busy = record {
  State = Queue;
  Topic = Text;
  topic_new = λ t st. (some t, st);
  produce = λ t d st. accept t d st.full st.log;
  queue_is_full = λ st. true;
  poll = λ ms st. st;
}

accept-sent :
    (t d : Text) (n : ℕ) (log : List KafkaOutputInfo)
    → (accept t d n log).0 ≡ true
    → (accept t d n log).1.log ≡ log ++ record { topic = t; content = d } ∷ []
accept-sent t d zero log sent = refl
accept-sent t d (suc n) log sent = absurd cc

accept-failed :
    (t d : Text) (n : ℕ) (log : List KafkaOutputInfo)
    → (accept t d n log).0 ≡ false
    → (accept t d n log).1.log ≡ log
accept-failed t d zero log failed = absurd cc
accept-failed t d (suc n) log failed = refl

busy-IsProducer : IsProducer busy
busy-IsProducer = record {
  name = λ t. t;
  accepted = λ st. st.log;
  new_name = λ t st rkt e. cc;
  new_keeps = λ t st. refl;
  sent_adds = λ t d st. accept-sent t d st.full st.log;
  failed_keeps = λ t d st. accept-failed t d st.full st.log;
  poll_keeps = λ ms st. refl;
}

abbrev outputs : List KafkaOutputInfo
outputs =
    record { topic = codes "plugin"; content = codes "x" }
    ∷ record { topic = codes "default"; content = codes "x" }
    ∷ []

abbrev no_topics : Dict Text Text
no_topics = []

abbrev start : ℕ → Queue
start n = record { full = n; log = [] }

no_topics-IsNamed : IsNamed busy busy-IsProducer no_topics
unfolding lookup
no_topics-IsNamed t rkt e = absurd cc

push_all-Pushed_example :
    Pushed busy busy-IsProducer outputs (start 2) (push_all busy outputs no_topics (start 2))
push_all-Pushed_example =
    push_all-Pushed busy busy-IsProducer outputs no_topics (start 2) no_topics-IsNamed

-- A full queue is tried three times.
third_try : (push_all busy outputs no_topics (start 2)).2.log ≡ outputs
unfolding push_all push_data_to_kafka find_topic add_topic try_produce send_to lookup assign codes
    text_eq
third_try = refl

no_fourth_try : (push_all busy outputs no_topics (start 3)).0 ≡ false
unfolding push_all push_data_to_kafka find_topic add_topic try_produce send_to lookup assign codes
    text_eq
no_fourth_try = refl
