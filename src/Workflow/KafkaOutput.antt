-- ===== src/Workflow/KafkaOutput.antt =====
-- src/package/workflow/module/module_kafka_output.cpp: how the outputs of a session are handed to
-- librdkafka, whose producer is a parameter.
pub mod Accepted
mod Tests
use business.Base.{
  ℕ, zero, suc, Bool, true, false, List, [], ◌∷◌, Option, none, some, if◌then◌else◌,
}
use business.Base.Text.{Text}
use business.Base.Dict.{Dict, text_eq_laws, lookup, assign}

-- The calls of librdkafka: a new topic, null as `none`; whether a message is enqueued; whether the last
-- error is a full queue; and waiting for delivery reports, for a time in ms.
pub record Producer : Type 1 where
  pub State : Type 0
  pub Topic : Type 0
  pub topic_new : Text → State → Option Topic × State
  pub produce : Topic → Text → State → Bool × State
  pub queue_is_full : State → Bool
  pub poll : ℕ → State → State

-- `KafkaOutputInfo`
pub record KafkaOutputInfo : Type 0 where
  pub topic : Text
  pub content : Text

module _ (P : Producer) where
  -- The topic's handle, from `rkt_dict_` or new.
  unfoldable pub add_topic :
      Text
      → Dict Text (P.Topic)
      → Option (P.Topic) × P.State
      → Option (P.Topic) × Dict Text (P.Topic) × P.State
  add_topic topic rkt_dict (none, st) = (none, rkt_dict, st)
  add_topic topic rkt_dict (some rkt, st) = (some rkt, assign topic rkt rkt_dict, st)

  unfoldable pub find_topic :
      Text → Dict Text (P.Topic) → P.State → Option (P.Topic) × Dict Text (P.Topic) × P.State
  unfolding add_topic
  find_topic topic rkt_dict st = elim (lookup topic rkt_dict) [
    | some rkt ↦ (some rkt, rkt_dict, st)
    | none ↦ add_topic topic rkt_dict (P.topic_new topic st)
  ]

  -- The loop, with the tries that are left.
  unfoldable pub try_produce : ℕ → P.Topic → Text → P.State → Bool × P.State
  try_produce zero rkt content st = (false, st)
  try_produce (suc n) rkt content st =
      let (sent, st') = P.produce rkt content st in
      let again = try_produce n rkt content (P.poll 1000 st') in
      if sent then (true, st') else if P.queue_is_full st' then again else (false, st')

  unfoldable pub send_to : Option (P.Topic) → Text → P.State → Bool × P.State
  unfolding try_produce
  send_to none content st = (false, st)
  send_to (some rkt) content st =
      let (sent, st') = try_produce 3 rkt content st in (sent, P.poll 0 st')

  unfoldable pub push_data_to_kafka :
      KafkaOutputInfo → Dict Text (P.Topic) → P.State → Bool × Dict Text (P.Topic) × P.State
  unfolding find_topic send_to
  push_data_to_kafka o rkt_dict st =
      let (rkt, dict', st') = find_topic o.topic rkt_dict st in
      let (sent, st'') = send_to rkt o.content st' in (sent, dict', st'')

  -- The loop of `Process` over `send_datas`, which ends at the first failure.
  unfoldable pub push_all :
      List KafkaOutputInfo → Dict Text (P.Topic) → P.State → Bool × Dict Text (P.Topic) × P.State
  unfolding push_data_to_kafka
  push_all [] rkt_dict st = (true, rkt_dict, st)
  push_all (o ∷ send_datas) rkt_dict st =
      let (sent, dict', st') = push_data_to_kafka o rkt_dict st in
      let rest = push_all send_datas dict' st' in if sent then rest else (false, dict', st')
