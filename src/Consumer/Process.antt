-- ===== src/Consumer/Process.antt =====
-- src/package/consumer/ConsumeProcess.cpp and src/common/kafka_consumer_imp.cpp: the messages are
-- handed to the manager of their partition, which the first message of the partition makes, and
-- consumption pauses while too many messages are in work.
-- `process` runs on the one thread of `KafkaConsumerImp::threadFun`, so nobody else adds a partition
-- between its two locks. The map of the managers is read by `Run`, in no order that matters: each
-- manager has its task.
pub mod Fleet
pub mod Pressure
pub mod Start
mod Tests
use business.Base.{
  ℕ, ◌+◌, ◌-◌, ◌%◌, ◌^◌, Bool, true, false, not, ◌&&◌, List, [], ◌∷◌, Option, none, some, ltb,
  if◌then◌else◌,
}
use business.Base.Int.{ℤ, pos, negsuc, leb_ℤ}
use business.Base.Text.{Text, codes}
use business.Base.Dict.{Dict, int_eq, lookup, assign}
use business.Consumer.Partition.{
  Message, todo, Node, Status, PartitionManager, Meddling, make, emplace_back, do_something, u32,
}
use business.Json.{JsonLib}

-- What `consume` returns, when it returns a message: whether it stands for an error, its length, and
-- what else the program reads of it.
pub record Polled : Type 0 where
  pub err : Bool
  pub len : ℕ
  pub message : Message

pub data RunState : Type 0 where
  consumer_run consumer_pause : RunState

-- `CConsumeProcess`, with `m_cur_state` of its `KafkaConsumerImp`.
pub record Consumer : Type 0 where
  pub m_partition_managers : Dict ℤ PartitionManager
  pub m_commit_num : ℤ
  pub m_max_cache_size : ℤ
  pub m_cur_state : RunState

-- The message's node, as `process` makes it.
abbrev pub new_node : Text → Message → Node
new_node id msg = record { state = todo; stime = 0; msg_id = id; msg = msg }

-- `find`, then `emplace_back` on the manager that is there, or on a fresh one that is then added.
unfoldable pub deliver {ℓ} : {A : Type ℓ} → (A → A) → A → ℤ → Dict ℤ A → Dict ℤ A
deliver put fresh n_partition managers = elim (lookup n_partition managers) [
  | some manager ↦ assign n_partition (put manager) managers
  | none ↦ assign n_partition (put fresh) managers
]

-- `pause` and `resume`, with their results.
unfoldable pub pause : Consumer → Consumer × Bool
pause c = elim c.m_cur_state [
  | consumer_pause ↦ (c, false)
  | consumer_run ↦ (record c { m_cur_state = consumer_pause }, true)
]

unfoldable pub resume : Consumer → Consumer × Bool
resume c = elim c.m_cur_state [
  | consumer_run ↦ (c, false)
  | consumer_pause ↦ (record c { m_cur_state = consumer_run }, true)
]

-- An `int` as the `uint32_t` of the same bits, and back.
unfoldable pub of_int32 : ℤ → ℕ
of_int32 (pos n) = u32 n
of_int32 (negsuc n) = 2 ^ 32 - 1 - n % 2 ^ 32

unfoldable pub to_int32 : ℕ → ℤ
to_int32 n = if ltb n (2 ^ 31) then pos n else negsuc (2 ^ 32 - 1 - n)

-- The sum over `all_status`: an `int`, to which unsigned differences are added.
unfoldable pub total_cache_size : ℤ → List Status → ℤ
unfolding of_int32 to_int32
total_cache_size total [] = total
total_cache_size total (s ∷ all_status) =
    total_cache_size (to_int32 (u32 (of_int32 total + u32 (s.cache_size + 2 ^ 32 - s.done_num))))
      all_status

-- The end of a round of `Run`.
unfoldable pub control : ℤ → Consumer → Consumer
unfolding pause resume
control total c = if leb_ℤ c.m_max_cache_size total then (pause c).0 else (resume c).0

-- `reader_parse` is `Json::Reader::parse`, false or with an exception as `none`.
module _ (J : JsonLib) (reader_parse : Text → Option (J.Value)) where
  -- `root["msg_id"].asString()`; nothing where `process` returns early
  unfoldable pub read_id : Text → Option Text
  read_id payload = elim (reader_parse payload) [
    | none ↦ none
    | some root ↦ elim (J.at root (codes "msg_id")) [ none ↦ none | some value ↦ J.as_string value ]
  ]

  module _ (accepts : Text → Bool) where
    -- `CConsumeProcess::process`
    unfoldable pub process : ℕ → Message → Consumer → Consumer
    unfolding read_id deliver
    process now msg c = elim (read_id msg.payload) [
      | none ↦ c
      | some id ↦ record c {
        m_partition_managers =
            deliver (emplace_back accepts now (new_node id msg)) (make c.m_commit_num) msg.partition
              c.m_partition_managers;
      }
    ]

    -- A round of `KafkaConsumerImp::threadFun`
    unfoldable pub consume : ℕ → Option Polled → Consumer → Consumer
    unfolding process
    consume now none c = c
    consume now (some p) c = if not p.err && ltb 0 p.len then process now p.message c else c

module _ (accepts : Text → Bool) (now : ℕ) (meddling : ℤ → ℕ → Meddling) where
  -- The tasks of a round: the managers after it, what they commit, and `all_status`.
  unfoldable pub do_all :
      Dict ℤ PartitionManager → Dict ℤ PartitionManager × List (Option Message) × List Status
  do_all [] = ([], [], [])
  do_all ((partition, m) ∷ managers) =
      let (m', committed, status) = do_something accepts now (meddling partition) m in
      let (rest, commits, all_status) = do_all managers in
      ((partition, m') ∷ rest, committed ∷ commits, status ∷ all_status)

  -- A round of `CConsumeProcess::Run`
  unfoldable pub round : Consumer → Consumer × List (Option Message)
  unfolding do_all total_cache_size control
  round c =
      let (managers, commits, all_status) = do_all c.m_partition_managers in
      (
        control (total_cache_size (pos 0) all_status)
            (record c { m_partition_managers = managers }),
        commits,
      )
