-- ===== src/Consumer/Partition.antt =====
-- src/package/consumer/PartitionManager.cpp with the structs of
-- include/package/consumer/DataDefine.h: the cache of one Kafka partition.
-- `do_something` runs in two parts: the scan under `m_mutex`, and, after the mutex is released, the
-- commit and `remove_from_head`. A worker thread may end the session of a cached message at any
-- time; `Meddling` says where it does so while the scan runs.
pub mod Prefix
pub mod Counts
pub mod System
pub mod Policy
mod Tests
use business.Base.{
  ℕ, suc, ◌+◌, ◌-◌, ◌%◌, ◌^◌, Bool, true, false, not, ◌&&◌, ◌||◌, List, [], ◌∷◌, ◌++◌, Option, none,
  some, length, map, leb, ◌==◌, if◌then◌else◌,
}
use business.Base.Int.{ℤ, pos, negsuc}
use business.Base.Text.{Text}

-- What the program reads of an `RdKafka::Message`.
pub record Message : Type 0 where
  pub partition : ℤ
  pub offset : ℕ
  pub payload : Text

pub data NodeState : Type 0 where
  todo doing done : NodeState

-- `PM_DATA`
pub record Node : Type 0 where
  pub state : NodeState
  pub stime : ℕ
  pub msg_id : Text
  pub msg : Message

-- `PM_STATUS`; `worker_usage` is never written.
pub record Status : Type 0 where
  pub cache_size : ℕ
  pub process_num : ℕ
  pub commit_num : ℕ
  pub todo_num : ℕ
  pub doing_num : ℕ
  pub done_num : ℕ

abbrev pub new_status : Status
new_status = record {
  cache_size = 0;
  process_num = 0;
  commit_num = 0;
  todo_num = 0;
  doing_num = 0;
  done_num = 0;
}

-- `uint32_t`
abbrev pub u32 : ℕ → ℕ
u32 n = n % 2 ^ 32

abbrev pub is_done : NodeState → Bool
is_done done = true
is_done _ = false

abbrev pub is_doing : NodeState → Bool
is_doing doing = true
is_doing _ = false

-- `CPartitionManager`; the consumer that it commits through is a result of `settle`.
pub record PartitionManager : Type 0 where
  pub m_commit_num : ℕ
  pub m_list_data : List Node

-- The constructor: a commit number that is not positive becomes 1.
unfoldable pub make : ℤ → PartitionManager
make (pos ℕ.zero) = record { m_commit_num = 1; m_list_data = [] }
make (pos (suc n)) = record { m_commit_num = suc n; m_list_data = [] }
make (negsuc n) = record { m_commit_num = 1; m_list_data = [] }

-- `Session::Final` on a worker thread, for the message of this node.
unfoldable pub complete : Bool → Node → Node
complete b n = if b && is_doing n.state then record n { state = done } else n

-- At a position of the list: whether a session ends before the node's state is read, and whether one
-- ends between `process_todo` and the statistics.
pub record Meddling : Type 0 where
  pub early : Bool
  pub late : Bool

-- The loop variables of the scan.
pub record Scan : Type 0 where
  pub is_first : Bool
  pub pos : ℕ
  pub first_not_done_pos : ℕ
  pub kmsg : Option Message
  pub force_commit : Bool
  pub process_num : ℕ
  pub status : Status

-- The search for the first node that is not done. `prev` is the message one position before.
unfoldable pub note_first : ℕ → Option Message → Node → Scan → Scan
note_first size prev n s =
    if s.is_first
    then if not (is_done n.state)
      then record s {
        is_first = false;
        first_not_done_pos = if s.pos == 0 then s.first_not_done_pos else s.pos;
        kmsg = if s.pos == 0 then s.kmsg else prev;
      }
      else if s.pos == size - 1
      then record s {
        is_first = false;
        first_not_done_pos = s.pos + 1;
        kmsg = some n.msg;
        force_commit = true;
      }
      else s
    else s

unfoldable pub count_state : NodeState → Status → Status
count_state todo t = record t { todo_num = u32 (t.todo_num + 1) }
count_state doing t = record t { doing_num = u32 (t.doing_num + 1) }
count_state done t = record t { done_num = u32 (t.done_num + 1) }

abbrev pub new_scan : ℕ → Scan
new_scan size = record {
  is_first = true;
  pos = 0;
  first_not_done_pos = 0;
  kmsg = none;
  force_commit = false;
  process_num = 0;
  status = record new_status { cache_size = u32 size };
}

-- `accepts` is the part of `CXBusinessHandler::handle` that decides: whether the payload is of a known
-- type and parses. A refused message is done at once.
module _ (accepts : Text → Bool) where
  unfoldable pub handle : Node → Node × Bool
  handle n = if accepts n.msg.payload then (n, true) else (record n { state = done }, false)

  unfoldable pub process_todo : ℕ → Node → Node × Bool
  unfolding handle
  process_todo now n = elim n.state [
    | todo ↦ handle (record n { state = doing; stime = now })
    | doing ↦ (n, false)
    | done ↦ (n, false)
  ]

  unfoldable pub emplace_back : ℕ → Node → PartitionManager → PartitionManager
  unfolding process_todo
  emplace_back now n m = record m { m_list_data = m.m_list_data ++ (process_todo now n).0 ∷ [] }

  -- One round of the loop.
  unfoldable pub visit : ℕ → ℕ → Meddling → Option Message → Node → Scan → Node × Scan
  unfolding complete process_todo note_first count_state
  visit size now w prev n s =
      let read = complete w.early n in
      let noted = note_first size prev read s in
      let (handled, fresh) = process_todo now read in
      let last = complete w.late handled in
      (
        last,
        record noted {
          pos = s.pos + 1;
          process_num = if fresh then u32 (s.process_num + 1) else s.process_num;
          status = count_state last.state s.status;
        },
      )

  unfoldable pub scan_from :
      ℕ → ℕ → (ℕ → Meddling) → Option Message → List Node → Scan → List Node × Scan
  scan_from size now meddling prev [] s = ([], s)
  scan_from size now meddling prev (n ∷ ns) s =
      let (n', s') = visit size now (meddling s.pos) prev n s in
      let (ns', t) = scan_from size now meddling (some n.msg) ns s' in (n' ∷ ns', t)

  -- `do_something` up to the release of the mutex
  unfoldable pub scan : ℕ → (ℕ → Meddling) → PartitionManager → PartitionManager × Scan
  scan now meddling m =
      let size = length m.m_list_data in
      let (ns, s) = scan_from size now meddling none m.m_list_data (new_scan size) in
      (record m { m_list_data = ns }, s)

unfoldable pub remove_from_head : ℕ → List Node → List Node
remove_from_head ℕ.zero ns = ns
remove_from_head (suc num) [] = []
remove_from_head (suc num) (n ∷ ns) = remove_from_head num ns

-- The rest of `do_something`: the new manager, the message handed to `commit` (nothing when the
-- branch is not taken or `kmsg` is null) and the status.
unfoldable pub settle : Scan → PartitionManager → PartitionManager × Option Message × Status
settle s m =
    if s.force_commit || leb m.m_commit_num s.first_not_done_pos
    then (
      record m { m_list_data = remove_from_head s.first_not_done_pos m.m_list_data },
      s.kmsg,
      record s.status { commit_num = u32 s.first_not_done_pos; process_num = s.process_num },
    )
    else (m, none, record s.status { process_num = s.process_num })

-- `do_something` when nothing happens between its two parts.
unfoldable pub do_something :
    (Text → Bool)
    → ℕ
    → (ℕ → Meddling)
    → PartitionManager
    → PartitionManager × Option Message × Status
do_something accepts now meddling m = let (m', s) = scan accepts now meddling m in settle s m'
