-- ===== src/Consumer/Partition/System.antt =====
-- One partition with its environment: messages arrive, worker threads end sessions, and the thread of
-- `CConsumeProcess::Run` calls `do_something`, whose two parts are two steps, since between them the
-- mutex is free.
pub mod Done
pub mod Safety
use business.Base.{
  ℕ, suc, ◌+◌, ◌≡◌, Bool, true, false, List, [], ◌∷◌, ◌++◌, Option, none, some, take, length, ◌-◌,
}
use business.Base.Text.{Text}
use business.Consumer.Partition.{
  Message, NodeState, todo, Node, PartitionManager, Meddling, Scan, complete, emplace_back, scan,
  settle,
}

-- `committed` is the argument of the last `commitSync`. `arrived` and `removed` record what the
-- program forgets: all messages in the order of arrival, and the nodes that left the cache.
pub record System : Type 0 where
  pub manager : PartitionManager
  pub scanned : Option Scan
  pub committed : Option Message
  pub arrived : List Message
  pub removed : List Node

pub data Event : Type 0 where
  -- `CConsumeProcess::process`, with the time and the message's id
  arrive : ℕ → Text → Message → Event
  -- a session ends: the place of its message in the cache
  finish : ℕ → Event
  -- `do_something` up to the release of the mutex, with the time
  look : ℕ → (ℕ → Meddling) → Event
  -- the rest of `do_something`
  act : Event

unfoldable pub start : PartitionManager → System
start m = record { manager = m; scanned = none; committed = none; arrived = []; removed = [] }

unfoldable pub finish_at : ℕ → List Node → List Node
finish_at i [] = []
finish_at ℕ.zero (n ∷ ns) = complete true n ∷ ns
finish_at (suc i) (n ∷ ns) = n ∷ finish_at i ns

abbrev pub or_else {ℓ} : {A : Type ℓ} → Option A → Option A → Option A
or_else none b = b
or_else (some a) b = some a

unfoldable pub act_on : Option Scan → System → System
act_on none y = y
act_on (some s) y =
    let (m, msg, status) = settle s y.manager in
    let old = y.manager.m_list_data in
    record y {
      manager = m;
      scanned = none;
      committed = or_else msg y.committed;
      removed = y.removed ++ take (length old - length m.m_list_data) old;
    }

module _ (accepts : Text → Bool) where
  unfoldable pub look_at : Option Scan → ℕ → (ℕ → Meddling) → System → System
  look_at (some s) now meddling y = y
  look_at none now meddling y =
      let (m, s) = scan accepts now meddling y.manager in record y { manager = m; scanned = some s }

  unfoldable pub step : System → Event → System
  step y (arrive now id msg) =
      let node : Node = record { state = todo; stime = 0; msg_id = id; msg = msg } in
      record y {
        manager = emplace_back accepts now node y.manager;
        arrived = y.arrived ++ msg ∷ [];
      }
  step y (finish i) = record y {
    manager = record y.manager { m_list_data = finish_at i y.manager.m_list_data };
  }
  step y (look now meddling) = look_at y.scanned now meddling y
  step y act = act_on y.scanned y

  unfoldable pub run : System → List Event → System
  run y [] = y
  run y (e ∷ es) = run (step y e) es
