-- ===== src/Consumer/Process/Fleet.antt =====
-- All partitions with their environment: the reader thread delivers messages while worker threads end
-- sessions and the tasks of `Run` scan and commit, each task in two steps
-- (Consumer/Partition/System.antt).
pub mod Views
pub mod Routing
use business.Base.{
  ℕ, ◌+◌, ◌≡◌, refl, sym, ap, ◌∙◌, Bool, true, false, List, [], ◌∷◌, ◌++◌, Option, none, some,
  arith, subst, if◌then◌else◌, Bool-cases, Option-cases, inl, inr, append_assoc,
}
use business.Base.Int.{ℤ, eq_ℤ}
use business.Base.Text.{Text}
use business.Base.Dict.{Dict, int_eq, int_sound, lookup, assign, lookup-assign, lookup-assign_ne}
use business.Consumer.Partition.{Message, Meddling, make}
use business.Consumer.Partition.System
use business.Consumer.Partition.System.{System, start, step}
use business.Consumer.Process.{read_id, deliver}
use business.Json.{JsonLib, get_or_else}

pub data FleetEvent : Type 0 where
  -- `CConsumeProcess::process`, with the time
  receive : ℕ → Message → FleetEvent
  -- in a partition: a session ends, and the two parts of `do_something`
  finish_in : ℤ → ℕ → FleetEvent
  look_in : ℤ → ℕ → (ℕ → Meddling) → FleetEvent
  act_in : ℤ → FleetEvent

-- `m_partition_managers`, each manager with its environment
abbrev pub Fleet : Type 0
Fleet = Dict ℤ System

-- `it->second`, on which the step works, where `it` is an entry of the map
unfoldable pub step_in : (System → System) → ℤ → Fleet → Fleet
step_in move p f = elim (lookup p f) [ none ↦ f | some y ↦ assign p (move y) f ]

abbrev pub moved : (System → System) → Option System → Option System
moved move none = none
moved move (some y) = some (move y)

module _ (J : JsonLib) (reader_parse : Text → Option (J.Value)) (accepts : Text → Bool)
    (commit_num : ℤ) where
  abbrev pub fresh : System
  fresh = start (make commit_num)

  unfoldable pub receive_as : Option Text → ℕ → Message → Fleet → Fleet
  receive_as none now msg f = f
  receive_as (some id) now msg f =
      deliver (λ y. step accepts y (System.arrive now id msg)) fresh msg.partition f

  unfoldable pub fleet_step : Fleet → FleetEvent → Fleet
  unfolding receive_as
  fleet_step f (receive now msg) = receive_as (read_id J reader_parse msg.payload) now msg f
  fleet_step f (finish_in p i) = step_in (λ y. step accepts y (System.finish i)) p f
  fleet_step f (look_in p now meddling) =
      step_in (λ y. step accepts y (System.look now meddling)) p f
  fleet_step f (act_in p) = step_in (λ y. step accepts y System.act) p f

  unfoldable pub fleet_run : Fleet → List FleetEvent → Fleet
  fleet_run f [] = f
  fleet_run f (e ∷ es) = fleet_run (fleet_step f e) es

  -- One partition on its own: nothing until its first message.
  unfoldable pub view_received : ℤ → Option System → Option Text → ℕ → Message → Option System
  view_received p o none now msg = o
  view_received p o (some id) now msg =
      if eq_ℤ msg.partition p
      then some (step accepts (get_or_else o fresh) (System.arrive now id msg))
      else o

  unfoldable pub view : ℤ → Option System → FleetEvent → Option System
  unfolding view_received
  view p o (receive now msg) = view_received p o (read_id J reader_parse msg.payload) now msg
  view p o (finish_in q i) = if eq_ℤ q p then moved (λ y. step accepts y (System.finish i)) o else o
  view p o (look_in q now meddling) =
      if eq_ℤ q p then moved (λ y. step accepts y (System.look now meddling)) o else o
  view p o (act_in q) = if eq_ℤ q p then moved (λ y. step accepts y System.act) o else o

  unfoldable pub view_all : ℤ → Option System → List FleetEvent → Option System
  view_all p o [] = o
  view_all p o (e ∷ es) = view_all p (view p o e) es
