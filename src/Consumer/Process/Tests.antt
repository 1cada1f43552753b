-- ===== src/Consumer/Process/Tests.antt =====
-- Two partitions on small inputs.
use business.Base.{
  ℕ, ◌≡◌, refl, Bool, true, List, [], ◌∷◌, Option, none, some, arith, if◌then◌else◌,
}
use business.Base.Int.{ℤ, pos, leb_ℤ}
use business.Base.Text.{Text, codes, text_eq}
use business.Base.Dict.{int_eq, lookup, assign}
use business.Json.{JsonLib}
use business.Json.Small.{Json, text, member, no_members, json_with}
use business.Consumer.Partition.{
  Message, NodeState, doing, done, Node, Meddling, make, scan, scan_from, visit, settle,
  do_something, process_todo, emplace_back,
}
use business.Consumer.Process.{
  consumer_run, consumer_pause, Consumer, process, consume, deliver, read_id, round, do_all,
  total_cache_size, control, pause, resume, of_int32, to_int32,
}
use business.Consumer.Process.Start.{
  Settings, Subscription, subscribed, both_start, OnStart, start_up, start_up-OnStart,
}
use business.Consumer.Process.Fleet.{FleetEvent, receive, finish_in, look_in, act_in, fleet_run}
use business.Consumer.Process.Fleet.Routing.{IsSound, routed, fleet_run-IsSound}
use business.Consumer.Process.Pressure.{in_work, cached, round-pressure}

-- Every text but "no json" parses.
abbrev read_json : Text → Option Json
read_json t =
    if text_eq t (codes "no json") then none else some (member (codes "msg_id") (text t) no_members)

abbrev json : JsonLib
json = json_with read_json

abbrev message : ℕ → Text → Message
message p payload = record { partition = pos p; offset = 0; payload = payload }

abbrev all_ok : Text → Bool
all_ok payload = true

abbrev quiet : ℕ → Meddling
quiet p = record { early = Bool.false; late = Bool.false }

abbrev events : List FleetEvent
events =
    receive 1 (message 4 (codes "a"))
    ∷ receive 1 (message 4 (codes "no json"))
    ∷ receive 2 (message 5 (codes "b"))
    ∷ finish_in (pos 4) 0
    ∷ look_in (pos 4) 3 quiet
    ∷ receive 4 (message 4 (codes "c"))
    ∷ act_in (pos 4)
    ∷ []

routed_to_four :
    routed json read_json (pos 4) events ≡ message 4 (codes "a") ∷ message 4 (codes "c") ∷ []
unfolding routed read_id codes text_eq
routed_to_four = refl

fleet_run-IsSound_example :
    IsSound
      (lookup (pos 4) (fleet_run json read_json all_ok (pos 2) [] events))
      (routed json read_json (pos 4) events)
fleet_run-IsSound_example = fleet_run-IsSound json read_json all_ok (pos 2) (pos 4) events

abbrev node : ℕ → NodeState → Node
node k s = record { state = s; stime = 7; msg_id = []; msg = message k [] }

abbrev consumer : Consumer
consumer = record {
  m_partition_managers =
      (pos 4, record { m_commit_num = 1; m_list_data = node 4 done ∷ node 4 doing ∷ [] })
      ∷ (pos 5, record { m_commit_num = 1; m_list_data = node 5 doing ∷ [] })
      ∷ [];
  m_commit_num = pos 1;
  m_max_cache_size = pos 2;
  m_cur_state = consumer_run;
}

abbrev quiet_all : ℤ → ℕ → Meddling
quiet_all p = quiet

round-pressure_example :
    let c = (round all_ok 9 quiet_all consumer).0 in
    c.m_cur_state ≡ (
      if leb_ℤ (pos 2) (pos (in_work c.m_partition_managers)) then consumer_pause else consumer_run)
round-pressure_example = round-pressure all_ok 9 quiet_all consumer (unfold cached in omega arith)

-- Two messages are in work, as many as the limit.
pauses : (round all_ok 9 quiet_all consumer).0.m_cur_state ≡ consumer_pause
unfolding round do_all total_cache_size control pause resume of_int32 to_int32 do_something scan
    scan_from visit settle
pauses = refl

-- A message of a new partition is kept, one that stands for an error is dropped.
keeps_new :
    lookup
      (pos 6)
      (consume json read_json all_ok 3
        (some (record { err = Bool.false; len = 1; message = message 6 (codes "x") }))
        consumer).m_partition_managers
    ≡ some (record {
      m_commit_num = 1;
      m_list_data =
          record { state = doing; stime = 3; msg_id = codes "x"; msg = message 6 (codes "x") } ∷ [];
    })
unfolding consume process deliver read_id lookup assign emplace_back process_todo make codes text_eq
keeps_new = refl

drops_errors :
    consume json read_json all_ok 3
      (some (record { err = true; len = 1; message = message 6 (codes "x") }))
      consumer
    ≡ consumer
unfolding consume
drops_errors = refl

abbrev settings : Settings
settings = record {
  rcv_brokers = some (codes "kafka:9092");
  commit_num = none;
  max_cache_size = some (pos 1000);
  group = some (codes "business");
  topics = some (codes "capture");
}

abbrev one_topic : Text → List Text
one_topic t = t ∷ []

abbrev accepted : Text → List Text → Subscription
accepted group topics = subscribed

start_up-OnStart_example :
    OnStart one_topic accepted both_start settings (start_up one_topic accepted both_start settings)
start_up-OnStart_example = start_up-OnStart one_topic accepted both_start settings
