-- ===== src/Workflow/Flow/Tests.antt =====
-- A complete configuration, with and without a redis that can be reached.
use business.Base.{◌≡◌, refl, Bool, true, false, [], ◌∷◌, Option, none, some}
use business.Base.Int.{pos}
use business.Base.Text.{Text}
use business.Consumer.Partition.{doing}
use business.Redis.Connect.{RedisParam, RedisNetwork, create_redis_client}
use business.Workflow.{Session, ProcType, pic_wait, capture_data, init}
use business.Workflow.Modules.{Answer, process, crash}
use business.Workflow.Flow.{Setting, Module, redis_param, flow_init, session_process}
use business.Workflow.Flow.Start.{all_modules}
use business.Workflow.Flow.Steps.{session_process-process}

abbrev address : Text
address = 1 ∷ []

abbrev network : Bool → RedisNetwork
network reached = record {
  split = λ c t. address ∷ address ∷ [];
  atoi = λ t. pos 1;
  set_workers = λ n. true;
  add_sentinel = λ host port. true;
  connect = λ name. some reached;
  auth = λ passwd. some true;
  select = λ index. some true;
}

abbrev setting : Bool → Setting
setting reached = record {
  get_value = λ part key. some address;
  get_int_value = λ part key. some (pos 1);
  set_brokers = λ brokers. true;
  new_producer = true;
  redis = network reached;
  new_pool = λ url. true;
}

abbrev param : RedisParam
param = record {
  sentinel_name = address;
  redis_addrs = address;
  io_num = pos 1;
  db_index = pos 1;
  passwd = address;
}

abbrev modules : Bool → ProcType → Option Module
modules reached = all_modules (setting reached) param

abbrev flow_of : Option (ProcType → Option Module) → ProcType → Option Module
flow_of none t = none
flow_of (some flow) t = flow t

abbrev flow : Bool → ProcType → Option Module
flow reached t = flow_of (flow_init (setting reached)) t

started : (reached : Bool) → flow_init (setting reached) ≡ some (flow reached)
unfolding flow_init
started reached = refl

configured : (reached : Bool) → redis_param (setting reached) ≡ some param
unfolding redis_param
configured reached = refl

client : (reached : Bool) → (create_redis_client (network reached) (pos 0) param).0 ≡ reached
unfolding create_redis_client business.Redis.Connect.init_client
client true = refl
client false = refl

abbrev answer : Answer
answer = record {
  path = true;
  reply = none;
  outputs = none;
  replayed = false;
  wait = some false;
  saved = true;
  plugin = none;
}

abbrev session : Session
session = record (init none capture_data [] (pos 1) (some doing)) { proc_chain = pic_wait ∷ [] }

session_process-process_example :
    session_process (flow true) true answer session ≡ process answer session
session_process-process_example =
    session_process-process (setting true) (flow true) param true answer session (started true)
      (configured true) (client true)

-- `flow_init` succeeds too where the client of redis could not be made; the first session with a key that
-- comes to the picture wait then ends the process.
crashes : (session_process (flow false) true answer session).1 ≡ crash
unfolding session_process init business.Workflow.next_processor flow_init create_redis_client
    business.Redis.Connect.init_client
crashes = refl
