-- ===== src/Workflow/Flow.antt =====
-- src/package/workflow/flow_manager.cpp and src/package/workflow/module_factory.cpp: which modules there are, with
-- the `Initialize` functions of src/package/workflow/module. The configuration is a parameter.
mod Start
mod Steps
mod Tests
use business.Base.{ℕ, Bool, true, false, List, [], ◌∷◌, Option, none, some, if◌then◌else◌, ◌==◌}
use business.Base.Int.{ℤ, pos, negsuc, eq_ℤ}
use business.Base.Text.{Text, codes, is_empty}
use business.Redis.Connect.{RedisParam, RedisNetwork, create_redis_client}
use business.Workflow.{
  ProcType, none_process, pre_process, download_image, output_kafka, pic_wait, business_save,
  generate_url, trace_space, get_plugin, max_proc_type, proc_terminate, Session, final,
  next_processor,
}
use business.Workflow.Modules.{
  Answer, Next, stop, crash, go_on, http_process, kafka_process, wait_process, save_process,
  plugin_process,
}

-- The value of a `ProcType`, and the type after it.
abbrev pub number_of : ProcType → ℤ
number_of none_process = negsuc 0
number_of pre_process = pos 0
number_of download_image = pos 1
number_of output_kafka = pos 2
number_of pic_wait = pos 3
number_of business_save = pos 4
number_of generate_url = pos 5
number_of trace_space = pos 6
number_of get_plugin = pos 7
number_of max_proc_type = pos 8

abbrev pub next_type : ProcType → ProcType
next_type none_process = pre_process
next_type pre_process = download_image
next_type download_image = output_kafka
next_type output_kafka = pic_wait
next_type pic_wait = business_save
next_type business_save = generate_url
next_type generate_url = trace_space
next_type trace_space = get_plugin
next_type _ = max_proc_type

-- What the modules ask while they are initialised: the configuration, librdkafka, redis, and Mongo's pool.
pub record Setting : Type 0 where
  pub get_value : Text → Text → Option Text
  pub get_int_value : Text → Text → Option ℤ
  pub set_brokers : Text → Bool
  pub new_producer : Bool
  pub redis : RedisNetwork
  pub new_pool : Text → Bool

-- The modules; that of the picture wait has a client of redis or not.
pub data Module : Type 0 where
  http_module : ProcType → Module
  kafka_module save_module plugin_module : Module
  wait_module : Bool → Module

-- `ModuleFactory::createModule`
unfoldable pub create_module : ProcType → Option Module
create_module download_image = some (http_module download_image)
create_module output_kafka = some kafka_module
create_module pic_wait = some (wait_module false)
create_module business_save = some save_module
create_module trace_space = some (http_module trace_space)
create_module generate_url = some (http_module generate_url)
create_module get_plugin = some plugin_module
create_module _ = none

-- The section that has the address of the service; the images and the links come from one proxy.
unfoldable pub section_of : ProcType → Text
unfolding codes
section_of trace_space = codes "trace_space"
section_of _ = codes "s3proxy"

abbrev pub no_value : Option Text → Text
no_value none = []
no_value (some t) = t

-- The rest of a function that returns false where a call fails.
abbrev pub if_some {ℓ κ} : {A : Type ℓ} {B : Type κ} → Option A → (A → Option B) → Option B
if_some none f = none
if_some (some a) f = f a

module _ (C : Setting) where
  -- The parameters of redis, if all five are configured.
  unfoldable pub redis_param : Option RedisParam
  unfolding codes
  redis_param = elim (C.get_value (codes "redis") (codes "sentinel_name")) [
    | none ↦ none
    | some sentinel ↦ elim (C.get_value (codes "redis") (codes "addrs")) [
      | none ↦ none
      | some addrs ↦ elim (C.get_value (codes "redis") (codes "passwd")) [
        | none ↦ none
        | some passwd ↦ elim (C.get_int_value (codes "redis") (codes "io_num")) [
          | none ↦ none
          | some io_num ↦ elim (C.get_int_value (codes "redis") (codes "pic_index")) [
            | none ↦ none
            | some db_index ↦ some (record {
              sentinel_name = sentinel;
              redis_addrs = addrs;
              io_num = io_num;
              db_index = db_index;
              passwd = passwd;
            })
          ]
        ]
      ]
    ]
  ]

  -- `Transponder::Init`, which wants an address.
  abbrev pub http_initialize : ProcType → Option Text → Option Module
  http_initialize type none = none
  http_initialize type (some ip_port) = if is_empty ip_port then none else some (http_module type)

  -- `PictureWaitModule::Initialize`, which drops the result of `Init`; it makes the first client.
  abbrev pub wait_initialize : Option RedisParam → Option Module
  wait_initialize none = none
  wait_initialize (some p) = some (wait_module (create_redis_client C.redis (pos 0) p).0)

  -- The module after `Initialize`, if that returns true.
  unfoldable pub initialize : Module → Option Module
  unfolding codes section_of redis_param
  initialize (http_module type) =
      http_initialize type (C.get_value (section_of type) (codes "ipport"))
  initialize kafka_module =
      if C.set_brokers (no_value (C.get_value (codes "kafka") (codes "brokers")))
      then (if C.new_producer then some kafka_module else none)
      else none
  initialize save_module = some save_module
  initialize plugin_module = some plugin_module
  initialize (wait_module client) = wait_initialize redis_param

  unfoldable pub new_module : ProcType → Option Module
  unfolding create_module initialize
  new_module type = elim (create_module type) [ none ↦ none | some m ↦ initialize m ]

  -- `module_dict_`
  abbrev pub Flow : Type 0
  Flow = ProcType → Option Module

  abbrev pub put : ProcType → Module → Flow → Flow
  put type m flow t = if eq_ℤ (number_of t) (number_of type) then some m else flow t

  -- The loop over the types, with the rounds that are left.
  unfoldable pub load_modules : ℕ → ProcType → Flow → Option Flow
  unfolding new_module
  load_modules ℕ.zero type flow = some flow
  load_modules (ℕ.suc rounds) type flow =
      if_some (new_module type) (λ m. load_modules rounds (next_type type) (put type m flow))

  unfoldable pub mongo_initialize : Bool
  unfolding codes
  mongo_initialize = elim (C.get_value (codes "mongo_business") (codes "mongo_url")) [
    | none ↦ false
    | some url ↦ C.new_pool url
  ]

  -- `FlowManager::init`: 7 types lie between `kDownloadImage` and `kMaxProcType`.
  unfoldable pub flow_init : Option Flow
  unfolding load_modules mongo_initialize
  flow_init =
      if_some (load_modules 7 download_image (λ t. none))
        (λ flow. if mongo_initialize then some flow else none)

-- `getResultOfWait` without a client: without a key it passes at once, with one it locks by a null pointer.
abbrev pub wait_unconnected : Bool → Option Bool
wait_unconnected has_key = if has_key then none else some false

-- The `Process` of a module; `has_key` says whether the data has a key for the picture wait.
unfoldable pub module_process : Module → Bool → Answer → Session → Session × Next
unfolding wait_process
module_process (http_module type) has_key a s = http_process a type s
module_process kafka_module has_key a s = kafka_process a s
module_process save_module has_key a s = save_process a s
module_process plugin_module has_key a s = plugin_process a s
module_process (wait_module true) has_key a s = wait_process a s
module_process (wait_module false) has_key a s =
    wait_process (record a { wait = wait_unconnected has_key }) s

-- `Session::Process` with `getModule`
unfoldable pub session_process :
    (ProcType → Option Module) → Bool → Answer → Session → Session × Next
unfolding next_processor module_process final
session_process flow has_key a s =
    let (type, rest) = next_processor s in
    elim (flow type) [
      | none ↦ (final proc_terminate rest, stop)
      | some m ↦ module_process m has_key a rest
    ]
