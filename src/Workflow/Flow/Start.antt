-- ===== src/Workflow/Flow/Start.antt =====
-- What a start that succeeds leaves: a module for each type, and what becomes of the picture wait.
use business.Base.{
  ◌≡◌, refl, sym, ap, ◌∙◌, ℕ, Bool, true, false, Option, none, some, if◌then◌else◌, some-injective,
  if_holds,
}
use business.Base.Int.{pos}
use business.Base.Text.{Text, is_empty}
use business.Redis.Connect.{RedisParam, create_redis_client}
use business.Workflow.{
  ProcType, none_process, pre_process, download_image, output_kafka, pic_wait, business_save,
  generate_url, trace_space, get_plugin, max_proc_type,
}
use business.Workflow.Flow.{
  Setting, Module, http_module, kafka_module, save_module, plugin_module, wait_module,
  create_module, redis_param, http_initialize, wait_initialize, initialize, new_module, Flow, put,
  next_type, if_some, load_modules, mongo_initialize, flow_init,
}

-- The modules of a start that succeeds, with the parameters of redis.
abbrev pub all_modules : (C : Setting) → RedisParam → Flow C
all_modules C p download_image = some (http_module download_image)
all_modules C p output_kafka = some kafka_module
all_modules C p pic_wait = some (wait_module (create_redis_client C.redis (pos 0) p).0)
all_modules C p business_save = some save_module
all_modules C p generate_url = some (http_module generate_url)
all_modules C p trace_space = some (http_module trace_space)
all_modules C p get_plugin = some plugin_module
all_modules C p _ = none

module _ (C : Setting) where
  http-form :
      (type : ProcType) (o : Option Text) (m : Module)
      → http_initialize C type o ≡ some m
      → m ≡ http_module type
  http-form type none m h = cc
  http-form type (some ip_port) m h =
      if_holds (λ r. r ≡ some m → m ≡ http_module type) (is_empty ip_port) (λ blank e. cc)
        (λ address e. sym (some-injective e)) h

  kafka-form :
      (b c : Bool) (m : Module)
      → (if b then (if c then some kafka_module else none) else none) ≡ some m
      → m ≡ kafka_module
  kafka-form true true m h = sym (some-injective h)
  kafka-form true false m h = cc
  kafka-form false c m h = cc

  wait-form :
      (o : Option RedisParam) (m : Module)
      → redis_param C ≡ o
      → wait_initialize C o ≡ some m
      → (p : RedisParam) × (redis_param C ≡ some p)
        × (m ≡ wait_module (create_redis_client C.redis (pos 0) p).0)
  wait-form none m e h = cc
  wait-form (some p) m e h = (p, e, sym (some-injective h))

-- Inversion of a chain of calls that succeeds.
if_some-eq {ℓ κ} :
    {A : Type ℓ} {B : Type κ} (o : Option A) (f : A → Option B) {b : B}
    → if_some o f ≡ some b
    → (a : A) × (o ≡ some a) × (f a ≡ some b)
if_some-eq none f h = cc
if_some-eq (some a) f h = (a, refl, h)

module _ (C : Setting) where
  next_module :
      (rounds : ℕ) (type : ProcType) (flow flow' : Flow C)
      → load_modules C (ℕ.suc rounds) type flow ≡ some flow'
      → (m : Module) × (new_module C type ≡ some m)
        × (load_modules C rounds (next_type type) (put C type m flow) ≡ some flow')
  unfolding load_modules
  next_module rounds type flow flow' h = if_some-eq (new_module C type) _ h

  -- The dictionary after the seven rounds.
  abbrev filled : Module → Module → Module → Module → Module → Module → Module → Flow C
  filled download kafka wait save generate trace plugin = put C get_plugin plugin (
      put C trace_space trace (
        put C generate_url generate (
          put C business_save save (
            put C pic_wait wait
              (put C output_kafka kafka (put C download_image download (λ t. none)))))))

  filled-all :
      (p : RedisParam) (flow : Flow C) (download kafka wait save generate trace plugin : Module)
      → filled download kafka wait save generate trace plugin ≡ flow
      → download ≡ http_module download_image
      → kafka ≡ kafka_module
      → wait ≡ wait_module (create_redis_client C.redis (pos 0) p).0
      → save ≡ save_module
      → generate ≡ http_module generate_url
      → trace ≡ http_module trace_space
      → plugin ≡ plugin_module
      → (t : ProcType) → flow t ≡ all_modules C p t
  filled-all p flow download kafka wait save generate trace plugin e d k w s g r u t =
      sym (ap (λ f. f t) e) ∙ form t
    where
      form :
          (t : ProcType)
          → filled download kafka wait save generate trace plugin t ≡ all_modules C p t
      form none_process = refl
      form pre_process = refl
      form download_image = ap some d
      form output_kafka = ap some k
      form pic_wait = ap some w
      form business_save = ap some s
      form generate_url = ap some g
      form trace_space = ap some r
      form get_plugin = ap some u
      form max_proc_type = refl

  -- The modules after a loop that succeeds.
  loaded :
      (flow : Flow C)
      → load_modules C 7 download_image (λ t. none) ≡ some flow
      → (p : RedisParam) × (redis_param C ≡ some p) × ((t : ProcType) → flow t ≡ all_modules C p t)
  unfolding load_modules new_module create_module initialize
  loaded flow h =
      let (download, d, h1) = next_module 6 download_image (λ t. none) flow h in
      let (kafka, k, h2) = next_module 5 output_kafka _ flow h1 in
      let (wait, w, h3) = next_module 4 pic_wait _ flow h2 in
      let (save, s, h4) = next_module 3 business_save _ flow h3 in
      let (generate, g, h5) = next_module 2 generate_url _ flow h4 in
      let (trace, r, h6) = next_module 1 trace_space _ flow h5 in
      let (plugin, u, h7) = next_module 0 get_plugin _ flow h6 in
      let (p, param, is_wait) = wait-form C (redis_param C) wait refl w in
      (
        p,
        param,
        filled-all p flow download kafka wait save generate trace plugin (some-injective h7)
            (http-form C download_image _ download d) (kafka-form C _ _ kafka k) is_wait
            (sym (some-injective s)) (http-form C generate_url _ generate g)
            (http-form C trace_space _ trace r) (sym (some-injective u)),
      )

  pub flow_init-all :
      (flow : Flow C)
      → flow_init C ≡ some flow
      → (p : RedisParam) × (redis_param C ≡ some p) × ((t : ProcType) → flow t ≡ all_modules C p t)
  unfolding flow_init
  flow_init-all flow h =
      let (made, is, rest) =
        if_some-eq (load_modules C 7 download_image (λ t. none))
          (λ f. if mongo_initialize C then some f else none) h in
      loaded flow (is ∙ ap some (same made rest))
    where
      same :
          (made : Flow C)
          → (if mongo_initialize C then some made else none) ≡ some flow
          → made ≡ flow
      same made e =
          if_holds (λ r. r ≡ some flow → made ≡ flow) (mongo_initialize C)
            (λ pool k. some-injective k) (λ no_pool k. cc) e
