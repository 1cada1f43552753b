-- ===== src/Workflow/Flow/Steps.antt =====
-- A step of a session after the start: src/message/session.cpp with `getModule`.
use business.Base.{◌≡◌, refl, sym, ap, ◌∙◌, Bool, true, none, some, some-injective}
use business.Base.Int.{pos}
use business.Redis.Connect.{RedisParam, create_redis_client}
use business.Workflow.{
  ProcType, none_process, pre_process, download_image, output_kafka, pic_wait, business_save,
  generate_url, trace_space, get_plugin, max_proc_type, proc_terminate, Session, final,
  next_processor,
}
use business.Workflow.Modules.{Answer, Next, stop, process_by, process}
use business.Workflow.Flow.{Setting, redis_param, Flow, flow_init, module_process, session_process}
use business.Workflow.Flow.Start.{all_modules, flow_init-all}

-- What a type does where its module is as after a start.
by_module :
    (C : Setting) (p : RedisParam) (has_key : Bool) (a : Answer) (type : ProcType) (s : Session)
    → Session × Next
by_module C p has_key a type s = elim (all_modules C p type) [
  | none ↦ (final proc_terminate s, stop)
  | some m ↦ module_process m has_key a s
]

module _ (C : Setting) (flow : Flow C) (p : RedisParam) (started : flow_init C ≡ some flow)
    (configured : redis_param C ≡ some p) where
  session_process-by_module :
      (has_key : Bool) (a : Answer) (s : Session)
      → session_process flow has_key a s
        ≡ by_module C p has_key a (next_processor s).0 (next_processor s).1
  unfolding session_process by_module
  session_process-by_module has_key a s =
      let (q, param, all_there) = flow_init-all C flow started in
      let same : q ≡ p = some-injective (sym param ∙ configured) in
      ap
        (λ o. elim o [
          | none ↦ (final proc_terminate (next_processor s).1, stop)
          | some m ↦ module_process m has_key a (next_processor s).1
        ])
        (all_there (next_processor s).0 ∙ ap (λ r. all_modules C r (next_processor s).0) same)

by_module-process_by :
    (C : Setting) (p : RedisParam) (has_key : Bool) (a : Answer) (type : ProcType) (s : Session)
    → (create_redis_client C.redis (pos 0) p).0 ≡ true
    → by_module C p has_key a type s ≡ process_by a type s
unfolding by_module module_process process_by
by_module-process_by C p has_key a none_process s connected = refl
by_module-process_by C p has_key a pre_process s connected = refl
by_module-process_by C p has_key a download_image s connected = refl
by_module-process_by C p has_key a output_kafka s connected = refl
by_module-process_by C p has_key a pic_wait s connected = rw (by_module, connected) refl
by_module-process_by C p has_key a business_save s connected = refl
by_module-process_by C p has_key a generate_url s connected = refl
by_module-process_by C p has_key a trace_space s connected = refl
by_module-process_by C p has_key a get_plugin s connected = refl
by_module-process_by C p has_key a max_proc_type s connected = refl

-- After a start that succeeds, and that reached redis, the dictionary of modules is complete: a step of a
-- session by `getModule` is the step of Workflow/Modules, for every session and every answer.
pub session_process-process :
    (C : Setting) (flow : Flow C) (p : RedisParam) (has_key : Bool) (a : Answer) (s : Session)
    → flow_init C ≡ some flow
    → redis_param C ≡ some p
    → (create_redis_client C.redis (pos 0) p).0 ≡ true
    → session_process flow has_key a s ≡ process a s
unfolding process
session_process-process C flow p has_key a s started configured connected =
    session_process-by_module C flow p started configured has_key a s
    ∙ by_module-process_by C p has_key a (next_processor s).0 (next_processor s).1 connected
