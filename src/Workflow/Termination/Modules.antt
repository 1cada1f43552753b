-- ===== src/Workflow/Termination/Modules.antt =====
-- The steps of the other modules make progress.
use business.Base.{
  suc, ◌<◌, ◌≡◌, ◌≢◌, refl, ap, ◌∙◌, true, false, ◌||◌, List, [], ◌∷◌, ◌++◌, none, some, arith,
  Bool-cases, all, Option-cases, inl, inr,
}
use business.Base.Int.{pos, eq_ℤ}
use business.Consumer.Partition.{NodeState}
use business.Workflow.{
  ProcType, none_process, pre_process, download_image, output_kafka, pic_wait, business_save,
  generate_url, trace_space, get_plugin, max_proc_type, success, proc_terminate, mongo_failed,
  kafka_error, Session,
}
use business.Workflow.Modules.{
  Answer, http_process, kafka_process, wait_process, save_process, repair_proc_chain,
  plugin_process, process_by,
}
use business.Workflow.Termination.Step.{
  more, weights, measure, is_wait, waits, IsReady, IsClean, Progress, final-IsEnded, go_on-Progress,
}
use business.Workflow.Termination.Http.{
  send-Progress, make_request-url, make_request-trace, make_request-download,
}

-- The modules without HTTP.
pub kafka_process-Progress :
    (a : Answer) (s : Session) → IsReady s → Progress (suc (measure s)) (kafka_process a s)
unfolding kafka_process
kafka_process-Progress a s ready = elim (Option-cases a.outputs) [
  | inl failed ↦ rw (kafka_process, failed) (final-IsEnded kafka_error s (inl ready.0))
  | inr (pushed, made) ↦ elim (Bool-cases (a.replayed || all (λ ok. ok) pushed)) [
    | inl out ↦
        rw (kafka_process, made) (rw out (go_on-Progress (suc (measure s)) s ready (omega arith)))
    | inr held ↦ rw (kafka_process, made) (rw held (final-IsEnded kafka_error s (inl ready.0)))
  ]
]

pub save_process-Progress :
    (a : Answer) (s : Session) → IsReady s → Progress (suc (measure s)) (save_process a s)
unfolding save_process
save_process-Progress a s ready = elim (Bool-cases a.saved) [
  | inl saved ↦ rw (save_process, saved) (go_on-Progress (suc (measure s)) s ready (omega arith))
  | inr failed ↦ rw (save_process, failed) (final-IsEnded mongo_failed s (inl ready.0))
]

pub wait_process-Progress :
    (a : Answer) (s : Session) (state : NodeState)
    → a.wait ≢ none
    → IsReady s
    → s.node ≡ some state
    → Progress (suc (measure s)) (wait_process a s)
unfolding wait_process
wait_process-Progress a s state read ready there = elim (Option-cases a.wait) [
  | inl threw ↦ absurd (read threw)
  | inr (true, wait) ↦ rw (wait_process, there) (rw wait (final-IsEnded success s (inl ready.0)))
  | inr (false, pass) ↦
      rw (wait_process, there) (rw pass (go_on-Progress (suc (measure s)) s ready (omega arith)))
]

pub weights-append :
    (chain : List ProcType) → weights (chain ++ output_kafka ∷ []) ≡ suc (weights chain)
weights-append [] = refl
weights-append (type ∷ chain) = ground (arith, weights-append chain)

pub waits-append : (chain : List ProcType) → waits (chain ++ output_kafka ∷ []) ≡ waits chain
waits-append [] = refl
waits-append (type ∷ chain) = ap (λ b. is_wait type || b) (waits-append chain)

pub repair_proc_chain_lem :
    (s : Session)
    → IsReady s
    → IsReady (repair_proc_chain s) × (measure (repair_proc_chain s) < suc (suc (measure s)))
unfolding repair_proc_chain
repair_proc_chain_lem s ready =
    elim (Bool-cases (eq_ℤ s.datatype (pos 2) || eq_ℤ s.datatype (pos 3))) [
      | inl has_more ↦
          rw (repair_proc_chain, has_more)
            (
              (ready.0, λ null. waits-append s.proc_chain ∙ ready.1 null),
              omega (arith, weights-append s.proc_chain),
            )
      | inr same ↦ rw (repair_proc_chain, same) (ready, omega arith)
    ]

pub plugin_process-Progress :
    (a : Answer) (s : Session) → IsReady s → Progress (suc (suc (measure s))) (plugin_process a s)
unfolding plugin_process
plugin_process-Progress a s ready =
    let repaired = repair_proc_chain_lem s ready in
    elim (Option-cases a.plugin) [
      | inl failed ↦ rw (plugin_process, failed) (final-IsEnded mongo_failed s (inl ready.0))
      | inr (true, found) ↦
          rw (plugin_process, found)
            (go_on-Progress (suc (suc (measure s))) (repair_proc_chain s) repaired.0 repaired.1)
      | inr (false, found) ↦
          rw (plugin_process, found) (go_on-Progress (suc (suc (measure s))) s ready (omega arith))
    ]

pub process_by-Progress :
    (a : Answer) (type : ProcType) (s : Session)
    → IsClean a
    → IsReady s
    → ((s.node ≡ none) → is_wait type ≡ false)
    → Progress (more type (measure s)) (process_by a type s)
unfolding process_by http_process
process_by-Progress a download_image s clean ready here =
    send-Progress _ a download_image _ clean (make_request-download a s ready)
process_by-Progress a trace_space s clean ready here =
    send-Progress _ a trace_space _ clean (make_request-trace a s ready)
process_by-Progress a generate_url s clean ready here =
    send-Progress _ a generate_url _ clean (make_request-url a s ready)
process_by-Progress a output_kafka s clean ready here = kafka_process-Progress a s ready
process_by-Progress a pic_wait s clean ready here = elim (Option-cases s.node) [
  | inl null ↦ absurd (ground (arith, here null))
  | inr (state, there) ↦ wait_process-Progress a s state clean.wait_read ready there
]
process_by-Progress a business_save s clean ready here = save_process-Progress a s ready
process_by-Progress a get_plugin s clean ready here = plugin_process-Progress a s ready
process_by-Progress a none_process s clean ready here = final-IsEnded proc_terminate s (inl ready.0)
process_by-Progress a pre_process s clean ready here = final-IsEnded proc_terminate s (inl ready.0)
process_by-Progress a max_proc_type s clean ready here =
    final-IsEnded proc_terminate s (inl ready.0)
