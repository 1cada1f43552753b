-- ===== src/Workflow/Termination.antt =====
-- Every session ends, whatever the services answer.
pub mod Step
pub mod Http
pub mod Modules
use business.Base.{
  ℕ, suc, ◌+◌, ◌-◌, ◌≤◌, ◌<◌, ◌≡◌, ◌≢◌, refl, sym, ap, subst, ◌∙◌, Bool, true, false, ◌&&◌, ◌||◌,
  List, [], ◌∷◌, ◌++◌, Option, none, some, arith, length, ltb, leb, Bool-cases, List-cases, all,
  ◌==◌, Option-cases, ◌⊎◌, inl, inr,
}
use business.Base.Int.{ℤ, pos, eq_ℤ}
use business.Base.Text.{Text, is_empty}
use business.Consumer.Partition.{NodeState, done}
use business.Workflow.{
  ProcType, none_process, pre_process, download_image, output_kafka, pic_wait, business_save,
  generate_url, trace_space, get_plugin, max_proc_type, ErrCode, success, proc_terminate,
  http_conn_error, download_error, mongo_failed, kafka_error, Session, Cursor, final, add_chain,
  next_processor, pop_front, get_next_url, has_next_url, retreat_url, is_none, DataKind,
  business_data, capture_data, screenshot_data, xiashun_business_data, xiashun_capture_data,
  make_process_chain, init,
}
use business.Workflow.Modules.{
  Reply, Answer, Next, stop, push, crash, go_on, make_request, proc_response, keep_image, retreat,
  http_error_process, http_process, respond, send, splits, kafka_process, wait_process,
  save_process, repair_proc_chain, plugin_process, process_by, process, follow, run,
}
use business.Workflow.Termination.Step.{
  more, weights, left_urls, measure, IsEnded, is_wait, waits, IsReady, IsClean, Progress,
  final-IsEnded, go_on-Progress,
}
use business.Workflow.Termination.Http.{
  Reads, Asks, respond-Progress, http_error_process-Progress, send-Progress, Asks-by,
  make_request-url, proc_response-trace, make_request-trace, get_next_url-left, keep_image_lem,
  proc_response-download, asked_url, asked_url-Asks, make_request-download,
}
use business.Workflow.Termination.Modules.{
  kafka_process-Progress, save_process-Progress, wait_process-Progress, weights-append,
  waits-append, repair_proc_chain_lem, plugin_process-Progress, process_by-Progress,
}

pub more-measure :
    (type : ProcType) (chain : List ProcType) (s : Session)
    → s.proc_chain ≡ type ∷ chain
    → more type (measure (record s { proc_chain = chain })) ≡ measure s
more-measure type chain s cons = ground (arith, ap weights cons)

pub rest_IsReady :
    (type : ProcType) (chain : List ProcType) (s : Session)
    → s.proc_chain ≡ type ∷ chain
    → IsReady s
    → IsReady (record s { proc_chain = chain }) × ((s.node ≡ none) → is_wait type ≡ false)
rest_IsReady type chain s cons ready = (
  (ready.0, λ null. ground (arith, ap waits cons, ready.1 null)),
  λ null. ground (arith, ap waits cons, ready.1 null),
)

pop_front-Progress :
    (a : Answer) (chain : List ProcType) (s : Session)
    → s.proc_chain ≡ chain
    → IsClean a
    → IsReady s
    → Progress (measure s) (process_by a (pop_front chain s).0 (pop_front chain s).1)
unfolding pop_front process_by
pop_front-Progress a [] s nil clean ready = final-IsEnded proc_terminate s (inl ready.0)
pop_front-Progress a (type ∷ chain) s cons clean ready =
    let (fit, here) = rest_IsReady type chain s cons ready in
    subst (λ n. Progress n (process_by a type (record s { proc_chain = chain })))
      (more-measure type chain s cons)
      (process_by-Progress a type (record s { proc_chain = chain }) clean fit here)

-- A step on a ready session ends it, or leaves it ready with less to do.
pub process-Progress :
    (a : Answer) (s : Session) → IsClean a → IsReady s → Progress (measure s) (process a s)
unfolding process next_processor
process-Progress a s clean ready = pop_front-Progress a s.proc_chain s refl clean ready

abbrev pub Stops : Session × Next → Type 0
Stops (t, next) = (next ≡ stop) × IsEnded t

follow-Stops :
    (n : ℕ) (p rest : Session × Next)
    → Progress n p
    → (IsReady p.0 → measure p.0 < n → Stops rest)
    → Stops (follow p rest)
follow-Stops n (t, stop) rest ended go = (refl, ended)
follow-Stops n (t, push) rest ready go = go ready.0 ready.1
follow-Stops n (t, crash) rest never go = absurd never

run-Stops :
    (answers : ℕ → Answer) (i fuel : ℕ) (s : Session)
    → ((k : ℕ) → IsClean (answers k))
    → IsReady s
    → measure s < fuel
    → Stops (run answers i fuel s)
unfolding run
run-Stops answers i ℕ.zero s clean ready lt = absurd (omega (arith, lt))
run-Stops answers i (suc fuel) s clean ready lt =
    follow-Stops (measure s) (process (answers i) s)
      (run answers (suc i) fuel (process (answers i) s).0)
      (process-Progress (answers i) s (clean i) ready)
      (λ again less.
        run-Stops answers (suc i) fuel (process (answers i) s).0 clean again
          (omega (arith, lt, less)))

abbrev pub is_capture : DataKind → Bool
is_capture capture_data = true
is_capture _ = false

-- Without a message no chain waits for a picture, except that of a capture.
waits-make_process_chain :
    (kind : DataKind) → is_capture kind ≡ false → waits (make_process_chain kind true) ≡ false
unfolding make_process_chain
waits-make_process_chain (business_data msg_type) h = ground arith
waits-make_process_chain capture_data h = absurd cc
waits-make_process_chain screenshot_data h = refl
waits-make_process_chain xiashun_business_data h = refl
waits-make_process_chain xiashun_capture_data h = refl

weights-make_process_chain :
    (kind : DataKind) (from_redis : Bool) → weights (make_process_chain kind from_redis) ≤ 7
unfolding make_process_chain
weights-make_process_chain (business_data msg_type) from_redis = ground arith
weights-make_process_chain capture_data from_redis = omega arith
weights-make_process_chain screenshot_data from_redis = omega arith
weights-make_process_chain xiashun_business_data from_redis = omega arith
weights-make_process_chain xiashun_capture_data from_redis = omega arith

pub init-IsReady :
    (conf_retry : Option ℕ) (kind : DataKind) (urls : List Text) (datatype : ℤ)
    (cell : Option NodeState)
    → ((cell ≡ none) → is_capture kind ≡ false)
    → IsReady (init conf_retry kind urls datatype cell)
unfolding init
init-IsReady conf_retry kind urls datatype cell fits =
    (refl, λ null. rw null (waits-make_process_chain kind (fits null)))

abbrev pub retries : Option ℕ → ℕ
retries none = 3
retries (some n) = n

measure-init :
    (conf_retry : Option ℕ) (kind : DataKind) (urls : List Text) (datatype : ℤ)
    (cell : Option NodeState)
    → measure (init conf_retry kind urls datatype cell) < 8 + retries conf_retry + length urls
unfolding init
measure-init conf_retry kind urls datatype cell =
    ground (arith, weights-make_process_chain kind (is_none cell))

-- Whatever the services answer, as long as jsoncpp throws neither at a reply nor at what redis holds, and
-- the picture wait has its client: a session that is made for a message, or for one from redis that is no
-- capture, stops within eight steps more than it has retries and urls: it is final then, and the message,
-- if it has one, is done. It never reads the message that a session from redis lacks.
pub run-init-Stops :
    (answers : ℕ → Answer) (conf_retry : Option ℕ) (kind : DataKind) (urls : List Text)
    (datatype : ℤ) (cell : Option NodeState)
    → ((k : ℕ) → IsClean (answers k))
    → ((cell ≡ none) → is_capture kind ≡ false)
    → Stops (
        run answers 0
          (8 + retries conf_retry + length urls)
          (init conf_retry kind urls datatype cell))
run-init-Stops answers conf_retry kind urls datatype cell clean fits =
    run-Stops answers 0 (8 + retries conf_retry + length urls)
      (init conf_retry kind urls datatype cell) clean
      (init-IsReady conf_retry kind urls datatype cell fits)
      (measure-init conf_retry kind urls datatype cell)
