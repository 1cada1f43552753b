-- ===== src/Workflow/Workers/Begin.antt =====
-- A step of a session in two halves, the request over HTTP and the reply to it.
use business.Base.{ℕ, ◌≤◌, ◌≡◌, refl, Bool, true, false, List, [], ◌∷◌, none, inl, subst}
use business.Workflow.{
  ProcType, none_process, pre_process, download_image, output_kafka, pic_wait, business_save,
  generate_url, trace_space, get_plugin, max_proc_type, proc_terminate, Session, pop_front,
  next_processor,
}
use business.Workflow.Modules.{Answer, Next, make_request, send, http_process, process_by, process}
use business.Workflow.Termination.{more-measure, rest_IsReady}
use business.Workflow.Termination.Step.{
  more, measure, is_wait, IsReady, IsClean, Progress, final-IsEnded,
}
use business.Workflow.Termination.Http.{
  IsFlying, Asks, flight_measure, make_request-url, make_request-trace, make_request-download,
}
use business.Workflow.Termination.Modules.{process_by-Progress}
use business.Workflow.Workers.{Begun, landed, asking, sent, begin_by, begin}

-- The whole step, if the reply comes at once.
abbrev pub at_once : Answer → Begun → Session × Next
at_once a (landed r) = r
at_once a (asking type asked) = send a type (asked, true)

at_once-sent :
    (a : Answer) (type : ProcType) (p : Session × Bool) → at_once a (sent type p) ≡ send a type p
unfolding sent send
at_once-sent a type (t, true) = refl
at_once-sent a type (t, false) = refl

at_once-begin_by :
    (a : Answer) (type : ProcType) (s : Session)
    → at_once a (begin_by a type s) ≡ process_by a type s
unfolding begin_by process_by http_process
at_once-begin_by a download_image s =
    at_once-sent a download_image (make_request a download_image s)
at_once-begin_by a trace_space s = at_once-sent a trace_space (make_request a trace_space s)
at_once-begin_by a generate_url s = at_once-sent a generate_url (make_request a generate_url s)
at_once-begin_by a none_process s = refl
at_once-begin_by a pre_process s = refl
at_once-begin_by a output_kafka s = refl
at_once-begin_by a pic_wait s = refl
at_once-begin_by a business_save s = refl
at_once-begin_by a get_plugin s = refl
at_once-begin_by a max_proc_type s = refl

-- The halves make the step of Workflow/Modules.
pub at_once-begin : (a : Answer) (s : Session) → at_once a (begin a s) ≡ process a s
unfolding begin process
at_once-begin a s = at_once-begin_by a (next_processor s).0 (next_processor s).1

-- What a step comes to on the worker's thread is progress.
abbrev pub OnBegun : ℕ → Begun → Type 0
OnBegun n (landed r) = Progress n r
OnBegun n (asking type t) = IsFlying type t × (flight_measure type t ≤ n)

sent-OnBegun :
    (n : ℕ) (type : ProcType) (p : Session × Bool) → Asks n type p → OnBegun n (sent type p)
unfolding sent
sent-OnBegun n type (t, true) asks = asks
sent-OnBegun n type (t, false) asks = final-IsEnded proc_terminate t asks

begin_by-OnBegun :
    (a : Answer) (type : ProcType) (s : Session)
    → IsClean a
    → IsReady s
    → ((s.node ≡ none) → is_wait type ≡ false)
    → OnBegun (more type (measure s)) (begin_by a type s)
unfolding begin_by
begin_by-OnBegun a download_image s clean ready here =
    sent-OnBegun _ download_image _ (make_request-download a s ready)
begin_by-OnBegun a trace_space s clean ready here =
    sent-OnBegun _ trace_space _ (make_request-trace a s ready)
begin_by-OnBegun a generate_url s clean ready here =
    sent-OnBegun _ generate_url _ (make_request-url a s ready)
begin_by-OnBegun a none_process s clean ready here =
    process_by-Progress a none_process s clean ready here
begin_by-OnBegun a pre_process s clean ready here =
    process_by-Progress a pre_process s clean ready here
begin_by-OnBegun a output_kafka s clean ready here =
    process_by-Progress a output_kafka s clean ready here
begin_by-OnBegun a pic_wait s clean ready here = process_by-Progress a pic_wait s clean ready here
begin_by-OnBegun a business_save s clean ready here =
    process_by-Progress a business_save s clean ready here
begin_by-OnBegun a get_plugin s clean ready here =
    process_by-Progress a get_plugin s clean ready here
begin_by-OnBegun a max_proc_type s clean ready here =
    process_by-Progress a max_proc_type s clean ready here

pop_front-OnBegun :
    (a : Answer) (chain : List ProcType) (s : Session)
    → s.proc_chain ≡ chain
    → IsClean a
    → IsReady s
    → OnBegun (measure s) (begin_by a (pop_front chain s).0 (pop_front chain s).1)
unfolding pop_front begin_by process_by
pop_front-OnBegun a [] s nil clean ready = final-IsEnded proc_terminate s (inl ready.0)
pop_front-OnBegun a (type ∷ chain) s cons clean ready =
    let (fit, here) = rest_IsReady type chain s cons ready in
    subst (λ n. OnBegun n (begin_by a type (record s { proc_chain = chain })))
      (more-measure type chain s cons)
      (begin_by-OnBegun a type (record s { proc_chain = chain }) clean fit here)

pub begin-OnBegun :
    (a : Answer) (s : Session) → IsClean a → IsReady s → OnBegun (measure s) (begin a s)
unfolding begin next_processor
begin-OnBegun a s clean ready = pop_front-OnBegun a s.proc_chain s refl clean ready
