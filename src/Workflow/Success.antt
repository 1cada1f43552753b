-- ===== src/Workflow/Success.antt =====
-- What success means for a session.
use business.Base.{
  ◌≢◌, Option, none, some, ℕ, suc, ◌≡◌, refl, sym, ◌∙◌, Bool, true, false, ◌||◌, List, [], ◌∷◌,
  Option, some, arith, length, ltb, ◌==◌, all, Bool-cases, Option-cases, List-cases, inl, inr,
}
use business.Base.Int.{ℤ, pos, eq_ℤ}
use business.Base.Text.{Text, is_empty}
use business.Consumer.Partition.{NodeState}
use business.Workflow.{
  ProcType, none_process, pre_process, download_image, output_kafka, pic_wait, business_save,
  generate_url, trace_space, get_plugin, max_proc_type, ErrCode, success, proc_terminate,
  http_conn_error, download_error, mongo_failed, kafka_error, Session, final, next_processor,
  pop_front, has_next_url, DataKind, init,
}
use business.Workflow.Modules.{
  Reply, Answer, Next, stop, push, crash, go_on, make_request, proc_response, keep_image, retreat,
  http_error_process, http_process, respond, send, kafka_process, wait_process, save_process,
  repair_proc_chain, plugin_process, process_by, process, follow, run,
}

-- Not ended in success; and if so, then with nothing left to do.
abbrev pub IsFresh : Session → Type 0
IsFresh s = (s.ended ≡ some success) → ⊥

abbrev pub IsHonest : Session → Type 0
IsHonest s = (s.ended ≡ some success) → s.proc_chain ≡ []

abbrev pub Outcome : Session × Next → Type 0
Outcome (t, stop) = IsHonest t
Outcome (t, push) = IsFresh t
Outcome (t, crash) = IsFresh t

abbrev is_error : ErrCode → Bool
is_error success = false
is_error _ = true

final-IsFresh :
    (err : ErrCode) (s : Session) → is_error err ≡ true → IsFresh s → IsFresh (final err s)
unfolding final
final-IsFresh err s error fresh ended = elim (Bool-cases s.is_finished) [
  | inl finished ↦ fresh (ground (arith, finished, ended))
  | inr open_one ↦ absurd (ground (arith, open_one, ended, error))
]

final-IsHonest :
    (err : ErrCode) (s : Session) → is_error err ≡ true → IsFresh s → IsHonest (final err s)
final-IsHonest err s error fresh ended = absurd (final-IsFresh err s error fresh ended)

proc_chain-final : (err : ErrCode) (s : Session) → (final err s).proc_chain ≡ s.proc_chain
unfolding final
proc_chain-final err s = ground (arith, Bool-cases s.is_finished)

go_on-Outcome : (s : Session) → IsFresh s → Outcome (go_on s)
unfolding go_on
go_on-Outcome s fresh = elim (List-cases s.proc_chain) [
  | inl nil ↦ rw (go_on, nil) (λ ended. proc_chain-final success s ∙ nil)
  | inr (type, chain, cons) ↦ rw (go_on, cons) fresh
]

ended-keep_image : (r : Reply) (s : Session) → (keep_image r s).ended ≡ s.ended
unfolding keep_image
ended-keep_image r s = ground (arith, Bool-cases (is_empty r.body))

ended-proc_response :
    (r : Reply) (type : ProcType) (s : Session) → (proc_response r type s).0.ended ≡ s.ended
unfolding proc_response
ended-proc_response r download_image s =
    ground (arith, Bool-cases r.status_ok, Bool-cases (has_next_url s.cursor), ended-keep_image r s)
ended-proc_response r trace_space s = ground (arith, Bool-cases r.status_ok, Option-cases r.traced)
ended-proc_response r generate_url s = refl
ended-proc_response r output_kafka s = refl
ended-proc_response r pic_wait s = refl
ended-proc_response r business_save s = refl
ended-proc_response r get_plugin s = refl
ended-proc_response r none_process s = refl
ended-proc_response r pre_process s = refl
ended-proc_response r max_proc_type s = refl

make_request-IsFresh :
    (a : Answer) (type : ProcType) (s : Session) → IsFresh s → IsFresh (make_request a type s).0
unfolding make_request
make_request-IsFresh a download_image s fresh = elim (Bool-cases (length s.cursor.urls == 0)) [
  | inl missing ↦ rw (make_request, missing) fresh
  | inr some_url ↦ rw (make_request, some_url) fresh
]
make_request-IsFresh a trace_space s fresh = elim (Bool-cases (length s.images == 0)) [
  | inl missing ↦ rw (make_request, missing) (final-IsFresh download_error s refl fresh)
  | inr some_image ↦ rw (make_request, some_image) fresh
]
make_request-IsFresh a generate_url s fresh = fresh
make_request-IsFresh a output_kafka s fresh = fresh
make_request-IsFresh a pic_wait s fresh = fresh
make_request-IsFresh a business_save s fresh = fresh
make_request-IsFresh a get_plugin s fresh = fresh
make_request-IsFresh a none_process s fresh = fresh
make_request-IsFresh a pre_process s fresh = fresh
make_request-IsFresh a max_proc_type s fresh = fresh

respond-Outcome : (p : Session × Option Bool) → IsFresh p.0 → Outcome (respond p)
unfolding respond
respond-Outcome (t, none) fresh = fresh
respond-Outcome (t, some true) fresh = go_on-Outcome t fresh
respond-Outcome (t, some false) fresh = final-IsHonest proc_terminate t refl fresh

ended-retreat : (type : ProcType) (s : Session) → (retreat type s).ended ≡ s.ended
ended-retreat download_image s = refl
ended-retreat trace_space s = refl
ended-retreat generate_url s = refl
ended-retreat output_kafka s = refl
ended-retreat pic_wait s = refl
ended-retreat business_save s = refl
ended-retreat get_plugin s = refl
ended-retreat none_process s = refl
ended-retreat pre_process s = refl
ended-retreat max_proc_type s = refl

http_error_process-Outcome :
    (type : ProcType) (s : Session) → IsFresh s → Outcome (http_error_process type s)
unfolding http_error_process
http_error_process-Outcome type s fresh =
    let back : IsFresh (retreat type s) = λ ended. fresh (sym (ended-retreat type s) ∙ ended) in
    elim (Bool-cases (ltb 0 (retreat type s).http_retry_time)) [
      | inl more ↦ rw (http_error_process, more) back
      | inr none_left ↦
          rw (http_error_process, none_left)
            (final-IsHonest http_conn_error (retreat type s) refl back)
    ]

send-Outcome :
    (a : Answer) (type : ProcType) (p : Session × Bool) → IsFresh p.0 → Outcome (send a type p)
unfolding send
send-Outcome a type (t, false) fresh = final-IsHonest proc_terminate t refl fresh
send-Outcome a type (t, true) fresh = elim (Option-cases a.reply) [
  | inl lost ↦ rw (send, lost) (http_error_process-Outcome type t fresh)
  | inr (r, came) ↦
      rw (send, came)
        (respond-Outcome (proc_response r type t)
          (λ ended. fresh (sym (ended-proc_response r type t) ∙ ended)))
]

kafka_process-Outcome : (a : Answer) (s : Session) → IsFresh s → Outcome (kafka_process a s)
unfolding kafka_process
kafka_process-Outcome a s fresh = elim (Option-cases a.outputs) [
  | inl failed ↦ rw (kafka_process, failed) (final-IsHonest kafka_error s refl fresh)
  | inr (pushed, made) ↦ elim (Bool-cases (a.replayed || all (λ ok. ok) pushed)) [
    | inl out ↦ rw (kafka_process, made) (rw out (go_on-Outcome s fresh))
    | inr held ↦ rw (kafka_process, made) (rw held (final-IsHonest kafka_error s refl fresh))
  ]
]

save_process-Outcome : (a : Answer) (s : Session) → IsFresh s → Outcome (save_process a s)
unfolding save_process
save_process-Outcome a s fresh = elim (Bool-cases a.saved) [
  | inl saved ↦ rw (save_process, saved) (go_on-Outcome s fresh)
  | inr failed ↦ rw (save_process, failed) (final-IsHonest mongo_failed s refl fresh)
]

wait_process-Outcome :
    (a : Answer) (s : Session) → a.wait ≢ some true → IsFresh s → Outcome (wait_process a s)
unfolding wait_process
wait_process-Outcome a s pass fresh = elim (Option-cases s.node) [
  | inl null ↦ rw (wait_process, null) fresh
  | inr (state, there) ↦ elim (Option-cases a.wait) [
    | inl threw ↦ rw (wait_process, there) (rw threw fresh)
    | inr (true, wait) ↦ absurd (pass wait)
    | inr (false, go) ↦ rw (wait_process, there) (rw go (go_on-Outcome s fresh))
  ]
]

ended-repair_proc_chain : (s : Session) → (repair_proc_chain s).ended ≡ s.ended
unfolding repair_proc_chain
ended-repair_proc_chain s =
    ground (arith, Bool-cases (eq_ℤ s.datatype (pos 2) || eq_ℤ s.datatype (pos 3)))

plugin_process-Outcome : (a : Answer) (s : Session) → IsFresh s → Outcome (plugin_process a s)
unfolding plugin_process
plugin_process-Outcome a s fresh = elim (Option-cases a.plugin) [
  | inl failed ↦ rw (plugin_process, failed) (final-IsHonest mongo_failed s refl fresh)
  | inr (true, found) ↦
      rw (plugin_process, found)
        (go_on-Outcome (repair_proc_chain s)
          (λ ended. fresh (sym (ended-repair_proc_chain s) ∙ ended)))
  | inr (false, found) ↦ rw (plugin_process, found) (go_on-Outcome s fresh)
]

process_by-Outcome :
    (a : Answer) (type : ProcType) (s : Session)
    → a.wait ≢ some true
    → IsFresh s
    → Outcome (process_by a type s)
unfolding process_by http_process
process_by-Outcome a download_image s pass fresh =
    send-Outcome a download_image _ (make_request-IsFresh a download_image s fresh)
process_by-Outcome a trace_space s pass fresh =
    send-Outcome a trace_space _ (make_request-IsFresh a trace_space s fresh)
process_by-Outcome a generate_url s pass fresh =
    send-Outcome a generate_url _ (make_request-IsFresh a generate_url s fresh)
process_by-Outcome a output_kafka s pass fresh = kafka_process-Outcome a s fresh
process_by-Outcome a pic_wait s pass fresh = wait_process-Outcome a s pass fresh
process_by-Outcome a business_save s pass fresh = save_process-Outcome a s fresh
process_by-Outcome a get_plugin s pass fresh = plugin_process-Outcome a s fresh
process_by-Outcome a none_process s pass fresh = final-IsHonest proc_terminate s refl fresh
process_by-Outcome a pre_process s pass fresh = final-IsHonest proc_terminate s refl fresh
process_by-Outcome a max_proc_type s pass fresh = final-IsHonest proc_terminate s refl fresh

pop_front-IsFresh :
    (chain : List ProcType) (s : Session) → IsFresh s → IsFresh (pop_front chain s).1
unfolding pop_front
pop_front-IsFresh [] s fresh = fresh
pop_front-IsFresh (type ∷ chain) s fresh = fresh

process-Outcome :
    (a : Answer) (s : Session) → a.wait ≢ some true → IsFresh s → Outcome (process a s)
unfolding process next_processor
process-Outcome a s pass fresh =
    process_by-Outcome a _ (pop_front s.proc_chain s).1 pass
      (pop_front-IsFresh s.proc_chain s fresh)

follow-IsHonest :
    (p rest : Session × Next)
    → Outcome p
    → (IsFresh p.0 → IsHonest rest.0)
    → IsHonest (follow p rest).0
follow-IsHonest (t, stop) rest honest go = honest
follow-IsHonest (t, crash) rest fresh go = λ ended. absurd (fresh ended)
follow-IsHonest (t, push) rest fresh go = go fresh

run-IsHonest :
    (answers : ℕ → Answer) (i fuel : ℕ) (s : Session)
    → ((k : ℕ) → (answers k).wait ≢ some true)
    → IsFresh s
    → IsHonest (run answers i fuel s).0
unfolding run
run-IsHonest answers i ℕ.zero s pass fresh = λ ended. absurd (fresh ended)
run-IsHonest answers i (suc fuel) s pass fresh =
    follow-IsHonest (process (answers i) s) (run answers (suc i) fuel (process (answers i) s).0)
      (process-Outcome (answers i) s (pass i) fresh)
      (λ again. run-IsHonest answers (suc i) fuel (process (answers i) s).0 pass again)

-- If the picture wait never keeps it, a session that ends in success, after any number of steps and
-- with any other answers, has no step left.
pub run-init-IsHonest :
    (answers : ℕ → Answer) (fuel : ℕ) (conf_retry : Option ℕ) (kind : DataKind) (urls : List Text)
    (datatype : ℤ) (data_state : Option NodeState)
    → ((k : ℕ) → (answers k).wait ≢ some true)
    → IsHonest (run answers 0 fuel (init conf_retry kind urls datatype data_state)).0
unfolding init
run-init-IsHonest answers fuel conf_retry kind urls datatype data_state pass =
    run-IsHonest answers 0 fuel (init conf_retry kind urls datatype data_state) pass
      (λ ended. absurd cc)
