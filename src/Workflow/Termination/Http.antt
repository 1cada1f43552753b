-- ===== src/Workflow/Termination/Http.antt =====
-- The steps over HTTP make progress.
use business.Base.{
  ℕ, suc, ◌-◌, ◌≤◌, ◌<◌, ◌≡◌, ◌≢◌, Option, none, some, if◌then◌else◌, refl, Bool, true, false,
  arith, length, ltb, Bool-cases, ◌==◌, Option-cases, ◌⊎◌, inl, inr,
}
use business.Base.Text.{is_empty}
use business.Workflow.{
  ProcType, download_image, generate_url, trace_space, proc_terminate, http_conn_error,
  download_error, Session, Cursor, add_chain, get_next_url, has_next_url, retreat_url,
}
use business.Workflow.Modules.{
  Next, stop, push, crash, Reply, Answer, make_request, proc_response, keep_image, retreat,
  http_error_process, respond, send,
}
use business.Workflow.Termination.Step.{
  IsRead, IsClean, left_urls, measure, IsEnded, IsReady, Progress, final-IsEnded, go_on-Progress,
}

-- What the request of an HTTP module must leave for the step to make progress below `n`.
abbrev pub Reads : ℕ → Session × Option Bool → Type 0
Reads n (t, none) = ⊥
Reads n (t, some true) = IsReady t × (measure t < n)
Reads n (t, some false) = t.is_finished ≡ false

-- What a session costs whose request is on its way: what it costs if the request fails.
abbrev pub flight_measure : ProcType → Session → ℕ
flight_measure type t = measure (add_chain type (retreat type t))

-- A request that is on its way, and whose reply or failure will be progress.
pub record IsFlying (type : ProcType) (t : Session) : Type 0 where
  pub back_ready : IsReady (add_chain type (retreat type t))
  pub reads : (r : Reply) → IsRead r → Reads (flight_measure type t) (proc_response r type t)

abbrev pub Asks : ℕ → ProcType → Session × Bool → Type 0
Asks n type (t, true) = IsFlying type t × (flight_measure type t ≤ n)
Asks n type (t, false) = (t.is_finished ≡ false) ⊎ IsEnded t

pub respond-Progress : (n : ℕ) (p : Session × Option Bool) → Reads n p → Progress n (respond p)
unfolding respond
respond-Progress n (t, none) never = absurd never
respond-Progress n (t, some true) (ready, lt) = go_on-Progress n t ready lt
respond-Progress n (t, some false) fresh = final-IsEnded proc_terminate t (inl fresh)

pub http_error_process-Progress :
    (n : ℕ) (type : ProcType) (t : Session)
    → IsReady (add_chain type (retreat type t))
    → measure (add_chain type (retreat type t)) ≤ n
    → Progress n (http_error_process type t)
unfolding http_error_process
http_error_process-Progress n type t ready le =
    elim (Bool-cases (ltb 0 (retreat type t).http_retry_time)) [
      | inl has_more ↦
          rw (http_error_process, has_more) ((ready.0, ready.1), ground (arith, le, has_more))
      | inr none_left ↦
          rw (http_error_process, none_left)
            (final-IsEnded http_conn_error (retreat type t) (inl ready.0))
    ]

-- The reply to a request that is on its way, or its failure, is progress.
pub send-lands :
    (a : Answer) (type : ProcType) (t : Session)
    → IsClean a
    → IsFlying type t
    → Progress (flight_measure type t) (send a type (t, true))
unfolding send
send-lands a type t clean flying = elim (Option-cases a.reply) [
  | inl lost ↦
      rw (send, lost)
        (http_error_process-Progress (flight_measure type t) type t flying.back_ready (omega arith))
  | inr (r, came) ↦
      rw (send, came)
        (respond-Progress (flight_measure type t) (proc_response r type t)
          (flying.reads r (clean.reply_read r came)))
]

Progress-mono : (n m : ℕ) (p : Session × Next) → n ≤ m → Progress n p → Progress m p
Progress-mono n m (t, stop) le h = h
Progress-mono n m (t, push) le h = (h.0, omega (arith, le, h.1))
Progress-mono n m (t, crash) le h = h

pub send-Progress :
    (n : ℕ) (a : Answer) (type : ProcType) (p : Session × Bool)
    → IsClean a
    → Asks n type p
    → Progress n (send a type p)
unfolding send
send-Progress n a type (t, false) clean asks = final-IsEnded proc_terminate t asks
send-Progress n a type (t, true) clean (flying, le) =
    Progress-mono (flight_measure type t) n (send a type (t, true)) le
      (send-lands a type t clean flying)

pub Asks-by :
    (n : ℕ) (type : ProcType) (t : Session) (made : Bool)
    → (made ≡ true → Asks n type (t, true))
    → (t.is_finished ≡ false)
    → Asks n type (t, made)
Asks-by n type t true asks fresh = asks refl
Asks-by n type t false asks fresh = inl fresh

Reads-by :
    (n : ℕ) (t : Session) (ok : Option Bool)
    → ok ≢ none
    → IsReady t
    → measure t < n
    → Reads n (t, ok)
Reads-by n t none read ready lt = absurd (read refl)
Reads-by n t (some true) read ready lt = (ready, lt)
Reads-by n t (some false) read ready lt = ready.0

-- The result of a reply with links, if they are read.
generated_read :
    (ok empty : Bool) (generated : Option Bool)
    → generated ≢ none
    → (if ok then (if empty then some true else generated) else some false) ≢ none
generated_read true true generated read = λ e. absurd cc
generated_read true false generated read = read
generated_read false empty generated read = λ e. absurd cc

-- The url generation and the tracing leave the chain alone.
pub make_request-url :
    (a : Answer) (s : Session)
    → IsReady s
    → Asks (suc (measure s)) generate_url (make_request a generate_url s)
unfolding make_request proc_response
make_request-url a s ready =
    Asks-by (suc (measure s)) generate_url s _
      (λ made. (
        record {
          back_ready = ready;
          reads = λ r read.
              Reads-by (flight_measure generate_url s) s _
                (generated_read r.status_ok (is_empty r.body) r.generated read.generated_read) ready
                (ground arith);
        },
        ground arith,
      ))
      ready.0

pub proc_response-trace :
    (r : Reply) (s : Session)
    → IsRead r
    → IsReady s
    → Reads (flight_measure trace_space s) (proc_response r trace_space s)
unfolding proc_response
proc_response-trace r s read ready = elim (Bool-cases r.status_ok) [
  | inr bad ↦ rw (proc_response, bad) (ready.0)
  | inl good ↦ elim (Option-cases r.traced) [
    | inl threw ↦ absurd (read.traced_read threw)
    | inr (none, refused) ↦ rw (proc_response, good) (rw refused (ready.0))
    | inr (some url, traced) ↦ rw (proc_response, good) (rw traced (ready, ground arith))
  ]
]

pub make_request-trace :
    (a : Answer) (s : Session)
    → IsReady s
    → Asks (suc (measure s)) trace_space (make_request a trace_space s)
unfolding make_request
make_request-trace a s ready = elim (Bool-cases (length s.images == 0)) [
  | inl missing ↦ rw (make_request, missing) (inr (final-IsEnded download_error s (inl ready.0)))
  | inr some_image ↦
      rw (make_request, some_image)
        (
          record { back_ready = ready; reads = λ r read. proc_response-trace r s read ready },
          ground arith,
        )
]

-- A url that is read is one less to read, until it is given back.
pub get_next_url-left :
    (c : Cursor)
    → is_empty (get_next_url c).0 ≡ false
    → (suc (left_urls (get_next_url c).1) ≤ left_urls (retreat_url (get_next_url c).1))
      × (left_urls (retreat_url (get_next_url c).1) ≤ left_urls c)
unfolding get_next_url retreat_url
get_next_url-left c h = ground (arith, h)

pub keep_image_lem :
    (n : ℕ) (r : Reply) (s : Session)
    → IsReady s
    → measure s < n
    → IsReady (keep_image r s) × (measure (keep_image r s) < n)
unfolding keep_image
keep_image_lem n r s ready lt = elim (Bool-cases (is_empty r.body)) [
  | inl empty ↦ rw (keep_image, empty) (ready, lt)
  | inr full ↦ rw (keep_image, full) (ready, lt)
]

pub proc_response-download :
    (n : ℕ) (r : Reply) (s : Session)
    → IsReady s
    → suc (measure s) < n
    → Reads n (proc_response r download_image s)
unfolding proc_response
proc_response-download n r s ready lt =
    let kept = keep_image_lem (n - 1) r s ready (omega (arith, lt)) in
    elim (Bool-cases r.status_ok) [
      | inr bad ↦ rw (proc_response, bad) (ready.0)
      | inl good ↦ elim (Bool-cases (has_next_url s.cursor)) [
        | inl has_more ↦ rw (proc_response, good) (rw has_more (kept.0, ground (arith, kept.1)))
        | inr last ↦ rw (proc_response, good) (rw last (kept.0, ground (arith, kept.1)))
      ]
    ]

pub asked_url : Session → Session
asked_url s = record s {
  current_download_url = (get_next_url s.cursor).0;
  cursor = (get_next_url s.cursor).1;
}

pub asked_url-Asks :
    (s : Session)
    → IsReady s
    → is_empty (get_next_url s.cursor).0 ≡ false
    → Asks (suc (measure s)) download_image (asked_url s, true)
unfolding asked_url
asked_url-Asks s ready h =
    let left = get_next_url-left s.cursor h in
    (
      record {
        back_ready = ready;
        reads = λ r read.
            proc_response-download (flight_measure download_image (asked_url s)) r (asked_url s)
              ready (omega (arith, left.0));
      },
      omega (arith, left.1),
    )

pub make_request-download :
    (a : Answer) (s : Session)
    → IsReady s
    → Asks (suc (measure s)) download_image (make_request a download_image s)
unfolding make_request asked_url
make_request-download a s ready = elim (Bool-cases (length s.cursor.urls == 0)) [
  | inl missing ↦ rw (make_request, missing) (inl ready.0)
  | inr some_url ↦ elim (Bool-cases (is_empty (get_next_url s.cursor).0)) [
    | inl empty ↦ rw (make_request, some_url) (rw empty (inl ready.0))
    | inr full ↦
        rw (make_request, some_url)
          (rw full (
            Asks-by (suc (measure s)) download_image (asked_url s) _
              (λ made. asked_url-Asks s ready full) ready.0))
  ]
]
