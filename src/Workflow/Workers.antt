-- ===== src/Workflow/Workers.antt =====
-- include/package/workflow/worker.hpp with src/package/workflow/http_module_wrapper.cpp: the bounded queue of
-- sessions, the worker threads that take a session from it and process it, and the threads of the io service,
-- which take the replies over HTTP. A step over HTTP leaves its request on its way and its worker free.
-- A thread that waits on a condition variable is one whose step is not possible yet: `waits`.
pub mod Fifo
mod Begin
pub mod Load
mod Acts
mod Threads
pub mod Drain
mod Tests
use business.Base.{
  ℕ, zero, suc, Bool, true, false, ◌+◌, ◌-◌, ◌^◌, List, [], ◌∷◌, ◌++◌, Option, none, some, length,
  ltb, if◌then◌else◌,
}
use business.Base.Int.{ℤ, pos, negsuc}
use business.Workflow.{
  ProcType, download_image, generate_url, trace_space, proc_terminate, Session, final,
  next_processor,
}
use business.Workflow.Modules.{Answer, Next, stop, push, crash, make_request, send, process_by}

-- `FIFOBuffer`
pub record Buffer {ℓ} (A : Type ℓ) : Type ℓ where
  pub max_size_ : ℤ
  pub data_ : List A

-- The `int` bound as the `size_t` that it is compared as.
abbrev pub as_size : ℤ → ℕ
as_size (pos n) = n
as_size (negsuc n) = 2 ^ 64 - 1 - n

module _ {ℓ} {A : Type ℓ} where
  unfoldable pub put : A → Buffer A → Option (Buffer A)
  put new_value b =
      if ltb (length b.data_) (as_size b.max_size_)
      then some (record b { data_ = b.data_ ++ new_value ∷ [] })
      else none

  unfoldable pub front : List A → Buffer A → Option (A × Buffer A)
  front [] b = none
  front (temp ∷ rest) b = some (temp, record b { data_ = rest })

  unfoldable pub get : Buffer A → Option (A × Buffer A)
  unfolding front
  get b = front b.data_ b

-- A request over HTTP on its way: the module that asked, and the session.
pub record Flight : Type 0 where
  pub type : ProcType
  pub session : Session

-- What a step comes to on the worker's thread: an end, or a request on its way.
pub data Begun : Type 0 where
  landed : Session × Next → Begun
  asking : ProcType → Session → Begun

-- `HTTPModuleWrapper::Process`
unfoldable pub sent : ProcType → Session × Bool → Begun
sent type (asked, true) = asking type asked
sent type (asked, false) = landed (final proc_terminate asked, stop)

unfoldable pub begin_by : Answer → ProcType → Session → Begun
unfolding make_request sent process_by
begin_by a download_image s = sent download_image (make_request a download_image s)
begin_by a trace_space s = sent trace_space (make_request a trace_space s)
begin_by a generate_url s = sent generate_url (make_request a generate_url s)
begin_by a type s = landed (process_by a type s)

-- `Session::Process`, up to the request over HTTP
unfoldable pub begin : Answer → Session → Begun
unfolding begin_by next_processor
begin a s = let (type, rest) = next_processor s in begin_by a type rest

-- What the threads share.
pub record Shared : Type 0 where
  pub queue : Buffer Session
  pub in_flight : List Flight

-- The queue, the requests on their way, and what each worker and each thread of the io service holds
-- before `PushMsg` returns.
pub record Pool : Type 0 where
  pub shared : Shared
  pub workers : List (Option Session)
  pub io_threads : List (Option Session)

-- A call that has to wait, one that ends the process, and one that is done.
pub data Tried {ℓ} (A : Type ℓ) : Type ℓ where
  waits gone : Tried A
  went : A → Tried A

-- The reader of Kafka, or a thread for a message from redis, pushes a new session.
unfoldable pub submit : Session → Pool → Tried Pool
unfolding put
submit s p = elim (put s p.shared.queue) [
  | none ↦ waits
  | some b ↦ went (record p { shared = record p.shared { queue = b } })
]

pub data Move : Type 0 where
  -- a worker gets a session and processes it, with what the services answer
  take_next : ℕ → Answer → Move
  -- a worker pushes the session that it processed
  give_back : ℕ → Move
  -- a thread of the io service gets the reply, or the error, of the request at a place
  answered : ℕ → ℕ → Answer → Move
  -- a thread of the io service pushes the session of the reply
  hand_on : ℕ → Move

-- The thread after a step: it is left with a session to push, or with nothing.
abbrev pub land : Session × Next → Shared → Tried (Option Session × Shared)
land (s, push) x = went (some s, x)
land (s, stop) x = went (none, x)
land (s, crash) x = gone

abbrev pub take_off : Begun → Shared → Tried (Option Session × Shared)
take_off (landed r) x = land r x
take_off (asking type asked) x =
    went
      (none, record x { in_flight = x.in_flight ++ (record { type = type; session = asked }) ∷ [] })

-- The loop of a worker up to `Process`.
unfoldable pub take_session : Answer → Option Session → Shared → Tried (Option Session × Shared)
unfolding get begin
take_session a (some s) x = waits
take_session a none x = elim (get x.queue) [
  | none ↦ waits
  | some (s, b) ↦ take_off (begin a s) (record x { queue = b })
]

-- `PushMsg`
unfoldable pub give_session : Option Session → Shared → Tried (Option Session × Shared)
unfolding put
give_session none x = waits
give_session (some s) x = elim (put s x.queue) [
  | none ↦ waits
  | some b ↦ went (none, record x { queue = b })
]

-- The element at a place, with those that are left.
unfoldable pub pick : ℕ → List Flight → Option (Flight × List Flight)
pick k [] = none
pick zero (f ∷ fs) = some (f, fs)
pick (suc k) (f ∷ fs) = elim (pick k fs) [ none ↦ none | some (g, rest) ↦ some (g, f ∷ rest) ]

-- The callback of `SendRequest`
unfoldable pub take_reply : ℕ → Answer → Option Session → Shared → Tried (Option Session × Shared)
unfolding pick send
take_reply k a (some s) x = waits
take_reply k a none x = elim (pick k x.in_flight) [
  | none ↦ waits
  | some (f, rest) ↦ land (send a f.type (f.session, true)) (record x { in_flight = rest })
]

-- The same of the thread at a place of the list.
unfoldable pub at_thread :
    (Option Session → Shared → Tried (Option Session × Shared))
    → ℕ
    → List (Option Session)
    → Shared
    → Tried (List (Option Session) × Shared)
at_thread act i [] x = waits
at_thread act zero (w ∷ ws) x = elim (act w x) [
  | waits ↦ waits
  | gone ↦ gone
  | went (w', x') ↦ went (w' ∷ ws, x')
]
at_thread act (suc i) (w ∷ ws) x = elim (at_thread act i ws x) [
  | waits ↦ waits
  | gone ↦ gone
  | went (ws', x') ↦ went (w ∷ ws', x')
]

abbrev pub by_worker : Pool → Tried (List (Option Session) × Shared) → Tried Pool
by_worker p waits = waits
by_worker p gone = gone
by_worker p (went (ws, x)) = went (record p { shared = x; workers = ws })

abbrev pub by_io : Pool → Tried (List (Option Session) × Shared) → Tried Pool
by_io p waits = waits
by_io p gone = gone
by_io p (went (ws, x)) = went (record p { shared = x; io_threads = ws })

unfoldable pub move : Move → Pool → Tried Pool
unfolding at_thread take_session give_session take_reply
move (take_next i a) p = by_worker p (at_thread (take_session a) i p.workers p.shared)
move (give_back i) p = by_worker p (at_thread give_session i p.workers p.shared)
move (answered j k a) p = by_io p (at_thread (take_reply k a) j p.io_threads p.shared)
move (hand_on j) p = by_io p (at_thread give_session j p.io_threads p.shared)

-- Moves of the threads one after the other, each of which must be possible.
unfoldable pub moves : List Move → Pool → Tried Pool
unfolding move
moves [] p = went p
moves (m ∷ ms) p = elim (move m p) [ waits ↦ waits | gone ↦ gone | went q ↦ moves ms q ]
