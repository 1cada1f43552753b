-- ===== src/Workflow/Workers/Load.antt =====
-- What the threads have left to do, and what a call of a thread does to it.
use business.Base.{ℕ, ◌+◌, ◌*◌, ◌≤◌, ◌<◌, ◌≡◌, List, [], ◌∷◌, Option, none, some, length, All}
use business.Json.Laws.{OnSome}
use business.Workflow.{Session}
use business.Workflow.Termination.Step.{measure, IsReady}
use business.Workflow.Termination.Http.{IsFlying, flight_measure}
use business.Workflow.Workers.{as_size, Flight, Shared, Tried, waits, gone, went, Pool}

-- What the sessions can still cost: a step, a reply and a push for each unit of their measure.
unfoldable pub queue_load : List Session → ℕ
queue_load [] = 0
queue_load (s ∷ ss) = 3 * measure s + 2 + queue_load ss

abbrev pub flight_load : Flight → ℕ
flight_load f = 3 * flight_measure f.type f.session + 1

unfoldable pub flights_load : List Flight → ℕ
flights_load [] = 0
flights_load (f ∷ fs) = flight_load f + flights_load fs

abbrev pub thread_load : Option Session → ℕ
thread_load none = 0
thread_load (some s) = 3 * measure s + 3

unfoldable pub threads_load : List (Option Session) → ℕ
threads_load [] = 0
threads_load (w ∷ ws) = thread_load w + threads_load ws

unfoldable pub shared_load : Shared → ℕ
unfolding queue_load flights_load
shared_load x = flights_load x.in_flight + queue_load x.queue.data_

abbrev pub one_held : Option Session → ℕ
one_held none = 0
one_held (some s) = 1

unfoldable pub all_held : List (Option Session) → ℕ
all_held [] = 0
all_held (w ∷ ws) = one_held w + all_held ws

abbrev pub shared_alive : Shared → ℕ
shared_alive x = length x.in_flight + length x.queue.data_

unfoldable pub load : Pool → ℕ
unfolding shared_load threads_load
load p = threads_load p.workers + threads_load p.io_threads + shared_load p.shared

-- The sessions that are in the queue, on their way or with a thread.
unfoldable pub alive : Pool → ℕ
unfolding all_held
alive p = all_held p.workers + all_held p.io_threads + shared_alive p.shared

abbrev pub FliesWell : Flight → Type 0
FliesWell f = IsFlying f.type f.session

pub record AllReady (x : Shared) : Type 0 where
  pub queue_ready : All IsReady x.queue.data_
  pub flights_ready : All FliesWell x.in_flight

pub record IsSteady (p : Pool) : Type 0 where
  pub shared_ready : AllReady p.shared
  pub workers_ready : All (OnSome IsReady) p.workers
  pub io_ready : All (OnSome IsReady) p.io_threads
  pub some_worker : 0 < length p.workers
  pub some_io : 0 < length p.io_threads
  pub fits : alive p ≤ as_size p.shared.queue.max_size_

-- What a call of a thread does to what it holds and to what is shared.
pub record Works (w : Option Session) (x : Shared) (w' : Option Session) (x' : Shared)
    : Type 0 where
  pub ready : OnSome IsReady w'
  pub rest_ready : AllReady x'
  pub less : thread_load w' + shared_load x' < thread_load w + shared_load x
  pub no_more : one_held w' + shared_alive x' ≤ one_held w + shared_alive x
  pub bound : x'.queue.max_size_ ≡ x.queue.max_size_

abbrev pub OnWorks : Option Session → Shared → Tried (Option Session × Shared) → Type 0
OnWorks w x waits = Unit
OnWorks w x gone = ⊥
OnWorks w x (went (w', x')) = Works w x w' x'

abbrev pub Acts : (Option Session → Shared → Tried (Option Session × Shared)) → Type 0
Acts act = (w : Option Session) (x : Shared) → OnSome IsReady w → AllReady x → OnWorks w x (act w x)
