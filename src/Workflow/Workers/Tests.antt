-- ===== src/Workflow/Workers/Tests.antt =====
-- The queue and a pool on small inputs, among them a pool that blocks for ever.
use business.Base.{◌+◌, ℕ, ◌≡◌, refl, true, false, List, [], ◌∷◌, none, some}
use business.Base.Int.{pos}
use business.Base.Text.{codes}
use business.Consumer.Partition.{doing}
use business.Workflow.{
  Session, download_image, business_data, capture_data, init, make_process_chain, final,
}
use business.Workflow.Modules.{Answer, process_by}
use business.Workflow.Workers.{
  put, get, begin, take_reply, Pool, Tried, waits, gone, went, Move, take_next, give_back, answered,
  submit, move, moves, at_thread,
}
use business.Workflow.Workers.Fifo.{
  Call, put_call, get_call, IsFifo, calls, empty, calls-empty-IsFifo,
}
use business.Workflow.Workers.Load.{alive, all_held}

abbrev some_calls : List (Call ℕ)
some_calls = get_call ∷ put_call 1 ∷ put_call 2 ∷ put_call 3 ∷ get_call ∷ []

calls-empty-IsFifo_example : IsFifo (pos 2) (calls some_calls (empty (pos 2)))
calls-empty-IsFifo_example = calls-empty-IsFifo (pos 2) some_calls

-- The third number finds the queue full, and waits.
third_waits : (calls some_calls (empty (pos 2))).buffer.data_ ≡ 2 ∷ []
unfolding calls put get
third_waits = refl

abbrev answer : Answer
answer = record {
  path = true;
  reply = none;
  outputs = some (true ∷ []);
  replayed = false;
  wait = some false;
  saved = true;
  plugin = some true;
}

abbrev two_steps : Session
two_steps = init none (business_data (pos 1)) [] (pos 1) (some doing)

abbrev pool : ℕ → Pool
pool n = record {
  shared = record { queue = record { max_size_ = pos n; data_ = two_steps ∷ [] }; in_flight = [] };
  workers = none ∷ [];
  io_threads = none ∷ [];
}

abbrev turns : List Move
turns = take_next 0 answer ∷ give_back 0 ∷ take_next 0 answer ∷ []

abbrev from : Tried Pool → Pool
from waits = pool 1
from gone = pool 1
from (went p) = p

-- The turns are possible, and end the session.
all_ended : alive (from (moves turns (pool 1))) ≡ 0
unfolding alive all_held moves move process_by begin init make_process_chain final put get at_thread
all_ended = refl

-- The request of a session leaves the worker free for the next one; its error comes on the other thread.
abbrev downloading : Session
downloading = record (init none capture_data (codes "s3/b/a.jpg" ∷ []) (pos 1) (some doing)) {
  proc_chain = download_image ∷ [];
}

abbrev two_sessions : Pool
two_sessions = record (pool 2) {
  shared = record (pool 2).shared {
    queue = record { max_size_ = pos 2; data_ = downloading ∷ two_steps ∷ [] };
  };
}

abbrev in_between : Pool
in_between =
    from (moves (take_next 0 answer ∷ take_next 0 answer ∷ answered 0 0 answer ∷ []) two_sessions)

both_hold : all_held in_between.workers + all_held in_between.io_threads ≡ 2
unfolding all_held moves move begin init make_process_chain final put get at_thread codes
    business.Handler.Url.split_url business.Workflow.get_next_url take_reply
both_hold = refl

-- One thread of each kind, a queue for one: the worker takes the first session, the reader pushes a second,
-- and the worker cannot give the first back.
abbrev blocked : Pool
blocked = from (submit two_steps (from (moves (take_next 0 answer ∷ []) (pool 1))))

worker_stuck : move (give_back 0) blocked ≡ waits
unfolding submit moves move process_by begin init make_process_chain final put get at_thread
worker_stuck = refl

takes_nothing : move (take_next 0 answer) blocked ≡ waits
unfolding submit moves move process_by begin init make_process_chain final put get at_thread
takes_nothing = refl

nothing_enters : submit two_steps blocked ≡ waits
unfolding submit moves move process_by begin init make_process_chain final put get at_thread
nothing_enters = refl
