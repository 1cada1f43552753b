-- ===== src/Workflow/Workers/Threads.antt =====
-- What a call of one thread does to all threads of its kind.
use business.Base.{
  ℕ, zero, suc, ◌+◌, ◌≤◌, ◌<◌, ◌≡◌, ◌≢◌, inl, inr, refl, ap, List, [], ◌∷◌, ◌++◌, Option, none,
  some, arith, length, All, ◌⊎◌, lt→ltb,
}
use business.Json.Laws.{OnSome}
use business.Workflow.{Session}
use business.Workflow.Termination.Step.{IsReady}
use business.Workflow.Workers.{
  as_size, put, Shared, Tried, waits, gone, went, give_session, at_thread,
}
use business.Workflow.Workers.Load.{
  threads_load, shared_load, all_held, shared_alive, AllReady, OnWorks, Acts,
}

pub record AllWork (ws : List (Option Session)) (x : Shared) (ws' : List (Option Session))
    (x' : Shared) : Type 0 where
  pub all_ready : All (OnSome IsReady) ws'
  pub rest_ready : AllReady x'
  pub less : threads_load ws' + shared_load x' < threads_load ws + shared_load x
  pub no_more : all_held ws' + shared_alive x' ≤ all_held ws + shared_alive x
  pub bound : x'.queue.max_size_ ≡ x.queue.max_size_
  pub same_threads : length ws' ≡ length ws

abbrev pub OnAllWork :
    List (Option Session) → Shared → Tried (List (Option Session) × Shared) → Type 0
OnAllWork ws x waits = Unit
OnAllWork ws x gone = ⊥
OnAllWork ws x (went (ws', x')) = AllWork ws x ws' x'

abbrev at_head :
    List (Option Session) → Tried (Option Session × Shared) → Tried (List (Option Session) × Shared)
at_head ws waits = waits
at_head ws gone = gone
at_head ws (went (w', x')) = went (w' ∷ ws, x')

abbrev in_tail :
    Option Session → Tried (List (Option Session) × Shared) → Tried (List (Option Session) × Shared)
in_tail w waits = waits
in_tail w gone = gone
in_tail w (went (ws', x')) = went (w ∷ ws', x')

at_head-AllWork :
    (w : Option Session) (ws : List (Option Session)) (x : Shared)
    (o : Tried (Option Session × Shared))
    → All (OnSome IsReady) ws
    → OnWorks w x o
    → OnAllWork (w ∷ ws) x (at_head ws o)
unfolding threads_load all_held
at_head-AllWork w ws x waits all h = tt
at_head-AllWork w ws x gone all h = absurd h
at_head-AllWork w ws x (went (w', x')) all h = record {
  all_ready = (h.ready, all);
  rest_ready = h.rest_ready;
  less = omega (arith, h.less);
  no_more = omega (arith, h.no_more);
  bound = h.bound;
  same_threads = refl;
}

in_tail-AllWork :
    (w : Option Session) (ws : List (Option Session)) (x : Shared)
    (o : Tried (List (Option Session) × Shared))
    → OnSome IsReady w
    → OnAllWork ws x o
    → OnAllWork (w ∷ ws) x (in_tail w o)
unfolding threads_load all_held
in_tail-AllWork w ws x waits one h = tt
in_tail-AllWork w ws x gone one h = absurd h
in_tail-AllWork w ws x (went (ws', x')) one h = record {
  all_ready = (one, h.all_ready);
  rest_ready = h.rest_ready;
  less = omega (arith, h.less);
  no_more = omega (arith, h.no_more);
  bound = h.bound;
  same_threads = ap suc h.same_threads;
}

pub at_thread-AllWork :
    (act : Option Session → Shared → Tried (Option Session × Shared))
    → Acts act
    → (i : ℕ) (ws : List (Option Session)) (x : Shared) → All (OnSome IsReady) ws
    → AllReady x
    → OnAllWork ws x (at_thread act i ws x)
unfolding at_thread
at_thread-AllWork act acts i [] x all ready = tt
at_thread-AllWork act acts zero (w ∷ ws) x all ready =
    at_head-AllWork w ws x (act w x) all.1 (acts w x all.0 ready)
at_thread-AllWork act acts (suc i) (w ∷ ws) x all ready =
    in_tail-AllWork w ws x (at_thread act i ws x) all.0
      (at_thread-AllWork act acts i ws x all.1 ready)

abbrev pub CanAct : Tried (List (Option Session) × Shared) → Type 0
CanAct o = (r : List (Option Session) × Shared) × (o ≡ went r)

at_head-CanAct :
    (w : Option Session) (ws : List (Option Session)) (x : Shared)
    (o : Tried (Option Session × Shared))
    → o ≢ waits
    → OnWorks w x o
    → CanAct (at_head ws o)
at_head-CanAct w ws x waits can h = absurd (can refl)
at_head-CanAct w ws x gone can h = absurd h
at_head-CanAct w ws x (went (w', x')) can h = ((w' ∷ ws, x'), refl)

in_tail-CanAct :
    (w : Option Session) (o : Tried (List (Option Session) × Shared))
    → CanAct o
    → CanAct (in_tail w o)
in_tail-CanAct w o ((ws, x), e) = ((w ∷ ws, x), ap (in_tail w) e)

-- A thread at the head that need not wait can act.
pub first-CanAct :
    (act : Option Session → Shared → Tried (Option Session × Shared))
    → Acts act
    → (ws : List (Option Session)) (x : Shared) → All (OnSome IsReady) ws
    → AllReady x
    → 0 < length ws
    → all_held ws ≡ 0
    → act none x ≢ waits
    → CanAct (at_thread act 0 ws x)
unfolding at_thread all_held
first-CanAct act acts [] x all ready many idle can = absurd (omega (arith, many))
first-CanAct act acts (some s ∷ ws) x all ready many idle can = absurd (omega (arith, idle))
first-CanAct act acts (none ∷ ws) x all ready many idle can =
    at_head-CanAct none ws x (act none x) can (acts none x all.0 ready)

-- With room in the queue, a thread that holds a session can push it.
pub holder_gives :
    (ws : List (Option Session)) (x : Shared)
    → length x.queue.data_ < as_size x.queue.max_size_
    → (all_held ws ≡ 0) ⊎ ((i : ℕ) × CanAct (at_thread give_session i ws x))
unfolding at_thread give_session put all_held
holder_gives [] x room = inl refl
holder_gives (some s ∷ ws) x room = inr (
  0,
  (
    (none ∷ ws, record x { queue = record x.queue { data_ = x.queue.data_ ++ s ∷ [] } }),
    ground (arith, lt→ltb (length x.queue.data_) (as_size x.queue.max_size_) room),
  ),
)
holder_gives (none ∷ ws) x room = elim (holder_gives ws x room) [
  | inl e ↦ inl (omega (arith, e))
  | inr (i, r) ↦ inr (suc i, in_tail-CanAct none (at_thread give_session i ws x) r)
]
