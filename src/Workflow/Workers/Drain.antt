-- ===== src/Workflow/Workers/Drain.antt =====
-- While the sessions that live fit the queue, the threads never block each other, and they end all
-- sessions.
use business.Base.{ℕ, true, false, ◌+◌, ◌≤◌, ◌<◌, ◌≡◌, ◌⊎◌, none, some}
use business.Workflow.Modules.{Answer}
use business.Workflow.Termination.Step.{IsClean}
use business.Workflow.Workers.{
  Pool, Tried, waits, gone, went, Move, take_next, give_back, answered, hand_on, move,
}
use business.Workflow.Workers.Load.{load, alive, IsSteady}

abbrev OnMoved : Pool → Tried Pool → Type 0
OnMoved p waits = Unit
OnMoved p gone = ⊥
OnMoved p (went q) = IsSteady q × (load q < load p)

-- jsoncpp throws at nothing that the move reads.
abbrev pub IsCleanMove : Move → Type 0
IsCleanMove (take_next i a) = IsClean a
IsCleanMove (give_back i) = Unit
IsCleanMove (answered j k a) = IsClean a
IsCleanMove (hand_on j) = Unit

abbrev pub CanMove : Pool → Type 0
CanMove p = (m : Move) × (q : Pool) × (move m p ≡ went q)

-- Services that say nothing.
abbrev quiet : Answer
quiet = record {
  path = true;
  reply = none;
  outputs = none;
  replayed = false;
  wait = some false;
  saved = true;
  plugin = none;
}

-- After some turns that left the process alive: how many they were, and that it is not stuck.
abbrev pub Drains : ℕ → ℕ → Tried Pool → Type 0
Drains steps n waits = Unit
Drains steps n gone = ⊥
Drains steps n (went q) = (steps + load q ≤ n) × ((alive q ≡ 0) ⊎ CanMove q)
