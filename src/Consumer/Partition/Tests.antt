-- ===== src/Consumer/Partition/Tests.antt =====
-- The partition manager on small inputs.
use business.Base.{ℕ, ◌≡◌, refl, Bool, true, false, List, [], ◌∷◌, none, some, arith, take}
use business.Base.Int.{pos}
use business.Base.Text.{Text}
use business.Consumer.Partition.{
  Message, NodeState, todo, doing, done, Node, PartitionManager, Meddling, make, scan, scan_from,
  visit, settle, do_something, is_doing,
}
use business.Consumer.Partition.Prefix.{Reports, as_read, msgs, scan-done_prefix}
use business.Consumer.Partition.Counts.{count, scan-Counted}
use business.Consumer.Partition.Policy.{due, do_something-due}
use business.Consumer.Partition.System.{Event, arrive, finish, look, act, start, run}
use business.Consumer.Partition.System.Done.{last_of}
use business.Consumer.Partition.System.Safety.{IsSafe, run-start-IsSafe}

abbrev message : ℕ → Message
message k = record { partition = pos 0; offset = k; payload = k ∷ [] }

abbrev node : ℕ → NodeState → Node
node k s = record { state = s; stime = 7; msg_id = []; msg = message k }

abbrev quiet : ℕ → Meddling
quiet p = record { early = false; late = false }

-- The second message ends just before it is read.
abbrev busy : ℕ → Meddling
busy ℕ.zero = record { early = false; late = true }
busy (ℕ.suc p) = record { early = true; late = false }

abbrev all_ok : Text → Bool
all_ok payload = true

abbrev cache : PartitionManager
cache = record {
  m_commit_num = 2;
  m_list_data = node 1 done ∷ node 2 doing ∷ node 3 doing ∷ node 4 todo ∷ [];
}

-- Messages 1 to 3 are read as done, which is enough for a commit up to message 3.
commits_three : (do_something all_ok 9 busy cache).1 ≡ some (message 3)
unfolding do_something scan scan_from visit settle
commits_three = refl

waits_for_two : (do_something all_ok 9 quiet cache).1 ≡ none
unfolding do_something scan scan_from visit settle
waits_for_two = refl

abbrev events : List Event
events =
    arrive 1 [] (message 1)
    ∷ arrive 1 [] (message 2)
    ∷ finish 0
    ∷ look 2 quiet
    ∷ arrive 3 [] (message 3)
    ∷ act
    ∷ finish 1
    ∷ look 4 quiet
    ∷ act
    ∷ []

scan-done_prefix_example : Reports (scan all_ok 9 busy cache).1 (as_read busy 0 cache.m_list_data)
scan-done_prefix_example = scan-done_prefix all_ok 9 busy cache

scan-Counted_example :
    (scan all_ok 9 quiet cache).1.status.doing_num
    ≡ count is_doing (scan all_ok 9 quiet cache).0.m_list_data
scan-Counted_example = (scan-Counted all_ok 9 quiet cache (omega arith)).2

do_something-due_example :
    (do_something all_ok 9 busy cache).1
    ≡ last_of none (take (due 2 (as_read busy 0 cache.m_list_data)) (msgs cache.m_list_data))
do_something-due_example = (do_something-due all_ok 9 busy cache).1

run-start-IsSafe_example : IsSafe (run all_ok (start (make (pos 2))) events)
run-start-IsSafe_example = run-start-IsSafe all_ok (pos 2) events
