-- ===== src/Workflow/Tests.antt =====
-- A capture from Kafka with two pictures, of which the first is downloaded at the second try.
use business.Base.{
  ◌≢◌, subst, some-injective, ◌≡◌, refl, false, ℕ, ◌+◌, true, false, List, [], ◌∷◌, Option, none,
  some, length,
}
use business.Base.Int.{pos}
use business.Base.Text.{Text, codes}
use business.Consumer.Partition.{doing}
use business.Workflow.Success.{IsHonest, run-init-IsHonest}
use business.Handler.Url.{split_url}
use business.Workflow.{
  trace_space, success, make_process_chain, get_next_url, retreat_url, has_next_url, final, Session,
  capture_data, init,
}
use business.Workflow.Modules.{Answer, Reply, crash, proc_response, respond, run}
use business.Workflow.Termination.Step.{IsRead, IsClean}
use business.Workflow.Termination.{Stops, retries, run-init-Stops}

abbrev reply : Reply
reply = record { status_ok = true; body = 1 ∷ []; traced = some (some []); generated = some true }

abbrev answer : Option Reply → Answer
answer r = record {
  path = true;
  reply = r;
  outputs = some (true ∷ []);
  replayed = false;
  wait = some false;
  saved = true;
  plugin = some true;
}

-- The first download fails on the network.
abbrev answers : ℕ → Answer
answers ℕ.zero = answer (some reply)
answers (ℕ.suc ℕ.zero) = answer none
answers i = answer (some reply)

abbrev pictures : List Text
pictures = codes "s3/b/1.jpg" ∷ codes "s3/b/2.jpg" ∷ []

abbrev session : Session
session = init none capture_data pictures (pos 1) (some doing)

answer-IsClean : (o : Option Reply) → ((r : Reply) → o ≡ some r → IsRead r) → IsClean (answer o)
answer-IsClean o read = record { reply_read = read; wait_read = λ e. absurd cc }

reply_IsRead : (r : Reply) → some reply ≡ some r → IsRead r
reply_IsRead r e =
    subst IsRead (some-injective e)
      (record { traced_read = λ e. absurd cc; generated_read = λ e. absurd cc })

answers-IsClean : (k : ℕ) → IsClean (answers k)
answers-IsClean ℕ.zero = answer-IsClean (some reply) reply_IsRead
answers-IsClean (ℕ.suc ℕ.zero) = answer-IsClean none (λ r e. absurd cc)
answers-IsClean (ℕ.suc (ℕ.suc k)) = answer-IsClean (some reply) reply_IsRead

-- A tracing result at which jsoncpp throws ends the process.
thrown_at : (respond (proc_response (record reply { traced = none }) trace_space session)).1 ≡ crash
unfolding proc_response respond
thrown_at = refl

run-init-Stops_example : Stops (run answers 0 (8 + retries none + length pictures) session)
run-init-Stops_example =
    run-init-Stops answers none capture_data pictures (pos 1) (some doing) answers-IsClean
      (λ null. absurd cc)

never_waits : (k : ℕ) → (answers k).wait ≢ some true
never_waits ℕ.zero = λ e. absurd cc
never_waits (ℕ.suc ℕ.zero) = λ e. absurd cc
never_waits (ℕ.suc (ℕ.suc k)) = λ e. absurd cc

run-init-IsHonest_example : IsHonest (run answers 0 20 session).0
run-init-IsHonest_example =
    run-init-IsHonest answers 20 none capture_data pictures (pos 1) (some doing) never_waits

-- The session of the test does end in success.
ends_in_success : (run answers 0 20 session).0.ended ≡ some success
unfolding run init make_process_chain get_next_url codes split_url retreat_url has_next_url final
ends_in_success = refl
