-- ===== src/Workflow/Termination/Step.antt =====
-- What a step must do to a session that is not final: end it, or leave less to do.
use business.Base.{
  ℕ, suc, ◌+◌, ◌-◌, ◌<◌, ◌≡◌, ◌≢◌, Bool, true, false, ◌||◌, List, [], ◌∷◌, none, some, arith,
  length, List-cases, Option-cases, ◌⊎◌, inl, inr,
}
use business.Consumer.Partition.{done}
use business.Workflow.{ProcType, pic_wait, get_plugin, ErrCode, success, Session, Cursor, final}
use business.Workflow.Modules.{Reply, Answer, Next, stop, push, crash, go_on}

-- jsoncpp throws neither at the body of the reply nor at what the picture wait reads, which has its client.
pub record IsRead (r : Reply) : Type 0 where
  pub traced_read : r.traced ≢ none
  pub generated_read : r.generated ≢ none

pub record IsClean (a : Answer) : Type 0 where
  pub reply_read : (r : Reply) → a.reply ≡ some r → IsRead r
  pub wait_read : a.wait ≢ none

-- What a step can still cost: the plugin step may add an output.
abbrev pub more : ProcType → ℕ → ℕ
more get_plugin n = suc (suc n)
more _ n = suc n

abbrev pub weights : List ProcType → ℕ
weights [] = 0
weights (type ∷ chain) = more type (weights chain)

abbrev pub left_urls : Cursor → ℕ
left_urls c = length c.urls - c.url_index

abbrev pub measure : Session → ℕ
measure s = weights s.proc_chain + s.http_retry_time + left_urls s.cursor

-- Ended, with the message's state done.
abbrev pub IsEnded : Session → Type 0
IsEnded s = (s.is_finished ≡ true) × ((s.node ≡ none) ⊎ (s.node ≡ some done))

-- A session that is not final; if it has no message, no step will wait for one.
abbrev pub is_wait : ProcType → Bool
is_wait pic_wait = true
is_wait _ = false

abbrev pub waits : List ProcType → Bool
waits [] = false
waits (type ∷ chain) = is_wait type || waits chain

abbrev pub IsReady : Session → Type 0
IsReady s = (s.is_finished ≡ false) × ((s.node ≡ none) → waits s.proc_chain ≡ false)

-- What one step does to a ready session: it ends, or it goes on, ready, with less to do.
abbrev pub Progress : ℕ → Session × Next → Type 0
Progress n (t, stop) = IsEnded t
Progress n (t, push) = IsReady t × (measure t < n)
Progress n (t, crash) = ⊥

pub final-IsEnded :
    (err : ErrCode) (s : Session) → (s.is_finished ≡ false) ⊎ IsEnded s → IsEnded (final err s)
unfolding final
final-IsEnded err s (inl fresh) = ground (arith, fresh, Option-cases s.node)
final-IsEnded err s (inr ended) = ground (arith, ended.0, ended.1)

pub go_on-Progress : (n : ℕ) (s : Session) → IsReady s → measure s < n → Progress n (go_on s)
unfolding go_on
go_on-Progress n s ready lt = elim (List-cases s.proc_chain) [
  | inl nil ↦ rw (go_on, nil) (final-IsEnded success s (inl ready.0))
  | inr (type, chain, cons) ↦ rw (go_on, cons) (ready, lt)
]
