-- ===== src/Consumer/Process/Fleet/Views.antt =====
-- Each partition of the fleet runs as it would on its own.
use business.Base.{
  ℕ, ◌≡◌, refl, ap, ◌∙◌, Bool, List, [], ◌∷◌, Option, none, some, arith, if◌then◌else◌, Bool-cases,
  Option-cases, inl, inr,
}
use business.Base.Int.{ℤ, eq_ℤ}
use business.Base.Text.{Text}
use business.Base.Dict.{int_eq, int_sound, lookup, lookup-assign, lookup-assign_ne}
use business.Consumer.Partition.{Message}
use business.Consumer.Partition.System.{System}
use business.Consumer.Process.{deliver}
use business.Consumer.Process.Fleet.{
  FleetEvent, receive, finish_in, look_in, act_in, Fleet, step_in, receive_as, fleet_step,
  fleet_run, moved, view_received, view, view_all,
}
use business.Json.{JsonLib, get_or_else}

-- The two ways to change an entry, seen from one key.
lookup-step_in :
    (move : System → System) (q p : ℤ) (f : Fleet)
    → lookup p (step_in move q f) ≡ (if eq_ℤ q p then moved move (lookup p f) else lookup p f)
unfolding step_in
lookup-step_in move q p f = elim (Bool-cases (eq_ℤ q p)) [
  | inl same ↦
      rw (same, int_sound q p same)
        (elim (Option-cases (lookup p f)) [
          | inl e ↦ ground (arith, e)
          | inr (y, e) ↦ ground (arith, e, lookup-assign p (move y) f)
        ])
  | inr other ↦ rw other (elim (Option-cases (lookup q f)) [
    | inl e ↦ ground (arith, e)
    | inr (y, e) ↦ ground (arith, e, lookup-assign_ne q p (move y) f other)
  ])
]

lookup-deliver :
    (put : System → System) (new : System) (q p : ℤ) (f : Fleet)
    → lookup p (deliver put new q f)
      ≡ (if eq_ℤ q p then some (put (get_or_else (lookup p f) new)) else lookup p f)
unfolding deliver
lookup-deliver put new q p f = elim (Bool-cases (eq_ℤ q p)) [
  | inl same ↦
      rw (same, int_sound q p same)
        (elim (Option-cases (lookup p f)) [
          | inl e ↦ ground (arith, e, lookup-assign p (put new) f)
          | inr (y, e) ↦ ground (arith, e, lookup-assign p (put y) f)
        ])
  | inr other ↦ rw other (elim (Option-cases (lookup q f)) [
    | inl e ↦ ground (arith, e, lookup-assign_ne q p (put new) f other)
    | inr (y, e) ↦ ground (arith, e, lookup-assign_ne q p (put y) f other)
  ])
]

module _ (J : JsonLib) (reader_parse : Text → Option (J.Value)) (accepts : Text → Bool)
    (commit_num : ℤ) where
  lookup-receive_as :
      (p : ℤ) (o : Option Text) (now : ℕ) (msg : Message) (f : Fleet)
      → lookup p (receive_as J reader_parse accepts commit_num o now msg f)
        ≡ view_received J reader_parse accepts commit_num p (lookup p f) o now msg
  unfolding receive_as view_received
  lookup-receive_as p none now msg f = refl
  lookup-receive_as p (some id) now msg f = lookup-deliver _ _ msg.partition p f

  lookup-fleet_step :
      (p : ℤ) (f : Fleet) (e : FleetEvent)
      → lookup p (fleet_step J reader_parse accepts commit_num f e)
        ≡ view J reader_parse accepts commit_num p (lookup p f) e
  unfolding fleet_step view
  lookup-fleet_step p f (receive now msg) = lookup-receive_as p _ now msg f
  lookup-fleet_step p f (finish_in q i) = lookup-step_in _ q p f
  lookup-fleet_step p f (look_in q now meddling) = lookup-step_in _ q p f
  lookup-fleet_step p f (act_in q) = lookup-step_in _ q p f

  -- However the partitions' events are interleaved, each partition ends as it would on its own, with
  -- the events of the others left out.
  pub lookup-fleet_run :
      (p : ℤ) (f : Fleet) (es : List FleetEvent)
      → lookup p (fleet_run J reader_parse accepts commit_num f es)
        ≡ view_all J reader_parse accepts commit_num p (lookup p f) es
  unfolding fleet_run view_all
  lookup-fleet_run p f [] = refl
  lookup-fleet_run p f (e ∷ es) =
      lookup-fleet_run p (fleet_step J reader_parse accepts commit_num f e) es
      ∙ ap (λ o. view_all J reader_parse accepts commit_num p o es) (lookup-fleet_step p f e)
