-- ===== src/Consumer/Process/Fleet/Routing.antt =====
-- What all partitions together guarantee.
use business.Base.{
  ℕ, ◌≡◌, ◌≢◌, refl, sym, ap, ◌∙◌, Bool, true, false, List, [], ◌∷◌, ◌++◌, Option, none, some,
  if◌then◌else◌, append_assoc, append-nil, subst,
}
use business.Base.Int.{ℤ, eq_ℤ}
use business.Base.Text.{Text}
use business.Base.Dict.{int_eq, lookup}
use business.Consumer.Partition.{Message, Meddling, Scan, make}
use business.Consumer.Partition.System
use business.Consumer.Partition.System.{System, start, step, look_at, act_on}
use business.Consumer.Partition.System.Safety.{IsSafe, step-IsSafe, start-IsSafe, make-empty}
use business.Consumer.Process.{read_id}
use business.Consumer.Process.Fleet.{
  FleetEvent, receive, finish_in, look_in, act_in, fleet_run, moved, view_received, view, view_all,
}
use business.Consumer.Process.Fleet.Views.{lookup-fleet_run}
use business.Json.{JsonLib, get_or_else}

abbrev pub arrived_of : Option System → List Message
arrived_of none = []
arrived_of (some y) = y.arrived

-- Without a manager no message came; a manager is there for at least one message, and is safe.
abbrev pub IsSound : Option System → List Message → Type 0
IsSound none ms = ms ≡ []
IsSound (some y) ms = IsSafe y × (y.arrived ≡ ms) × (ms ≢ [])

abbrev one_routed : ℤ → Option Text → Message → List Message
one_routed p none msg = []
one_routed p (some id) msg = if eq_ℤ msg.partition p then msg ∷ [] else []

not_nil : (ms : List Message) (msg : Message) → (ms ++ msg ∷ []) ≢ []
not_nil [] msg e = absurd cc
not_nil (m ∷ ms) msg e = absurd cc

IsSound-moved :
    (move : System → System) (o : Option System) (b : Bool) (ms : List Message)
    → ((y : System) → IsSafe y → IsSafe (move y))
    → ((y : System) → (move y).arrived ≡ y.arrived)
    → IsSound o ms
    → IsSound (if b then moved move o else o) (ms ++ [])
IsSound-moved move none true ms safe same h = append-nil ms ∙ h
IsSound-moved move (some y) true ms safe same h = (
  safe y h.0,
  same y ∙ h.1 ∙ sym (append-nil ms),
  subst (λ xs. xs ≢ []) (sym (append-nil ms)) h.2,
)
IsSound-moved move o false ms safe same h = subst (IsSound o) (sym (append-nil ms)) h

module _ (J : JsonLib) (reader_parse : Text → Option (J.Value)) where
  -- The messages for a partition that `process` does not drop, in their order.
  unfoldable pub routed : ℤ → List FleetEvent → List Message
  routed p [] = []
  routed p (receive now msg ∷ es) =
      one_routed p (read_id J reader_parse msg.payload) msg ++ routed p es
  routed p (_ ∷ es) = routed p es

  module _ (accepts : Text → Bool) (commit_num : ℤ) where
    arrived-look :
        (o : Option Scan) (now : ℕ) (meddling : ℕ → Meddling) (y : System)
        → (look_at accepts o now meddling y).arrived ≡ y.arrived
    unfolding look_at
    arrived-look none now meddling y = refl
    arrived-look (some s) now meddling y = refl

    arrived-act : (o : Option Scan) (y : System) → (act_on o y).arrived ≡ y.arrived
    unfolding act_on
    arrived-act none y = refl
    arrived-act (some s) y = refl

    IsSound-arrive :
        (b : Bool) (now : ℕ) (id : Text) (msg : Message) (o : Option System) (ms : List Message)
        → IsSound o ms
        → IsSound
            (if b
              then some (
                  step accepts (get_or_else o (start (make commit_num))) (System.arrive now id msg))
              else o)
            (ms ++ (if b then msg ∷ [] else []))
    unfolding step start
    IsSound-arrive false now id msg o ms h = subst (IsSound o) (sym (append-nil ms)) h
    IsSound-arrive true now id msg none ms h = (
      step-IsSafe accepts _ (System.arrive now id msg)
          (start-IsSafe (make commit_num) (make-empty commit_num)),
      ap (λ xs. xs ++ msg ∷ []) (sym h),
      not_nil ms msg,
    )
    IsSound-arrive true now id msg (some y) ms h = (
      step-IsSafe accepts y (System.arrive now id msg) h.0,
      ap (λ xs. xs ++ msg ∷ []) h.1,
      not_nil ms msg,
    )

    IsSound-received :
        (p : ℤ) (r : Option Text) (now : ℕ) (msg : Message) (o : Option System) (ms : List Message)
        → IsSound o ms
        → IsSound
            (view_received J reader_parse accepts commit_num p o r now msg)
            (ms ++ one_routed p r msg)
    unfolding view_received
    IsSound-received p none now msg o ms h = subst (IsSound o) (sym (append-nil ms)) h
    IsSound-received p (some id) now msg o ms h =
        IsSound-arrive (eq_ℤ msg.partition p) now id msg o ms h

    IsSound-view :
        (p : ℤ) (e : FleetEvent) (es : List FleetEvent) (o : Option System) (ms : List Message)
        → IsSound o ms
        → (added : List Message) × (routed p (e ∷ es) ≡ added ++ routed p es)
          × IsSound (view J reader_parse accepts commit_num p o e) (ms ++ added)
    unfolding view routed step
    IsSound-view p (receive now msg) es o ms h = (_, refl, IsSound-received p _ now msg o ms h)
    IsSound-view p (finish_in q i) es o ms h = (
      [],
      refl,
      IsSound-moved _ o (eq_ℤ q p) ms (λ y. step-IsSafe accepts y (System.finish i)) (λ y. refl) h,
    )
    IsSound-view p (look_in q now meddling) es o ms h = (
      [],
      refl,
      IsSound-moved _ o (eq_ℤ q p) ms (λ y. step-IsSafe accepts y (System.look now meddling))
          (λ y. arrived-look y.scanned now meddling y) h,
    )
    IsSound-view p (act_in q) es o ms h = (
      [],
      refl,
      IsSound-moved _ o (eq_ℤ q p) ms (λ y. step-IsSafe accepts y System.act)
          (λ y. arrived-act y.scanned y) h,
    )

    IsSound-view_all :
        (p : ℤ) (es : List FleetEvent) (o : Option System) (ms : List Message)
        → IsSound o ms
        → IsSound (view_all J reader_parse accepts commit_num p o es) (ms ++ routed p es)
    unfolding view_all routed
    IsSound-view_all p [] o ms h = subst (IsSound o) (sym (append-nil ms)) h
    IsSound-view_all p (e ∷ es) o ms h =
        let (added, split, sound) = IsSound-view p e es o ms h in
        subst (IsSound _) (append_assoc ms added (routed p es) ∙ ap (λ xs. ms ++ xs) (sym split))
          (IsSound-view_all p es (view J reader_parse accepts commit_num p o e) (ms ++ added) sound)

-- From no partition at all, however messages of all partitions arrive, sessions end and the tasks of
-- `Run` take their steps: a partition has a manager exactly if a message for it was read; the manager
-- got exactly the partition's messages, in their order and none of another's; and it is safe, so that
-- it loses none of them and commits none that is not done.
pub fleet_run-IsSound :
    (J : JsonLib) (reader_parse : Text → Option (J.Value)) (accepts : Text → Bool) (commit_num : ℤ)
    (p : ℤ) (es : List FleetEvent)
    → IsSound
        (lookup p (fleet_run J reader_parse accepts commit_num [] es))
        (routed J reader_parse p es)
unfolding lookup
fleet_run-IsSound J reader_parse accepts commit_num p es =
    subst (λ o. IsSound o (routed J reader_parse p es))
      (sym (lookup-fleet_run J reader_parse accepts commit_num p [] es))
      (IsSound-view_all J reader_parse accepts commit_num p es none [] refl)
