-- ===== src/Consumer/Partition/System/Safety.antt =====
-- Nothing is committed before it is done, and nothing is lost.
use business.Base.Int.{ℤ, pos, negsuc}
use mathlib.Core.List.{map-append}
use business.Base.{
  subst, ◌⊎◌, inl, inr, Bool-cases, ◌||◌, leb, ℕ, zero, suc, ◌-◌, ◌≤◌, ◌≡◌, refl, ap, ap₂, sym, ◌∙◌,
  Bool, List, [], ◌∷◌, ◌++◌, Option, none, some, arith, length, take, drop, All, All-append,
  append_assoc, append-nil, take-append-drop, map-take, length-drop, length-map,
}
use business.Base.Text.{Text}
use business.Consumer.Partition.{
  make, Message, Node, todo, new_scan, scan_from, PartitionManager, Meddling, Scan, scan, settle,
  emplace_back, process_todo,
}
use business.Consumer.Partition.Prefix.{
  as_read, done_prefix, msgs, msgs-scan_from, scan-done_prefix, Reports,
}
use business.Consumer.Partition.System.{
  System, Event, arrive, finish, look, act, start, act_on, look_at, step, run, finish_at, or_else,
}
use business.Consumer.Partition.System.Done.{
  last_of, last_of-append, last_done-take, done_prefix-le-length, msgs-as_read,
  done_prefix-scan_from, done_prefix-finish_at, msgs-finish_at, done_prefix-append, take-append,
  remove_from_head-drop, IsDone, take-IsDone,
}

-- What the first part of `do_something` found still holds of the cache.
abbrev pub Holds : Scan → List Node → Type 0
Holds s ns =
    (s.first_not_done_pos ≤ done_prefix ns)
    × (s.kmsg ≡ last_of none (take s.first_not_done_pos (msgs ns)))

abbrev Pending : Option Scan → List Node → Type 0
Pending none ns = Unit {0}
Pending (some s) ns = Holds s ns

pub record IsSafe (y : System) : Type 0 where
  pub no_loss : y.arrived ≡ msgs y.removed ++ msgs y.manager.m_list_data
  pub removed_done : All IsDone y.removed
  pub marked : y.committed ≡ last_of none (msgs y.removed)
  pending : Pending y.scanned y.manager.m_list_data

pub make-empty : (n : ℤ) → (make n).m_list_data ≡ []
unfolding make
make-empty (pos zero) = refl
make-empty (pos (suc n)) = refl
make-empty (negsuc n) = refl

pub start-IsSafe : (m : PartitionManager) → m.m_list_data ≡ [] → IsSafe (start m)
unfolding start last_of
start-IsSafe m e = record {
  no_loss = ap msgs (sym e);
  removed_done = tt;
  marked = refl;
  pending = tt;
}

pub scan-Holds :
    (accepts : Text → Bool) (now : ℕ) (meddling : ℕ → Meddling) (m : PartitionManager)
    → let (m', s) = scan accepts now meddling m in
      Holds s m'.m_list_data × (msgs m'.m_list_data ≡ msgs m.m_list_data)
unfolding scan
scan-Holds accepts now meddling m =
    let ns = m.m_list_data in
    let read = as_read meddling 0 ns in
    let after = scan_from accepts (length ns) now meddling none ns (new_scan (length ns)) in
    let kept = msgs-scan_from accepts (length ns) now meddling none ns (new_scan (length ns)) in
    let found : Reports after.1 read = scan-done_prefix accepts now meddling m in
    (
      (
        omega (
          arith,
          found.0,
          done_prefix-scan_from accepts (length ns) now meddling 0 none ns (new_scan (length ns))
              refl,
        ),
        found.1
            ∙ last_done-take none read
            ∙ ap₂ (λ k ms. last_of none (take k ms)) (sym found.0)
                (msgs-as_read meddling 0 ns ∙ sym kept),
      ),
      kept,
    )

Holds-more : (o : Option Scan) (ns ks : List Node) → Pending o ns → Pending o (ns ++ ks)
Holds-more none ns ks h = tt
Holds-more (some s) ns ks h = (
  omega (arith, h.0, done_prefix-append ns ks),
  h.1
      ∙ ap (last_of none) (
          sym (
            ap (take s.first_not_done_pos) (map-append _ _ _)
            ∙ take-append s.first_not_done_pos (msgs ns) (msgs ks)
                (omega (arith, h.0, done_prefix-le-length ns)))),
)

Holds-finish_at :
    (o : Option Scan) (i : ℕ) (ns : List Node) → Pending o ns → Pending o (finish_at i ns)
Holds-finish_at none i ns h = tt
Holds-finish_at (some s) i ns h = (
  omega (arith, h.0, done_prefix-finish_at i ns),
  h.1 ∙ ap (λ ms. last_of none (take s.first_not_done_pos ms)) (sym (msgs-finish_at i ns)),
)

module _ (accepts : Text → Bool) where
  msg-process_todo : (now : ℕ) (n : Node) → (process_todo accepts now n).0.msg ≡ n.msg
  unfolding process_todo
  msg-process_todo now n = ground arith

  arrive-IsSafe :
      (y : System) (now : ℕ) (id : Text) (msg : Message)
      → IsSafe y
      → IsSafe (step accepts y (arrive now id msg))
  unfolding step emplace_back
  arrive-IsSafe y now id msg h =
      let node : Node = record { state = todo; stime = 0; msg_id = id; msg = msg } in
      let last = (process_todo accepts now node).0 ∷ [] in
      record {
        no_loss =
            ap (λ ms. ms ++ msg ∷ []) h.no_loss
            ∙ append_assoc (msgs y.removed) (msgs y.manager.m_list_data) (msg ∷ [])
            ∙ ap (λ ms. msgs y.removed ++ ms)
                (ap (λ k. msgs y.manager.m_list_data ++ k ∷ []) (sym (msg-process_todo now node))
                  ∙ sym (map-append _ _ _));
        removed_done = h.removed_done;
        marked = h.marked;
        pending = Holds-more y.scanned y.manager.m_list_data last h.pending;
      }

  finish-IsSafe : (y : System) (i : ℕ) → IsSafe y → IsSafe (step accepts y (finish i))
  unfolding step
  finish-IsSafe y i h = record {
    no_loss =
        h.no_loss ∙ ap (λ ms. msgs y.removed ++ ms) (sym (msgs-finish_at i y.manager.m_list_data));
    removed_done = h.removed_done;
    marked = h.marked;
    pending = Holds-finish_at y.scanned i y.manager.m_list_data h.pending;
  }

  look-IsSafe :
      (o : Option Scan) (y : System) (now : ℕ) (meddling : ℕ → Meddling)
      → y.scanned ≡ o
      → IsSafe y
      → IsSafe (look_at accepts o now meddling y)
  unfolding look_at
  look-IsSafe (some s) y now meddling e h = h
  look-IsSafe none y now meddling e h =
      let (holds, kept) = scan-Holds accepts now meddling y.manager in
      record {
        no_loss = h.no_loss ∙ ap (λ ms. msgs y.removed ++ ms) (sym kept);
        removed_done = h.removed_done;
        marked = h.marked;
        pending = holds;
      }

-- The two ways `settle` can go.
pub settle_cases :
    (s : Scan) (m : PartitionManager)
    → (((settle s m).0 ≡ record m { m_list_data = drop s.first_not_done_pos m.m_list_data })
        × ((settle s m).1 ≡ s.kmsg))
      ⊎ (((settle s m).0 ≡ m) × ((settle s m).1 ≡ none))
unfolding settle
settle_cases s m = elim (Bool-cases (s.force_commit || leb m.m_commit_num s.first_not_done_pos)) [
  | inl t ↦ inl (ground (arith, t, remove_from_head-drop s.first_not_done_pos m.m_list_data))
  | inr f ↦ inr (ground (arith, f))
]

length-msgs : (ns : List Node) → length (msgs ns) ≡ length ns
length-msgs ns = length-map _ ns

module _ (y : System) (k : ℕ) (h : IsSafe y) (fits : k ≤ done_prefix y.manager.m_list_data) where
  abbrev old : List Node
  old = y.manager.m_list_data

  dropped : take (length old - length (drop k old)) old ≡ take k old
  dropped =
      ap (λ j. take j old)
        (omega (arith, length-drop k old, length-msgs old, done_prefix-le-length old))

  split : msgs (y.removed ++ take k old) ++ msgs (drop k old) ≡ msgs y.removed ++ msgs old
  split =
      ap (λ ms. ms ++ msgs (drop k old)) (map-append _ _ _)
      ∙ append_assoc (msgs y.removed) _ _
      ∙ ap (λ ms. msgs y.removed ++ ms) (sym (map-append _ _ _) ∙ ap msgs (take-append-drop k old))

act-IsSafe : (o : Option Scan) (y : System) → y.scanned ≡ o → IsSafe y → IsSafe (act_on o y)
unfolding act_on
act-IsSafe none y e h = h
act-IsSafe (some s) y e h = elim (settle_cases s y.manager) [
  | inr (m, k) ↦
      rw (m, k)
        (record {
          no_loss =
              h.no_loss
              ∙ ap (λ ns. msgs ns ++ msgs y.manager.m_list_data) (sym (same y.manager.m_list_data));
          removed_done = subst (All IsDone) (sym (same y.manager.m_list_data)) h.removed_done;
          marked = h.marked ∙ ap (λ ns. last_of none (msgs ns)) (sym (same y.manager.m_list_data));
          pending = tt;
        })
  | inl (m, k) ↦
      rw (m, k)
        (rw (dropped y s.first_not_done_pos h (holds.0)) (record {
          no_loss = h.no_loss ∙ sym (split y s.first_not_done_pos h holds.0);
          removed_done =
              All-append IsDone y.removed _ h.removed_done
                (take-IsDone s.first_not_done_pos y.manager.m_list_data holds.0);
          marked =
              ap₂ or_else holds.1 h.marked
              ∙ sym (
                  last_of-append none (msgs y.removed)
                    (take s.first_not_done_pos (msgs y.manager.m_list_data)))
              ∙ ap (λ ms. last_of none (msgs y.removed ++ ms))
                  (map-take _ s.first_not_done_pos y.manager.m_list_data)
              ∙ ap (last_of none) (sym (map-append _ _ _));
          pending = tt;
        }))
]
  where
    holds : Holds s y.manager.m_list_data
    holds = subst (λ o. Pending o y.manager.m_list_data) e h.pending

    same : (ns : List Node) → y.removed ++ take (length ns - length ns) ns ≡ y.removed
    same ns =
        let none_left : length ns - length ns ≡ 0 = omega arith in
        ap (λ j. y.removed ++ take j ns) none_left ∙ append-nil y.removed

module _ (accepts : Text → Bool) where
  pub step-IsSafe : (y : System) (e : Event) → IsSafe y → IsSafe (step accepts y e)
  step-IsSafe y (arrive now id msg) h = arrive-IsSafe accepts y now id msg h
  step-IsSafe y (finish i) h = finish-IsSafe accepts y i h
  step-IsSafe y (look now meddling) h =
      unfold step in look-IsSafe accepts y.scanned y now meddling refl h
  step-IsSafe y act h = unfold step in act-IsSafe y.scanned y refl h

  run-IsSafe : (y : System) (es : List Event) → IsSafe y → IsSafe (run accepts y es)
  unfolding run
  run-IsSafe y [] h = h
  run-IsSafe y (e ∷ es) h = run-IsSafe (step accepts y e) es (step-IsSafe y e h)

-- From an empty cache, whatever messages arrive, whenever their sessions end and however
-- `do_something` is interleaved with both: the messages that arrived are, in their order, those that
-- left the cache and then those in it; all that left it are done; and the last message that was
-- committed is the last that left the cache (none, as long as none left).
pub run-start-IsSafe :
    (accepts : Text → Bool) (commit_num : ℤ) (es : List Event)
    → IsSafe (run accepts (start (make commit_num)) es)
run-start-IsSafe accepts commit_num es =
    run-IsSafe accepts _ es (start-IsSafe (make commit_num) (make-empty commit_num))
