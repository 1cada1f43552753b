-- ===== src/Consumer/Partition/Prefix.antt =====
-- What the scan of `do_something` finds: the longest prefix of done messages.
use native.Mathlib.Nat.{zero-add}
use business.Base.{
  ap, sym, ◌&&◌, ap₂, inl, inr, length, ◌==◌, Bool-cases, ℕ, suc, ◌+◌, ◌<◌, ◌≡◌, ◌∙◌, refl, ap,
  Bool, true, false, ◌&&◌, List, [], ◌∷◌, Option, none, some, arith, length, map, ◌==◌,
  if◌then◌else◌, Bool-cases,
}
use business.Base.Text.{Text}
use business.Consumer.Partition.{
  Message, Node, is_done, PartitionManager, complete, Meddling, Scan, new_scan, visit, scan_from,
  scan,
}

-- The nodes as the scan reads them: some of those being handled may have been ended meanwhile.
unfoldable pub as_read : (ℕ → Meddling) → ℕ → List Node → List Node
as_read meddling p [] = []
as_read meddling p (n ∷ ns) = complete (meddling p).early n ∷ as_read meddling (p + 1) ns

-- How many nodes at the head are done.
unfoldable pub done_prefix : List Node → ℕ
done_prefix [] = 0
done_prefix (n ∷ ns) = let rest = done_prefix ns in if is_done n.state then suc rest else 0

-- The message of the last of them, or `prev` if there is none.
unfoldable pub last_done : Option Message → List Node → Option Message
last_done prev [] = prev
last_done prev (n ∷ ns) =
    let rest = last_done (some n.msg) ns in if is_done n.state then rest else prev

abbrev pub is_cons : List Node → Bool
is_cons [] = false
is_cons (n ∷ ns) = true

abbrev pub msgs : List Node → List Message
msgs = map (λ n. n.msg)

pub msg-complete : (b : Bool) (n : Node) → (complete b n).msg ≡ n.msg
unfolding complete
msg-complete b n = ground arith

module _ (accepts : Text → Bool) (size now : ℕ) (meddling : ℕ → Meddling) where
  pub msg-visit :
      (w : Meddling) (prev : Option Message) (n : Node) (s : Scan)
      → (visit accepts size now w prev n s).0.msg ≡ n.msg
  unfolding visit
  msg-visit w prev n s = ground arith

  -- Once the search is over its result stays.
  settled-visit :
      (w : Meddling) (prev : Option Message) (n : Node) (s : Scan)
      → s.is_first ≡ false
      → let t = (visit accepts size now w prev n s).1 in
        (t.is_first ≡ false)
        × (t.first_not_done_pos ≡ s.first_not_done_pos)
        × (t.kmsg ≡ s.kmsg)
        × (t.force_commit ≡ s.force_commit)
  unfolding visit
  settled-visit w prev n s h = ground arith

  settled-scan_from :
      (prev : Option Message) (ns : List Node) (s : Scan)
      → s.is_first ≡ false
      → let t = (scan_from accepts size now meddling prev ns s).1 in
        (t.first_not_done_pos ≡ s.first_not_done_pos)
        × (t.kmsg ≡ s.kmsg)
        × (t.force_commit ≡ s.force_commit)
  unfolding scan_from
  settled-scan_from prev [] s h = (refl, refl, refl)
  settled-scan_from prev (n ∷ ns) s h =
      let v = settled-visit (meddling s.pos) prev n s h in
      let r =
        settled-scan_from (some n.msg) ns (visit accepts size now (meddling s.pos) prev n s).1
          v.0 in
      (r.0 ∙ v.1, r.1 ∙ v.2, r.2 ∙ v.3)

  -- The search has found nothing yet.
  record Searching (s : Scan) : Type 0 where
    open_search : s.is_first ≡ true
    no_pos : s.first_not_done_pos ≡ 0
    no_msg : s.kmsg ≡ none
    no_force : s.force_commit ≡ false

  module _ (w : Meddling) (prev : Option Message) (n : Node) (s : Scan) (h : Searching s) where
    visit_stops :
        is_done (complete w.early n).state ≡ false
        → (s.pos ≡ 0 → prev ≡ none)
        → let t = (visit accepts size now w prev n s).1 in
          (t.is_first ≡ false)
          × (t.first_not_done_pos ≡ s.pos)
          × (t.kmsg ≡ prev)
          × (t.force_commit ≡ false)
    unfolding visit
    visit_stops d e = ground arith

    visit_ends :
        is_done (complete w.early n).state ≡ true
        → s.pos + 1 ≡ size
        → let t = (visit accepts size now w prev n s).1 in
          (t.is_first ≡ false)
          × (t.first_not_done_pos ≡ s.pos + 1)
          × (t.kmsg ≡ some n.msg)
          × (t.force_commit ≡ true)
    unfolding visit
    visit_ends d e = ground arith

    visit_goes_on :
        is_done (complete w.early n).state ≡ true
        → s.pos + 1 < size
        → let t = (visit accepts size now w prev n s).1 in Searching t × (t.pos ≡ s.pos + 1)
    unfolding visit
    visit_goes_on d e = ground arith

  -- The scan finds the longest prefix of messages that it reads as done, the last message of that
  -- prefix, and whether the prefix is the whole list.
  found-scan_from :
      (prev : Option Message) (n : Node) (ns : List Node) (s : Scan)
      → Searching s
      → (s.pos ≡ 0 → prev ≡ none)
      → s.pos + length (n ∷ ns) ≡ size
      → let t = (scan_from accepts size now meddling prev (n ∷ ns) s).1 in
        let read = as_read meddling s.pos (n ∷ ns) in
        (t.first_not_done_pos ≡ s.pos + done_prefix read)
        × (t.kmsg ≡ last_done prev read)
        × (t.force_commit ≡ (done_prefix read == length (n ∷ ns)))
  unfolding scan_from as_read done_prefix last_done
  found-scan_from prev n [] s h e z =
      elim (Bool-cases (is_done (complete (meddling s.pos).early n).state)) [
        | inr waiting ↦ ground (arith, visit_stops (meddling s.pos) prev n s h waiting e)
        | inl over ↦ ground (
          arith,
          visit_ends (meddling s.pos) prev n s h over (omega arith),
          msg-complete (meddling s.pos).early n,
        )
      ]
  found-scan_from prev n (m ∷ ns) s h e z =
      elim (Bool-cases (is_done (complete (meddling s.pos).early n).state)) [
        | inr waiting ↦ ground (
          arith,
          visit_stops (meddling s.pos) prev n s h waiting e,
          settled-scan_from (some n.msg) (m ∷ ns)
              (visit accepts size now (meddling s.pos) prev n s).1,
        )
        | inl over ↦
            let more = visit_goes_on (meddling s.pos) prev n s h over (omega arith) in
            let next = (visit accepts size now (meddling s.pos) prev n s).1 in
            ground (
              arith,
              over,
              more,
              msg-complete (meddling s.pos).early n,
              found-scan_from (some n.msg) m ns next more.0 (λ p. absurd (omega (arith, more.1)))
                  (omega (arith, more)),
            )
      ]

  pub msgs-scan_from :
      (prev : Option Message) (ns : List Node) (s : Scan)
      → msgs (scan_from accepts size now meddling prev ns s).0 ≡ msgs ns
  unfolding scan_from
  msgs-scan_from prev [] s = refl
  msgs-scan_from prev (n ∷ ns) s =
      ap₂ ◌∷◌ (msg-visit (meddling s.pos) prev n s)
        (msgs-scan_from (some n.msg) ns (visit accepts size now (meddling s.pos) prev n s).1)

pub length-as_read :
    (meddling : ℕ → Meddling) (p : ℕ) (ns : List Node) → length (as_read meddling p ns) ≡ length ns
unfolding as_read
length-as_read meddling p [] = refl
length-as_read meddling p (n ∷ ns) = ap suc (length-as_read meddling (p + 1) ns)

-- What the scan reports of the nodes as it reads them.
abbrev pub Reports : Scan → List Node → Type 0
Reports s read =
    (s.first_not_done_pos ≡ done_prefix read)
    × (s.kmsg ≡ last_done none read)
    × (s.force_commit ≡ (is_cons read && (done_prefix read == length read)))

scan_list :
    (accepts : Text → Bool) (now : ℕ) (meddling : ℕ → Meddling) (ns : List Node)
    → Reports
        (scan_from accepts (length ns) now meddling none ns (new_scan (length ns))).1
        (as_read meddling 0 ns)
scan_list accepts now meddling [] =
    unfold scan_from as_read done_prefix last_done in (refl, refl, refl)
scan_list accepts now meddling (n ∷ ns) =
    let start = new_scan (length (n ∷ ns)) in
    let found =
      found-scan_from accepts (length (n ∷ ns)) now meddling none n ns start
        (record { open_search = refl; no_pos = refl; no_msg = refl; no_force = refl }) (λ _. refl)
        (omega arith) in
    (
      found.0 ∙ zero-add _,
      found.1,
      found.2
          ∙ ap (λ k. done_prefix (as_read meddling 0 (n ∷ ns)) == k)
              (sym (length-as_read meddling 0 (n ∷ ns)))
          ∙ unfold as_read in refl,
    )

-- Whatever sessions end while it runs, the scan of `do_something` finds the length of the longest
-- prefix of messages that it reads as done and the last message of that prefix (none for an empty
-- prefix); it forces a commit exactly when the list is not empty and all of it is read as done.
pub scan-done_prefix :
    (accepts : Text → Bool) (now : ℕ) (meddling : ℕ → Meddling) (m : PartitionManager)
    → Reports (scan accepts now meddling m).1 (as_read meddling 0 m.m_list_data)
unfolding scan
scan-done_prefix accepts now meddling m = scan_list accepts now meddling m.m_list_data
