-- ===== src/Consumer/Partition/System/Done.antt =====
-- The done prefix under the operations of the partition manager.
use business.Base.{
  ℕ, zero, suc, ◌+◌, ◌≤◌, ◌≡◌, refl, ap, ap₂, Bool, true, List, [], ◌∷◌, ◌++◌, Option, none, some,
  arith, length, take, drop, All,
}
use business.Base.Text.{Text}
use business.Consumer.Partition.{
  Message, done, Node, Meddling, Scan, is_done, complete, visit, scan_from, remove_from_head,
}
use business.Consumer.Partition.Prefix.{as_read, done_prefix, last_done, msgs, msg-complete}
use business.Consumer.Partition.System.{finish_at, or_else}

-- The last of some messages, or `prev` if there is none.
unfoldable pub last_of : Option Message → List Message → Option Message
last_of prev [] = prev
last_of prev (m ∷ ms) = last_of (some m) ms

last_of-some :
    (prev : Option Message) (k : Message) (ks : List Message)
    → last_of (some k) ks ≡ or_else (last_of (some k) ks) prev
unfolding last_of
last_of-some prev k [] = refl
last_of-some prev k (m ∷ ms) = last_of-some prev m ms

pub last_of-append :
    (prev : Option Message) (ms ks : List Message)
    → last_of prev (ms ++ ks) ≡ or_else (last_of none ks) (last_of prev ms)
unfolding last_of
last_of-append prev [] [] = refl
last_of-append prev [] (k ∷ ks) = last_of-some prev k ks
last_of-append prev (m ∷ ms) ks = last_of-append (some m) ms ks

pub last_done-take :
    (prev : Option Message) (ns : List Node)
    → last_done prev ns ≡ last_of prev (take (done_prefix ns) (msgs ns))
unfolding last_done done_prefix last_of
last_done-take prev [] = refl
last_done-take prev (n ∷ ns) = ground (arith, last_done-take (some n.msg) ns)

pub done_prefix-le-length : (ns : List Node) → done_prefix ns ≤ length (msgs ns)
unfolding done_prefix
done_prefix-le-length [] = omega arith
done_prefix-le-length (n ∷ ns) = ground (arith, done_prefix-le-length ns)

pub msgs-as_read :
    (meddling : ℕ → Meddling) (p : ℕ) (ns : List Node) → msgs (as_read meddling p ns) ≡ msgs ns
unfolding as_read
msgs-as_read meddling p [] = refl
msgs-as_read meddling p (n ∷ ns) = ap₂ ◌∷◌ (msg-complete _ n) (msgs-as_read meddling (p + 1) ns)

visit_keeps_done :
    (accepts : Text → Bool) (size now : ℕ) (w : Meddling) (prev : Option Message) (n : Node)
    (s : Scan)
    → is_done (complete w.early n).state ≡ true
    → is_done (visit accepts size now w prev n s).0.state ≡ true
unfolding visit
visit_keeps_done accepts size now w prev n s h = ground arith

pos-visit :
    (accepts : Text → Bool) (size now : ℕ) (w : Meddling) (prev : Option Message) (n : Node)
    (s : Scan)
    → (visit accepts size now w prev n s).1.pos ≡ s.pos + 1
unfolding visit
pos-visit accepts size now w prev n s = refl

-- What the scan read as done is done afterwards.
pub done_prefix-scan_from :
    (accepts : Text → Bool) (size now : ℕ) (meddling : ℕ → Meddling) (p : ℕ) (prev : Option Message)
    (ns : List Node) (s : Scan)
    → s.pos ≡ p
    → done_prefix (as_read meddling p ns)
      ≤ done_prefix (scan_from accepts size now meddling prev ns s).0
unfolding scan_from as_read done_prefix
done_prefix-scan_from accepts size now meddling p prev [] s e = omega arith
done_prefix-scan_from accepts size now meddling p prev (n ∷ ns) s e = ground (
  arith,
  visit_keeps_done accepts size now (meddling s.pos) prev n s,
  ap meddling e,
  pos-visit accepts size now (meddling s.pos) prev n s,
  done_prefix-scan_from accepts size now meddling (p + 1) (some n.msg) ns
      (visit accepts size now (meddling s.pos) prev n s).1,
)

pub done_prefix-finish_at : (i : ℕ) (ns : List Node) → done_prefix ns ≤ done_prefix (finish_at i ns)
unfolding done_prefix finish_at complete
done_prefix-finish_at i [] = omega arith
done_prefix-finish_at zero (n ∷ ns) = ground arith
done_prefix-finish_at (suc i) (n ∷ ns) = ground (arith, done_prefix-finish_at i ns)

pub msgs-finish_at : (i : ℕ) (ns : List Node) → msgs (finish_at i ns) ≡ msgs ns
unfolding finish_at
msgs-finish_at i [] = refl
msgs-finish_at zero (n ∷ ns) = ap (λ m. m ∷ msgs ns) (msg-complete true n)
msgs-finish_at (suc i) (n ∷ ns) = ap (λ ms. n.msg ∷ ms) (msgs-finish_at i ns)

pub done_prefix-append : (ns ks : List Node) → done_prefix ns ≤ done_prefix (ns ++ ks)
unfolding done_prefix
done_prefix-append [] ks = omega arith
done_prefix-append (n ∷ ns) ks = ground (arith, done_prefix-append ns ks)

pub take-append {ℓ} :
    {A : Type ℓ} (k : ℕ) (xs ys : List A) → k ≤ length xs → take k (xs ++ ys) ≡ take k xs
take-append zero xs ys h = refl
take-append (suc k) [] ys h = absurd (omega arith)
take-append (suc k) (x ∷ xs) ys h = ap (λ zs. x ∷ zs) (take-append k xs ys (omega arith))

pub remove_from_head-drop : (k : ℕ) (ns : List Node) → remove_from_head k ns ≡ drop k ns
unfolding remove_from_head
remove_from_head-drop zero ns = refl
remove_from_head-drop (suc k) [] = refl
remove_from_head-drop (suc k) (n ∷ ns) = remove_from_head-drop k ns

abbrev pub IsDone : Node → Type 0
IsDone n = n.state ≡ done

pub take-IsDone : (k : ℕ) (ns : List Node) → k ≤ done_prefix ns → All IsDone (take k ns)
unfolding done_prefix
take-IsDone zero ns h = tt
take-IsDone (suc k) [] h = tt
take-IsDone (suc k) (n ∷ ns) h = ground (arith, take-IsDone k ns)
