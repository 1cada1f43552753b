-- ===== src/Handler/Url/Parts.antt =====
-- An image url and its three parts.
use business.Base.{
  ℕ, suc, ◌+◌, ◌-◌, ◌≡◌, ◌↔◌, refl, sym, ap, ◌∙◌, false, [], ◌∷◌, ◌++◌, none, some, arith, ◌==◌,
  drop, take, length, length-append, if◌then◌else◌, Option-cases, Bool-cases, ◌⊎◌, inl, inr,
}
use business.Base.Text.{Text, is_empty}
use business.ComFunc.Segment.{IsFree}
use business.Handler.Url.{find_first, find, substr, split_url}

-- The first slash of a text that is put together around it, and the parts of a text that has one.
find_first-front : (c : ℕ) (e s : Text) → IsFree c e → find_first c (e ++ c ∷ s) ≡ some (length e)
unfolding find_first
find_first-front c [] s free = ground arith
find_first-front c (x ∷ e) s (hx, free) = ground (arith, hx, find_first-front c e s free)

drop-front : (e s : Text) → drop (length e) (e ++ s) ≡ s
drop-front [] s = refl
drop-front (x ∷ e) s = drop-front e s

take-front : (e s : Text) → take (length e) (e ++ s) ≡ e
take-front [] s = refl
take-front (x ∷ e) s = ap (λ t. x ∷ t) (take-front e s)

find_first-none : (c : ℕ) (s : Text) → find_first c s ≡ none → IsFree c s
unfolding find_first
find_first-none c [] h = tt
find_first-none c (x ∷ s) h = elim (Option-cases (find_first c s)) [
  | inl later ↦ (ground (arith, h, later), find_first-none c s later)
  | inr (i, later) ↦ absurd (ground (arith, h, later))
]

-- Where the first `c` can be, and what an index in the rest says.
find_first-cons :
    (c x : ℕ) (s : Text) (i : ℕ)
    → find_first c (x ∷ s) ≡ some i
    → ((x ≡ c) × (i ≡ 0))
      ⊎ (((x == c) ≡ false) × ((j : ℕ) × (find_first c s ≡ some j) × (i ≡ suc j)))
unfolding find_first
find_first-cons c x s i h = elim (Option-cases (find_first c s)) [
  | inl later ↦ inl (ground (arith, h, later))
  | inr (j, later) ↦ elim (Bool-cases (x == c)) [
    | inl same ↦ inl (ground (arith, h, same, later))
    | inr other ↦ inr (other, (j, later, ground (arith, h, other, later)))
  ]
]

find_first-some :
    (c : ℕ) (s : Text) (i : ℕ)
    → find_first c s ≡ some i
    → IsFree c (take i s) × (s ≡ take i s ++ c ∷ drop (suc i) s)
find_first-some c [] i h = absurd (unfold find_first in cc)
find_first-some c (x ∷ s) i h = elim (find_first-cons c x s i h) [
  | inl (same, at) ↦ rw at (rw same (tt, refl))
  | inr (other, (j, later, at)) ↦
      let (free, back) = find_first-some c s j later in rw at ((other, free), ap (λ t. x ∷ t) back)
]

drop-past : (e : Text) (c : ℕ) (s : Text) → drop (suc (length e)) (e ++ c ∷ s) ≡ s
drop-past [] c s = refl
drop-past (x ∷ e) c s = drop-past e c s

drop-nil : (i : ℕ) → drop {A = ℕ} i [] ≡ []
drop-nil ℕ.zero = refl
drop-nil (suc i) = refl

drop-drop : (i j : ℕ) (s : Text) → drop (j + i) s ≡ drop i (drop j s)
drop-drop i ℕ.zero s = ap (λ n. drop n s) (omega arith)
drop-drop i (suc j) [] = drop-nil (suc j + i) ∙ sym (drop-nil i)
drop-drop i (suc j) (x ∷ s) =
    let same : suc j + i ≡ suc (j + i) = omega arith in
    ap (λ n. drop n (x ∷ s)) same ∙ drop-drop i j s

abbrev pub join_url : Text → Text → Text → Text
join_url e b k = e ++ b'/' ∷ (b ++ b'/' ∷ k)

find-first : (c : ℕ) (e r : Text) → IsFree c e → find c (e ++ c ∷ r) 0 ≡ some (length e)
unfolding find
find-first c e r he = rw (find, find_first-front c e r he) (ap (λ n. some n) (omega arith))

find-second :
    (c : ℕ) (e b k : Text)
    → IsFree c b
    → find c (e ++ c ∷ (b ++ c ∷ k)) (suc (length e)) ≡ some (suc (length e) + length b)
unfolding find
find-second c e b k hb = rw (find, drop-past e c (b ++ c ∷ k)) (rw (find_first-front c b k hb) refl)

length-join_url : (e b k : Text) → length (join_url e b k) ≡ length e + 1 + length b + 1 + length k
length-join_url e b k =
    omega (arith, length-append e (b'/' ∷ (b ++ b'/' ∷ k)), length-append b (b'/' ∷ k))

drop-key : (e b k : Text) → drop (suc (suc (length e) + length b)) (join_url e b k) ≡ k
drop-key e b k =
    let same : suc (suc (length e) + length b) ≡ suc (length e) + suc (length b) = omega arith in
    ap (λ n. drop n (join_url e b k)) same
    ∙ drop-drop (suc (length b)) (suc (length e)) (join_url e b k)
    ∙ ap (drop (suc (length b))) (drop-past e b'/' (b ++ b'/' ∷ k))
    ∙ drop-past b b'/' k

substr-bucket :
    (e b k : Text)
    → substr (join_url e b k) (suc (length e)) (suc (length e) + length b - length e - 1) ≡ b
substr-bucket e b k =
    ap (λ n. take n (drop (suc (length e)) (join_url e b k))) (omega arith)
    ∙ ap (take (length b)) (drop-past e b'/' (b ++ b'/' ∷ k))
    ∙ take-front b (b'/' ∷ k)

split_url-join_url :
    (e b k : Text)
    → IsFree b'/' e
    → IsFree b'/' b
    → split_url (join_url e b k) ≡ (if is_empty k then none else some (e, b, k))
unfolding split_url
split_url-join_url e b [] he hb =
    rw (split_url, find-first b'/' e (b ++ b'/' ∷ []) he)
      (rw (find-second b'/' e b [] hb) (ground (arith, length-join_url e b [])))
split_url-join_url e b (x ∷ k) he hb =
    rw (split_url, find-first b'/' e (b ++ b'/' ∷ x ∷ k) he)
      (rw (find-second b'/' e b (x ∷ k) hb) (
        ground (
          arith,
          length-join_url e b (x ∷ k),
          take-front e (b'/' ∷ (b ++ b'/' ∷ x ∷ k)),
          substr-bucket e b (x ∷ k),
          drop-key e b (x ∷ k),
        )))

-- A url that splits has two slashes, and then it is put together from three parts.
split_url-none : (uri : Text) → find_first b'/' uri ≡ none → split_url uri ≡ none
unfolding split_url find
split_url-none uri h = ground (arith, h)

find-zero : (c : ℕ) (s : Text) → find c s 0 ≡ find_first c s
unfolding find
find-zero c s = ground (arith, Option-cases (find_first c s))

split_url-none_after :
    (uri : Text) (i : ℕ)
    → find_first b'/' uri ≡ some i
    → find_first b'/' (drop (suc i) uri) ≡ none
    → split_url uri ≡ none
unfolding split_url
split_url-none_after uri i h k = rw (split_url, find-zero b'/' uri) (rw h (rw (find, k) refl))

abbrev pub HasParts : Text → Text → Text → Text → Type 0
HasParts uri e b k = IsFree b'/' e × IsFree b'/' b × ((k ≡ []) → ⊥) × (uri ≡ join_url e b k)

split_url-cut :
    (uri e b k e' b' k' : Text)
    → IsFree b'/' e'
    → IsFree b'/' b'
    → uri ≡ join_url e' b' k'
    → split_url uri ≡ some (e, b, k)
    → HasParts uri e b k
split_url-cut uri e b k e' b' [] he hb back h =
    absurd (ground (arith, h, ap split_url back, split_url-join_url e' b' [] he hb))
split_url-cut uri e b k e' b' (x ∷ k') he hb back h =
    let same : (e' ≡ e) × (b' ≡ b) × (x ∷ k' ≡ k) =
      ground (arith, h, ap split_url back, split_url-join_url e' b' (x ∷ k') he hb) in
    rw (sym same.0) (rw (sym same.1) (rw (sym same.2) (he, hb, (λ nil. absurd cc), back)))

split_url-some : (uri e b k : Text) → split_url uri ≡ some (e, b, k) → HasParts uri e b k
split_url-some uri e b k h = elim (Option-cases (find_first b'/' uri)) [
  | inl missing ↦ absurd (ground (arith, h, split_url-none uri missing))
  | inr (i, at) ↦ elim (Option-cases (find_first b'/' (drop (suc i) uri))) [
    | inl missing ↦ absurd (ground (arith, h, split_url-none_after uri i at missing))
    | inr (j, after) ↦
        let (he, back) = find_first-some b'/' uri i at in
        let (hb, rest) = find_first-some b'/' (drop (suc i) uri) j after in
        split_url-cut uri e b k (take i uri) (take j (drop (suc i) uri))
          (drop (suc j) (drop (suc i) uri)) he hb (back ∙ ap (λ t. take i uri ++ b'/' ∷ t) rest) h
  ]
]

split_url-whole : (uri e b k : Text) → HasParts uri e b k → split_url uri ≡ some (e, b, k)
split_url-whole uri e b [] (he, hb, some_key, back) = absurd (some_key refl)
split_url-whole uri e b (x ∷ k) (he, hb, some_key, back) =
    ap split_url back ∙ split_url-join_url e b (x ∷ k) he hb

-- A url is taken apart exactly when it is an endpoint, a bucket and a key with slashes between them,
-- where the first two have no slash and the key is not empty.
pub split_url_iff : (uri e b k : Text) → (split_url uri ≡ some (e, b, k)) ↔ HasParts uri e b k
split_url_iff uri e b k = (split_url-some uri e b k, split_url-whole uri e b k)
