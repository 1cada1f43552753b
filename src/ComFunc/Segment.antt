-- ===== src/ComFunc/Segment.antt =====
-- `getsplitstr` of src/common/com_func.cpp.
mod Tests
use business.Base.{
  ℕ, suc, ◌+◌, ◌≡◌, ◌≢◌, refl, ap, Bool, true, false, ◌⊎◌, inl, inr, List, [], ◌∷◌, ◌++◌, Option,
  none, some, arith, ◌==◌, drop, All, if◌then◌else◌, Option-cases,
}
use business.Base.Text.{Text, is_empty}

-- `str.find_last_of(c)`
unfoldable pub find_last_of : ℕ → Text → Option ℕ
find_last_of c [] = none
find_last_of c (x ∷ xs) = elim (find_last_of c xs) [
  | some i ↦ some (suc i)
  | none ↦ if x == c then some 0 else none
]

-- `str.substr(pos)` for a position inside the string
abbrev pub substr : Text → ℕ → Text
substr s pos = drop pos s

unfoldable pub getsplitstr : Text → Text
unfolding find_last_of
getsplitstr str =
    if is_empty str
    then str
    else elim (find_last_of b'/' str) [ some index ↦ substr str (suc index) | none ↦ str ]

abbrev pub IsFree : ℕ → Text → Type 0
IsFree c = All (λ x. (x == c) ≡ false)

find_last_of-none : (c : ℕ) (s : Text) → find_last_of c s ≡ none → IsFree c s
unfolding find_last_of
find_last_of-none c [] h = tt
find_last_of-none c (x ∷ s) h = elim (Option-cases (find_last_of c s)) [
  | inl later ↦ (ground (arith, h, later), find_last_of-none c s later)
  | inr (i, later) ↦ absurd (ground (arith, h, later))
]

find_last_of-here :
    (c x : ℕ) (s : Text) (i : ℕ)
    → find_last_of c s ≡ none
    → find_last_of c (x ∷ s) ≡ some i
    → (x ≡ c) × (i ≡ 0)
unfolding find_last_of
find_last_of-here c x s i later h = ground (arith, h, later)

find_last_of-later :
    (c x : ℕ) (s : Text) (i j : ℕ)
    → find_last_of c s ≡ some j
    → find_last_of c (x ∷ s) ≡ some i
    → i ≡ suc j
unfolding find_last_of
find_last_of-later c x s i j later h = ground (arith, h, later)

find_last_of-some :
    (c : ℕ) (s : Text) (i : ℕ)
    → find_last_of c s ≡ some i
    → ((front : Text) × (s ≡ front ++ c ∷ drop (suc i) s)) × IsFree c (drop (suc i) s)
find_last_of-some c [] i h = absurd (unfold find_last_of in cc)
find_last_of-some c (x ∷ s) i h = elim (Option-cases (find_last_of c s)) [
  | inl later ↦
      let (same, at) = find_last_of-here c x s i later h in
      rw at (rw same (([], refl), find_last_of-none c s later))
  | inr (j, later) ↦
      let ((front, back), free) = find_last_of-some c s j later in
      rw (find_last_of-later c x s i j later h) ((x ∷ front, ap (λ t. x ∷ t) back), free)
]

-- `getsplitstr` returns the part after the last slash: it has no slash, and the string is it, or it
-- behind a front that ends with a slash.
pub getsplitstr-last :
    (str : Text)
    → IsFree b'/' (getsplitstr str)
      × ((str ≡ getsplitstr str) ⊎ ((front : Text) × (str ≡ front ++ b'/' ∷ getsplitstr str)))
unfolding getsplitstr
getsplitstr-last [] = (tt, inl refl)
getsplitstr-last (x ∷ s) = elim (Option-cases (find_last_of b'/' (x ∷ s))) [
  | inl found ↦ rw found (find_last_of-none b'/' (x ∷ s) found, inl refl)
  | inr (i, found) ↦
      rw found (let (back, free) = find_last_of-some b'/' (x ∷ s) i found in (free, inr back))
]
