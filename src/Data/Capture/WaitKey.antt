-- ===== src/Data/Capture/WaitKey.antt =====
-- The key at which a capture and an event wait for each other.
use business.Base.{
  ◌≡◌, refl, ◌∙◌, true, false, List, [], ◌∷◌, All, arith, ◌⊎◌, inl, inr, Bool-cases,
}
use business.Base.Text.{Text, text_lt, is_empty}
use business.ComFunc.Segment.{getsplitstr}
use business.Data.Capture.{keep_max, pic_wait_key_from, pic_wait_key}

text_lt_trans : (a b c : Text) → text_lt a b ≡ true → text_lt b c ≡ true → text_lt a c ≡ true
unfolding text_lt
text_lt_trans a [] c h k = absurd (ground (arith, h))
text_lt_trans a (y ∷ ys) [] h k = absurd cc
text_lt_trans [] (y ∷ ys) (z ∷ zs) h k = refl
text_lt_trans (x ∷ xs) (y ∷ ys) (z ∷ zs) h k = ground (arith, h, k, text_lt_trans xs ys zs)

text_lt_irrefl : (a : Text) → text_lt a a ≡ false
unfolding text_lt
text_lt_irrefl [] = refl
text_lt_irrefl (x ∷ xs) = ground (arith, text_lt_irrefl xs)

-- Not below in the order of `operator<`.
abbrev pub IsAtLeast : Text → Text → Type 0
IsAtLeast a b = text_lt a b ≡ false

IsAtLeast-more : (a b c : Text) → text_lt a b ≡ true → IsAtLeast a c → IsAtLeast b c
IsAtLeast-more a b c h k = elim (Bool-cases (text_lt b c)) [
  | inl lt ↦ absurd (ground (arith, k, text_lt_trans a b c h lt))
  | inr ge ↦ ge
]

IsAtLeast-empty : (m x : Text) → is_empty m ≡ true → IsAtLeast m x → (b : Text) → IsAtLeast b x
unfolding text_lt
IsAtLeast-empty [] [] h k b = refl
IsAtLeast-empty [] (y ∷ x) h k b = absurd cc
IsAtLeast-empty (z ∷ m) x h k b = absurd cc

keep_max-IsAtLeast : (m url x : Text) → IsAtLeast m x → IsAtLeast (keep_max m url) x
unfolding keep_max
keep_max-IsAtLeast m url x h = elim (Bool-cases (is_empty m)) [
  | inl empty ↦ rw (keep_max, empty) (IsAtLeast-empty m x empty h (getsplitstr url))
  | inr full ↦ elim (Bool-cases (text_lt m (getsplitstr url))) [
    | inl less ↦ rw (keep_max, full) (rw less (IsAtLeast-more m (getsplitstr url) x less h))
    | inr not_less ↦ rw (keep_max, full) (rw not_less h)
  ]
]

keep_max-new : (m url : Text) → IsAtLeast (keep_max m url) (getsplitstr url)
unfolding keep_max
keep_max-new m url = elim (Bool-cases (is_empty m)) [
  | inl empty ↦ rw (keep_max, empty) (text_lt_irrefl (getsplitstr url))
  | inr full ↦ elim (Bool-cases (text_lt m (getsplitstr url))) [
    | inl less ↦ rw (keep_max, full) (rw less (text_lt_irrefl (getsplitstr url)))
    | inr not_less ↦ rw (keep_max, full) (rw not_less not_less)
  ]
]

pic_wait_key_from-IsAtLeast :
    (m : Text) (urls : List Text) (x : Text)
    → IsAtLeast m x
    → IsAtLeast (pic_wait_key_from m urls) x
unfolding pic_wait_key_from
pic_wait_key_from-IsAtLeast m [] x h = h
pic_wait_key_from-IsAtLeast m (url ∷ urls) x h =
    pic_wait_key_from-IsAtLeast (keep_max m url) urls x (keep_max-IsAtLeast m url x h)

pic_wait_key_from-All :
    (m : Text) (urls : List Text)
    → All (λ url. IsAtLeast (pic_wait_key_from m urls) (getsplitstr url)) urls
unfolding pic_wait_key_from
pic_wait_key_from-All m [] = tt
pic_wait_key_from-All m (url ∷ urls) = (
  pic_wait_key_from-IsAtLeast (keep_max m url) urls (getsplitstr url) (keep_max-new m url),
  pic_wait_key_from-All (keep_max m url) urls,
)

-- A text that is the last segment of one of the urls.
abbrev pub IsSegment : Text → List Text → Type 0
IsSegment key [] = ⊥
IsSegment key (url ∷ urls) = (key ≡ getsplitstr url) ⊎ IsSegment key urls

keep_max-either : (m url : Text) → (keep_max m url ≡ m) ⊎ (keep_max m url ≡ getsplitstr url)
unfolding keep_max
keep_max-either m url =
    ground (arith, Bool-cases (is_empty m), Bool-cases (text_lt m (getsplitstr url)))

pic_wait_key_from-IsSegment :
    (m : Text) (urls : List Text)
    → (pic_wait_key_from m urls ≡ m) ⊎ IsSegment (pic_wait_key_from m urls) urls
unfolding pic_wait_key_from
pic_wait_key_from-IsSegment m [] = inl refl
pic_wait_key_from-IsSegment m (url ∷ urls) =
    elim (pic_wait_key_from-IsSegment (keep_max m url) urls) [
      | inr later ↦ inr (inr later)
      | inl kept ↦ elim (keep_max-either m url) [
        | inl same ↦ inl (kept ∙ same)
        | inr new ↦ inr (inl (kept ∙ new))
      ]
    ]

-- The key is the last segment of one of the urls, or empty, and no url has a last segment above it
-- in the order of strings, whatever the order of the urls is.
pub pic_wait_key-IsAtLeast :
    (urls : List Text)
    → ((pic_wait_key urls ≡ []) ⊎ IsSegment (pic_wait_key urls) urls)
      × All (λ url. IsAtLeast (pic_wait_key urls) (getsplitstr url)) urls
unfolding pic_wait_key
pic_wait_key-IsAtLeast urls = (pic_wait_key_from-IsSegment [] urls, pic_wait_key_from-All [] urls)
