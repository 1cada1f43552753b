-- ===== src/Handler/Url.antt =====
-- How `makeDownloadRequest` and `makeGenerateUrlRequest` of src/handler/pre_handler_http_request.cpp,
-- and `GetGenerateUrlData` of the data classes in src/data, take an image url apart.
pub mod Parts
mod Tests
use business.Base.{
  ℕ, suc, ◌+◌, ◌-◌, ◌<◌, ◌≡◌, ◌≢◌, ◌↔◌, refl, sym, ap, ◌∙◌, Bool, true, false, List, [], ◌∷◌, ◌++◌,
  Option, none, some, arith, ◌==◌, ltb, drop, take, length, length-append, if◌then◌else◌,
  Option-cases, Bool-cases, ◌⊎◌, inl, inr, ==_iff,
}
use business.Base.Text.{Text, is_empty}
use business.ComFunc.Segment.{IsFree}

-- `s.find(c, 0)`
unfoldable pub find_first : ℕ → Text → Option ℕ
find_first c [] = none
find_first c (x ∷ xs) =
    let later : Option ℕ = elim (find_first c xs) [ some i ↦ some (suc i) | none ↦ none ] in
    if x == c then some 0 else later

-- `s.find(c, pos)`
unfoldable pub find : ℕ → Text → ℕ → Option ℕ
unfolding find_first
find c s pos = elim (find_first c (drop pos s)) [ some i ↦ some (pos + i) | none ↦ none ]

-- `s.substr(pos, len)`
abbrev pub substr : Text → ℕ → ℕ → Text
substr s pos len = take len (drop pos s)

-- The endpoint, the bucket and the key; `none` is the early `return false`.
unfoldable pub split_url : Text → Option (Text × Text × Text)
unfolding find
split_url uri = elim (find b'/' uri 0) [
  | none ↦ none
  | some endpoint ↦ elim (find b'/' uri (suc endpoint)) [
    | none ↦ none
    | some bucket ↦
        if ltb (suc bucket) (length uri)
        then some (
          substr uri 0 endpoint,
          substr uri (suc endpoint) (bucket - endpoint - 1),
          drop (suc bucket) uri,
        )
        else none
  ]
]
