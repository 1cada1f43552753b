-- ===== src/Workflow/Save/Collection.antt =====
-- What `SaveBusinessMongo` uses of a Mongo collection, and the documented laws.
use business.Base.{◌≡◌, ◌⊎◌, Bool, true, false, not, List, none, some, All}
use business.Base.Int.{ℤ, eq_ℤ}
use business.Base.Text.{Text, text_eq}
use business.Base.Dict.{Dict, lookup, text_eq_laws}

-- The values that are written, and the conditions on a field: equal to a text or a number, or `$ne`.
pub data Field (Double : Type 0) : Type 0 where
  text : Text → Field Double
  int : ℤ → Field Double
  double : Double → Field Double
  texts : List Text → Field Double

pub data Cond : Type 0 where
  is_text : Text → Cond
  is_int : ℤ → Cond
  is_not : ℤ → Cond

abbrev pub Filter : Type 0
Filter = Dict Text Cond

abbrev pub Document : Type 0 → Type 0
Document Double = Dict Text (Field Double)

-- `has` is `find_one` that finds a document; `update_one` is a call with `upsert` and `$set`.
pub record Mongo (Double : Type 0) : Type 1 where
  pub State : Type 0
  pub has : Text → Filter → State → Bool
  pub update_one : Text → Filter → Document Double → State → State

abbrev pub meets : {Double : Type 0} → Field Double → Cond → Bool
meets (text t) (is_text u) = text_eq t u
meets (int n) (is_int m) = eq_ℤ n m
meets (int n) (is_not m) = not (eq_ℤ n m)
meets (text t) (is_not m) = true
meets (double r) (is_not m) = true
meets (texts l) (is_not m) = true
meets _ _ = false

-- A condition on a field that is written so that it holds, or that is not written.
abbrev pub Sets : {Double : Type 0} → Document Double → Text × Cond → Type 0
Sets {Double} D (k, c) = (v : Field Double) × (lookup k D ≡ some v) × (meets v c ≡ true)

abbrev pub IsKept : {Double : Type 0} → Document Double → Text × Cond → Type 0
IsKept D (k, c) = (lookup k D ≡ none) ⊎ Sets D (k, c)

abbrev pub contradicts : Cond → Cond → Bool
contradicts (is_text t) (is_text u) = not (text_eq t u)
contradicts (is_int n) (is_int m) = not (eq_ℤ n m)
contradicts _ _ = false

-- Filters that no document meets both.
pub record Disagree (F G : Filter) : Type 0 where
  pub field : Text
  pub one : Cond
  pub other : Cond
  pub in_one : lookup field F ≡ some one
  pub in_other : lookup field G ≡ some other
  pub differ : contradicts one other ≡ true

-- After a write there is a document with the fields that were written; and a document that a filter finds
-- is found by it as before if the write keeps what the filter asks for, or goes to other documents.
pub record IsMongo {Double : Type 0} (M : Mongo Double) : Type 0 where
  pub has_set :
      (c : Text) (F G : Filter) (D : Document Double) (st : M.State)
      → All (Sets D) G
      → M.has c G (M.update_one c F D st) ≡ true
  pub has_kept :
      (c d : Text) (F G : Filter) (D : Document Double) (st : M.State)
      → All (IsKept D) G ⊎ Disagree F G
      → M.has d G st ≡ true
      → M.has d G (M.update_one c F D st) ≡ true
