-- ===== src/Redis/Small.antt =====
-- A redis for tests: a map without expiry, which never fails.
use business.Base.{
  ◌≡◌, refl, sym, ap₂, ◌∙◌, ◌⊎◌, inl, inr, Bool, true, false, ◌&&◌, [], Option, none, some,
  if◌then◌else◌, Bool-cases,
}
use business.Base.Int.{pos}
use business.Base.Text.{Text, codes, text_eq, text_eq_refl, text_eq_sound}
use business.Base.Dict.{
  Dict, text_eq_laws, lookup, assign, erase, lookup-assign, lookup-assign_ne, lookup-erase,
  lookup-erase_ne,
}
use business.Redis.{RedisServer, Outcome, null_reply, string_reply, integer_reply}
use business.Redis.Laws.{IsHealthy, reply_of}

abbrev pub Store : Type 0
Store = Dict Text Text

abbrev is_there : Option Text → Bool
is_there none = false
is_there (some t) = true

abbrev has_value : Text → Option Text → Bool
has_value v none = false
has_value v (some t) = text_eq t v

unfoldable pub set_in : Text → Text → Bool → Store → Outcome × Store
set_in k v nx st =
    if nx && is_there (lookup k st)
    then (null_reply, st)
    else (string_reply (codes "OK"), assign k v st)

unfoldable pub unlock_in : Text → Text → Store → Outcome × Store
unlock_in k v st =
    if has_value v (lookup k st)
    then (integer_reply (pos 1), erase k st)
    else (integer_reply (pos 0), st)

abbrev pub small_redis : RedisServer
small_redis = record {
  State = Store;
  get = λ k st. (reply_of (lookup k st), st);
  set_advanced = λ k v ttl nx st. set_in k v nx st;
  eval_unlock = unlock_in;
}

swapped : (j k : Text) → text_eq j k ≡ false → text_eq k j ≡ false
swapped j k e = elim (Bool-cases (text_eq k j)) [
  | inr other ↦ other
  | inl same ↦
      absurd (
        let b = text_eq_sound k j same in clash (sym e ∙ ap₂ text_eq (sym b) refl ∙ text_eq_refl k))
]
  where
    clash : false ≡ true → ⊥
    clash e = absurd cc

set_in_lem :
    (k v : Text) (nx : Bool) (st : Store)
    → (nx ≡ false) ⊎ (lookup k st ≡ none)
    → set_in k v nx st ≡ (string_reply (codes "OK"), assign k v st)
unfolding set_in
set_in_lem k v nx st (inl e) = rw e refl
set_in_lem k v true st (inr e) = rw e refl
set_in_lem k v false st (inr e) = refl

set_in_keeps :
    (j k v : Text) (nx : Bool) (st : Store)
    → text_eq j k ≡ false
    → lookup j (set_in k v nx st).1 ≡ lookup j st
unfolding set_in
set_in_keeps j k v nx st e = elim (Bool-cases (nx && is_there (lookup k st))) [
  | inl t ↦ rw t refl
  | inr f ↦ rw f (lookup-assign_ne k j v st (swapped j k e))
]

unlock_in_gone :
    (k v : Text) (st : Store) → lookup k st ≡ some v → lookup k (unlock_in k v st).1 ≡ none
unfolding unlock_in
unlock_in_gone k v st e = rw (unlock_in, e, text_eq_refl v) (lookup-erase k st)

unlock_in_keeps :
    (j k v : Text) (st : Store) → text_eq j k ≡ false → lookup j (unlock_in k v st).1 ≡ lookup j st
unfolding unlock_in
unlock_in_keeps j k v st e = elim (Bool-cases (has_value v (lookup k st))) [
  | inl t ↦ rw (unlock_in, t) (lookup-erase_ne k j st (swapped j k e))
  | inr f ↦ rw (unlock_in, f) refl
]

pub small_redis-IsHealthy : IsHealthy small_redis
small_redis-IsHealthy = record {
  view = λ k st. lookup k st;
  get_value = λ k st. refl;
  get_keeps = λ j k st. refl;
  set_ok = λ k v ttl nx st new. rw (set_in_lem k v nx st new) refl;
  set_value = λ k v ttl nx st new. rw (set_in_lem k v nx st new) (lookup-assign k v st);
  set_keeps = λ j k v ttl nx st e. set_in_keeps j k v nx st e;
  unlock_gone = unlock_in_gone;
  unlock_keeps = unlock_in_keeps;
}

pub view_empty : (k : Text) → small_redis-IsHealthy.view k [] ≡ none
unfolding small_redis-IsHealthy lookup
view_empty k = refl
