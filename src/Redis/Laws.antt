-- ===== src/Redis/Laws.antt =====
-- What redis documents of its commands, while none fails and no key expires.
use business.Base.{◌≡◌, ◌⊎◌, ℕ, Bool, false, Option, none, some}
use business.Base.Text.{Text, codes, text_eq}
use business.Redis.{RedisServer, Outcome, null_reply, string_reply}

abbrev pub reply_of : Option Text → Outcome
reply_of none = null_reply
reply_of (some t) = string_reply t

-- `view` is the value of a key.
pub record IsHealthy (S : RedisServer) : Type 0 where
  pub view : Text → S.State → Option Text
  pub get_value : (k : Text) (st : S.State) → (S.get k st).0 ≡ reply_of (view k st)
  pub get_keeps : (j k : Text) (st : S.State) → view j (S.get k st).1 ≡ view j st
  pub set_ok :
      (k v : Text) (ttl : ℕ) (nx : Bool) (st : S.State)
      → (nx ≡ false) ⊎ (view k st ≡ none)
      → (S.set_advanced k v ttl nx st).0 ≡ string_reply (codes "OK")
  pub set_value :
      (k v : Text) (ttl : ℕ) (nx : Bool) (st : S.State)
      → (nx ≡ false) ⊎ (view k st ≡ none)
      → view k (S.set_advanced k v ttl nx st).1 ≡ some v
  pub set_keeps :
      (j k v : Text) (ttl : ℕ) (nx : Bool) (st : S.State)
      → text_eq j k ≡ false
      → view j (S.set_advanced k v ttl nx st).1 ≡ view j st
  pub unlock_gone :
      (k v : Text) (st : S.State) → view k st ≡ some v → view k (S.eval_unlock k v st).1 ≡ none
  pub unlock_keeps :
      (j k v : Text) (st : S.State)
      → text_eq j k ≡ false
      → view j (S.eval_unlock k v st).1 ≡ view j st
