-- ===== src/Redis.antt =====
-- src/common/redis/RedisClient.cpp: what the client makes of the replies of redis, and the loop that
-- takes a lock. The server and the clock are parameters.
pub mod Lock
pub mod Laws
pub mod Small
pub mod Connect
mod Tests
use business.Base.{
  ℕ, zero, suc, Bool, true, false, not, Option, none, some, ltb, if◌then◌else◌, List, [],
}
use business.Base.Int.{ℤ, pos, eq_ℤ}
use business.Base.Text.{Text, codes, text_eq, is_empty}

-- How a command ends for `cpp_redis`: no valid future, no reply in time, an exception, or a reply.
pub data Outcome : Type 0 where
  no_future timed_out threw null_reply other_reply : Outcome
  string_reply : Text → Outcome
  integer_reply : ℤ → Outcome

-- The commands that the program sends; each may change the state of the server.
pub record RedisServer : Type 1 where
  pub State : Type 0
  pub get : Text → State → Outcome × State
  -- with the time to live and whether the key must be new
  pub set_advanced : Text → Text → ℕ → Bool → State → Outcome × State
  -- the script that deletes a key if it has the value
  pub eval_unlock : Text → Text → State → Outcome × State

-- What `data` holds after `GetValueByKey`, and its result.
unfoldable pub got_value : Text → Outcome → Text × Bool
got_value data_ no_future = ([], false)
got_value data_ timed_out = (data_, false)
got_value data_ threw = (data_, false)
got_value data_ null_reply = ([], false)
got_value data_ other_reply = ([], false)
got_value data_ (integer_reply n) = ([], false)
got_value data_ (string_reply t) = (t, not (is_empty t))

-- Whether `set_rep` is "OK".
unfoldable pub is_ok : Outcome → Bool
unfolding codes text_eq
is_ok (string_reply t) = text_eq t (codes "OK")
is_ok _ = false

-- Whether `set_rep` of `RedUnlock` is not 0.
unfoldable pub is_deleted : Outcome → Bool
is_deleted (integer_reply n) = not (eq_ℤ n (pos 0))
is_deleted _ = false

module _ (S : RedisServer) where
  unfoldable pub get_value_by_key : Text → Text → S.State → (Text × Bool) × S.State
  unfolding got_value
  get_value_by_key key data_ st = let (o, st') = S.get key st in (got_value data_ o, st')

  unfoldable pub set_advanced_key_value : Text → Text → ℕ → Bool → S.State → Bool × S.State
  unfolding is_ok
  set_advanced_key_value key data_ timeout_ms nx st =
      let (o, st') = S.set_advanced key data_ timeout_ms nx st in (is_ok o, st')

  unfoldable pub red_unlock : Text → Text → S.State → Bool × S.State
  unfolding is_deleted
  red_unlock key data_ st = let (o, st') = S.eval_unlock key data_ st in (is_deleted o, st')

  -- `RedLock`: the loop, at its round `i`. `clock i` is the time since the start in ms, read at the end
  -- of round `i`. Out of fuel there is no result.
  module _ (clock : ℕ → ℕ) where
    unfoldable pub lock_loop : ℕ → Text → Text → ℕ → ℕ → ℕ → ℕ → S.State → Option (Bool × S.State)
    unfolding set_advanced_key_value
    lock_loop zero key data_ acquire expire i elapsed st = none
    lock_loop (suc fuel) key data_ acquire expire i elapsed st =
        let (set, st') = set_advanced_key_value key data_ expire true st in
        let again = lock_loop fuel key data_ acquire expire (suc i) (clock i) st' in
        if ltb elapsed acquire then (if set then some (true, st') else again) else some (false, st)

    unfoldable pub red_lock : ℕ → Text → Text → ℕ → ℕ → S.State → Option (Bool × S.State)
    unfolding lock_loop
    red_lock fuel key data_ acquire expire st = lock_loop fuel key data_ acquire expire 0 0 st
