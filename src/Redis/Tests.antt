-- ===== src/Redis/Tests.antt =====
-- The lock of a redis that never gives it.
use business.Base.{ℕ, ◌+◌, ◌*◌, ◌/◌, ◌≡◌, refl, arith, suc, false, some}
use business.Base.Text.{codes}
use business.Redis.{RedisServer, null_reply, set_advanced_key_value, red_lock, lock_loop, is_ok}
use business.Redis.Lock.{IsThere, Sleeps, red_lock-IsThere}

abbrev taken : RedisServer
taken = record {
  State = ℕ;
  get = λ k st. (null_reply, st);
  set_advanced = λ k v ttl nx st. (null_reply, suc st);
  eval_unlock = λ k v st. (null_reply, st);
}

abbrev clock : ℕ → ℕ
clock i = 10 * suc i

clock-Sleeps : Sleeps clock
clock-Sleeps = record { first = omega arith; later = λ i. omega arith }

red_lock-IsThere_example :
    IsThere (red_lock taken clock (suc (25 / 10 + 1)) (codes "k") (codes "u") 25 5000 0)
red_lock-IsThere_example =
    red_lock-IsThere taken clock clock-Sleeps (codes "k") (codes "u") 25 5000 0

-- Three tries in 25 ms, and then the loop gives up.
gives_up : red_lock taken clock 4 (codes "k") (codes "u") 25 5000 0 ≡ some (false, 3)
unfolding red_lock lock_loop set_advanced_key_value is_ok
gives_up = refl
