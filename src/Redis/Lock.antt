-- ===== src/Redis/Lock.antt =====
-- The lock loop ends.
use business.Base.{ℕ, zero, suc, ◌+◌, ◌*◌, ◌/◌, ◌≤◌, true, Option, none, some, arith}
use business.Base.Text.{Text}
use business.Redis.{RedisServer, lock_loop, red_lock, set_advanced_key_value}

abbrev pub IsThere {ℓ} : {A : Type ℓ} → Option A → Type 0
IsThere none = ⊥
IsThere (some a) = Unit

-- Each round sleeps for 10 ms at least.
pub record Sleeps (clock : ℕ → ℕ) : Type 0 where
  pub first : 10 ≤ clock 0
  pub later : (i : ℕ) → clock i + 10 ≤ clock (suc i)

next_round :
    (acquire elapsed fuel later : ℕ)
    → acquire ≤ elapsed + 10 * suc fuel
    → elapsed + 10 ≤ later
    → acquire ≤ later + 10 * fuel
next_round acquire elapsed fuel later lt h = omega arith

module _ (S : RedisServer) (clock : ℕ → ℕ) (sleeps : Sleeps clock) where
  lock_loop-IsThere :
      (fuel : ℕ) (key id : Text) (acquire expire i elapsed : ℕ) (st : S.State)
      → acquire ≤ elapsed + 10 * fuel
      → elapsed + 10 ≤ clock i
      → IsThere (lock_loop S clock (suc fuel) key id acquire expire i elapsed st)
  unfolding lock_loop
  lock_loop-IsThere zero key id acquire expire i elapsed st le h = ground arith
  lock_loop-IsThere (suc fuel) key id acquire expire i elapsed st le h =
      let after = (set_advanced_key_value S key id expire true st).1 in
      ground (
        arith,
        lock_loop-IsThere fuel key id acquire expire (suc i) (clock i) after
            (next_round acquire elapsed fuel (clock i) le h) (sleeps.later i),
      )

  -- With a clock that shows the 10 ms that each round sleeps, `RedLock` returns, whatever redis answers:
  -- a round for every 10 ms of the time limit, rounded down, and two more are enough.
  pub red_lock-IsThere :
      (key id : Text) (acquire expire : ℕ) (st : S.State)
      → IsThere (red_lock S clock (suc (acquire / 10 + 1)) key id acquire expire st)
  unfolding red_lock
  red_lock-IsThere key id acquire expire st =
      lock_loop-IsThere (acquire / 10 + 1) key id acquire expire 0 0 st (omega arith)
        (omega (arith, sleeps.first))
