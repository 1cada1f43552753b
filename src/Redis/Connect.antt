-- ===== src/Redis/Connect.antt =====
-- How a client of redis is made: `CreateRedisClient` of include/common/redis/RedisFactory.h and `InitClient` of
-- src/common/redis/RedisClient.cpp. What boost splits and what `cpp_redis` answers are parameters.
use business.Base.{ℕ, Bool, true, false, List, [], ◌∷◌, Option, none, some, if◌then◌else◌}
use business.Base.Int.{ℤ, pos, eq_ℤ, ltb_ℤ, ◌+ℤ◌}
use business.Base.Text.{Text, is_empty}

-- `QRedisParam`, as far as it is set.
pub record RedisParam : Type 0 where
  pub sentinel_name : Text
  pub redis_addrs : Text
  pub io_num : ℤ
  pub db_index : ℤ
  pub passwd : Text

-- What is called while a client is made; `none` is an exception. The last two say whether the reply was ok.
pub record RedisNetwork : Type 0 where
  pub split : ℕ → Text → List Text
  pub atoi : Text → ℤ
  pub set_workers : ℤ → Bool
  pub add_sentinel : Text → ℤ → Bool
  pub connect : Text → Option Bool
  pub auth : Text → Option Bool
  pub select : ℤ → Option Bool

-- `m_io_num` after `CRedisFactory::Init`.
unfoldable pub next_io_num : ℤ → ℤ → ℤ
next_io_num m_io_num io_num =
    let n = (if eq_ℤ m_io_num (pos 0) then io_num else m_io_num) +ℤ pos 1 in
    if ltb_ℤ n (pos 2) then pos 2 else n

abbrev pub answered : Option Bool → Bool
answered none = false
answered (some ok) = ok

module _ (N : RedisNetwork) where
  -- An address is a host and a port.
  abbrev pub add_address : List Text → Bool
  add_address (host ∷ port ∷ []) = N.add_sentinel host (N.atoi port)
  add_address _ = false

  unfoldable pub add_addresses : List Text → Bool
  add_addresses [] = true
  add_addresses (add ∷ rest) =
      let later = add_addresses rest in if add_address (N.split b':' add) then later else false

  abbrev pub authenticate : Text → Bool
  authenticate passwd = if is_empty passwd then true else answered (N.auth passwd)

  -- `InitClient`, which also sets `isOk_` to its result.
  unfoldable pub init_client : RedisParam → Bool
  unfolding add_addresses
  init_client p =
      if is_empty p.redis_addrs
      then false
      else if add_addresses (N.split b',' p.redis_addrs)
      then (if answered (N.connect p.sentinel_name)
          then (if authenticate p.passwd then answered (N.select p.db_index) else false)
          else false)
      else false

  -- `CreateRedisClient`: whether there is a client, and `m_io_num` after it.
  unfoldable pub create_redis_client : ℤ → RedisParam → Bool × ℤ
  unfolding next_io_num
  create_redis_client m_io_num p =
      let n = next_io_num m_io_num p.io_num in (if N.set_workers n then init_client p else false, n)
