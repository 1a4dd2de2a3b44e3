-- ===== src/RateLimit.antt =====
-- src/utils/rate_limit.hpp: the token bucket rate limiter, for calls that come one after another.
-- The readings of `steady_clock::now()` are arguments, in nanoseconds.
pub mod Bucket
pub mod Clients
mod Witnesses
use lingdong.Prelude.{
  ℕ, zero, suc, ◌+◌, ◌-◌, ◌*◌, Bool, true, false, not, ◌||◌, List, [], ◌∷◌, Bytes, none, some, ltb,
  leb, ◌==◌, if◌then◌else◌,
}
use lingdong.Prelude.Map.{lookup, insert, contains, erase}

abbrev pub second : ℕ
second = 1000000000

abbrev pub hour : ℕ
hour = 3600000000000

pub record TimedLimit : Type 0 where
  pub last_refill_time : ℕ
  pub limit : ℕ

-- The two readings of one call: at the test, and at the refill.
pub record Reading : Type 0 where
  pub tested : ℕ
  pub refilled : ℕ

unfoldable pub refill : Reading → ℕ → TimedLimit → TimedLimit
refill now limit_set limiter =
    if leb (limiter.last_refill_time + second) now.tested
    then record { last_refill_time = now.refilled; limit = limit_set }
    else limiter

unfoldable pub take_token : TimedLimit → Bool × TimedLimit
take_token limiter =
    if limiter.limit == 0
    then (false, limiter)
    else (true, record limiter { limit = limiter.limit - 1 })

-- The static `permit`. No other call comes between a load and its exchange, so that each of the
-- two loops takes one round.
unfoldable pub permit_limit : Reading → TimedLimit → ℕ → Bool × TimedLimit
permit_limit now limiter limit_set = take_token (refill now limit_set limiter)

pub record TokenBucketRateLimiter : Type 0 where
  pub global_limit_set : ℕ
  pub per_client_limit_set : ℕ
  pub global_limiter : TimedLimit
  pub per_client_limiter : List (Bytes × TimedLimit)
  pub last_cleanup_time : ℕ

abbrev pub new_limiter : ℕ → ℕ → ℕ → ℕ → TokenBucketRateLimiter
new_limiter global_limit per_client_limit refilled cleaned = record {
  global_limit_set = global_limit;
  per_client_limit_set = per_client_limit;
  global_limiter = record { last_refill_time = refilled; limit = global_limit };
  per_client_limiter = [];
  last_cleanup_time = cleaned;
}

unfoldable pub permit : Reading → TokenBucketRateLimiter → Bool × TokenBucketRateLimiter
permit now r =
    let (permitted, limiter) = permit_limit now r.global_limiter r.global_limit_set in
    (permitted, record r { global_limiter = limiter })

-- The clients that were not refilled for an hour, and the map without them.
unfoldable pub expired_keys : ℕ → List (Bytes × TimedLimit) → List Bytes
expired_keys now [] = []
expired_keys now ((client, limiter) ∷ m) =
    let rest = expired_keys now m in
    if leb (limiter.last_refill_time + hour) now then client ∷ rest else rest

unfoldable pub erase_all : List Bytes → List (Bytes × TimedLimit) → List (Bytes × TimedLimit)
erase_all [] m = m
erase_all (k ∷ ks) m = erase_all ks (erase k m)

unfoldable pub try_cleanup : ℕ → TokenBucketRateLimiter → TokenBucketRateLimiter
try_cleanup now r =
    if ltb now (r.last_cleanup_time + hour)
      || ltb now (r.global_limiter.last_refill_time + 10 * second)
    then r
    else record r {
      per_client_limiter = erase_all (expired_keys now r.per_client_limiter) r.per_client_limiter;
    }

-- The readings of `permit(client)`, in their order.
pub record Readings : Type 0 where
  pub cleanup : ℕ
  pub global : Reading
  pub created : ℕ
  pub client : Reading

unfoldable pub with_client : Bytes → ℕ → TokenBucketRateLimiter → List (Bytes × TimedLimit)
with_client name now r =
    if contains name r.per_client_limiter
    then r.per_client_limiter
    else insert name (record { last_refill_time = now; limit = r.per_client_limit_set })
        r.per_client_limiter

-- The limiter of the client, which has been put into the map before.
unfoldable pub client_limiter : Bytes → List (Bytes × TimedLimit) → TimedLimit
client_limiter name m = elim (lookup name m) [
  | none ↦ record { last_refill_time = 0; limit = 0 }
  | some l ↦ l
]

unfoldable pub take_client :
    Bytes
    → Reading
    → List (Bytes × TimedLimit)
    → TokenBucketRateLimiter
    → Bool × TokenBucketRateLimiter
take_client name now m r =
    let (permitted, limiter) = permit_limit now (client_limiter name m) r.per_client_limit_set in
    (permitted, record r { per_client_limiter = insert name limiter m })

unfoldable pub permit_client :
    Bytes → Readings → TokenBucketRateLimiter → Bool × TokenBucketRateLimiter
permit_client name now r0 =
    let (permitted, r) = permit now.global (try_cleanup now.cleanup r0) in
    if not permitted
    then (false, r)
    else take_client name now.client (with_client name now.created r) r
