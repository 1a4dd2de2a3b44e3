-- ===== src/RateLimit/Witnesses.antt =====
-- Runs of src/utils/rate_limit.hpp on small buckets.
use lingdong.Prelude.{ℕ, ◌+◌, ◌*◌, ◌≡◌, refl, List, [], ◌∷◌, Bytes, bytes_eq}
use lingdong.Prelude.Map.{lookup, insert, contains}
use lingdong.RateLimit.{
  TimedLimit, Reading, Readings, TokenBucketRateLimiter, new_limiter, second, refill, take_token,
  permit_limit, permit, permit_client, take_client, client_limiter, with_client, try_cleanup,
}
use lingdong.RateLimit.Clients.{granted_clients}

abbrev bucket : TimedLimit
bucket = record { last_refill_time = 0; limit = 2 }

abbrev reading : ℕ → Reading
reading t = record { tested = t; refilled = t + 1 }

abbrev early : List Reading
early = reading 1 ∷ reading 2 ∷ reading 3 ∷ []

-- And a call after two seconds.
abbrev spread : List Reading
spread = reading 1 ∷ reading 2 ∷ reading (2 * second) ∷ []

abbrev readings : ℕ → Readings
readings t = record { cleanup = t; global = reading t; created = t; client = reading t }

abbrev limiter : TokenBucketRateLimiter
limiter = new_limiter 3 1 0 0

abbrev a_client : Bytes
a_client = 97 ∷ []

abbrev b_client : Bytes
b_client = 98 ∷ []

abbrev calls : List (Bytes × Readings)
calls = (a_client, readings 1) ∷ (a_client, readings 2) ∷ (b_client, readings 3) ∷ []

-- The second call of the first client is refused.
calls_test : granted_clients calls limiter ≡ 2
unfolding granted_clients permit_client permit permit_limit refill take_token take_client
    client_limiter with_client try_cleanup lookup insert contains bytes_eq
calls_test = refl
