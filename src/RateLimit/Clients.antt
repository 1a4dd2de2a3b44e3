-- ===== src/RateLimit/Clients.antt =====
-- The limiter of src/utils/rate_limit.hpp over the calls of several clients.
use lingdong.Prelude.{
  ℕ, suc, ◌+◌, ◌≤◌, ◌<◌, ◌≡◌, ◌≢◌, refl, ◌∙◌, Bool, true, false, List, [], ◌∷◌, Bytes, arith, map,
  Bool-cases, inl, inr, if◌then◌else◌,
}
use lingdong.Prelude.Map.{lookup, contains, lookup-insert_ne}
use lingdong.RateLimit.{
  Readings, TokenBucketRateLimiter, hour, permit_limit, permit, permit_client, take_client,
  with_client, try_cleanup,
}
use lingdong.RateLimit.Bucket.{granted}

-- The calls of clients one after another: how many were permitted.
unfoldable pub granted_clients : List (Bytes × Readings) → TokenBucketRateLimiter → ℕ
granted_clients [] r = 0
granted_clients ((name, now) ∷ calls) r =
    let (permitted, after) = permit_client name now r in
    let n = granted_clients calls after in if permitted then suc n else n

try_cleanup-global :
    (now : ℕ) (r : TokenBucketRateLimiter)
    → ((try_cleanup now r).global_limiter ≡ r.global_limiter)
      × ((try_cleanup now r).global_limit_set ≡ r.global_limit_set)
unfolding try_cleanup
try_cleanup-global now r = (ground arith, ground arith)

-- A call does to the global bucket what the call without a client does, and is only permitted if
-- that one is.
permit_client-global :
    (name : Bytes) (now : Readings) (r : TokenBucketRateLimiter)
    → ((permit_client name now r).1.global_limiter
        ≡ (permit_limit now.global r.global_limiter r.global_limit_set).1)
      × ((permit_client name now r).1.global_limit_set ≡ r.global_limit_set)
      × ((permit_client name now r).0 ≡ true
          → (permit_limit now.global r.global_limiter r.global_limit_set).0 ≡ true)
unfolding permit_client permit take_client
permit_client-global name now r =
    let (g, s) = try_cleanup-global now.cleanup r in
    rw g (
      rw s (elim (Bool-cases (permit_limit now.global r.global_limiter r.global_limit_set).0) [
        | inl e ↦ rw e (refl, refl, λ h. refl)
        | inr e ↦ rw e (refl, refl, λ h. cc)
      ]))

count-le :
    (a b : Bool) (n m : ℕ)
    → (a ≡ true → b ≡ true)
    → n ≤ m
    → (if a then suc n else n) ≤ (if b then suc m else m)
count-le true true n m h le = omega arith
count-le true false n m h le = absurd (ground (arith, h refl))
count-le false true n m h le = omega arith
count-le false false n m h le = le

-- Whichever clients call, no more calls are permitted than the global bucket alone grants to as
-- many calls at the same readings.
pub granted_clients-le :
    (calls : List (Bytes × Readings)) (r : TokenBucketRateLimiter)
    → granted_clients calls r
      ≤ (granted (map (λ c. c.1.global) calls) r.global_limit_set r.global_limiter).0
unfolding granted_clients granted
granted_clients-le [] r = omega arith
granted_clients-le ((name, now) ∷ calls) r =
    let (g, s, only) = permit_client-global name now r in
    let rest = granted_clients-le calls (permit_client name now r).1 in
    let rest' = rw s at rest in count-le _ _ _ _ only (rw g at rest')

try_cleanup-early :
    (now : ℕ) (r : TokenBucketRateLimiter)
    → now < r.last_cleanup_time + hour
    → try_cleanup now r ≡ r
unfolding try_cleanup
try_cleanup-early now r h = ground arith

with_client-others :
    (name other : Bytes) (now : ℕ) (r : TokenBucketRateLimiter)
    → name ≢ other
    → lookup other (with_client name now r) ≡ lookup other r.per_client_limiter
unfolding with_client
with_client-others name other now r ne = elim (Bool-cases (contains name r.per_client_limiter)) [
  | inl e ↦ rw e refl
  | inr e ↦ rw e (lookup-insert_ne name other _ r.per_client_limiter ne)
]

-- Before the first hour is over, a call of one client leaves the buckets of all others as they are.
pub permit_client-others :
    (name other : Bytes) (now : Readings) (r : TokenBucketRateLimiter)
    → name ≢ other
    → now.cleanup < r.last_cleanup_time + hour
    → lookup other (permit_client name now r).1.per_client_limiter
      ≡ lookup other r.per_client_limiter
unfolding permit_client permit take_client
permit_client-others name other now r ne h =
    rw (try_cleanup-early now.cleanup r h)
      (elim (Bool-cases (permit_limit now.global r.global_limiter r.global_limit_set).0) [
        | inl e ↦
            rw e
              (lookup-insert_ne name other _ _ ne ∙ with_client-others name other now.created _ ne)
        | inr e ↦ rw e refl
      ])
