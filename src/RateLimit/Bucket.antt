-- ===== src/RateLimit/Bucket.antt =====
-- What one bucket of src/utils/rate_limit.hpp grants over a run of calls.
use lingdong.Prelude.{
  ℕ, suc, ◌+◌, ◌-◌, ◌≤◌, ◌<◌, ◌≡◌, subst, sym, Bool, true, false, List, [], ◌∷◌, arith, length,
  if◌then◌else◌, All,
}
use Prim.Native.Nat.{min}
use lingdong.RateLimit.{TimedLimit, Reading, second, refill, take_token, permit_limit}

-- The calls one after another: how many were permitted, and the bucket behind them.
unfoldable pub granted : List Reading → ℕ → TimedLimit → ℕ × TimedLimit
granted [] limit_set limiter = (0, limiter)
granted (now ∷ nows) limit_set limiter =
    let (permitted, after) = permit_limit now limiter limit_set in
    let (n, last) = granted nows limit_set after in ((if permitted then suc n else n), last)

-- A call less than a second after the refill at the given time.
abbrev pub Early : ℕ → Reading → Type 0
Early refilled now = now.tested < refilled + second

-- The clock does not go back within a call.
abbrev pub Forward : Reading → Type 0
Forward now = now.tested ≤ now.refilled

tokens : Bool → ℕ
tokens true = 1
tokens false = 0

tokens-add : (b : Bool) (n : ℕ) → (if b then suc n else n) ≡ tokens b + n
unfolding tokens
tokens-add true n = omega arith
tokens-add false n = omega arith

permit-Early :
    (now : Reading) (limiter : TimedLimit) (limit_set : ℕ)
    → Early limiter.last_refill_time now
    → ((permit_limit now limiter limit_set).1.last_refill_time ≡ limiter.last_refill_time)
      × (tokens (permit_limit now limiter limit_set).0 ≡ min 1 limiter.limit)
      × ((permit_limit now limiter limit_set).1.limit ≡ limiter.limit - 1)
unfolding permit_limit refill take_token tokens
permit-Early now limiter limit_set h = ground arith

-- Where all calls come less than a second after the last refill, exactly as many are permitted
-- as the bucket holds tokens, or all of them if there are fewer calls.
pub granted-window :
    (nows : List Reading) (limit_set : ℕ) (limiter : TimedLimit)
    → All (Early limiter.last_refill_time) nows
    → (granted nows limit_set limiter).0 ≡ min (length nows) limiter.limit
unfolding granted
granted-window [] limit_set limiter h = omega arith
granted-window (now ∷ nows) limit_set limiter (e, h) =
    let (same, took, left) = permit-Early now limiter limit_set e in
    let after = (permit_limit now limiter limit_set).1 in
    let rest = granted-window nows limit_set after (subst (λ t. All (Early t) nows) (sym same) h) in
    rw (tokens-add (permit_limit now limiter limit_set).0 _) (omega arith)
