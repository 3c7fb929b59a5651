-- ===== src/Platform/Windows.antt =====
-- internal/platform/httpx/security.go: the requests of a client over time.
use vpn_price_public.Base.{
  ℕ, suc, ◌+◌, ◌-◌, ◌≤◌, ◌<◌, ◌≡◌, false, Option, none, some, List, [], ◌∷◌, arith, if◌then◌else◌,
  length, All, min,
}
use vpn_price_public.Platform.Security.{Counter, passes, limit_request}

-- The requests at the given times, with Redis at work: how many pass.
unfoldable pub passed : ℕ → ℕ → List ℕ → Option Counter → ℕ
unfolding limit_request
passed limit window [] stored = 0
passed limit window (t ∷ times) stored =
    let (verdict, stored') = limit_request limit window false false t stored in
    let rest = passed limit window times stored' in (if passes verdict then 1 else 0) + rest

passed-running :
    (limit window : ℕ) (times : List ℕ) (n end : ℕ)
    → 1 ≤ n
    → All (λ t. t < end) times
    → passed limit window times (some (record { count = n; expires = some end }))
      ≡ min (limit - n) (length times)
unfolding passed limit_request
passed-running limit window [] n end pos h = ground arith
passed-running limit window (t ∷ times) n end pos (now, h) =
    ground (arith, passed-running limit window times (suc n) end (omega arith) h)

-- If Redis answers, no counter is left, the limit and the window are positive and all later
-- requests fall into the window of the first, as many requests pass as the limit says, or all if
-- there are fewer.
pub passed-limit :
    (limit window start : ℕ) (times : List ℕ)
    → 1 ≤ limit
    → 1 ≤ window
    → All (λ t. t < start + window) times
    → passed limit window (start ∷ times) none ≡ min limit (suc (length times))
unfolding passed limit_request
passed-limit limit window start times h w inside =
    ground (arith, passed-running limit window times 1 (start + window) (omega arith) inside)

-- If the counter of a client has no expiry, then of its later requests, at whatever times and with
-- Redis answering, as many pass as the limit exceeds the count, or all if there are fewer.
pub passed-stuck :
    (limit window : ℕ) (times : List ℕ) (n : ℕ)
    → 1 ≤ n
    → passed limit window times (some (record { count = n; expires = none }))
      ≡ min (limit - n) (length times)
unfolding passed limit_request
passed-stuck limit window [] n pos = ground arith
passed-stuck limit window (t ∷ times) n pos =
    ground (arith, passed-stuck limit window times (suc n) (omega arith))
