-- ===== src/Follow/Retry.antt =====
-- The wait before a failed demanded fetch is tried again.
use git_csi_driver.Prelude.{
  ℕ, suc, zero, ◌≡◌, ◌≤◌, ◌*◌, ◌/◌, ◌^◌, arith, ltb, if◌then◌else◌, ap, sym, ◌∙◌,
}
use git_csi_driver.Follow.{max_demand_retry, jittered, next_backoff, next_retry}

next_backoff_bounds :
    (demand_min backoff : ℕ)
    → demand_min ≤ max_demand_retry
    → (demand_min ≤ next_backoff demand_min backoff)
      × (next_backoff demand_min backoff ≤ max_demand_retry)
unfolding next_backoff
next_backoff_bounds demand_min backoff h = (ground arith, ground arith)

jittered_bounds :
    (backoff floor drawn : ℕ)
    → floor ≤ backoff
    → let wait = jittered backoff floor drawn in
      (wait ≤ backoff) × (floor ≤ wait) × (backoff / 2 ≤ wait)
unfolding jittered
jittered_bounds backoff floor drawn h = (ground arith, ground arith, ground arith)

-- The wait is never longer than five minutes, never shorter than the least interval between pulls, and
-- at least half the backoff, where that interval is at most five minutes.
pub next_retry_bounds :
    (demand_min drawn backoff : ℕ)
    → demand_min ≤ max_demand_retry
    → let (next, wait) = next_retry demand_min drawn backoff in
      (wait ≤ max_demand_retry) × (demand_min ≤ wait) × (wait ≤ next) × (next / 2 ≤ wait)
unfolding next_retry
next_retry_bounds demand_min drawn backoff h =
    let (low, high) = next_backoff_bounds demand_min backoff h in
    let (below, above, half) =
      jittered_bounds (next_backoff demand_min backoff) demand_min drawn low in
    (omega (arith, below, high), above, below, half)

-- The backoff after some failures in a row, the first of them after a pass that worked.
unfoldable backoff_after : ℕ → ℕ → ℕ
backoff_after demand_min zero = zero
backoff_after demand_min (suc n) = next_backoff demand_min (backoff_after demand_min n)

abbrev min_of : ℕ → ℕ → ℕ
min_of a b = if ltb a b then a else b

once : (d : ℕ) → d ≡ 2 ^ 0 * d
once d = omega arith

power_step : (d n : ℕ) → 2 ^ suc n * d ≡ 2 * (2 ^ n * d)
power_step d n = grind arith

power_bound : (d n : ℕ) → d ≤ 2 ^ n * d
power_bound d zero = omega arith
power_bound d (suc n) = omega (arith, power_bound d n, power_step d n)

next_backoff-min_of :
    (d x : ℕ) → d ≤ x → next_backoff d (min_of x max_demand_retry) ≡ min_of (2 * x) max_demand_retry
unfolding next_backoff
next_backoff-min_of d x h = ground arith

first_backoff : (d : ℕ) → next_backoff d 0 ≡ min_of d max_demand_retry
unfolding next_backoff
first_backoff d = ground arith

-- Each failure in a row doubles the backoff, from the least interval between pulls up to five minutes.
backoff_after_lem :
    (demand_min n : ℕ)
    → backoff_after demand_min (suc n) ≡ min_of (2 ^ n * demand_min) max_demand_retry
unfolding backoff_after
backoff_after_lem demand_min zero =
    first_backoff demand_min ∙ ap (λ x. min_of x max_demand_retry) (once demand_min)
backoff_after_lem demand_min (suc n) =
    ap (next_backoff demand_min) (backoff_after_lem demand_min n)
    ∙ next_backoff-min_of demand_min (2 ^ n * demand_min) (power_bound demand_min n)
    ∙ ap (λ x. min_of x max_demand_retry) (sym (power_step demand_min n))
