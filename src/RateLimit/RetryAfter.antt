-- ===== src/RateLimit/RetryAfter.antt =====
-- The delay that a refused client is told.
use iter.Common.{ℕ, ◌+◌, ◌-◌, ◌*◌, ◌/◌, ◌≤◌, ◌<◌, ◌≡◌, ◌≢◌, false, ◌==◌, gt→leb, arith}
use iter.RateLimit.{compute_retry_after}

nonzero : (n : ℕ) → n ≢ 0 → (n == 0) ≡ false
nonzero n h = ground arith

-- For an oldest entry, with a time that is not 0, that is still in the window: the delay is at
-- least a second, after it the entry has left the window, and a second earlier it has not.
pub compute_retry_after_tight :
    (now oldest window : ℕ)
    → oldest ≢ 0
    → now < oldest + window
    → (1 ≤ compute_retry_after now oldest window)
      × (oldest + window ≤ now + 1000 * compute_retry_after now oldest window)
      × (now + 1000 * (compute_retry_after now oldest window - 1) < oldest + window)
unfolding compute_retry_after
compute_retry_after_tight now oldest window h l = rw (nonzero oldest h) (
    rw (gt→leb (oldest + window) now l) (
      rw
        (nonzero ((oldest + window - now + 999) / 1000)
          (positive (oldest + window - now) (omega (arith, l))))
        (omega (arith, l), omega (arith, l), omega (arith, l))))
  where
    positive : (d : ℕ) → 1 ≤ d → (d + 999) / 1000 ≢ 0
    positive d k e = omega (arith, k, e)
