-- ===== src/Breaker/Invariant.antt =====
-- The breaker is closed exactly while its last outcomes hold fewer failures than the threshold.
use iter.Common.{ℕ, zero, suc, ◌↔◌, ◌∙◌, ◌≤◌, ◌<◌, ◌≡◌, ◌≢◌, refl, ap, false, List, [], ◌∷◌, arith}
use iter.Common.Int.{ℤ, pos, negsuc, positive_or}
use iter.Breaker.{
  BreakerState, breaker_closed, breaker_open, breaker_half_open, BreakerConfig, Breaker,
  new_breaker, default_failure_threshold, allow, snapshot, Call, ask, succeed, fail, step, run,
}

pub record Inv (b : Breaker) : Type 0 where
  pub threshold : 0 < b.failure_threshold
  pub below : b.state ≡ breaker_closed → b.consecutive_fails < b.failure_threshold
  pub reached : b.state ≢ breaker_closed → b.failure_threshold ≤ b.consecutive_fails

positive_or-pos : (d : ℕ) (z : ℤ) → 0 < d → 0 < positive_or d z
positive_or-pos d (pos zero) h = h
positive_or-pos d (pos (suc n)) h = omega arith
positive_or-pos d (negsuc n) h = h

pub new_breaker-Inv : (cfg : BreakerConfig) → Inv (new_breaker cfg)
unfolding new_breaker
new_breaker-Inv cfg =
    let positive = positive_or-pos default_failure_threshold cfg.failure_threshold (omega arith) in
    record { threshold = positive; below = λ e. positive; reached = λ n. absurd (n refl) }

pub step-Inv : (c : Call) (b : Breaker) → Inv b → Inv (step c b)
unfolding step
step-Inv (ask now) b h = ground arith
step-Inv succeed b h = ground arith
step-Inv (fail now) b h = ground arith

-- The failures since the last success, on top of `n` earlier ones.
pub trailing_fails : ℕ → List Call → ℕ
trailing_fails n [] = n
trailing_fails n (ask now ∷ cs) = trailing_fails n cs
trailing_fails n (succeed ∷ cs) = trailing_fails 0 cs
trailing_fails n (fail now ∷ cs) = trailing_fails (suc n) cs

run-Inv : (cs : List Call) (b : Breaker) → Inv b → Inv (run cs b)
unfolding run
run-Inv [] b h = h
run-Inv (c ∷ cs) b h = run-Inv cs (step c b) (step-Inv c b h)

threshold-step : (c : Call) (b : Breaker) → (step c b).failure_threshold ≡ b.failure_threshold
unfolding step
threshold-step (ask now) b = ground arith
threshold-step succeed b = refl
threshold-step (fail now) b = ground arith

threshold-run : (cs : List Call) (b : Breaker) → (run cs b).failure_threshold ≡ b.failure_threshold
unfolding run
threshold-run [] b = refl
threshold-run (c ∷ cs) b = threshold-run cs (step c b) ∙ threshold-step c b

fails-ask : (now : ℕ) (b : Breaker) → (step (ask now) b).consecutive_fails ≡ b.consecutive_fails
unfolding step
fails-ask now b = ground arith

fails-fail :
    (now : ℕ) (b : Breaker) → (step (fail now) b).consecutive_fails ≡ suc b.consecutive_fails
unfolding step
fails-fail now b = ground arith

fails-succeed : (b : Breaker) → (step succeed b).consecutive_fails ≡ 0
unfolding step
fails-succeed b = refl

fails-run :
    (cs : List Call) (b : Breaker)
    → (run cs b).consecutive_fails ≡ trailing_fails b.consecutive_fails cs
unfolding run trailing_fails
fails-run [] b = refl
fails-run (ask now ∷ cs) b =
    fails-run cs (step (ask now) b) ∙ ap (λ n. trailing_fails n cs) (fails-ask now b)
fails-run (succeed ∷ cs) b =
    fails-run cs (step succeed b) ∙ ap (λ n. trailing_fails n cs) (fails-succeed b)
fails-run (fail now ∷ cs) b =
    fails-run cs (step (fail now) b) ∙ ap (λ n. trailing_fails n cs) (fails-fail now b)

closed_of_below :
    (s : BreakerState) (n m : ℕ) → (s ≢ breaker_closed → m ≤ n) → n < m → s ≡ breaker_closed
closed_of_below breaker_closed n m h l = refl
closed_of_below breaker_open n m h l = let le = h (λ e. cc) in absurd (omega arith)
closed_of_below breaker_half_open n m h l = let le = h (λ e. cc) in absurd (omega arith)

-- After any calls on a new breaker, it is closed exactly when the failures since the last success
-- are fewer than the threshold.
pub closed_iff_few_fails :
    (cfg : BreakerConfig) (cs : List Call)
    → ((run cs (new_breaker cfg)).state ≡ breaker_closed)
      ↔ (trailing_fails 0 cs < (new_breaker cfg).failure_threshold)
closed_iff_few_fails cfg cs =
    let b = run cs (new_breaker cfg) in
    let inv = run-Inv cs (new_breaker cfg) (new_breaker-Inv cfg) in
    let limit = threshold-run cs (new_breaker cfg) in
    let fails = fails-new cfg cs in
    (
      λ e. omega (arith, inv.below e),
      λ l.
          closed_of_below b.state b.consecutive_fails b.failure_threshold inv.reached (omega arith),
    )
  where
    fails-new :
        (cfg : BreakerConfig) (cs : List Call)
        → (run cs (new_breaker cfg)).consecutive_fails ≡ trailing_fails 0 cs
    fails-new cfg cs = unfold new_breaker in fails-run cs (new_breaker cfg)

-- The snapshot says `open` exactly when the next call would be refused.
pub snapshot_open_iff :
    (now : ℕ) (b : Breaker) → (snapshot now b ≡ breaker_open) ↔ ((allow now b).1 ≡ false)
unfolding snapshot allow
snapshot_open_iff now b = ground arith
