-- ===== src/Breaker.antt =====
-- internal/embed/breaker.go (internal/llm/breaker.go is the same machine): the circuit breaker of
-- one provider. Each method holds the mutex throughout, so concurrent callers are sequences of
-- these steps. Times are nanoseconds, `now` is what the clock says inside the call.
pub mod Invariant
pub mod Outage
mod Tests
use iter.Common.{ℕ, suc, ◌+◌, ◌*◌, Bool, true, false, ◌&&◌, leb, if◌then◌else◌, List, [], ◌∷◌}
use iter.Common.Int.{ℤ, positive_or}

pub data BreakerState : Type 0 where
  breaker_closed breaker_open breaker_half_open : BreakerState

pub record BreakerConfig : Type 0 where
  pub failure_threshold : ℤ
  pub recovery_delay : ℤ

pub record Breaker : Type 0 where
  pub state : BreakerState
  pub consecutive_fails : ℕ
  pub opened_at : ℕ
  pub failure_threshold : ℕ
  pub recovery_delay : ℕ

abbrev pub default_failure_threshold : ℕ
default_failure_threshold = 5

abbrev pub default_recovery_delay : ℕ
default_recovery_delay = 30 * 1000000000

unfoldable pub new_breaker : BreakerConfig → Breaker
new_breaker cfg = record {
  state = breaker_closed;
  consecutive_fails = 0;
  opened_at = 0;
  failure_threshold = positive_or default_failure_threshold cfg.failure_threshold;
  recovery_delay = positive_or default_recovery_delay cfg.recovery_delay;
}

-- `Now().Sub(openedAt) >= RecoveryDelay`
abbrev pub recovered : ℕ → Breaker → Bool
recovered now b = leb (b.opened_at + b.recovery_delay) now

allow_in : BreakerState → ℕ → Breaker → Breaker × Bool
allow_in breaker_closed now b = (b, true)
allow_in breaker_half_open now b = (b, true)
allow_in breaker_open now b =
    if recovered now b then (record b { state = breaker_half_open }, true) else (b, false)

unfoldable pub allow : ℕ → Breaker → Breaker × Bool
unfolding allow_in
allow now b = allow_in b.state now b

unfoldable pub success : Breaker → Breaker
success b = record b { consecutive_fails = 0; state = breaker_closed }

abbrev is_half_open : BreakerState → Bool
is_half_open breaker_half_open = true
is_half_open _ = false

abbrev pub is_open : BreakerState → Bool
is_open breaker_open = true
is_open _ = false

unfoldable pub failure : ℕ → Breaker → Breaker
failure now b =
    let counted = record b { consecutive_fails = suc b.consecutive_fails } in
    let tripped = record counted { state = breaker_open; opened_at = now } in
    if is_half_open b.state
    then tripped
    else if leb b.failure_threshold counted.consecutive_fails
    then tripped
    else counted

unfoldable pub snapshot : ℕ → Breaker → BreakerState
snapshot now b = if is_open b.state && recovered now b then breaker_half_open else b.state

-- A call of one of the breaker's methods.
pub data Call : Type 0 where
  ask : ℕ → Call
  succeed : Call
  fail : ℕ → Call

unfoldable pub step : Call → Breaker → Breaker
unfolding allow success failure
step (ask now) b = (allow now b).0
step succeed b = success b
step (fail now) b = failure now b

pub run : List Call → Breaker → Breaker
run [] b = b
run (c ∷ cs) b = run cs (step c b)
