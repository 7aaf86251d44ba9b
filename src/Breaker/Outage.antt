-- ===== src/Breaker/Outage.antt =====
-- What a caller sees of an open breaker, and of its recovery.
use iter.Common.{ℕ, ◌+◌, ◌≤◌, ◌<◌, ◌≡◌, refl, Bool, true, false, List, [], ◌∷◌, All, arith}
use iter.Breaker.{
  breaker_closed, breaker_open, breaker_half_open, Breaker, allow, success, failure, Call, ask,
  succeed, fail, step,
}

-- The answers that the `ask` calls of a sequence get.
pub answers : List Call → Breaker → List Bool
answers [] b = []
answers (ask now ∷ cs) b = (allow now b).1 ∷ answers cs (step (ask now) b)
answers (c ∷ cs) b = answers cs (step c b)

-- A call inside the recovery delay of an outage that began at `from`: no success is reported, and
-- late failures of calls that were in flight come no earlier than the outage.
abbrev pub WithinOutage : ℕ → ℕ → Call → Type 0
WithinOutage from until (ask now) = now < until
WithinOutage from until succeed = ⊥
WithinOutage from until (fail now) = from ≤ now

record Refusing (from until : ℕ) (b : Breaker) : Type 0 where
  opened : b.state ≡ breaker_open
  since : from ≤ b.opened_at
  lasts : until ≤ b.opened_at + b.recovery_delay

step-Refusing :
    (from until : ℕ) (c : Call) (b : Breaker)
    → from + b.recovery_delay ≡ until
    → WithinOutage from until c
    → Refusing from until b
    → Refusing from until (step c b) × ((step c b).recovery_delay ≡ b.recovery_delay)
unfolding step
step-Refusing from until (ask now) b e w r = ground arith
step-Refusing from until succeed b e w r = absurd w
step-Refusing from until (fail now) b e w r = ground arith

refused-ask :
    (from until now : ℕ) (b : Breaker)
    → now < until
    → Refusing from until b
    → (allow now b).1 ≡ false
unfolding allow
refused-ask from until now b l r = ground arith

abbrev pub IsFalse : Bool → Type 0
IsFalse b = b ≡ false

outage_from :
    (from until : ℕ) (cs : List Call) (b : Breaker)
    → from + b.recovery_delay ≡ until
    → All (WithinOutage from until) cs
    → Refusing from until b
    → All IsFalse (answers cs b)
unfolding answers
outage_from from until [] b e w r = tt
outage_from from until (ask now ∷ cs) b e w r =
    let (r', d) = step-Refusing from until (ask now) b e w.0 r in
    (
      refused-ask from until now b w.0 r,
      outage_from from until cs (step (ask now) b) (omega arith) w.1 r',
    )
outage_from from until (succeed ∷ cs) b e w r = absurd w.0
outage_from from until (fail now ∷ cs) b e w r =
    let (r', d) = step-Refusing from until (fail now) b e w.0 r in
    outage_from from until cs (step (fail now) b) (omega arith) w.1 r'

-- An open breaker refuses every call until the recovery delay has passed since it opened,
-- whatever failures are still reported meanwhile, as long as no success is.
pub outage_refuses :
    (b : Breaker) (cs : List Call)
    → b.state ≡ breaker_open
    → All (WithinOutage b.opened_at (b.opened_at + b.recovery_delay)) cs
    → All IsFalse (answers cs b)
outage_refuses b cs o w =
    outage_from b.opened_at (b.opened_at + b.recovery_delay) cs b refl w
      (record { opened = o; since = omega arith; lasts = omega arith })

-- Once the delay has passed, a call is let through as a probe: its success closes the breaker with
-- no failure counted, and its failure opens it again from the time of that failure.
pub probe_decides :
    (b : Breaker) (now later : ℕ)
    → b.state ≡ breaker_open
    → b.opened_at + b.recovery_delay ≤ now
    → ((allow now b).1 ≡ true)
      × ((allow now b).0.state ≡ breaker_half_open)
      × ((success (allow now b).0).state ≡ breaker_closed)
      × ((success (allow now b).0).consecutive_fails ≡ 0)
      × ((failure later (allow now b).0).state ≡ breaker_open)
      × ((failure later (allow now b).0).opened_at ≡ later)
unfolding allow success failure
probe_decides b now later o l = ground arith

abbrev IsAsk : Call → Type 0
IsAsk (ask now) = Unit
IsAsk _ = ⊥

abbrev pub IsTrue : Bool → Type 0
IsTrue b = b ≡ true

half_open-ask :
    (now : ℕ) (b : Breaker)
    → b.state ≡ breaker_half_open
    → (step (ask now) b ≡ b) × ((allow now b).1 ≡ true)
unfolding step
half_open-ask now b h = ground arith

-- While a probe is out, every further call is let through as well: half-open does not limit them.
pub probes_unlimited :
    (b : Breaker) (cs : List Call)
    → b.state ≡ breaker_half_open
    → All IsAsk cs
    → All IsTrue (answers cs b)
unfolding answers
probes_unlimited b [] h a = tt
probes_unlimited b (ask now ∷ cs) h a =
    let (same, yes') = half_open-ask now b h in (yes', rw same (probes_unlimited b cs h a.1))
probes_unlimited b (succeed ∷ cs) h a = absurd a.0
probes_unlimited b (fail now ∷ cs) h a = absurd a.0
