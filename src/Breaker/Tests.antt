-- ===== src/Breaker/Tests.antt =====
-- Runs of the breaker, and the theorems at concrete inputs.
use iter.Common.{◌<◌, ◌≡◌, ◌↔◌, refl, List, [], ◌∷◌, true, false, All, arith}
use iter.Common.Int.{pos}
use iter.Breaker.{
  breaker_closed, breaker_open, breaker_half_open, BreakerConfig, Breaker, new_breaker, allow,
  success, failure, snapshot, Call, ask, succeed, fail, step, run,
}
use iter.Breaker.Invariant.{trailing_fails, closed_iff_few_fails, snapshot_open_iff}
use iter.Breaker.Outage.{answers, outage_refuses, probe_decides, probes_unlimited, IsFalse, IsTrue}

abbrev quick : BreakerConfig
quick = record { failure_threshold = pos 2; recovery_delay = pos 10 }

abbrev calls : List Call
calls = fail 1 ∷ succeed ∷ ask 2 ∷ fail 3 ∷ fail 4 ∷ []

trips : (run calls (new_breaker quick)).state ≡ breaker_open
unfolding run step new_breaker
trips = refl

closed_iff_few_fails_example :
    ((run calls (new_breaker quick)).state ≡ breaker_closed)
    ↔ (trailing_fails 0 calls < (new_breaker quick).failure_threshold)
closed_iff_few_fails_example = closed_iff_few_fails quick calls

abbrev down : Breaker
down = record {
  state = breaker_open;
  consecutive_fails = 2;
  opened_at = 4;
  failure_threshold = 2;
  recovery_delay = 10;
}

snapshot_open_iff_run : (snapshot 9 down ≡ breaker_open) ↔ ((allow 9 down).1 ≡ false)
snapshot_open_iff_run = snapshot_open_iff 9 down

outage_refuses_example : All IsFalse (answers (ask 5 ∷ fail 8 ∷ ask 13 ∷ []) down)
outage_refuses_example = outage_refuses down (ask 5 ∷ fail 8 ∷ ask 13 ∷ []) refl (omega arith)

probe_decides_run :
    ((allow 14 down).1 ≡ true)
    × ((allow 14 down).0.state ≡ breaker_half_open)
    × ((success (allow 14 down).0).state ≡ breaker_closed)
    × ((success (allow 14 down).0).consecutive_fails ≡ 0)
    × ((failure 15 (allow 14 down).0).state ≡ breaker_open)
    × ((failure 15 (allow 14 down).0).opened_at ≡ 15)
probe_decides_run = probe_decides down 14 15 refl (omega arith)

probes_unlimited_run :
    All IsTrue (answers (ask 14 ∷ ask 14 ∷ ask 14 ∷ []) (record down { state = breaker_half_open }))
probes_unlimited_run =
    probes_unlimited (record down { state = breaker_half_open }) (ask 14 ∷ ask 14 ∷ ask 14 ∷ [])
      refl (tt, (tt, (tt, tt)))
