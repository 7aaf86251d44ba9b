-- ===== src/Signals/Tests.antt =====
-- The signals of a short session, and the theorem at a concrete input.
use iter.Common.{◌≡◌, refl, false, none, some, List, [], ◌∷◌, ◌++◌, String}
use iter.Signals.{
  SessionEvent, count_event, fold_event, fold_events, signals_of, aggregate_side, aggregate,
}
use iter.Signals.Duplicates.{aggregate_side_twice}

abbrev event : String → String → SessionEvent
event id t = record { id = id; event_type = t; parent_session_id = none }

abbrev events : List SessionEvent
events =
    event "a" "turn_completed"
    ∷ event "b" "user_override"
    ∷ event "b" "user_override"
    ∷ record { id = "c"; event_type = "peer_reuse"; parent_session_id = some "p" }
    ∷ []

overrides_once : aggregate events ≡ record {
  peer_reuse_count = none;
  self_reuse_count = none;
  override_rate = some (record { numerator = 1; denominator = 1 });
  suggestion_acceptance = none;
}
unfolding aggregate_side fold_events fold_event count_event signals_of
overrides_once = refl

aggregate_side_twice_example : aggregate_side false (events ++ events) ≡ aggregate_side false events
aggregate_side_twice_example = aggregate_side_twice false events (refl, (refl, (refl, (refl, tt))))
