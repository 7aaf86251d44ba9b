-- ===== src/Signals.antt =====
-- internal/signals/signals.go: the score signals of a session, folded from its events.
pub mod Duplicates
mod Tests
use iter.Common.{
  ℕ, zero, suc, ◌+◌, Bool, true, false, ◌&&◌, Option, none, some, List, [], ◌∷◌, String, str_eq,
  ltb, any, if◌then◌else◌,
}

-- The fields that the fold reads.
pub record SessionEvent : Type 0 where
  pub id : String
  pub event_type : String
  pub parent_session_id : Option String

abbrev pub is_subagent : SessionEvent → Bool
is_subagent e = elim e.parent_session_id [
  | none ↦ false
  | some parent ↦ if str_eq parent "" then false else true
]

pub record Counters : Type 0 where
  pub peer : ℕ
  pub self_reuse : ℕ
  pub turns : ℕ
  pub overrides : ℕ
  pub acceptances : ℕ
  pub rejections : ℕ

-- A rate is its two counts; the code divides them as floating-point numbers.
pub record Rate : Type 0 where
  pub numerator : ℕ
  pub denominator : ℕ

-- The durability signals are never set here.
pub record ScoreSignals : Type 0 where
  pub peer_reuse_count : Option ℕ
  pub self_reuse_count : Option ℕ
  pub override_rate : Option Rate
  pub suggestion_acceptance : Option Rate

abbrev pub no_counts : Counters
no_counts = record {
  peer = 0;
  self_reuse = 0;
  turns = 0;
  overrides = 0;
  acceptances = 0;
  rejections = 0;
}

unfoldable pub count_event : String → Counters → Counters
count_event t c =
    if str_eq t "peer_reuse"
    then record c { peer = suc c.peer }
    else if str_eq t "self_reuse"
    then record c { self_reuse = suc c.self_reuse }
    else if str_eq t "turn_completed"
    then record c { turns = suc c.turns }
    else if str_eq t "user_override"
    then record c { overrides = suc c.overrides }
    else if str_eq t "suggestion_accepted"
    then record c { acceptances = suc c.acceptances }
    else if str_eq t "suggestion_rejected"
    then record c { rejections = suc c.rejections }
    else c

pub record Folding : Type 0 where
  pub seen : List String
  pub counters : Counters

abbrev pub same_side : Bool → SessionEvent → Bool
same_side true e = is_subagent e
same_side false e = if is_subagent e then false else true

-- One turn of the loop: an event of the other side, or with a seen identifier, is passed over.
unfoldable pub fold_event : Bool → SessionEvent → Folding → Folding
fold_event want_subagent e s =
    if same_side want_subagent e
    then if str_eq e.id ""
      then record s { counters = count_event e.event_type s.counters }
      else if any (str_eq e.id) s.seen
      then s
      else record { seen = e.id ∷ s.seen; counters = count_event e.event_type s.counters }
    else s

unfoldable pub fold_events : Bool → List SessionEvent → Folding → Folding
fold_events want_subagent [] s = s
fold_events want_subagent (e ∷ events) s =
    fold_events want_subagent events (fold_event want_subagent e s)

abbrev positive : ℕ → Option ℕ
positive n = if ltb 0 n then some n else none

-- A rate above one is one.
abbrev clamped : ℕ → ℕ → Rate
clamped n d =
    if ltb d n
    then record { numerator = 1; denominator = 1 }
    else record { numerator = n; denominator = d }

unfoldable pub signals_of : Counters → ScoreSignals
signals_of c = record {
  peer_reuse_count = positive c.peer;
  self_reuse_count = positive c.self_reuse;
  override_rate =
      if ltb 0 c.overrides && ltb 0 c.turns then some (clamped c.overrides c.turns) else none;
  suggestion_acceptance =
      if ltb 0 (c.acceptances + c.rejections)
      then some (record { numerator = c.acceptances; denominator = c.acceptances + c.rejections })
      else none;
}

unfoldable pub aggregate_side : Bool → List SessionEvent → ScoreSignals
aggregate_side want_subagent events =
    signals_of
      (fold_events want_subagent events (record { seen = []; counters = no_counts })).counters

abbrev pub aggregate : List SessionEvent → ScoreSignals
aggregate events = aggregate_side false events

abbrev pub aggregate_subagent : List SessionEvent → ScoreSignals
aggregate_subagent events = aggregate_side true events
