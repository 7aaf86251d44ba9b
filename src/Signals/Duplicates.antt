-- ===== src/Signals/Duplicates.antt =====
-- Events that come again do not count.
use iter.Common.{
  ◌≡◌, refl, ap, ◌∙◌, Bool, true, false, List, [], ◌∷◌, ◌++◌, All, str_eq, eq_iff, any, Bool-cases,
  inl, inr, arith,
}
use iter.Signals.{
  SessionEvent, Folding, same_side, fold_event, fold_events, signals_of, aggregate_side, no_counts,
}

-- An event with an identifier that is of the other side, or was counted.
abbrev pub Settled : Bool → Folding → SessionEvent → Type 0
Settled side s e =
    (str_eq e.id "" ≡ false) × (same_side side e ≡ true → any (str_eq e.id) s.seen ≡ true)

fold_event-Settled :
    (side : Bool) (e : SessionEvent) (s : Folding) → Settled side s e → fold_event side e s ≡ s
unfolding fold_event
fold_event-Settled side e s h = elim (Bool-cases (same_side side e)) [
  | inl a ↦ rw a (rw h.0 (rw (h.1 a) refl))
  | inr a ↦ rw a refl
]

fold_events-Settled :
    (side : Bool) (again : List SessionEvent) (s : Folding)
    → All (Settled side s) again
    → fold_events side again s ≡ s
unfolding fold_events
fold_events-Settled side [] s h = refl
fold_events-Settled side (e ∷ again) s h =
    ap (fold_events side again) (fold_event-Settled side e s h.0)
    ∙ fold_events-Settled side again s h.1

fold_events-append :
    (side : Bool) (xs ys : List SessionEvent) (s : Folding)
    → fold_events side (xs ++ ys) s ≡ fold_events side ys (fold_events side xs s)
unfolding fold_events
fold_events-append side [] ys s = refl
fold_events-append side (x ∷ xs) ys s = fold_events-append side xs ys (fold_event side x s)

-- What was settled stays so.
keeps_seen :
    (side : Bool) (x e : SessionEvent) (s : Folding)
    → any (str_eq x.id) s.seen ≡ true
    → any (str_eq x.id) (fold_event side e s).seen ≡ true
unfolding fold_event
keeps_seen side x e s h = ground (arith, h)

keeps_seen_all :
    (side : Bool) (x : SessionEvent) (xs : List SessionEvent) (s : Folding)
    → any (str_eq x.id) s.seen ≡ true
    → any (str_eq x.id) (fold_events side xs s).seen ≡ true
unfolding fold_events
keeps_seen_all side x [] s h = h
keeps_seen_all side x (e ∷ xs) s h =
    keeps_seen_all side x xs (fold_event side e s) (keeps_seen side x e s h)

sees :
    (side : Bool) (e : SessionEvent) (s : Folding)
    → str_eq e.id "" ≡ false
    → same_side side e ≡ true
    → any (str_eq e.id) (fold_event side e s).seen ≡ true
unfolding fold_event
sees side e s n a = elim (Bool-cases (any (str_eq e.id) s.seen)) [
  | inl d ↦ rw a (rw n (rw d d))
  | inr d ↦ rw a (rw n (rw d (rw ((eq_iff e.id e.id).1 refl) refl)))
]

abbrev pub Identified : SessionEvent → Type 0
Identified e = str_eq e.id "" ≡ false

All-Settled :
    (side : Bool) (events : List SessionEvent) (s : Folding)
    → All Identified events
    → All (Settled side (fold_events side events s)) events
unfolding fold_events
All-Settled side [] s h = tt
All-Settled side (e ∷ events) s h = (
  (h.0, λ a. keeps_seen_all side e events (fold_event side e s) (sees side e s h.0 a)),
  All-Settled side events (fold_event side e s) h.1,
)

-- When every event has an identifier, a list of events followed by itself gives the same signals as
-- the list alone, for the session and for its subagents.
pub aggregate_side_twice :
    (side : Bool) (events : List SessionEvent)
    → All Identified events
    → aggregate_side side (events ++ events) ≡ aggregate_side side events
unfolding aggregate_side
aggregate_side_twice side events h =
    let start : Folding = record { seen = []; counters = no_counts } in
    ap (λ s. signals_of s.counters)
      (fold_events-append side events events start
        ∙ fold_events-Settled side events (fold_events side events start)
            (All-Settled side events start h))
