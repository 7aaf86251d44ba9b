-- ===== src/RateLimit/Window.antt =====
-- No window of the given length holds more admissions than the limit.
use iter.Common.{
  ℕ, ◌+◌, ◌≤◌, ◌<◌, ◌≡◌, refl, ap, Bool, true, false, not, ◌&&◌, ltb, leb, lt→ltb, ltb→lt, ge→ltb,
  leb→gt, leb→le, if◌then◌else◌, List, [], ◌∷◌, count_if, All, Bool-cases, inl, inr, arith,
}
use iter.RateLimit.{Entry, not_member, SortedSet, record_request, rate_limit_script}
use iter.RateLimit.Counts.{
  count_if_mono, count_if-length, count_if-keep_all, alive, recent, kept, kept-le, kept-alive,
}

-- Requests are a time and a member. The times of those that are admitted, newest first, on top of
-- `admitted`.
abbrev pub admissions : (S : SortedSet) → (window limit : ℕ) → List Entry → S.Z → List ℕ → List ℕ
admissions S window limit [] z admitted = admitted
admissions S window limit (r ∷ requests) z admitted =
    let res = rate_limit_script S r.0 window limit r.1 z in
    admissions S window limit requests res.key (if res.allowed then r.0 ∷ admitted else admitted)

-- The times do not go back.
abbrev pub From : ℕ → List Entry → Type 0
From t [] = Unit
From t (r ∷ requests) = (t ≤ r.0) × From r.0 requests

-- No member comes twice.
abbrev pub Distinct : List Entry → Type 0
Distinct [] = Unit
Distinct (r ∷ requests) = All (λ s. not_member s.1 r ≡ true) requests × Distinct requests

-- An admission in the window that starts at `t`.
abbrev pub within : ℕ → ℕ → ℕ → Bool
within window t a = leb t a && ltb a (t + window)

abbrev pub Unused : (S : SortedSet) → S.Z → Entry → Type 0
Unused S z r = count_if (λ e. not (not_member r.1 e)) (S.entries z) ≡ 0

record Inv (S : SortedSet) (window limit now : ℕ) (requests : List Entry) (z : S.Z)
    (admitted : List ℕ) : Type 0 where
  pub counted :
      (t : ℕ)
      → now ≤ t
      → count_if (recent window t) admitted ≤ count_if (alive window t) (S.entries z)
  pub expired : (t : ℕ) → S.deadline z ≤ t → count_if (alive window t) (S.entries z) ≡ 0
  pub past : (t : ℕ) → now + window ≤ t → count_if (alive window t) (S.entries z) ≡ 0
  pub unused : All (Unused S z) requests
  pub bounded : (t : ℕ) → count_if (within window t) admitted ≤ limit

within-recent :
    (window t now a : ℕ) → now < t + window → within window t a ≡ true → recent window now a ≡ true
within-recent window t now a l h =
    lt→ltb now (a + window) (started (leb t a) (ltb a (t + window)) refl h)
  where
    started : (b c : Bool) → leb t a ≡ b → (b && c) ≡ true → now < a + window
    started true c e k = let le = leb→le t a e in omega (arith, le, l)
    started false c e k = absurd (ground (arith, k))

within-ends : (window t a : ℕ) → within window t a ≡ true → a < t + window
within-ends window t a h = started (leb t a) h
  where
    started : (b : Bool) → (b && ltb a (t + window)) ≡ true → a < t + window
    started true e = ltb→lt a (t + window) e
    started false e = absurd (ground (arith, e))

module _ (S : SortedSet) (window limit : ℕ) where
  -- The counts of a key to which a request under an unused member is added.
  added :
      (r : Entry) (z : S.Z) (p : Entry → Bool)
      → Unused S z r
      → count_if p (S.entries (record_request S r.0 window r.1 z))
        ≡ (if p r then 1 else 0) + count_if p (S.entries z)
  unfolding record_request
  added r z p u =
      let new = S.entries-add r.0 r.1 z p in
      let same = count_if-keep_all p (not_member r.1) (S.entries z) u in
      rw (S.entries-expire (r.0 + (window + 1000)) (S.add r.0 r.1 z)) (ground (arith, new, same))

  kept-Unused :
      (later : ℕ) (requests : List Entry) (z : S.Z)
      → All (Unused S z) requests
      → All (Unused S (kept S window later z)) requests
  kept-Unused later [] z h = tt
  kept-Unused later (r ∷ requests) z h = (
    let le = kept-le S window later z (λ e. not (not_member r.1 e)) in omega (arith, le, h.0),
    kept-Unused later requests z h.1,
  )

  add-Unused :
      (r : Entry) (requests : List Entry) (z : S.Z)
      → Unused S z r
      → All (λ s. not_member s.1 r ≡ true) requests
      → All (Unused S z) requests
      → All (Unused S (record_request S r.0 window r.1 z)) requests
  add-Unused r [] z u fresh h = tt
  add-Unused r (s ∷ requests) z u fresh h = (
    (let e = added r z (λ x. not (not_member s.1 x)) u in
        let b = ap {B = ℕ} (λ c. if not c then 1 else 0) fresh.0 in omega (arith, e, b, h.0)),
    add-Unused r requests z u fresh.1 h.1,
  )

  start-Inv :
      (requests : List Entry) (z : S.Z) → S.entries z ≡ [] → Inv S window limit 0 requests z []
  start-Inv requests z empty = record {
    counted = λ t l. omega arith;
    expired = λ t l. rw empty refl;
    past = λ t l. rw empty refl;
    unused = none_used requests;
    bounded = λ t. omega arith;
  }
    where
      none_used : (rs : List Entry) → All (Unused S z) rs
      none_used [] = tt
      none_used (r ∷ rs) = (rw empty refl, none_used rs)

  kept-Inv :
      (now later : ℕ) (requests : List Entry) (z : S.Z) (admitted : List ℕ)
      → now ≤ later
      → Inv S window limit now requests z admitted
      → Inv S window limit later requests (kept S window later z) admitted
  kept-Inv now later requests z admitted l h = record {
    counted = λ t k.
        let same = kept-alive S window later z t k (λ d. h.expired t (omega (arith, d, k))) in
        let c = h.counted t (omega (arith, l, k)) in omega (arith, same, c);
    expired = λ t k.
        let le = kept-le S window later z (alive window t) in
        let c = h.expired t (
          omega (
            arith,
            k,
            ap {B = ℕ} (λ d. d) (S.deadline-evict later window (S.live later z)),
            S.deadline-live later z,
          )) in
        omega (arith, le, c);
    past = λ t k.
        let le = kept-le S window later z (alive window t) in
        let c = h.past t (omega (arith, l, k)) in omega (arith, le, c);
    unused = kept-Unused later requests z h.unused;
    bounded = h.bounded;
  }

  dead :
      (r : Entry) (z : S.Z) (t : ℕ)
      → S.deadline (record_request S r.0 window r.1 z) ≤ t
      → r.0 + window ≤ t
  unfolding record_request
  dead r z t k =
      let d = S.deadline-expire (r.0 + (window + 1000)) (S.add r.0 r.1 z) in omega (arith, d, k)

  gone :
      (r : Entry) (z : S.Z) (t : ℕ)
      → Unused S z r
      → r.0 + window ≤ t
      → count_if (alive window t) (S.entries z) ≡ 0
      → count_if (alive window t) (S.entries (record_request S r.0 window r.1 z)) ≡ 0
  gone r z t u late c =
      let a = added r z (alive window t) u in
      let b = ap {B = ℕ} (λ x. if x then 1 else 0) (ge→ltb t (r.0 + window) late) in
      omega (arith, a, b, c)

  full :
      (r : Entry) (admitted : List ℕ) (z : S.Z) (t : ℕ)
      → count_if (within window t) admitted ≤ limit
      → count_if (recent window r.0) admitted ≤ count_if (alive window r.0) (S.entries z)
      → S.card z < limit
      → count_if (within window t) (r.0 ∷ admitted) ≤ limit
  full r admitted z t b c room = elim (Bool-cases (within window t r.0)) [
    | inr e ↦ rw e b
    | inl e ↦
        let starts = within-ends window t r.0 e in
        let m =
          count_if_mono (within window t) (recent window r.0)
            (λ a w. within-recent window t r.0 a starts w) admitted in
        let n = count_if-length (alive window r.0) (S.entries z) in
        let size = S.card-entries z in rw e (omega (arith, m, n, size, c, room))
  ]

  add-Inv :
      (r : Entry) (requests : List Entry) (z : S.Z) (admitted : List ℕ)
      → Inv S window limit r.0 (r ∷ requests) z admitted
      → All (λ s. not_member s.1 r ≡ true) requests
      → S.card z < limit
      → Inv S window limit r.0 requests (record_request S r.0 window r.1 z) (r.0 ∷ admitted)
  add-Inv r requests z admitted h fresh room = record {
    counted = λ t k.
        let a = added r z (alive window t) h.unused.0 in
        let c = h.counted t k in ground (arith, a, c);
    expired = λ t k. let late = dead r z t k in gone r z t h.unused.0 late (h.past t late);
    past = λ t k. gone r z t h.unused.0 k (h.past t k);
    unused = add-Unused r requests z h.unused.0 fresh h.unused.1;
    bounded = λ t. full r admitted z t (h.bounded t) (h.counted r.0 (omega arith)) room;
  }

  step-Inv :
      (now : ℕ) (r : Entry) (requests : List Entry) (z : S.Z) (admitted : List ℕ)
      → now ≤ r.0
      → Inv S window limit now (r ∷ requests) z admitted
      → All (λ s. not_member s.1 r ≡ true) requests
      → Inv S window limit r.0 requests (rate_limit_script S r.0 window limit r.1 z).key (
          if (rate_limit_script S r.0 window limit r.1 z).allowed then r.0 ∷ admitted else admitted)
  unfolding rate_limit_script
  step-Inv now r requests z admitted l h fresh =
      let k = kept-Inv now r.0 (r ∷ requests) z admitted l h in
      elim (Bool-cases (leb limit (S.card (kept S window r.0 z)))) [
        | inl e ↦ rw e (record {
          counted = k.counted;
          expired = k.expired;
          past = k.past;
          unused = k.unused.1;
          bounded = k.bounded;
        })
        | inr e ↦ rw e (
            add-Inv r requests (kept S window r.0 z) admitted k fresh
              (leb→gt limit (S.card (kept S window r.0 z)) e))
      ]

  admissions-bounded :
      (now : ℕ) (requests : List Entry) (z : S.Z) (admitted : List ℕ) (t : ℕ)
      → From now requests
      → Distinct requests
      → Inv S window limit now requests z admitted
      → count_if (within window t) (admissions S window limit requests z admitted) ≤ limit
  admissions-bounded now [] z admitted t f d h = h.bounded t
  admissions-bounded now (r ∷ requests) z admitted t f d h =
      admissions-bounded r.0 requests (rate_limit_script S r.0 window limit r.1 z).key
        (if (rate_limit_script S r.0 window limit r.1 z).allowed then r.0 ∷ admitted else admitted)
        t f.1 d.1 (step-Inv now r requests z admitted f.0 h d.0)

  -- Starting from an empty key, with times that do not go back and no member used twice: whatever
  -- the requests are, no window of `window` milliseconds, wherever it starts, holds more than
  -- `limit` admissions.
  pub window_limit :
      (requests : List Entry) (z : S.Z) (t : ℕ)
      → S.entries z ≡ []
      → From 0 requests
      → Distinct requests
      → count_if (within window t) (admissions S window limit requests z []) ≤ limit
  window_limit requests z t empty f d =
      admissions-bounded 0 requests z [] t f d (start-Inv requests z empty)
