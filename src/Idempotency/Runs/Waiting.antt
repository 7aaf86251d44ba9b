-- ===== src/Idempotency/Runs/Waiting.antt =====
-- A request that lost the lock waits, but not for ever.
use iter.Common.{
  ℕ, suc, ◌+◌, ◌*◌, ◌≡◌, ◌≤◌, ◌<◌, refl, Bool, true, false, Option, none, some, List, [], ◌∷◌,
  length, ltb, ltb→ge, ◌⊎◌, zero, sym, subst, Bool-cases, inl, inr, arith, ltb→ge, ◌⊎◌, zero, sym,
  subst,
}
use iter.Common.KeyStore.{KeyStore}
use iter.Idempotency.{Writer, replay_cached}
use iter.Idempotency.Requests.{
  Request, Keys, Pc, waiting, uncached, done, Job, Weather, Shared, turn, after_replay, poll,
}
use iter.Idempotency.Runs.{Setup, turn_of, among}

-- Between two polls the request sleeps.
abbrev pub pause : ℕ → Pc → Pc → ℕ
pause every (waiting k d) (waiting k' d') = every
pause every _ _ = 0

module _ {R : KeyStore} {App : Type 0} (M : Setup R App) (req : Request) where
  -- The clock does not go back, and no poll comes before the end of its sleep.
  abbrev pub IsPaced : ℕ → List (Weather × Shared R.S App) → Job → Type 0
  IsPaced now [] job = Unit
  IsPaced now ((e, sh) ∷ es) job =
      let next = (turn_of M req e job sh).0 in
      (now ≤ e.now) × IsPaced (e.now + pause M.cfg.poll_every job.pc next.pc) es next

  abbrev pub IsAnswered : List (Weather × Shared R.S App) → Pc → Writer → Type 0
  IsAnswered es p w = (among M req es (record { pc = p; writer = w })).pc ≡ done

  pub done-IsAnswered : (es : List (Weather × Shared R.S App)) (w : Writer) → IsAnswered es done w
  unfolding among turn
  done-IsAnswered [] w = refl
  done-IsAnswered ((e, sh) ∷ es) w = done-IsAnswered es w

  pub uncached-IsAnswered :
      (es : List (Weather × Shared R.S App)) (w : Writer) → 1 ≤ length es → IsAnswered es uncached w
  unfolding among turn
  uncached-IsAnswered [] w h = absurd (omega arith)
  uncached-IsAnswered ((e, sh) ∷ es) w h = done-IsAnswered es _

  -- Where it stands after a poll.
  abbrev Polled : ℕ → Keys → ℕ → Pc → Type 0
  Polled now k d p = (p ≡ done) ⊎ ((p ≡ uncached) ⊎ ((p ≡ waiting k d) × (now ≤ d)))

  after_replay-Polled :
      (now : ℕ) (k : Keys) (d : ℕ) (r : Bool × Writer) → Polled now k d (after_replay uncached r).pc
  after_replay-Polled now k d (true, w) = inl refl
  after_replay-Polled now k d (false, w) = inr (inl refl)

  poll-Polled :
      (e : Weather) (k : Keys) (d : ℕ) (o : Option (List ℕ)) (w : Writer)
      → Polled e.now k d (poll M.codec e k d o w).pc
  poll-Polled e k d none w = elim (Bool-cases (ltb d e.now)) [
    | inl late ↦ rw late (inr (inl refl))
    | inr early ↦ elim (Bool-cases e.cancelled) [
      | inl c ↦ rw early rw c (inr (inl refl))
      | inr c ↦ rw early rw c (inr (inr (refl, ltb→ge d e.now early)))
    ]
  ]
  poll-Polled e k d (some raw) w =
      after_replay-Polled e.now k d (replay_cached M.codec e.gone raw w)

  waiting-Polled :
      (e : Weather) (k : Keys) (d : ℕ) (w : Writer) (sh : Shared R.S App)
      → Polled e.now k d (turn_of M req e (record { pc = waiting k d; writer = w }) sh).0.pc
  unfolding turn
  waiting-Polled e k d w sh = elim (Bool-cases e.fails) [
    | inl f ↦ rw f (inr (inl refl))
    | inr f ↦ rw f (poll-Polled e k d _ w)
  ]

  pub waiting-IsAnswered :
      (n : ℕ) (es : List (Weather × Shared R.S App)) (now : ℕ) (k : Keys) (d : ℕ) (w : Writer)
      → d < now + n * M.cfg.poll_every
      → n + 2 ≤ length es
      → IsPaced now es (record { pc = waiting k d; writer = w })
      → IsAnswered es (waiting k d) w
  unfolding among
  waiting-IsAnswered n [] now k d w h few paced = absurd (omega (arith, few))
  waiting-IsAnswered n ((e, sh) ∷ es) now k d w h few paced =
      let next = (turn_of M req e (record { pc = waiting k d; writer = w }) sh).0 in
      elim (waiting-Polled e k d w sh) [
        | inl q ↦ subst (λ p. IsAnswered es p next.writer) (sym q) (done-IsAnswered es next.writer)
        | inr (inl q) ↦
            subst (λ p. IsAnswered es p next.writer) (sym q)
              (uncached-IsAnswered es next.writer (omega (arith, few)))
        | inr (inr (q, early)) ↦
            subst (λ p. IsAnswered es p next.writer) (sym q)
              (by_rounds n h few early (λ m g f.
                waiting-IsAnswered m es (e.now + M.cfg.poll_every) k d next.writer g f (
                  subst
                    (λ p.
                      IsPaced (e.now + pause M.cfg.poll_every (waiting k d) p) es
                        (record { pc = p; writer = next.writer }))
                    q paced.1)))
      ]
    where
      by_rounds :
          {X : Type 0} (m : ℕ)
          → d < now + m * M.cfg.poll_every
          → m + 2 ≤ suc (length es)
          → e.now ≤ d
          → ((m' : ℕ)
              → d < e.now + M.cfg.poll_every + m' * M.cfg.poll_every
              → m' + 2 ≤ length es
              → X)
          → X
      by_rounds zero g f early ih = absurd (omega (arith, g, early, paced.0))
      by_rounds (suc m) g f early ih = ih m (omega (arith, g, paced.0)) (omega (arith, f))
