-- ===== src/Idempotency/Runs/Answered.antt =====
-- Every request is answered.
use iter.Common.{
  ℕ, zero, suc, ◌+◌, ◌*◌, ◌≡◌, ◌≤◌, ◌<◌, sym, subst, Bool, true, false, List, [], ◌∷◌, length, ltb,
  if◌then◌else◌, inl, inr, arith,
}
use iter.Common.KeyStore.{KeyStore}
use iter.Idempotency.{Writer, Recorded}
use iter.Idempotency.Requests.{
  Request, Keys, Pc, arrived, reading, locking, waiting, owning, persisting, releasing, done, Job,
  Weather, Shared, turn,
}
use iter.Idempotency.Runs.{Setup, turn_of, among, start}
use iter.Idempotency.Runs.Places.{Settled, locking-places, reading-places, arrived-places}
use iter.Idempotency.Runs.Waiting.{
  pause, IsPaced, IsAnswered, done-IsAnswered, uncached-IsAnswered, waiting-IsAnswered,
}

module _ {R : KeyStore} {App : Type 0} (M : Setup R App) (req : Request) where
  releasing-IsAnswered :
      (es : List (Weather × Shared R.S App)) (k : Keys) (rec : Recorded) (w : Writer)
      → 1 ≤ length es
      → IsAnswered M req es (releasing k rec) w
  unfolding among turn
  releasing-IsAnswered [] k rec w h = absurd (omega arith)
  releasing-IsAnswered ((e, sh) ∷ es) k rec w h = done-IsAnswered M req es _

  persisting-IsAnswered :
      (es : List (Weather × Shared R.S App)) (k : Keys) (rec : Recorded) (w : Writer)
      → 2 ≤ length es
      → IsAnswered M req es (persisting k rec) w
  unfolding among turn
  persisting-IsAnswered [] k rec w h = absurd (omega arith)
  persisting-IsAnswered ((e, sh) ∷ es) k rec w h =
      releasing-IsAnswered es k rec _ (omega (arith, h))

  owning-IsAnswered :
      (es : List (Weather × Shared R.S App)) (k : Keys) (w : Writer)
      → 3 ≤ length es
      → IsAnswered M req es (owning k) w
  unfolding among turn
  owning-IsAnswered [] k w h = absurd (omega arith)
  owning-IsAnswered ((e, sh) ∷ es) k w h = by_size _ (ltb M.cfg.max_body _)
    where
      by_size :
          (rec : Recorded) (b : Bool)
          → IsAnswered M req es (if b then releasing k rec else persisting k rec) w
      by_size rec true = releasing-IsAnswered es k rec _ (omega (arith, h))
      by_size rec false = persisting-IsAnswered es k rec _ (omega (arith, h))

  Settled-IsAnswered :
      (es : List (Weather × Shared R.S App)) (job : Job)
      → Settled job.pc
      → 1 ≤ length es
      → IsAnswered M req es job.pc job.writer
  Settled-IsAnswered es job (inl q) h =
      subst (λ p. IsAnswered M req es p job.writer) (sym q) (done-IsAnswered M req es _)
  Settled-IsAnswered es job (inr q) h =
      subst (λ p. IsAnswered M req es p job.writer) (sym q) (uncached-IsAnswered M req es _ h)

  -- To go on from where a step led.
  moved :
      (es : List (Weather × Shared R.S App)) (t : ℕ) (from p : Pc) (job : Job)
      → job.pc ≡ p
      → IsPaced M req (t + pause M.cfg.poll_every from job.pc) es job
      → (IsPaced M req
            (t + pause M.cfg.poll_every from p)
            es
            (record { pc = p; writer = job.writer })
          → IsAnswered M req es p job.writer)
      → IsAnswered M req es job.pc job.writer
  moved es t from p job q paced go =
      subst (λ x. IsAnswered M req es x job.writer) (sym q)
        (go (
          subst
            (λ x.
              IsPaced M req (t + pause M.cfg.poll_every from x) es
                (record { pc = x; writer = job.writer }))
            q paced))

  module _ (n : ℕ) (enough : M.cfg.wait_timeout < n * M.cfg.poll_every) where
    locking-IsAnswered :
        (es : List (Weather × Shared R.S App)) (now : ℕ) (k : Keys) (w : Writer)
        → 1 ≤ n
        → n + 3 ≤ length es
        → IsPaced M req now es (record { pc = locking k; writer = w })
        → IsAnswered M req es (locking k) w
    unfolding among
    locking-IsAnswered [] now k w some_poll h paced = absurd (omega (arith, h))
    locking-IsAnswered ((e, sh) ∷ es) now k w some_poll h paced =
        let next = (turn_of M req e (record { pc = locking k; writer = w }) sh).0 in
        elim (locking-places M req e k w sh) [
          | inl q ↦ Settled-IsAnswered es next (inr q) (omega (arith, h))
          | inr (inl q) ↦
              moved es e.now (locking k) (owning k) next q paced.1
                (λ p. owning-IsAnswered es k _ (omega (arith, h, some_poll)))
          | inr (inr q) ↦
              moved es e.now (locking k) (waiting k (e.now + M.cfg.wait_timeout)) next q paced.1
                (λ p.
                  waiting-IsAnswered M req n es (e.now + 0) k (e.now + M.cfg.wait_timeout) _
                    (omega (arith, enough)) (omega (arith, h)) p)
        ]

    reading-IsAnswered :
        (es : List (Weather × Shared R.S App)) (now : ℕ) (k : Keys) (w : Writer)
        → 1 ≤ n
        → n + 4 ≤ length es
        → IsPaced M req now es (record { pc = reading k; writer = w })
        → IsAnswered M req es (reading k) w
    unfolding among
    reading-IsAnswered [] now k w some_poll h paced = absurd (omega (arith, h))
    reading-IsAnswered ((e, sh) ∷ es) now k w some_poll h paced =
        let next = (turn_of M req e (record { pc = reading k; writer = w }) sh).0 in
        elim (reading-places M req e k w sh) [
          | inl q ↦ Settled-IsAnswered es next (inl q) (omega (arith, h))
          | inr q ↦
              moved es e.now (reading k) (locking k) next q paced.1
                (λ p. locking-IsAnswered es (e.now + 0) k _ some_poll (omega (arith, h)) p)
        ]

    arrived-IsAnswered :
        (es : List (Weather × Shared R.S App)) (now : ℕ) (w : Writer)
        → 1 ≤ n
        → n + 5 ≤ length es
        → IsPaced M req now es (start w)
        → IsAnswered M req es arrived w
    unfolding among turn
    arrived-IsAnswered [] now w some_poll h paced = absurd (omega (arith, h))
    arrived-IsAnswered ((e, sh) ∷ es) now w some_poll h paced =
        let next = (turn_of M req e (start w) sh).0 in
        elim (arrived-places M req w) [
          | inl q ↦ Settled-IsAnswered es next q (omega (arith, h))
          | inr (k, q) ↦
              moved es e.now arrived (reading k) next q paced.1
                (λ p. reading-IsAnswered es (e.now + 0) k _ some_poll (omega (arith, h)) p)
        ]

  some_round : (n m p : ℕ) → m < n * p → 1 ≤ n
  some_round zero m p h = absurd (omega (arith, h))
  some_round (suc n) m p h = omega arith

  -- Every request comes to its end, whatever calls of Redis fail and whatever the other requests
  -- leave in the store and the application before each of its steps: within five steps more than
  -- the number of intervals that it takes to exceed the time it waits, as long as it sleeps for
  -- the interval between two polls and the clock does not go back.
  pub request_answered :
      (n : ℕ) (es : List (Weather × Shared R.S App)) (now : ℕ) (w : Writer)
      → M.cfg.wait_timeout < n * M.cfg.poll_every
      → n + 5 ≤ length es
      → IsPaced M req now es (start w)
      → (among M req es (start w)).pc ≡ done
  request_answered n es now w enough h paced =
      arrived-IsAnswered n enough es now w (some_round n M.cfg.wait_timeout M.cfg.poll_every enough)
        h paced
