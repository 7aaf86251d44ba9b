-- ===== src/Idempotency/Runs/Carried.antt =====
-- The keys that a request carries from step to step.
use iter.Common.{
  ℕ, ◌≡◌, ◌≢◌, refl, sym, ◌+◌, ◌∙◌, subst, Bool, true, false, Option, none, some, List,
  if◌then◌else◌, Option-cases, inl, inr, arith,
}
use iter.Common.Bytes.{bytes}
use iter.Common.KeyStore.{KeyStore}
use iter.Idempotency.{Codec, Writer, Recorded, replay_cached}
use iter.Idempotency.Requests.{
  Request, Keys, keys_of, Pc, arrived, reading, locking, waiting, uncached, owning, persisting,
  releasing, done, Weather, Shared, arrive, turn, after_replay, locked, read_cache, poll,
  after_handler, Config,
}
use iter.Idempotency.Runs.{Setup, turn_of}
use iter.Idempotency.Runs.Effect.{carried, IsApart, NamesApart, none-some}

after_replay-carried :
    (p : Pc) (r : Bool × Writer) (k : Keys)
    → carried (after_replay p r).pc ≡ some k
    → carried p ≡ some k
after_replay-carried p (true, w) k h = absurd (none-some none k refl h)
after_replay-carried p (false, w) k h = h

read_cache-carried :
    (codec : Codec) (e : Weather) (k k' : Keys) (o : Option (List ℕ)) (w : Writer)
    → carried (read_cache codec e k o w).pc ≡ some k'
    → some k ≡ some k'
read_cache-carried codec e k k' none w h = h
read_cache-carried codec e k k' (some raw) w h =
    after_replay-carried (locking k) (replay_cached codec e.gone raw w) k' h

poll-carried :
    (codec : Codec) (e : Weather) (k k' : Keys) (d : ℕ) (o : Option (List ℕ)) (w : Writer)
    → carried (poll codec e k d o w).pc ≡ some k'
    → some k ≡ some k'
poll-carried codec e k k' d none w h = ground arith
poll-carried codec e k k' d (some raw) w h =
    absurd (
      none-some none k' refl
        (after_replay-carried uncached (replay_cached codec e.gone raw w) k' h))

locked-carried :
    {S App : Type 0} (d : ℕ) (k k' : Keys) (r : Bool × S) (app : App) (w : Writer)
    → carried (locked d k r app w).0.pc ≡ some k'
    → some k ≡ some k'
locked-carried d k k' (true, s) app w h = h
locked-carried d k k' (false, s) app w h = h

after_handler-carried :
    (max : ℕ) (k : Keys) (rec : Recorded) → carried (after_handler max k rec) ≡ some k
after_handler-carried max k rec = ground arith

either_carried :
    {X : Type 0} (at : X → Pc) (b : Bool) (x y : X) (k k' : Keys)
    → (carried (at x) ≡ some k' → some k ≡ some k')
    → (carried (at y) ≡ some k' → some k ≡ some k')
    → carried (at (if b then x else y)) ≡ some k'
    → some k ≡ some k'
either_carried at true x y k k' hx hy q = hx q
either_carried at false x y k k' hx hy q = hy q

arrive-carried :
    (cfg : Config) (has_redis : Bool) (req : Request) (w : Writer) (k : Keys)
    → carried (arrive cfg has_redis req w).pc ≡ some k
    → (tenant : List ℕ) × (req.tenant ≡ some tenant) × (keys_of tenant req ≡ k)
unfolding arrive
arrive-carried cfg has_redis req w k q = elim (Option-cases req.tenant) [
  | inl e ↦ absurd (ground (arith, e))
  | inr (tenant, e) ↦ (tenant, e, ground (arith, e))
]

module _ {R : KeyStore} {App : Type 0} (M : Setup R App) (l : List ℕ) where
  pub turn-IsApart :
      (req : Request) (e : Weather) (p : Pc) (w : Writer) (sh : Shared R.S App)
      → NamesApart l req
      → IsApart l p
      → IsApart l (turn_of M req e (record { pc = p; writer = w }) sh).0.pc
  unfolding turn arrive
  turn-IsApart req e arrived w sh names h k q =
      let named = arrive-carried M.cfg M.has_redis req w k q in
      subst (λ x. x.cache_key ≢ l) named.2 (names named.0 named.1)
  turn-IsApart req e (reading k) w sh names h k' q = h k' (
      either_carried (λ job. job.pc) e.fails (record { pc = locking k; writer = w })
        (read_cache M.codec e k (R.get k.cache_key sh.redis) w) k k' (λ x. x)
        (read_cache-carried M.codec e k k' _ w) q)
  turn-IsApart req e (locking k) w sh names h k' q = h k' (
      either_carried (λ next. next.0.pc) e.fails (record { pc = uncached; writer = w }, sh)
        (locked (e.now + M.cfg.wait_timeout) k
          (R.set_nx M.cfg.lock_ttl k.lock_key (bytes "1") sh.redis) sh.app w)
        k k' (λ x. absurd (none-some none k' refl x)) (locked-carried _ k k' _ sh.app w) q)
  turn-IsApart req e (waiting k d) w sh names h k' q = h k' (
      either_carried (λ job. job.pc) e.fails (record { pc = uncached; writer = w })
        (poll M.codec e k d (R.get k.cache_key sh.redis) w) k k'
        (λ x. absurd (none-some none k' refl x)) (poll-carried M.codec e k k' d _ w) q)
  turn-IsApart req e uncached w sh names h k' q = h k' q
  turn-IsApart req e (owning k) w sh names h k' q =
      h k' (sym (after_handler-carried M.cfg.max_body k _) ∙ q)
  turn-IsApart req e (persisting k rec) w sh names h k' q = h k' q
  turn-IsApart req e (releasing k rec) w sh names h k' q = absurd (none-some none k' refl q)
  turn-IsApart req e done w sh names h k' q = h k' q
