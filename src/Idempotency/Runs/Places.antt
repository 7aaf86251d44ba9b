-- ===== src/Idempotency/Runs/Places.antt =====
-- Where a step of a request may lead.
use iter.Common.{
  ℕ, ◌+◌, ◌≡◌, ◌⊎◌, refl, Bool, true, false, Option, none, some, List, str_eq, not, Bool-cases,
  Option-cases, inl, inr,
}
use iter.Common.Bytes.{is_empty}
use iter.Common.KeyStore.{KeyStore}
use iter.Idempotency.{Writer, replay_cached}
use iter.Idempotency.Requests.{
  Request, Keys, Pc, reading, locking, waiting, uncached, owning, done, Weather, Shared, arrive,
  turn, after_replay, read_cache, locked, keys_of, path_has_any_prefix,
}
use iter.Idempotency.Runs.{Setup, turn_of}

-- Where a request stands once it has its answer, or has nothing to ask of Redis.
abbrev pub Settled : Pc → Type 0
Settled p = (p ≡ done) ⊎ (p ≡ uncached)

module _ {R : KeyStore} {App : Type 0} (M : Setup R App) (req : Request) where
  locked-places :
      (d : ℕ) (k : Keys) (r : Bool × R.S) (app : App) (w : Writer)
      → (locked d k r app w).0.pc ≡ owning k ⊎ (locked d k r app w).0.pc ≡ waiting k d
  locked-places d k (true, s) app w = inl refl
  locked-places d k (false, s) app w = inr refl

  pub locking-places :
      (e : Weather) (k : Keys) (w : Writer) (sh : Shared R.S App)
      → let p = (turn_of M req e (record { pc = locking k; writer = w }) sh).0.pc in
        (p ≡ uncached) ⊎ ((p ≡ owning k) ⊎ (p ≡ waiting k (e.now + M.cfg.wait_timeout)))
  unfolding turn
  locking-places e k w sh = elim (Bool-cases e.fails) [
    | inl f ↦ rw f (inl refl)
    | inr f ↦ rw f (inr (locked-places (e.now + M.cfg.wait_timeout) k _ sh.app w))
  ]

  read_cache-places :
      (e : Weather) (k : Keys) (o : Option (List ℕ)) (w : Writer)
      → let p = (read_cache M.codec e k o w).pc in (p ≡ done) ⊎ (p ≡ locking k)
  read_cache-places e k none w = inr refl
  read_cache-places e k (some raw) w = by_replay (replay_cached M.codec e.gone raw w)
    where
      by_replay :
          (r : Bool × Writer)
          → let p = (after_replay (locking k) r).pc in (p ≡ done) ⊎ (p ≡ locking k)
      by_replay (true, w') = inl refl
      by_replay (false, w') = inr refl

  pub reading-places :
      (e : Weather) (k : Keys) (w : Writer) (sh : Shared R.S App)
      → let p = (turn_of M req e (record { pc = reading k; writer = w }) sh).0.pc in
        (p ≡ done) ⊎ (p ≡ locking k)
  unfolding turn
  reading-places e k w sh = elim (Bool-cases e.fails) [
    | inl f ↦ rw f (inr refl)
    | inr f ↦ rw f (read_cache-places e k _ w)
  ]

  pub arrived-places :
      (w : Writer)
      → let p = (arrive M.cfg M.has_redis req w).pc in Settled p ⊎ ((k : Keys) × (p ≡ reading k))
  unfolding arrive
  arrived-places w = elim (Bool-cases (not (str_eq req.method "POST"))) [
    | inl e ↦ rw e (inl (inr refl))
    | inr e1 ↦ elim (Bool-cases (path_has_any_prefix req.path M.cfg.skip_prefixes)) [
      | inl e ↦ rw e1 rw e (inl (inr refl))
      | inr e2 ↦ elim (Bool-cases (not M.has_redis)) [
        | inl e ↦ rw e1 rw e2 rw e (inl (inr refl))
        | inr e3 ↦ elim (Bool-cases (is_empty req.idempotency_key)) [
          | inl e ↦ rw e1 rw e2 rw e3 rw e (inl (inl refl))
          | inr e4 ↦ elim (Option-cases req.tenant) [
            | inl e ↦ rw e1 rw e2 rw e3 rw e4 rw e (inl (inl refl))
            | inr (t, e) ↦ rw e1 rw e2 rw e3 rw e4 rw e (inr (keys_of t req, refl))
          ]
        ]
      ]
    ]
  ]
