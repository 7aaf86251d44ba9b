-- ===== src/Idempotency/Runs/Steps.antt =====
-- The steps of a request that goes well, one by one.
use iter.Common.{
  ℕ, ◌≡◌, ◌≤◌, refl, ap, true, false, none, some, List, [], ◌∷◌, str_eq, length, ge→ltb,
}
use iter.Common.Bytes.{bytes, is_empty}
use iter.Common.KeyStore.{KeyStore, KeyLaws}
use iter.Idempotency.{Writer, Recorded, recorded, new_recorder, payload_of, write_recorded}
use iter.Idempotency.Replay.{ReadsBack, replay_cached_lem}
use iter.Idempotency.Requests.{
  Config, Request, Keys, keys_of, reading, locking, owning, persisting, releasing, Job, Weather,
  Shared, arrive, turn, path_has_any_prefix,
}
use iter.Idempotency.Runs.{Setup, turn_of, turns, start, fair, done_with}

-- A request of a tenant that the middleware does not pass by.
pub record TakesPart (cfg : Config) (tenant : List ℕ) (req : Request) : Type 0 where
  pub post : str_eq req.method "POST" ≡ true
  pub kept : path_has_any_prefix req.path cfg.skip_prefixes ≡ false
  pub keyed : is_empty req.idempotency_key ≡ false
  pub owned : req.tenant ≡ some tenant

module _ {R : KeyStore} {App : Type 0} (M : Setup R App) (req : Request) where
  -- What the handler answers.
  abbrev pub response : App → Recorded
  response app = recorded (M.serve req app new_recorder).0

  pub turns_step :
      (e : Weather) (es : List Weather) (job next : Job) (sh after : Shared R.S App)
      → turn_of M req e job sh ≡ (next, after)
      → turns M req (e ∷ es) job sh ≡ turns M req es next after
  unfolding turns
  turns_step e es job next sh after q = ap (λ r. turns M req es r.0 r.1) q

  pub done_stays :
      (es : List Weather) (w : Writer) (sh : Shared R.S App)
      → turns M req es (done_with w) sh ≡ (done_with w, sh)
  unfolding turns turn
  done_stays [] w sh = refl
  done_stays (e ∷ es) w sh = done_stays es w sh

  module _ (tenant : List ℕ) (now : ℕ) (w : Writer) (sh : Shared R.S App) where
    abbrev k : Keys
    k = keys_of tenant req

    pub arrives :
        TakesPart M.cfg tenant req
        → M.has_redis ≡ true
        → turn_of M req (fair now) (start w) sh ≡ (record { pc = reading k; writer = w }, sh)
    unfolding turn arrive
    arrives part redis = rw part.post rw part.kept rw redis rw part.keyed rw part.owned refl

    pub misses :
        R.get k.cache_key sh.redis ≡ none
        → turn_of M req (fair now) (record { pc = reading k; writer = w }) sh
          ≡ (record { pc = locking k; writer = w }, sh)
    unfolding turn
    misses e = rw e refl

    pub hits :
        (rec : Recorded) (raw : List ℕ)
        → R.get k.cache_key sh.redis ≡ some raw
        → ReadsBack M.codec rec raw
        → turn_of M req (fair now) (record { pc = reading k; writer = w }) sh
          ≡ (done_with (write_recorded rec true w), sh)
    unfolding turn
    hits rec raw e back = rw e rw (replay_cached_lem M.codec rec raw false w back) refl

    pub locks :
        KeyLaws R
        → R.get k.lock_key sh.redis ≡ none
        → turn_of M req (fair now) (record { pc = locking k; writer = w }) sh ≡ (
          record { pc = owning k; writer = w },
          record { redis = R.set M.cfg.lock_ttl k.lock_key (bytes "1") sh.redis; app = sh.app },
        )
    unfolding turn
    locks laws e = rw (laws.set_nx_free M.cfg.lock_ttl k.lock_key (bytes "1") sh.redis e) refl

    pub runs :
        length (response sh.app).body ≤ M.cfg.max_body
        → turn_of M req (fair now) (record { pc = owning k; writer = w }) sh ≡ (
          record { pc = persisting k (response sh.app); writer = w },
          record { redis = sh.redis; app = (M.serve req sh.app new_recorder).1 },
        )
    unfolding turn
    runs small = rw (ge→ltb M.cfg.max_body (length (response sh.app).body) small) refl

    pub persists :
        (rec : Recorded) (raw : List ℕ)
        → payload_of M.codec rec ≡ some raw
        → turn_of M req (fair now) (record { pc = persisting k rec; writer = w }) sh ≡ (
          record { pc = releasing k rec; writer = w },
          record { redis = R.set M.cfg.cache_ttl k.cache_key raw sh.redis; app = sh.app },
        )
    unfolding turn
    persists rec raw e = rw e refl

    pub releases :
        (rec : Recorded)
        → turn_of M req (fair now) (record { pc = releasing k rec; writer = w }) sh ≡ (
          done_with (write_recorded rec false w),
          record { redis = R.del k.lock_key sh.redis; app = sh.app },
        )
    unfolding turn
    releases rec = refl
