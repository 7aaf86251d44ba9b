-- ===== src/Idempotency/Runs/Refines.antt =====
-- The middleware implements the memory of the answers.
use iter.Common.{
  ℕ, ◌≡◌, ◌≢◌, ◌≤◌, refl, sym, ap, ◌∙◌, subst, Bool, true, false, if◌then◌else◌, Option, none, some,
  List, [], ◌∷◌, length, Bool-cases, Option-cases, inl, inr, All,
}
use iter.Common.Bytes.{bytes, bytes_eq, bytes_eq→eq}
use iter.Common.KeyStore.{KeyStore, KeyLaws}
use iter.Idempotency.{Recorded, write_recorded}
use iter.Idempotency.Replay.{ReadsBack}
use iter.Idempotency.Keys.{IsTenantText, build_cache_key-apart}
use iter.Idempotency.Requests.{Request, keys_of, build_cache_key, build_lock_key, Shared}
use iter.Idempotency.Runs.{Setup, done_with, alone}
use iter.Idempotency.Runs.Steps.{TakesPart, turns_step, done_stays, arrives, hits, response}
use iter.Idempotency.Runs.Effect.{bytes_differ}
use iter.Idempotency.Runs.Retry.{first_answer, kept_in}
use iter.Idempotency.Runs.Memo.{
  Call, Memory, call_key, remember, answer_all, serve_all, payload_in, Represents,
}

module _ {R : KeyStore} (laws : KeyLaws R) {App : Type 0} (M : Setup R App)
    (raw_of : Recorded → List ℕ) where
  -- A call that the middleware does not pass by.
  pub record IsServed (c : Call) : Type 0 where
    pub text : IsTenantText c.tenant
    pub part : TakesPart M.cfg c.tenant c.req

  hit :
      (c : Call) (sh : Shared R.S App) (m : Memory App) (rec : Recorded)
      → IsServed c
      → M.has_redis ≡ true
      → Represents M raw_of sh.redis m.answers
      → m.answers (call_key c) ≡ some rec
      → alone M c.req c.now c.writer sh ≡ (done_with (write_recorded rec true c.writer), sh)
  hit c sh m rec served redis rel known =
      turns_step M c.req _ _ _ _ sh _ (arrives M c.req c.tenant c.now c.writer sh served.part redis)
      ∙ (turns_step M c.req _ _ _ _ sh _ (
            hits M c.req c.tenant c.now c.writer sh rec (raw_of rec)
              (rel.cached c.tenant c.req.path c.req.idempotency_key served.text
                ∙ ap (payload_in M raw_of) known)
              (rel.readable (call_key c) rec known))
          ∙ done_stays M c.req _ _ _)

  -- What the store holds after a call that was not answered from it.
  module _ (c : Call) (sh : Shared R.S App) (m : Memory App) (rec : Recorded) where
    abbrev after : R.S
    after = kept_in laws M c.tenant c.req (raw_of rec) sh.redis

    abbrev ck : List ℕ
    ck = (keys_of c.tenant c.req).cache_key

    abbrev lk : List ℕ
    lk = (keys_of c.tenant c.req).lock_key

    abbrev locked_store : R.S
    locked_store = R.set M.cfg.lock_ttl lk (bytes "1") sh.redis

    -- A key other than the lock's.
    elsewhere : (l : List ℕ) → lk ≢ l → ck ≢ l → R.get l after ≡ R.get l sh.redis
    elsewhere l nl nc =
        laws.get_del_other lk l _ nl
        ∙ (laws.get_set_other M.cfg.cache_ttl ck l (raw_of rec) locked_store nc
            ∙ laws.get_set_other M.cfg.lock_ttl lk l (bytes "1") sh.redis nl)

    after-cached :
        (t p q : List ℕ)
        → IsTenantText t
        → Represents M raw_of sh.redis m.answers
        → R.get (build_cache_key t p q) after
          ≡ payload_in M raw_of (remember (call_key c) rec m.answers (build_cache_key t p q))
    after-cached t p q text rel = elim (Bool-cases (bytes_eq ck l)) [
      | inl e ↦ rw e (
          subst (λ x. R.get x after ≡ some (raw_of rec)) (bytes_eq→eq ck l e)
            (laws.get_del_other lk ck _ (λ q. unlike (sym (q ∙ bytes_eq→eq ck l e)))
              ∙ laws.get_set M.cfg.cache_ttl ck (raw_of rec) locked_store))
      | inr e ↦
          rw e (elsewhere l (λ q. unlike (sym q)) (bytes_differ ck l e) ∙ rel.cached t p q text)
    ]
      where
        l : List ℕ
        l = build_cache_key t p q

        unlike : l ≢ lk
        unlike = build_cache_key-apart t c.tenant p c.req.path q c.req.idempotency_key text

    after-unlocked :
        (t p q : List ℕ)
        → IsTenantText c.tenant
        → Represents M raw_of sh.redis m.answers
        → R.get (build_lock_key t p q) after ≡ none
    after-unlocked t p q text rel = elim (Bool-cases (bytes_eq lk l)) [
      | inl e ↦ subst (λ x. R.get x after ≡ none) (bytes_eq→eq lk l e) (laws.get_del lk _)
      | inr e ↦
          elsewhere l (bytes_differ lk l e)
            (build_cache_key-apart c.tenant t c.req.path p c.req.idempotency_key q text)
          ∙ rel.unlocked t p q
    ]
      where
        l : List ℕ
        l = build_lock_key t p q

    after-readable :
        (k : List ℕ) (r : Recorded)
        → ReadsBack M.codec rec (raw_of rec)
        → Represents M raw_of sh.redis m.answers
        → remember (call_key c) rec m.answers k ≡ some r
        → ReadsBack M.codec r (raw_of r)
    after-readable k r back rel e = by_key (bytes_eq ck k) e
      where
        by_key :
            (b : Bool)
            → (if b then some rec else m.answers k) ≡ some r
            → ReadsBack M.codec r (raw_of r)
        by_key true q =
            subst (λ x. ReadsBack M.codec x (raw_of x))
              (ap (λ o. elim o [ none ↦ rec | some x ↦ x ]) q) back
        by_key false q = rel.readable k r q

  remembers :
      (c : Call) (sh : Shared R.S App) (m : Memory App) (rec : Recorded)
      → IsTenantText c.tenant
      → ReadsBack M.codec rec (raw_of rec)
      → Represents M raw_of sh.redis m.answers
      → Represents M raw_of
          (kept_in laws M c.tenant c.req (raw_of rec) sh.redis)
          (remember (call_key c) rec m.answers)
  remembers c sh m rec text back rel = record {
    cached = λ t p q h. after-cached c sh m rec t p q h rel;
    unlocked = λ t p q. after-unlocked c sh m rec t p q text rel;
    readable = λ k r e. after-readable c sh m rec k r back rel e;
  }

  -- The middleware implements the memory. For calls one after the other that take part, from a
  -- store that represents what is remembered and holds no lock: the answers and the application
  -- afterwards are those of a memory that runs the handler for the first call of each key, and
  -- repeats its answer, marked as a replay, for every further one. No call fails and no key
  -- expires, no response is larger than the limit, and base64 and JSON read the responses back.
  pub serve_all_refines :
      (cs : List Call) (s : R.S) (app : App) (answers : List ℕ → Option Recorded)
      → M.has_redis ≡ true
      → All IsServed cs
      → ((req : Request) (a : App) → length (response M req a).body ≤ M.cfg.max_body)
      → ((req : Request) (a : App)
          → ReadsBack M.codec (response M req a) (raw_of (response M req a)))
      → Represents M raw_of s answers
      → serve_all M cs (record { redis = s; app = app })
        ≡ answer_all M cs (record { answers = answers; app = app })
  unfolding serve_all
  serve_all_refines [] s app answers redis served small back rel = refl
  serve_all_refines (c ∷ cs) s app answers redis served small back rel =
      elim (Option-cases (answers (call_key c))) [
        | inl unknown ↦
            let rec = response M c.req app in
            rw unknown rw
              (first_answer laws M c.tenant c.req c.now c.writer sh (raw_of rec) served.0.part redis
                (rel.cached c.tenant c.req.path c.req.idempotency_key served.0.text
                  ∙ ap (payload_in M raw_of) unknown)
                (rel.unlocked c.tenant c.req.path c.req.idempotency_key) (small c.req app)
                (back c.req app).0)
              (ap (λ r. (write_recorded rec false c.writer ∷ r.0, r.1))
                (serve_all_refines cs _ _ _ redis served.1 small back
                  (remembers c sh m rec served.0.text (back c.req app) rel)))
        | inr (rec, known) ↦ rw known rw (hit c sh m rec served.0 redis rel known) (
            ap (λ r. (write_recorded rec true c.writer ∷ r.0, r.1))
              (serve_all_refines cs s app answers redis served.1 small back rel))
      ]
    where
      sh : Shared R.S App
      sh = record { redis = s; app = app }

      m : Memory App
      m = record { answers = answers; app = app }
