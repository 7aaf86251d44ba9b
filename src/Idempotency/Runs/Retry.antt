-- ===== src/Idempotency/Runs/Retry.antt =====
-- A request that is repeated after it was answered.
use iter.Common.{ℕ, ◌≡◌, ◌≤◌, sym, ap, ◌∙◌, subst, true, false, none, some, List, [], length}
use iter.Common.Bytes.{bytes}
use iter.Common.KeyStore.{KeyStore, KeyLaws}
use iter.Idempotency.{Recorded, Writer, new_recorder, payload_of, write_recorded}
use iter.Idempotency.Replay.{ReadsBack}
use iter.Idempotency.Keys.{IsTenantText, build_cache_key-apart}
use iter.Idempotency.Requests.{Request, keys_of, Shared}
use iter.Idempotency.Runs.{Setup, done_with, alone}
use iter.Idempotency.Runs.Steps.{
  TakesPart, turns_step, done_stays, arrives, misses, hits, locks, response, runs, persists,
  releases,
}

module _ {R : KeyStore} (laws : KeyLaws R) {App : Type 0} (M : Setup R App) (tenant : List ℕ)
    (req : Request) where
  -- The store after a request by itself.
  abbrev pub kept_in : List ℕ → R.S → R.S
  kept_in raw s =
      let k = keys_of tenant req in
      R.del k.lock_key
        (R.set M.cfg.cache_ttl k.cache_key raw (R.set M.cfg.lock_ttl k.lock_key (bytes "1") s))

  pub first_answer :
      (now : ℕ) (w : Writer) (sh : Shared R.S App) (raw : List ℕ)
      → TakesPart M.cfg tenant req
      → M.has_redis ≡ true
      → R.get (keys_of tenant req).cache_key sh.redis ≡ none
      → R.get (keys_of tenant req).lock_key sh.redis ≡ none
      → length (response M req sh.app).body ≤ M.cfg.max_body
      → payload_of M.codec (response M req sh.app) ≡ some raw
      → alone M req now w sh ≡ (
        done_with (write_recorded (response M req sh.app) false w),
        record { redis = kept_in raw sh.redis; app = (M.serve req sh.app new_recorder).1 },
      )
  first_answer now w sh raw part redis miss free small payload =
      turns_step M req _ _ _ _ sh _ (arrives M req tenant now w sh part redis)
      ∙ (turns_step M req _ _ _ _ sh _ (misses M req tenant now w sh miss)
          ∙ (turns_step M req _ _ _ _ sh _ (locks M req tenant now w sh laws free)
              ∙ (turns_step M req _ _ _ _ _ _ (runs M req tenant now w _ small)
                  ∙ (turns_step M req _ _ _ _ _ _ (persists M req tenant now w _ _ raw payload)
                      ∙ (turns_step M req _ _ _ _ _ _ (releases M req tenant now w _ _)
                          ∙ done_stays M req [] _ _)))))

  -- The tenant's text does not begin with the letter l.
  keeps_payload :
      (raw : List ℕ) (s : R.S)
      → IsTenantText tenant
      → R.get (keys_of tenant req).cache_key (kept_in raw s) ≡ some raw
  keeps_payload raw s text =
      let k = keys_of tenant req in
      laws.get_del_other k.lock_key k.cache_key _ (λ e.
        build_cache_key-apart tenant tenant req.path req.path req.idempotency_key
          req.idempotency_key text (sym e))
      ∙ laws.get_set M.cfg.cache_ttl k.cache_key raw _

  -- From the store after the first answer, whatever the application is.
  pub replay_answer :
      (retry : Request) (later : ℕ) (w' : Writer) (s : R.S) (app : App) (rec : Recorded)
      (raw : List ℕ)
      → IsTenantText tenant
      → TakesPart M.cfg tenant retry
      → keys_of tenant retry ≡ keys_of tenant req
      → M.has_redis ≡ true
      → ReadsBack M.codec rec raw
      → let after : Shared R.S App = record { redis = kept_in raw s; app = app } in
        alone M retry later w' after ≡ (done_with (write_recorded rec true w'), after)
  replay_answer retry later w' s app rec raw text part' same redis back =
      turns_step M retry _ _ _ _ _ _ (arrives M retry tenant later w' _ part' redis)
      ∙ (turns_step M retry _ _ _ _ _ _ (
            hits M retry tenant later w' _ rec raw
              (subst (λ k. R.get k.cache_key (kept_in raw s) ≡ some raw) (sym same)
                (keeps_payload raw s text))
              back)
          ∙ done_stays M retry _ _ _)

  -- A request that takes part, by itself, when nothing is kept and no call fails: six steps answer
  -- it with what the handler wrote. A second request of that tenant to the same path with the same
  -- Idempotency-Key is then answered with the same status, headers and body, marked as a replay,
  -- and the handler does not run again, whatever the second request's body is. The response is not
  -- larger than the limit, and base64 and JSON read it back.
  pub retry_replays :
      (retry : Request) (now later : ℕ) (w w' : Writer) (sh : Shared R.S App) (raw : List ℕ)
      → IsTenantText tenant
      → TakesPart M.cfg tenant req
      → TakesPart M.cfg tenant retry
      → keys_of tenant retry ≡ keys_of tenant req
      → M.has_redis ≡ true
      → R.get (keys_of tenant req).cache_key sh.redis ≡ none
      → R.get (keys_of tenant req).lock_key sh.redis ≡ none
      → length (response M req sh.app).body ≤ M.cfg.max_body
      → ReadsBack M.codec (response M req sh.app) raw
      → let first = alone M req now w sh in
        (first.0 ≡ done_with (write_recorded (response M req sh.app) false w))
        × (first.1.app ≡ (M.serve req sh.app new_recorder).1)
        × (alone M retry later w' first.1
            ≡ (done_with (write_recorded (response M req sh.app) true w'), first.1))
  retry_replays retry now later w w' sh raw text part part' same redis miss free small back =
      let answer = first_answer now w sh raw part redis miss free small back.0 in
      (
        ap (λ r. r.0) answer,
        ap (λ r. r.1.app) answer,
        subst
            (λ sh'.
              alone M retry later w' sh'
              ≡ (done_with (write_recorded (response M req sh.app) true w'), sh'))
            (sym (ap (λ r. r.1) answer))
            (replay_answer retry later w' sh.redis _ _ raw text part' same redis back),
      )
