-- ===== src/Tenant/Stack.antt =====
-- The idempotency middleware inside the tenant's transaction, as internal/api/router.go stacks
-- them.
use iter.Common.{
  ℕ, ◌≡◌, ◌≤◌, refl, sym, ap, ◌∙◌, subst, Bool, true, false, not, ◌&&◌, leb, if◌then◌else◌, Option,
  none, some, List, length,
}
use mathlib.Core.Path.{ap₂}
use iter.Common.KeyStore.{KeyStore, KeyLaws}
use iter.Idempotency.{Header, Sent, Writer, Recorded, write_recorded, write, write_header}
use iter.Idempotency.Keys.{IsTenantText}
use iter.Idempotency.Replay.{ReadsBack}
use iter.Idempotency.Requests.{Request, keys_of, Shared}
use iter.Idempotency.Runs.{Setup, alone}
use iter.Idempotency.Runs.Steps.{TakesPart, response}
use iter.Idempotency.Runs.Retry.{kept_in, first_answer, replay_answer}
use iter.Tenant.{TxCircumstances, TenantOptions, Handler, captured_status, wrote_header, tenant}
use iter.Tenant.Commit.{IsTenanted, tenant_commits}

-- The middleware before the handler, for one request at a time.
abbrev pub idempotency : {R : KeyStore} {D : Type 0} → Setup R D → ℕ → Handler R.S D
idempotency M now r sh w = let ran = alone M r now w sh in (ran.0.writer, ran.1)

write-wrote :
    (body : List ℕ) (status : ℕ) (h : Header) (o : Option Sent)
    → wrote_header (write body (write_header status (record { headers = h; sent = o }))) ≡ true
unfolding write write_header
write-wrote body status h none = refl
write-wrote body status h (some sent) = refl

write_recorded-wrote :
    (rec : Recorded) (replay : Bool) (w : Writer)
    → wrote_header (write_recorded rec replay w) ≡ true
unfolding write_recorded
write_recorded-wrote rec replay w = write-wrote rec.body _ _ _

if_false : {A : Type 0} (b : Bool) (x y : A) → (if b && false then x else y) ≡ y
if_false true x y = refl
if_false false x y = refl

if_same : {A : Type 0} (b : Bool) (x : A) → (if b then x else x) ≡ x
if_same true x = refl
if_same false x = refl

module _ {R : KeyStore} (laws : KeyLaws R) {D : Type 0} (M : Setup R D) (cfg : TenantOptions)
    (valid : List ℕ → Bool) (t : List ℕ) (req retry : Request) where
  -- When the commit of a request's transaction fails after its handler has answered, under the
  -- conditions under which a repeated request is answered as a replay: the client has the
  -- handler's answer, the tables are as before, and the repeated request is answered with the same
  -- answer, marked as a replay, without the handler, whether its own transaction commits or not.
  -- What the handler wrote is lost.
  pub failed_commit_replayed :
      (tx tx' : TxCircumstances) (now later : ℕ) (w w' : Writer) (sh : Shared R.S D) (raw : List ℕ)
      → tx.commits ≡ false
      → IsTenanted cfg valid req tx t
      → IsTenanted cfg valid retry tx' t
      → IsTenantText t
      → TakesPart M.cfg t req
      → TakesPart M.cfg t retry
      → keys_of t retry ≡ keys_of t req
      → M.has_redis ≡ true
      → R.get (keys_of t req).cache_key sh.redis ≡ none
      → R.get (keys_of t req).lock_key sh.redis ≡ none
      → length (response M req sh.app).body ≤ M.cfg.max_body
      → ReadsBack M.codec (response M req sh.app) raw
      → let first = tenant cfg true valid tx (idempotency M now) req sh w in
        let second = tenant cfg true valid tx' (idempotency M later) retry first.1 w' in
        (first.0 ≡ write_recorded (response M req sh.app) false w)
        × (first.1.app ≡ sh.app)
        × (second.0 ≡ write_recorded (response M req sh.app) true w')
        × (second.1.app ≡ sh.app)
  failed_commit_replayed tx tx' now later w w' sh raw lost in_tx in_tx' text part part' same redis
        miss free small back =
      let rec = response M req sh.app in
      let answer = first_answer laws M t req now w sh raw part redis miss free small back.0 in
      let first = tenant cfg true valid tx (idempotency M now) req sh w in
      let kept = tenant_commits cfg valid tx (idempotency M now) req sh w t in_tx in
      let written = kept.2 (
        subst (λ r. wrote_header r.0.writer ≡ true) (sym answer)
          (write_recorded-wrote rec false w)) in
      let left : Shared R.S D = record {
        redis = kept_in laws M t req raw sh.redis;
        app = sh.app;
      } in
      let app_kept : first.1.app ≡ sh.app =
        kept.0
        ∙ subst
            (λ c.
              (if not (leb 400 (captured_status (alone M req now w sh).0.writer)) && c
                then (alone M req now w sh).1.app
                else sh.app)
              ≡ sh.app)
            (sym lost) (if_false _ _ _) in
      let stored : first.1 ≡ left =
        ap₂ (λ s d. record { redis = s; app = d }) (kept.1 ∙ ap (λ r. r.1.redis) answer) app_kept in
      let again = second in
      (
        written ∙ ap (λ r. r.0.writer) answer,
        app_kept,
        subst
            (λ x.
              (tenant cfg true valid tx' (idempotency M later) retry x w').0
              ≡ write_recorded rec true w')
            (sym stored) again.0,
        subst (λ x. (tenant cfg true valid tx' (idempotency M later) retry x w').1.app ≡ sh.app)
            (sym stored) again.1,
      )
    where
      left_over : Shared R.S D
      left_over = record { redis = kept_in laws M t req raw sh.redis; app = sh.app }

      second :
          let all = tenant cfg true valid tx' (idempotency M later) retry left_over w' in
          (all.0 ≡ write_recorded (response M req sh.app) true w') × (all.1.app ≡ sh.app)
      second =
          let rec = response M req sh.app in
          let replayed =
            replay_answer laws M t req retry later w' sh.redis sh.app rec raw text part' same redis
              back in
          let kept =
            tenant_commits cfg valid tx' (idempotency M later) retry left_over w' t in_tx' in
          (
            kept.2 (
                  subst (λ r. wrote_header r.0.writer ≡ true) (sym replayed)
                    (write_recorded-wrote rec true w'))
                ∙ ap (λ r. r.0.writer) replayed,
            kept.0
                ∙ subst
                    (λ r.
                      (if not (leb 400 (captured_status r.0.writer)) && tx'.commits
                        then r.1.app
                        else sh.app)
                      ≡ sh.app)
                    (sym replayed)
                    (if_same
                      (not (leb 400 (captured_status (write_recorded rec true w'))) && tx'.commits)
                      sh.app),
          )
