-- ===== src/Outcomes/Twice.antt =====
-- GitHub's handlers on a delivery that comes twice, when the receiver does not stop it.
use iter.Common.{
  ℕ, suc, ltb, length, take, ◌≡◌, refl, sym, ◌∙◌, subst, Bool, true, false, not, if◌then◌else◌,
  Option, none, some, List, [], ◌∷◌, Bool-cases, Option-cases, inl, inr,
}
use iter.Common.Bytes.{bytes, is_empty}
use iter.Common.KeyStore.{KeyStore}
use iter.Webhook.{
  header_event, max_body, verify_hmac_sha256, Response, Config, Inbound, EventHandler, find_route,
  json, err_invalid_signature, err_missing_delivery,
}
use iter.Webhook.Receive.{World, Circumstances, run_route, dispatch_event, dispatch, accept, handle}
use iter.Webhook.Redelivery.{handle_all}
use iter.Outcomes.{Tables, Sink}
use iter.Outcomes.Github.{github_webhook_handler, Tools}
use iter.Outcomes.Handlers.{dispatch_closed}
use iter.Outcomes.Inserts.{IsInsert-IsClosed, Grows, Grows-trans, IsInsert, IsInsert-id}

module _ (R : KeyStore) (tools : Tools) (sink : Sink) (secret : List ℕ)
    (digest : List ℕ → List ℕ → List ℕ) where
  abbrev without_redis : Config Tables
  without_redis = github_webhook_handler tools sink secret false digest

  abbrev refused_or :
      (b named : Bool)
      → Response
      → Response
      → (World R.S Tables → Response × World R.S Tables)
      → World R.S Tables
      → Response × World R.S Tables
  refused_or b named x y f wd = if not b then (x, wd) else if named then (y, wd) else f wd

  refused_or-IsInsert :
      (s : R.S) (x y : Response) (f : World R.S Tables → Response × World R.S Tables)
      (b named : Bool)
      → IsInsert (λ t. (f (record { redis = s; app = t })).1.app)
      → IsInsert (λ t. (refused_or b named x y f (record { redis = s; app = t })).1.app)
  refused_or-IsInsert s x y f false named h = IsInsert-id
  refused_or-IsInsert s x y f true true h = IsInsert-id
  refused_or-IsInsert s x y f true false h = h

  run_route-redis :
      (event body : List ℕ) (r : Inbound) (o : Option (EventHandler Tables)) (wd : World R.S Tables)
      → (run_route R without_redis event body r o wd).1.redis ≡ wd.redis
  run_route-redis event body r none wd = refl
  run_route-redis event body r (some route) wd = refl

  handle-IsInsert :
      (e : Circumstances) (r : Inbound) (s : R.S)
      → IsInsert (λ t. (handle R without_redis e r (record { redis = s; app = t })).1.app)
  unfolding handle accept header_event
  handle-IsInsert e r s = elim (Option-cases r.content) [
    | inl n ↦ rw n IsInsert-id
    | inr (c, q) ↦
        let body = take (suc max_body) c in
        elim (Bool-cases (ltb max_body (length body))) [
          | inl big ↦ rw q rw big IsInsert-id
          | inr fits ↦ rw q rw fits (
              refused_or-IsInsert s (json 401 err_invalid_signature) (json 400 err_missing_delivery)
                (dispatch R without_redis body (record { content = some c; header = r.header }))
                (verify_hmac_sha256 digest secret (r.header (bytes "X-Hub-Signature-256")) body
                  (bytes "sha256="))
                (is_empty (r.header (bytes "X-GitHub-Delivery")))
                (dispatch_closed sink IsInsert (IsInsert-IsClosed sink) R tools secret digest false
                  body (record { content = some c; header = r.header }) s
                  (some (r.header (bytes "X-GitHub-Event")))))
        ]
  ]

  dispatch-redis :
      (body : List ℕ) (r : Inbound) (o : Option (List ℕ)) (wd : World R.S Tables)
      → (dispatch_event R without_redis body r o wd).1.redis ≡ wd.redis
  dispatch-redis body r none wd = refl
  dispatch-redis body r (some event) wd =
      run_route-redis event body r (find_route event without_redis.routes) wd

  refused_or-redis :
      (b named : Bool) (x y : Response) (f : World R.S Tables → Response × World R.S Tables)
      (wd : World R.S Tables)
      → (f wd).1.redis ≡ wd.redis
      → (refused_or b named x y f wd).1.redis ≡ wd.redis
  refused_or-redis false named x y f wd h = refl
  refused_or-redis true true x y f wd h = refl
  refused_or-redis true false x y f wd h = h

  handle-redis :
      (e : Circumstances) (r : Inbound) (wd : World R.S Tables)
      → (handle R without_redis e r wd).1.redis ≡ wd.redis
  unfolding handle accept header_event
  handle-redis e r wd = elim (Option-cases r.content) [
    | inl n ↦ rw n refl
    | inr (c, q) ↦
        let body = take (suc max_body) c in
        let r' : Inbound = record { content = some c; header = r.header } in
        elim (Bool-cases (ltb max_body (length body))) [
          | inl big ↦ rw q rw big refl
          | inr fits ↦ rw q rw fits (
              refused_or-redis
                (verify_hmac_sha256 digest secret (r.header (bytes "X-Hub-Signature-256")) body
                  (bytes "sha256="))
                (is_empty (r.header (bytes "X-GitHub-Delivery"))) (json 401 err_invalid_signature)
                (json 400 err_missing_delivery) (dispatch R without_redis body r') wd
                (dispatch-redis body r' (some (r.header (bytes "X-GitHub-Event"))) wd))
        ]
  ]

  handle_all-Grows :
      (rs : List (Circumstances × Inbound)) (wd : World R.S Tables)
      → Grows wd.app (handle_all R without_redis rs wd).1.app
        × ((handle_all R without_redis rs wd).1.redis ≡ wd.redis)
  unfolding handle_all
  handle_all-Grows [] wd = ((λ p h. h, λ p h. h), refl)
  handle_all-Grows ((e, r) ∷ rs) wd =
      let next = (handle R without_redis e r wd).1 in
      let rest = handle_all-Grows rs next in
      (
        Grows-trans wd.app next.app (handle_all R without_redis rs next).1.app
            ((handle-IsInsert e r wd.redis).keeps wd.app) rest.0,
        rest.1 ∙ handle-redis e r wd,
      )

  -- Without Redis nothing stops a delivery that GitHub sends again, and it does no harm: whatever
  -- the delivery is, and whatever deliveries came in between, handling it again leaves the tables
  -- as they are, as long as the database answers the same.
  pub redelivery_harmless :
      (e : Circumstances) (r : Inbound) (between : List (Circumstances × Inbound))
      (wd : World R.S Tables)
      → let after = (handle_all R without_redis ((e, r) ∷ between) wd).1 in
        (handle R without_redis e r after).1.app ≡ after.app
  unfolding handle_all
  redelivery_harmless e r between wd =
      let first = (handle R without_redis e r wd).1 in
      let after = (handle_all R without_redis between first).1 in
      let grown = handle_all-Grows between first in
      subst
        (λ s.
          (handle R without_redis e r (record { redis = s; app = after.app })).1.app ≡ after.app)
        (sym (grown.1 ∙ handle-redis e r wd))
        ((handle-IsInsert e r wd.redis).settled wd.app after.app grown.0)
