-- ===== src/Webhook/Receive.antt =====
-- receiver.go: the pipeline of `Handler`.
use iter.Common.{
  ℕ, suc, Bool, true, false, not, ltb, if◌then◌else◌, Option, none, some, List, length, take,
}
use iter.Common.Bytes.{bytes, is_empty}
use iter.Common.KeyStore.{KeyStore}
use iter.Webhook.{
  max_body, idempotency_ttl, Response, json, err_invalid_signature, err_malformed_body,
  err_missing_delivery, Inbound, Delivery, EventHandler, Config, verify_hmac_sha256, find_route,
  delivery_key, replay_response,
}

pub record World (S App : Type 0) : Type 0 where
  pub redis : S
  pub app : App

-- The time as SETNX stores it, and whether that call fails, and without effect.
pub record Circumstances : Type 0 where
  pub now : List ℕ
  pub fails : Bool

module _ (R : KeyStore) {App : Type 0} (cfg : Config App) where
  abbrev pub delivery_of : List ℕ → List ℕ → Inbound → Delivery
  delivery_of event body r = record {
    source = cfg.source;
    event = event;
    delivery_id = r.header cfg.delivery_header;
    body = body;
    request = r;
  }

  abbrev pub run_route :
      List ℕ
      → List ℕ
      → Inbound
      → Option (EventHandler App)
      → World R.S App
      → Response × World R.S App
  run_route event body r none wd = (json 200 (bytes "{\"status\":\"ignored\"}"), wd)
  run_route event body r (some route) wd =
      let answer = route (delivery_of event body r) wd.app in
      (answer.0, record { redis = wd.redis; app = answer.1 })

  abbrev pub dispatch_event :
      List ℕ → Inbound → Option (List ℕ) → World R.S App → Response × World R.S App
  dispatch_event body r none wd = (json 400 err_malformed_body, wd)
  dispatch_event body r (some event) wd = run_route event body r (find_route event cfg.routes) wd

  abbrev pub dispatch : List ℕ → Inbound → World R.S App → Response × World R.S App
  dispatch body r wd = dispatch_event body r (cfg.event_name body r) wd

  abbrev pub admit : List ℕ → Inbound → App → Bool × R.S → Response × World R.S App
  admit body r app (true, s) = dispatch body r (record { redis = s; app = app })
  admit body r app (false, s) = (replay_response, record { redis = s; app = app })

  -- From the signature on.
  unfoldable pub accept :
      Circumstances → List ℕ → Inbound → World R.S App → Response × World R.S App
  unfolding verify_hmac_sha256
  accept e body r wd =
      if not (
        verify_hmac_sha256 cfg.digest cfg.secret (r.header cfg.signature_header) body
          cfg.signature_prefix)
      then (json 401 err_invalid_signature, wd)
      else if is_empty (r.header cfg.delivery_header)
      then (json 400 err_missing_delivery, wd)
      else if not cfg.has_redis
      then dispatch body r wd
      else if e.fails
      then dispatch body r wd
      else admit body r wd.app (
          R.set_nx idempotency_ttl (delivery_key cfg.source (r.header cfg.delivery_header)) e.now
            wd.redis)

  -- The body is read up to one byte more than allowed.
  unfoldable pub handle : Circumstances → Inbound → World R.S App → Response × World R.S App
  unfolding accept
  handle e r wd = elim r.content [
    | none ↦ (json 400 err_malformed_body, wd)
    | some content ↦
        let body = take (suc max_body) content in
        if ltb max_body (length body)
        then (json 413 (bytes "{\"error\":\"body_too_large\"}"), wd)
        else accept e body r wd
  ]
