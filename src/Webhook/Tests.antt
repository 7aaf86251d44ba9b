-- ===== src/Webhook/Tests.antt =====
-- Deliveries on concrete inputs, and the properties at concrete inputs.
use iter.Common.{
  ℕ, suc, ◌≡◌, ◌↔◌, refl, true, false, if◌then◌else◌, none, some, List, [], ◌∷◌, ◌++◌,
}
use iter.Common.Bytes.{bytes, bytes_eq}
use iter.Common.KeyStore.{Table, table_store, table_store-KeyLaws}
use iter.Webhook.{
  json, Inbound, Config, decode_string, verify_hmac_sha256, header_event, replay_response,
}
use iter.Webhook.Signature.{verify_hmac_sha256_iff}
use iter.Webhook.Receive.{World, Circumstances, accept, handle}
use iter.Webhook.Redelivery.{IsGenuine, handle_all, redelivery_replayed}
use iter.Webhook.Authentic.{unsigned_ignored}

-- The first byte of the body stands for its digest. The one route counts, and fails.
abbrev receiver : Config ℕ
receiver = record {
  source = bytes "github";
  secret = bytes "s";
  signature_header = bytes "X-Sig";
  signature_prefix = bytes "h=";
  delivery_header = bytes "X-Id";
  event_name = header_event (bytes "X-Event");
  routes = (bytes "push", λ d n. (json 500 [], suc n)) ∷ [];
  has_redis = true;
  digest = λ secret body. elim body [ [] ↦ [] | b ∷ rest ↦ b ∷ [] ];
}

abbrev pick_header : List ℕ → List ℕ
pick_header name =
    if bytes_eq name (bytes "X-Sig")
    then bytes "h=7b"
    else if bytes_eq name (bytes "X-Id")
    then bytes "d1"
    else bytes "push"

-- The body is "{".
abbrev pushed : Inbound
pushed = record { content = some (bytes "{"); header = pick_header }

abbrev forged : Inbound
forged = record { content = some (bytes "["); header = pick_header }

abbrev calm : Circumstances
calm = record { now = bytes "t"; fails = false }

abbrev fresh : World Table ℕ
fresh = record { redis = λ k. none; app = 0 }

verify_hmac_sha256_iff_example :
    (verify_hmac_sha256 receiver.digest (bytes "s") (bytes "h=7b") (bytes "{") (bytes "h=") ≡ true)
    ↔ ((text : List ℕ) × (bytes "h=7b" ≡ bytes "h=" ++ text)
        × (decode_string text ≡ some (123 ∷ [])))
verify_hmac_sha256_iff_example =
    verify_hmac_sha256_iff receiver.digest (bytes "s") (bytes "h=7b") (bytes "{") (bytes "h=") refl
      refl

pushed-IsGenuine : IsGenuine receiver (bytes "d1") calm pushed
unfolding verify_hmac_sha256 decode_string
pushed-IsGenuine = record {
  body = bytes "{";
  content = refl;
  fits = refl;
  signed = refl;
  named = refl;
  works = refl;
}

-- The route runs once, although it failed.
redelivery_replayed_example :
    handle_all table_store receiver
      ((calm, pushed) ∷ (calm, pushed) ∷ [])
      (handle table_store receiver calm pushed fresh).1
    ≡ (replay_response ∷ replay_response ∷ [], (handle table_store receiver calm pushed fresh).1)
redelivery_replayed_example =
    redelivery_replayed table_store-KeyLaws receiver (bytes "d1") calm pushed
      ((calm, pushed) ∷ (calm, pushed) ∷ []) fresh refl refl pushed-IsGenuine
      (pushed-IsGenuine, (pushed-IsGenuine, tt))

runs_once : (handle table_store receiver calm pushed fresh).1.app ≡ 1
unfolding handle accept verify_hmac_sha256 decode_string header_event
runs_once = refl

unsigned_ignored_example :
    (handle_all table_store receiver ((calm, forged) ∷ (calm, pushed) ∷ []) fresh).1
    ≡ (handle_all table_store receiver ((calm, pushed) ∷ []) fresh).1
unfolding verify_hmac_sha256 decode_string
unsigned_ignored_example =
    unsigned_ignored table_store receiver ((calm, forged) ∷ (calm, pushed) ∷ []) fresh
