-- ===== src/Webhook.antt =====
-- internal/api/webhook/receiver.go: the reception of a delivery. Texts are lists of bytes.
pub mod Signature
pub mod Receive
pub mod Authentic
pub mod Redelivery
mod Tests
use iter.Common.{
  ℕ, ◌+◌, ◌*◌, ◌-◌, ◌^◌, Bool, true, false, not, ◌&&◌, ◌||◌, ltb, leb, if◌then◌else◌, Option, none,
  some, List, [], ◌∷◌, ◌++◌, length, take, drop,
}
use iter.Common.Bytes.{bytes, bytes_eq, has_prefix, is_empty}
use iter.Common.KeyStore.{KeyStore}

abbrev pub max_body : ℕ
max_body = 2 ^ 20

-- In seconds.
abbrev pub idempotency_ttl : ℕ
idempotency_ttl = 24 * 3600

pub record Response : Type 0 where
  pub status : ℕ
  pub body : List ℕ
  pub headers : List (List ℕ × List ℕ)

abbrev pub json : ℕ → List ℕ → Response
json status body = record { status = status; body = body; headers = [] }

abbrev pub err_invalid_signature : List ℕ
err_invalid_signature = bytes "{\"error\":\"invalid_signature\"}"

abbrev pub err_malformed_body : List ℕ
err_malformed_body = bytes "{\"error\":\"malformed_body\"}"

abbrev pub err_missing_delivery : List ℕ
err_missing_delivery = bytes "{\"error\":\"missing_delivery_id\"}"

-- A request: what reading its body gives, if it can be read, and the value of a header, empty when
-- it is missing.
pub record Inbound : Type 0 where
  pub content : Option (List ℕ)
  pub header : List ℕ → List ℕ

pub record Delivery : Type 0 where
  pub source : List ℕ
  pub event : List ℕ
  pub delivery_id : List ℕ
  pub body : List ℕ
  pub request : Inbound

-- A handler works on the application's state.
abbrev pub EventHandler : Type 0 → Type 0
EventHandler App = Delivery → App → Response × App

abbrev pub EventNameFunc : Type 0
EventNameFunc = List ℕ → Inbound → Option (List ℕ)

-- `digest secret body` is the HMAC-SHA256 of the body.
pub record Config (App : Type 0) : Type 0 where
  pub source : List ℕ
  pub secret : List ℕ
  pub signature_header : List ℕ
  pub signature_prefix : List ℕ
  pub delivery_header : List ℕ
  pub event_name : EventNameFunc
  pub routes : List (List ℕ × EventHandler App)
  pub has_redis : Bool
  pub digest : List ℕ → List ℕ → List ℕ

-- encoding/hex
abbrev pub from_digit : ℕ → Option ℕ
from_digit c =
    if leb 48 c
    then (if leb c 57
        then some (c - 48)
        else if leb 97 c
        then (if leb c 102 then some (c - 87) else none)
        else if leb 65 c
        then (if leb c 70 then some (c - 55) else none)
        else none)
    else none

abbrev joined : Option ℕ → Option ℕ → Option (List ℕ) → Option (List ℕ)
joined (some high) (some low) (some rest) = some ((high * 16 + low) ∷ rest)
joined _ _ _ = none

unfoldable pub decode_string : List ℕ → Option (List ℕ)
decode_string [] = some []
decode_string (c ∷ []) = none
decode_string (c ∷ (d ∷ text)) = joined (from_digit c) (from_digit d) (decode_string text)

abbrev pub matches : List ℕ → Option (List ℕ) → Bool
matches expected none = false
matches expected (some got) = bytes_eq got expected

-- Whether a prefix that is not empty is missing.
abbrev pub lacks : List ℕ → List ℕ → Bool
lacks prefix signature =
    not (is_empty prefix)
    && (ltb (length signature) (length prefix)
        || not (bytes_eq (take (length prefix) signature) prefix))

-- With an empty prefix nothing is cut off.
unfoldable pub verify_hmac_sha256 :
    (digest : List ℕ → List ℕ → List ℕ) (secret signature body prefix : List ℕ) → Bool
unfolding decode_string
verify_hmac_sha256 digest secret signature body prefix =
    if is_empty secret || is_empty signature
    then false
    else if lacks prefix signature
    then false
    else matches (digest secret body) (decode_string (drop (length prefix) signature))

unfoldable pub header_event : List ℕ → EventNameFunc
header_event header body r = some (r.header header)

-- `field_of` is the JSON: no value when the body is not an object or the field is not a text, and
-- an empty text when the field is missing.
unfoldable pub json_field_event :
    (field_of : List ℕ → List ℕ → Option (List ℕ)) → List ℕ → EventNameFunc
json_field_event field_of field body r = field_of field body

abbrev pub find_route :
    {App : Type 0} → List ℕ → List (List ℕ × EventHandler App) → Option (EventHandler App)
find_route event [] = none
find_route event ((name, route) ∷ routes) =
    if bytes_eq name event then some route else find_route event routes

abbrev pub delivery_key : List ℕ → List ℕ → List ℕ
delivery_key source delivery_id =
    bytes "webhook:" ++ (source ++ (bytes ":delivery:" ++ delivery_id))

abbrev pub replay_response : Response
replay_response = record {
  status = 200;
  body = bytes "{\"status\":\"ok\",\"replay\":true}";
  headers = (bytes "X-Idempotent-Replay", bytes "true") ∷ [];
}
