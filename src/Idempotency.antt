-- ===== src/Idempotency.antt =====
-- internal/api/middleware/idempotency.go: responses, how they are kept and replayed, and which
-- requests take part. Texts are lists of bytes; the keys of headers are canonical.
pub mod Requests
pub mod Replay
pub mod Keys
pub mod Runs
mod Tests
use iter.Common.{ℕ, Bool, true, false, ◌==◌, if◌then◌else◌, Option, none, some, List, [], ◌∷◌, ◌++◌}
use iter.Common.Bytes.{bytes, bytes_eq}

abbrev pub Header : Type 0
Header = List (List ℕ × List (List ℕ))

-- http.Header
unfoldable pub header_add : List ℕ → List ℕ → Header → Header
header_add key value [] = (key, value ∷ []) ∷ []
header_add key value ((k, values) ∷ header) =
    let rest = header_add key value header in
    if bytes_eq k key then (k, values ++ value ∷ []) ∷ header else (k, values) ∷ rest

unfoldable pub header_set : List ℕ → List ℕ → Header → Header
header_set key value [] = (key, value ∷ []) ∷ []
header_set key value ((k, values) ∷ header) =
    let rest = header_set key value header in
    if bytes_eq k key then (k, value ∷ []) ∷ header else (k, values) ∷ rest

-- What has gone to the client: the headers are fixed when the status is written.
pub record Sent : Type 0 where
  pub status : ℕ
  pub headers : Header
  pub body : List ℕ

-- An http.ResponseWriter.
pub record Writer : Type 0 where
  pub headers : Header
  pub sent : Option Sent

abbrev pub new_recorder : Writer
new_recorder = record { headers = []; sent = none }

abbrev pub add : List ℕ → List ℕ → Writer → Writer
add key value w = record { headers = header_add key value w.headers; sent = w.sent }

abbrev pub set : List ℕ → List ℕ → Writer → Writer
set key value w = record { headers = header_set key value w.headers; sent = w.sent }

unfoldable pub write_header : ℕ → Writer → Writer
write_header status w = elim w.sent [
  | none ↦ record {
    headers = w.headers;
    sent = some (record { status = status; headers = w.headers; body = [] });
  }
  | some sent ↦ w
]

abbrev more : List ℕ → Sent → Sent
more body sent = record sent { body = sent.body ++ body }

unfoldable pub write : List ℕ → Writer → Writer
unfolding write_header
write body w = elim w.sent [
  | none ↦ record {
    headers = w.headers;
    sent = some (record { status = 200; headers = w.headers; body = body });
  }
  | some sent ↦ record { headers = w.headers; sent = some (more body sent) }
]

-- An httptest.ResponseRecorder after the handler.
pub record Recorded : Type 0 where
  pub code : ℕ
  pub header : Header
  pub body : List ℕ

abbrev pub recorded : Writer → Recorded
recorded w = elim w.sent [
  | none ↦ record { code = 200; header = w.headers; body = [] }
  | some sent ↦ record { code = sent.status; header = w.headers; body = sent.body }
]

pub record CachedResponse : Type 0 where
  pub status : ℕ
  pub headers : Header
  pub body_b64 : List ℕ

-- encoding/base64 and encoding/json on a `cachedResponse`.
pub record Codec : Type 0 where
  pub encode : List ℕ → List ℕ
  pub decode : List ℕ → Option (List ℕ)
  pub marshal : CachedResponse → Option (List ℕ)
  pub unmarshal : List ℕ → Option CachedResponse

-- The two nested loops that copy headers.
unfoldable pub add_values : List ℕ → List (List ℕ) → Writer → Writer
add_values key [] w = w
add_values key (value ∷ values) w = add_values key values (add key value w)

unfoldable pub copy_headers : Header → Writer → Writer
unfolding add_values
copy_headers [] w = w
copy_headers ((key, values) ∷ header) w = copy_headers header (add_values key values w)

abbrev pub status_or_ok : ℕ → ℕ
status_or_ok status = if status == 0 then 200 else status

abbrev pub mark : Bool → Writer → Writer
mark replay w = if replay then set (bytes "X-Idempotent-Replay") (bytes "true") w else w

unfoldable pub write_recorded : Recorded → Bool → Writer → Writer
unfolding copy_headers write_header write
write_recorded rec replay w =
    write rec.body (write_header (status_or_ok rec.code) (mark replay (copy_headers rec.header w)))

unfoldable pub replay_with : CachedResponse → Option (List ℕ) → Bool → Writer → Bool × Writer
unfolding copy_headers write_header write
replay_with cr none gone w = (false, w)
replay_with cr (some body) gone w =
    let written =
      write body (write_header (status_or_ok cr.status) (mark true (copy_headers cr.headers w))) in
    (if gone then false else true, written)

-- Whether it returned no error; `gone` says that the final write fails.
unfoldable pub replay_cached : Codec → Bool → List ℕ → Writer → Bool × Writer
unfolding replay_with
replay_cached codec gone raw w = elim (codec.unmarshal raw) [
  | none ↦ (false, w)
  | some cr ↦ replay_with cr (codec.decode cr.body_b64) gone w
]

-- The payload that `persist` stores.
unfoldable pub payload_of : Codec → Recorded → Option (List ℕ)
payload_of codec rec =
    codec.marshal
      (record { status = rec.code; headers = rec.header; body_b64 = codec.encode rec.body })

unfoldable pub write_json : ℕ → List ℕ → Writer → Writer
unfolding header_set write_header write
write_json status body w =
    write body (write_header status (set (bytes "Content-Type") (bytes "application/json") w))
