-- ===== src/Idempotency/Replay.antt =====
-- What is replayed against what was recorded.
use iter.Common.{ℕ, ◌≡◌, refl, Bool, true, false, not, some, List, if◌then◌else◌}
use iter.Idempotency.{
  Writer, Recorded, CachedResponse, Codec, replay_with, replay_cached, payload_of, write_recorded,
}

-- What `persist` gives to encoding/json for a recorded response.
abbrev cached : Codec → Recorded → CachedResponse
cached codec rec = record {
  status = rec.code;
  headers = rec.header;
  body_b64 = codec.encode rec.body;
}

-- base64 and JSON read back what they wrote of this response.
abbrev pub ReadsBack : Codec → Recorded → List ℕ → Type 0
ReadsBack codec rec raw =
    (payload_of codec rec ≡ some raw)
    × (codec.unmarshal raw ≡ some (cached codec rec))
    × (codec.decode (codec.encode rec.body) ≡ some rec.body)

-- What was kept of a recorded response, when base64 and JSON read it back, is replayed as the
-- response that the first client got, with the marker X-Idempotent-Replay added: the same status,
-- headers and body, whatever the writer holds already. It succeeds unless the write fails.
pub replay_cached_lem :
    (codec : Codec) (rec : Recorded) (raw : List ℕ) (gone : Bool) (w : Writer)
    → ReadsBack codec rec raw
    → replay_cached codec gone raw w ≡ (not gone, write_recorded rec true w)
unfolding replay_cached replay_with write_recorded
replay_cached_lem codec rec raw gone w (_, read, decoded) =
    rw (replay_cached, read) rw (replay_with, decoded) (by_gone gone)
  where
    by_gone :
        (b : Bool)
        → ◌≡◌ {A = Bool × Writer}
            (if b then false else true, write_recorded rec true w)
            (not b, write_recorded rec true w)
    by_gone true = refl
    by_gone false = refl
