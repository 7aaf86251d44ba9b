-- ===== src/Ingest/Tests.antt =====
-- Messages over a codec that knows one event and writes numbers in strokes, and the theorems at
-- concrete inputs.
use Prim.Native.String.{len, ◌++◌ as text_append}
use package.text.Mathlib.TextPositions.{len-append}
use iter.Common.{
  ℕ, zero, suc, ◌≡◌, refl, ap, ◌∙◌, true, false, none, some, [], ◌∷◌, All, String, str_eq, arith,
}
use iter.Common.Int.{ℤ, pos, negsuc, plus_one}
use iter.Redact.Classify.{clean}
use iter.Gateway.{Envelope, Stamp}
use iter.Ingest.{
  Name, QueuedEvent, text, Values, wire, decode_queued_event, Codec, parse_event_type, read_retries,
  dlq_name_from_stream, stream_name, dlq_name,
}
use iter.Ingest.Consumer.{Msg, Env, handle_message, no_payload}
use iter.Ingest.Effects.{Sound, handle_message-Sound}
use iter.Ingest.First.{KeepsFirst, handle_message-KeepsFirst}
use iter.Ingest.Retries.{deliver, deliver_dead_letters, dlq_name_from_stream-stream_name}
use iter.Ingest.Entry.{
  RoundTrips, queued_event, Principal, IngestFrame, redis_up, ws_handler, Promise,
  ws_handler-Promise, nil_identifier_acked,
}

abbrev strokes : ℕ → String
strokes zero = ""
strokes (suc n) = text_append "1" (strokes n)

len-strokes : (n : ℕ) → len (strokes n) ≡ n
len-strokes zero = refl
len-strokes (suc n) = len-append "1" (strokes n) ∙ omega (arith, len-strokes n)

abbrev event_of : ℕ → QueuedEvent
event_of id = record {
  tenant_id = 1;
  user_id = 2;
  msg_id = id;
  session_id = 3;
  event_id = id;
  event_type = "tool_call";
  occurred_at = 10;
  payload = "{}";
  received_at = 5;
}

abbrev codec_for : ℕ → Codec
codec_for id = record {
  unmarshal = λ s. elim (str_eq s "event") [ true ↦ some (event_of id) | false ↦ none ];
  marshal = λ q. "event";
  atoi = λ s. pos (len s);
  itoa = λ z. elim z [ pos n ↦ strokes n | negsuc n ↦ "-" ];
  parse_uuid = λ s. none;
  parse_time = λ s. none;
  atoi-itoa = λ n h. ap pos (len-strokes n);
}

abbrev env : Env
env = record {
  now = 7;
  classify = λ payload. (clean, payload);
  parse_payload = λ body. some no_payload;
  xadd_ok = true;
  ack_ok = true;
  audit_ok = true;
  upsert = some true;
  rpush_ok = true;
}

abbrev tenant : Name
tenant = 55 ∷ []

abbrev msg : Msg
msg = record {
  stream = stream_name tenant;
  id = 4;
  values = ("message", text "event") ∷ ("retries", text "") ∷ [];
}

abbrev broken : Msg
broken = record msg { values = ("message", text "other") ∷ ("retries", text "1") ∷ [] }

handle_message-KeepsFirst_example :
    KeepsFirst (codec_for 9) env msg (handle_message (codec_for 9) env msg).1
handle_message-KeepsFirst_example = handle_message-KeepsFirst (codec_for 9) env msg

handle_message-Sound_example :
    All (Sound (codec_for 9) env msg) (handle_message (codec_for 9) env msg).1
handle_message-Sound_example = handle_message-Sound (codec_for 9) env msg

one_stroke : read_retries (codec_for 9) broken.values ≡ pos 1
unfolding read_retries
one_stroke = refl

deliver_dead_letters_example : ◌≡◌ {A = ℕ × ℕ} (deliver 5 (codec_for 9) env "decode" broken) (3, 1)
deliver_dead_letters_example =
    deliver_dead_letters (codec_for 9) env "decode" refl refl 5 broken 1 one_stroke (omega arith)
      (omega arith) (omega arith)

-- A counter at the largest number wraps around when it is raised.
raised_twice :
    ◌≡◌ {A = ℤ}
      (plus_one (plus_one (pos 9_223_372_036_854_775_806)))
      (negsuc 9_223_372_036_854_775_807)
raised_twice = refl

dlq_name_from_stream-stream_name_run : dlq_name_from_stream (stream_name tenant) ≡ dlq_name tenant
dlq_name_from_stream-stream_name_run = dlq_name_from_stream-stream_name tenant (omega arith)

abbrev principal : Principal
principal = record { tenant_id = 1; user_id = 2; tenant_text = tenant }

abbrev envelope : ℕ → Envelope
envelope id = record { message_type = "trace.event"; msg_id = id; sent_at = 0 }

abbrev stamp : Stamp
stamp = record { fresh = 50; now = 5 }

abbrev frame : IngestFrame
frame = record { session_id = 3; event_type = "tool_call"; occurred_at = 10; payload = "{}" }

trips :
    (f : IngestFrame)
    → some frame ≡ some f
    → RoundTrips (codec_for 9) (queued_event principal (envelope 9) f stamp.now)
trips f e =
    ap
      (λ o. elim o [
        | none ↦ some (event_of 9)
        | some g ↦ some (queued_event principal (envelope 9) g stamp.now)
      ])
      e

ws_handler-Promise_example :
    Promise
      (codec_for 9)
      principal
      (envelope 9)
      (ws_handler (codec_for 9) redis_up stamp principal (envelope 9) (some frame))
ws_handler-Promise_example =
    ws_handler-Promise (codec_for 9) redis_up stamp principal (envelope 9) (some frame) trips
      (omega arith) (omega arith) (omega arith)

known : parse_event_type "tool_call" ≡ some "tool_call"
unfolding parse_event_type
known = refl

nil_identifier_acked_example :
    let answer = ws_handler (codec_for 0) redis_up stamp principal (envelope 0) (some frame) in
    (answer.0.status ≡ "ok")
    × ((entry : Name × Values) × (answer.1 ≡ some entry)
        × (decode_queued_event (codec_for 0) (wire (codec_for 0) entry.1) ≡ none))
nil_identifier_acked_example =
    nil_identifier_acked (codec_for 0) stamp principal (envelope 0) frame "tool_call" refl refl
      (omega arith) refl known
