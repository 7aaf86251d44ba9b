-- ===== src/Ingest/Consumer.antt =====
-- internal/ingest/consumer.go: HandleMessage, with its effects on Redis and the database in order.
use iter.Common.{ℕ, Bool, Option, none, some, List, [], ◌∷◌, ◌++◌, String, str_eq, if◌then◌else◌}
use iter.Common.Int.{ℤ, plus_one, at_least}
use iter.Ingest.{
  Name, QueuedEvent, text, int, Values, put_value, Codec, read_retries, decode_queued_event,
  Payload, SessionProjection, project_session, parse_event_type, max_retries, dlq_name_from_stream,
}
use iter.Redact.Classify.{Classification, clean, strippable, dirty}

pub record Msg : Type 0 where
  pub stream : Name
  pub id : ℕ
  pub values : Values

-- The row of the event and the session it is projected to.
pub record Row : Type 0 where
  pub event : QueuedEvent
  pub session : SessionProjection
  pub classification : Classification
  pub event_type : String
  pub body : Payload

-- The row of the audit log: identifiers and the type of the event, and nothing of its payload.
pub record AuditEntry : Type 0 where
  pub tenant_id : ℕ
  pub msg_id : ℕ
  pub session_id : ℕ
  pub event_id : ℕ
  pub event_type : String

abbrev pub audit_leak : QueuedEvent → AuditEntry
audit_leak q = record {
  tenant_id = q.tenant_id;
  msg_id = q.msg_id;
  session_id = q.session_id;
  event_id = q.event_id;
  event_type = q.event_type;
}

pub data Effect : Type 0 where
  added : Name → Values → Effect
  acknowledged : Name → ℕ → Effect
  audited : AuditEntry → Effect
  persisted : Row → Effect
  embedding_queued : (tenant session : ℕ) → String → Effect

-- How the collaborators answer the calls of one message.
pub record Env : Type 0 where
  pub now : ℕ
  pub classify : String → Classification × String
  pub parse_payload : String → Option Payload
  pub xadd_ok : Bool
  pub ack_ok : Bool
  pub audit_ok : Bool
  -- The transaction: it fails, or says whether the event was inserted.
  pub upsert : Option Bool
  pub rpush_ok : Bool

pub data Status : Type 0 where
  handled : Status
  errored : Status

abbrev pub Handled : Type 0
Handled = Status × List Effect

unfoldable pub ack_message : Env → Msg → Handled
ack_message env msg =
    if env.ack_ok then (handled, acknowledged msg.stream msg.id ∷ []) else (errored, [])

-- The effects of an earlier call before those of the rest.
abbrev pub after : List Effect → Handled → Handled
after effects h = (h.0, effects ++ h.1)

unfoldable pub dead_letter : Env → Msg → String → Handled
dead_letter env msg cause =
    let values = put_value "error" (text cause) msg.values in
    if env.xadd_ok
    then after (added (dlq_name_from_stream msg.stream) values ∷ []) (ack_message env msg)
    else (errored, [])

-- The cause is what the caller is told, so the status is `errored` in any case.
unfoldable pub retry : Codec → Env → Msg → ℤ → Handled
retry codec env msg retries =
    if env.xadd_ok
    then (
      errored,
      added msg.stream (put_value "retries" (int retries) msg.values) ∷ (ack_message env msg).1,
    )
    else (errored, [])

-- The stack trace that goes with the error is left out.
unfoldable pub fail : Codec → Env → Msg → String → Handled
unfolding dead_letter retry
fail codec env msg cause =
    let retries = plus_one (read_retries codec msg.values) in
    if at_least max_retries retries then dead_letter env msg cause else retry codec env msg retries

abbrev pub no_payload : Payload
no_payload key = none

abbrev pub payload_of : Env → String → Option Payload
payload_of env body = if str_eq body "" then some no_payload else env.parse_payload body

-- The row that is written, or the cause of the failure before the transaction.
unfoldable pub prepare :
    Codec → Env → QueuedEvent → Classification → Option Payload → Option String → Option Row
prepare codec env q class none event_type = none
prepare codec env q class (some payload) none = none
prepare codec env q class (some payload) (some t) = some (record {
  event = q;
  session = project_session codec env.now q payload;
  classification = class;
  event_type = t;
  body = payload;
})

-- Whether the event is new, and the row.
unfoldable pub persist : Codec → Env → QueuedEvent → Classification → String → Option (Bool × Row)
persist codec env q class body =
    elim (prepare codec env q class (payload_of env body) (parse_event_type q.event_type)) [
      | none ↦ none
      | some row ↦ elim env.upsert [ none ↦ none | some inserted ↦ some (inserted, row) ]
    ]

-- A failure to queue the embedding is only logged.
unfoldable pub enqueue_embedding : Env → Bool → Row → List Effect
enqueue_embedding env inserted row =
    if inserted
    then if env.rpush_ok
      then embedding_queued row.event.tenant_id row.event.session_id row.session.redacted_prompt
        ∷ []
      else []
    else []

unfoldable pub finish : Codec → Env → Msg → Option (Bool × Row) → Handled
finish codec env msg none = fail codec env msg "persist"
finish codec env msg (some (inserted, row)) =
    after (persisted row ∷ enqueue_embedding env inserted row) (ack_message env msg)

unfoldable pub classified : Codec → Env → Msg → QueuedEvent → Classification → String → Handled
classified codec env msg q dirty body =
    if env.audit_ok
    then after (audited (audit_leak q) ∷ []) (ack_message env msg)
    else fail codec env msg "audit"
classified codec env msg q clean body = finish codec env msg (persist codec env q clean body)
classified codec env msg q strippable body =
    finish codec env msg (persist codec env q strippable body)

unfoldable pub handle_decoded : Codec → Env → Msg → Option QueuedEvent → Handled
handle_decoded codec env msg none = fail codec env msg "decode"
handle_decoded codec env msg (some q) =
    let c = env.classify q.payload in classified codec env msg q c.0 c.1

unfoldable pub handle_message : Codec → Env → Msg → Handled
unfolding handle_decoded classified finish
handle_message codec env msg = handle_decoded codec env msg (decode_queued_event codec msg.values)
