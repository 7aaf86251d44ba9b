-- ===== src/Ingest/First.antt =====
-- What the handling of a message does first.
use iter.Common.{
  ◌≡◌, refl, sym, ap, subst, Bool, true, false, Option, none, some, List, [], ◌∷◌, String, str_eq,
  eq_iff, arith, ◌⊎◌, if◌then◌else◌, Bool-cases, inl, inr,
}
use iter.Common.Int.{plus_one, at_least}
use iter.Redact.Classify.{Classification, clean, strippable, dirty}
use iter.Ingest.{
  QueuedEvent, text, int, Value, Values, get_value, put_value, dlq_name_from_stream, Codec,
  read_retries, decode_queued_event, Payload, max_retries,
}
use iter.Ingest.Consumer.{
  Msg, Row, Effect, audit_leak, added, acknowledged, audited, persisted, embedding_queued, Env,
  ack_message, dead_letter, retry, fail, prepare, persist, finish, classified, handle_decoded,
  handle_message,
}
use iter.Ingest.Effects.{Written, persist-Written}

get_value-put_value_other :
    (key other : String) (v : Value) (values : Values)
    → str_eq key other ≡ false
    → get_value other (put_value key v values) ≡ get_value other values
get_value-put_value_other key other v [] h = rw h refl
get_value-put_value_other key other v (field ∷ values) h =
    let ih = get_value-put_value_other key other v values h in
    elim (Bool-cases (str_eq field.0 key)) [
      | inl e ↦ rw e rw h (skip ((eq_iff field.0 key).0 e))
      | inr n ↦ rw n (by_field (str_eq field.0 other) ih)
    ]
  where
    skip : field.0 ≡ key → get_value other values ≡ get_value other (field ∷ values)
    skip e = rw e rw h refl

    by_field :
        (b : Bool)
        → get_value other (put_value key v values) ≡ get_value other values
        → (if b then some field.1 else get_value other (put_value key v values))
          ≡ (if b then some field.1 else get_value other values)
    by_field true ih = refl
    by_field false ih = ih

-- After which effect the message need not be handled again: it stands in a stream with its
-- "message" field as it was; or its row is written; or it is dirty and the leak is in the audit log.
abbrev pub Settles : Codec → Env → Msg → Effect → Type 0
Settles codec env msg (added stream values) =
    ((stream ≡ msg.stream) ⊎ (stream ≡ dlq_name_from_stream msg.stream))
    × (get_value "message" values ≡ get_value "message" msg.values)
Settles codec env msg (acknowledged stream id) = ⊥
Settles codec env msg (audited entry) =
    (q : QueuedEvent) × (decode_queued_event codec msg.values ≡ some q)
    × ((env.classify q.payload).0 ≡ dirty)
    × (entry ≡ audit_leak q)
Settles codec env msg (persisted row) = decode_queued_event codec msg.values ≡ some row.event
Settles codec env msg (embedding_queued tenant session prompt) = ⊥

abbrev pub KeepsFirst : Codec → Env → Msg → List Effect → Type 0
KeepsFirst codec env msg [] = Unit
KeepsFirst codec env msg (e ∷ effects) = Settles codec env msg e

module _ (codec : Codec) (env : Env) (msg : Msg) where
  fail-KeepsFirst : (cause : String) → KeepsFirst codec env msg (fail codec env msg cause).1
  unfolding fail dead_letter retry
  fail-KeepsFirst cause =
      let retries = plus_one (read_retries codec msg.values) in
      let kept_dead = get_value-put_value_other "error" "message" (text cause) msg.values refl in
      let kept_again =
        get_value-put_value_other "retries" "message" (int retries) msg.values refl in
      elim (Bool-cases (at_least max_retries retries)) [
        | inl e ↦
            rw e (elim (Bool-cases env.xadd_ok) [
              | inl x ↦ rw x (inr refl, kept_dead)
              | inr x ↦ rw x tt
            ])
        | inr e ↦ rw e (elim (Bool-cases env.xadd_ok) [
          | inl x ↦ rw x (inl refl, kept_again)
          | inr x ↦ rw x tt
        ])
      ]

  -- The row that is written is that of the event.
  prepare-event :
      (q : QueuedEvent) (class : Classification) (p : Option Payload) (t : Option String)
      → (row : Row) → prepare codec env q class p t ≡ some row
      → row.event ≡ q
  unfolding prepare
  prepare-event q class none t row h = absurd (ground (arith, h))
  prepare-event q class (some p) none row h = absurd (ground (arith, h))
  prepare-event q class (some p) (some t) row h =
      sym (ap (λ o. elim o [ none ↦ q | some r ↦ r.event ]) h)

  finish-KeepsFirst :
      (q : QueuedEvent) (class : Classification) (body : String) (o : Option (Bool × Row))
      → decode_queued_event codec msg.values ≡ some q
      → Written codec env q class body o
      → KeepsFirst codec env msg (finish codec env msg o).1
  unfolding finish Written
  finish-KeepsFirst q class body none d w = fail-KeepsFirst "persist"
  finish-KeepsFirst q class body (some (inserted, row)) d w =
      subst (λ e. decode_queued_event codec msg.values ≡ some e) (sym w.0) d

  classified-KeepsFirst :
      (q : QueuedEvent) (class : Classification) (body : String)
      → decode_queued_event codec msg.values ≡ some q
      → (env.classify q.payload).0 ≡ class
      → KeepsFirst codec env msg (classified codec env msg q class body).1
  unfolding classified fail ack_message
  classified-KeepsFirst q dirty body d c = elim (Bool-cases env.audit_ok) [
    | inl e ↦ rw e (q, d, c, refl)
    | inr e ↦ rw e (fail-KeepsFirst "audit")
  ]
  classified-KeepsFirst q clean body d c =
      finish-KeepsFirst q clean body (persist codec env q clean body) d
        (persist-Written codec env q clean body)
  classified-KeepsFirst q strippable body d c =
      finish-KeepsFirst q strippable body (persist codec env q strippable body) d
        (persist-Written codec env q strippable body)

  handle_decoded-KeepsFirst :
      (o : Option QueuedEvent)
      → decode_queued_event codec msg.values ≡ o
      → KeepsFirst codec env msg (handle_decoded codec env msg o).1
  unfolding handle_decoded
  handle_decoded-KeepsFirst none d = fail-KeepsFirst "decode"
  handle_decoded-KeepsFirst (some q) d =
      classified-KeepsFirst q (env.classify q.payload).0 (env.classify q.payload).1 d refl

-- Whatever the calls of Redis and the database answer, the first effect of a message's handling,
-- if it has one, settles it: the message is added to its stream or to the dead-letter stream, with
-- its "message" field as it was; or the row of the event that it decodes to is written; or that
-- event is dirty, and its identifiers and type are written to the audit log, its payload nowhere.
-- So a message is never acknowledged before one of these.
pub handle_message-KeepsFirst :
    (codec : Codec) (env : Env) (msg : Msg)
    → KeepsFirst codec env msg (handle_message codec env msg).1
unfolding handle_message
handle_message-KeepsFirst codec env msg =
    handle_decoded-KeepsFirst codec env msg (decode_queued_event codec msg.values) refl
