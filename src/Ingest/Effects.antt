-- ===== src/Ingest/Effects.antt =====
-- Which rows the handling of a message writes.
use iter.Common.{
  ◌≡◌, ◌≢◌, refl, sym, ap, subst, ◌∙◌, Bool, true, false, Option, none, some, All, All-append,
  String, Bool-cases, inl, inr,
}
use iter.Common.Int.{plus_one, at_least}
use iter.Redact.Classify.{Classification, clean, strippable, dirty}
use iter.Ingest.{
  QueuedEvent, Codec, read_retries, decode_queued_event, Payload, parse_event_type, max_retries,
}
use iter.Ingest.Consumer.{
  Msg, Row, Effect, added, acknowledged, audited, persisted, embedding_queued, Env, ack_message,
  dead_letter, retry, fail, payload_of, prepare, persist, enqueue_embedding, finish, classified,
  handle_decoded, handle_message,
}

module _ (codec : Codec) (env : Env) where
  -- What `persist` writes for a decoded event.
  unfoldable pub Written : QueuedEvent → Classification → String → Option (Bool × Row) → Type 0
  Written q class body none = Unit
  Written q class body (some (inserted, row)) =
      (row.event ≡ q)
      × (row.classification ≡ class)
      × (payload_of env body ≡ some row.body)
      × (parse_event_type q.event_type ≡ some row.event_type)
      × (env.upsert ≡ some inserted)

  pub persist-Written :
      (q : QueuedEvent) (class : Classification) (body : String)
      → Written q class body (persist codec env q class body)
  unfolding persist prepare Written
  persist-Written q class body =
      by_parts (payload_of env body) (parse_event_type q.event_type) env.upsert refl refl refl
    where
      by_parts :
          (p : Option Payload) (t : Option String) (u : Option Bool)
          → payload_of env body ≡ p
          → parse_event_type q.event_type ≡ t
          → env.upsert ≡ u
          → Written q class body (elim (prepare codec env q class p t) [
            | none ↦ none
            | some row ↦ elim u [ none ↦ none | some inserted ↦ some (inserted, row) ]
          ])
      by_parts none t u hp ht hu = tt
      by_parts (some p) none u hp ht hu = tt
      by_parts (some p) (some t) none hp ht hu = tt
      by_parts (some p) (some t) (some b) hp ht hu = (refl, refl, hp, ht, hu)

-- A row that may be written for a message.
abbrev pub Sound : Codec → Env → Msg → Effect → Type 0
Sound codec env msg (added stream values) = Unit
Sound codec env msg (acknowledged stream id) = Unit
Sound codec env msg (audited q) = Unit
Sound codec env msg (embedding_queued tenant session prompt) = env.upsert ≡ some true
Sound codec env msg (persisted row) =
    (decode_queued_event codec msg.values ≡ some row.event)
    × (row.classification ≡ (env.classify row.event.payload).0)
    × (row.classification ≢ dirty)
    × (payload_of env (env.classify row.event.payload).1 ≡ some row.body)
    × (parse_event_type row.event.event_type ≡ some row.event_type)

module _ (codec : Codec) (env : Env) (msg : Msg) where
  ack-Sound : All (Sound codec env msg) (ack_message env msg).1
  unfolding ack_message
  ack-Sound = elim (Bool-cases env.ack_ok) [ inl e ↦ rw e (tt, tt) | inr e ↦ rw e tt ]

  fail-Sound : (cause : String) → All (Sound codec env msg) (fail codec env msg cause).1
  unfolding fail dead_letter retry ack_message
  fail-Sound cause =
      elim (Bool-cases (at_least max_retries (plus_one (read_retries codec msg.values)))) [
        | inl e ↦
            rw e (elim (Bool-cases env.xadd_ok) [ inl x ↦ rw x (tt, ack-Sound) | inr x ↦ rw x tt ])
        | inr e ↦
            rw e (elim (Bool-cases env.xadd_ok) [ inl x ↦ rw x (tt, ack-Sound) | inr x ↦ rw x tt ])
      ]

  enqueue_embedding-Sound :
      (inserted : Bool) (row : Row)
      → env.upsert ≡ some inserted
      → All (Sound codec env msg) (enqueue_embedding env inserted row)
  unfolding enqueue_embedding
  enqueue_embedding-Sound false row h = tt
  enqueue_embedding-Sound true row h = elim (Bool-cases env.rpush_ok) [
    | inl e ↦ rw e (h, tt)
    | inr e ↦ rw e tt
  ]

  finish-Sound :
      (q : QueuedEvent) (class : Classification) (body : String) (o : Option (Bool × Row))
      → decode_queued_event codec msg.values ≡ some q
      → class ≡ (env.classify q.payload).0
      → class ≢ dirty
      → body ≡ (env.classify q.payload).1
      → Written codec env q class body o
      → All (Sound codec env msg) (finish codec env msg o).1
  unfolding finish Written
  finish-Sound q class body none d c n b w = fail-Sound "persist"
  finish-Sound q class body (some (inserted, row)) d c n b w =
      let same = sym w.0 in
      (
        (
          subst (λ e. decode_queued_event codec msg.values ≡ some e) same d,
          w.1 ∙ c ∙ ap (λ e. (env.classify e.payload).0) same,
          λ is_dirty. n (sym w.1 ∙ is_dirty),
          sym (ap (payload_of env) (b ∙ ap (λ e. (env.classify e.payload).1) same)) ∙ w.2,
          ap (λ e. parse_event_type e.event_type) w.0 ∙ w.3,
        ),
        All-append (Sound codec env msg) (enqueue_embedding env inserted row)
            (ack_message env msg).1 (enqueue_embedding-Sound inserted row w.4) ack-Sound,
      )

  classified-Sound :
      (q : QueuedEvent) (class : Classification) (body : String)
      → decode_queued_event codec msg.values ≡ some q
      → class ≡ (env.classify q.payload).0
      → body ≡ (env.classify q.payload).1
      → All (Sound codec env msg) (classified codec env msg q class body).1
  unfolding classified ack_message fail
  classified-Sound q dirty body d c b = elim (Bool-cases env.audit_ok) [
    | inl e ↦ rw e (tt, ack-Sound)
    | inr e ↦ rw e (fail-Sound "audit")
  ]
  classified-Sound q clean body d c b =
      finish-Sound q clean body (persist codec env q clean body) d c (λ e. cc) b
        (persist-Written codec env q clean body)
  classified-Sound q strippable body d c b =
      finish-Sound q strippable body (persist codec env q strippable body) d c (λ e. cc) b
        (persist-Written codec env q strippable body)

  handle_decoded-Sound :
      (o : Option QueuedEvent)
      → decode_queued_event codec msg.values ≡ o
      → All (Sound codec env msg) (handle_decoded codec env msg o).1
  unfolding handle_decoded
  handle_decoded-Sound none d = fail-Sound "decode"
  handle_decoded-Sound (some q) d =
      classified-Sound q (env.classify q.payload).0 (env.classify q.payload).1 d refl refl

-- Whatever the calls answer, a row is written only for an event that the message decodes to and
-- that the second classification does not find dirty, with a known event type and with the body
-- that this classification returned, never the one that was received; and an embedding is queued
-- only when the event was inserted by this handling, so not for a redelivery.
pub handle_message-Sound :
    (codec : Codec) (env : Env) (msg : Msg)
    → All (Sound codec env msg) (handle_message codec env msg).1
unfolding handle_message
handle_message-Sound codec env msg =
    handle_decoded-Sound codec env msg (decode_queued_event codec msg.values) refl
