-- ===== src/Ingest/Entry.antt =====
-- internal/ingest/handler.go: the handler of "trace.event" frames, which adds an event to the
-- tenant's stream before it acknowledges the frame.
use iter.Common.{
  ℕ, ◌≡◌, ◌≢◌, refl, ap, Bool, true, false, not, ◌||◌, ◌==◌, ==_iff, str_eq, if◌then◌else◌, Option,
  none, some, [], ◌∷◌, String, Bool-cases, inl, inr, arith,
}
use iter.Common.Int.{pos}
use iter.Gateway.{Ack, Envelope, Stamp, new_ack, new_error_ack}
use iter.Ingest.{
  Name, QueuedEvent, text, int, Values, Codec, stream_name, parse_event_type, ids_present, wire,
  check_ids, decode_queued_event,
}

pub record Principal : Type 0 where
  pub tenant_id : ℕ
  pub user_id : ℕ
  pub tenant_text : Name

-- The decoded frame.
pub record IngestFrame : Type 0 where
  pub session_id : ℕ
  pub event_type : String
  pub occurred_at : ℕ
  pub payload : String

-- How Redis answers: there is a client, the stream and its group are ensured, XADD succeeds.
pub record RedisAnswers : Type 0 where
  pub client : Bool
  pub ensured : Bool
  pub xadd_ok : Bool

abbrev pub Answered : Type 0
Answered = Ack × Option (Name × Values)

abbrev pub queued_event : Principal → Envelope → IngestFrame → ℕ → QueuedEvent
queued_event p env frame now = record {
  tenant_id = p.tenant_id;
  user_id = p.user_id;
  msg_id = env.msg_id;
  session_id = frame.session_id;
  event_id = env.msg_id;
  event_type = frame.event_type;
  occurred_at = frame.occurred_at;
  payload = frame.payload;
  received_at = now;
}

add_event : Codec → RedisAnswers → Stamp → Principal → Envelope → IngestFrame → Answered
add_event codec redis stamp p env frame =
    if not redis.ensured
    then (new_error_ack env.msg_id "ingest_enqueue_failed" stamp, none)
    else if not redis.xadd_ok
    then (new_error_ack env.msg_id "ingest_enqueue_failed" stamp, none)
    else (
      new_ack env.msg_id stamp,
      some (
        stream_name p.tenant_text,
        ("message", text (codec.marshal (queued_event p env frame stamp.now)))
            ∷ ("retries", int (pos 0))
            ∷ [],
      ),
    )

check_type :
    Codec → RedisAnswers → Stamp → Principal → Envelope → IngestFrame → Option String → Answered
check_type codec redis stamp p env frame none =
    (new_error_ack env.msg_id "invalid_event_type" stamp, none)
check_type codec redis stamp p env frame (some t) = add_event codec redis stamp p env frame

check_frame : Codec → RedisAnswers → Stamp → Principal → Envelope → Option IngestFrame → Answered
check_frame codec redis stamp p env none = (new_error_ack env.msg_id "malformed_ingest" stamp, none)
check_frame codec redis stamp p env (some frame) =
    if frame.session_id == 0 || str_eq frame.event_type ""
    then (new_error_ack env.msg_id "malformed_ingest" stamp, none)
    else check_type codec redis stamp p env frame (parse_event_type frame.event_type)

-- `frame` is the decoding of the raw bytes. An event holds no values that JSON cannot encode.
unfoldable pub ws_handler :
    Codec → RedisAnswers → Stamp → Principal → Envelope → Option IngestFrame → Answered
unfolding check_frame check_type add_event
ws_handler codec redis stamp p env frame =
    if not redis.client
    then (new_error_ack env.msg_id "ingest_unavailable" stamp, none)
    else check_frame codec redis stamp p env frame

-- The event that a stream entry carries when it is read back.
abbrev pub read_back : Codec → Option (Name × Values) → Option QueuedEvent
read_back codec none = none
read_back codec (some entry) = decode_queued_event codec (wire codec entry.1)

-- What an answer promises: an acknowledgement names the frame; it is positive only if an entry was
-- added to the tenant's stream from which the consumers read the event, under the frame's
-- identifier; otherwise nothing was added.
abbrev pub Promise : Codec → Principal → Envelope → Answered → Type 0
Promise codec p env (ack, none) = (ack.ack_msg_id ≡ env.msg_id) × (ack.status ≡ "error")
Promise codec p env (ack, some entry) =
    (ack.ack_msg_id ≡ env.msg_id)
    × (ack.status ≡ "ok")
    × (entry.0 ≡ stream_name p.tenant_text)
    × ((q : QueuedEvent) × (read_back codec (some entry) ≡ some q)
        × (q.event_id ≡ env.msg_id)
        × (q.tenant_id ≡ p.tenant_id))

-- What encoding/json documents of an event that it wrote itself.
abbrev pub RoundTrips : Codec → QueuedEvent → Type 0
RoundTrips codec q = codec.unmarshal (codec.marshal q) ≡ some q

nonzero : (n : ℕ) → n ≢ 0 → (n == 0) ≡ false
nonzero n h = ground arith

left_false : (a b : Bool) → (a || b) ≡ false → a ≡ false
left_false true b e = e
left_false false b e = refl

last_true : (a b c d : Bool) → d ≡ true → not (a || b || c || d) ≡ false
last_true a b c d h = ground (arith, h)

module _ (codec : Codec) (redis : RedisAnswers) (stamp : Stamp) (p : Principal)
    (env : Envelope) where
  add_event-Promise :
      (frame : IngestFrame)
      → RoundTrips codec (queued_event p env frame stamp.now)
      → ids_present (queued_event p env frame stamp.now) ≡ true
      → Promise codec p env (add_event codec redis stamp p env frame)
  unfolding add_event decode_queued_event
  add_event-Promise frame trip ids =
      let q = queued_event p env frame stamp.now in
      elim (Bool-cases redis.ensured) [
        | inr e ↦ rw e (refl, refl)
        | inl e ↦ rw e (elim (Bool-cases redis.xadd_ok) [
          | inr x ↦ rw x (refl, refl)
          | inl x ↦ rw x (refl, refl, refl, (q, rw trip (rw ids refl), refl, refl))
        ])
      ]

  check_type-Promise :
      (frame : IngestFrame) (t : Option String)
      → RoundTrips codec (queued_event p env frame stamp.now)
      → ids_present (queued_event p env frame stamp.now) ≡ true
      → Promise codec p env (check_type codec redis stamp p env frame t)
  unfolding check_type
  check_type-Promise frame none trip ids = (refl, refl)
  check_type-Promise frame (some t) trip ids = add_event-Promise frame trip ids

  check_frame-Promise :
      (frame : Option IngestFrame)
      → ((f : IngestFrame) → frame ≡ some f → RoundTrips codec (queued_event p env f stamp.now))
      → p.tenant_id ≢ 0
      → p.user_id ≢ 0
      → env.msg_id ≢ 0
      → Promise codec p env (check_frame codec redis stamp p env frame)
  unfolding check_frame
  check_frame-Promise none trip t u m = (refl, refl)
  check_frame-Promise (some frame) trip t u m =
      elim (Bool-cases (frame.session_id == 0 || str_eq frame.event_type "")) [
        | inl e ↦ rw e (refl, refl)
        | inr e ↦ rw e (
            check_type-Promise frame (parse_event_type frame.event_type) (trip frame refl) (
              rw (nonzero p.tenant_id t) (
                rw (nonzero p.user_id u) (
                  rw (nonzero env.msg_id m) (
                    rw (left_false (frame.session_id == 0) (str_eq frame.event_type "") e) refl)))))
      ]

  -- For an authenticated principal and a frame with an identifier, and an event that
  -- encoding/json reads back as it wrote it: whatever Redis answers and
  -- whatever the frame holds: the acknowledgement names the frame; it is positive exactly when an
  -- entry was added, this is in the tenant's stream, and the consumers read from it an event of
  -- that tenant under the frame's identifier.
  pub ws_handler-Promise :
      (frame : Option IngestFrame)
      → ((f : IngestFrame) → frame ≡ some f → RoundTrips codec (queued_event p env f stamp.now))
      → p.tenant_id ≢ 0
      → p.user_id ≢ 0
      → env.msg_id ≢ 0
      → Promise codec p env (ws_handler codec redis stamp p env frame)
  unfolding ws_handler
  ws_handler-Promise frame trip t u m = elim (Bool-cases redis.client) [
    | inr e ↦ rw e (refl, refl)
    | inl e ↦ rw e (check_frame-Promise frame trip t u m)
  ]

abbrev pub redis_up : RedisAnswers
redis_up = record { client = true; ensured = true; xadd_ok = true }

-- With an event that encoding/json reads back as it wrote it: a frame with the nil identifier that
-- is valid otherwise is acknowledged positively while Redis answers; an entry is added for it, and
-- the consumers cannot decode it.
pub nil_identifier_acked :
    (codec : Codec) (stamp : Stamp) (p : Principal) (env : Envelope) (frame : IngestFrame)
    (t : String)
    → RoundTrips codec (queued_event p env frame stamp.now)
    → env.msg_id ≡ 0
    → frame.session_id ≢ 0
    → str_eq frame.event_type "" ≡ false
    → parse_event_type frame.event_type ≡ some t
    → let answer = ws_handler codec redis_up stamp p env (some frame) in
      (answer.0.status ≡ "ok")
      × ((entry : Name × Values) × (answer.1 ≡ some entry)
          × (decode_queued_event codec (wire codec entry.1) ≡ none))
unfolding ws_handler check_frame check_type add_event decode_queued_event
nil_identifier_acked codec stamp p env frame t trip m s e k =
    let q = queued_event p env frame stamp.now in
    rw (nonzero frame.session_id s) (rw e (rw k (refl, (_, refl, rw trip (ids_absent q m)))))
  where
    ids_absent : (q : QueuedEvent) → q.event_id ≡ 0 → check_ids (some q) ≡ none
    ids_absent q h =
        ap (λ b. if b then some q else none)
          (last_true (q.tenant_id == 0) (q.user_id == 0) (q.session_id == 0) (q.event_id == 0)
            ((==_iff q.event_id 0).1 h))
