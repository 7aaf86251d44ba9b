-- ===== src/Gateway.antt =====
-- internal/ws/gateway.go and internal/ws/types.go: the WebSocket entry. What a connection's reader
-- does with the frames it reads, and how a message enters the writer's bounded queue.
pub mod Queue
pub mod Acks
mod Tests
use iter.Common.{
  ℕ, zero, suc, ◌+◌, ◌≡◌, Bool, true, false, not, ◌&&◌, Option, none, some, List, [], ◌∷◌, ◌++◌,
  String, str_eq, ltb, ◌==◌, if◌then◌else◌, length,
}

abbrev pub writer_queue_capacity : ℕ
writer_queue_capacity = 64

-- Message identifiers are numbers; a message's type is its wire name.
pub record Envelope : Type 0 where
  pub message_type : String
  pub msg_id : ℕ
  pub sent_at : ℕ

pub record Ack : Type 0 where
  pub envelope : Envelope
  pub ack_msg_id : ℕ
  pub status : String
  pub code : String

-- What `uuid.New` and the clock say at a point.
pub record Stamp : Type 0 where
  pub fresh : ℕ
  pub now : ℕ

abbrev pub new_envelope : String → Stamp → Envelope
new_envelope t stamp = record { message_type = t; msg_id = stamp.fresh; sent_at = stamp.now }

abbrev pub new_ack : ℕ → Stamp → Ack
new_ack in_msg_id stamp = record {
  envelope = new_envelope "ack" stamp;
  ack_msg_id = in_msg_id;
  status = "ok";
  code = "";
}

abbrev pub new_error_ack : ℕ → String → Stamp → Ack
new_error_ack in_msg_id code stamp = record {
  envelope = new_envelope "ack" stamp;
  ack_msg_id = in_msg_id;
  status = "error";
  code = code;
}

-- An entry of the writer's channel: an acknowledgement, or a message the server sends by itself.
pub data Outbound : Type 0 where
  ack_out : Ack → Outbound
  other_out : Envelope → Outbound

abbrev pub is_ack : Outbound → Bool
is_ack (ack_out a) = true
is_ack (other_out e) = false

-- The channel after `enqueue`: the message is in, was dropped, or its sender waits for the writer
-- to take an entry.
pub data Enqueued : Type 0 where
  queued : List Outbound → Enqueued
  dropped : List Outbound → Enqueued
  blocked : List Outbound → Outbound → Enqueued

-- The loop that takes entries out until it meets one that is no acknowledgement, at most `n`
-- times: the acknowledgements it took, and what is left of the channel.
unfoldable pub evict : ℕ → List Outbound → List Outbound → List Outbound × List Outbound
evict zero preserved out = (preserved, out)
evict (suc n) preserved [] = (preserved, [])
evict (suc n) preserved (other_out e ∷ out) = (preserved, out)
evict (suc n) preserved (ack_out a ∷ out) = evict n (preserved ++ ack_out a ∷ []) out

abbrev pub send : ℕ → Outbound → List Outbound → Enqueued
send capacity msg out =
    if ltb (length out) capacity then queued (out ++ msg ∷ []) else blocked out msg

-- No other goroutine uses the channel meanwhile.
unfoldable pub enqueue : ℕ → List Outbound → Outbound → Enqueued
enqueue capacity out msg =
    if ltb (length out) capacity
    then queued (out ++ msg ∷ [])
    else if not (is_ack msg)
    then dropped out
    else let taken = evict capacity [] out in send capacity msg (taken.1 ++ taken.0)

-- A handler is given the principal, the envelope and the frame, and may panic.
abbrev pub Handler : (Principal Raw : Type 0) → Type 0
Handler Principal Raw = Stamp → Principal → Envelope → Raw → Option Ack

unfoldable pub safe_invoke :
    {Principal Raw : Type 0} → Handler Principal Raw → Stamp → Principal → Envelope → Raw → Ack
safe_invoke handler stamp principal env raw = elim (handler stamp principal env raw) [
  | some ack ↦ ack
  | none ↦ new_error_ack env.msg_id "handler_error" stamp
]

abbrev pub Registry : (Principal Raw : Type 0) → Type 0
Registry Principal Raw = List (String × Handler Principal Raw)

abbrev pub register :
    {Principal Raw : Type 0}
    → String
    → Handler Principal Raw
    → Registry Principal Raw
    → Registry Principal Raw
register t handler handlers = (t, handler) ∷ handlers

unfoldable pub find_handler :
    {Principal Raw : Type 0} → String → Registry Principal Raw → Option (Handler Principal Raw)
find_handler t [] = none
find_handler t (entry ∷ handlers) =
    if str_eq entry.0 t then some entry.1 else find_handler t handlers

abbrev pub ping_handler : {Principal Raw : Type 0} → Handler Principal Raw
ping_handler stamp principal env raw = some (record {
  envelope = record { message_type = "pong"; msg_id = env.msg_id; sent_at = stamp.now };
  ack_msg_id = env.msg_id;
  status = "ok";
  code = "";
})

abbrev pub stub_ack_handler : {Principal Raw : Type 0} → Handler Principal Raw
stub_ack_handler stamp principal env raw = some (new_ack env.msg_id stamp)

-- The session of an ingest frame, if it can be decoded; 0 is the nil UUID.
abbrev pub stub_ingest_handler : {Principal Raw : Type 0} → (Raw → Option ℕ) → Handler Principal Raw
stub_ingest_handler session_of stamp principal env raw = elim (session_of raw) [
  | none ↦ some (new_error_ack env.msg_id "malformed_ingest" stamp)
  | some session ↦
      if session == 0
      then some (new_error_ack env.msg_id "missing_session_id" stamp)
      else some (new_ack env.msg_id stamp)
]

abbrev pub new_gateway : {Principal Raw : Type 0} → (Raw → Option ℕ) → Registry Principal Raw
new_gateway session_of = register "stack.share" stub_ack_handler (
    register "stack.upsert" stub_ack_handler (
      register "trace.session_completed" stub_ack_handler (
        register "trace.session_started" stub_ack_handler (
          register "auth.hello" stub_ack_handler (
            register "trace.event" (stub_ingest_handler session_of)
              (register "ping" ping_handler []))))))

-- What a read of the socket gives. A frame is text with its decoding: an envelope, or the message
-- identifier that was filled in before the decoder failed.
pub data Inbound (Raw : Type 0) : Type 0 where
  read_error : Inbound Raw
  binary : Inbound Raw
  malformed : ℕ → Inbound Raw
  frame : Envelope → Raw → Inbound Raw

pub data CloseStatus : Type 0 where
  normal_closure going_away unsupported_data internal_error : CloseStatus

-- What the reader did: the acknowledgements it handed to `enqueue` in order, the pongs it passed
-- on, and the close status it asked for, unless it is still reading.
pub record Reading : Type 0 where
  pub acks : List Ack
  pub pongs : ℕ
  pub close : Option CloseStatus

abbrev acked : Ack → Reading → Reading
acked ack r = record r { acks = ack ∷ r.acks }

abbrev stopped : List Ack → CloseStatus → Reading
stopped acks status = record { acks = acks; pongs = 0; close = some status }

abbrev stamp_after : Stamp → Stamp
stamp_after stamp = record { fresh = suc stamp.fresh; now = stamp.now }

unfoldable pub read_loop :
    {Principal Raw : Type 0}
    → Registry Principal Raw
    → Principal
    → Stamp
    → List (Inbound Raw)
    → Reading
read_loop handlers principal stamp [] = record { acks = []; pongs = 0; close = none }
read_loop handlers principal stamp (read_error ∷ frames) = stopped [] normal_closure
read_loop handlers principal stamp (binary ∷ frames) = stopped [] unsupported_data
read_loop handlers principal stamp (malformed msg_id ∷ frames) =
    stopped (new_error_ack msg_id "malformed_envelope" stamp ∷ []) unsupported_data
read_loop handlers principal stamp (frame env raw ∷ frames) =
    let rest = read_loop handlers principal (stamp_after stamp) frames in
    if str_eq env.message_type "pong"
    then record rest { pongs = suc rest.pongs }
    else elim (find_handler env.message_type handlers) [
      | none ↦ stopped (new_error_ack env.msg_id "unknown_type" stamp ∷ []) unsupported_data
      | some handler ↦ acked (safe_invoke handler stamp principal env raw) rest
    ]

-- The close status of a connection is the first that is set; the zero value is normal closure.
abbrev pub set_close : Option CloseStatus → CloseStatus → Option CloseStatus
set_close none status = some status
set_close (some old) status = some old

-- What the heartbeat's select statements receive.
pub data Beat : Type 0 where
  tick pong_came timer_fired : Beat

-- The loop's state: whether it waits for a pong, what the two channels of capacity one hold, the
-- pings it has sent, and the close status it set before it returned.
pub record Heartbeat : Type 0 where
  pub waiting : Bool
  pub pong_buffered : Bool
  pub tick_buffered : Bool
  pub pings : ℕ
  pub close : Option CloseStatus

abbrev pub start_heartbeat : Heartbeat
start_heartbeat = record {
  waiting = false;
  pong_buffered = false;
  tick_buffered = false;
  pings = 0;
  close = none;
}

-- A ping goes out; a pong that is there already ends the wait at once.
abbrev ping_out : Heartbeat → Heartbeat
ping_out h = record h {
  pings = suc h.pings;
  waiting = not h.pong_buffered;
  pong_buffered = false;
  tick_buffered = false;
}

on_beat : Beat → Heartbeat → Heartbeat
on_beat tick h = if h.waiting then record h { tick_buffered = true } else ping_out h
on_beat pong_came h =
    if h.waiting
    then if h.tick_buffered then ping_out h else record h { waiting = false }
    else record h { pong_buffered = true }
on_beat timer_fired h =
    if h.waiting then record h { close = some internal_error; waiting = false } else h

unfoldable pub beat : Beat → Heartbeat → Heartbeat
unfolding on_beat
beat b h = elim h.close [ none ↦ on_beat b h | some status ↦ h ]

unfoldable pub heartbeat_loop : List Beat → Heartbeat → Heartbeat
heartbeat_loop [] h = h
heartbeat_loop (b ∷ beats) h = heartbeat_loop beats (beat b h)
