-- ===== src/Gateway/Tests.antt =====
-- Frames and queues, and the theorems at concrete inputs.
use iter.Common.{
  ℕ, ◌+◌, ◌≡◌, ◌≤◌, refl, ◌==◌, none, some, List, [], ◌∷◌, ◌++◌, map, count_if, length, String,
  arith,
}
use iter.Gateway.{
  Envelope, Stamp, Outbound, ack_out, other_out, queued, blocked, enqueue, evict, Inbound, frame,
  read_loop, find_handler, new_gateway, new_ack, new_envelope, tick, pong_came, timer_fired,
  heartbeat_loop, start_heartbeat,
}
use iter.Gateway.Queue.{
  ack_test, contents, channel, enqueue_keeps_acks, enqueue_bounded, enqueue_rotates,
}
use iter.Gateway.Acks.{owed, read_loop_acks, new_gateway-AllAnswer, early_pong_answers}

abbrev stamp : Stamp
stamp = record { fresh = 100; now = 5 }

abbrev ack_of : ℕ → Outbound
ack_of n = ack_out (new_ack n stamp)

abbrev ping : Envelope
ping = new_envelope "ping" stamp

abbrev full : List Outbound
full = ack_of 1 ∷ other_out ping ∷ ack_of 2 ∷ []

evicts_ping : enqueue 3 full (ack_of 3) ≡ queued (ack_of 2 ∷ ack_of 1 ∷ ack_of 3 ∷ [])
unfolding enqueue evict
evicts_ping = refl

blocks_behind_acks :
    enqueue 2 (ack_of 1 ∷ ack_of 2 ∷ []) (ack_of 3) ≡ blocked (ack_of 1 ∷ ack_of 2 ∷ []) (ack_of 3)
unfolding enqueue evict
blocks_behind_acks = refl

enqueue_keeps_acks_example :
    count_if (ack_test (λ a. a.ack_msg_id == 1)) (contents (enqueue 3 full (ack_of 3)))
    ≡ count_if (ack_test (λ a. a.ack_msg_id == 1)) full
      + count_if (ack_test (λ a. a.ack_msg_id == 1)) (ack_of 3 ∷ [])
enqueue_keeps_acks_example = enqueue_keeps_acks (λ a. a.ack_msg_id == 1) 3 full (ack_of 3)

enqueue_bounded_run : length (channel (enqueue 3 full (ack_of 3))) ≤ 3
enqueue_bounded_run = enqueue_bounded 3 full (ack_of 3) (omega arith)

enqueue_rotates_run :
    enqueue 3 full (ack_of 3) ≡ queued (((ack_of 2 ∷ []) ++ (ack_of 1 ∷ [])) ++ ack_of 3 ∷ [])
enqueue_rotates_run =
    enqueue_rotates 3 (ack_of 1 ∷ []) ping (ack_of 2 ∷ []) (new_ack 3 stamp) (refl, tt) refl

abbrev env_of : String → ℕ → Envelope
env_of t n = record { message_type = t; msg_id = n; sent_at = 0 }

-- A frame is read as its session.
abbrev frames : List (Inbound ℕ)
frames =
    frame (env_of "trace.event" 1) 7
    ∷ frame (env_of "pong" 2) 0
    ∷ frame (env_of "trace.event" 3) 0
    ∷ frame (env_of "nonsense" 4) 0
    ∷ frame (env_of "ping" 5) 0
    ∷ []

owes : owed (new_gateway {Principal = ℕ} some) frames ≡ 1 ∷ 3 ∷ 4 ∷ []
unfolding find_handler
owes = refl

read_loop_acks_example :
    map (λ ack. ack.ack_msg_id) (read_loop (new_gateway {Principal = ℕ} some) 9 stamp frames).acks
    ≡ owed (new_gateway {Principal = ℕ} some) frames
read_loop_acks_example =
    read_loop_acks (new_gateway some) 9 stamp frames (new_gateway-AllAnswer some)

early_pong_answers_run :
    (heartbeat_loop (pong_came ∷ tick ∷ timer_fired ∷ []) start_heartbeat).close ≡ none
early_pong_answers_run = early_pong_answers (timer_fired ∷ []) (refl, tt)
