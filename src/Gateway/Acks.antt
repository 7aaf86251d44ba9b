-- ===== src/Gateway/Acks.antt =====
-- The reader acknowledges what it reads, and the heartbeat.
use iter.Common.{
  ℕ, ◌≡◌, refl, sym, ap, subst, ◌∙◌, Bool, true, false, str_eq, String, if◌then◌else◌, Option, none,
  some, List, [], ◌∷◌, map, All, Bool-cases, Option-cases, inl, inr, ◌==◌, arith,
}
use iter.Gateway.{
  Ack, Envelope, Stamp, Handler, Registry, find_handler, safe_invoke, Inbound, read_error, binary,
  malformed, frame, read_loop, stamp_after, new_gateway, Beat, tick, pong_came, timer_fired,
  start_heartbeat, heartbeat_loop, stub_ack_handler, ping_handler, stub_ingest_handler, new_ack,
  beat, on_beat, new_error_ack,
}

module _ {Principal Raw : Type 0} where
  -- A handler whose acknowledgements name the frame they answer.
  abbrev pub Answers : Handler Principal Raw → Type 0
  Answers handler =
      (stamp : Stamp) (principal : Principal) (env : Envelope) (raw : Raw) (ack : Ack)
      → handler stamp principal env raw ≡ some ack
      → ack.ack_msg_id ≡ env.msg_id

  abbrev pub AllAnswer : Registry Principal Raw → Type 0
  AllAnswer handlers = All (λ entry. Answers entry.1) handlers

  -- The identifiers of the text frames up to the one that ends the connection, but for pongs.
  abbrev pub owed : Registry Principal Raw → List (Inbound Raw) → List ℕ
  owed handlers [] = []
  owed handlers (read_error ∷ frames) = []
  owed handlers (binary ∷ frames) = []
  owed handlers (malformed msg_id ∷ frames) = msg_id ∷ []
  owed handlers (frame env raw ∷ frames) =
      let rest = owed handlers frames in
      if str_eq env.message_type "pong"
      then rest
      else elim (find_handler env.message_type handlers) [
        | none ↦ env.msg_id ∷ []
        | some handler ↦ env.msg_id ∷ rest
      ]

  find_handler-Answers :
      (t : String) (handlers : Registry Principal Raw) (handler : Handler Principal Raw)
      → AllAnswer handlers
      → find_handler t handlers ≡ some handler
      → Answers handler
  unfolding find_handler
  find_handler-Answers t [] handler h e = absurd (ground (arith, e))
  find_handler-Answers t (entry ∷ handlers) handler h e = elim (Bool-cases (str_eq entry.0 t)) [
    | inl y ↦
        subst Answers
          (ap (λ o. elim o [ some found ↦ found | none ↦ entry.1 ])
            (subst (λ b. (if b then some entry.1 else find_handler t handlers) ≡ some handler) y e))
          h.0
    | inr n ↦
        find_handler-Answers t handlers handler h.1
          (subst (λ b. (if b then some entry.1 else find_handler t handlers) ≡ some handler) n e)
  ]

  safe_invoke-Answers :
      (handler : Handler Principal Raw) (stamp : Stamp) (principal : Principal) (env : Envelope)
      (raw : Raw)
      → Answers handler
      → (safe_invoke handler stamp principal env raw).ack_msg_id ≡ env.msg_id
  unfolding safe_invoke
  safe_invoke-Answers handler stamp principal env raw h =
      elim (Option-cases (handler stamp principal env raw)) [
        | inl e ↦ rw (safe_invoke, e) refl
        | inr (ack, e) ↦ rw (safe_invoke, e) (h stamp principal env raw ack e)
      ]

  -- With handlers whose acknowledgements name the frame they answer, or panic: the reader hands
  -- over exactly one acknowledgement for each text frame it reads, but for pongs, in the order of
  -- the frames, and it names the frame. This includes a frame that does not parse or has an unknown
  -- type, which is the last one it reads; a binary frame ends the reading without one.
  pub read_loop_acks :
      (handlers : Registry Principal Raw) (principal : Principal) (stamp : Stamp)
      (frames : List (Inbound Raw))
      → AllAnswer handlers
      → map (λ ack. ack.ack_msg_id) (read_loop handlers principal stamp frames).acks
        ≡ owed handlers frames
  unfolding read_loop
  read_loop_acks handlers principal stamp [] h = refl
  read_loop_acks handlers principal stamp (read_error ∷ frames) h = refl
  read_loop_acks handlers principal stamp (binary ∷ frames) h = refl
  read_loop_acks handlers principal stamp (malformed msg_id ∷ frames) h = refl
  read_loop_acks handlers principal stamp (frame env raw ∷ frames) h =
      let ih = read_loop_acks handlers principal (stamp_after stamp) frames h in
      elim (Bool-cases (str_eq env.message_type "pong")) [
        | inl e ↦ rw e ih
        | inr e ↦ rw e (elim (Option-cases (find_handler env.message_type handlers)) [
          | inl n ↦ rw n refl
          | inr (handler, s) ↦
              rw s rw
                (safe_invoke-Answers handler stamp principal env raw
                  (find_handler-Answers env.message_type handlers handler h s))
                (ap (λ ids. env.msg_id ∷ ids) ih)
        ])
      ]

answer-id : (id : ℕ) (a ack : Ack) → a.ack_msg_id ≡ id → some a ≡ some ack → ack.ack_msg_id ≡ id
answer-id id a ack h e = ap (λ o. elim o [ some x ↦ x.ack_msg_id | none ↦ id ]) (sym e) ∙ h

module _ {Principal Raw : Type 0} where
  stub_ack_handler-Answers : Answers {Principal = Principal} {Raw = Raw} stub_ack_handler
  stub_ack_handler-Answers stamp principal env raw ack e =
      answer-id env.msg_id (new_ack env.msg_id stamp) ack refl e

  ping_handler-Answers : Answers {Principal = Principal} {Raw = Raw} ping_handler
  ping_handler-Answers stamp principal env raw ack e = answer-id env.msg_id _ ack refl e

  stub_ingest_handler-Answers :
      (session_of : Raw → Option ℕ)
      → Answers {Principal = Principal} {Raw = Raw} (stub_ingest_handler session_of)
  stub_ingest_handler-Answers session_of stamp principal env raw ack e =
      by_session (session_of raw) e
    where
      by_test :
          (b : Bool)
          → (if b
              then some (new_error_ack env.msg_id "missing_session_id" stamp)
              else some (new_ack env.msg_id stamp))
            ≡ some ack
          → ack.ack_msg_id ≡ env.msg_id
      by_test true q = answer-id env.msg_id _ ack refl q
      by_test false q = answer-id env.msg_id _ ack refl q

      by_session :
          (o : Option ℕ)
          → (elim o [
            | none ↦ some (new_error_ack env.msg_id "malformed_ingest" stamp)
            | some session ↦
                if session == 0
                then some (new_error_ack env.msg_id "missing_session_id" stamp)
                else some (new_ack env.msg_id stamp)
          ])
            ≡ some ack
          → ack.ack_msg_id ≡ env.msg_id
      by_session none q = answer-id env.msg_id _ ack refl q
      by_session (some n) q = by_test (n == 0) q

  pub new_gateway-AllAnswer :
      (session_of : Raw → Option ℕ) → AllAnswer (new_gateway {Principal = Principal} session_of)
  new_gateway-AllAnswer session_of =
      let stub = stub_ack_handler-Answers in
      (
        stub,
        (
          stub,
          (
            stub,
            (stub, (stub, (stub_ingest_handler-Answers session_of, (ping_handler-Answers, tt)))),
          ),
        ),
      )

-- A pong counts for the next ping whenever it came, and whatever its identifier: after one that
-- came early, the ping of the next tick is taken as answered, so no timer ends the connection
-- before the tick after it.
pub early_pong_answers :
    (timers : List Beat)
    → All (λ b. b ≡ timer_fired) timers
    → (heartbeat_loop (pong_came ∷ tick ∷ timers) start_heartbeat).close ≡ none
unfolding heartbeat_loop beat on_beat
early_pong_answers timers h = quiet_after timers h
  where
    quiet_after :
        (ts : List Beat)
        → All (λ b. b ≡ timer_fired) ts
        → (heartbeat_loop ts (record start_heartbeat { pings = 1 })).close ≡ none
    quiet_after [] k = refl
    quiet_after (t ∷ ts) k =
        subst
          (λ b. (heartbeat_loop ts (beat b (record start_heartbeat { pings = 1 }))).close ≡ none)
          (sym k.0) (quiet_after ts k.1)
