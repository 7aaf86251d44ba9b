-- ===== src/Ingest/Retries.antt =====
-- A message that keeps failing reaches the dead-letter stream.
use iter.Common.{
  ℕ, zero, suc, ◌+◌, ◌-◌, leb→le, leb→gt, ◌≤◌, ◌<◌, ◌≡◌, ◌≢◌, refl, ap, sym, drop, List, ◌==◌,
  if◌then◌else◌, ◌∙◌, Bool, true, false, leb, gt→leb, some, [], ◌∷◌, ◌++◌, String, str_eq,
  Bool-cases, inl, inr, arith, length,
}
use iter.Common.Int.{ℤ, pos, max_int, plus_one}
use iter.Common.Bytes.{bytes_eq, bytes_eq→eq, bytes_eq_refl}
use iter.Ingest.{
  Name, Value, text, raw_bytes, int, Values, get_value, put_value, Codec, read_retries, wire,
  max_retries, stream_prefix, stream_name, dlq_prefix, unknown, dlq_name, dlq_name_from_stream,
}
use iter.Ingest.Consumer.{
  Msg, Env, Effect, added, acknowledged, audited, persisted, embedding_queued, ack_message,
  dead_letter, retry, fail,
}

skipped :
    (codec : Codec) (key : String) (v : Value) (values : Values)
    → str_eq key "retries" ≡ false
    → get_value "retries" (wire codec ((key, v) ∷ values)) ≡ get_value "retries" (wire codec values)
skipped codec key (text s) values e = rw e refl
skipped codec key (raw_bytes s) values e = rw e refl
skipped codec key (int n) values e = rw e refl

get_value-put_value :
    (codec : Codec) (n : ℤ) (values : Values)
    → get_value "retries" (wire codec (put_value "retries" (int n) values))
      ≡ some (text (codec.itoa n))
get_value-put_value codec n [] = refl
get_value-put_value codec n ((key, v) ∷ values) =
    let ih = get_value-put_value codec n values in
    elim (Bool-cases (str_eq key "retries")) [
      | inl e ↦ rw e refl
      | inr e ↦ rw e (skipped codec key v (put_value "retries" (int n) values) e ∙ ih)
    ]

-- The counter that a failed message is written back with is read back by the next delivery.
pub read_retries-put_value :
    (codec : Codec) (n : ℕ) (values : Values)
    → n ≤ max_int
    → read_retries codec (wire codec (put_value "retries" (int (pos n)) values)) ≡ pos n
unfolding read_retries
read_retries-put_value codec n values h =
    rw (get_value-put_value codec (pos n) values) (codec.atoi-itoa n h)

-- The message as it is delivered after the values were added to its stream.
abbrev pub redelivered : Codec → Msg → Values → Msg
redelivered codec msg values = record msg { values = wire codec values }

-- What the effects add to a stream.
abbrev pub sent_to : Name → List Effect → List Values
sent_to name [] = []
sent_to name (added stream values ∷ effects) =
    let rest = sent_to name effects in if bytes_eq stream name then values ∷ rest else rest
sent_to name (acknowledged stream id ∷ effects) = sent_to name effects
sent_to name (audited entry ∷ effects) = sent_to name effects
sent_to name (persisted row ∷ effects) = sent_to name effects
sent_to name (embedding_queued tenant session prompt ∷ effects) = sent_to name effects

abbrev pub first_values : List Values → Values
first_values [] = []
first_values (values ∷ others) = values

-- A delivery that added nothing to the stream is the last one.
abbrev pub tally : List Values → ℕ → ℕ × ℕ → ℕ × ℕ
tally [] dead rest = (0, dead)
tally (values ∷ others) dead rest = (suc rest.0, dead + rest.1)

-- Handles a message that fails before anything is written, and then, as long as the handling has
-- added an entry to the message's stream, this entry: how many times it went back to the stream,
-- and how many entries came into the dead-letter stream.
abbrev pub deliver : ℕ → Codec → Env → String → Msg → ℕ × ℕ
deliver zero codec env cause msg = (0, 0)
deliver (suc fuel) codec env cause msg =
    let effects = (fail codec env msg cause).1 in
    let back = sent_to msg.stream effects in
    tally back (length (sent_to (dlq_name_from_stream msg.stream) effects))
      (deliver fuel codec env cause (redelivered codec msg (first_values back)))

length-drop {ℓ} : {A : Type ℓ} (n : ℕ) (xs : List A) → length (drop n xs) ≡ length xs - n
length-drop zero xs = omega arith
length-drop (suc n) [] = omega arith
length-drop (suc n) (x ∷ xs) = omega (arith, length-drop n xs)

-- No stream is its own dead-letter stream.
dlq_apart : (stream : Name) → length (dlq_name_from_stream stream) ≢ length stream
unfolding dlq_name_from_stream
dlq_apart stream = by_length (leb (length stream) 13) refl
  where
    by_length :
        (b : Bool)
        → leb (length stream) 13 ≡ b
        → length
            (if b then dlq_prefix ++ unknown else dlq_prefix ++ drop (length stream_prefix) stream)
          ≢ length stream
    by_length true e h = absurd (omega (arith, leb→le (length stream) 13 e, h))
    by_length false e h =
        absurd (omega (arith, leb→gt (length stream) 13 e, length-drop 13 stream, h))

names_differ : (a b : Name) → length a ≢ length b → bytes_eq a b ≡ false
names_differ a b h = elim (Bool-cases (bytes_eq a b)) [
  | inl e ↦ absurd (h (ap length (bytes_eq→eq a b e)))
  | inr e ↦ e
]

plus_one-pos : (n : ℕ) → n < max_int → plus_one (pos n) ≡ pos (suc n)
plus_one-pos n h = rw (below n h) refl
  where
    below : (n : ℕ) → n < max_int → (n == max_int) ≡ false
    below n h = ground arith

module _ (codec : Codec) (env : Env) (cause : String) (up : env.xadd_ok ≡ true)
    (acks : env.ack_ok ≡ true) where
  -- The message's counter, as Redis gives it.
  abbrev Counts : Msg → ℕ → Type 0
  Counts msg n = (read_retries codec msg.values ≡ pos n) × (n < max_int)

  abbrev again : Msg → ℕ → Values
  again msg n = put_value "retries" (int (pos (suc n))) msg.values

  next : (msg : Msg) (n : ℕ) → Counts msg n → plus_one (read_retries codec msg.values) ≡ pos (suc n)
  next msg n c = ap plus_one c.0 ∙ plus_one-pos n c.1

  buried :
      (msg : Msg) (n : ℕ)
      → Counts msg n
      → leb max_retries (suc n) ≡ true
      → (fail codec env msg cause).1
        ≡ added (dlq_name_from_stream msg.stream) (put_value "error" (text cause) msg.values)
          ∷ acknowledged msg.stream msg.id
          ∷ []
  unfolding fail dead_letter ack_message
  buried msg n c e = rw (next msg n c) rw e rw up rw acks refl

  sent_back :
      (msg : Msg) (n : ℕ)
      → Counts msg n
      → leb max_retries (suc n) ≡ false
      → (fail codec env msg cause).1
        ≡ added msg.stream (again msg n) ∷ acknowledged msg.stream msg.id ∷ []
  unfolding fail retry ack_message
  sent_back msg n c e = rw (next msg n c) rw e rw up rw acks refl

  -- One delivery, by what its handling does.
  abbrev step : ℕ → Msg → List Effect → ℕ × ℕ
  step fuel msg effects =
      tally (sent_to msg.stream effects)
        (length (sent_to (dlq_name_from_stream msg.stream) effects))
        (deliver fuel codec env cause
          (redelivered codec msg (first_values (sent_to msg.stream effects))))

  -- While Redis answers, a message that keeps failing is written back to its stream until its
  -- counter stands at four, and the next delivery writes one entry to the dead-letter stream: with
  -- a counter of `n` it goes back `4 - n` times, so a new message is handled five times, and five
  -- deliveries are enough. Each delivery is of what the one before has added to the stream.
  pub deliver_dead_letters :
      (fuel : ℕ) (msg : Msg) (n : ℕ)
      → read_retries codec msg.values ≡ pos n
      → n < max_int
      → max_retries ≤ fuel + n
      → 0 < fuel
      → deliver fuel codec env cause msg ≡ (4 - n, 1)
  deliver_dead_letters zero msg n r b h some_fuel = absurd (omega (arith, some_fuel))
  deliver_dead_letters (suc fuel) msg n r b h some_fuel =
      elim (Bool-cases (leb max_retries (suc n))) [
        | inl e ↦
            ap (step fuel msg) (buried msg n (r, b) e)
            ∙ (rw (names_differ _ _ (dlq_apart msg.stream)) rw
                (bytes_eq_refl (dlq_name_from_stream msg.stream))
                (ap {B = ℕ × ℕ} (λ k. (k, 1)) (omega (arith, leb→le max_retries (suc n) e))))
        | inr e ↦
            let few = leb→gt max_retries (suc n) e in
            let ih =
              deliver_dead_letters fuel (redelivered codec msg (again msg n)) (suc n)
                (read_retries-put_value codec (suc n) msg.values (omega (arith, few)))
                (omega (arith, few)) (omega (arith, h)) (omega (arith, h, few)) in
            ap (step fuel msg) (sent_back msg n (r, b) e)
            ∙ (rw (bytes_eq_refl msg.stream) rw
                (names_differ msg.stream _ (λ q. dlq_apart msg.stream (sym q)))
                (ap {B = ℕ × ℕ} (λ p. (suc p.0, 0 + p.1)) ih
                  ∙ ap {B = ℕ × ℕ} (λ k. (k, 1)) (omega (arith, few))))
      ]

-- The dead-letter stream of a tenant with a non-empty name is found from the name of the tenant's
-- stream.
pub dlq_name_from_stream-stream_name :
    (tenant : Name)
    → 0 < length tenant
    → dlq_name_from_stream (stream_name tenant) ≡ dlq_name tenant
unfolding dlq_name_from_stream stream_name dlq_name
dlq_name_from_stream-stream_name tenant h =
    rw (gt→leb (length (stream_prefix ++ tenant)) 13 (omega arith)) refl
