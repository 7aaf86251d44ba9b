-- ===== src/Gateway/Queue.antt =====
-- The writer's queue: what `enqueue` keeps, drops and reorders.
use iter.Common.{
  ℕ, zero, suc, ◌+◌, ◌≤◌, ◌<◌, ◌≡◌, refl, sym, ap, ◌∙◌, Bool, true, false, not, ltb, ltb→lt, lt→ltb,
  ge→ltb, if◌then◌else◌, List, [], ◌∷◌, ◌++◌, All, count_if, count_if-append, length, length-append,
  Bool-cases, inl, inr, arith,
}
use mathlib.Core.List.{append_assoc, append-nil}
use iter.Gateway.{
  Ack, Envelope, Outbound, ack_out, other_out, is_ack, Enqueued, queued, dropped, blocked, evict,
  send, enqueue,
}

abbrev pub ack_test : (Ack → Bool) → Outbound → Bool
ack_test p (ack_out a) = p a
ack_test p (other_out e) = false

-- The channel's entries, with the message that its sender still holds.
abbrev pub contents : Enqueued → List Outbound
contents (queued out) = out
contents (dropped out) = out
contents (blocked out msg) = out ++ msg ∷ []

abbrev pub channel : Enqueued → List Outbound
channel (queued out) = out
channel (dropped out) = out
channel (blocked out msg) = out

evict-counts :
    (p : Ack → Bool) (n : ℕ) (pre out : List Outbound)
    → count_if (ack_test p) (evict n pre out).0 + count_if (ack_test p) (evict n pre out).1
      ≡ count_if (ack_test p) pre + count_if (ack_test p) out
unfolding evict
evict-counts p zero pre out = refl
evict-counts p (suc n) pre [] = refl
evict-counts p (suc n) pre (other_out e ∷ out) = refl
evict-counts p (suc n) pre (ack_out a ∷ out) =
    let ih = evict-counts p n (pre ++ ack_out a ∷ []) out in
    let e = count_if-append (ack_test p) pre (ack_out a ∷ []) in
    let f = count_if-append (ack_test p) (ack_out a ∷ []) out in omega (arith, ih, e, f)

evict-length :
    (n : ℕ) (pre out : List Outbound)
    → length (evict n pre out).0 + length (evict n pre out).1 ≤ length pre + length out
unfolding evict
evict-length zero pre out = omega arith
evict-length (suc n) pre [] = omega arith
evict-length (suc n) pre (other_out e ∷ out) = omega arith
evict-length (suc n) pre (ack_out a ∷ out) =
    let ih = evict-length n (pre ++ ack_out a ∷ []) out in
    let e = length-append pre (ack_out a ∷ []) in omega (arith, ih, e)

send-counts :
    (p : Ack → Bool) (capacity : ℕ) (msg : Outbound) (out : List Outbound)
    → count_if (ack_test p) (contents (send capacity msg out))
      ≡ count_if (ack_test p) out + count_if (ack_test p) (msg ∷ [])
send-counts p capacity msg out = elim (Bool-cases (ltb (length out) capacity)) [
  | inl e ↦ rw e (count_if-append (ack_test p) out (msg ∷ []))
  | inr e ↦ rw e (count_if-append (ack_test p) out (msg ∷ []))
]

-- Acknowledgements are never dropped: with any property, as many of them as before, with the new
-- one, are in the channel or held by its blocked sender.
pub enqueue_keeps_acks :
    (p : Ack → Bool) (capacity : ℕ) (out : List Outbound) (msg : Outbound)
    → count_if (ack_test p) (contents (enqueue capacity out msg))
      ≡ count_if (ack_test p) out + count_if (ack_test p) (msg ∷ [])
unfolding enqueue
enqueue_keeps_acks p capacity out msg = elim (Bool-cases (ltb (length out) capacity)) [
  | inl e ↦ rw e (count_if-append (ack_test p) out (msg ∷ []))
  | inr e ↦ rw e (full msg)
]
  where
    full :
        (m : Outbound)
        → count_if (ack_test p) (
            contents (
              if not (is_ack m)
              then dropped out
              else send capacity m ((evict capacity [] out).1 ++ (evict capacity [] out).0)))
          ≡ count_if (ack_test p) out + count_if (ack_test p) (m ∷ [])
    full (other_out e) = omega arith
    full (ack_out a) =
        let taken = evict capacity [] out in
        let s = send-counts p capacity (ack_out a) (taken.1 ++ taken.0) in
        let c = count_if-append (ack_test p) taken.1 taken.0 in
        let v = evict-counts p capacity [] out in omega (arith, s, c, v)

send-length :
    (capacity : ℕ) (msg : Outbound) (out : List Outbound)
    → length out ≤ capacity
    → length (channel (send capacity msg out)) ≤ capacity
send-length capacity msg out h = elim (Bool-cases (ltb (length out) capacity)) [
  | inl e ↦
      let l = ltb→lt (length out) capacity e in
      let a = length-append out (msg ∷ []) in rw e (omega (arith, l, a))
  | inr e ↦ rw e h
]

-- A channel that is within its capacity stays within it.
pub enqueue_bounded :
    (capacity : ℕ) (out : List Outbound) (msg : Outbound)
    → length out ≤ capacity
    → length (channel (enqueue capacity out msg)) ≤ capacity
unfolding enqueue
enqueue_bounded capacity out msg h = elim (Bool-cases (ltb (length out) capacity)) [
  | inl e ↦
      let l = ltb→lt (length out) capacity e in
      let a = length-append out (msg ∷ []) in rw e (omega (arith, l, a))
  | inr e ↦ rw e (full msg)
]
  where
    full :
        (m : Outbound)
        → length (
            channel (
              if not (is_ack m)
              then dropped out
              else send capacity m ((evict capacity [] out).1 ++ (evict capacity [] out).0)))
          ≤ capacity
    full (other_out e) = h
    full (ack_out a) =
        let taken = evict capacity [] out in
        send-length capacity (ack_out a) (taken.1 ++ taken.0) (
          let v = evict-length capacity [] out in
          let c = length-append taken.1 taken.0 in omega (arith, h, v, c))

abbrev pub IsAck : Outbound → Type 0
IsAck o = is_ack o ≡ true

evict-rotates :
    (n : ℕ) (pre front : List Outbound) (e : Envelope) (back : List Outbound)
    → All IsAck front
    → length front < n
    → evict n pre (front ++ other_out e ∷ back) ≡ (pre ++ front, back)
unfolding evict
evict-rotates zero pre front e back h l = absurd (omega (arith, l))
evict-rotates (suc n) pre [] e back h l = ap (λ xs. (xs, back)) (sym (append-nil pre))
evict-rotates (suc n) pre (other_out f ∷ front) e back h l = absurd (ground (arith, h.0))
evict-rotates (suc n) pre (ack_out a ∷ front) e back h l =
    evict-rotates n (pre ++ ack_out a ∷ []) front e back h.1 (omega arith)
    ∙ ap (λ xs. (xs, back)) (append_assoc pre (ack_out a ∷ []) front)

-- What becomes of the order when an acknowledgement comes to a full channel whose first entry that
-- is none stands after `front` and before `back`: that entry is dropped, and the acknowledgements
-- of `front` go behind the entries of `back`.
pub enqueue_rotates :
    (capacity : ℕ) (front : List Outbound) (e : Envelope) (back : List Outbound) (a : Ack)
    → All IsAck front
    → length (front ++ other_out e ∷ back) ≡ capacity
    → enqueue capacity (front ++ other_out e ∷ back) (ack_out a)
      ≡ queued ((back ++ front) ++ ack_out a ∷ [])
unfolding enqueue
enqueue_rotates capacity front e back a h l =
    let n = length-append front (other_out e ∷ back) in
    let m = length-append back front in
    rw (ge→ltb (length (front ++ other_out e ∷ back)) capacity (omega (arith, l))) (
      rw (evict-rotates capacity [] front e back h (omega (arith, l, n)))
        (rw (lt→ltb (length (back ++ front)) capacity (omega (arith, l, n, m))) refl))
