-- ===== src/Daemon/Delivery.antt =====
-- What the publishing loop takes off the queue, and what a turn can lose.
use mathlib.Core.List.{nil≢cons, head-eq_of_cons-eq}
use iter.Common.{
  ℕ, zero, suc, ◌≤◌, ◌<◌, ◌≡◌, refl, ap, subst, true, false, ◌==◌, if◌then◌else◌, List, [], ◌∷◌,
  String, take, drop, Bool-cases, inl, inr, arith,
}
use iter.Daemon.Wal.{
  Entry, Row, Wal, entry_of, is_unsent, unsent_rows, update_sent, update_all, commit, mark_sent,
  WalEvent,
}
use iter.Daemon.Fifo.{Above, unsent_rows-update_sent, update_sent-Above}
use iter.Daemon.Capture.{
  Outcome, publish_fails, mark_fails, delivered, Published, publish_loop, CaptureConfig, Turn,
  store_events,
}

-- The publisher acknowledged a prefix of the queue, in order; the rows counted as sent are off the
-- queue, and they are all that was acknowledged, but for at most the last one.
abbrev pub InOrder : List Entry → Published → Type 0
InOrder queue r =
    (acked : ℕ) × (r.acked ≡ take acked queue)
    × (unsent_rows r.wal.rows ≡ drop r.sent queue)
    × (r.sent ≤ acked)
    × (acked ≤ suc r.sent)

head-Above :
    (n : ℕ) (rows : List Row) (e : Entry) (rest : List Entry)
    → Above n rows
    → unsent_rows rows ≡ e ∷ rest
    → n < e.id
unfolding unsent_rows
head-Above n [] e rest a h = absurd (nil≢cons h)
head-Above n (row ∷ rows) e rest a h = elim (Bool-cases (is_unsent row)) [
  | inl u ↦
      let k =
        subst (λ b. (if b then entry_of row ∷ unsent_rows rows else unsent_rows rows) ≡ e ∷ rest) u
          h in
      subst (λ x. n < x.id) (head-eq_of_cons-eq k) a.0
  | inr u ↦
      let k =
        subst (λ b. (if b then entry_of row ∷ unsent_rows rows else unsent_rows rows) ≡ e ∷ rest) u
          h in
      let ih = head-Above row.id rows e rest a.1 k in omega (arith, ih, a.0)
]

mark_head :
    (now : ℕ) (wal : Wal) (e : Entry)
    → 0 < e.id
    → mark_sent now (e.id ∷ []) wal ≡ (true, record wal { rows = update_sent now e.id wal.rows })
unfolding mark_sent update_all commit
mark_head now wal e h = rw (positive e.id h) refl
  where
    positive : (n : ℕ) → 0 < n → (n == 0) ≡ false
    positive n l = ground arith

one_more :
    (e : Entry) (queue : List Entry) (r : Published)
    → InOrder queue r
    → InOrder (e ∷ queue) (record { acked = e ∷ r.acked; sent = suc r.sent; wal = r.wal })
one_more e queue r h = (suc h.0, ap (λ es. e ∷ es) h.1, h.2, omega (arith, h.3), omega (arith, h.4))

loop-InOrder :
    (now : ℕ) (outcomes : List Outcome) (k : ℕ) (queue : List Entry) (wal : Wal)
    → Above 0 wal.rows
    → unsent_rows wal.rows ≡ queue
    → InOrder queue (publish_loop now outcomes (take k queue) wal)
unfolding publish_loop
loop-InOrder now outcomes zero queue wal a h = (0, refl, h, omega arith, omega arith)
loop-InOrder now outcomes (suc k) [] wal a h = (0, refl, h, omega arith, omega arith)
loop-InOrder now [] (suc k) (e ∷ queue) wal a h =
    rw (mark_head now wal e (head-Above 0 wal.rows e queue a h)) (
      one_more e queue
        (publish_loop now [] (take k queue) (record wal { rows = update_sent now e.id wal.rows }))
        (loop-InOrder now [] k queue (record wal { rows = update_sent now e.id wal.rows })
          (update_sent-Above now e.id 0 wal.rows a)
          (unsent_rows-update_sent now 0 wal.rows e queue a h)))
loop-InOrder now (publish_fails ∷ outcomes) (suc k) (e ∷ queue) wal a h =
    (0, refl, h, omega arith, omega arith)
loop-InOrder now (mark_fails ∷ outcomes) (suc k) (e ∷ queue) wal a h =
    (1, refl, h, omega arith, omega arith)
loop-InOrder now (delivered ∷ outcomes) (suc k) (e ∷ queue) wal a h =
    rw (mark_head now wal e (head-Above 0 wal.rows e queue a h)) (
      one_more e queue
        (publish_loop now outcomes (take k queue)
          (record wal { rows = update_sent now e.id wal.rows }))
        (loop-InOrder now outcomes k queue (record wal { rows = update_sent now e.id wal.rows })
          (update_sent-Above now e.id 0 wal.rows a)
          (unsent_rows-update_sent now 0 wal.rows e queue a h)))

-- For rows whose identifiers grow, whatever fails: of the oldest `k` unsent rows the loop publishes
-- a prefix in order and stops at the first failure; what it counts as sent is off the queue and the
-- rest is still on it, in order; and at most one event was acknowledged without being counted, so
-- none is lost and at most one is sent again.
pub publish_loop-InOrder :
    (now : ℕ) (outcomes : List Outcome) (k : ℕ) (wal : Wal)
    → Above 0 wal.rows
    → InOrder (unsent_rows wal.rows) (publish_loop now outcomes (take k (unsent_rows wal.rows)) wal)
publish_loop-InOrder now outcomes k wal a =
    loop-InOrder now outcomes k (unsent_rows wal.rows) wal a refl

-- When the events of a turn cannot be appended, the queue stays as it was and nothing is published.
pub store_events_fails :
    (digest : WalEvent → String) (cfg : CaptureConfig) (turn : Turn) (events : List WalEvent)
    (wal : Wal)
    → turn.disk.append_ok ≡ false
    → (store_events digest cfg turn events wal).wal ≡ wal
unfolding store_events
store_events_fails digest cfg turn events wal h = rw h refl
