-- ===== src/Daemon/Tests.antt =====
-- A queue of three rows, a file, and the theorems at concrete inputs.
use iter.Common.{
  ◌≡◌, refl, true, false, none, some, List, All, ℕ, inr, [], ◌∷◌, String, take, arith,
}
use iter.Daemon.Wal.{WalEvent, Wal, new_row, append, unsent_rows}
use iter.Daemon.Fifo.{WellFormed, append_idempotent, append-WellFormed}
use iter.Daemon.Capture.{
  publish_fails, delivered, publish_loop, FileInfo, CapturedSession, CaptureConfig, Candidate,
  capture_file, take_session, seen_at, Turn, store_events,
}
use iter.Daemon.Delivery.{InOrder, publish_loop-InOrder, store_events_fails}
use iter.Daemon.Seen.{look, Unchanged, capture_file_once}

abbrev event : String → WalEvent
event t = record { session_id = 1; event_type = t; occurred_at = 9; payload = "{}" }

abbrev digest : WalEvent → String
digest e = e.event_type

abbrev wal : Wal
wal = record {
  rows =
      record (new_row 1 "a" (event "a")) { sent_at = some 3 }
      ∷ new_row 2 "b" (event "b")
      ∷ new_row 5 "c" (event "c")
      ∷ [];
  next_id = 6;
}

append_idempotent_run :
    append digest (event "d") (append digest (event "d") wal).1 ≡ append digest (event "d") wal
append_idempotent_run = append_idempotent digest (event "d") wal

wal-WellFormed : WellFormed wal
wal-WellFormed = (
  (omega arith, (omega arith, (omega arith, tt))),
  (omega arith, (omega arith, (omega arith, tt))),
  omega arith,
)

append-WellFormed_run : WellFormed (append digest (event "d") wal).1
append-WellFormed_run = append-WellFormed digest (event "d") wal wal-WellFormed

publish_loop-InOrder_example :
    InOrder
      (unsent_rows wal.rows)
      (publish_loop 7 (delivered ∷ publish_fails ∷ []) (take 10 (unsent_rows wal.rows)) wal)
publish_loop-InOrder_example =
    publish_loop-InOrder 7 (delivered ∷ publish_fails ∷ []) 10 wal wal-WellFormed.0

abbrev cfg : CaptureConfig
cfg = record { max_files = 25; max_bytes = 1000 }

abbrev info : FileInfo
info = record { size = 10; mod_time = 100 }

abbrev session : CapturedSession
session = record {
  session_id = 1;
  harness = "codex";
  model = "m";
  prompt = "hello";
  started_at = 50;
  ended_at = none;
  tools = [];
  source_key = "k";
}

captures : (capture_file cfg 200 "p" info (some session) []).0 ≡ some session
unfolding capture_file take_session seen_at
captures = refl

-- In between, the file is looked at again, and another one is taken.
abbrev between : List (ℕ × List Candidate)
between =
    (
      250,
      record { path = "p"; info = some info; parse = some session }
          ∷ record { path = "q"; info = some info; parse = some session }
          ∷ [],
    )
    ∷ []

between-Unchanged : All (λ turn. All (Unchanged "p" info) turn.1) between
between-Unchanged = ((λ e. inr refl, (λ e. inr refl, tt)), tt)

capture_file_once_example :
    let known = look cfg between (capture_file cfg 200 "p" info (some session) []).1 in
    capture_file cfg 300 "p" info (some session) known ≡ (none, known)
capture_file_once_example =
    capture_file_once cfg 200 300 "p" info (some session) (some session) [] session between captures
      between-Unchanged

abbrev turn : Turn
turn = record {
  now = 200;
  paused = false;
  dirs = [];
  disk = record { append_ok = false; unsent_ok = true };
  outcomes = [];
}

failed_append_keeps_queue : (store_events digest cfg turn (event "d" ∷ []) wal).wal ≡ wal
failed_append_keeps_queue = store_events_fails digest cfg turn (event "d" ∷ []) wal refl
