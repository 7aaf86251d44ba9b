-- ===== src/Daemon/Capture.antt =====
-- internal/daemon/capture.go: which files become sessions, the events of a session, and one turn of
-- the runner. Times are seconds.
use iter.Common.{
  ℕ, suc, ◌+◌, ◌*◌, Bool, true, false, ◌||◌, ◌&&◌, ◌==◌, ltb, leb, if◌then◌else◌, Option, none,
  some, List, [], ◌∷◌, ◌++◌, String, str_eq, map, take, length,
}
use iter.Common.Int.{pos}
use iter.Daemon.Wal.{WalEvent, Entry, Wal, append_batch, unsent, mark_sent}

abbrev pub capture_complete_after : ℕ
capture_complete_after = 5

pub record FileInfo : Type 0 where
  pub size : ℕ
  pub mod_time : ℕ

-- `tools` is sorted and without duplicates.
pub record CapturedSession : Type 0 where
  pub session_id : ℕ
  pub harness : String
  pub model : String
  pub prompt : String
  pub started_at : ℕ
  pub ended_at : Option ℕ
  pub tools : List String
  pub source_key : String

pub record CapturePayload : Type 0 where
  pub harness : String
  pub model : String
  pub redacted_prompt : String
  pub source_key : String
  pub tools : List String
  pub ended_at : Option ℕ

pub record CaptureEvent : Type 0 where
  pub session_id : ℕ
  pub event_type : String
  pub occurred_at : ℕ
  pub payload : CapturePayload

-- The two limits; the other settings say where and when to look.
pub record CaptureConfig : Type 0 where
  pub max_files : ℕ
  pub max_bytes : ℕ

-- The files that were taken, by path, as they then were.
abbrev pub Seen : Type 0
Seen = List (String × FileInfo)

-- A missing path reads as the zero value.
unfoldable pub seen_at : String → Seen → FileInfo
seen_at path [] = record { size = 0; mod_time = 0 }
seen_at path (entry ∷ seen) = if str_eq entry.0 path then entry.1 else seen_at path seen

abbrev pub same_file : FileInfo → FileInfo → Bool
same_file a b = (a.size == b.size) && (a.mod_time == b.mod_time)

unfoldable pub take_session :
    String → FileInfo → Seen → Option CapturedSession → Option CapturedSession × Seen
take_session path info seen none = (none, seen)
take_session path info seen (some session) =
    if str_eq session.prompt "" then (none, seen) else (some session, (path, info) ∷ seen)

-- `parse` is what parseCaptureFile makes of the file's content, its prompt without the surrounding
-- space; no session stands for an error, which is only logged.
unfoldable pub capture_file :
    CaptureConfig
    → ℕ
    → String
    → FileInfo
    → Option CapturedSession
    → Seen
    → Option CapturedSession × Seen
capture_file cfg now path info parse seen =
    if (info.size == 0) || ltb cfg.max_bytes info.size
    then (none, seen)
    else if same_file (seen_at path seen) info
    then (none, seen)
    else if ltb now (info.mod_time + capture_complete_after)
    then (none, seen)
    else take_session path info seen parse

-- A path of the walk with what `os.Stat` and the parser say of it.
pub record Candidate : Type 0 where
  pub path : String
  pub info : Option FileInfo
  pub parse : Option CapturedSession

abbrev cons_some : Option CapturedSession → List CapturedSession → List CapturedSession
cons_some none sessions = sessions
cons_some (some session) sessions = session ∷ sessions

unfoldable pub capture_candidate :
    CaptureConfig → ℕ → Candidate → Option FileInfo → Seen → Option CapturedSession × Seen
capture_candidate cfg now c none seen = (none, seen)
capture_candidate cfg now c (some info) seen = capture_file cfg now c.path info c.parse seen

unfoldable pub capture_files :
    CaptureConfig → ℕ → List Candidate → Seen → List CapturedSession × Seen
unfolding capture_candidate
capture_files cfg now [] seen = ([], seen)
capture_files cfg now (c ∷ candidates) seen =
    let first = capture_candidate cfg now c c.info seen in
    let rest = capture_files cfg now candidates first.1 in (cons_some first.0 rest.0, rest.1)

-- The candidates come newest first.
unfoldable pub scan_dir : CaptureConfig → ℕ → List Candidate → Seen → List CapturedSession × Seen
scan_dir cfg now candidates seen = capture_files cfg now (take cfg.max_files candidates) seen

-- A directory that is missing or cannot be read is skipped, as one of a harness that is disabled.
pub record HarnessDir : Type 0 where
  pub enabled : Bool
  pub candidates : Option (List Candidate)

found_in : CaptureConfig → ℕ → Option (List Candidate) → Seen → List CapturedSession × Seen
found_in cfg now none seen = ([], seen)
found_in cfg now (some candidates) seen = scan_dir cfg now candidates seen

unfoldable pub scan_dirs : CaptureConfig → ℕ → List HarnessDir → Seen → List CapturedSession × Seen
unfolding found_in
scan_dirs cfg now [] seen = ([], seen)
scan_dirs cfg now (dir ∷ dirs) seen =
    let first = if dir.enabled then found_in cfg now dir.candidates seen else ([], seen) in
    let rest = scan_dirs cfg now dirs first.1 in (first.0 ++ rest.0, rest.1)

abbrev pub payload_of : CapturedSession → CapturePayload
payload_of s = record {
  harness = s.harness;
  model = s.model;
  redacted_prompt = s.prompt;
  source_key = s.source_key;
  tools = s.tools;
  ended_at = s.ended_at;
}

abbrev pub event_of : CapturedSession → String → ℕ → CaptureEvent
event_of s event_type at = record {
  session_id = s.session_id;
  event_type = event_type;
  occurred_at = at;
  payload = payload_of s;
}

completed : ℕ → CapturedSession → Option ℕ → List CaptureEvent
completed now s none = []
completed now s (some ended) =
    if leb ended (now + capture_complete_after)
    then event_of s "session_completed" ended ∷ []
    else []

unfoldable pub to_events : ℕ → CapturedSession → List CaptureEvent
unfolding completed
to_events now s = event_of s "prompt_sent" s.started_at ∷ completed now s s.ended_at

abbrev pub all_events : ℕ → List CapturedSession → List CaptureEvent
all_events now [] = []
all_events now (s ∷ sessions) = to_events now s ++ all_events now sessions

-- `order` is the sort by start time, which leaves the order of equal times open.
unfoldable pub scan :
    (order : List CapturedSession → List CapturedSession)
    → CaptureConfig
    → ℕ
    → List HarnessDir
    → Seen
    → List CaptureEvent × Seen
scan order cfg now dirs seen =
    let found = scan_dirs cfg now dirs seen in (all_events now (order found.0), found.1)

abbrev pub capture_wal_event : (encode : CapturePayload → String) → CaptureEvent → WalEvent
capture_wal_event encode e = record {
  session_id = e.session_id;
  event_type = e.event_type;
  occurred_at = e.occurred_at;
  payload = encode e.payload;
}

-- What happens to one entry: its publish fails, or the row cannot be marked, or neither.
pub data Outcome : Type 0 where
  publish_fails mark_fails delivered : Outcome

-- The events handed to the publisher that it acknowledged, the number counted as sent, the queue.
pub record Published : Type 0 where
  pub acked : List Entry
  pub sent : ℕ
  pub wal : Wal

abbrev deliver_one : ℕ → Entry → (Wal → Published) → Bool × Wal → Published
deliver_one now e rest (false, wal) = record { acked = e ∷ []; sent = 0; wal = wal }
deliver_one now e rest (true, wal) =
    let r = rest wal in record { acked = e ∷ r.acked; sent = suc r.sent; wal = r.wal }

-- The loop of scanAndPublishWithWAL over the unsent entries; past the end of the outcomes every
-- entry is delivered.
unfoldable pub publish_loop : ℕ → List Outcome → List Entry → Wal → Published
publish_loop now outcomes [] wal = record { acked = []; sent = 0; wal = wal }
publish_loop now [] (e ∷ entries) wal =
    deliver_one now e (publish_loop now [] entries) (mark_sent now (e.id ∷ []) wal)
publish_loop now (publish_fails ∷ outcomes) (e ∷ entries) wal = record {
  acked = [];
  sent = 0;
  wal = wal;
}
publish_loop now (mark_fails ∷ outcomes) (e ∷ entries) wal = record {
  acked = e ∷ [];
  sent = 0;
  wal = wal;
}
publish_loop now (delivered ∷ outcomes) (e ∷ entries) wal =
    deliver_one now e (publish_loop now outcomes entries) (mark_sent now (e.id ∷ []) wal)

-- What the disk answers: the events can be appended, and the unsent rows can be read.
pub record Disk : Type 0 where
  pub append_ok : Bool
  pub unsent_ok : Bool

pub record Runner : Type 0 where
  pub seen : Seen
  pub wal : Wal

-- What a turn is given besides the runner's state.
pub record Turn : Type 0 where
  pub now : ℕ
  pub paused : Bool
  pub dirs : List HarnessDir
  pub disk : Disk
  pub outcomes : List Outcome

unfoldable pub publish_unsent : CaptureConfig → Turn → Wal → Published
publish_unsent cfg turn wal =
    if turn.disk.unsent_ok
    then publish_loop turn.now turn.outcomes (unsent (pos (cfg.max_files * 2)) wal) wal
    else record { acked = []; sent = 0; wal = wal }

after_append : CaptureConfig → Turn → Option (List Entry) × Wal → Published
after_append cfg turn (none, wal) = record { acked = []; sent = 0; wal = wal }
after_append cfg turn (some entries, wal) = publish_unsent cfg turn wal

-- The events are appended one by one; an error stops the turn before anything is published. A disk
-- error is taken to come before the first row.
unfoldable pub store_events :
    (digest : WalEvent → String) → CaptureConfig → Turn → List WalEvent → Wal → Published
unfolding publish_unsent after_append
store_events digest cfg turn events wal =
    if turn.disk.append_ok
    then after_append cfg turn (append_batch digest events wal)
    else record { acked = []; sent = 0; wal = wal }

unfoldable pub scan_and_publish_with_wal :
    (order : List CapturedSession → List CapturedSession) (encode : CapturePayload → String)
    (digest : WalEvent → String)
    → CaptureConfig
    → Turn
    → Runner
    → List Entry × Runner
unfolding store_events publish_unsent after_append
scan_and_publish_with_wal order encode digest cfg turn runner =
    if turn.paused
    then ([], runner)
    else let scanned = scan order cfg turn.now turn.dirs runner.seen in
      let events = map (capture_wal_event encode) scanned.0 in
      let out =
        if length events == 0
        then publish_unsent cfg turn runner.wal
        else store_events digest cfg turn events runner.wal in
      (out.acked, record { seen = scanned.1; wal = out.wal })
