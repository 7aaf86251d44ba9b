-- ===== src/Daemon/Wal.antt =====
-- internal/daemon/capture_wal.go: the table capture_wal_events.
use iter.Common.{
  ℕ, suc, Bool, true, false, ◌==◌, if◌then◌else◌, Option, none, some, List, [], ◌∷◌, ◌++◌, String,
  str_eq, take, any,
}
use iter.Common.Int.{ℤ, positive_or}

-- Identifiers and times are numbers; 0 is the nil UUID and the zero time. The payload is the JSON
-- it is stored as.
pub record WalEvent : Type 0 where
  pub session_id : ℕ
  pub event_type : String
  pub occurred_at : ℕ
  pub payload : String

pub record Entry : Type 0 where
  pub id : ℕ
  pub event : WalEvent

pub record Row : Type 0 where
  pub id : ℕ
  pub event_key : String
  pub event : WalEvent
  pub sent_at : Option ℕ

-- The rows in the order of their identifiers, and the next identifier of AUTOINCREMENT.
pub record Wal : Type 0 where
  pub rows : List Row
  pub next_id : ℕ

abbrev pub default_list_limit : ℕ
default_list_limit = 100

abbrev pub entry_of : Row → Entry
entry_of row = record { id = row.id; event = row.event }

-- `digest` is the hexadecimal SHA-256 of the event's fields joined by NUL.
unfoldable pub event_key : (digest : WalEvent → String) → WalEvent → Option String
event_key digest event =
    if event.session_id == 0
    then none
    else if str_eq event.event_type ""
    then none
    else if event.occurred_at == 0
    then none
    else some (digest event)

abbrev pub has_key : String → Row → Bool
has_key key row = str_eq row.event_key key

unfoldable pub entry_by_key : String → List Row → Option Entry
entry_by_key key [] = none
entry_by_key key (row ∷ rows) =
    if has_key key row then some (entry_of row) else entry_by_key key rows

abbrev pub new_row : ℕ → String → WalEvent → Row
new_row id key event = record { id = id; event_key = key; event = event; sent_at = none }

-- INSERT OR IGNORE: the key is unique.
unfoldable pub insert_or_ignore : String → WalEvent → Wal → Wal
insert_or_ignore key event wal = if any (has_key key) wal.rows then wal else record wal {
  rows = wal.rows ++ new_row wal.next_id key event ∷ [];
  next_id = suc wal.next_id;
}

unfoldable pub append_key : Option String → WalEvent → Wal → Option Entry × Wal
append_key none event wal = (none, wal)
append_key (some key) event wal =
    let stored = insert_or_ignore key event wal in (entry_by_key key stored.rows, stored)

-- No entry stands for an error.
unfoldable pub append : (digest : WalEvent → String) → WalEvent → Wal → Option Entry × Wal
unfolding append_key
append digest event wal = append_key (event_key digest event) event wal

unfoldable pub append_batch :
    (digest : WalEvent → String) → List WalEvent → Wal → Option (List Entry) × Wal
append_batch digest [] wal = (some [], wal)
append_batch digest (event ∷ events) wal =
    let first = append digest event wal in
    let rest = append_batch digest events first.1 in
    elim first.0 [
      | none ↦ (none, first.1)
      | some entry ↦ elim rest.0 [
        | none ↦ (none, rest.1)
        | some entries ↦ (some (entry ∷ entries), rest.1)
      ]
    ]

abbrev pub is_unsent : Row → Bool
is_unsent row = elim row.sent_at [ none ↦ true | some t ↦ false ]

-- Every row that is not sent, oldest first.
unfoldable pub unsent_rows : List Row → List Entry
unsent_rows [] = []
unsent_rows (row ∷ rows) =
    let rest = unsent_rows rows in if is_unsent row then entry_of row ∷ rest else rest

unfoldable pub unsent : ℤ → Wal → List Entry
unsent limit wal = take (positive_or default_list_limit limit) (unsent_rows wal.rows)

abbrev pub coalesce : Option ℕ → ℕ → Option ℕ
coalesce none t = some t
coalesce (some old) t = some old

unfoldable pub update_sent : ℕ → ℕ → List Row → List Row
update_sent now id [] = []
update_sent now id (row ∷ rows) =
    let rest = update_sent now id rows in
    if row.id == id then record row { sent_at = coalesce row.sent_at now } ∷ rest else row ∷ rest

unfoldable pub update_all : ℕ → List ℕ → List Row → Option (List Row)
update_all now [] rows = some rows
update_all now (id ∷ ids) rows =
    let rest = update_all now ids (update_sent now id rows) in if id == 0 then none else rest

unfoldable pub commit : Wal → Option (List Row) → Bool × Wal
commit wal none = (false, wal)
commit wal (some rows) = (true, record wal { rows = rows })

-- Whether it succeeded; the transaction is rolled back at an invalid identifier.
unfoldable pub mark_sent : ℕ → List ℕ → Wal → Bool × Wal
unfolding update_all commit
mark_sent now ids wal = commit wal (update_all now ids wal.rows)
