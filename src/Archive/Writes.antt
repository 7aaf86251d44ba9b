-- ===== src/Archive/Writes.antt =====
-- The statements of the write transaction of internal/archive/cron.go, from archive_pointers.go and
-- sessions.go of internal/db/repo, and `WithBatch` of internal/db/tenant.go.
use iter.Common.{
  ℕ, zero, suc, Bool, true, false, not, ◌&&◌, ◌||◌, ◌==◌, if◌then◌else◌, Option, none, some, List,
  [], ◌∷◌, ◌++◌, any, keep_if, length,
}
use iter.Common.Bytes.{is_empty}
use iter.Archive.{Child, Session, Db, is_unarchived}

-- A transaction of PostgreSQL: a statement that fails aborts it, and no further one succeeds.
pub record Tx : Type 0 where
  pub db : Db
  pub aborted : Bool

abbrev ran : Db → Option Db → Bool × Tx
ran before none = (false, record { db = before; aborted = true })
ran before (some after) = (true, record { db = after; aborted = false })

unfoldable pub exec : (Db → Option Db) → Tx → Bool × Tx
exec statement tx = if tx.aborted then (false, tx) else ran tx.db (statement tx.db)

-- The key is unique.
abbrev pub pointer_row : Session → List ℕ → Db → Option Db
pointer_row s uri db =
    if any (λ p. p.session_id == s.id) db.pointers
    then none
    else some (record db {
      pointers =
          db.pointers
          ++ record { session_id = s.id; tenant_id = s.tenant_id; object_uri = uri } ∷ [];
    })

pub data InsertError : Type 0 where
  ok : InsertError
  unique_violation : InsertError
  other_error : InsertError

abbrev insert_error : Bool × Tx → InsertError × Tx
insert_error (true, tx) = (ok, tx)
insert_error (false, tx) = (unique_violation, tx)

-- On a transaction that is not aborted yet, the insert itself fails only on its key.
unfoldable pub insert_pointer : Session → List ℕ → Tx → InsertError × Tx
unfolding exec
insert_pointer s uri tx =
    if (s.id == 0) || ((s.tenant_id == 0) || is_empty uri)
    then (other_error, tx)
    else insert_error (exec (pointer_row s uri) tx)

abbrev pub stamped : ℕ → ℕ → Session → Session
stamped id now s =
    if (s.id == id) && is_unarchived s then record s { archived_at = some now } else s

abbrev pub stamp : ℕ → ℕ → List Session → List Session
stamp id now [] = []
stamp id now (s ∷ ss) = stamped id now s ∷ stamp id now ss

abbrev pub mark_session_archived : ℕ → ℕ → Db → Option Db
mark_session_archived id now db = some (record db { sessions = stamp id now db.sessions })

abbrev pub under : (ℕ → Bool) → Option ℕ → Bool
under above none = false
under above (some parent) = above parent

-- Whether the session is `root`, or has it among the `fuel` next sessions above it.
unfoldable pub descends : ℕ → ℕ → List Session → ℕ → Bool
descends zero root ss i = i == root
descends (suc fuel) root ss i =
    (i == root) || any (λ s. (s.id == i) && under (descends fuel root ss) s.parent_session_id) ss

-- ON DELETE CASCADE, in migrations/0001_initial.sql: with a session go the sessions that were
-- started from it, and what hangs on any of them; the pointers stay.
abbrev pub goes : ℕ → Db → ℕ → Bool
goes id db i = descends (length db.sessions) id db.sessions i

abbrev pub keep_children : (ℕ → Bool) → List Child → List Child
keep_children gone rows = keep_if (λ c. not (gone c.session_id)) rows

abbrev pub cascade : ℕ → Db → Db
cascade id db = record {
  sessions = keep_if (λ s. not (goes id db s.id)) db.sessions;
  events = keep_children (goes id db) db.events;
  embeddings = keep_children (goes id db) db.embeddings;
  scores = keep_children (goes id db) db.scores;
  outcomes = keep_children (goes id db) db.outcomes;
  pointers = db.pointers;
}

abbrev pub has_session : ℕ → Db → Bool
has_session id db = any (λ s. s.id == id) db.sessions

-- Whether a row was affected, and the transaction.
unfoldable pub delete_session : ℕ → Tx → Bool × Tx
unfolding exec descends
delete_session id tx =
    let deleted = exec (λ db. some (cascade id db)) tx in
    (deleted.0 && has_session id tx.db, deleted.1)

-- The function of the write transaction: whether it returned no error.
abbrev pub after_mark : ℕ → Bool × Tx → Bool × Tx
after_mark id (false, tx) = (false, tx)
after_mark id (true, tx) = delete_session id tx

abbrev pub after_insert : Session → ℕ → InsertError × Tx → Bool × Tx
after_insert s now (other_error, tx) = (false, tx)
after_insert s now (_, tx) = after_mark s.id (exec (mark_session_archived s.id now) tx)

unfoldable pub write_archive : Session → ℕ → List ℕ → Tx → Bool × Tx
unfolding insert_pointer exec delete_session
write_archive s now uri tx = after_insert s now (insert_pointer s uri tx)

-- WithBatch: `works` says whether the transaction begins and its COMMIT is taken.
abbrev pub end_batch : Bool → Db → Bool × Tx → Bool × Db
end_batch works before (false, tx) = (false, before)
end_batch works before (true, tx) =
    if works && not tx.aborted then (true, tx.db) else (false, before)

unfoldable pub with_batch : Bool → (Tx → Bool × Tx) → Db → Bool × Db
with_batch works fn db = end_batch works db (fn (record { db = db; aborted = false }))
