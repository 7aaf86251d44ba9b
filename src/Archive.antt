-- ===== src/Archive.antt =====
-- internal/archive/cron.go: the configuration, the tables, the eligible sessions and the bundle of
-- the nightly archive run.
pub mod Upload
pub mod Writes
pub mod One
pub mod Gone
pub mod Safe
pub mod Lost
pub mod Sweep
pub mod Counts
mod Tests
use iter.Common.{
  ℕ, zero, suc, ◌+◌, ◌*◌, ◌-◌, Bool, true, false, not, ◌&&◌, ◌||◌, ◌==◌, ltb, if◌then◌else◌, Option,
  none, some, List, [], ◌∷◌, ◌++◌, any, keep_if, length, take,
}
use iter.Common.Bytes.{bytes, is_empty}

-- A row of a table that hangs on a session.
pub record Child : Type 0 where
  pub session_id : ℕ
  pub content : List ℕ

-- The columns that the run does not look at are one text.
pub record Session : Type 0 where
  pub id : ℕ
  pub tenant_id : ℕ
  pub parent_session_id : Option ℕ
  pub started_at : ℕ
  pub archived_at : Option ℕ
  pub columns : List ℕ

pub record Pointer : Type 0 where
  pub session_id : ℕ
  pub tenant_id : ℕ
  pub object_uri : List ℕ

pub record Db : Type 0 where
  pub sessions : List Session
  pub events : List Child
  pub embeddings : List Child
  pub scores : List Child
  pub outcomes : List Child
  pub pointers : List Pointer

pub record SessionBundle : Type 0 where
  pub session : Session
  pub events : List Child
  pub embedding : Option Child
  pub scores : List Child
  pub outcomes : List Child
  pub bundled_at : ℕ

-- The resolved configuration; times are in milliseconds.
pub record Resolved : Type 0 where
  pub bucket : List ℕ
  pub retention : ℕ
  pub batch_size : ℕ
  pub upload_retries : ℕ
  pub upload_backoff : ℕ

abbrev pub or_default : ℕ → ℕ → ℕ
or_default default n = if n == 0 then default else n

-- A value that is not set, or negative, is 0.
abbrev pub resolve : Resolved → Option Resolved
resolve c =
    if is_empty c.bucket
    then none
    else some (record {
      bucket = c.bucket;
      retention = or_default (90 * 24 * 3600 * 1000) c.retention;
      batch_size = or_default 100 c.batch_size;
      upload_retries = or_default 3 c.upload_retries;
      upload_backoff = or_default 500 c.upload_backoff;
    })

abbrev pub of_session : ℕ → List Child → List Child
of_session id rows = keep_if (λ c. c.session_id == id) rows

abbrev pub first_of : List Child → Option Child
first_of [] = none
first_of (c ∷ rows) = some c

abbrev pub gather : Session → ℕ → Db → SessionBundle
gather s now db = record {
  session = s;
  events = of_session s.id db.events;
  embedding = first_of (of_session s.id db.embeddings);
  scores = of_session s.id db.scores;
  outcomes = of_session s.id db.outcomes;
  bundled_at = now;
}

-- ORDER BY started_at ASC, id ASC
abbrev pub older : Session → Session → Bool
older a b = ltb a.started_at b.started_at || ((a.started_at == b.started_at) && ltb a.id b.id)

unfoldable pub insert_by_age : Session → List Session → List Session
insert_by_age s [] = s ∷ []
insert_by_age s (t ∷ ts) =
    let rest = insert_by_age s ts in if older t s then t ∷ rest else s ∷ (t ∷ ts)

unfoldable pub by_age : List Session → List Session
unfolding insert_by_age
by_age [] = []
by_age (s ∷ ss) = insert_by_age s (by_age ss)

abbrev pub is_unarchived : Session → Bool
is_unarchived s = elim s.archived_at [ none ↦ true | some t ↦ false ]

unfoldable pub list_eligible : (cutoff limit : ℕ) → Db → List Session
unfolding by_age
list_eligible cutoff limit db =
    take limit (by_age (keep_if (λ s. ltb s.started_at cutoff && is_unarchived s) db.sessions))
