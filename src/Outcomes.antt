-- ===== src/Outcomes.antt =====
-- internal/db/repo/outcomes.go, pending_outcomes.go, and the storage behind the webhook handlers
-- (internal/api/handler/webhook_github.go: webhookSink). Texts are lists of bytes, identifiers are
-- numbers with 0 for the nil UUID; the times of rows are left out.
pub mod Github
pub mod Linear
pub mod Inserts
pub mod Handlers
pub mod Twice
pub mod Lost
pub mod Incidents
mod Tests
use iter.Common.{
  ℕ, Bool, true, false, not, ◌&&◌, ◌||◌, ◌==◌, if◌then◌else◌, Option, none, some, List, [], ◌∷◌,
  ◌++◌, any,
}
use iter.Common.Bytes.{bytes, bytes_eq, is_empty}

pub record Outcome : Type 0 where
  pub session_id : ℕ
  pub tenant_id : ℕ
  pub outcome_type : List ℕ
  pub external_ref : Option (List ℕ)
  pub details : List ℕ

pub record PendingOutcome : Type 0 where
  pub source : List ℕ
  pub delivery_id : List ℕ
  pub event_type : List ℕ
  pub payload : List ℕ

pub record AuditEntry : Type 0 where
  pub tenant_id : ℕ
  pub event_type : List ℕ
  pub target_id : ℕ
  pub details : List ℕ

-- The rows in the order in which they were inserted.
pub record Tables : Type 0 where
  pub outcomes : List Outcome
  pub pending : List PendingOutcome
  pub audit : List AuditEntry

abbrev pub valid_outcome_types : List (List ℕ)
valid_outcome_types =
    bytes "commit_landed"
    ∷ bytes "pr_merged"
    ∷ bytes "pr_reverted"
    ∷ bytes "code_reverted_within_7d"
    ∷ bytes "tests_passed"
    ∷ bytes "tests_failed"
    ∷ bytes "incident_caused"
    ∷ bytes "peer_referenced"
    ∷ []

abbrev pub valid_pending_sources : List (List ℕ)
valid_pending_sources = bytes "github" ∷ bytes "linear" ∷ []

abbrev pub or_empty_object : List ℕ → List ℕ
or_empty_object details = if is_empty details then bytes "{}" else details

pub data InsertResult : Type 0 where
  inserted : InsertResult
  already_exists : InsertResult
  invalid : InsertResult

-- The unique index: a reference that is missing conflicts with nothing.
abbrev pub same_ref : Option (List ℕ) → Option (List ℕ) → Bool
same_ref (some a) (some b) = bytes_eq a b
same_ref _ _ = false

abbrev pub same_outcome : Outcome → Outcome → Bool
same_outcome o row =
    (row.session_id == o.session_id)
    && (bytes_eq row.outcome_type o.outcome_type && same_ref row.external_ref o.external_ref)

abbrev pub outcome_error : Outcome → Bool
outcome_error o =
    (o.session_id == 0)
    || ((o.tenant_id == 0) || not (any (λ t. bytes_eq t o.outcome_type) valid_outcome_types))

-- ON CONFLICT DO NOTHING.
unfoldable pub insert_outcome : Outcome → Tables → InsertResult × Tables
insert_outcome o t =
    if outcome_error o
    then (invalid, t)
    else if any (same_outcome o) t.outcomes
    then (already_exists, t)
    else (
      inserted,
      record t { outcomes = t.outcomes ++ record o { details = or_empty_object o.details } ∷ [] },
    )

abbrev pub same_delivery : PendingOutcome → PendingOutcome → Bool
same_delivery p row = bytes_eq row.source p.source && bytes_eq row.delivery_id p.delivery_id

abbrev pub pending_error : PendingOutcome → Bool
pending_error p =
    not (any (λ s. bytes_eq s p.source) valid_pending_sources)
    || (is_empty p.delivery_id || is_empty p.event_type)

unfoldable pub insert_pending : PendingOutcome → Tables → InsertResult × Tables
insert_pending p t =
    if pending_error p
    then (invalid, t)
    else if any (same_delivery p) t.pending
    then (already_exists, t)
    else (
      inserted,
      record t { pending = t.pending ++ record p { payload = or_empty_object p.payload } ∷ [] },
    )

pub record Session : Type 0 where
  pub id : ℕ
  pub tenant_id : ℕ

-- What the database answers the handlers: the sessions that a look-up finds, no session also
-- standing for an error, and whether it can be read and takes writes.
pub record Sink : Type 0 where
  pub lookup_by_session_id : ℕ → Option Session
  pub lookup_by_repo_commit : List ℕ → List ℕ → Option Session
  pub reads : Bool
  pub takes : Bool

-- `liveSink`: an existing row is no error, and an error is only logged by the callers.
abbrev pub write_outcome : Sink → Outcome → Tables → Tables
write_outcome sink o t = if sink.takes then (insert_outcome o t).1 else t

abbrev pub buffer_pending : Sink → PendingOutcome → Tables → Tables
buffer_pending sink p t = if sink.takes then (insert_pending p t).1 else t

abbrev pub write_audit : Sink → AuditEntry → Tables → Tables
write_audit sink entry t =
    if sink.takes
    then record t {
      audit = t.audit ++ record entry { details = or_empty_object entry.details } ∷ [];
    }
    else t

-- The newest row: `FindOutcomeByTypeRef`.
abbrev pub newest : Option Outcome → List ℕ → List ℕ → List Outcome → Option Outcome
newest found type ref [] = found
newest found type ref (row ∷ rows) =
    newest
      (if bytes_eq row.outcome_type type && same_ref row.external_ref (some ref)
        then some row
        else found)
      type ref rows

unfoldable pub find_outcome_by_type_ref : Sink → List ℕ → List ℕ → Tables → Option Outcome
find_outcome_by_type_ref sink type ref t =
    if sink.reads then newest none type ref t.outcomes else none
