-- ===== src/Outcomes/Incidents.antt =====
-- webhook_linear.go: an incident from its report to its end.
use iter.Common.{
  ℕ, ◌≡◌, refl, sym, ap, subst, true, false, ◌&&◌, ◌==◌, Option, none, some, List, [], ◌∷◌, ◌++◌,
  any,
}
use iter.Common.Bytes.{bytes, bytes_eq, bytes_eq_refl, is_empty}
use iter.Outcomes.{
  Outcome, AuditEntry, Tables, Session, Sink, same_ref, same_outcome, or_empty_object,
  insert_outcome, newest, find_outcome_by_type_ref,
}
use iter.Outcomes.Github.{ok}
use iter.Outcomes.Linear.{
  LinearIssue, LinearTools, has_incident_label, external_ref, handle_linear_issue_created,
  handle_linear_issue_done,
}

newest-append_last :
    (type ref : List ℕ) (xs : List Outcome) (found : Option Outcome) (x : Outcome)
    → (bytes_eq x.outcome_type type && same_ref x.external_ref (some ref)) ≡ true
    → newest found type ref (xs ++ x ∷ []) ≡ some x
newest-append_last type ref [] found x h = rw h refl
newest-append_last type ref (y ∷ xs) found x h = newest-append_last type ref xs _ x h

abbrev incident : LinearTools → LinearIssue → Session → List ℕ → Outcome
incident tools issue s delivery_id = record {
  session_id = s.id;
  tenant_id = s.tenant_id;
  outcome_type = bytes "incident_caused";
  external_ref = some (external_ref issue);
  details = tools.details issue delivery_id;
}

abbrev audit_row : List ℕ → LinearTools → LinearIssue → Session → List ℕ → AuditEntry
audit_row event_type tools issue s delivery_id = record {
  tenant_id = s.tenant_id;
  event_type = event_type;
  target_id = s.id;
  details = or_empty_object (tools.details issue delivery_id);
}

module _ (tools : LinearTools) (sink : Sink) (issue ended : LinearIssue) (s : Session) (sid : ℕ)
    (body body' id id' : List ℕ) (t : Tables) where
  -- An issue that is labelled as an incident and marked with a session which is found, while the
  -- database takes writes and reads, and when this incident is not recorded yet for the session;
  -- then the same issue when it is done, with the same reference: both are answered ok, one outcome
  -- has been added, and the audit log has the link and then the resolution, both of that session
  -- and its tenant.
  pub incident_resolved :
      sink.takes ≡ true
      → sink.reads ≡ true
      → has_incident_label issue ≡ true
      → tools.parse_session_marker issue.description ≡ some sid
      → sink.lookup_by_session_id sid ≡ some s
      → (s.id == 0) ≡ false
      → (s.tenant_id == 0) ≡ false
      → is_empty (external_ref issue) ≡ false
      → external_ref ended ≡ external_ref issue
      → any (same_outcome (incident tools issue s id)) t.outcomes ≡ false
      → let first = handle_linear_issue_created tools sink issue body id t in
        let second = handle_linear_issue_done tools sink ended body' id' first.1 in
        (first.0 ≡ ok)
        × (second.0 ≡ ok)
        × (second.1.outcomes
            ≡ t.outcomes
              ++ record (incident tools issue s id) {
                details = or_empty_object (tools.details issue id);
              }
                ∷ [])
        × (second.1.audit
            ≡ t.audit
              ++ audit_row (bytes "incident_linked") tools issue s id ∷ []
              ++ audit_row (bytes "incident_resolved") tools ended s id' ∷ [])
  unfolding handle_linear_issue_created handle_linear_issue_done insert_outcome
      find_outcome_by_type_ref
  incident_resolved takes reads labelled marked found real owned named same new =
      let done_after =
        subst (λ x. handle_linear_issue_done tools sink ended body' id' x.1 ≡ (ok, resolved_tables))
          (sym created) resolved in
      (
        ap (λ x. x.0) created,
        ap (λ x. x.0) done_after,
        ap (λ x. x.1.outcomes) done_after,
        ap (λ x. x.1.audit) done_after,
      )
    where
      linked : Tables
      linked = record t {
        outcomes =
            t.outcomes
            ++ record (incident tools issue s id) {
              details = or_empty_object (tools.details issue id);
            }
              ∷ [];
        audit = t.audit ++ audit_row (bytes "incident_linked") tools issue s id ∷ [];
      }

      resolved_tables : Tables
      resolved_tables = record linked {
        audit = linked.audit ++ audit_row (bytes "incident_resolved") tools ended s id' ∷ [];
      }

      created : handle_linear_issue_created tools sink issue body id t ≡ (ok, linked)
      created = simp (labelled, marked, found, takes, real, owned, new)

      latest :
          newest none (bytes "incident_caused") (external_ref issue) linked.outcomes
          ≡ some (record (incident tools issue s id) {
            details = or_empty_object (tools.details issue id);
          })
      latest =
          newest-append_last (bytes "incident_caused") (external_ref issue) t.outcomes none _
            (bytes_eq_refl (external_ref issue))

      resolved : handle_linear_issue_done tools sink ended body' id' linked ≡ (ok, resolved_tables)
      resolved = simp (same, named, reads, latest, takes)
