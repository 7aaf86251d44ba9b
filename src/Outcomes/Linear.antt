-- ===== src/Outcomes/Linear.antt =====
-- internal/api/handler/webhook_linear.go: the handlers of Linear's events.
use iter.Common.{ℕ, Bool, not, ◌&&◌, ◌||◌, if◌then◌else◌, Option, none, some, List, [], ◌∷◌, any}
use iter.Common.Bytes.{bytes, bytes_eq, is_empty, to_lower, contains}
use iter.Webhook.{Response, json, err_malformed_body, Config, json_field_event}
use iter.Outcomes.{
  Outcome, Tables, Session, Sink, write_outcome, buffer_pending, write_audit,
  find_outcome_by_type_ref,
}
use iter.Outcomes.Github.{ok, ignored}

pub record LinearIssue : Type 0 where
  pub id : List ℕ
  pub identifier : List ℕ
  pub url : List ℕ
  pub title : List ℕ
  pub description : List ℕ
  pub labels : List (List ℕ)
  pub state_name : List ℕ
  pub state_type : List ℕ

pub record LinearEvent : Type 0 where
  pub action : List ℕ
  pub issue : LinearIssue

-- The JSON, the regular expression of the session marker, and the details of an issue and a
-- delivery as JSON.
pub record LinearTools : Type 0 where
  pub read_event : List ℕ → Option LinearEvent
  pub field_of : List ℕ → List ℕ → Option (List ℕ)
  pub parse_session_marker : List ℕ → Option ℕ
  pub details : LinearIssue → List ℕ → List ℕ

abbrev pub has_incident_label : LinearIssue → Bool
has_incident_label i = any (λ l. contains (bytes "incident") (to_lower l)) i.labels

-- For ASCII texts.
abbrev equal_fold : List ℕ → List ℕ → Bool
equal_fold a b = bytes_eq (to_lower a) (to_lower b)

abbrev pub is_done : LinearIssue → Bool
is_done i = equal_fold i.state_name (bytes "done") || equal_fold i.state_type (bytes "completed")

abbrev pub external_ref : LinearIssue → List ℕ
external_ref i = if is_empty i.url then i.id else i.url

abbrev pub is_linear_create : List ℕ → Bool
is_linear_create action =
    bytes_eq (to_lower action) (bytes "create") || bytes_eq (to_lower action) (bytes "created")

abbrev pub is_linear_update : List ℕ → Bool
is_linear_update action =
    bytes_eq (to_lower action) (bytes "update") || bytes_eq (to_lower action) (bytes "updated")

module _ (tools : LinearTools) (sink : Sink) where
  abbrev pub buffer_issue : List ℕ → List ℕ → List ℕ → Tables → Tables
  buffer_issue event_type body delivery_id t =
      buffer_pending sink
        (record {
          source = bytes "linear";
          delivery_id = delivery_id;
          event_type = event_type;
          payload = body;
        })
        t

  abbrev pub link_incident : LinearIssue → List ℕ → List ℕ → Option Session → Tables → Tables
  link_incident issue body delivery_id none t =
      buffer_issue (bytes "issue_created") body delivery_id t
  link_incident issue body delivery_id (some s) t =
      write_audit sink
        (record {
          tenant_id = s.tenant_id;
          event_type = bytes "incident_linked";
          target_id = s.id;
          details = tools.details issue delivery_id;
        })
        (write_outcome sink
          (record {
            session_id = s.id;
            tenant_id = s.tenant_id;
            outcome_type = bytes "incident_caused";
            external_ref = some (external_ref issue);
            details = tools.details issue delivery_id;
          })
          t)

  abbrev pub created_marked : LinearIssue → List ℕ → List ℕ → Option ℕ → Tables → Response × Tables
  created_marked issue body delivery_id none t = (ignored, t)
  created_marked issue body delivery_id (some sid) t =
      (ok, link_incident issue body delivery_id (sink.lookup_by_session_id sid) t)

  unfoldable pub handle_linear_issue_created :
      LinearIssue → List ℕ → List ℕ → Tables → Response × Tables
  handle_linear_issue_created issue body delivery_id t =
      if not (has_incident_label issue)
      then (ignored, t)
      else created_marked issue body delivery_id (tools.parse_session_marker issue.description) t

  abbrev pub resolve_incident : LinearIssue → List ℕ → List ℕ → Option Outcome → Tables → Tables
  resolve_incident issue body delivery_id none t =
      buffer_issue (bytes "issue_done") body delivery_id t
  resolve_incident issue body delivery_id (some o) t =
      write_audit sink
        (record {
          tenant_id = o.tenant_id;
          event_type = bytes "incident_resolved";
          target_id = o.session_id;
          details = tools.details issue delivery_id;
        })
        t

  unfoldable pub handle_linear_issue_done :
      LinearIssue → List ℕ → List ℕ → Tables → Response × Tables
  unfolding find_outcome_by_type_ref
  handle_linear_issue_done issue body delivery_id t =
      if is_empty (external_ref issue) then (ignored, t) else (
        ok,
        resolve_incident issue body delivery_id
            (find_outcome_by_type_ref sink (bytes "incident_caused") (external_ref issue) t) t,
      )

  abbrev pub linear_event : Option LinearEvent → List ℕ → List ℕ → Tables → Response × Tables
  linear_event none body delivery_id t = (json 400 err_malformed_body, t)
  linear_event (some ev) body delivery_id t =
      if is_linear_create ev.action
      then handle_linear_issue_created ev.issue body delivery_id t
      else if is_linear_update ev.action && is_done ev.issue
      then handle_linear_issue_done ev.issue body delivery_id t
      else (ignored, t)

  unfoldable pub handle_linear_issue : List ℕ → List ℕ → Tables → Response × Tables
  unfolding handle_linear_issue_created handle_linear_issue_done
  handle_linear_issue body delivery_id t = linear_event (tools.read_event body) body delivery_id t

-- The receiver of Linear's deliveries.
abbrev pub linear_webhook_handler :
    LinearTools
    → Sink
    → (secret : List ℕ) → (has_redis : Bool) → (digest : List ℕ → List ℕ → List ℕ) → Config Tables
linear_webhook_handler tools sink secret has_redis digest = record {
  source = bytes "linear";
  secret = secret;
  signature_header = bytes "Linear-Signature";
  signature_prefix = [];
  delivery_header = bytes "Linear-Delivery";
  event_name = json_field_event tools.field_of (bytes "type");
  routes =
      (bytes "Issue", λ d t. handle_linear_issue tools sink d.body d.delivery_id t)
      ∷ (bytes "Comment", λ d t. (ignored, t))
      ∷ [];
  has_redis = has_redis;
  digest = digest;
}
