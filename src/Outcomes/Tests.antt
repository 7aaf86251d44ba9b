-- ===== src/Outcomes/Tests.antt =====
-- Webhook events on concrete inputs, and the properties at concrete inputs.
use iter.Common.{ℕ, ◌≡◌, refl, true, false, ◌==◌, if◌then◌else◌, none, some, List, [], ◌∷◌}
use iter.Common.Bytes.{bytes, bytes_eq, to_lower}
use iter.Common.KeyStore.{Table, table_store, table_store-KeyLaws}
use iter.Webhook.{Inbound, decode_string, verify_hmac_sha256, replay_response}
use iter.Webhook.Receive.{World, Circumstances, handle}
use iter.Webhook.Redelivery.{IsGenuine, handle_all}
use iter.Outcomes.{Tables, Session, Sink, insert_outcome}
use iter.Outcomes.Github.{
  Tools, GithubPullRequestEvent, ok, insert_or_buffer, handle_pull_request, github_webhook_handler,
}
use iter.Outcomes.Linear.{
  LinearIssue, LinearTools, external_ref, handle_linear_issue_created, handle_linear_issue_done,
}
use iter.Outcomes.Twice.{redelivery_harmless}
use iter.Outcomes.Lost.{before, afterwards, lost_delivery}
use iter.Outcomes.Incidents.{incident_resolved}

abbrev merged : GithubPullRequestEvent
merged = record {
  action = bytes "closed";
  pull_request = record {
    html_url = bytes "https://github.com/a/b/pull/1";
    title = bytes "Add";
    merged = true;
    merge_commit_sha = bytes "c0";
    head_sha = bytes "c1";
    labels = [];
  };
  repository_url = bytes " https://GitHub.com/a/b.git";
}

-- Every body is the merged pull request, and is its own hash; of spaces there is one, in front.
abbrev tools : Tools
tools = record {
  read_pull_request = λ body. some merged;
  read_push = λ body. none;
  read_check_run = λ body. none;
  parse_session_marker = λ text. none;
  revert_title = λ title. false;
  to_lower = to_lower;
  trim_space = λ text. elim text [ [] ↦ [] | space ∷ rest ↦ rest ];
  sha256_hex = λ text. text;
  processed_body = λ n. [];
  json_object_of = λ k v. v;
}

abbrev session : Session
session = record { id = 4; tenant_id = 7 }

abbrev up : Sink
up = record {
  lookup_by_session_id = λ id. if id == 4 then some session else none;
  lookup_by_repo_commit =
      λ hash sha. if bytes_eq hash (bytes "https://github.com/a/b") then some session else none;
  reads = true;
  takes = true;
}

abbrev down : Sink
down = record up { takes = false }

abbrev empty : Tables
empty = record { outcomes = []; pending = []; audit = [] }

-- The address of the repository is brought into its canonical form, and the outcome is recorded
-- once.
merged_twice :
    (handle_pull_request tools up
      (bytes "b")
      (bytes "d1")
      (handle_pull_request tools up (bytes "b") (bytes "d1") empty).1).1
    ≡ record {
      outcomes =
          record {
            session_id = 4;
            tenant_id = 7;
            outcome_type = bytes "pr_merged";
            external_ref = some (bytes "https://github.com/a/b/pull/1");
            details = bytes "{}";
          }
          ∷ [];
      pending = [];
      audit = [];
    }
unfolding handle_pull_request insert_or_buffer insert_outcome
merged_twice = refl

abbrev digest : List ℕ → List ℕ → List ℕ
digest secret body = elim body [ [] ↦ [] | b ∷ rest ↦ b ∷ [] ]

abbrev pick_header : List ℕ → List ℕ
pick_header name =
    if bytes_eq name (bytes "X-Hub-Signature-256")
    then bytes "sha256=7b"
    else if bytes_eq name (bytes "X-GitHub-Delivery")
    then bytes "d1"
    else bytes "pull_request"

abbrev delivered : Inbound
delivered = record { content = some (bytes "{"); header = pick_header }

abbrev calm : Circumstances
calm = record { now = bytes "t"; fails = false }

abbrev fresh : World Table Tables
fresh = record { redis = λ k. none; app = empty }

redelivery_harmless_example :
    let cfg = github_webhook_handler tools up (bytes "s") false digest in
    let after = (handle_all table_store cfg ((calm, delivered) ∷ []) fresh).1 in
    (handle table_store cfg calm delivered after).1.app ≡ after.app
redelivery_harmless_example =
    redelivery_harmless table_store tools up (bytes "s") digest calm delivered [] fresh

genuine :
    (sink : Sink)
    → IsGenuine
        (github_webhook_handler tools sink (bytes "s") true digest)
        (bytes "d1")
        calm
        delivered
unfolding verify_hmac_sha256 decode_string
genuine sink = record {
  body = bytes "{";
  content = refl;
  fits = refl;
  signed = refl;
  named = refl;
  works = refl;
}

lost_delivery_example :
    let after =
      (handle table_store
        (before table_store-KeyLaws tools down up (bytes "s") digest (bytes "d1"))
        calm
        delivered
        fresh).1 in
    (after.app ≡ empty)
    × (handle_all table_store
          (afterwards table_store-KeyLaws tools down up (bytes "s") digest (bytes "d1"))
          ((calm, delivered) ∷ [])
          after
        ≡ (replay_response ∷ [], after))
lost_delivery_example =
    lost_delivery table_store-KeyLaws tools down up (bytes "s") digest (bytes "d1") calm delivered
      ((calm, delivered) ∷ []) fresh refl refl (genuine down) (genuine up, tt)

abbrev outage : LinearIssue
outage = record {
  id = bytes "i1";
  identifier = bytes "OPS-1";
  url = bytes "https://linear.app/i1";
  title = bytes "Outage";
  description = bytes "marker";
  labels = bytes "Incident-P1" ∷ [];
  state_name = bytes "Done";
  state_type = [];
}

abbrev linear_tools : LinearTools
linear_tools = record {
  read_event = λ body. none;
  field_of = λ field body. none;
  parse_session_marker = λ text. some 4;
  details = λ issue id. [];
}

incident_resolved_run :
    let first = handle_linear_issue_created linear_tools up outage [] (bytes "d1") empty in
    let second = handle_linear_issue_done linear_tools up outage [] (bytes "d2") first.1 in
    (first.0 ≡ ok)
    × (second.0 ≡ ok)
    × (second.1.outcomes
        ≡ record {
          session_id = 4;
          tenant_id = 7;
          outcome_type = bytes "incident_caused";
          external_ref = some (external_ref outage);
          details = bytes "{}";
        }
          ∷ [])
    × (second.1.audit
        ≡ record {
          tenant_id = 7;
          event_type = bytes "incident_linked";
          target_id = 4;
          details = bytes "{}";
        }
          ∷ record {
            tenant_id = 7;
            event_type = bytes "incident_resolved";
            target_id = 4;
            details = bytes "{}";
          }
          ∷ [])
incident_resolved_run =
    incident_resolved linear_tools up outage outage session 4 [] [] (bytes "d1") (bytes "d2") empty
      refl refl refl refl refl refl refl refl refl refl
