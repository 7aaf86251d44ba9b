-- ===== src/Outcomes/Github.antt =====
-- internal/api/handler/webhook_github.go: the handlers of GitHub's events.
use iter.Common.{
  ℕ, ◌+◌, Bool, not, ◌||◌, if◌then◌else◌, Option, none, some, List, [], ◌∷◌, ◌++◌, any,
}
use iter.Common.Bytes.{bytes, bytes_eq, is_empty, contains, trim_suffix}
use iter.Webhook.{Response, json, err_malformed_body, Config, header_event}
use iter.Outcomes.{Tables, Session, Sink, write_outcome, buffer_pending}

pub record GithubPullRequest : Type 0 where
  pub html_url : List ℕ
  pub title : List ℕ
  pub merged : Bool
  pub merge_commit_sha : List ℕ
  pub head_sha : List ℕ
  pub labels : List (List ℕ)

pub record GithubPullRequestEvent : Type 0 where
  pub action : List ℕ
  pub pull_request : GithubPullRequest
  pub repository_url : List ℕ

pub record GithubCommit : Type 0 where
  pub id : List ℕ
  pub message : List ℕ
  pub url : List ℕ

pub record GithubPushEvent : Type 0 where
  pub repository_url : List ℕ
  pub commits : List GithubCommit

pub record GithubCheckRunEvent : Type 0 where
  pub head_sha : List ℕ
  pub conclusion : List ℕ
  pub html_url : List ℕ
  pub repository_url : List ℕ

-- The JSON, the two regular expressions, strings.ToLower and strings.TrimSpace over Unicode, the
-- SHA-256 in hexadecimal, the count in the answer to a push, and the details of a commit.
pub record Tools : Type 0 where
  pub read_pull_request : List ℕ → Option GithubPullRequestEvent
  pub read_push : List ℕ → Option GithubPushEvent
  pub read_check_run : List ℕ → Option GithubCheckRunEvent
  pub parse_session_marker : List ℕ → Option ℕ
  pub revert_title : List ℕ → Bool
  pub to_lower : List ℕ → List ℕ
  pub trim_space : List ℕ → List ℕ
  pub sha256_hex : List ℕ → List ℕ
  pub processed_body : ℕ → List ℕ
  pub json_object_of : List ℕ → List ℕ → List ℕ

abbrev pub canonical_url : Tools → List ℕ → List ℕ
canonical_url tools url = trim_suffix (bytes ".git") (tools.to_lower (tools.trim_space url))

abbrev pub hash_repo_url : Tools → List ℕ → List ℕ
hash_repo_url tools url = tools.sha256_hex (canonical_url tools url)

abbrev pub is_revert_pr : Tools → GithubPullRequest → Bool
is_revert_pr tools pr =
    tools.revert_title pr.title || any (λ l. contains (bytes "revert") (tools.to_lower l)) pr.labels

abbrev pub ok : Response
ok = json 200 (bytes "{\"status\":\"ok\"}")

abbrev pub ignored : Response
ignored = json 200 (bytes "{\"status\":\"ignored\"}")

pub record InsertOrBufferParams : Type 0 where
  pub delivery_id : List ℕ
  pub event_type : List ℕ
  pub outcome_type : List ℕ
  pub external_ref : List ℕ
  pub repo_hash : List ℕ
  pub commit_sha : List ℕ
  pub raw_body : List ℕ

unfoldable pub insert_or_buffer : Sink → InsertOrBufferParams → Tables → Tables
insert_or_buffer sink p t = elim (sink.lookup_by_repo_commit p.repo_hash p.commit_sha) [
  | none ↦
      buffer_pending sink
        (record {
          source = bytes "github";
          delivery_id = p.delivery_id;
          event_type = p.event_type;
          payload = p.raw_body;
        })
        t
  | some s ↦
      write_outcome sink
        (record {
          session_id = s.id;
          tenant_id = s.tenant_id;
          outcome_type = p.outcome_type;
          external_ref = some p.external_ref;
          details = [];
        })
        t
]

-- The kind of outcome of a closed pull request.
abbrev pub pull_request_outcome : Tools → GithubPullRequest → Option (List ℕ)
pull_request_outcome tools pr =
    if pr.merged
    then some (bytes "pr_merged")
    else if is_revert_pr tools pr
    then some (bytes "pr_reverted")
    else none

abbrev pub pull_request_params :
    Tools → GithubPullRequestEvent → List ℕ → List ℕ → List ℕ → InsertOrBufferParams
pull_request_params tools ev outcome body delivery_id = record {
  delivery_id = delivery_id;
  event_type = bytes "pull_request";
  outcome_type = outcome;
  external_ref = ev.pull_request.html_url;
  repo_hash = hash_repo_url tools ev.repository_url;
  commit_sha =
      if is_empty ev.pull_request.merge_commit_sha
      then ev.pull_request.head_sha
      else ev.pull_request.merge_commit_sha;
  raw_body = body;
}

abbrev pub closed_pull_request :
    Tools
    → Sink
    → GithubPullRequestEvent
    → Option (List ℕ)
    → List ℕ
    → List ℕ
    → Tables
    → Response × Tables
closed_pull_request tools sink ev none body delivery_id t = (ignored, t)
closed_pull_request tools sink ev (some outcome) body delivery_id t =
    (ok, insert_or_buffer sink (pull_request_params tools ev outcome body delivery_id) t)

abbrev pub pull_request_event :
    Tools → Sink → Option GithubPullRequestEvent → List ℕ → List ℕ → Tables → Response × Tables
pull_request_event tools sink none body delivery_id t = (json 400 err_malformed_body, t)
pull_request_event tools sink (some ev) body delivery_id t =
    if not (bytes_eq ev.action (bytes "closed"))
    then (ignored, t)
    else closed_pull_request tools sink ev (pull_request_outcome tools ev.pull_request) body
        delivery_id t

unfoldable pub handle_pull_request : Tools → Sink → List ℕ → List ℕ → Tables → Response × Tables
unfolding insert_or_buffer
handle_pull_request tools sink body delivery_id t =
    pull_request_event tools sink (tools.read_pull_request body) body delivery_id t

-- The body of the loop over the commits: whether it was processed.
abbrev pub push_marked :
    Tools → Sink → List ℕ → List ℕ → GithubCommit → Option Session → Tables → ℕ × Tables
push_marked tools sink body delivery_id c none t = (
  0,
  buffer_pending sink
      (record {
        source = bytes "github";
        delivery_id = delivery_id ++ bytes ":" ++ c.id;
        event_type = bytes "push";
        payload = body;
      })
      t,
)
push_marked tools sink body delivery_id c (some s) t = (
  1,
  write_outcome sink
      (record {
        session_id = s.id;
        tenant_id = s.tenant_id;
        outcome_type = bytes "commit_landed";
        external_ref = some c.url;
        details = tools.json_object_of (bytes "commit_sha") c.id;
      })
      t,
)

abbrev pub push_commit :
    Tools → Sink → List ℕ → List ℕ → GithubCommit → Option ℕ → Tables → ℕ × Tables
push_commit tools sink body delivery_id c none t = (0, t)
push_commit tools sink body delivery_id c (some sid) t =
    push_marked tools sink body delivery_id c (sink.lookup_by_session_id sid) t

unfoldable pub push_commits :
    Tools → Sink → List ℕ → List ℕ → List GithubCommit → ℕ → Tables → ℕ × Tables
push_commits tools sink body delivery_id [] n t = (n, t)
push_commits tools sink body delivery_id (c ∷ cs) n t =
    let one = push_commit tools sink body delivery_id c (tools.parse_session_marker c.message) t in
    push_commits tools sink body delivery_id cs (n + one.0) one.1

abbrev pub push_event :
    Tools → Sink → Option GithubPushEvent → List ℕ → List ℕ → Tables → Response × Tables
push_event tools sink none body delivery_id t = (json 400 err_malformed_body, t)
push_event tools sink (some ev) body delivery_id t =
    let pushed = push_commits tools sink body delivery_id ev.commits 0 t in
    (json 200 (tools.processed_body pushed.0), pushed.1)

unfoldable pub handle_push : Tools → Sink → List ℕ → List ℕ → Tables → Response × Tables
unfolding push_commits
handle_push tools sink body delivery_id t =
    push_event tools sink (tools.read_push body) body delivery_id t

abbrev pub check_run_outcome : GithubCheckRunEvent → Option (List ℕ)
check_run_outcome ev =
    if bytes_eq ev.conclusion (bytes "success")
    then some (bytes "tests_passed")
    else if bytes_eq ev.conclusion (bytes "failure")
    then some (bytes "tests_failed")
    else none

abbrev pub check_run_found :
    Tools
    → Sink
    → GithubCheckRunEvent
    → Option (List ℕ)
    → List ℕ
    → List ℕ
    → Tables
    → Response × Tables
check_run_found tools sink ev none body delivery_id t = (ignored, t)
check_run_found tools sink ev (some outcome) body delivery_id t = (
  ok,
  insert_or_buffer sink
      (record {
        delivery_id = delivery_id;
        event_type = bytes "check_run";
        outcome_type = outcome;
        external_ref = ev.html_url;
        repo_hash = hash_repo_url tools ev.repository_url;
        commit_sha = ev.head_sha;
        raw_body = body;
      })
      t,
)

abbrev pub check_run_event :
    Tools → Sink → Option GithubCheckRunEvent → List ℕ → List ℕ → Tables → Response × Tables
check_run_event tools sink none body delivery_id t = (json 400 err_malformed_body, t)
check_run_event tools sink (some ev) body delivery_id t =
    check_run_found tools sink ev (check_run_outcome ev) body delivery_id t

unfoldable pub handle_check_run : Tools → Sink → List ℕ → List ℕ → Tables → Response × Tables
unfolding insert_or_buffer
handle_check_run tools sink body delivery_id t =
    check_run_event tools sink (tools.read_check_run body) body delivery_id t

-- The receiver of GitHub's deliveries.
abbrev pub github_webhook_handler :
    Tools
    → Sink
    → (secret : List ℕ) → (has_redis : Bool) → (digest : List ℕ → List ℕ → List ℕ) → Config Tables
github_webhook_handler tools sink secret has_redis digest = record {
  source = bytes "github";
  secret = secret;
  signature_header = bytes "X-Hub-Signature-256";
  signature_prefix = bytes "sha256=";
  delivery_header = bytes "X-GitHub-Delivery";
  event_name = header_event (bytes "X-GitHub-Event");
  routes =
      (bytes "pull_request", λ d t. handle_pull_request tools sink d.body d.delivery_id t)
      ∷ (bytes "push", λ d t. handle_push tools sink d.body d.delivery_id t)
      ∷ (bytes "check_run", λ d t. handle_check_run tools sink d.body d.delivery_id t)
      ∷ (bytes "ping", λ d t. (json 200 (bytes "{\"status\":\"pong\"}"), t))
      ∷ [];
  has_redis = has_redis;
  digest = digest;
}
