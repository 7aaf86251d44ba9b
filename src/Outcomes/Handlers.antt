-- ===== src/Outcomes/Handlers.antt =====
-- What GitHub's handlers do to the tables is composed of the writes of the sink.
use iter.Common.{
  ℕ, ◌+◌, ◌≡◌, refl, Bool, true, false, not, if◌then◌else◌, Option, none, some, List, [], ◌∷◌, All,
}
use iter.Common.Bytes.{bytes, bytes_eq}
use iter.Common.KeyStore.{KeyStore}
use iter.Webhook.{Response, Delivery, Config, Inbound, EventHandler, find_route}
use iter.Webhook.Receive.{run_route, dispatch_event}
use iter.Outcomes.{Tables, Session, Sink, write_outcome, buffer_pending}
use iter.Outcomes.Github.{
  ignored, github_webhook_handler, Tools, GithubPullRequestEvent, GithubPushEvent, GithubCommit,
  GithubCheckRunEvent, InsertOrBufferParams, insert_or_buffer, pull_request_outcome,
  closed_pull_request, pull_request_event, handle_pull_request, push_marked, push_commit,
  push_commits, push_event, handle_push, check_run_outcome, check_run_found, check_run_event,
  handle_check_run,
}
use iter.Outcomes.Inserts.{IsClosed}

module _ (sink : Sink) (P : (Tables → Tables) → Type 0) (closed : IsClosed sink P) where
  insert_or_buffer_closed : (p : InsertOrBufferParams) → P (insert_or_buffer sink p)
  unfolding insert_or_buffer
  insert_or_buffer_closed p = by_session (sink.lookup_by_repo_commit p.repo_hash p.commit_sha)
    where
      by_session :
          (o : Option Session)
          → P (λ t. elim o [
            | none ↦
                buffer_pending sink
                  (record {
                    source = bytes "github";
                    delivery_id = p.delivery_id;
                    event_type = p.event_type;
                    payload = p.raw_body;
                  })
                  t
            | some s ↦
                write_outcome sink
                  (record {
                    session_id = s.id;
                    tenant_id = s.tenant_id;
                    outcome_type = p.outcome_type;
                    external_ref = some p.external_ref;
                    details = [];
                  })
                  t
          ])
      by_session none = closed.pending _
      by_session (some s) = closed.outcome _ p.external_ref refl

  module _ (tools : Tools) (body delivery_id : List ℕ) where
    handle_pull_request_closed : P (λ t. (handle_pull_request tools sink body delivery_id t).1)
    unfolding handle_pull_request
    handle_pull_request_closed = by_event (tools.read_pull_request body)
      where
        by_outcome :
            (ev : GithubPullRequestEvent) (o : Option (List ℕ))
            → P (λ t. (closed_pull_request tools sink ev o body delivery_id t).1)
        by_outcome ev none = closed.nothing
        by_outcome ev (some outcome) = insert_or_buffer_closed _

        by_action :
            (ev : GithubPullRequestEvent) (b : Bool)
            → P (λ t.
              (if◌then◌else◌ {A = Response × Tables} b
                (ignored, t)
                (closed_pull_request tools sink ev
                  (pull_request_outcome tools ev.pull_request)
                  body
                  delivery_id
                  t)).1)
        by_action ev true = closed.nothing
        by_action ev false = by_outcome ev (pull_request_outcome tools ev.pull_request)

        by_event :
            (o : Option GithubPullRequestEvent)
            → P (λ t. (pull_request_event tools sink o body delivery_id t).1)
        by_event none = closed.nothing
        by_event (some ev) = by_action ev (not (bytes_eq ev.action (bytes "closed")))

    handle_check_run_closed : P (λ t. (handle_check_run tools sink body delivery_id t).1)
    unfolding handle_check_run
    handle_check_run_closed = by_event (tools.read_check_run body)
      where
        by_outcome :
            (ev : GithubCheckRunEvent) (o : Option (List ℕ))
            → P (λ t. (check_run_found tools sink ev o body delivery_id t).1)
        by_outcome ev none = closed.nothing
        by_outcome ev (some outcome) = insert_or_buffer_closed _

        by_event :
            (o : Option GithubCheckRunEvent)
            → P (λ t. (check_run_event tools sink o body delivery_id t).1)
        by_event none = closed.nothing
        by_event (some ev) = by_outcome ev (check_run_outcome ev)

    push_commit_closed :
        (c : GithubCommit) (o : Option ℕ)
        → P (λ t. (push_commit tools sink body delivery_id c o t).1)
    push_commit_closed c none = closed.nothing
    push_commit_closed c (some sid) = by_session (sink.lookup_by_session_id sid)
      where
        by_session :
            (o : Option Session) → P (λ t. (push_marked tools sink body delivery_id c o t).1)
        by_session none = closed.pending _
        by_session (some s) = closed.outcome _ c.url refl

    push_commits-count :
        (cs : List GithubCommit) (n m : ℕ) (t : Tables)
        → (push_commits tools sink body delivery_id cs n t).1
          ≡ (push_commits tools sink body delivery_id cs m t).1
    unfolding push_commits
    push_commits-count [] n m t = refl
    push_commits-count (c ∷ cs) n m t = push_commits-count cs _ _ _

    push_commits_closed :
        (cs : List GithubCommit) → P (λ t. (push_commits tools sink body delivery_id cs 0 t).1)
    unfolding push_commits
    push_commits_closed [] = closed.nothing
    push_commits_closed (c ∷ cs) =
        let one : Tables → ℕ × Tables =
          λ t. push_commit tools sink body delivery_id c (tools.parse_session_marker c.message) t in
        let rest : Tables → Tables = λ t. (push_commits tools sink body delivery_id cs 0 t).1 in
        closed.ext (λ t. rest (one t).1)
          (λ t. (push_commits tools sink body delivery_id cs (0 + (one t).0) (one t).1).1)
          (λ t. push_commits-count cs 0 (0 + (one t).0) (one t).1)
          (closed.compose (λ t. (one t).1) rest
            (push_commit_closed c (tools.parse_session_marker c.message)) (push_commits_closed cs))

    handle_push_closed : P (λ t. (handle_push tools sink body delivery_id t).1)
    unfolding handle_push
    handle_push_closed = by_event (tools.read_push body)
      where
        by_event :
            (o : Option GithubPushEvent) → P (λ t. (push_event tools sink o body delivery_id t).1)
        by_event none = closed.nothing
        by_event (some ev) = push_commits_closed ev.commits

  module _ (R : KeyStore) (cfg : Config Tables) (event body : List ℕ) (r : Inbound) (s : R.S) where
    -- Any route whose handler only adds.
    run_route_closed :
        (routes : List (List ℕ × EventHandler Tables))
        → All (λ p. (d : Delivery) → P (λ t. (p.1 d t).1)) routes
        → P (λ t.
          (run_route R cfg event body r
            (find_route event routes)
            (record { redis = s; app = t })).1.app)
    run_route_closed [] h = closed.nothing
    run_route_closed ((name, route) ∷ routes) h =
        by_name (bytes_eq name event) (run_route_closed routes h.1)
      where
        by_name :
            (b : Bool)
            → P (λ t.
              (run_route R cfg event body r
                (find_route event routes)
                (record { redis = s; app = t })).1.app)
            → P (λ t.
              (run_route R cfg event body r
                (if b then some route else find_route event routes)
                (record { redis = s; app = t })).1.app)
        by_name true rest = h.0 _
        by_name false rest = rest

  module _ (R : KeyStore) (tools : Tools) (secret : List ℕ) (digest : List ℕ → List ℕ → List ℕ)
      (has_redis : Bool) where
    pub dispatch_closed :
        (body : List ℕ) (r : Inbound) (s : R.S) (o : Option (List ℕ))
        → P (λ t.
          (dispatch_event R
            (github_webhook_handler tools sink secret has_redis digest)
            body
            r
            o
            (record { redis = s; app = t })).1.app)
    dispatch_closed body r s none = closed.nothing
    dispatch_closed body r s (some event) =
        run_route_closed R (github_webhook_handler tools sink secret has_redis digest) event body r
          s (github_webhook_handler tools sink secret has_redis digest).routes
          (
            λ d. handle_pull_request_closed tools d.body d.delivery_id,
            (
              λ d. handle_push_closed tools d.body d.delivery_id,
              (λ d. handle_check_run_closed tools d.body d.delivery_id, (λ d. closed.nothing, tt)),
            ),
          )
