-- ===== src/Lib.antt =====
-- Iter: the server that takes sessions in from coding agents, redacts, stores and embeds them, and
-- the daemon that captures them. This library models its data path and what protects it.
--
-- A captured file becomes events in the daemon's durable queue, which are published over the
-- WebSocket gateway; the gateway's ingest handler adds them to the tenant's Redis stream, whose
-- consumers classify them a second time, persist them and queue an embedding job; the embed worker
-- has the jobs embedded by a router over providers, each behind a circuit breaker. The rate limiter
-- stands before the HTTP interface, behind the tenant's transaction and before the idempotency
-- middleware. Webhooks bring the outcomes of sessions from GitHub and Linear. A nightly run moves
-- old sessions from the tables to an object store.
--
--   Common, Common/*            Boolean tests, native lists, texts as bytes, Go's signed int, and
--                               Redis' commands on strings with their laws (KeyStore)
--   Redact                      internal/redact/classify.go: redactAll
--   Redact/Scan                 allIndex, parseTrufflehogOutput, scanPII, sanitizeDetector
--   Redact/Classify             classifyWith; the proofs stand in the other children
--   Breaker                     internal/embed/breaker.go, which internal/llm/breaker.go copies
--   Router                      internal/embed/router.go: NewRouter, Embed, errorTag
--   RateLimit                   internal/api/middleware/ratelimit.go: the Lua script, RateLimit
--   Gateway                     internal/ws/gateway.go, types.go: enqueue, readLoop, heartbeatLoop
--   Ingest                      internal/ingest/types.go and the decoding of consumer.go
--   Ingest/Entry                internal/ingest/handler.go: NewWSHandler
--   Ingest/Consumer             internal/ingest/consumer.go: HandleMessage, persist, fail
--   EmbedWorker                 internal/embed/worker.go: ProcessOneBatch and what it calls
--   Signals                     internal/signals/signals.go: Aggregate, AggregateSubagent
--   Daemon/Wal                  internal/daemon/capture_wal.go: Append, Unsent, MarkSent
--   Daemon/Capture              internal/daemon/capture.go: captureFile, Scan, toEvents,
--                               scanAndPublishWithWAL
--   Idempotency                 internal/api/middleware/idempotency.go: what is kept and replayed
--   Idempotency/Requests        its options, keys and steps; Runs: interleavings, a memory
--   Tenant                      internal/api/middleware/tenant.go: Tenant, internal/db/tenant.go:
--                               WithTenant; Tenant/Stack: Tenant before Idempotency
--   Webhook, Webhook/Receive    internal/api/webhook/receiver.go: VerifyHMACSHA256, Handler
--   Outcomes                    internal/db/repo/outcomes.go, pending_outcomes.go, and the sink of
--   Outcomes/Github, Linear     internal/api/handler/webhook_github.go, webhook_linear.go
--   Archive                     internal/archive/cron.go: resolve, listEligible, what is gathered
--   Archive/Writes              WithBatch, and InsertPointer, MarkSessionArchived, DeleteSession of
--                               archive_pointers.go and sessions.go in internal/db/repo
--   Archive/Upload, Sweep       archiveOne, uploadWithRetry; Run, with meter.go and bundle.go
--
-- State is a record that the operations take and return; what the environment answers is an
-- argument: a function, a list of outcomes, or a record of answers. Methods that hold a mutex are
-- single steps. Identifiers, times and durations are natural numbers, the zero value is 0; Go's
-- int is natural where the code keeps it so, and ℤ where it tests the sign or reads it from a
-- text; the retry counter wraps at 64 bits. Bytes are numbers, and
-- texts lists of them, in Redact, the middleware and the webhooks; elsewhere text is String.
--
-- Idempotency takes a request as steps between two calls of Redis, each with the circumstances
-- under which it runs; a step relation interleaves any number of requests, and keys may expire
-- between steps. Six steps are enough for a request by itself; one that waits for the lock needs
-- as many more as intervals fit into its timeout.
--
-- Redis' sorted set (RateLimit.SortedSet), the codecs (EmbedWorker.Json, Ingest.Codec,
-- Idempotency.Codec, Outcomes.Github.Tools, Archive.Upload.Format), the object store, the
-- detectors, the digest and the sort by start time are parameters, with the documented laws that
-- are relied on. Loops are structural recursion; all_index runs on the length of the text as fuel,
-- which its completeness lemma shows to be enough, and the number of pops that fit before a batch's
-- deadline is an argument.
--
-- Not modelled: SQL, HTTP plumbing and logging, goroutines beyond the orders of events above, the
-- regular expressions, Unicode beyond ASCII in Linear's labels and actions, the extraction of a session from its JSON file, floating-point scores, and
-- the subsystems auth and llm.
pub mod Archive
pub mod Common
pub mod Redact
pub mod Breaker
pub mod Router
pub mod Outcomes
pub mod RateLimit
pub mod Signals
pub mod Tenant
pub mod Webhook
pub mod Daemon
pub mod Ingest
pub mod Gateway
pub mod Idempotency
pub mod EmbedWorker
