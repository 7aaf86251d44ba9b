-- ===== src/EmbedWorker/Tests.antt =====
-- Runs of the worker over a transparent codec, and the theorems at concrete inputs.
use iter.Common.{
  ℕ, suc, ◌*◌, ◌≤◌, ◌<◌, ◌≡◌, refl, true, false, ◌==◌, Option, none, some, List, [], ◌∷◌, ◌++◌, All,
  String, arith,
}
use iter.EmbedWorker.{
  Job, RawJob, Json, vectors, World, Deps, done, failed, backoff_for_attempt, unmarshal_job,
  retry_or_dlq, process_one_batch, pop, gather, handle_batch, store_all, push_dlq, call,
  max_attempts,
}
use iter.EmbedWorker.Backoff.{backoff_doubles, unmarshal_job-marshal}
use iter.EmbedWorker.Conservation.{PutsAway}
use iter.EmbedWorker.Gathering.{Readable, process_one_batch_keeps_jobs}
use iter.EmbedWorker.Loss.{quiet, unreadable_drops_batch, retry_or_dlq_bounded}

abbrev raw_of : Job → RawJob
raw_of j = record {
  tenant_id = j.tenant_id;
  session_id = j.session_id;
  source_text = j.source_text;
  redacted_prompt = "";
  queued_at = j.queued_at;
  attempts = j.attempts;
}

abbrev codec : Json
codec = record {
  Payload = Option RawJob;
  parse = λ payload. payload;
  marshal = λ j. some (raw_of j);
  parse-marshal = λ j. refl;
}

abbrev job_of : ℕ → ℕ → Job
job_of session tries = record {
  tenant_id = 1;
  session_id = session;
  source_text = "text";
  queued_at = 0;
  attempts = tries;
}

abbrev positions : ℕ → List String → List ℕ
positions n [] = []
positions n (t ∷ ts) = n ∷ positions (suc n) ts

-- Embeds every text as its position, except that the store refuses session 8.
abbrev deps : Deps ℕ
deps = record {
  embed = λ texts. vectors (positions 0 texts);
  upsert = λ job vec. elim (job.session_id == 8) [ true ↦ false | false ↦ true ];
  circuit_open_before = false;
  circuit_open_after = false;
}

abbrev two_jobs : World codec ℕ
two_jobs = quiet codec (some (raw_of (job_of 7 0)) ∷ some (raw_of (job_of 8 4)) ∷ []) [] [] []

stores_and_buries :
    process_one_batch deps 32 10 two_jobs
    ≡ (done, quiet codec [] (job_of 8 4 ∷ []) ((job_of 7 0, 0) ∷ []) [])
unfolding process_one_batch pop gather handle_batch store_all retry_or_dlq push_dlq call
    unmarshal_job
stores_and_buries = refl

backoff_doubles_run :
    (1 ≤ 3 → 3 < max_attempts → backoff_for_attempt 4 ≡ 2 * backoff_for_attempt 3)
    × (max_attempts ≤ 3 → backoff_for_attempt 3 ≡ 16)
backoff_doubles_run = backoff_doubles 3

unmarshal_job-marshal_run : unmarshal_job codec (codec.marshal (job_of 7 2)) ≡ some (job_of 7 2)
unmarshal_job-marshal_run = unmarshal_job-marshal codec (job_of 7 2)

two-Readable : All (Readable codec) two_jobs.queue
unfolding unmarshal_job
two-Readable = ((job_of 7 0, refl, refl), ((job_of 8 4, refl, refl), tt))

process_one_batch_keeps_jobs_example :
    PutsAway (λ job. job.session_id == 8) 0 two_jobs (process_one_batch deps 32 10 two_jobs)
process_one_batch_keeps_jobs_example =
    process_one_batch_keeps_jobs (λ job. job.session_id == 8) deps 32 10 two_jobs (λ job n. refl)
      refl two-Readable

unreadable : unmarshal_job codec none ≡ none
unfolding unmarshal_job
unreadable = refl

unreadable_drops_batch_example :
    process_one_batch deps 32 10 (quiet codec (some (raw_of (job_of 7 0)) ∷ none ∷ []) [] [] [])
    ≡ (failed, quiet codec [] [] [] [])
unreadable_drops_batch_example =
    unreadable_drops_batch deps [] [] [] 32 9 (job_of 7 0) (some (raw_of (job_of 7 0))) none [] refl
      (omega arith) (unmarshal_job-marshal codec (job_of 7 0)) refl unreadable

retry_or_dlq_bounded_run :
    (1 < max_attempts
      → retry_or_dlq {Vec = ℕ} (job_of 7 0) (quiet codec [] [] [] []) ≡ (
        done,
        quiet codec
            ([] ++ codec.marshal (job_of 7 1) ∷ [])
            []
            []
            ([] ++ backoff_for_attempt 1 ∷ []),
      ))
    × (max_attempts ≤ 1
        → retry_or_dlq {Vec = ℕ} (job_of 7 0) (quiet codec [] [] [] [])
          ≡ (done, quiet codec [] ([] ++ job_of 7 0 ∷ []) [] []))
retry_or_dlq_bounded_run = retry_or_dlq_bounded deps [] [] [] (job_of 7 0) []
