-- ===== src/EmbedWorker/Loss.antt =====
-- What becomes of a batch whose gathering fails, and of a job that always fails.
use iter.Common.{
  ℕ, suc, ◌≤◌, ◌<◌, ◌≡◌, refl, ap, ◌∙◌, lt→ltb, le→leb, gt→leb, true, false, if◌then◌else◌, none,
  some, List, [], ◌∷◌, ◌++◌, arith,
}
use iter.EmbedWorker.{
  Job, Json, World, Deps, done, failed, unmarshal_job, has_fields, call, popped, circuit_open_pause,
  pop, pop_from, decoded, gather, handle_gathered, start_batch, process_one_batch, retry_or_dlq,
  sleep, push_job, push_dlq, max_attempts, backoff_for_attempt,
}

-- A quiet world, in which no call fails, with a given queue.
abbrev pub quiet :
    (Js : Json) {Vec : Type 0}
    → List Js.Payload
    → List Job
    → List (Job × Vec)
    → List ℕ
    → World Js Vec
quiet Js queue dlq stored slept = record {
  queue = queue;
  dlq = dlq;
  stored = stored;
  slept = slept;
  calls = [];
}

module _ {Js : Json} {Vec : Type 0} (deps : Deps Vec) (dlq : List Job) (stored : List (Job × Vec))
    (slept : List ℕ) where
  start_drops :
      (batch_max turns : ℕ) (job : Job) (bad : Js.Payload) (queue : List Js.Payload)
      → 2 ≤ batch_max
      → unmarshal_job Js bad ≡ none
      → start_batch deps batch_max
          (suc turns)
          (popped job (quiet Js (bad ∷ queue) dlq stored slept))
        ≡ (failed, quiet Js queue dlq stored slept)
  unfolding pop pop_from decoded start_batch gather handle_gathered call
  start_drops batch_max turns job bad queue room b =
      rw (lt→ltb 1 batch_max (omega arith)) (rw b refl)

  -- Where no call fails, the circuit is closed and a second pop fits before the deadline: when a
  -- valid job is followed in the queue by a payload that cannot be read, the turn ends with an
  -- error and both are gone: the job is neither queued, nor dead-lettered, nor stored.
  pub unreadable_drops_batch :
      (batch_max turns : ℕ) (job : Job) (good bad : Js.Payload) (queue : List Js.Payload)
      → deps.circuit_open_before ≡ false
      → 2 ≤ batch_max
      → unmarshal_job Js good ≡ some job
      → has_fields job ≡ true
      → unmarshal_job Js bad ≡ none
      → process_one_batch deps batch_max
          (suc turns)
          (quiet Js (good ∷ bad ∷ queue) dlq stored slept)
        ≡ (failed, quiet Js queue dlq stored slept)
  unfolding process_one_batch pop pop_from decoded call
  unreadable_drops_batch batch_max turns job good bad queue closed room g v b =
      let e = start_drops batch_max turns job bad queue room b in
      ap
        (λ open_before.
          if open_before
          then sleep circuit_open_pause (quiet Js (good ∷ bad ∷ queue) dlq stored slept)
          else start_batch deps batch_max (suc turns)
              (pop (quiet Js (good ∷ bad ∷ queue) dlq stored slept)))
        closed
      ∙ rw g (rw v e)

  -- Where no call fails, a job whose handling fails is written back with one attempt more, after a
  -- delay, until it has failed five times: then it is dead-lettered as it is, and not queued again.
  pub retry_or_dlq_bounded :
      (job : Job) (queue : List Js.Payload)
      → (suc job.attempts < max_attempts
          → retry_or_dlq job (quiet Js queue dlq stored slept) ≡ (
            done,
            quiet Js
                (queue ++ Js.marshal (record job { attempts = suc job.attempts }) ∷ [])
                dlq
                stored
                (slept ++ backoff_for_attempt (suc job.attempts) ∷ []),
          ))
        × (max_attempts ≤ suc job.attempts
            → retry_or_dlq job (quiet Js queue dlq stored slept)
              ≡ (done, quiet Js queue (dlq ++ job ∷ []) stored slept))
  unfolding retry_or_dlq sleep push_job push_dlq call
  retry_or_dlq_bounded job queue = (
    λ few. rw (gt→leb max_attempts (suc job.attempts) few) refl,
    λ many. rw (le→leb max_attempts (suc job.attempts) many) refl,
  )
