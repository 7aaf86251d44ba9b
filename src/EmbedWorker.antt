-- ===== src/EmbedWorker.antt =====
-- internal/embed/worker.go: the worker that takes jobs from the Redis list embed:queue, has them
-- embedded in batches, and stores, retries or dead-letters each. Times are seconds.
pub mod Backoff
pub mod Conservation
pub mod Gathering
pub mod Loss
mod Tests
use iter.Common.{
  ℕ, zero, suc, ◌+◌, ◌-◌, ◌*◌, ◌^◌, ◌≡◌, Bool, true, false, ◌||◌, ◌&&◌, Option, none, some, List,
  [], ◌∷◌, ◌++◌, map, String, str_eq, ltb, leb, ◌==◌, if◌then◌else◌, length,
}

abbrev pub max_attempts : ℕ
max_attempts = 5

abbrev pub circuit_open_pause : ℕ
circuit_open_pause = 30

-- Identifiers are numbers, the nil UUID is 0. Attempts are counted from 0.
pub record Job : Type 0 where
  pub tenant_id : ℕ
  pub session_id : ℕ
  pub source_text : String
  pub queued_at : ℕ
  pub attempts : ℕ

pub record RawJob : Type 0 where
  pub tenant_id : ℕ
  pub session_id : ℕ
  pub source_text : String
  pub redacted_prompt : String
  pub queued_at : ℕ
  pub attempts : ℕ

-- The JSON codec is the standard library's: what it documents of the payloads it printed itself.
pub record Json : Type 1 where
  pub Payload : Type 0
  pub parse : Payload → Option RawJob
  pub marshal : Job → Payload
  pub parse-marshal :
      (j : Job)
      → parse (marshal j)
        ≡ some (record {
          tenant_id = j.tenant_id;
          session_id = j.session_id;
          source_text = j.source_text;
          redacted_prompt = "";
          queued_at = j.queued_at;
          attempts = j.attempts;
        })

abbrev pub of_raw : RawJob → Job
of_raw raw = record {
  tenant_id = raw.tenant_id;
  session_id = raw.session_id;
  source_text = if str_eq raw.source_text "" then raw.redacted_prompt else raw.source_text;
  queued_at = raw.queued_at;
  attempts = raw.attempts;
}

unfoldable pub unmarshal_job : (Js : Json) → Js.Payload → Option Job
unmarshal_job Js payload = elim (Js.parse payload) [ none ↦ none | some raw ↦ some (of_raw raw) ]

-- What `pop` accepts of a decoded job.
abbrev pub has_fields : Job → Bool
has_fields job =
    if str_eq job.source_text ""
    then false
    else if job.tenant_id == 0 || job.session_id == 0
    then false
    else true

unfoldable pub backoff_for_attempt : ℕ → ℕ
backoff_for_attempt attempt =
    if leb attempt 1
    then 1
    else if ltb max_attempts attempt
    then 2 ^ (max_attempts - 1)
    else 2 ^ (attempt - 1)

-- What the embedder answers: vectors, ErrRateLimited, ErrAllProvidersUnavailable, another error.
pub data EmbedResult (Vec : Type 0) : Type 0 where
  vectors : List Vec → EmbedResult Vec
  rate_limited : EmbedResult Vec
  all_unavailable : EmbedResult Vec
  embed_failed : EmbedResult Vec

-- Redis, the store and the log of sleeps. The head of `calls` says whether the next call of Redis
-- or of the sleeper succeeds; past its end every call does.
pub record World (Js : Json) (Vec : Type 0) : Type 0 where
  pub queue : List Js.Payload
  pub dlq : List Job
  pub stored : List (Job × Vec)
  pub slept : List ℕ
  pub calls : List Bool

-- The collaborators of a worker. `circuit_open` is what the embedder says before a batch and after
-- a failed one.
pub record Deps (Vec : Type 0) : Type 0 where
  pub embed : List String → EmbedResult Vec
  pub upsert : Job → Vec → Bool
  pub circuit_open_before : Bool
  pub circuit_open_after : Bool

pub data Status : Type 0 where
  done : Status
  failed : Status

-- A context that is cancelled, which the source takes as a timeout, is not modelled.
-- BLPOP: a job, nothing within the time, or an error: of Redis or of the payload, which is then
-- no longer in the list.
pub data Popped (Js : Json) (Vec : Type 0) : Type 0 where
  popped : Job → World Js Vec → Popped Js Vec
  timed_out : World Js Vec → Popped Js Vec
  pop_failed : World Js Vec → Popped Js Vec

pub data Gathered (Js : Json) (Vec : Type 0) : Type 0 where
  batch_ready : List Job → World Js Vec → Gathered Js Vec
  batch_lost : World Js Vec → Gathered Js Vec

unfoldable pub call : {Js : Json} {Vec : Type 0} → World Js Vec → Bool × World Js Vec
call w = elim w.calls [ [] ↦ (true, w) | ok ∷ rest ↦ (ok, record w { calls = rest }) ]

module _ {Js : Json} {Vec : Type 0} where
  unfoldable pub sleep : ℕ → World Js Vec → Status × World Js Vec
  unfolding call
  sleep d w =
      let r = call w in
      if r.0 then (done, record r.1 { slept = r.1.slept ++ d ∷ [] }) else (failed, r.1)

  unfoldable pub push_job : Job → World Js Vec → Status × World Js Vec
  unfolding call
  push_job job w =
      let r = call w in
      if r.0 then (done, record r.1 { queue = r.1.queue ++ Js.marshal job ∷ [] }) else (failed, r.1)

  -- The entry's error text and its time are left out.
  unfoldable pub push_dlq : Job → World Js Vec → Status × World Js Vec
  unfolding call
  push_dlq job w =
      let r = call w in
      if r.0 then (done, record r.1 { dlq = r.1.dlq ++ job ∷ [] }) else (failed, r.1)

  -- Go's `if err := f(); err != nil { return err }` before the rest.
  abbrev pub and_then :
      Status × World Js Vec → (World Js Vec → Status × World Js Vec) → Status × World Js Vec
  and_then (done, w) f = f w
  and_then (failed, w) f = (failed, w)

  unfoldable pub retry_or_dlq : Job → World Js Vec → Status × World Js Vec
  retry_or_dlq job w =
      let next = suc job.attempts in
      if leb max_attempts next
      then push_dlq job w
      else and_then (sleep (backoff_for_attempt next) w) (push_job (record job { attempts = next }))

  -- A loop that calls `f` on every job and returns at the first error.
  abbrev pub each :
      (Job → World Js Vec → Status × World Js Vec) → List Job → World Js Vec → Status × World Js Vec
  each f [] w = (done, w)
  each f (job ∷ batch) w = and_then (f job w) (each f batch)

  abbrev pub requeue_batch : List Job → World Js Vec → Status × World Js Vec
  requeue_batch = each push_job

  store_one : Deps Vec → Job → Vec → World Js Vec → Status × World Js Vec
  store_one deps job vec w =
      if deps.upsert job vec
      then (done, record w { stored = w.stored ++ (job, vec) ∷ [] })
      else retry_or_dlq job w

  -- `resp.Vectors[i]` for every job; the lengths were compared before.
  unfoldable pub store_all : Deps Vec → List Job → List Vec → World Js Vec → Status × World Js Vec
  unfolding store_one
  store_all deps [] vecs w = (done, w)
  store_all deps (job ∷ batch) [] w = (done, w)
  store_all deps (job ∷ batch) (v ∷ vecs) w =
      and_then (store_one deps job v w) (store_all deps batch vecs)

  answered : Deps Vec → List Job → EmbedResult Vec → World Js Vec → Status × World Js Vec
  answered deps batch (vectors vecs) w =
      if length vecs == length batch then store_all deps batch vecs w else each retry_or_dlq batch w
  answered deps batch rate_limited w =
      and_then (sleep (backoff_for_attempt 1) w) (requeue_batch batch)
  answered deps batch all_unavailable w =
      if deps.circuit_open_after
      then and_then (requeue_batch batch w) (sleep circuit_open_pause)
      else each retry_or_dlq batch w
  answered deps batch embed_failed w = each retry_or_dlq batch w

  unfoldable pub handle_batch : Deps Vec → List Job → World Js Vec → Status × World Js Vec
  unfolding answered
  handle_batch deps batch w =
      answered deps batch (deps.embed (map (λ job. job.source_text) batch)) w

  decoded : Option Job → World Js Vec → Popped Js Vec
  decoded none w = pop_failed w
  decoded (some job) w = if has_fields job then popped job w else pop_failed w

  pop_from : List Js.Payload → World Js Vec → Popped Js Vec
  pop_from [] w = timed_out w
  pop_from (payload ∷ queue) w = decoded (unmarshal_job Js payload) (record w { queue = queue })

  unfoldable pub pop : World Js Vec → Popped Js Vec
  unfolding call pop_from decoded
  pop w = let r = call w in if r.0 then pop_from r.1.queue r.1 else pop_failed r.1

  -- `turns` is how many pops fit before the batch's deadline.
  unfoldable pub gather : (batch_max turns : ℕ) → List Job → World Js Vec → Gathered Js Vec
  gather batch_max zero batch w = batch_ready batch w
  gather batch_max (suc turns) batch w =
      if ltb (length batch) batch_max
      then elim (pop w) [
        | popped job rest ↦ gather batch_max turns (batch ++ job ∷ []) rest
        | timed_out rest ↦ batch_ready batch rest
        | pop_failed rest ↦ batch_lost rest
      ]
      else batch_ready batch w

  handle_gathered : Deps Vec → Gathered Js Vec → Status × World Js Vec
  handle_gathered deps (batch_ready batch w) = handle_batch deps batch w
  handle_gathered deps (batch_lost w) = (failed, w)

  start_batch : Deps Vec → (batch_max turns : ℕ) → Popped Js Vec → Status × World Js Vec
  start_batch deps batch_max turns (popped job w) =
      handle_gathered deps (gather batch_max turns (job ∷ []) w)
  start_batch deps batch_max turns (timed_out w) = (done, w)
  start_batch deps batch_max turns (pop_failed w) = (failed, w)

  unfoldable pub process_one_batch :
      Deps Vec → (batch_max turns : ℕ) → World Js Vec → Status × World Js Vec
  unfolding start_batch handle_gathered
  process_one_batch deps batch_max turns w =
      if deps.circuit_open_before
      then sleep circuit_open_pause w
      else start_batch deps batch_max turns (pop w)
