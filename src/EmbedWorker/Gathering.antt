-- ===== src/EmbedWorker/Gathering.antt =====
-- A batch is gathered and handled: no job is lost or doubled on the way.
use iter.Common.{
  ℕ, zero, suc, ◌+◌, ◌≡◌, refl, ap, subst, Bool, true, false, ltb, length, if◌then◌else◌, none,
  some, List, [], ◌∷◌, ◌++◌, All, count_if, count_if-append, Bool-cases, inl, inr, arith,
}
use iter.EmbedWorker.{
  Job, Json, World, Deps, unmarshal_job, has_fields, sleep, circuit_open_pause, Popped, popped,
  timed_out, pop_failed, pop, pop_from, decoded, Gathered, batch_ready, batch_lost, gather,
  handle_gathered, start_batch, process_one_batch,
}
use iter.EmbedWorker.Conservation.{
  holds_job, weight, IgnoresAttempts, PutsAway, call-nil, sleep-PutsAway, handle_batch-PutsAway,
}

-- A payload that `pop` accepts.
abbrev pub Readable : (Js : Json) → Js.Payload → Type 0
Readable Js payload = (job : Job) × (unmarshal_job Js payload ≡ some job) × (has_fields job ≡ true)

module _ {Js : Json} {Vec : Type 0} (p : Job → Bool) where
  abbrev PopKeeps : World Js Vec → Popped Js Vec → Type 0
  PopKeeps w (popped job v) =
      (v.calls ≡ []) × All (Readable Js) v.queue × (weight p v + count_if p (job ∷ []) ≡ weight p w)
  PopKeeps w (timed_out v) = (v.calls ≡ []) × (weight p v ≡ weight p w)
  PopKeeps w (pop_failed v) = true ≡ false

  pop_from-PopKeeps :
      (w : World Js Vec) (queue : List Js.Payload)
      → w.calls ≡ []
      → All (Readable Js) queue
      → PopKeeps (record w { queue = queue }) (pop_from queue (record w { queue = queue }))
  unfolding pop_from decoded
  pop_from-PopKeeps w [] h r = (h, refl)
  pop_from-PopKeeps w (payload ∷ queue) h r =
      let m = ap {B = ℕ} (λ o. if elim o [ none ↦ false | some j ↦ p j ] then 1 else 0) r.0.1 in
      let e = count_if-append (holds_job Js p) (payload ∷ []) queue in
      rw r.0.1 (rw r.0.2 (h, r.1, omega (arith, m, e)))

  pop-PopKeeps : (w : World Js Vec) → w.calls ≡ [] → All (Readable Js) w.queue → PopKeeps w (pop w)
  unfolding pop
  pop-PopKeeps w h r = rw (call-nil w h) (pop_from-PopKeeps w w.queue h r)

  abbrev GatherKeeps : ℕ → Gathered Js Vec → Type 0
  GatherKeeps n (batch_ready batch v) = (v.calls ≡ []) × (weight p v + count_if p batch ≡ n)
  GatherKeeps n (batch_lost v) = true ≡ false

  on_pop :
      (batch_max turns : ℕ) (batch : List Job) (w : World Js Vec) (q : Popped Js Vec)
      → PopKeeps w q
      → ((b : List Job) (v : World Js Vec)
          → v.calls ≡ []
          → All (Readable Js) v.queue
          → GatherKeeps (weight p v + count_if p b) (gather batch_max turns b v))
      → GatherKeeps (weight p w + count_if p batch) (elim q [
        | popped job rest ↦ gather batch_max turns (batch ++ job ∷ []) rest
        | timed_out rest ↦ batch_ready batch rest
        | pop_failed rest ↦ batch_lost rest
      ])
  on_pop batch_max turns batch w (popped job v) k rest =
      subst (λ n. GatherKeeps n (gather batch_max turns (batch ++ job ∷ []) v))
        (let e = count_if-append p batch (job ∷ []) in omega (arith, e, k.2))
        (rest (batch ++ job ∷ []) v k.0 k.1)
  on_pop batch_max turns batch w (timed_out v) k rest = (k.0, omega (arith, k.1))
  on_pop batch_max turns batch w (pop_failed v) k rest = k

  gather-GatherKeeps :
      (batch_max turns : ℕ) (batch : List Job) (w : World Js Vec)
      → w.calls ≡ []
      → All (Readable Js) w.queue
      → GatherKeeps (weight p w + count_if p batch) (gather batch_max turns batch w)
  unfolding gather
  gather-GatherKeeps batch_max zero batch w h r = (h, refl)
  gather-GatherKeeps batch_max (suc turns) batch w h r =
      elim (Bool-cases (ltb (length batch) batch_max)) [
        | inl e ↦ rw e (
            on_pop batch_max turns batch w (pop w) (pop-PopKeeps w h r)
              (λ b v hv rv. gather-GatherKeeps batch_max turns b v hv rv))
        | inr e ↦ rw e (h, refl)
      ]

  module _ (ignores : IgnoresAttempts p) (deps : Deps Vec) where
    handle_gathered-PutsAway :
        (w : World Js Vec) (g : Gathered Js Vec)
        → GatherKeeps (weight p w) g
        → PutsAway p 0 w (handle_gathered deps g)
    unfolding handle_gathered
    handle_gathered-PutsAway w (batch_ready batch v) k =
        let a = handle_batch-PutsAway p ignores deps batch v k.0 in
        (a.0, a.1, omega (arith, a.2, k.1))
    handle_gathered-PutsAway w (batch_lost v) k = absurd (ground (arith, k))

    start_batch-PutsAway :
        (batch_max turns : ℕ) (w : World Js Vec) (q : Popped Js Vec)
        → PopKeeps w q
        → PutsAway p 0 w (start_batch deps batch_max turns q)
    unfolding start_batch
    start_batch-PutsAway batch_max turns w (popped job v) k =
        handle_gathered-PutsAway w (gather batch_max turns (job ∷ []) v) (
          subst (λ n. GatherKeeps n (gather batch_max turns (job ∷ []) v)) k.2
            (gather-GatherKeeps batch_max turns (job ∷ []) v k.0 k.1))
    start_batch-PutsAway batch_max turns w (timed_out v) k = (refl, k.0, omega (arith, k.1))
    start_batch-PutsAway batch_max turns w (pop_failed v) k = absurd (ground (arith, k))

-- When no call of Redis or of the sleeper fails and every payload in the queue is a valid job, a
-- turn of the worker returns without an error, whatever the embedder and the store answer and
-- however many pops fit before the deadline, and no job is lost or doubled: for a property that
-- the count of attempts does not change, as many jobs with it as before are in the queue, in the
-- dead-letter list and in the store together.
pub process_one_batch_keeps_jobs :
    {Js : Json} {Vec : Type 0} (p : Job → Bool) (deps : Deps Vec) (batch_max turns : ℕ)
    (w : World Js Vec)
    → IgnoresAttempts p
    → w.calls ≡ []
    → All (Readable Js) w.queue
    → PutsAway p 0 w (process_one_batch deps batch_max turns w)
unfolding process_one_batch
process_one_batch_keeps_jobs p deps batch_max turns w ignores h r =
    elim deps.circuit_open_before
      as (λ paused.
        PutsAway p 0 w (
          if paused
          then sleep circuit_open_pause w
          else start_batch deps batch_max turns (pop w))) [
            | true ↦ sleep-PutsAway p circuit_open_pause w h
            | false ↦
                start_batch-PutsAway p ignores deps batch_max turns w (pop w) (pop-PopKeeps p w h r)
          ]
