-- ===== src/EmbedWorker/Conservation.antt =====
-- Where a job is after a batch: in the queue, stored, or in the dead-letter list.
use iter.Common.{
  ℕ, suc, ◌+◌, ◌≡◌, refl, ap, sym, Bool, true, false, leb, ◌==◌, length, map, if◌then◌else◌, none,
  some, List, [], ◌∷◌, ◌++◌, count_if, count_if-append, Bool-cases, ==_iff, subst, inl, inr, arith,
}
use iter.EmbedWorker.{
  Job, Json, World, Deps, EmbedResult, Status, done, failed, unmarshal_job, call, sleep, push_job,
  push_dlq, and_then, retry_or_dlq, each, store_one, store_all, answered, requeue_batch,
  handle_batch, vectors, rate_limited, all_unavailable, embed_failed, backoff_for_attempt,
  max_attempts, circuit_open_pause,
}
use iter.EmbedWorker.Backoff.{unmarshal_job-marshal}

abbrev pub holds_job : (Js : Json) → (Job → Bool) → Js.Payload → Bool
holds_job Js p payload = elim (unmarshal_job Js payload) [ none ↦ false | some job ↦ p job ]

-- How many jobs with a property there are: queued, dead-lettered or stored.
abbrev pub weight : {Js : Json} {Vec : Type 0} → (Job → Bool) → World Js Vec → ℕ
weight {Js} p w =
    count_if (holds_job Js p) w.queue + count_if p w.dlq + count_if (λ s. p s.0) w.stored

-- A property that an attempt more does not change.
abbrev pub IgnoresAttempts : (Job → Bool) → Type 0
IgnoresAttempts p = (job : Job) (n : ℕ) → p (record job { attempts = n }) ≡ p job

-- The step succeeds, no call is left to fail, and `c` jobs with the property have been put away.
abbrev pub PutsAway :
    {Js : Json} {Vec : Type 0} → (Job → Bool) → ℕ → World Js Vec → Status × World Js Vec → Type 0
PutsAway p c w r = (r.0 ≡ done) × (r.1.calls ≡ []) × (weight p r.1 ≡ weight p w + c)

pub call-nil : {Js : Json} {Vec : Type 0} (w : World Js Vec) → w.calls ≡ [] → call w ≡ (true, w)
unfolding call
call-nil w h = ap (λ c. elim c [ [] ↦ (true, w) | ok ∷ rest ↦ (ok, record w { calls = rest }) ]) h

module _ {Js : Json} {Vec : Type 0} (p : Job → Bool) where
  pub sleep-PutsAway : (d : ℕ) (w : World Js Vec) → w.calls ≡ [] → PutsAway p 0 w (sleep d w)
  unfolding sleep
  sleep-PutsAway d w h = rw (call-nil w h) (refl, h, omega arith)

  queued :
      (job : Job) (w : World Js Vec)
      → weight p (record w { queue = w.queue ++ Js.marshal job ∷ [] })
        ≡ weight p w + count_if p (job ∷ [])
  queued job w =
      let e = count_if-append (holds_job Js p) w.queue (Js.marshal job ∷ []) in
      let m =
        ap {B = ℕ} (λ o. if elim o [ none ↦ false | some j ↦ p j ] then 1 else 0)
          (unmarshal_job-marshal Js job) in
      omega (arith, e, m)

  push_job-PutsAway :
      (job : Job) (w : World Js Vec)
      → w.calls ≡ []
      → PutsAway p (count_if p (job ∷ [])) w (push_job job w)
  unfolding push_job
  push_job-PutsAway job w h = rw (call-nil w h) (refl, h, queued job w)

  push_dlq-PutsAway :
      (job : Job) (w : World Js Vec)
      → w.calls ≡ []
      → PutsAway p (count_if p (job ∷ [])) w (push_dlq job w)
  unfolding push_dlq
  push_dlq-PutsAway job w h =
      let e = count_if-append p w.dlq (job ∷ []) in rw (call-nil w h) (refl, h, omega (arith, e))

  and_then-PutsAway :
      (c d : ℕ) (w : World Js Vec) (r : Status × World Js Vec)
      (f : World Js Vec → Status × World Js Vec)
      → PutsAway p c w r
      → ((v : World Js Vec) → v.calls ≡ [] → PutsAway p d v (f v))
      → PutsAway p (c + d) w (and_then r f)
  and_then-PutsAway c d w (done, v) f h g = let k = g v h.1 in (k.0, k.1, omega (arith, k.2, h.2))
  and_then-PutsAway c d w (failed, v) f h g = absurd (ground (arith, h.0))

  sleep_then :
      (d c : ℕ) (w : World Js Vec) (f : World Js Vec → Status × World Js Vec)
      → w.calls ≡ []
      → ((v : World Js Vec) → v.calls ≡ [] → PutsAway p c v (f v))
      → PutsAway p c w (and_then (sleep d w) f)
  sleep_then d c w f h g =
      subst (λ n. PutsAway p n w (and_then (sleep d w) f)) (omega arith)
        (and_then-PutsAway 0 c w (sleep d w) f (sleep-PutsAway d w h) g)

  module _ (ignores : IgnoresAttempts p) where
    retry_or_dlq-PutsAway :
        (job : Job) (w : World Js Vec)
        → w.calls ≡ []
        → PutsAway p (count_if p (job ∷ [])) w (retry_or_dlq job w)
    unfolding retry_or_dlq
    retry_or_dlq-PutsAway job w h =
        let again = record job { attempts = suc job.attempts } in
        elim (Bool-cases (leb max_attempts (suc job.attempts))) [
          | inl e ↦ rw e (push_dlq-PutsAway job w h)
          | inr e ↦ rw e (
              subst
                (λ b.
                  PutsAway p (if b then 1 else 0) w
                    (and_then (sleep (backoff_for_attempt (suc job.attempts)) w) (push_job again)))
                (ignores job (suc job.attempts))
                (sleep_then (backoff_for_attempt (suc job.attempts)) (count_if p (again ∷ [])) w
                  (push_job again) h (λ v hv. push_job-PutsAway again v hv)))
        ]

    each-PutsAway :
        (f : Job → World Js Vec → Status × World Js Vec)
        → ((job : Job) (w : World Js Vec)
            → w.calls ≡ []
            → PutsAway p (count_if p (job ∷ [])) w (f job w))
        → (batch : List Job) (w : World Js Vec) → w.calls ≡ []
        → PutsAway p (count_if p batch) w (each f batch w)
    each-PutsAway f hf [] w h = (refl, h, omega arith)
    each-PutsAway f hf (job ∷ batch) w h =
        subst (λ c. PutsAway p c w (each f (job ∷ batch) w))
          (sym (count_if-append p (job ∷ []) batch))
          (and_then-PutsAway (count_if p (job ∷ [])) (count_if p batch) w (f job w) (each f batch)
            (hf job w h) (λ v hv. each-PutsAway f hf batch v hv))

    store_one-PutsAway :
        (deps : Deps Vec) (job : Job) (vec : Vec) (w : World Js Vec)
        → w.calls ≡ []
        → PutsAway p (count_if p (job ∷ [])) w (store_one deps job vec w)
    unfolding store_one
    store_one-PutsAway deps job vec w h =
        let e = count_if-append (λ s. p s.0) w.stored ((job, vec) ∷ []) in
        elim (Bool-cases (deps.upsert job vec)) [
          | inl ok ↦ rw ok (refl, h, omega (arith, e))
          | inr ko ↦ rw ko (retry_or_dlq-PutsAway job w h)
        ]

    store_all-PutsAway :
        (deps : Deps Vec) (batch : List Job) (vecs : List Vec) (w : World Js Vec)
        → w.calls ≡ []
        → length vecs ≡ length batch
        → PutsAway p (count_if p batch) w (store_all deps batch vecs w)
    unfolding store_all
    store_all-PutsAway deps [] vecs w h l = (refl, h, omega arith)
    store_all-PutsAway deps (job ∷ batch) [] w h l = absurd (omega (arith, l))
    store_all-PutsAway deps (job ∷ batch) (v ∷ vecs) w h l =
        subst (λ c. PutsAway p c w (store_all deps (job ∷ batch) (v ∷ vecs) w))
          (sym (count_if-append p (job ∷ []) batch))
          (and_then-PutsAway (count_if p (job ∷ [])) (count_if p batch) w (store_one deps job v w)
            (store_all deps batch vecs) (store_one-PutsAway deps job v w h)
            (λ u hu. store_all-PutsAway deps batch vecs u hu (omega (arith, l))))

    retry_all-PutsAway :
        (batch : List Job) (w : World Js Vec)
        → w.calls ≡ []
        → PutsAway p (count_if p batch) w (each retry_or_dlq batch w)
    retry_all-PutsAway = each-PutsAway retry_or_dlq retry_or_dlq-PutsAway

    requeue-PutsAway :
        (batch : List Job) (w : World Js Vec)
        → w.calls ≡ []
        → PutsAway p (count_if p batch) w (requeue_batch batch w)
    requeue-PutsAway = each-PutsAway push_job push_job-PutsAway

    answered-PutsAway :
        (deps : Deps Vec) (batch : List Job) (r : EmbedResult Vec) (w : World Js Vec)
        → w.calls ≡ []
        → PutsAway p (count_if p batch) w (answered deps batch r w)
    unfolding answered
    answered-PutsAway deps batch (vectors vecs) w h =
        elim (Bool-cases (length vecs == length batch)) [
          | inl e ↦ rw e (store_all-PutsAway deps batch vecs w h ((==_iff _ _).0 e))
          | inr e ↦ rw e (retry_all-PutsAway batch w h)
        ]
    answered-PutsAway deps batch rate_limited w h =
        sleep_then (backoff_for_attempt 1) (count_if p batch) w (requeue_batch batch) h
          (λ v hv. requeue-PutsAway batch v hv)
    answered-PutsAway deps batch all_unavailable w h = elim (Bool-cases deps.circuit_open_after) [
      | inl e ↦ rw e (
          subst (λ c. PutsAway p c w (and_then (requeue_batch batch w) (sleep circuit_open_pause)))
            (omega arith)
            (and_then-PutsAway (count_if p batch) 0 w (requeue_batch batch w)
              (sleep circuit_open_pause) (requeue-PutsAway batch w h)
              (λ v hv. sleep-PutsAway circuit_open_pause v hv)))
      | inr e ↦ rw e (retry_all-PutsAway batch w h)
    ]
    answered-PutsAway deps batch embed_failed w h = retry_all-PutsAway batch w h

    pub handle_batch-PutsAway :
        (deps : Deps Vec) (batch : List Job) (w : World Js Vec)
        → w.calls ≡ []
        → PutsAway p (count_if p batch) w (handle_batch deps batch w)
    unfolding handle_batch
    handle_batch-PutsAway deps batch w h =
        answered-PutsAway deps batch (deps.embed (map (λ job. job.source_text) batch)) w h
