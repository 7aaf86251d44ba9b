-- ===== src/Idempotency/Runs/Rerun.antt =====
-- Two requests of which the second looks into the cache before the first has answered, and asks
-- for the lock after.
use iter.Common.{ℕ, ◌≡◌, ◌≤◌, refl, ap, ◌∙◌, subst, true, none, some, List, [], ◌∷◌, ◌++◌, length}
use iter.Common.KeyStore.{KeyStore, KeyLaws}
use iter.Idempotency.{Writer, new_recorder, payload_of}
use iter.Idempotency.Requests.{Request, Keys, keys_of, Job, Shared}
use iter.Idempotency.Runs.{Setup, turn_of, start, fair, update, picked, System}
use iter.Idempotency.Runs.Steps.{
  TakesPart, arrives, misses, locks, response, runs, persists, releases,
}

module _ {R : KeyStore} {App : Type 0} (M : Setup R App) (requests : ℕ → Request) where
  -- The system after the turns of the requests named, in this order: no call fails and no key
  -- expires.
  abbrev pub take_turns : ℕ → List ℕ → System R.S App → System R.S App
  take_turns now [] s = s
  take_turns now (i ∷ order) s = take_turns now order (picked M requests i (fair now) s)

abbrev pub at_start : {S App : Type 0} → (ℕ → Writer) → Shared S App → System S App
at_start writers before = record { shared = before; jobs = λ i. start (writers i) }

module _ {R : KeyStore} (laws : KeyLaws R) {App : Type 0} (M : Setup R App) (requests : ℕ → Request)
    (writers : ℕ → Writer) (before : Shared R.S App) where
  abbrev Comes : ℕ → System R.S App → Type 0
  Comes now s = (order : List ℕ) × (take_turns M requests now order (at_start writers before) ≡ s)

  take_turns-append :
      (now i : ℕ) (order : List ℕ) (s : System R.S App)
      → take_turns M requests now (order ++ i ∷ []) s
        ≡ picked M requests i (fair now) (take_turns M requests now order s)
  take_turns-append now i [] s = refl
  take_turns-append now i (k ∷ order) s =
      take_turns-append now i order (picked M requests k (fair now) s)

  step_to :
      (i now : ℕ) (s : System R.S App) (next : Job) (sh : Shared R.S App)
      → Comes now s
      → turn_of M (requests i) (fair now) (s.jobs i) s.shared ≡ (next, sh)
      → Comes now (record { shared = sh; jobs = update s.jobs i next })
  step_to i now s next sh r q = (
    r.0 ++ i ∷ [],
    take_turns-append now i r.0 (at_start writers before)
        ∙ ap (picked M requests i (fair now)) r.1
        ∙ ap {A = Job × Shared R.S App} (λ p. record { shared = p.1; jobs = update s.jobs i p.0 })
            q,
  )

  free_again : (k k' : Keys) (s : R.S) → k ≡ k' → R.get k'.lock_key (R.del k.lock_key s) ≡ none
  free_again k k' s same =
      subst (λ x. R.get x.lock_key (R.del k.lock_key s) ≡ none) same (laws.get_del k.lock_key s)

  -- Two requests of one tenant to one path with one Idempotency-Key, when nothing is kept for it:
  -- there is an order of their turns, in which no call fails and no key expires, after which both
  -- have run the handler, one after the other.
  pub both_run :
      (tenant : List ℕ) (now : ℕ) (raw : List ℕ)
      → TakesPart M.cfg tenant (requests 0)
      → TakesPart M.cfg tenant (requests 1)
      → keys_of tenant (requests 0) ≡ keys_of tenant (requests 1)
      → M.has_redis ≡ true
      → R.get (keys_of tenant (requests 0)).cache_key before.redis ≡ none
      → R.get (keys_of tenant (requests 0)).lock_key before.redis ≡ none
      → length (response M (requests 0) before.app).body ≤ M.cfg.max_body
      → length (response M (requests 1) (M.serve (requests 0) before.app new_recorder).1).body
        ≤ M.cfg.max_body
      → payload_of M.codec (response M (requests 0) before.app) ≡ some raw
      → (order : List ℕ) × ((take_turns M requests now order (at_start writers before)).shared.app
          ≡ (M.serve (requests 1) (M.serve (requests 0) before.app new_recorder).1 new_recorder).1)
  both_run tenant now raw part part' same redis miss free small small' payload =
      let a = requests 0 in
      let b = requests 1 in
      let miss' = subst (λ k. R.get k.cache_key before.redis ≡ none) same miss in
      let r1 =
        step_to 1 now _ _ _ ([], refl) (arrives M b tenant now (writers 1) before part' redis) in
      let r2 = step_to 1 now _ _ _ r1 (misses M b tenant now (writers 1) before miss') in
      let r3 = step_to 0 now _ _ _ r2 (arrives M a tenant now (writers 0) before part redis) in
      let r4 = step_to 0 now _ _ _ r3 (misses M a tenant now (writers 0) before miss) in
      let r5 = step_to 0 now _ _ _ r4 (locks M a tenant now (writers 0) before laws free) in
      let r6 = step_to 0 now _ _ _ r5 (runs M a tenant now (writers 0) _ small) in
      let r7 = step_to 0 now _ _ _ r6 (persists M a tenant now (writers 0) _ _ raw payload) in
      let r8 = step_to 0 now _ _ _ r7 (releases M a tenant now (writers 0) _ _) in
      let given_back = free_again (keys_of tenant a) (keys_of tenant b) _ same in
      let r9 = step_to 1 now _ _ _ r8 (locks M b tenant now (writers 1) _ laws given_back) in
      let r10 = step_to 1 now _ _ _ r9 (runs M b tenant now (writers 1) _ small') in
      (r10.0, ap (λ s. s.shared.app) r10.1)
