-- ===== src/Router/Availability.antt =====
-- A provider that works is found, whatever failed before it in the chain.
use iter.Common.{
  ℕ, suc, ◌+◌, ◌≡◌, refl, Bool, true, false, Option, none, some, List, [], ◌∷◌, ◌++◌, String,
  str_eq, length, any, arith, Bool-cases, inl, inr,
}
use iter.Breaker.{Breaker, breaker_closed, allow, failure, ask, fail, step}
use iter.Breaker.Invariant.{Inv, step-Inv}
use iter.Router.{
  Attempt, Outcome, vectors, failed, Tag, Reply, embedded, Breakers, put, registered, Visit,
  advance, halt, return, call_provider, check_ctx, consult, visit, after, walk,
}
use iter.Router.Ready.{HasBreaker, Ready, put-Ready}

abbrev pub IsEmbedded : Reply → Type 0
IsEmbedded (embedded vecs w) = Unit
IsEmbedded _ = ⊥

abbrev NotLimited : Outcome → Type 0
NotLimited (vectors vecs) = Unit
NotLimited (failed e) = e.rate_limited ≡ false

-- The context stays alive, and no provider answers that it is rate limited.
pub record Calm (a : Attempt) : Type 0 where
  pub alive : a.ctx_err ≡ none
  pub unlimited : NotLimited a.outcome

abbrev IsVectors : Outcome → Type 0
IsVectors (vectors vecs) = Unit
IsVectors (failed e) = ⊥

module _ (providers : List String) (caching : Bool) (target : String) (good : Breaker) where
  -- The walk has its answer, or goes on with the target's breaker as it was.
  abbrev StillGood : Visit → Type 0
  StillGood (advance m tag) = Ready providers m × (m target ≡ some good)
  StillGood (halt m tag) = ⊥
  StillGood (return m reply) = IsEmbedded reply

  module _ (name : String) (a : Attempt) (other : str_eq name target ≡ false) (calm : Calm a) where
    put-kept : (m : Breakers) (b : Breaker) → m target ≡ some good → put m name b target ≡ some good
    put-kept m b e = rw other e

    call_provider-StillGood :
        (m : Breakers) (b : Breaker) (o : Outcome)
        → NotLimited o
        → Inv b
        → Ready providers m
        → m target ≡ some good
        → StillGood (call_provider caching name a m b o)
    unfolding call_provider step
    call_provider-StillGood m b (vectors vecs) n i r e = tt
    call_provider-StillGood m b (failed x) n i r e = rw n (
      put-Ready providers m name (failure a.failed_at b) (step-Inv (fail a.failed_at) b i) r,
      put-kept m (failure a.failed_at b) e,
    )

    check_ctx-StillGood :
        (m : Breakers) (b : Breaker) (c : Option String)
        → c ≡ none
        → Inv b
        → Ready providers m
        → m target ≡ some good
        → StillGood (check_ctx caching name a m b c)
    unfolding check_ctx
    check_ctx-StillGood m b (some e) n i r t = cc
    check_ctx-StillGood m b none n i r t =
        call_provider-StillGood m b a.outcome calm.unlimited i r t

    consult-StillGood :
        (m : Breakers) (o : Option Breaker)
        → HasBreaker m name
        → m name ≡ o
        → Ready providers m
        → m target ≡ some good
        → StillGood (consult caching name a m o)
    unfolding consult step
    consult-StillGood m none (b, e, i) q r t = cc
    consult-StillGood m (some c) (b, e, i) q r t =
        let same : b ≡ c = cc in
        let i' : Inv (allow a.now c).0 = step-Inv (ask a.now) c (rw (← same) i) in
        let r' = put-Ready providers m name (allow a.now c).0 i' r in
        let t' = put-kept m (allow a.now c).0 t in
        elim (Bool-cases (allow a.now c).1) [
          | inl allowed ↦ rw allowed (
              check_ctx-StillGood (put m name (allow a.now c).0) (allow a.now c).0 a.ctx_err
                calm.alive i' r' t')
          | inr no_go ↦ rw no_go (r', t')
        ]

    visit-StillGood :
        (m : Breakers)
        → Ready providers m
        → m target ≡ some good
        → StillGood (visit providers caching name a m)
    unfolding visit
    visit-StillGood m r t = elim (Bool-cases (registered providers name)) [
      | inl reg ↦ rw reg (consult-StillGood m (m name) (r.at name reg) refl r t)
      | inr out ↦ rw out (r, t)
    ]

  -- The round at the target itself returns a reply.
  abbrev Answers : Visit → Type 0
  Answers (return m reply) = IsEmbedded reply
  Answers _ = ⊥

  call_provider-IsEmbedded :
      (a : Attempt) (m : Breakers) (b : Breaker) (o : Outcome)
      → IsVectors o
      → Answers (call_provider caching target a m b o)
  unfolding call_provider
  call_provider-IsEmbedded a m b (vectors vecs) v = tt
  call_provider-IsEmbedded a m b (failed e) v = absurd v

  check_ctx-IsEmbedded :
      (a : Attempt) (m : Breakers) (b : Breaker) (c : Option String)
      → c ≡ none
      → IsVectors a.outcome
      → Answers (check_ctx caching target a m b c)
  unfolding check_ctx
  check_ctx-IsEmbedded a m b (some e) n v = cc
  check_ctx-IsEmbedded a m b none n v = call_provider-IsEmbedded a m b a.outcome v

  allow_closed : (now : ℕ) → good.state ≡ breaker_closed → (allow now good).1 ≡ true
  unfolding allow
  allow_closed now h = ground arith

  visit-Answers :
      (a : Attempt) (m : Breakers)
      → good.state ≡ breaker_closed
      → registered providers target ≡ true
      → a.ctx_err ≡ none
      → IsVectors a.outcome
      → m target ≡ some good
      → Answers (visit providers caching target a m)
  unfolding visit consult
  visit-Answers a m closed reg alive v t =
      rw (reg, t, consult, allow_closed a.now closed)
        (check_ctx-IsEmbedded a (put m target (allow a.now good).0) (allow a.now good).0 a.ctx_err
          alive v)

  after-StillGood :
      (name : String) (log : List (String × Tag))
      (rest : List (String × Tag) → Breakers → Breakers × Reply) (v : Visit)
      → ((log' : List (String × Tag)) (m : Breakers)
          → Ready providers m
          → m target ≡ some good
          → IsEmbedded (rest log' m).1)
      → StillGood v
      → IsEmbedded (after name log rest v).1
  unfolding after
  after-StillGood name log rest (advance m tag) ih s = ih (log ++ (name, tag) ∷ []) m s.0 s.1
  after-StillGood name log rest (halt m tag) ih s = absurd s
  after-StillGood name log rest (return m reply) ih s = s

  after-Answers :
      (name : String) (log : List (String × Tag))
      (rest : List (String × Tag) → Breakers → Breakers × Reply) (v : Visit)
      → Answers v
      → IsEmbedded (after name log rest v).1
  unfolding after
  after-Answers name log rest (advance m tag) s = absurd s
  after-Answers name log rest (halt m tag) s = absurd s
  after-Answers name log rest (return m reply) s = s

-- If the context stays alive and no provider answers that it is rate limited, the walk returns
-- vectors as soon as the chain names a registered provider whose breaker is closed and that
-- answers at its first position, whatever the providers before it did.
pub walk_finds :
    (providers : List String) (caching : Bool) (env : ℕ → Attempt) (target : String)
    (good : Breaker) (before rest : List String) (k : ℕ) (log : List (String × Tag)) (m : Breakers)
    → ((i : ℕ) → Calm (env i))
    → Ready providers m
    → registered providers target ≡ true
    → m target ≡ some good
    → good.state ≡ breaker_closed
    → any (λ name. str_eq name target) before ≡ false
    → IsVectors (env (k + length before)).outcome
    → IsEmbedded (walk providers caching env (before ++ (target ∷ rest)) k log m).1
unfolding walk
walk_finds providers caching env target good [] rest k log m calm r reg t closed first v =
    let here : k + 0 ≡ k = omega arith in
    after-Answers providers caching target good target log (walk providers caching env rest (suc k))
      (visit providers caching target (env k) m)
      (visit-Answers providers caching target good (env k) m closed reg (calm k).alive
        (rw here at v) t)
walk_finds providers caching env target good (name ∷ before) rest k log m calm r reg t closed first
      v =
    let there : k + suc (length before) ≡ suc k + length before = omega arith in
    after-StillGood providers caching target good name log
      (walk providers caching env (before ++ (target ∷ rest)) (suc k))
      (visit providers caching name (env k) m)
      (λ log' m' r' t'.
        walk_finds providers caching env target good before rest (suc k) log' m' calm r' reg t'
          closed (ground arith) (rw there at v))
      (visit-StillGood providers caching target good name (env k) (ground arith) (calm k) m r t)
