-- ===== src/Router/Ready.antt =====
-- Every registered provider has a breaker in a sound state, whatever the providers answer.
use iter.Common.{
  ℕ, suc, ◌≡◌, ◌≢◌, refl, Bool, true, Option, none, some, List, [], ◌∷◌, ◌++◌, String, str_eq,
  length, ◌==◌, if◌then◌else◌, Bool-cases, inl, inr,
}
use iter.Breaker.{
  Breaker, BreakerConfig, new_breaker, allow, success, failure, ask, succeed, fail, step,
}
use iter.Breaker.Invariant.{Inv, new_breaker-Inv, step-Inv}
use iter.Router.{
  Attempt, Outcome, vectors, failed, Tag, nil_breaker, Reply, refused, Breakers, put, put_all,
  Router, new_router, registered, EmbedRequest, Visit, advance, halt, return, call_provider,
  check_ctx, consult, visit, after, walk, lookup_first, enter, caches, embed,
}

abbrev pub HasBreaker : Breakers → String → Type 0
HasBreaker m name = (b : Breaker) × (m name ≡ some b) × Inv b

pub record Ready (providers : List String) (m : Breakers) : Type 0 where
  pub at : (name : String) → registered providers name ≡ true → HasBreaker m name

put-HasBreaker :
    (m : Breakers) (k j : String) (b : Breaker) → Inv b → HasBreaker m j → HasBreaker (put m k b) j
put-HasBreaker m k j b i (c, e, ic) = elim (Bool-cases (str_eq k j)) [
  | inl same ↦ (b, rw same refl, i)
  | inr other ↦ (c, rw other e, ic)
]

pub put-Ready :
    (providers : List String) (m : Breakers) (name : String) (b : Breaker)
    → Inv b
    → Ready providers m
    → Ready providers (put m name b)
put-Ready providers m name b i r = record { at = λ j reg. put-HasBreaker m name j b i (r.at j reg) }

-- What a round leaves is ready, and it does not fail for want of a breaker.
abbrev VisitReady : List String → Visit → Type 0
VisitReady providers (advance m tag) = Ready providers m
VisitReady providers (halt m tag) = Ready providers m
VisitReady providers (return m reply) = Ready providers m × (reply ≢ refused nil_breaker)

module _ (providers : List String) (caching : Bool) (name : String) (a : Attempt) where
  call_provider-Ready :
      (m : Breakers) (b : Breaker) (o : Outcome)
      → Inv b
      → Ready providers m
      → VisitReady providers (call_provider caching name a m b o)
  unfolding call_provider step
  call_provider-Ready m b (vectors vecs) i r =
      (put-Ready providers m name (success b) (step-Inv succeed b i) r, λ e. cc)
  call_provider-Ready m b (failed e) i r =
      let r' =
        put-Ready providers m name (failure a.failed_at b) (step-Inv (fail a.failed_at) b i) r in
      elim (Bool-cases e.rate_limited) [
        | inl limited ↦ rw limited (r', λ q. cc)
        | inr other ↦ rw other r'
      ]

  check_ctx-Ready :
      (m : Breakers) (b : Breaker) (c : Option String)
      → Inv b
      → Ready providers m
      → VisitReady providers (check_ctx caching name a m b c)
  unfolding check_ctx
  check_ctx-Ready m b (some e) i r = r
  check_ctx-Ready m b none i r = call_provider-Ready m b a.outcome i r

  consult-Ready :
      (m : Breakers) (o : Option Breaker)
      → HasBreaker m name
      → m name ≡ o
      → Ready providers m
      → VisitReady providers (consult caching name a m o)
  unfolding consult step
  consult-Ready m none (b, e, i) q r = cc
  consult-Ready m (some c) (b, e, i) q r =
      let same : b ≡ c = cc in
      let i' : Inv (allow a.now c).0 = step-Inv (ask a.now) c (rw (← same) i) in
      let r' = put-Ready providers m name (allow a.now c).0 i' r in
      elim (Bool-cases (allow a.now c).1) [
        | inl allowed ↦
            rw allowed
              (check_ctx-Ready (put m name (allow a.now c).0) (allow a.now c).0 a.ctx_err i' r')
        | inr no_go ↦ rw no_go r'
      ]

  visit-Ready :
      (m : Breakers) → Ready providers m → VisitReady providers (visit providers caching name a m)
  unfolding visit
  visit-Ready m r = elim (Bool-cases (registered providers name)) [
    | inl reg ↦ rw reg (consult-Ready m (m name) (r.at name reg) refl r)
    | inr out ↦ rw out r
  ]

-- The router's result: ready breakers, and no missing one met.
abbrev pub ReplyReady : List String → Breakers × Reply → Type 0
ReplyReady providers r = Ready providers r.0 × (r.1 ≢ refused nil_breaker)

after-Ready :
    (providers : List String) (name : String) (log : List (String × Tag))
    (rest : List (String × Tag) → Breakers → Breakers × Reply) (v : Visit)
    → ((log' : List (String × Tag)) (m : Breakers)
        → Ready providers m
        → ReplyReady providers (rest log' m))
    → VisitReady providers v
    → ReplyReady providers (after name log rest v)
unfolding after
after-Ready providers name log rest (advance m tag) ih r = ih (log ++ (name, tag) ∷ []) m r
after-Ready providers name log rest (halt m tag) ih r = (r, λ e. cc)
after-Ready providers name log rest (return m reply) ih r = r

module _ (providers : List String) (caching : Bool) (env : ℕ → Attempt) where
  walk-Ready :
      (chain : List String) (k : ℕ) (log : List (String × Tag)) (m : Breakers)
      → Ready providers m
      → ReplyReady providers (walk providers caching env chain k log m)
  unfolding walk
  walk-Ready [] k log m r = (r, λ e. cc)
  walk-Ready (name ∷ chain) k log m r =
      after-Ready providers name log (walk providers caching env chain (suc k))
        (visit providers caching name (env k) m) (walk-Ready chain (suc k))
        (visit-Ready providers caching name (env k) m r)

put_all-keeps :
    (cfg : BreakerConfig) (ps : List String) (m : Breakers) (j : String)
    → HasBreaker m j
    → HasBreaker (put_all cfg ps m) j
unfolding put_all
put_all-keeps cfg [] m j h = h
put_all-keeps cfg (p ∷ ps) m j h =
    put_all-keeps cfg ps (put m p (new_breaker cfg)) j
      (put-HasBreaker m p j (new_breaker cfg) (new_breaker-Inv cfg) h)

put_all-adds :
    (cfg : BreakerConfig) (ps : List String) (m : Breakers) (j : String)
    → registered ps j ≡ true
    → HasBreaker (put_all cfg ps m) j
unfolding put_all
put_all-adds cfg [] m j h = cc
put_all-adds cfg (p ∷ ps) m j h = elim (Bool-cases (str_eq p j)) [
  | inl same ↦
      put_all-keeps cfg ps (put m p (new_breaker cfg)) j
        (new_breaker cfg, rw same refl, new_breaker-Inv cfg)
  | inr other ↦ put_all-adds cfg ps (put m p (new_breaker cfg)) j (rw other at h)
]

-- A new router has a sound breaker for each of its providers.
pub new_router-Ready :
    (cfg : BreakerConfig) (providers priority : List String) (has_cache : Bool)
    → Ready providers (new_router cfg providers priority has_cache).breakers
unfolding new_router
new_router-Ready cfg providers priority has_cache = record {
  at = put_all-adds cfg providers (λ j. none);
}

lookup_first-Ready :
    (r : Router) (caching : Bool) (env : ℕ → Attempt) (hit : Option (List ℕ))
    → Ready r.providers r.breakers
    → ReplyReady r.providers (lookup_first r caching env hit)
unfolding lookup_first
lookup_first-Ready r caching env (some vec) h = (h, λ e. cc)
lookup_first-Ready r caching env none h =
    walk-Ready r.providers caching env r.priority 0 [] r.breakers h

enter-Ready :
    (r : Router) (caching : Bool) (env : ℕ → Attempt) (hit : Option (List ℕ)) (c : Option String)
    → Ready r.providers r.breakers
    → ReplyReady r.providers (enter r caching env hit c)
unfolding enter
enter-Ready r caching env hit (some e) h = (h, λ q. cc)
enter-Ready r caching env hit none h =
    lookup_first-Ready r caching env (if caching then hit else none) h

-- Whatever the providers, the clock, the context and the cache do, a call leaves every provider
-- with a breaker that satisfies the invariant, and never meets a missing breaker.
pub embed-Ready :
    (r : Router) (req : EmbedRequest) (entry_ctx : Option String) (hit : Option (List ℕ))
    (env : ℕ → Attempt)
    → Ready r.providers r.breakers
    → ReplyReady r.providers (embed r req entry_ctx hit env)
unfolding embed
embed-Ready r req entry_ctx hit env h = elim (Bool-cases (length req.inputs == 0)) [
  | inl empty ↦ rw empty (h, λ e. cc)
  | inr inputs ↦ elim (Bool-cases (length r.priority == 0)) [
    | inl none_left ↦ rw (inputs, none_left) (h, λ e. cc)
    | inr chain ↦ rw (inputs, chain) (enter-Ready r (caches r req) env hit entry_ctx h)
  ]
]
