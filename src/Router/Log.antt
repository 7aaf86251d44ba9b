-- ===== src/Router/Log.antt =====
-- The attempt log of a walk that finds no vectors.
use iter.Common.{
  ℕ, suc, ◌≡◌, ◌∙◌, Bool, Option, none, some, List, [], ◌∷◌, ◌++◌, map, String, Bool-cases, inl,
  inr,
}
use mathlib.Core.List.{append_assoc, map-append, append-nil}
use iter.Breaker.{Breaker, allow}
use iter.Router.{
  Attempt, Outcome, vectors, failed, Tag, tried, Reply, refused, Breakers, put, registered, Visit,
  advance, halt, return, call_provider, check_ctx, consult, visit, after, walk,
}

abbrev IsTried : Reply → Type 0
IsTried (refused (tried log)) = Unit
IsTried _ = ⊥

-- A round goes on, or returns a reply that is no attempt log.
abbrev Decides : Visit → Type 0
Decides (advance m tag) = Unit
Decides (halt m tag) = ⊥
Decides (return m reply) = ¬ (IsTried reply)

module _ (providers : List String) (caching : Bool) (name : String) (a : Attempt)
    (alive : a.ctx_err ≡ none) where
  call_provider-Decides :
      (m : Breakers) (b : Breaker) (o : Outcome) → Decides (call_provider caching name a m b o)
  unfolding call_provider
  call_provider-Decides m b (vectors vecs) = λ t. t
  call_provider-Decides m b (failed e) = elim (Bool-cases e.rate_limited) [
    | inl l ↦ rw l (λ t. t)
    | inr l ↦ rw l tt
  ]

  check_ctx-Decides :
      (m : Breakers) (b : Breaker) (c : Option String)
      → c ≡ none
      → Decides (check_ctx caching name a m b c)
  unfolding check_ctx
  check_ctx-Decides m b (some e) n = cc
  check_ctx-Decides m b none n = call_provider-Decides m b a.outcome

  consult-Decides : (m : Breakers) (o : Option Breaker) → Decides (consult caching name a m o)
  unfolding consult
  consult-Decides m none = λ t. t
  consult-Decides m (some b) = elim (Bool-cases (allow a.now b).1) [
    | inl go ↦
        rw go (check_ctx-Decides (put m name (allow a.now b).0) (allow a.now b).0 a.ctx_err alive)
    | inr no_go ↦ rw no_go tt
  ]

  visit-Decides : (m : Breakers) → Decides (visit providers caching name a m)
  unfolding visit
  visit-Decides m = elim (Bool-cases (registered providers name)) [
    | inl reg ↦ rw reg (consult-Decides m (m name))
    | inr out ↦ rw out tt
  ]

abbrev pub names : List (String × Tag) → List String
names log = map (λ e. e.0) log

IsTried-of :
    (reply : Reply) (log : List (String × Tag)) → reply ≡ refused (tried log) → IsTried reply
IsTried-of reply log e = rw e tt

after_log :
    (name : String) (chain : List String) (log log' : List (String × Tag))
    (rest : List (String × Tag) → Breakers → Breakers × Reply) (v : Visit)
    → ((l : List (String × Tag)) (m : Breakers)
        → (rest l m).1 ≡ refused (tried log')
        → names log' ≡ names l ++ chain)
    → Decides v
    → (after name log rest v).1 ≡ refused (tried log')
    → names log' ≡ names log ++ (name ∷ chain)
unfolding after
after_log name chain log log' rest (advance m tag) ih d e =
    ih (log ++ (name, tag) ∷ []) m e ∙ simp (map-append, append_assoc)
after_log name chain log log' rest (halt m tag) ih d e = absurd d
after_log name chain log log' rest (return m reply) ih d e = absurd (d (IsTried-of reply log' e))

-- While the context stays alive, a walk that fails has logged one attempt for each name of the
-- chain, in the chain's order.
pub walk_logs_chain :
    (providers : List String) (caching : Bool) (env : ℕ → Attempt) (chain : List String) (k : ℕ)
    (log log' : List (String × Tag)) (m : Breakers)
    → ((i : ℕ) → (env i).ctx_err ≡ none)
    → (walk providers caching env chain k log m).1 ≡ refused (tried log')
    → names log' ≡ names log ++ chain
unfolding walk
walk_logs_chain providers caching env [] k log log' m alive e =
    let same : log ≡ log' = cc in rw (← same, append-nil)
walk_logs_chain providers caching env (name ∷ chain) k log log' m alive e =
    after_log name chain log log' (walk providers caching env chain (suc k))
      (visit providers caching name (env k) m)
      (λ l m'. walk_logs_chain providers caching env chain (suc k) l log' m' alive)
      (visit-Decides providers caching name (env k) (alive k) m) e
