-- ===== src/Router.antt =====
-- internal/embed/router.go: the embedding router, a fallback chain of providers behind their
-- breakers. What lies outside (the providers' answers, the clock, the context) is given for each
-- position of the chain; the cache by its answer to the lookup.
pub mod Log
pub mod Ready
pub mod Availability
mod Tests
use iter.Common.{
  ℕ, suc, Bool, true, false, not, Option, none, some, List, [], ◌∷◌, ◌++◌, String, str_eq, length,
  ◌==◌, ◌&&◌, if◌then◌else◌, any,
}
use iter.Breaker.{Breaker, BreakerConfig, new_breaker, allow, success, failure}

-- The sentinel errors that `errors.Is` finds in a provider's error.
pub record ProviderError : Type 0 where
  pub deadline_exceeded : Bool
  pub canceled : Bool
  pub not_configured : Bool
  pub not_implemented : Bool
  pub rate_limited : Bool

pub data Outcome : Type 0 where
  vectors : List (List ℕ) → Outcome
  failed : ProviderError → Outcome

-- What the walk meets at one position: the clock in `allow`, the context's error before the call,
-- the provider's answer, and the clock in `failure`.
pub record Attempt : Type 0 where
  pub now : ℕ
  pub ctx_err : Option String
  pub outcome : Outcome
  pub failed_at : ℕ

pub data ErrorTag : Type 0 where
  deadline canceled unconfigured not_implemented error : ErrorTag

pub data Tag : Type 0 where
  unregistered : Tag
  refused_by_breaker : Tag
  ctx : String → Tag
  errored : ErrorTag → Tag

pub data EmbedError : Type 0 where
  no_inputs : EmbedError
  no_chain : EmbedError
  ctx_expired : EmbedError
  provider_rate_limited : String → EmbedError
  tried : List (String × Tag) → EmbedError
  nil_breaker : EmbedError

-- `write` is the vector handed to the cache.
pub data Reply : Type 0 where
  embedded : (vecs : List (List ℕ)) (write : Option (List ℕ)) → Reply
  cached : List ℕ → Reply
  refused : EmbedError → Reply

-- `errors.Is(err, ErrAllProvidersUnavailable)`; `nil_breaker` stands for a nil dereference.
abbrev pub wraps_unavailable : EmbedError → Bool
wraps_unavailable no_inputs = false
wraps_unavailable no_chain = true
wraps_unavailable ctx_expired = true
wraps_unavailable (provider_rate_limited name) = false
wraps_unavailable (tried log) = true
wraps_unavailable nil_breaker = false

-- Go's map from names to breakers.
abbrev pub Breakers : Type 0
Breakers = String → Option Breaker

abbrev pub put : Breakers → String → Breaker → Breakers
put m k b j = if str_eq k j then some b else m j

pub record Router : Type 0 where
  pub providers : List String
  pub breakers : Breakers
  pub priority : List String
  pub has_cache : Bool

put_all : BreakerConfig → List String → Breakers → Breakers
put_all cfg [] m = m
put_all cfg (p ∷ ps) m = put_all cfg ps (put m p (new_breaker cfg))

pub new_router : BreakerConfig → List String → List String → Bool → Router
new_router cfg providers priority has_cache = record {
  providers = providers;
  breakers = put_all cfg providers (λ j. none);
  priority = priority;
  has_cache = has_cache;
}

-- `providerByName` finds a provider.
abbrev pub registered : List String → String → Bool
registered providers name = any (λ p. str_eq p name) providers

unfoldable pub error_tag : ProviderError → ErrorTag
error_tag e =
    if e.deadline_exceeded
    then deadline
    else if e.canceled
    then canceled
    else if e.not_configured
    then unconfigured
    else if e.not_implemented
    then not_implemented
    else error

pub record EmbedRequest : Type 0 where
  pub model : String
  pub inputs : List String

-- One round of the walk: go on with a tag in the log, break, or return.
pub data Visit : Type 0 where
  advance : Breakers → Tag → Visit
  halt : Breakers → Tag → Visit
  return : Breakers → Reply → Visit

abbrev to_cache : Bool → List (List ℕ) → Option (List ℕ)
to_cache true (v ∷ []) = some v
to_cache _ _ = none

-- The provider's call; `b` is its breaker after `allow`.
pub call_provider : Bool → String → Attempt → Breakers → Breaker → Outcome → Visit
call_provider caching name a m b (vectors vecs) =
    return (put m name (success b)) (embedded vecs (to_cache caching vecs))
call_provider caching name a m b (failed e) =
    let m' = put m name (failure a.failed_at b) in
    if e.rate_limited
    then return m' (refused (provider_rate_limited name))
    else advance m' (errored (error_tag e))

-- The context is checked again after `allow`.
pub check_ctx : Bool → String → Attempt → Breakers → Breaker → Option String → Visit
check_ctx caching name a m b (some e) = halt m (ctx e)
check_ctx caching name a m b none = call_provider caching name a m b a.outcome

pub consult : Bool → String → Attempt → Breakers → Option Breaker → Visit
consult caching name a m none = return m (refused nil_breaker)
consult caching name a m (some b) =
    let (b', allowed) = allow a.now b in
    if allowed
    then check_ctx caching name a (put m name b') b' a.ctx_err
    else advance (put m name b') refused_by_breaker

pub visit : List String → Bool → String → Attempt → Breakers → Visit
visit providers caching name a m =
    if registered providers name then consult caching name a m (m name) else advance m unregistered

-- What follows a round: the next position with a longer log, or the end.
pub after :
    String
    → List (String × Tag)
    → (List (String × Tag) → Breakers → Breakers × Reply)
    → Visit
    → Breakers × Reply
after name log rest (advance m tag) = rest (log ++ (name, tag) ∷ []) m
after name log rest (halt m tag) = (m, refused (tried (log ++ (name, tag) ∷ [])))
after name log rest (return m reply) = (m, reply)

-- The loop over the chain, from position `k` on, with the attempts logged so far.
pub walk :
    List String
    → Bool
    → (ℕ → Attempt)
    → List String
    → ℕ
    → List (String × Tag)
    → Breakers
    → Breakers × Reply
walk providers caching env [] k log m = (m, refused (tried log))
walk providers caching env (name ∷ chain) k log m =
    after name log (walk providers caching env chain (suc k))
      (visit providers caching name (env k) m)

pub lookup_first : Router → Bool → (ℕ → Attempt) → Option (List ℕ) → Breakers × Reply
lookup_first r caching env (some vec) = (r.breakers, cached vec)
lookup_first r caching env none = walk r.providers caching env r.priority 0 [] r.breakers

-- The context is checked before any work.
pub enter : Router → Bool → (ℕ → Attempt) → Option (List ℕ) → Option String → Breakers × Reply
enter r caching env hit (some e) = (r.breakers, refused ctx_expired)
enter r caching env hit none = lookup_first r caching env (if caching then hit else none)

abbrev pub caches : Router → EmbedRequest → Bool
caches r req = (length req.inputs == 1) && r.has_cache

-- `hit` is the cache's answer, asked for a single input only.
pub embed :
    Router → EmbedRequest → Option String → Option (List ℕ) → (ℕ → Attempt) → Breakers × Reply
embed r req entry_ctx hit env =
    if length req.inputs == 0
    then (r.breakers, refused no_inputs)
    else if length r.priority == 0
    then (r.breakers, refused no_chain)
    else enter r (caches r req) env hit entry_ctx
