-- ===== src/Router/Tests.antt =====
-- Runs of the router, and the theorems at concrete inputs.
use iter.Common.{ℕ, zero, suc, ◌≡◌, refl, false, none, List, [], ◌∷◌, ◌++◌, String}
use iter.Common.Int.{pos}
use iter.Breaker.{BreakerConfig, new_breaker, allow, success, failure}
use iter.Router.{
  ProviderError, Attempt, vectors, failed, Tag, errored, unregistered, error, tried, embedded,
  refused, Router, new_router, put_all, error_tag, call_provider, check_ctx, consult, visit, after,
  walk, lookup_first, enter, embed,
}
use iter.Router.Ready.{ReplyReady, new_router-Ready, embed-Ready}
use iter.Router.Availability.{IsEmbedded, Calm, walk_finds}
use iter.Router.Log.{names, walk_logs_chain}

abbrev cfg : BreakerConfig
cfg = record { failure_threshold = pos 5; recovery_delay = pos 30 }

abbrev router : Router
router = new_router cfg ("voyage" ∷ "openai" ∷ []) ("google" ∷ "voyage" ∷ "openai" ∷ []) false

abbrev plain_error : ProviderError
plain_error = record {
  deadline_exceeded = false;
  canceled = false;
  not_configured = false;
  not_implemented = false;
  rate_limited = false;
}

abbrev down : Attempt
down = record { now = 1; ctx_err = none; outcome = failed plain_error; failed_at = 2 }

abbrev up : Attempt
up = record { now = 3; ctx_err = none; outcome = vectors ((1 ∷ []) ∷ []); failed_at = 3 }

-- The third position answers.
abbrev env : ℕ → Attempt
env zero = down
env (suc zero) = down
env (suc (suc n)) = up

falls_back :
    (embed router (record { model = "m"; inputs = "text" ∷ [] }) none none env).1
    ≡ embedded ((1 ∷ []) ∷ []) none
unfolding embed enter lookup_first walk after visit consult check_ctx call_provider new_router
    put_all new_breaker allow success failure
falls_back = refl

embed-Ready_example :
    ReplyReady router.providers
      (embed router (record { model = "m"; inputs = "text" ∷ [] }) none none env)
unfolding new_router
embed-Ready_example =
    embed-Ready router (record { model = "m"; inputs = "text" ∷ [] }) none none env
      (new_router-Ready cfg router.providers router.priority false)

calm : (i : ℕ) → Calm (env i)
calm zero = record { alive = refl; unlimited = refl }
calm (suc zero) = record { alive = refl; unlimited = refl }
calm (suc (suc i)) = record { alive = refl; unlimited = tt }

walk_finds_example :
    IsEmbedded
      (walk router.providers false env
        (("google" ∷ "voyage" ∷ []) ++ ("openai" ∷ []))
        0
        []
        router.breakers).1
unfolding new_router put_all
walk_finds_example =
    walk_finds router.providers false env "openai" (new_breaker cfg) ("google" ∷ "voyage" ∷ []) [] 0
      [] router.breakers calm (new_router-Ready cfg router.providers router.priority false) refl
      refl (unfold new_breaker in refl) refl tt

abbrev all_down : ℕ → Attempt
all_down i = down

abbrev tried_both : List (String × Tag)
tried_both = ("google", unregistered) ∷ ("voyage", errored error) ∷ []

fails_both :
    (walk router.providers false all_down ("google" ∷ "voyage" ∷ []) 0 [] router.breakers).1
    ≡ refused (tried tried_both)
unfolding walk after visit consult check_ctx call_provider new_router put_all new_breaker allow
    success failure error_tag
fails_both = refl

walk_logs_chain_run : names tried_both ≡ [] ++ ("google" ∷ "voyage" ∷ [])
walk_logs_chain_run =
    walk_logs_chain router.providers false all_down ("google" ∷ "voyage" ∷ []) 0 [] tried_both
      router.breakers (λ i. refl) fails_both
