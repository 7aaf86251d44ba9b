-- ===== src/RateLimit.antt =====
-- internal/api/middleware/ratelimit.go: the per-token sliding window over a Redis sorted set, and
-- the decision of the middleware. Times are milliseconds.
pub mod Counts
pub mod Window
pub mod Bypass
pub mod RetryAfter
pub mod Verdict
mod Tests
use text.Mathlib.Text.{starts_with}
use iter.Common.{
  ℕ, zero, suc, ◌+◌, ◌*◌, ◌-◌, ◌/◌, ◌≤◌, ◌≡◌, Bool, true, false, not, ◌&&◌, Option, none, some,
  List, [], ◌∷◌, count_if, keep_if, String, str_eq, ltb, leb, ◌==◌, if◌then◌else◌, length, any, All,
}
use iter.Common.Int.{ℤ}

abbrev pub rate_limit_window_ms : ℕ
rate_limit_window_ms = 60 * 1000

abbrev pub Entry : Type 0
Entry = ℕ × String

abbrev pub not_member : String → Entry → Bool
not_member m e = not (str_eq e.1 m)

-- Redis is not part of the repository. A key of sorted-set type with a time to live is a value of
-- `Z`; the laws are what Redis documents of the commands that the script calls, read through the
-- list of the set's entries and the time at which the key expires.
pub record SortedSet : Type 1 where
  pub Z : Type 0
  pub entries : Z → List Entry
  pub deadline : Z → ℕ
  -- what the key holds at a time
  pub live : ℕ → Z → Z
  -- ZREMRANGEBYSCORE key -inf (now - window), ZCARD, ZRANGE 0 0 WITHSCORES, ZADD, PEXPIRE
  pub evict : ℕ → ℕ → Z → Z
  pub card : Z → ℕ
  pub first : Z → Option ℕ
  pub add : ℕ → String → Z → Z
  pub expire : ℕ → Z → Z
  pub entries-live :
      (now : ℕ) (z : Z) → entries (live now z) ≡ (if leb (deadline z) now then [] else entries z)
  pub deadline-live : (now : ℕ) (z : Z) → deadline (live now z) ≡ deadline z
  pub entries-evict :
      (now window : ℕ) (z : Z)
      → entries (evict now window z) ≡ keep_if (λ e. ltb now (e.0 + window)) (entries z)
  pub deadline-evict : (now window : ℕ) (z : Z) → deadline (evict now window z) ≡ deadline z
  pub card-entries : (z : Z) → card z ≡ length (entries z)
  pub first-none : (z : Z) → first z ≡ none → entries z ≡ []
  pub first-least : (z : Z) (s : ℕ) → first z ≡ some s → any (λ e. e.0 == s) (entries z) ≡ true
  pub entries-add :
      (s : ℕ) (m : String) (z : Z) (p : Entry → Bool)
      → count_if p (entries (add s m z)) ≡ count_if p ((s, m) ∷ keep_if (not_member m) (entries z))
  pub entries-expire : (at : ℕ) (z : Z) → entries (expire at z) ≡ entries z
  pub deadline-expire : (at : ℕ) (z : Z) → deadline (expire at z) ≡ at

-- The first result is the admission flag, the second the oldest score.
pub record ScriptResult (Z : Type 0) : Type 0 where
  pub key : Z
  pub allowed : Bool
  pub oldest : ℕ

abbrev score_or_zero : Option ℕ → ℕ
score_or_zero none = 0
score_or_zero (some s) = s

-- The commands that write, on admission.
pub record_request : (S : SortedSet) → ℕ → ℕ → String → S.Z → S.Z
record_request S now window member z = S.expire (now + (window + 1000)) (S.add now member z)

unfoldable pub rate_limit_script : (S : SortedSet) → ℕ → ℕ → ℕ → String → S.Z → ScriptResult S.Z
unfolding record_request
rate_limit_script S now window limit member z =
    let kept = S.evict now window (S.live now z) in
    let count = S.card kept in
    let oldest = if ltb 0 count then score_or_zero (S.first kept) else 0 in
    if leb limit count then record { key = kept; allowed = false; oldest = oldest } else record {
      key = record_request S now window member kept;
      allowed = true;
      oldest = if oldest == 0 then now else oldest;
    }

-- The seconds after which the oldest entry has left the window, rounded up and at least one. The
-- subtraction of the source may be negative, so its sign is tested first.
unfoldable pub compute_retry_after : ℕ → ℕ → ℕ → ℕ
compute_retry_after now oldest window =
    if oldest == 0
    then (window + 999) / 1000
    else if leb (oldest + window) now
    then 1
    else let secs = (oldest + window - now + 999) / 1000 in if secs == 0 then 1 else secs

pub record Limits : Type 0 where
  pub cli_limit : ℕ
  pub daemon_limit : ℕ
  pub fallback_limit : ℕ
  pub skip_prefixes : List String

abbrev pub default_limits : List String → Limits
default_limits skips = record {
  cli_limit = 100;
  daemon_limit = 600;
  fallback_limit = 100;
  skip_prefixes = skips;
}

unfoldable pub limit_for_token_type : String → Limits → ℕ
limit_for_token_type token_type cfg =
    if str_eq token_type "cli"
    then cfg.cli_limit
    else if str_eq token_type "daemon"
    then cfg.daemon_limit
    else cfg.fallback_limit

abbrev pub path_has_any_prefix : String → List String → Bool
path_has_any_prefix path prefixes = any (λ p. not (str_eq p "") && starts_with path p) prefixes

-- What the middleware does with a request: pass it on, or answer 429 with a limit and a delay.
pub data Decision : Type 0 where
  forward : Decision
  too_many_requests : (limit retry_after : ℕ) → Decision

-- What stands between the middleware and the script's result.
pub data Redis (Z : Type 0) : Type 0 where
  no_client : Redis Z
  script_fails : Redis Z
  answers : Z → Redis Z

answer_of : (S : SortedSet) → ℕ → ℕ → ScriptResult S.Z → Redis S.Z × Decision
answer_of S now limit res = if res.allowed then (answers res.key, forward) else (
  answers res.key,
  too_many_requests limit (compute_retry_after now res.oldest rate_limit_window_ms),
)

check_bucket : (S : SortedSet) → ℕ → ℕ → String → Redis S.Z → Redis S.Z × Decision
check_bucket S now limit member no_client = (no_client, forward)
check_bucket S now limit member script_fails = (script_fails, forward)
check_bucket S now limit member (answers z) =
    answer_of S now limit (rate_limit_script S now rate_limit_window_ms limit member z)

check_principal :
    (S : SortedSet) → Limits → ℕ → String → Option String → Redis S.Z → Redis S.Z × Decision
check_principal S cfg now member none redis = (redis, forward)
check_principal S cfg now member (some token_type) redis =
    check_bucket S now (limit_for_token_type token_type cfg) member redis

-- `principal` is the token type of the request's principal, `member` its X-Request-ID.
unfoldable pub rate_limit :
    (S : SortedSet)
    → Limits
    → ℕ
    → String
    → String
    → Option String
    → Redis S.Z
    → Redis S.Z × Decision
unfolding check_principal check_bucket answer_of
rate_limit S cfg now path member principal redis =
    if path_has_any_prefix path cfg.skip_prefixes
    then (redis, forward)
    else check_principal S cfg now member principal redis
