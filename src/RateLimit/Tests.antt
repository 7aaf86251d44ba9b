-- ===== src/RateLimit/Tests.antt =====
-- A sorted set kept as a list, and the theorems over it.
use iter.Common.{
  ◌-◌, ◌*◌, ◌<◌, ◌↔◌, ℕ, ◌+◌, ◌≡◌, ◌≤◌, refl, sym, ap, subst, Bool, true, ltb, leb, ◌==◌, ==_iff,
  ◌||◌, if◌then◌else◌, Option, none, some, List, [], ◌∷◌, count_if, keep_if, length, any, All,
  Bool-cases, inl, inr, arith,
}
use iter.RateLimit.{
  Limits, compute_retry_after, Entry, not_member, SortedSet, default_limits, forward, answers,
  rate_limit, rate_limit_script, record_request, limit_for_token_type,
}
use iter.RateLimit.RetryAfter.{compute_retry_after_tight}
use iter.RateLimit.Verdict.{rate_limit_forwards_iff}
use iter.RateLimit.Window.{within, admissions, window_limit}
use iter.RateLimit.Bypass.{answers_to, IsTrue, repeated_member_unlimited}

record Keyed : Type 0 where
  pub held : List Entry
  pub until : ℕ

abbrev smaller : ℕ → Option ℕ → ℕ
smaller s none = s
smaller s (some t) = if leb s t then s else t

abbrev least : List Entry → Option ℕ
least [] = none
least (e ∷ entries) = some (smaller e.0 (least entries))

least-any :
    (entries : List Entry) (s : ℕ) → least entries ≡ some s → any (λ e. e.0 == s) entries ≡ true
least-any [] s h = absurd (ground (arith, h))
least-any (e ∷ entries) s h =
    subst (λ t. any (λ x. x.0 == t) (e ∷ entries) ≡ true) (some_same h)
      (by_rest (least entries) refl (λ t k. least-any entries t k))
  where
    some_same : {m n : ℕ} → some m ≡ some n → m ≡ n
    some_same {m} p = ap (λ o. elim o [ none ↦ m | some x ↦ x ]) p

    own : (b : Bool) → ((e.0 == e.0) || b) ≡ true
    own b = rw ((==_iff e.0 e.0).1 refl) refl

    right : (b c : Bool) → c ≡ true → (b || c) ≡ true
    right b c k = ground (arith, k)

    by_rest :
        (o : Option ℕ)
        → least entries ≡ o
        → ((t : ℕ) → least entries ≡ some t → any (λ x. x.0 == t) entries ≡ true)
        → any (λ x. x.0 == smaller e.0 o) (e ∷ entries) ≡ true
    by_rest none k rest = own (any (λ x. x.0 == e.0) entries)
    by_rest (some t) k rest = elim (Bool-cases (leb e.0 t)) [
      | inl l ↦
          subst (λ v. any (λ x. x.0 == v) (e ∷ entries) ≡ true)
            (sym (ap {B = ℕ} (λ b. if b then e.0 else t) l)) (own (any (λ x. x.0 == e.0) entries))
      | inr l ↦
          subst (λ v. any (λ x. x.0 == v) (e ∷ entries) ≡ true)
            (sym (ap {B = ℕ} (λ b. if b then e.0 else t) l))
            (right (e.0 == t) (any (λ x. x.0 == t) entries) (rest t k))
    ]

least-none : (entries : List Entry) → least entries ≡ none → entries ≡ []
least-none [] h = refl
least-none (e ∷ entries) h = absurd (ground (arith, h))

abbrev in_memory : SortedSet
in_memory = record {
  Z = Keyed;
  entries = λ z. z.held;
  deadline = λ z. z.until;
  live = λ now z. record z { held = if leb z.until now then [] else z.held };
  evict = λ now window z. record z { held = keep_if (λ e. ltb now (e.0 + window)) z.held };
  card = λ z. length z.held;
  first = λ z. least z.held;
  add = λ s m z. record z { held = (s, m) ∷ keep_if (not_member m) z.held };
  expire = λ at z. record z { until = at };
  entries-live = λ now z. refl;
  deadline-live = λ now z. refl;
  entries-evict = λ now window z. refl;
  deadline-evict = λ now window z. refl;
  card-entries = λ z. refl;
  first-none = λ z h. least-none z.held h;
  first-least = λ z s h. least-any z.held s h;
  entries-add = λ s m z p. refl;
  entries-expire = λ at z. refl;
  deadline-expire = λ at z. refl;
}

abbrev empty : Keyed
empty = record { held = []; until = 0 }

abbrev requests : List Entry
requests = (1000, "a") ∷ (1500, "b") ∷ (1800, "c") ∷ (2000, "d") ∷ (2100, "e") ∷ []

-- With a window of a second and a limit of two: "c" is refused, "d" comes as "a" leaves.
admits : admissions in_memory 1000 2 requests empty [] ≡ 2000 ∷ 1500 ∷ 1000 ∷ []
unfolding rate_limit_script record_request
admits = refl

passes :
    (rate_limit in_memory
      (default_limits ("/health" ∷ []))
      5
      "/v1/x"
      "r"
      (some "cli")
      (answers empty)).1
    ≡ forward
unfolding rate_limit rate_limit_script limit_for_token_type
passes = refl

window_limit_example :
    count_if (within 1000 1500) (admissions in_memory 1000 2 requests empty []) ≤ 2
window_limit_example =
    window_limit in_memory 1000 2 requests empty 1500 refl
      (omega arith, (omega arith, (omega arith, (omega arith, (omega arith, tt)))))
      (
        (refl, (refl, (refl, (refl, tt)))),
        ((refl, (refl, (refl, tt))), ((refl, (refl, tt)), ((refl, tt), (tt, tt)))),
      )

repeated_member_unlimited_example :
    All IsTrue (answers_to in_memory 1000 2 "a" (1 ∷ 2 ∷ 3 ∷ 4 ∷ []) empty)
repeated_member_unlimited_example =
    repeated_member_unlimited in_memory 1000 2 "a" (omega arith) (1 ∷ 2 ∷ 3 ∷ 4 ∷ []) empty
      (omega arith) refl

compute_retry_after_tight_example :
    (1 ≤ compute_retry_after 5000 1500 60000)
    × (1500 + 60000 ≤ 5000 + 1000 * compute_retry_after 5000 1500 60000)
    × (5000 + 1000 * (compute_retry_after 5000 1500 60000 - 1) < 1500 + 60000)
compute_retry_after_tight_example =
    compute_retry_after_tight 5000 1500 60000 (omega arith) (omega arith)

abbrev limits : Limits
limits = default_limits ("/health" ∷ [])

rate_limit_forwards_iff_run :
    ((rate_limit in_memory limits 5 "/v1/x" "r" (some "cli") (answers empty)).1 ≡ forward)
    ↔ (length (keep_if (λ e. ltb 5 (e.0 + 60000)) empty.held) < limit_for_token_type "cli" limits)
rate_limit_forwards_iff_run =
    rate_limit_forwards_iff in_memory limits 5 "/v1/x" "r" "cli" empty refl
