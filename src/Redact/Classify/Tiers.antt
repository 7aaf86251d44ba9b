-- ===== src/Redact/Classify/Tiers.antt =====
-- The tier that `classifyWith` decides, and what a stripped payload hides.
use mathlib.Core.List.{Memᴰ}
use mathlib.Core.Option.{some-injective}
use iter.Common.{
  ℕ, ◌+◌, ◌≤◌, ◌≡◌, ◌≢◌, ◌↔◌, ◌⊎◌, refl, sym, ◌∙◌, true, Option, none, some, List, [], ◌∷◌, ◌++◌,
  length, drop, All-append, inl, inr,
}
use iter.Redact.{Finding, redact_all}
use iter.Redact.Coverage.{covered}
use iter.Redact.Verdict.{InRange, redact_all-nil, redact_all_refused_iff}
use iter.Redact.Secrecy.{AgreeOutside, redact_all_secrecy}
use iter.Redact.Scan.{is_prefix, TrufflehogResult, secret_of, Detectors, scan_pii, run_trufflehog}
use iter.Redact.Scan.Occurrences.{all_index_complete, covered-parse}
use iter.Redact.Scan.Ranges.{
  MatchesInRange, scan_pii-AllInRange, run_trufflehog-some, run_trufflehog-AllInRange,
  locked-findings,
}
use iter.Redact.Classify.{dirty, strippable, attempt, decide_tier, conclude, classify_with}

attempt_unchanged :
    (p : List ℕ) (o : Option (List ℕ))
    → (attempt p o).class ≢ strippable
    → (attempt p o).payload ≡ p
unfolding attempt
attempt_unchanged p none n = refl
attempt_unchanged p (some out) n = absurd (n refl)

conclude_unchanged :
    (p : List ℕ) (pii : List Finding) (o : Option (List Finding))
    → (conclude p pii o).class ≢ strippable
    → (conclude p pii o).payload ≡ p
unfolding conclude decide_tier
conclude_unchanged p pii none n = refl
conclude_unchanged p pii (some secrets) n = tier (pii ++ secrets) n
  where
    tier :
        (fs : List Finding) → (decide_tier p fs).class ≢ strippable → (decide_tier p fs).payload ≡ p
    tier [] n = refl
    tier (f ∷ fs) n = attempt_unchanged p (redact_all p (f ∷ fs)) n

-- A payload that is not strippable comes back as it was given.
pub classify_with_unchanged :
    (d : Detectors) (p : List ℕ)
    → (classify_with d p).class ≢ strippable
    → (classify_with d p).payload ≡ p
unfolding classify_with
classify_with_unchanged d p h = conclude_unchanged p (scan_pii d p) (run_trufflehog d p) h

attempt_dirty_iff : (p : List ℕ) (o : Option (List ℕ)) → ((attempt p o).class ≡ dirty) ↔ (o ≡ none)
unfolding attempt
attempt_dirty_iff p none = (λ e. refl, λ e. refl)
attempt_dirty_iff p (some out) = (λ e. cc, λ e. cc)

decide_tier_dirty_iff :
    (p : List ℕ) (fs : List Finding) → ((decide_tier p fs).class ≡ dirty) ↔ (redact_all p fs ≡ none)
unfolding decide_tier
decide_tier_dirty_iff p [] = (λ e. cc, λ e. absurd (redact_all-nil p e))
decide_tier_dirty_iff p (f ∷ fs) = attempt_dirty_iff p (redact_all p (f ∷ fs))

dirty_iff :
    (d : Detectors) (p : List ℕ) (o : Option (List Finding))
    → run_trufflehog d p ≡ o
    → MatchesInRange d p
    → ((conclude p (scan_pii d p) o).class ≡ dirty) ↔ ((o ≡ none) ⊎ (d.address p ≢ []))
unfolding conclude
dirty_iff d p none e h = (λ c. inl refl, λ c. refl)
dirty_iff d p (some secrets) e h =
    let fs = scan_pii d p ++ secrets in
    let ranged =
      All-append (InRange (length p)) (scan_pii d p) secrets (scan_pii-AllInRange d p h)
        (run_trufflehog-AllInRange d p secrets e) in
    let refused = redact_all_refused_iff p fs ranged in
    let tier = decide_tier_dirty_iff p fs in
    let lock = locked-findings d p secrets e in
    (
      λ c. inr (lock.0 (refused.0 (tier.0 c))),
      elim [ inl n ↦ cc | inr a ↦ tier.1 (refused.1 (lock.1 a)) ],
    )

-- With patterns that report ranges of the payload, it is dirty exactly when the secret scan
-- failed or an address was found.
pub classify_with_dirty_iff :
    (d : Detectors) (p : List ℕ)
    → MatchesInRange d p
    → ((classify_with d p).class ≡ dirty) ↔ ((run_trufflehog d p ≡ none) ⊎ (d.address p ≢ []))
unfolding classify_with
classify_with_dirty_iff d p h = dirty_iff d p (run_trufflehog d p) refl h

-- When the secret scan succeeds, the position where a reported non-empty secret begins, wherever it
-- occurs in the payload, is covered by a finding.
pub secret_covered :
    (d : Detectors) (p : List ℕ) (results : List (Option TrufflehogResult)) (res : TrufflehogResult)
    (secrets : List Finding) (o : ℕ)
    → d.trufflehog p ≡ some results
    → Memᴰ (some res) results
    → run_trufflehog d p ≡ some secrets
    → secret_of res ≢ []
    → o + length (secret_of res) ≤ length p
    → is_prefix (secret_of res) (drop o p) ≡ true
    → covered o secrets ≡ true
secret_covered d p results res secrets o t m run ne room here =
    let (rs, r, parsed) = run_trufflehog-some d p secrets run in
    let same : rs ≡ results = some-injective rs results (sym r ∙ t) in
    covered-parse d.upper p rs res o secrets parsed (rw same m)
      (all_index_complete p (secret_of res) o ne room here)

attempt_secrecy :
    (p q : List ℕ) (o : Option (List ℕ))
    → (attempt p o).class ≡ strippable
    → (attempt p o).payload ≡ (attempt q o).payload
unfolding attempt
attempt_secrecy p q none s = cc
attempt_secrecy p q (some out) s = refl

tier_secrecy :
    (fs : List Finding) (p q : List ℕ)
    → AgreeOutside fs p q
    → (decide_tier p fs).class ≡ strippable
    → (decide_tier p fs).payload ≡ (decide_tier q fs).payload
unfolding decide_tier
tier_secrecy [] p q a s = cc
tier_secrecy (f ∷ fs) p q a s =
    rw (← redact_all_secrecy (f ∷ fs) p q a) (attempt_secrecy p q (redact_all p (f ∷ fs)) s)

-- Two payloads with the same findings that agree outside them, the first of them strippable, are
-- forwarded as the same bytes.
pub classify_with_secrecy :
    (d : Detectors) (p q : List ℕ) (secrets : List Finding)
    → run_trufflehog d p ≡ some secrets
    → run_trufflehog d q ≡ some secrets
    → scan_pii d p ≡ scan_pii d q
    → AgreeOutside (scan_pii d p ++ secrets) p q
    → (classify_with d p).class ≡ strippable
    → (classify_with d p).payload ≡ (classify_with d q).payload
unfolding classify_with
classify_with_secrecy d p q secrets rp rq pii agree s =
    rw (rp, rq, ← pii) (tier_secrecy (scan_pii d p ++ secrets) p q agree (rw rp at s))
