-- ===== src/Redact/Scan/Ranges.antt =====
-- The findings lie inside the payload, and only addresses are not redactable.
use mathlib.Core.Option.{some-injective}
use iter.Common.{
  ℕ, ◌≤◌, ◌≡◌, ◌≢◌, ◌↔◌, refl, subst, Bool, true, false, ◌||◌, Option, none, some, List, [], ◌∷◌,
  ◌++◌, length, not, any, All, All-append, arith, Option-cases, inl, inr,
}
use iter.Common.Bytes.{bytes}
use iter.Redact.{Finding}
use iter.Redact.Verdict.{InRange, AllInRange}
use iter.Redact.Scan.{
  all_index, TrufflehogResult, secret_of, occurrences, parse_trufflehog_output, matches, Detectors,
  scan_pii, run_trufflehog,
}
use iter.Redact.Scan.Occurrences.{
  IsOccurrence, all_index_sound, any-append, ranges, parse-cons, parse-none,
}

-- What a pattern's `FindAllIndex` documents of its pairs.
abbrev pub PairsInRange : ℕ → List (ℕ × ℕ) → Type 0
PairsInRange n ms = All (λ m. (m.0 ≤ m.1) × (m.1 ≤ n)) ms

pub record MatchesInRange (d : Detectors) (p : List ℕ) : Type 0 where
  pub email : PairsInRange (length p) (d.email p)
  pub phone : PairsInRange (length p) (d.phone p)
  pub address : PairsInRange (length p) (d.address p)

none_is_some {ℓ} : {A : Type ℓ} {a : A} → ¬ (none ≡ some a)
none_is_some e = cc

matches-AllInRange :
    (n : ℕ) (ph : List ℕ) (r : Bool) (ms : List (ℕ × ℕ))
    → PairsInRange n ms
    → AllInRange n (matches ph r ms)
unfolding matches
matches-AllInRange n ph r [] h = tt
matches-AllInRange n ph r ((a, b) ∷ ms) h =
    (record { ordered = h.0.0; inside = h.0.1 }, matches-AllInRange n ph r ms h.1)

occurrences-AllInRange :
    (upper : ℕ → ℕ) (name raw p : List ℕ) (offs : List ℕ)
    → All (IsOccurrence p raw) offs
    → AllInRange (length p) (occurrences upper name raw offs)
unfolding occurrences
occurrences-AllInRange upper name raw p [] h = tt
occurrences-AllInRange upper name raw p (off ∷ offs) h = (
  record { ordered = omega arith; inside = h.0.1 },
  occurrences-AllInRange upper name raw p offs h.1,
)

parse-AllInRange :
    (upper : ℕ → ℕ) (p : List ℕ) (results : List (Option TrufflehogResult)) (fs : List Finding)
    → parse_trufflehog_output upper p results ≡ some fs
    → AllInRange (length p) fs
parse-AllInRange upper p [] fs e =
    subst (AllInRange (length p)) (some-injective [] fs (unfold parse_trufflehog_output in e)) tt
parse-AllInRange upper p (none ∷ rest) fs e = absurd (parse-none upper p rest e)
parse-AllInRange upper p (some s ∷ rest) fs e =
    let (out, q, whole) = parse-cons upper p s rest fs e in
    let raw = secret_of s in
    subst (AllInRange (length p)) whole (
      All-append (InRange (length p)) (occurrences upper s.detector_name raw (all_index p raw)) out
        (occurrences-AllInRange upper s.detector_name raw p (all_index p raw)
          (all_index_sound p raw))
        (parse-AllInRange upper p rest out q))

pub scan_pii-AllInRange :
    (d : Detectors) (p : List ℕ) → MatchesInRange d p → AllInRange (length p) (scan_pii d p)
unfolding scan_pii
scan_pii-AllInRange d p h =
    All-append (InRange (length p)) (matches (bytes "[REDACTED_EMAIL]") true (d.email p))
      (matches (bytes "[REDACTED_PHONE]") true (d.phone p)
        ++ matches (bytes "[REDACTED_ADDRESS]") false (d.address p))
      (matches-AllInRange (length p) (bytes "[REDACTED_EMAIL]") true (d.email p) h.email)
      (All-append (InRange (length p)) (matches (bytes "[REDACTED_PHONE]") true (d.phone p))
        (matches (bytes "[REDACTED_ADDRESS]") false (d.address p))
        (matches-AllInRange (length p) (bytes "[REDACTED_PHONE]") true (d.phone p) h.phone)
        (matches-AllInRange (length p) (bytes "[REDACTED_ADDRESS]") false (d.address p) h.address))

-- A scan that succeeds has a stream of results, all of which decode.
pub run_trufflehog-some :
    (d : Detectors) (p : List ℕ) (fs : List Finding)
    → run_trufflehog d p ≡ some fs
    → (results : List (Option TrufflehogResult)) × (d.trufflehog p ≡ some results)
      × (parse_trufflehog_output d.upper p results ≡ some fs)
unfolding run_trufflehog
run_trufflehog-some d p fs e = elim (Option-cases (d.trufflehog p)) [
  | inl n ↦ absurd (none_is_some (rw (n, run_trufflehog) at e))
  | inr (results, r) ↦ (results, r, rw (r, run_trufflehog) at e)
]

pub run_trufflehog-AllInRange :
    (d : Detectors) (p : List ℕ) (fs : List Finding)
    → run_trufflehog d p ≡ some fs
    → AllInRange (length p) fs
run_trufflehog-AllInRange d p fs e =
    let (results, r, parsed) = run_trufflehog-some d p fs e in
    parse-AllInRange d.upper p results fs parsed

-- Whether a finding cannot be masked.
abbrev pub locked : Finding → Bool
locked g = not g.redactable

locked-matches : (ph : List ℕ) (ms : List (ℕ × ℕ)) → any locked (matches ph true ms) ≡ false
unfolding matches
locked-matches ph [] = refl
locked-matches ph ((a, b) ∷ ms) = locked-matches ph ms

locked-occurrences :
    (upper : ℕ → ℕ) (name raw : List ℕ) (offs : List ℕ)
    → any locked (occurrences upper name raw offs) ≡ false
unfolding occurrences
locked-occurrences upper name raw [] = refl
locked-occurrences upper name raw (off ∷ offs) = locked-occurrences upper name raw offs

abbrev is_nil : List (ℕ × ℕ) → Bool
is_nil [] = true
is_nil (m ∷ ms) = false

locked-addresses :
    (ph : List ℕ) (ms : List (ℕ × ℕ)) → any locked (matches ph false ms) ≡ not (is_nil ms)
unfolding matches
locked-addresses ph [] = refl
locked-addresses ph ((a, b) ∷ ms) = refl

locked-parse :
    (upper : ℕ → ℕ) (p : List ℕ) (results : List (Option TrufflehogResult)) (fs : List Finding)
    → parse_trufflehog_output upper p results ≡ some fs
    → any locked fs ≡ false
locked-parse upper p [] fs e =
    subst (λ gs. any locked gs ≡ false) (some-injective [] fs (unfold parse_trufflehog_output in e))
      refl
locked-parse upper p (none ∷ rest) fs e = absurd (parse-none upper p rest e)
locked-parse upper p (some s ∷ rest) fs e =
    let (out, q, whole) = parse-cons upper p s rest fs e in
    let raw = secret_of s in
    rw
      (
        ← whole,
        any-append locked (ranges upper p s) out,
        locked-occurrences upper s.detector_name raw (all_index p raw),
      )
      (locked-parse upper p rest out q)

locked-scan_pii :
    (d : Detectors) (p : List ℕ) → any locked (scan_pii d p) ≡ not (is_nil (d.address p))
unfolding scan_pii
locked-scan_pii d p = rw (
  any-append locked (matches (bytes "[REDACTED_EMAIL]") true (d.email p)) (
      matches (bytes "[REDACTED_PHONE]") true (d.phone p)
      ++ matches (bytes "[REDACTED_ADDRESS]") false (d.address p)),
  any-append locked (matches (bytes "[REDACTED_PHONE]") true (d.phone p))
      (matches (bytes "[REDACTED_ADDRESS]") false (d.address p)),
  locked-matches (bytes "[REDACTED_EMAIL]") (d.email p),
  locked-matches (bytes "[REDACTED_PHONE]") (d.phone p),
  locked-addresses (bytes "[REDACTED_ADDRESS]") (d.address p),
)

or_false_iff :
    (b : Bool) (ms : List (ℕ × ℕ)) → b ≡ not (is_nil ms) → ((b || false) ≡ true) ↔ (ms ≢ [])
or_false_iff b [] e = (λ h. cc, λ h. absurd (h refl))
or_false_iff b (m ∷ ms) e = (λ h n. cc, λ h. rw e)

-- Among all the findings, one is not redactable exactly when an address matched.
pub locked-findings :
    (d : Detectors) (p : List ℕ) (secrets : List Finding)
    → run_trufflehog d p ≡ some secrets
    → (any locked (scan_pii d p ++ secrets) ≡ true) ↔ (d.address p ≢ [])
locked-findings d p secrets e =
    let (results, r, parsed) = run_trufflehog-some d p secrets e in
    rw (any-append locked (scan_pii d p) secrets, locked-parse d.upper p results secrets parsed)
      (or_false_iff (any locked (scan_pii d p)) (d.address p) (locked-scan_pii d p))
