-- ===== src/Redact/Tests.antt =====
-- Runs of the redaction, and the theorems at concrete inputs.
use mathlib.Core.List.{Memᴰ}
use iter.Common.{
  ℕ, zero, suc, ◌≡◌, ◌≢◌, ◌↔◌, ◌⊎◌, refl, true, false, none, some, List, [], ◌∷◌, ◌++◌, not, any,
  arith, get_elem?,
}
use iter.Common.Bytes.{bytes}
use iter.Redact.{
  Finding, insert_finding, sort_findings, widen, merge_from, merge_all, splice, redact_all,
}
use iter.Redact.Coverage.{covered}
use iter.Redact.Secrecy.{AgreeOutside, redact_all_secrecy}
use iter.Redact.Survivors.{Embeds, survivors, redact_all_keeps}
use iter.Redact.Verdict.{redact_all_refused_iff}
use iter.Redact.Scan.{
  TrufflehogResult, Detectors, run_trufflehog, scan_pii, index, all_index_from, all_index,
  sanitize_runes, sanitize_detector, occurrences, parse_trufflehog_output, matches,
}
use iter.Redact.Scan.Ranges.{MatchesInRange}
use iter.Redact.Classify.{dirty, strippable, attempt, decide_tier, conclude, classify_with}
use iter.Redact.Classify.Tiers.{
  classify_with_unchanged, classify_with_dirty_iff, secret_covered, classify_with_secrecy,
}

abbrev mask : ℕ → ℕ → Finding
mask a b = record { start = a; end = b; placeholder = bytes "#"; redactable = true }

abbrev two : List Finding
two = mask 3 5 ∷ mask 0 1 ∷ []

two_masked : redact_all (bytes "abcdef") two ≡ some (bytes "#bc#f")
unfolding redact_all sort_findings insert_finding merge_all merge_from widen splice
two_masked = refl

overlap_masked :
    redact_all (bytes "abcdef") (mask 1 3 ∷ record (mask 2 4) { placeholder = bytes "!" } ∷ [])
    ≡ some (bytes "a[REDACTED_OVERLAP]ef")
unfolding redact_all sort_findings insert_finding merge_all merge_from widen splice
overlap_masked = refl

two_agree : AgreeOutside two (bytes "abcdef") (bytes "xbcyzf")
two_agree = record { lengths = refl; outside = outside }
  where
    outside :
        (i : ℕ)
        → covered i two ≡ false
        → get_elem? (bytes "abcdef") i ≡ get_elem? (bytes "xbcyzf") i
    outside zero u = cc
    outside (suc zero) u = refl
    outside (suc (suc zero)) u = refl
    outside (suc (suc (suc zero))) u = cc
    outside (suc (suc (suc (suc zero)))) u = cc
    outside (suc (suc (suc (suc (suc zero))))) u = refl
    outside (suc (suc (suc (suc (suc (suc i)))))) u = refl

redact_all_secrecy_example : redact_all (bytes "abcdef") two ≡ redact_all (bytes "xbcyzf") two
redact_all_secrecy_example = redact_all_secrecy two (bytes "abcdef") (bytes "xbcyzf") two_agree

redact_all_keeps_example : Embeds (survivors 0 (bytes "abcdef") two) (bytes "#bc#f")
redact_all_keeps_example = redact_all_keeps (bytes "abcdef") two (bytes "#bc#f") two_masked

redact_all_refused_iff_example :
    (redact_all (bytes "abcdef") two ≡ none) ↔ (any (λ g. not g.redactable) two ≡ true)
redact_all_refused_iff_example = redact_all_refused_iff (bytes "abcdef") two (omega arith)

abbrev key : TrufflehogResult
key = record { detector_name = bytes "AWS"; raw = bytes "cd"; raw_v2 = [] }

-- One detector that always reports positions 2 to 4 as an address of electronic mail, and one
-- secret text.
abbrev detectors : Detectors
detectors = record {
  email = λ p. (2, 4) ∷ [];
  phone = λ p. [];
  address = λ p. [];
  trufflehog = λ p. some (some key ∷ []);
  upper = λ c. c;
}

abbrev secrets : List Finding
secrets =
    record { start = 2; end = 4; placeholder = bytes "[REDACTED_AWS]"; redactable = true } ∷ []

finds : run_trufflehog detectors (bytes "abcdef") ≡ some secrets
unfolding run_trufflehog parse_trufflehog_output occurrences all_index all_index_from index
    sanitize_detector sanitize_runes
finds = refl

finds_absent : run_trufflehog detectors (bytes "xbyyef") ≡ some []
unfolding run_trufflehog parse_trufflehog_output occurrences all_index all_index_from index
finds_absent = refl

in_range : MatchesInRange detectors (bytes "abcdef")
in_range = omega arith

abcdef_strippable : (classify_with detectors (bytes "abcdef")).class ≡ strippable
unfolding classify_with decide_tier conclude attempt run_trufflehog parse_trufflehog_output
    occurrences all_index all_index_from index scan_pii matches redact_all sort_findings
    insert_finding merge_all merge_from widen splice
abcdef_strippable = refl

-- A scan that fails.
abbrev broken : Detectors
broken = record detectors { trufflehog = λ p. none }

broken_dirty : (classify_with broken (bytes "ab")).class ≢ strippable
unfolding classify_with decide_tier conclude run_trufflehog
broken_dirty e = cc

classify_with_unchanged_run : (classify_with broken (bytes "ab")).payload ≡ bytes "ab"
classify_with_unchanged_run = classify_with_unchanged broken (bytes "ab") broken_dirty

classify_with_dirty_iff_example : ((classify_with detectors (bytes "abcdef")).class ≡ dirty) ↔ (
    (run_trufflehog detectors (bytes "abcdef") ≡ none) ⊎ (detectors.address (bytes "abcdef") ≢ []))
classify_with_dirty_iff_example = classify_with_dirty_iff detectors (bytes "abcdef") in_range

secret_covered_run : covered 2 secrets ≡ true
secret_covered_run =
    secret_covered detectors (bytes "abcdef") (some key ∷ []) key secrets 2 refl (Memᴰ.head refl)
      finds (λ e. cc) (omega arith) refl

abbrev found : Detectors
found = record detectors { trufflehog = λ p. some [] }

found_none : (p : List ℕ) → run_trufflehog found p ≡ some []
unfolding run_trufflehog parse_trufflehog_output
found_none p = refl

found_pii : scan_pii found (bytes "abcd") ≡ scan_pii found (bytes "abxy")
unfolding scan_pii
found_pii = refl

found_agree : AgreeOutside (scan_pii found (bytes "abcd") ++ []) (bytes "abcd") (bytes "abxy")
unfolding scan_pii matches
found_agree = record { lengths = refl; outside = outside }
  where
    outside :
        (i : ℕ)
        → covered i (scan_pii found (bytes "abcd") ++ []) ≡ false
        → get_elem? (bytes "abcd") i ≡ get_elem? (bytes "abxy") i
    outside zero u = refl
    outside (suc zero) u = refl
    outside (suc (suc zero)) u = cc
    outside (suc (suc (suc zero))) u = cc
    outside (suc (suc (suc (suc i)))) u = refl

found_strippable : (classify_with found (bytes "abcd")).class ≡ strippable
unfolding classify_with decide_tier conclude attempt run_trufflehog parse_trufflehog_output scan_pii
    matches redact_all sort_findings insert_finding merge_all merge_from splice
found_strippable = refl

classify_with_secrecy_example :
    (classify_with found (bytes "abcd")).payload ≡ (classify_with found (bytes "abxy")).payload
classify_with_secrecy_example =
    classify_with_secrecy found (bytes "abcd") (bytes "abxy") [] (found_none (bytes "abcd"))
      (found_none (bytes "abxy")) found_pii found_agree found_strippable
