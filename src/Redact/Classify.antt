-- ===== src/Redact/Classify.antt =====
-- internal/redact/classify.go: `classifyWith`, the three-tier verdict.
pub mod Tiers
use iter.Common.{ℕ, Bool, true, false, Option, none, some, List, [], ◌∷◌, ◌++◌}
use iter.Redact.{Finding, redact_all}
use iter.Redact.Scan.{Detectors, scan_pii, run_trufflehog}

pub data Classification : Type 0 where
  dirty clean strippable : Classification

-- The three results of `Classify`; `failed` says that the error is not nil.
pub record Verdict : Type 0 where
  pub class : Classification
  pub payload : List ℕ
  pub failed : Bool

unfoldable pub attempt : List ℕ → Option (List ℕ) → Verdict
attempt payload none = record { class = dirty; payload = payload; failed = false }
attempt payload (some out) = record { class = strippable; payload = out; failed = false }

unfoldable pub decide_tier : List ℕ → List Finding → Verdict
unfolding attempt
decide_tier payload [] = record { class = clean; payload = payload; failed = false }
decide_tier payload (f ∷ fs) = attempt payload (redact_all payload (f ∷ fs))

-- Steps 3 and 4 on the two scans' results; no secret findings stand for a scan that failed.
unfoldable pub conclude : List ℕ → List Finding → Option (List Finding) → Verdict
unfolding decide_tier
conclude payload pii none = record { class = dirty; payload = payload; failed = true }
conclude payload pii (some secrets) = decide_tier payload (pii ++ secrets)

unfoldable pub classify_with : Detectors → List ℕ → Verdict
unfolding conclude
classify_with d payload = conclude payload (scan_pii d payload) (run_trufflehog d payload)
