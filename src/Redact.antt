-- ===== src/Redact.antt =====
-- internal/redact/classify.go: findings, the splice of their placeholders, and the classification
-- of a payload. A payload is the list of its bytes.
pub mod Scan
pub mod Coverage
pub mod Merge
pub mod Splice
pub mod Secrecy
pub mod Survivors
pub mod Verdict
pub mod Classify
mod Tests
use iter.Common.Bytes.{bytes, bytes_eq}
use iter.Common.{
  ℕ, ◌+◌, ◌-◌, ◌≡◌, Bool, true, false, ◌&&◌, ◌||◌, Option, none, some, List, [], ◌∷◌, ◌++◌, String,
  ltb, leb, ◌==◌, not, if◌then◌else◌, length, take, drop, any,
}

pub record Finding : Type 0 where
  pub start : ℕ
  pub end : ℕ
  pub placeholder : List ℕ
  pub redactable : Bool

-- The order of `sort.SliceStable`: by start, then by end.
abbrev pub precedes : Finding → Finding → Bool
precedes f g = if f.start == g.start then ltb f.end g.end else ltb f.start g.start

-- A stable sort, by insertion: an element goes before the first that does not precede it.
pub insert_finding : Finding → List Finding → List Finding
insert_finding f [] = f ∷ []
insert_finding f (g ∷ gs) = if precedes g f then g ∷ insert_finding f gs else f ∷ g ∷ gs

pub sort_findings : List Finding → List Finding
unfolding insert_finding
sort_findings [] = []
sort_findings (f ∷ fs) = insert_finding f (sort_findings fs)

-- The body of the merge loop on an overlap: `last` is widened in place.
pub widen : Finding → Finding → Finding
widen last f = record last {
  end = if ltb last.end f.end then f.end else last.end;
  placeholder =
      if bytes_eq f.placeholder last.placeholder
      then last.placeholder
      else bytes "[REDACTED_OVERLAP]";
}

pub merge_from : Finding → List Finding → List Finding
merge_from last [] = last ∷ []
merge_from last (f ∷ fs) =
    let overlapping = merge_from (widen last f) fs in
    let apart = last ∷ merge_from f fs in if ltb f.start last.end then overlapping else apart

-- payload[from:to]
abbrev pub slice : ℕ → ℕ → List ℕ → List ℕ
slice from to payload = take (to - from) (drop from payload)

-- The output loop, from `cursor` on; `none` is the fail-closed `return nil, false`.
pub splice : List ℕ → ℕ → List Finding → Option (List ℕ)
splice payload cursor [] = some (drop cursor payload)
splice payload cursor (f ∷ fs) =
    let rest = splice payload f.end fs in
    if ltb f.start cursor || ltb (length payload) f.end || ltb f.end f.start
    then none
    else elim rest [
      | none ↦ none
      | some out ↦ some (slice cursor f.start payload ++ (f.placeholder ++ out))
    ]

pub merge_all : List Finding → List Finding
merge_all [] = []
merge_all (f ∷ fs) = merge_from f fs

pub redact_all : List ℕ → List Finding → Option (List ℕ)
redact_all payload [] = some payload
redact_all payload (f ∷ fs) =
    if any (λ g. not g.redactable) (f ∷ fs)
    then none
    else splice payload 0 (merge_all (sort_findings (f ∷ fs)))
