-- ===== src/Redact/Scan.antt =====
-- internal/redact/classify.go: the detectors' findings. The regular expressions and the trufflehog
-- process are parameters: what they report of a payload.
pub mod Occurrences
pub mod Ranges
use iter.Common.{
  ℕ, zero, suc, ◌+◌, ◌-◌, ◌≤◌, ◌<◌, ◌≡◌, Bool, true, false, ◌&&◌, ◌||◌, Option, none, some, List,
  [], ◌∷◌, ◌++◌, map, String, ltb, leb, ◌==◌, if◌then◌else◌, length, drop,
}
use iter.Common.Bytes.{bytes, bytes_eq}
use iter.Redact.{Finding}

abbrev pub is_prefix : List ℕ → List ℕ → Bool
is_prefix [] h = true
is_prefix (a ∷ n) [] = false
is_prefix (a ∷ n) (b ∷ h) = (a == b) && is_prefix n h

abbrev shifted : Option ℕ → Option ℕ
shifted none = none
shifted (some i) = some (suc i)

-- `bytes.Index`; `none` is its -1.
unfoldable pub index : List ℕ → List ℕ → Option ℕ
index [] needle = if is_prefix needle [] then some 0 else none
index (x ∷ h) needle = if is_prefix needle (x ∷ h) then some 0 else shifted (index h needle)

-- The loop of `allIndex`; each round but the last moves `start` up by the needle's length.
unfoldable pub all_index_from : ℕ → ℕ → List ℕ → List ℕ → List ℕ
all_index_from zero start haystack needle = []
all_index_from (suc fuel) start haystack needle =
    if leb (start + length needle) (length haystack)
    then elim (index (drop start haystack) needle) [
      | none ↦ []
      | some i ↦ (start + i) ∷ all_index_from fuel (start + i + length needle) haystack needle
    ]
    else []

-- A haystack of n bytes takes at most n rounds, and one that ends the loop.
unfoldable pub all_index : List ℕ → List ℕ → List ℕ
all_index haystack [] = []
all_index haystack (a ∷ needle) = all_index_from (length haystack + 1) 0 haystack (a ∷ needle)

-- `upper` is the rune map of `strings.ToUpper`, and a name is the list of its runes.
module _ (upper : ℕ → ℕ) where
  unfoldable pub sanitize_runes : List ℕ → List ℕ
  sanitize_runes [] = []
  sanitize_runes (c ∷ cs) =
      let r = upper c in
      let rest = sanitize_runes cs in
      if (leb b'A' r && leb r b'Z') || (leb b'0' r && leb r b'9')
      then r ∷ rest
      else if (r == 32 || r == b'-') || r == b'_'
      then b'_' ∷ rest
      else rest

  abbrev or_secret : List ℕ → List ℕ
  or_secret [] = bytes "SECRET"
  or_secret (c ∷ cs) = c ∷ cs

  unfoldable pub sanitize_detector : List ℕ → List ℕ
  sanitize_detector [] = bytes "SECRET"
  sanitize_detector (c ∷ cs) = or_secret (sanitize_runes (c ∷ cs))

pub record TrufflehogResult : Type 0 where
  pub detector_name : List ℕ
  pub raw : List ℕ
  pub raw_v2 : List ℕ

abbrev pub secret_of : TrufflehogResult → List ℕ
secret_of res = if bytes_eq res.raw [] then res.raw_v2 else res.raw

module _ (upper : ℕ → ℕ) where
  unfoldable pub occurrences : List ℕ → List ℕ → List ℕ → List Finding
  occurrences name raw [] = []
  occurrences name raw (off ∷ offs) =
      record {
        start = off;
        end = off + length raw;
        placeholder = bytes "[REDACTED_" ++ (sanitize_detector upper name ++ bytes "]");
        redactable = true;
      }
      ∷ occurrences name raw offs

  -- The decoder's stream of results; `none` is a result that does not decode. A finding with no
  -- raw text has no occurrence.
  unfoldable pub parse_trufflehog_output :
      List ℕ → List (Option TrufflehogResult) → Option (List Finding)
  parse_trufflehog_output payload [] = some []
  parse_trufflehog_output payload (none ∷ rest) = none
  parse_trufflehog_output payload (some res ∷ rest) =
      let raw = secret_of res in
      elim (parse_trufflehog_output payload rest) [
        | none ↦ none
        | some out ↦ some (occurrences res.detector_name raw (all_index payload raw) ++ out)
      ]

-- The index pairs of `FindAllIndex`, marked with the placeholder of their pattern.
unfoldable pub matches : List ℕ → Bool → List (ℕ × ℕ) → List Finding
matches placeholder redactable [] = []
matches placeholder redactable ((from, to) ∷ ms) =
    record { start = from; end = to; placeholder = placeholder; redactable = redactable }
    ∷ matches placeholder redactable ms

-- What the code that is not in this package finds in a payload: the three patterns' matches, and
-- trufflehog's results, `none` where the process fails or times out.
pub record Detectors : Type 0 where
  pub email : List ℕ → List (ℕ × ℕ)
  pub phone : List ℕ → List (ℕ × ℕ)
  pub address : List ℕ → List (ℕ × ℕ)
  pub trufflehog : List ℕ → Option (List (Option TrufflehogResult))
  pub upper : ℕ → ℕ

unfoldable pub scan_pii : Detectors → List ℕ → List Finding
scan_pii d payload =
    matches (bytes "[REDACTED_EMAIL]") true (d.email payload)
    ++ (matches (bytes "[REDACTED_PHONE]") true (d.phone payload)
        ++ matches (bytes "[REDACTED_ADDRESS]") false (d.address payload))

unfoldable pub run_trufflehog : Detectors → List ℕ → Option (List Finding)
run_trufflehog d payload = elim (d.trufflehog payload) [
  | none ↦ none
  | some results ↦ parse_trufflehog_output d.upper payload results
]
