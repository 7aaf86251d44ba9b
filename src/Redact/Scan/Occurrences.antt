-- ===== src/Redact/Scan/Occurrences.antt =====
-- What `allIndex` finds: only occurrences, and one over the first byte of every occurrence.
use mathlib.Core.List.{Memᴰ}
use mathlib.Core.Option.{some-injective}
use iter.Common.{
  ℕ, zero, suc, ◌+◌, ◌-◌, ◌≤◌, ◌<◌, ◌≡◌, ◌≢◌, refl, ◌∙◌, Bool, true, ◌&&◌, ◌||◌, Option, none, some,
  List, [], ◌∷◌, ◌++◌, ltb, leb, length, length-drop, drop, drop-drop, any, All, arith, Bool-cases,
  Option-cases, inl, inr, le→leb, leb→le,
}
use iter.Redact.{Finding}
use iter.Redact.Coverage.{covers, covered}
use iter.Redact.Scan.{
  is_prefix, index, all_index_from, all_index, TrufflehogResult, secret_of, occurrences,
  parse_trufflehog_output,
}

is_prefix-length : (n h : List ℕ) → is_prefix n h ≡ true → length n ≤ length h
is_prefix-length [] h e = omega arith
is_prefix-length (a ∷ n) [] e = cc
is_prefix-length (a ∷ n) (b ∷ h) e = omega (arith, is_prefix-length n h (ground arith))

-- A hit of `bytes.Index` is an occurrence.
index-is_prefix : (h n : List ℕ) (i : ℕ) → index h n ≡ some i → is_prefix n (drop i h) ≡ true
unfolding index
index-is_prefix [] n i e = elim (Bool-cases (is_prefix n [])) [
  | inl p ↦ let here : zero ≡ i = cc (rw p at e) in rw (← here) p
  | inr p ↦ cc (rw p at e)
]
index-is_prefix (x ∷ h) n i e = elim (Bool-cases (is_prefix n (x ∷ h))) [
  | inl p ↦ let here : zero ≡ i = cc (rw p at e) in rw (← here) p
  | inr p ↦ elim (Option-cases (index h n)) [
    | inl q ↦ cc (rw (p, q) at e)
    | inr (j, q) ↦
        let here : suc j ≡ i = cc (rw (p, q) at e) in rw (← here) (index-is_prefix h n j q)
  ]
]

-- It is the first one.
index-le :
    (h n : List ℕ) (o : ℕ)
    → is_prefix n (drop o h) ≡ true
    → (i : ℕ) × (index h n ≡ some i) × (i ≤ o)
unfolding index
index-le [] n zero p = (0, rw p refl, omega arith)
index-le [] n (suc o) p = (0, rw p refl, omega arith)
index-le (x ∷ h) n zero p = (0, rw p refl, omega arith)
index-le (x ∷ h) n (suc o) p = elim (Bool-cases (is_prefix n (x ∷ h))) [
  | inl here ↦ (0, rw here refl, omega arith)
  | inr there ↦ let (i, e, l) = index-le h n o p in (suc i, rw (there, e) refl, omega arith)
]

-- Position `o` lies in the needle's length from a reported offset.
abbrev pub reported : ℕ → List ℕ → List ℕ → Bool
reported o needle offs = any (λ off. leb off o && ltb o (off + length needle)) offs

abbrev pub IsOccurrence : List ℕ → List ℕ → ℕ → Type 0
IsOccurrence h n off = (is_prefix n (drop off h) ≡ true) × (off + length n ≤ length h)

sound_round :
    (h n : List ℕ) (start i : ℕ)
    → 0 < length n
    → start + length n ≤ length h
    → index (drop start h) n ≡ some i
    → IsOccurrence h n (start + i)
sound_round h n start i pos l e =
    let p = index-is_prefix (drop start h) n i e in
    let q = is_prefix-length n (drop i (drop start h)) p in
    (
      rw (drop-drop i start h) at p,
      omega (arith, length-drop i (drop start h), length-drop start h, q),
    )

all_index_from_sound :
    (fuel start : ℕ) (h n : List ℕ)
    → 0 < length n
    → All (IsOccurrence h n) (all_index_from fuel start h n)
unfolding all_index_from
all_index_from_sound zero start h n pos = tt
all_index_from_sound (suc fuel) start h n pos =
    elim (Bool-cases (leb (start + length n) (length h))) [
      | inl room ↦ elim (Option-cases (index (drop start h) n)) [
        | inl e ↦ rw (room, e) tt
        | inr (i, e) ↦
            rw (room, e)
              (
                sound_round h n start i pos (leb→le (start + length n) (length h) room) e,
                all_index_from_sound fuel (start + i + length n) h n pos,
              )
      ]
      | inr full ↦ rw full tt
    ]

all_index_from_complete :
    (fuel start : ℕ) (h n : List ℕ) (o : ℕ)
    → length h < start + fuel
    → 0 < length n
    → start ≤ o
    → o + length n ≤ length h
    → is_prefix n (drop o h) ≡ true
    → reported o n (all_index_from fuel start h n) ≡ true
unfolding all_index_from
all_index_from_complete zero start h n o enough pos l room p = absurd (omega arith)
all_index_from_complete (suc fuel) start h n o enough pos l room p =
    let here : start + (o - start) ≡ o = omega arith in
    let hit = index-le (drop start h) n (o - start) (rw (drop-drop (o - start) start h, here) p) in
    rw (le→leb (start + length n) (length h) (omega arith), hit.1)
      (elim (Bool-cases (ltb o (start + hit.0 + length n))) [
        | inl over ↦ ground (arith, hit.2)
        | inr past ↦ ground (
          arith,
          hit.2,
          all_index_from_complete fuel (start + hit.0 + length n) h n o (ground arith) pos
              (ground arith) room p,
        )
      ])

-- Every reported offset is an occurrence inside the payload.
pub all_index_sound : (h n : List ℕ) → All (IsOccurrence h n) (all_index h n)
unfolding all_index
all_index_sound h [] = tt
all_index_sound h (a ∷ n) = all_index_from_sound (length h + 1) 0 h (a ∷ n) (omega arith)

-- Every occurrence of a needle begins inside a reported one, so the loop's fuel is enough.
pub all_index_complete :
    (h n : List ℕ) (o : ℕ)
    → n ≢ []
    → o + length n ≤ length h
    → is_prefix n (drop o h) ≡ true
    → reported o n (all_index h n) ≡ true
unfolding all_index
all_index_complete h [] o ne room p = absurd (ne refl)
all_index_complete h (a ∷ n) o ne room p =
    all_index_from_complete (length h + 1) 0 h (a ∷ n) o (omega arith) (omega arith) (omega arith)
      room p

-- One range for each offset.
covered-occurrences :
    (upper : ℕ → ℕ) (name raw : List ℕ) (o : ℕ) (offs : List ℕ)
    → covered o (occurrences upper name raw offs) ≡ reported o raw offs
unfolding occurrences
covered-occurrences upper name raw o [] = refl
covered-occurrences upper name raw o (off ∷ offs) = rw (covered-occurrences upper name raw o offs)

pub any-append {ℓ} :
    {A : Type ℓ} (test : A → Bool) (xs ys : List A)
    → any test (xs ++ ys) ≡ (any test xs || any test ys)
any-append test [] ys = refl
any-append test (x ∷ xs) ys = ground (arith, any-append test xs ys)

or_inl : (a b : Bool) → a ≡ true → (a || b) ≡ true
or_inl a b h = ground arith

or_inr : (a b : Bool) → b ≡ true → (a || b) ≡ true
or_inr a b h = ground arith

abbrev pub ranges : (ℕ → ℕ) → List ℕ → TrufflehogResult → List Finding
ranges upper p s = occurrences upper s.detector_name (secret_of s) (all_index p (secret_of s))

pub parse-cons :
    (upper : ℕ → ℕ) (p : List ℕ) (s : TrufflehogResult) (rest : List (Option TrufflehogResult))
    (fs : List Finding)
    → parse_trufflehog_output upper p (some s ∷ rest) ≡ some fs
    → (out : List Finding) × (parse_trufflehog_output upper p rest ≡ some out)
      × (ranges upper p s ++ out ≡ fs)
unfolding parse_trufflehog_output
parse-cons upper p s rest fs e = elim (Option-cases (parse_trufflehog_output upper p rest)) [
  | inl n ↦ cc (rw n at e)
  | inr (out, q) ↦ (out, q, cc (rw q at e))
]

pub parse-none :
    (upper : ℕ → ℕ) (p : List ℕ) (rest : List (Option TrufflehogResult)) {fs : List Finding}
    → ¬ (parse_trufflehog_output upper p (none ∷ rest) ≡ some fs)
unfolding parse_trufflehog_output
parse-none upper p rest e = cc

covered-ranges :
    (upper : ℕ → ℕ) (p : List ℕ) (res s : TrufflehogResult) (o : ℕ)
    → res ≡ s
    → reported o (secret_of res) (all_index p (secret_of res)) ≡ true
    → covered o (ranges upper p s) ≡ true
covered-ranges upper p res s o e r = rw (← e) (
    covered-occurrences upper res.detector_name (secret_of res) o (all_index p (secret_of res)) ∙ r)

pub covered-parse :
    (upper : ℕ → ℕ) (p : List ℕ) (results : List (Option TrufflehogResult)) (res : TrufflehogResult)
    (o : ℕ) (fs : List Finding)
    → parse_trufflehog_output upper p results ≡ some fs
    → Memᴰ (some res) results
    → reported o (secret_of res) (all_index p (secret_of res)) ≡ true
    → covered o fs ≡ true
covered-parse upper p [] res o fs e m r = elim m [ ]
covered-parse upper p (none ∷ rest) res o fs e m r = absurd (parse-none upper p rest e)
covered-parse upper p (some s ∷ rest) res o fs e (Memᴰ.head i) r =
    let (out, q, whole) = parse-cons upper p s rest fs e in
    rw (← whole, any-append (covers o) (ranges upper p s) out)
      (or_inl (covered o (ranges upper p s)) (covered o out)
        (covered-ranges upper p res s o (some-injective res s i) r))
covered-parse upper p (some s ∷ rest) res o fs e (Memᴰ.tail m) r =
    let (out, q, whole) = parse-cons upper p s rest fs e in
    rw (← whole, any-append (covers o) (ranges upper p s) out)
      (or_inr (covered o (ranges upper p s)) (covered o out)
        (covered-parse upper p rest res o out q m r))
