-- ===== src/Redact/Splice.antt =====
-- The output loop reads its payload only outside the ranges that it replaces.
use iter.Common.{
  ℕ, zero, suc, ◌+◌, ◌-◌, ◌≤◌, ◌<◌, ◌≡◌, refl, ap, Bool, false, ◌||◌, some, List, [], ◌∷◌, ltb,
  length, get_elem?, take, drop, arith, Bool-cases, Option-cases, inl, inr,
}
use iter.Redact.{Finding, splice}
use iter.Redact.Coverage.{covered}

module _ {ℓ} {A : Type ℓ} where
  take-agree :
      (n : ℕ) (p q : List A)
      → ((i : ℕ) → i < n → get_elem? p i ≡ get_elem? q i)
      → take n p ≡ take n q
  take-agree zero p q h = refl
  take-agree (suc n) [] [] h = refl
  take-agree (suc n) [] (y ∷ q) h = cc (h 0 (omega arith))
  take-agree (suc n) (x ∷ p) [] h = cc (h 0 (omega arith))
  take-agree (suc n) (x ∷ p) (y ∷ q) h =
      cc (h 0 (omega arith), take-agree n p q (λ i l. h (suc i) (omega arith)))

  pub all-agree : (p q : List A) → ((i : ℕ) → get_elem? p i ≡ get_elem? q i) → p ≡ q
  all-agree [] [] h = refl
  all-agree [] (y ∷ q) h = cc (h 0)
  all-agree (x ∷ p) [] h = cc (h 0)
  all-agree (x ∷ p) (y ∷ q) h = cc (h 0, all-agree p q (λ i. h (suc i)))

  get_elem?-drop : (c i : ℕ) (p : List A) → get_elem? (drop c p) i ≡ get_elem? p (c + i)
  get_elem?-drop zero i p = ap (get_elem? p) (omega arith)
  get_elem?-drop (suc c) i [] = refl
  get_elem?-drop (suc c) i (x ∷ p) =
      rw (get_elem?-drop c i p)
        (ap (get_elem? (x ∷ p)) {x = suc (c + i)} {y = suc c + i} (omega arith))

  pub slice-agree :
      (c e : ℕ) (p q : List A)
      → ((i : ℕ) → c ≤ i → i < e → get_elem? p i ≡ get_elem? q i)
      → take (e - c) (drop c p) ≡ take (e - c) (drop c q)
  slice-agree c e p q h =
      take-agree (e - c) (drop c p) (drop c q) λ i l.
        rw (get_elem?-drop c i p, get_elem?-drop c i q) (h (c + i) (omega arith) (omega arith))

  pub drop-agree :
      (c : ℕ) (p q : List A)
      → ((i : ℕ) → c ≤ i → get_elem? p i ≡ get_elem? q i)
      → drop c p ≡ drop c q
  drop-agree c p q h =
      all-agree (drop c p) (drop c q)
        λ i. rw (get_elem?-drop c i p, get_elem?-drop c i q) (h (c + i) (omega arith))

-- The range test of the output loop.
abbrev pub refused : List ℕ → ℕ → Finding → Bool
refused payload cursor f = ltb f.start cursor || ltb (length payload) f.end || ltb f.end f.start

-- Where the loop gets through, no later range reaches below the cursor.
pub splice_uncovered :
    (p : List ℕ) (c : ℕ) (ms : List Finding) (out : List ℕ) (i : ℕ)
    → splice p c ms ≡ some out
    → i < c
    → covered i ms ≡ false
unfolding splice
splice_uncovered p c [] out i e l = refl
splice_uncovered p c (f ∷ ms) out i e l = elim (Bool-cases (refused p c f)) [
  | inl no_good ↦ cc (rw no_good at e)
  | inr good ↦ elim (Option-cases (splice p f.end ms)) [
    | inl n ↦ cc (rw (good, n) at e)
    | inr (rest, s) ↦ ground (arith, splice_uncovered p f.end ms rest i s (ground arith))
  ]
]
