-- ===== src/Redact/Survivors.antt =====
-- No byte outside the findings is lost: the bytes at uncovered positions stand in the output, in
-- their order.
use iter.Common.{
  ℕ, zero, suc, ◌+◌, ◌-◌, ◌≤◌, ◌<◌, ◌≡◌, refl, sym, ap, ◌∙◌, true, some, List, [], ◌∷◌, ◌++◌,
  if◌then◌else◌, take, drop, drop-drop, not, any, arith, Bool-cases, Option-cases, inl, inr,
}
use iter.Redact.{Finding, slice, splice, merge_all, sort_findings, redact_all}
use iter.Redact.Coverage.{covered, covered-sort, sort-IsAscending}
use iter.Redact.Merge.{covered-merge_all}
use iter.Redact.Splice.{refused}

-- The first list is a subsequence of the second.
pub data Embeds {ℓ} {A : Type ℓ} : List A → List A → Type ℓ where
  done : {ys : List A} → Embeds [] ys
  keep : {x : A} {xs ys : List A} → Embeds xs ys → Embeds (x ∷ xs) (x ∷ ys)
  skip : {y : A} {xs ys : List A} → Embeds xs ys → Embeds xs (y ∷ ys)

Embeds-refl {ℓ} : {A : Type ℓ} (xs : List A) → Embeds xs xs
Embeds-refl [] = done
Embeds-refl (x ∷ xs) = keep (Embeds-refl xs)

Embeds-append_left {ℓ} : {A : Type ℓ} (zs xs ys : List A) → Embeds xs ys → Embeds xs (zs ++ ys)
Embeds-append_left [] xs ys e = e
Embeds-append_left (z ∷ zs) xs ys e = skip (Embeds-append_left zs xs ys e)

-- The bytes from position `i` on that no finding covers.
pub survivors : ℕ → List ℕ → List Finding → List ℕ
survivors i [] fs = []
survivors i (b ∷ p) fs =
    let rest = survivors (suc i) p fs in if covered i fs then rest else b ∷ rest

survivors-nil : (i : ℕ) (p : List ℕ) → survivors i p [] ≡ p
unfolding survivors
survivors-nil i [] = refl
survivors-nil i (b ∷ p) = rw (survivors-nil (suc i) p)

survivors-ext :
    (i : ℕ) (p : List ℕ) (fs gs : List Finding)
    → ((j : ℕ) → i ≤ j → covered j fs ≡ covered j gs)
    → survivors i p fs ≡ survivors i p gs
unfolding survivors
survivors-ext i [] fs gs h = refl
survivors-ext i (b ∷ p) fs gs h =
    rw (h i (omega arith), survivors-ext (suc i) p fs gs (λ j l. h j (omega arith)))

-- What precedes a cut stands in the output as it is.
survivors-prefix :
    (n i : ℕ) (p out : List ℕ) (fs : List Finding)
    → Embeds (survivors (i + n) (drop n p) fs) out
    → Embeds (survivors i p fs) (take n p ++ out)
unfolding survivors
survivors-prefix zero i p out fs e = let here : i + 0 ≡ i = omega arith in rw here at e
survivors-prefix (suc n) i [] out fs e = done
survivors-prefix (suc n) i (b ∷ p) out fs e =
    let here : i + suc n ≡ suc i + n = omega arith in
    let rest = survivors-prefix n (suc i) p out fs (rw here at e) in
    elim (Bool-cases (covered i fs)) [ inl c ↦ rw c (skip rest) | inr u ↦ rw u (keep rest) ]

-- A covered run leaves no survivor.
survivors-run :
    (n i : ℕ) (p : List ℕ) (fs : List Finding)
    → ((j : ℕ) → i ≤ j → j < i + n → covered j fs ≡ true)
    → survivors i p fs ≡ survivors (i + n) (drop n p) fs
unfolding survivors
survivors-run zero i p fs h = ap (λ k. survivors k p fs) (omega arith)
survivors-run (suc n) i [] fs h = refl
survivors-run (suc n) i (b ∷ p) fs h =
    let here : suc i + n ≡ i + suc n = omega arith in
    rw (h i (omega arith) (omega arith)) (
      survivors-run n (suc i) p fs (λ j l m. h j (omega arith) (omega arith))
      ∙ ap (λ k. survivors k (drop n p) fs) here)

cut {ℓ} : {A : Type ℓ} (c e : ℕ) (p : List A) → c ≤ e → drop (e - c) (drop c p) ≡ drop e p
cut c e p h = drop-drop (e - c) c p ∙ ap (λ k. drop k p) (omega arith)

-- Past the range `f`, and with its bytes gone, the survivors are those of the later ranges.
survivors-skip :
    (p : List ℕ) (f : Finding) (ms : List Finding)
    → f.start ≤ f.end
    → survivors f.start (drop f.start p) (f ∷ ms) ≡ survivors f.end (drop f.end p) ms
survivors-skip p f ms h =
    let width : f.start + (f.end - f.start) ≡ f.end = omega arith in
    survivors-run (f.end - f.start) f.start (drop f.start p) (f ∷ ms) (λ j l m. ground arith)
    ∙ rw (width, cut f.start f.end p h)
        (survivors-ext f.end (drop f.end p) (f ∷ ms) ms (λ j l. ground arith))

splice-Embeds :
    (p : List ℕ) (c : ℕ) (ms : List Finding) (out : List ℕ)
    → splice p c ms ≡ some out
    → Embeds (survivors c (drop c p) ms) out
unfolding splice
splice-Embeds p c [] out e =
    let here : drop c p ≡ out = cc in rw (survivors-nil c (drop c p), here) (Embeds-refl out)
splice-Embeds p c (f ∷ ms) out e = elim (Bool-cases (refused p c f)) [
  | inl no_good ↦ cc (rw no_good at e)
  | inr good ↦ elim (Option-cases (splice p f.end ms)) [
    | inl n ↦ cc (rw (good, n) at e)
    | inr (rest, s) ↦
        let shape : slice c f.start p ++ (f.placeholder ++ rest) ≡ out = cc (rw (good, s) at e) in
        let from : c ≤ f.start = ground arith in
        let width : c + (f.start - c) ≡ f.start = omega arith in
        let later = splice-Embeds p f.end ms rest s in
        rw (← shape) (
          survivors-prefix (f.start - c) c (drop c p) (f.placeholder ++ rest) (f ∷ ms) (
            rw (width, cut c f.start p from, survivors-skip p f ms (ground arith))
              (Embeds-append_left f.placeholder (survivors f.end (drop f.end p) ms) rest later)))
  ]
]

-- Where the redaction succeeds, the bytes that no finding covers all stand in the output, in their
-- order.
pub redact_all_keeps :
    (p : List ℕ) (fs : List Finding) (out : List ℕ)
    → redact_all p fs ≡ some out
    → Embeds (survivors 0 p fs) out
unfolding redact_all
redact_all_keeps p [] out e =
    let here : p ≡ out = cc in rw (survivors-nil 0 p, here) (Embeds-refl out)
redact_all_keeps p (f ∷ fs) out e = elim (Bool-cases (any (λ g. not g.redactable) (f ∷ fs))) [
  | inl dirty ↦ cc (rw dirty at e)
  | inr clean ↦
      let ms = merge_all (sort_findings (f ∷ fs)) in
      rw
        (survivors-ext 0 p (f ∷ fs) ms (λ j l. sym (
          covered-merge_all j (sort_findings (f ∷ fs)) (sort-IsAscending (f ∷ fs))
          ∙ covered-sort j (f ∷ fs))))
        (splice-Embeds p 0 ms out (rw clean at e))
]
