-- ===== src/Redact/Secrecy.antt =====
-- The redacted output is a function of the bytes that no finding covers.
use iter.Common.{
  ℕ, ◌≤◌, ◌≡◌, refl, sym, ap, ◌∙◌, false, some, List, [], ◌∷◌, length, get_elem?, not, any, arith,
  Bool-cases, Option-cases, inl, inr,
}
use iter.Redact.{Finding, slice, splice, merge_all, sort_findings, redact_all}
use iter.Redact.Coverage.{covered, covered-sort, sort-IsAscending}
use iter.Redact.Merge.{covered-merge_all}
use iter.Redact.Splice.{slice-agree, drop-agree, all-agree, refused, splice_uncovered}

-- Two payloads have the same length and the same bytes outside the findings.
pub record AgreeOutside (fs : List Finding) (p q : List ℕ) : Type 0 where
  pub lengths : length p ≡ length q
  pub outside : (i : ℕ) → covered i fs ≡ false → get_elem? p i ≡ get_elem? q i

module _ (p q : List ℕ) (len : length p ≡ length q) where
  splice_step :
      (c : ℕ) (f : Finding) (ms : List Finding) (out : List ℕ)
      → ((i : ℕ) → c ≤ i → covered i (f ∷ ms) ≡ false → get_elem? p i ≡ get_elem? q i)
      → splice q f.end ms ≡ some out
      → refused p c f ≡ false
      → slice c f.start p ≡ slice c f.start q
  splice_step c f ms out h s good =
      slice-agree c f.start p q
        λ i l m. h i l (ground (arith, splice_uncovered q f.end ms out i s (ground arith)))

  splice-agree :
      (c : ℕ) (ms : List Finding)
      → ((i : ℕ) → c ≤ i → covered i ms ≡ false → get_elem? p i ≡ get_elem? q i)
      → splice p c ms ≡ splice q c ms
  unfolding splice
  splice-agree c [] h = ap some (drop-agree c p q (λ i l. h i l refl))
  splice-agree c (f ∷ ms) h = elim (Bool-cases (refused p c f)) [
    | inl no_good ↦ rw (no_good, rw len at no_good) refl
    | inr good ↦
        let rest = splice-agree f.end ms (λ i l u. h i (ground arith) (ground arith)) in
        elim (Option-cases (splice q f.end ms)) [
          | inl n ↦ rw (good, rw len at good, rest, n) refl
          | inr (out, s) ↦ rw (good, rw len at good, rest, s, splice_step c f ms out h s good) refl
        ]
  ]

uncovered_of_merged :
    (i : ℕ) (fs : List Finding)
    → covered i (merge_all (sort_findings fs)) ≡ false
    → covered i fs ≡ false
uncovered_of_merged i fs u =
    sym (covered-merge_all i (sort_findings fs) (sort-IsAscending fs) ∙ covered-sort i fs) ∙ u

-- Two payloads of one length that agree on every byte that no finding covers are redacted to the
-- same output, or refused alike: no covered byte influences what is forwarded.
pub redact_all_secrecy :
    (fs : List Finding) (p q : List ℕ) → AgreeOutside fs p q → redact_all p fs ≡ redact_all q fs
unfolding redact_all
redact_all_secrecy [] p q a = ap some (all-agree p q (λ i. a.outside i refl))
redact_all_secrecy (f ∷ fs) p q a = elim (Bool-cases (any (λ g. not g.redactable) (f ∷ fs))) [
  | inl dirty ↦ rw dirty
  | inr clean ↦ rw clean (
      splice-agree p q a.lengths 0 (merge_all (sort_findings (f ∷ fs)))
        (λ i l u. a.outside i (uncovered_of_merged i (f ∷ fs) u)))
]
