-- ===== src/Redact/Verdict.antt =====
-- When the redaction succeeds: with ranges inside the payload, exactly the un-redactable findings
-- refuse it.
use iter.Common.{
  ℕ, ◌≤◌, ◌≡◌, ◌≢◌, ◌↔◌, refl, true, none, List, [], ◌∷◌, ltb, length, not, any, All, arith,
  Bool-cases, Option-cases, inl, inr,
}
use iter.Redact.{
  Finding, splice, widen, merge_from, merge_all, precedes, sort_findings, insert_finding,
  redact_all,
}
use iter.Redact.Coverage.{StartsFrom, IsAscending, sort-IsAscending}

-- A range inside a payload of `n` bytes.
pub record InRange (n : ℕ) (f : Finding) : Type 0 where
  pub ordered : f.start ≤ f.end
  pub inside : f.end ≤ n

abbrev pub AllInRange : ℕ → List Finding → Type 0
AllInRange n fs = All (InRange n) fs

pub insert-AllInRange :
    (n : ℕ) (f : Finding) (fs : List Finding)
    → InRange n f
    → AllInRange n fs
    → AllInRange n (insert_finding f fs)
unfolding insert_finding
insert-AllInRange n f [] r rs = (r, tt)
insert-AllInRange n f (g ∷ gs) r rs = elim (Bool-cases (precedes g f)) [
  | inl before ↦ rw before (rs.0, insert-AllInRange n f gs r rs.1)
  | inr after ↦ rw after (r, rs)
]

pub sort-AllInRange :
    (n : ℕ) (fs : List Finding) → AllInRange n fs → AllInRange n (sort_findings fs)
unfolding sort_findings
sort-AllInRange n [] rs = tt
sort-AllInRange n (f ∷ fs) rs =
    insert-AllInRange n f (sort_findings fs) rs.0 (sort-AllInRange n fs rs.1)

widen-InRange : (n : ℕ) (last f : Finding) → InRange n last → InRange n f → InRange n (widen last f)
unfolding widen
widen-InRange n last f r s = ground arith

-- One round of the output loop at a range that it accepts.
splice_accepts :
    (p : List ℕ) (c : ℕ) (f : Finding) (ms : List Finding)
    → c ≤ f.start
    → InRange (length p) f
    → splice p f.end ms ≢ none
    → splice p c (f ∷ ms) ≢ none
unfolding splice
splice_accepts p c f ms h r s e = elim (Option-cases (splice p f.end ms)) [
  | inl n ↦ s n
  | inr (out, o) ↦ ground arith
]

splice_merged :
    (p : List ℕ) (c : ℕ) (last : Finding) (fs : List Finding)
    → c ≤ last.start
    → InRange (length p) last
    → AllInRange (length p) fs
    → StartsFrom last.start fs
    → IsAscending fs
    → splice p c (merge_from last fs) ≢ none
unfolding merge_from
splice_merged p c last [] h r rs s a = splice_accepts p c last [] h r (unfold splice in λ e. cc)
splice_merged p c last (f ∷ fs) h r rs s a = elim (Bool-cases (ltb f.start last.end)) [
  | inl over ↦ rw over (
      splice_merged p c (widen last f) fs (unfold widen in h)
        (widen-InRange (length p) last f r rs.0) rs.1 (unfold widen in s.1) a.1)
  | inr apart ↦ rw apart (
      splice_accepts p c last (merge_from f fs) h r
        (splice_merged p last.end f fs (ground arith) rs.0 rs.1 a.0 a.1))
]

splice-merge_all :
    (p : List ℕ) (fs : List Finding)
    → AllInRange (length p) fs
    → IsAscending fs
    → splice p 0 (merge_all fs) ≢ none
unfolding merge_all splice
splice-merge_all p [] rs a = λ e. cc
splice-merge_all p (f ∷ fs) rs a = splice_merged p 0 f fs (omega arith) rs.0 rs.1 a.0 a.1

-- With every finding inside the payload, the redaction is refused exactly when some finding is
-- not redactable. So findings that overlap are never a reason, whether their placeholders agree or
-- not.
pub redact_all_refused_iff :
    (p : List ℕ) (fs : List Finding)
    → AllInRange (length p) fs
    → (redact_all p fs ≡ none) ↔ (any (λ g. not g.redactable) fs ≡ true)
unfolding redact_all
redact_all_refused_iff p [] rs = (λ e. cc, λ e. cc)
redact_all_refused_iff p (f ∷ fs) rs = elim (Bool-cases (any (λ g. not g.redactable) (f ∷ fs))) [
  | inl dirty ↦ (λ e. dirty, λ e. rw dirty refl)
  | inr clean ↦ (
    λ e. absurd (
        splice-merge_all p (sort_findings (f ∷ fs)) (sort-AllInRange (length p) (f ∷ fs) rs)
          (sort-IsAscending (f ∷ fs)) (rw clean at e)),
    λ e. cc (clean, e),
  )
]

pub redact_all-nil : (p : List ℕ) → redact_all p [] ≢ none
unfolding redact_all
redact_all-nil p = λ e. cc
