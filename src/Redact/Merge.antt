-- ===== src/Redact/Merge.antt =====
-- What the merge loop keeps: it covers all that its input covers, and leaves ranges that a cursor
-- can walk through.
use iter.Common.{
  sym, false, ℕ, ◌≤◌, ◌≡◌, refl, Bool, true, false, List, [], ◌∷◌, ltb, arith, Bool-cases, inl, inr,
}
use iter.Redact.{Finding, widen, merge_from, merge_all}
use iter.Redact.Coverage.{covers, covered, StartsFrom, IsAscending}

covered-widen :
    (i : ℕ) (last f : Finding) (fs : List Finding)
    → last.start ≤ f.start
    → covered i (last ∷ f ∷ fs) ≡ true
    → covered i (widen last f ∷ fs) ≡ true
unfolding widen
covered-widen i last f fs h c = ground arith

covered-keep :
    (i : ℕ) (last f : Finding) (ms fs : List Finding)
    → (covered i (f ∷ fs) ≡ true → covered i ms ≡ true)
    → covered i (last ∷ f ∷ fs) ≡ true
    → covered i (last ∷ ms) ≡ true
covered-keep i last f ms fs h c = elim (Bool-cases (covers i last)) [
  | inl here ↦ rw here refl
  | inr there ↦ rw there (h (rw there at c))
]

pub covered-merge :
    (i : ℕ) (last : Finding) (fs : List Finding)
    → StartsFrom last.start fs
    → IsAscending fs
    → covered i (last ∷ fs) ≡ true
    → covered i (merge_from last fs) ≡ true
unfolding merge_from
covered-merge i last [] s a c = c
covered-merge i last (f ∷ fs) s a c = elim (Bool-cases (ltb f.start last.end)) [
  | inl over ↦ rw over (
      covered-merge i (widen last f) fs (unfold widen in s.1) a.1 (covered-widen i last f fs s.0 c))
  | inr apart ↦
      rw apart (covered-keep i last f (merge_from f fs) fs (λ d. covered-merge i f fs a.0 a.1 d) c)
]

-- An overlap widens a range by no more than the other one.
covered-widen_back :
    (i : ℕ) (last f : Finding) (fs : List Finding)
    → ltb f.start last.end ≡ true
    → covered i (widen last f ∷ fs) ≡ true
    → covered i (last ∷ f ∷ fs) ≡ true
unfolding widen
covered-widen_back i last f fs over c = ground arith

covered-merge_back :
    (i : ℕ) (last : Finding) (fs : List Finding)
    → covered i (merge_from last fs) ≡ true
    → covered i (last ∷ fs) ≡ true
unfolding merge_from
covered-merge_back i last [] c = c
covered-merge_back i last (f ∷ fs) c = elim (Bool-cases (ltb f.start last.end)) [
  | inl over ↦
      covered-widen_back i last f fs over (covered-merge_back i (widen last f) fs (rw over at c))
  | inr apart ↦ elim (Bool-cases (covers i last)) [
    | inl here ↦ rw here refl
    | inr there ↦ rw there (covered-merge_back i f fs (rw (apart, there) at c))
  ]
]

Bool-eq_of_iff : (a b : Bool) → (a ≡ true → b ≡ true) → (b ≡ true → a ≡ true) → a ≡ b
Bool-eq_of_iff true b f g = sym (f refl)
Bool-eq_of_iff false true f g = g refl
Bool-eq_of_iff false false f g = refl

pub covered-merge_all :
    (i : ℕ) (fs : List Finding) → IsAscending fs → covered i (merge_all fs) ≡ covered i fs
unfolding merge_all
covered-merge_all i [] a = refl
covered-merge_all i (f ∷ fs) a =
    Bool-eq_of_iff (covered i (merge_from f fs)) (covered i (f ∷ fs)) (covered-merge_back i f fs)
      (covered-merge i f fs a.0 a.1)
