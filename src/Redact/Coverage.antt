-- ===== src/Redact/Coverage.antt =====
-- Which positions of a payload the findings cover, and that sorting keeps them.
use iter.Common.{
  ℕ, ◌≤◌, ◌≡◌, refl, ◌∙◌, Bool, true, false, ◌&&◌, List, [], ◌∷◌, ltb, leb, any, All, arith,
  Bool-cases, inl, inr,
}
use iter.Redact.{Finding, precedes, insert_finding, sort_findings}

abbrev pub covers : ℕ → Finding → Bool
covers i f = leb f.start i && ltb i f.end

-- A byte position is covered by a finding of the list.
abbrev pub covered : ℕ → List Finding → Bool
covered i fs = any (covers i) fs

pub covered-insert :
    (i : ℕ) (f : Finding) (fs : List Finding) → covered i (insert_finding f fs) ≡ covered i (f ∷ fs)
unfolding insert_finding
covered-insert i f [] = refl
covered-insert i f (g ∷ gs) = ground (arith, covered-insert i f gs)

pub covered-sort : (i : ℕ) (fs : List Finding) → covered i (sort_findings fs) ≡ covered i fs
unfolding sort_findings
covered-sort i [] = refl
covered-sort i (f ∷ fs) = covered-insert i f (sort_findings fs) ∙ ground (arith, covered-sort i fs)

abbrev pub StartsFrom : ℕ → List Finding → Type 0
StartsFrom s fs = All (λ (g : Finding). s ≤ g.start) fs

-- The starts never fall along the list.
abbrev pub IsAscending : List Finding → Type 0
IsAscending [] = Unit
IsAscending (f ∷ fs) = StartsFrom f.start fs × IsAscending fs

pub StartsFrom-le : (s t : ℕ) (fs : List Finding) → s ≤ t → StartsFrom t fs → StartsFrom s fs
StartsFrom-le s t [] h a = tt
StartsFrom-le s t (f ∷ fs) h a = (omega arith, StartsFrom-le s t fs h a.1)

pub StartsFrom-insert :
    (s : ℕ) (f : Finding) (fs : List Finding)
    → s ≤ f.start
    → StartsFrom s fs
    → StartsFrom s (insert_finding f fs)
unfolding insert_finding
StartsFrom-insert s f [] h a = (h, tt)
StartsFrom-insert s f (g ∷ gs) h a = elim (Bool-cases (precedes g f)) [
  | inl before ↦ rw before (a.0, StartsFrom-insert s f gs h a.1)
  | inr after ↦ rw after (h, a)
]

precedes-le : (g f : Finding) → precedes g f ≡ true → g.start ≤ f.start
precedes-le g f h = ground arith

not-precedes-le : (g f : Finding) → precedes g f ≡ false → f.start ≤ g.start
not-precedes-le g f h = ground arith

pub insert-IsAscending :
    (f : Finding) (fs : List Finding) → IsAscending fs → IsAscending (insert_finding f fs)
unfolding insert_finding
insert-IsAscending f [] a = (tt, tt)
insert-IsAscending f (g ∷ gs) a = elim (Bool-cases (precedes g f)) [
  | inl before ↦
      rw before
        (StartsFrom-insert g.start f gs (precedes-le g f before) a.0, insert-IsAscending f gs a.1)
  | inr after ↦
      let le = not-precedes-le g f after in
      rw after ((le, StartsFrom-le f.start g.start gs le a.0), a)
]

pub sort-IsAscending : (fs : List Finding) → IsAscending (sort_findings fs)
unfolding sort_findings
sort-IsAscending [] = tt
sort-IsAscending (f ∷ fs) = insert-IsAscending f (sort_findings fs) (sort-IsAscending fs)
