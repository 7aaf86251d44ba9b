-- ===== src/RateLimit/Bypass.antt =====
-- Requests that repeat a member: the set holds it once, so the count does not grow.
use iter.Common.{
  ℕ, suc, ◌+◌, ◌≤◌, ◌≡◌, refl, ap, Bool, true, false, eq_iff, gt→leb, if◌then◌else◌, String, List,
  [], ◌∷◌, count_if, keep_if, length, All, arith,
}
use iter.RateLimit.{not_member, SortedSet, record_request, rate_limit_script}
use iter.RateLimit.Counts.{count_if-keep_le, kept-le}

pub length-count_if {ℓ} : {A : Type ℓ} (xs : List A) → length xs ≡ count_if (λ x. true) xs
length-count_if [] = refl
length-count_if (x ∷ xs) = ap suc (length-count_if xs)

-- How many entries have another member.
abbrev pub others : (S : SortedSet) → String → S.Z → ℕ
others S m z = count_if (not_member m) (S.entries z)

count_if-keep_true {ℓ} :
    {A : Type ℓ} (q : A → Bool) (xs : List A) → count_if (λ x. true) (keep_if q xs) ≡ count_if q xs
count_if-keep_true q [] = refl
count_if-keep_true q (x ∷ xs) = let ih = count_if-keep_true q xs in ground (arith, ih)

-- The answers of the script to requests at given times under one member.
abbrev pub answers_to : (S : SortedSet) → (window limit : ℕ) → String → List ℕ → S.Z → List Bool
answers_to S window limit m [] z = []
answers_to S window limit m (now ∷ nows) z =
    let r = rate_limit_script S now window limit m z in
    r.allowed ∷ answers_to S window limit m nows r.key

abbrev pub IsTrue : Bool → Type 0
IsTrue b = b ≡ true

module _ (S : SortedSet) (window limit : ℕ) (m : String) (two : 2 ≤ limit) where
  same_member : (now : ℕ) → not_member m (now, m) ≡ false
  same_member now = rw ((eq_iff m m).1 refl) refl

  -- The key holds nothing but one entry of `m`.
  OnlyOne : S.Z → Type 0
  OnlyOne z = (length (S.entries z) ≤ 1) × (others S m z ≡ 0)

  record_request-OnlyOne :
      (now : ℕ) (z : S.Z) → others S m z ≡ 0 → OnlyOne (record_request S now window m z)
  unfolding record_request OnlyOne
  record_request-OnlyOne now z none_else =
      let kept = keep_if (not_member m) (S.entries z) in
      let all = S.entries-add now m z (λ x. true) in
      let other = S.entries-add now m z (not_member m) in
      let few = count_if-keep_true (not_member m) (S.entries z) in
      let fewer = count_if-keep_le (not_member m) (not_member m) (S.entries z) in
      let new =
        ap (λ b. if b then suc (count_if (not_member m) kept) else count_if (not_member m) kept)
          (same_member now) in
      rw (S.entries-expire (now + (window + 1000)) (S.add now m z)) (
        omega (arith, length-count_if (S.entries (S.add now m z)), all, few, none_else),
        omega (arith, other, fewer, new, none_else),
      )

  script_admits :
      (now : ℕ) (z : S.Z)
      → OnlyOne z
      → ((rate_limit_script S now window limit m z).allowed ≡ true)
        × OnlyOne (rate_limit_script S now window limit m z).key
  unfolding rate_limit_script OnlyOne
  script_admits now z h =
      let kept = S.evict now window (S.live now z) in
      let size = kept-le S window now z (λ x. true) in
      let none_else = kept-le S window now z (not_member m) in
      let c = S.card-entries kept in
      let few = gt→leb limit (S.card kept) (
        omega (
          arith,
          two,
          size,
          c,
          h.0,
          length-count_if (S.entries kept),
          length-count_if (S.entries z),
        )) in
      rw few (refl, record_request-OnlyOne now kept (omega (arith, none_else, h.1)))

  -- With a limit of two or more: once a key holds nothing but one entry, of member `m`, or nothing,
  -- every further request under `m` is admitted, however many there are and whenever they come.
  pub repeated_member_unlimited :
      (nows : List ℕ) (z : S.Z)
      → length (S.entries z) ≤ 1
      → others S m z ≡ 0
      → All IsTrue (answers_to S window limit m nows z)
  unfolding OnlyOne
  repeated_member_unlimited [] z one none_else = tt
  repeated_member_unlimited (now ∷ nows) z one none_else =
      let s = script_admits now z (one, none_else) in
      (
        s.0,
        repeated_member_unlimited nows (rate_limit_script S now window limit m z).key s.1.0 s.1.1,
      )
