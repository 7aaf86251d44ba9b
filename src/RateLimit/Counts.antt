-- ===== src/RateLimit/Counts.antt =====
-- Counting the entries that a window holds.
use iter.Common.{
  ℕ, suc, ◌+◌, ◌≤◌, ◌≡◌, refl, sym, ap, subst, ◌∙◌, Bool, true, false, not, ltb, leb, lt→ltb,
  ltb→lt, if◌then◌else◌, List, [], ◌∷◌, count_if, keep_if, length, Bool-cases, inl, inr, arith,
  leb→le,
}
use iter.RateLimit.{Entry, SortedSet}

pub count_if_mono {ℓ} :
    {A : Type ℓ} (p q : A → Bool)
    → ((x : A) → p x ≡ true → q x ≡ true)
    → (xs : List A) → count_if p xs ≤ count_if q xs
count_if_mono p q h [] = omega arith
count_if_mono p q h (x ∷ xs) =
    let ih = count_if_mono p q h xs in
    elim (Bool-cases (p x)) [
      | inl e ↦ rw e (rw (h x e) (omega (arith, ih)))
      | inr e ↦
          rw e (elim (Bool-cases (q x)) [ inl f ↦ rw f (omega (arith, ih)) | inr f ↦ rw f ih ])
    ]

pub count_if-length {ℓ} : {A : Type ℓ} (p : A → Bool) (xs : List A) → count_if p xs ≤ length xs
count_if-length p [] = omega arith
count_if-length p (x ∷ xs) = let ih = count_if-length p xs in ground (arith, ih)

pub count_if-keep_le {ℓ} :
    {A : Type ℓ} (p q : A → Bool) (xs : List A) → count_if p (keep_if q xs) ≤ count_if p xs
count_if-keep_le p q [] = omega arith
count_if-keep_le p q (x ∷ xs) = let ih = count_if-keep_le p q xs in ground (arith, ih)

-- Keeping what `q` passes does not change the count of what `p` passes, when `p` implies `q`.
pub count_if-keep_if {ℓ} :
    {A : Type ℓ} (p q : A → Bool)
    → ((x : A) → p x ≡ true → q x ≡ true)
    → (xs : List A) → count_if p (keep_if q xs) ≡ count_if p xs
count_if-keep_if p q h [] = refl
count_if-keep_if p q h (x ∷ xs) =
    let ih = count_if-keep_if p q h xs in
    elim (Bool-cases (p x)) [
      | inl e ↦ rw (h x e) (rw e (ap suc ih))
      | inr e ↦ rw e (elim (Bool-cases (q x)) [ inl f ↦ rw f (rw e ih) | inr f ↦ rw f ih ])
    ]

-- Nor does it when nothing fails `q`.
pub count_if-keep_all {ℓ} :
    {A : Type ℓ} (p q : A → Bool) (xs : List A)
    → count_if (λ x. not (q x)) xs ≡ 0
    → count_if p (keep_if q xs) ≡ count_if p xs
count_if-keep_all p q [] h = refl
count_if-keep_all p q (x ∷ xs) h = elim (Bool-cases (q x)) [
  | inl e ↦
      let k =
        subst
          (λ b.
            (if not b then suc (count_if (λ y. not (q y)) xs) else count_if (λ y. not (q y)) xs)
            ≡ 0)
          e h in
      let ih = count_if-keep_all p q xs k in
      rw e (elim (Bool-cases (p x)) [ inl f ↦ rw f (ap suc ih) | inr f ↦ rw f ih ])
  | inr e ↦
      let k =
        subst
          (λ b.
            (if not b then suc (count_if (λ y. not (q y)) xs) else count_if (λ y. not (q y)) xs)
            ≡ 0)
          e h in
      absurd (omega (arith, k))
]

-- Whether an entry, or an admission, is younger than the window at a time.
abbrev pub alive : ℕ → ℕ → Entry → Bool
alive window t e = ltb t (e.0 + window)

abbrev pub recent : ℕ → ℕ → ℕ → Bool
recent window t a = ltb t (a + window)

pub alive-earlier :
    (window t now : ℕ) (e : Entry) → now ≤ t → alive window t e ≡ true → alive window now e ≡ true
alive-earlier window t now e l h =
    lt→ltb now (e.0 + window) (let k = ltb→lt t (e.0 + window) h in omega (arith, k, l))

module _ (S : SortedSet) (window now : ℕ) (z : S.Z) where
  -- What the script counts: the entries of the key, if it has not expired, that are in the window.
  abbrev pub kept : S.Z
  kept = S.evict now window (S.live now z)

  pub entries-kept :
      S.entries kept
      ≡ keep_if (alive window now) (if leb (S.deadline z) now then [] else S.entries z)
  entries-kept =
      S.entries-evict now window (S.live now z)
      ∙ ap (keep_if (alive window now)) (S.entries-live now z)

  pub kept-le : (p : Entry → Bool) → count_if p (S.entries kept) ≤ count_if p (S.entries z)
  kept-le p = rw entries-kept (by_expiry (leb (S.deadline z) now))
    where
      by_expiry :
          (b : Bool)
          → count_if p (keep_if (alive window now) (if b then [] else S.entries z))
            ≤ count_if p (S.entries z)
      by_expiry true = omega arith
      by_expiry false = count_if-keep_le p (alive window now) (S.entries z)

  -- From now on the entries that were taken away do not count.
  pub kept-alive :
      (t : ℕ)
      → now ≤ t
      → (S.deadline z ≤ now → count_if (alive window t) (S.entries z) ≡ 0)
      → count_if (alive window t) (S.entries kept) ≡ count_if (alive window t) (S.entries z)
  kept-alive t l expired = rw entries-kept (by_expiry (leb (S.deadline z) now) refl)
    where
      by_expiry :
          (b : Bool)
          → leb (S.deadline z) now ≡ b
          → count_if (alive window t) (keep_if (alive window now) (if b then [] else S.entries z))
            ≡ count_if (alive window t) (S.entries z)
      by_expiry true h = sym (expired (leb→le (S.deadline z) now h))
      by_expiry false h =
          count_if-keep_if (alive window t) (alive window now)
            (λ e k. alive-earlier window t now e l k) (S.entries z)
