-- ===== src/Common/Bytes.antt =====
-- Texts as the lists of their bytes.
use Prim.Native.Char.{code}
use Prim.Native.Nat.{ℕ, ◌+◌}
use Prim.Native.String.{String}
use mathlib.Core.Path.{◌≡◌, refl, ap, ap₂}
use mathlib.Core.Bool.{Bool, true, false, ◌&&◌, ◌||◌}
use mathlib.Core.List.{List, [], ◌∷◌, ◌++◌}
use native.Mathlib.Omega.{arith}
use iter.Common.Tests.{◌==◌, leb, if◌then◌else◌}
use iter.Common.Lists.{length}

-- The bytes of an ASCII text.
abbrev pub bytes : String → List ℕ
bytes String.[] = []
bytes (String.◌∷◌ c s) = code c ∷ bytes s

abbrev pub bytes_eq : List ℕ → List ℕ → Bool
bytes_eq [] [] = true
bytes_eq (a ∷ as') (b ∷ bs) = (a == b) && bytes_eq as' bs
bytes_eq _ _ = false

abbrev pub has_prefix : List ℕ → List ℕ → Bool
has_prefix [] text = true
has_prefix (b ∷ prefix) [] = false
has_prefix (b ∷ prefix) (c ∷ text) = (b == c) && has_prefix prefix text

abbrev pub is_empty : List ℕ → Bool
is_empty [] = true
is_empty (b ∷ text) = false

abbrev pub head_or : ℕ → List ℕ → ℕ
head_or b [] = b
head_or b (c ∷ text) = c

abbrev pub tail : List ℕ → List ℕ
tail [] = []
tail (c ∷ text) = text

-- Whether a byte occurs.
abbrev pub has_byte : ℕ → List ℕ → Bool
has_byte b [] = false
has_byte b (c ∷ text) = (c == b) || has_byte b text

pub bytes_eq_refl : (a : List ℕ) → bytes_eq a a ≡ true
bytes_eq_refl [] = refl
bytes_eq_refl (x ∷ a) = let ih = bytes_eq_refl a in ground arith

pub bytes_eq→eq : (a b : List ℕ) → bytes_eq a b ≡ true → a ≡ b
bytes_eq→eq [] [] h = refl
bytes_eq→eq [] (y ∷ b) h = ground arith
bytes_eq→eq (x ∷ a) [] h = ground arith
bytes_eq→eq (x ∷ a) (y ∷ b) h =
    let same : x ≡ y = ground arith in
    let rest : bytes_eq a b ≡ true = ground arith in ap₂ ◌∷◌ same (bytes_eq→eq a b rest)

pub append-cancel : (p a b : List ℕ) → p ++ a ≡ p ++ b → a ≡ b
append-cancel [] a b h = h
append-cancel (x ∷ p) a b h = append-cancel p a b (ap tail h)

-- Two splits of one text at the same length are the same.
pub append-split : (a b c d : List ℕ) → length a ≡ length b → a ++ c ≡ b ++ d → (a ≡ b) × (c ≡ d)
append-split [] [] c d l h = (refl, h)
append-split [] (y ∷ b) c d l h = absurd (omega (arith, l))
append-split (x ∷ a) [] c d l h = absurd (omega (arith, l))
append-split (x ∷ a) (y ∷ b) c d l h =
    let rest = append-split a b c d (omega (arith, l)) (ap tail h) in
    (ap₂ ◌∷◌ (ap (head_or 0) h) rest.0, rest.1)

-- Two splits of one text at the first occurrence of a byte are the same.
pub append-separated :
    (s : ℕ) (a b c d : List ℕ)
    → has_byte s a ≡ false
    → has_byte s b ≡ false
    → a ++ s ∷ c ≡ b ++ s ∷ d
    → (a ≡ b) × (c ≡ d)
append-separated s [] [] c d ha hb h = (refl, ap tail h)
append-separated s [] (y ∷ b) c d ha hb h =
    let e : s ≡ y = ap (head_or 0) h in absurd (ground arith)
append-separated s (x ∷ a) [] c d ha hb h =
    let e : x ≡ s = ap (head_or 0) h in absurd (ground arith)
append-separated s (x ∷ a) (y ∷ b) c d ha hb h =
    let na : has_byte s a ≡ false = ground arith in
    let nb : has_byte s b ≡ false = ground arith in
    let rest = append-separated s a b c d na nb (ap tail h) in
    (ap₂ ◌∷◌ (ap (head_or 0) h) rest.0, rest.1)

-- ASCII letters in lower case.
abbrev pub lower_byte : ℕ → ℕ
lower_byte c = if leb 65 c && leb c 90 then c + 32 else c

abbrev pub to_lower : List ℕ → List ℕ
to_lower [] = []
to_lower (c ∷ text) = lower_byte c ∷ to_lower text

abbrev pub contains : List ℕ → List ℕ → Bool
contains part [] = is_empty part
contains part (c ∷ text) = has_prefix part (c ∷ text) || contains part text

-- Cut off at the end, if it is there.
abbrev pub trim_suffix : List ℕ → List ℕ → List ℕ
trim_suffix suffix [] = []
trim_suffix suffix (c ∷ text) =
    let rest = trim_suffix suffix text in if bytes_eq (c ∷ text) suffix then [] else c ∷ rest
