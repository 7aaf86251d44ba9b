-- ===== src/Webhook/Signature.antt =====
-- receiver.go: which signatures `VerifyHMACSHA256` takes.
use iter.Common.{
  ℕ, ◌≡◌, ◌↔◌, refl, sym, ap, ◌∙◌, subst, Bool, true, false, not, ◌||◌, ltb, ge→ltb, if◌then◌else◌,
  Option, none, some, List, [], ◌∷◌, ◌++◌, length, take, drop, length-append, take-drop,
  take-append, drop-append, arith,
}
use iter.Common.Bytes.{bytes_eq→eq, bytes_eq_refl, is_empty}
use iter.Webhook.{lacks, matches, decode_string, verify_hmac_sha256}

lacks-take :
    (prefix signature : List ℕ)
    → lacks prefix signature ≡ false
    → take (length prefix) signature ≡ prefix
lacks-take [] signature h = refl
lacks-take (b ∷ prefix) signature h =
    bytes_eq→eq _ _ (not-false _ (or-right (ltb (length signature) (length (b ∷ prefix))) _ h))
  where
    not-false : (x : Bool) → not x ≡ false → x ≡ true
    not-false x e = ground arith

    or-right : (x y : Bool) → (x || y) ≡ false → y ≡ false
    or-right x y e = ground arith

lacks-append : (prefix text : List ℕ) → lacks prefix (prefix ++ text) ≡ false
lacks-append [] text = refl
lacks-append (b ∷ prefix) text =
    rw
      (ge→ltb (length (b ∷ prefix ++ text)) (length (b ∷ prefix))
        (omega (arith, length-append prefix text)))
      rw (take-append prefix text) rw (bytes_eq_refl (b ∷ prefix)) refl

matches-some :
    (expected : List ℕ) (o : Option (List ℕ)) → matches expected o ≡ true → o ≡ some expected
matches-some expected none h = absurd (ground arith)
matches-some expected (some got) h = ap some (bytes_eq→eq got expected h)

all_checks :
    (a b c : Bool) → (if a then false else if b then false else c) ≡ true → (b ≡ false) × (c ≡ true)
all_checks true b c h = absurd (ground (arith, h))
all_checks false true c h = absurd (ground (arith, h))
all_checks false false c h = (refl, h)

-- With a secret and a signature that are not empty: a signature is taken exactly when it is the
-- prefix followed by a hexadecimal text that stands for the digest of the body.
pub verify_hmac_sha256_iff :
    (digest : List ℕ → List ℕ → List ℕ) (secret signature body prefix : List ℕ)
    → is_empty secret ≡ false
    → is_empty signature ≡ false
    → (verify_hmac_sha256 digest secret signature body prefix ≡ true) ↔ (
        (text : List ℕ) × (signature ≡ prefix ++ text)
        × (decode_string text ≡ some (digest secret body)))
unfolding verify_hmac_sha256
verify_hmac_sha256_iff digest secret signature body prefix hs hg = (taken, genuine)
  where
    taken :
        verify_hmac_sha256 digest secret signature body prefix ≡ true
        → (text : List ℕ) × (signature ≡ prefix ++ text)
          × (decode_string text ≡ some (digest secret body))
    taken h =
        let checks =
          all_checks (is_empty secret || is_empty signature) (lacks prefix signature) _ h in
        (
          drop (length prefix) signature,
          sym (take-drop (length prefix) signature)
              ∙ ap (λ p. p ++ drop (length prefix) signature)
                  (lacks-take prefix signature checks.0),
          matches-some (digest secret body) _ checks.1,
        )

    genuine :
        ((text : List ℕ) × (signature ≡ prefix ++ text)
          × (decode_string text ≡ some (digest secret body)))
        → verify_hmac_sha256 digest secret signature body prefix ≡ true
    genuine (text, e, decoded) = rw hs rw hg (
        subst
          (λ g.
            (if lacks prefix g
              then false
              else matches (digest secret body) (decode_string (drop (length prefix) g)))
            ≡ true)
          (sym e)
          (rw (lacks-append prefix text) rw (drop-append prefix text) rw decoded
            (bytes_eq_refl (digest secret body))))
