-- ===== src/Webhook/Authentic.antt =====
-- receiver.go: deliveries whose signature is not taken.
use iter.Common.{
  ℕ, suc, ◌≡◌, refl, subst, Bool, false, ltb, none, some, List, [], ◌∷◌, keep_if, length, take,
  Bool-cases, Option-cases, inl, inr,
}
use iter.Common.KeyStore.{KeyStore}
use iter.Webhook.{max_body, Inbound, Config, verify_hmac_sha256}
use iter.Webhook.Receive.{World, Circumstances, accept, handle}
use iter.Webhook.Redelivery.{handle_all}

-- Whether a body can be read and the signature of what is read of it is taken.
abbrev pub is_signed : {App : Type 0} → Config App → Inbound → Bool
is_signed cfg r = elim r.content [
  | none ↦ false
  | some content ↦
      verify_hmac_sha256 cfg.digest cfg.secret (r.header cfg.signature_header)
        (take (suc max_body) content) cfg.signature_prefix
]

module _ (R : KeyStore) {App : Type 0} (cfg : Config App) where
  unsigned_refused :
      (e : Circumstances) (r : Inbound) (wd : World R.S App)
      → is_signed cfg r ≡ false
      → (handle R cfg e r wd).1 ≡ wd
  unfolding handle accept
  unsigned_refused e r wd h = elim (Option-cases r.content) [
    | inl n ↦ rw n refl
    | inr (content, s) ↦
        let refused = unsigned content s in
        elim (Bool-cases (ltb max_body (length (take (suc max_body) content)))) [
          | inl big ↦ rw s rw big refl
          | inr fits ↦ rw s rw fits rw refused refl
        ]
  ]
    where
      unsigned :
          (content : List ℕ)
          → r.content ≡ some content
          → verify_hmac_sha256 cfg.digest cfg.secret
              (r.header cfg.signature_header)
              (take (suc max_body) content)
              cfg.signature_prefix
            ≡ false
      unsigned content s =
          subst
            (λ o.
              (elim o [
                | none ↦ false
                | some c ↦
                    verify_hmac_sha256 cfg.digest cfg.secret (r.header cfg.signature_header)
                      (take (suc max_body) c) cfg.signature_prefix
              ])
              ≡ false)
            s h

  -- Whatever is sent without a valid signature has no influence: any sequence of deliveries leads
  -- to the state that the signed ones among them lead to.
  pub unsigned_ignored :
      (rs : List (Circumstances × Inbound)) (wd : World R.S App)
      → (handle_all R cfg rs wd).1 ≡ (handle_all R cfg (keep_if (λ p. is_signed cfg p.1) rs) wd).1
  unfolding handle_all
  unsigned_ignored [] wd = refl
  unsigned_ignored ((e, r) ∷ rs) wd = elim (Bool-cases (is_signed cfg r)) [
    | inl y ↦ rw y (unsigned_ignored rs (handle R cfg e r wd).1)
    | inr n ↦ rw n rw (unsigned_refused e r wd n) (unsigned_ignored rs wd)
  ]
