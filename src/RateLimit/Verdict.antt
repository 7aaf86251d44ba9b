-- ===== src/RateLimit/Verdict.antt =====
-- When the middleware passes a request on.
use iter.Common.{
  ℕ, ◌<◌, ◌≡◌, ◌↔◌, refl, false, leb, leb→le, leb→gt, some, String, Bool-cases, inl, inr, arith,
}
use iter.RateLimit.{
  SortedSet, Limits, limit_for_token_type, path_has_any_prefix, rate_limit_window_ms, forward,
  answers, check_bucket, check_principal, answer_of, rate_limit_script, rate_limit,
}
use iter.RateLimit.Counts.{kept}

-- On a path that is not skipped, for a principal and while Redis answers: the request is passed on
-- exactly when fewer entries of its key are in the window than the limit of its token type.
pub rate_limit_forwards_iff :
    (S : SortedSet) (cfg : Limits) (now : ℕ) (path member token_type : String) (z : S.Z)
    → path_has_any_prefix path cfg.skip_prefixes ≡ false
    → ((rate_limit S cfg now path member (some token_type) (answers z)).1 ≡ forward)
      ↔ (S.card (kept S rate_limit_window_ms now z) < limit_for_token_type token_type cfg)
unfolding rate_limit check_principal check_bucket answer_of rate_limit_script
rate_limit_forwards_iff S cfg now path member token_type z open_path =
    let limit = limit_for_token_type token_type cfg in
    let count = S.card (kept S rate_limit_window_ms now z) in
    rw open_path (elim (Bool-cases (leb limit count)) [
      | inl e ↦ let le = leb→le limit count e in rw e (λ d. cc, λ l. absurd (omega (arith, le, l)))
      | inr e ↦ rw e (λ d. leb→gt limit count e, λ l. refl)
    ])
