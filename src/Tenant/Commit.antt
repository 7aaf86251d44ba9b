-- ===== src/Tenant/Commit.antt =====
-- tenant.go: which of a handler's writes stay.
use iter.Common.{
  ℕ, ◌≡◌, refl, sym, subst, Bool, true, false, not, ◌&&◌, leb, if◌then◌else◌, some, List,
}
use iter.Idempotency.{Writer}
use iter.Idempotency.Requests.{Request, path_has_any_prefix, Shared}
use iter.Tenant.{
  TxCircumstances, TenantOptions, Handler, captured_status, wrote_header, with_tenant, in_tx,
  end_tx, after_tx, tenant,
}

-- A request that gets a transaction.
pub record IsTenanted (cfg : TenantOptions) (valid : List ℕ → Bool) (r : Request)
    (tx : TxCircumstances) (t : List ℕ) : Type 0 where
  pub kept : path_has_any_prefix r.path cfg.skip_prefixes ≡ false
  pub owned : r.tenant ≡ some t
  pub named : valid t ≡ true
  pub opens : tx.opens ≡ true

module _ {S D : Type 0} (cfg : TenantOptions) (valid : List ℕ → Bool) (tx : TxCircumstances)
    (next : Handler S D) (r : Request) (sh : Shared S D) (w : Writer) (t : List ℕ) where
  pub tenant-runs :
      IsTenanted cfg valid r tx t
      → tenant cfg true valid tx next r sh w
        ≡ after_tx (end_tx tx sh.app (in_tx next r (sh.app, (sh.redis, w))))
  unfolding tenant with_tenant
  tenant-runs h = simp (h.kept, h.owned, h.named, h.opens)

  -- A request of a tenant, on a path that is not skipped, whose transaction opens: the tables are
  -- what the handler left if it has answered with a status below 400, or with none, and the
  -- commit succeeds; they are as before otherwise. What the handler did to Redis stays in any case,
  -- and so does its answer, if it sent one, also when the commit fails.
  pub tenant_commits :
      IsTenanted cfg valid r tx t
      → let out = next r sh w in
        let all = tenant cfg true valid tx next r sh w in
        (all.1.app
          ≡ (if not (leb 400 (captured_status out.0)) && tx.commits then out.1.app else sh.app))
        × (all.1.redis ≡ out.1.redis)
        × (wrote_header out.0 ≡ true → all.0 ≡ out.0)
  tenant_commits h =
      let out = next r sh w in
      subst
        (λ all.
          (all.1.app
            ≡ (if not (leb 400 (captured_status out.0)) && tx.commits then out.1.app else sh.app))
          × (all.1.redis ≡ out.1.redis)
          × (wrote_header out.0 ≡ true → all.0 ≡ out.0))
        (sym (tenant-runs h)) (by_end (leb 400 (captured_status out.0)) tx.commits)
    where
      by_end :
          (b c : Bool)
          → let out = next r sh w in
            let all = after_tx (
              end_tx
                (record { opens = true; commits = c })
                sh.app
                (b, (out.1.app, (out.1.redis, out.0)))) in
            (all.1.app ≡ (if not b && c then out.1.app else sh.app))
            × (all.1.redis ≡ out.1.redis)
            × (wrote_header out.0 ≡ true → all.0 ≡ out.0)
      by_end true c = (refl, refl, λ s. refl)
      by_end false true = (refl, refl, λ s. refl)
      by_end false false = (refl, refl, λ s. rw s refl)
