-- ===== src/Tenant.antt =====
-- internal/api/middleware/tenant.go: a request in a transaction of its tenant, and
-- internal/db/tenant.go: `WithTenant`.
pub mod Commit
pub mod Stack
mod Tests
use iter.Common.{
  ℕ, Bool, true, false, not, ◌&&◌, leb, if◌then◌else◌, Option, none, some, List, [], ◌∷◌, ◌++◌,
}
use iter.Common.Bytes.{bytes}
use iter.Idempotency.{Writer, write_json}
use iter.Idempotency.Requests.{Request, path_has_any_prefix, internal_err_body, Shared}

-- What the database does with a transaction: whether a connection, its BEGIN and SET LOCAL
-- succeed, and whether its COMMIT does.
pub record TxCircumstances : Type 0 where
  pub opens : Bool
  pub commits : Bool

pub data TxResult : Type 0 where
  committed : TxResult
  rolled_back : TxResult  -- the function returned an error
  failed : TxResult  -- the transaction itself did

-- `fn` works on the tables `D`, and on what is no part of the transaction, and says whether it
-- returned an error.
module _ {D X : Type 0} where
  abbrev pub end_tx : TxCircumstances → D → Bool × (D × X) → TxResult × (D × X)
  end_tx tx before (true, (after, x)) = (rolled_back, (before, x))
  end_tx tx before (false, (after, x)) =
      if tx.commits then (committed, (after, x)) else (failed, (before, x))

  unfoldable pub with_tenant :
      TxCircumstances → (valid : Bool) → (D × X → Bool × (D × X)) → D × X → TxResult × (D × X)
  with_tenant tx valid fn (d, x) =
      let ran = end_tx tx d (fn (d, x)) in
      if not valid then (failed, (d, x)) else if not tx.opens then (failed, (d, x)) else ran

pub record TenantOptions : Type 0 where
  pub skip_prefixes : List (List ℕ)

abbrev pub default_options : TenantOptions
default_options = record { skip_prefixes = bytes "/health" ∷ bytes "/v1/webhooks" ∷ [] }

abbrev pub with_tenant_skip : List (List ℕ) → TenantOptions → TenantOptions
with_tenant_skip prefixes o = record { skip_prefixes = o.skip_prefixes ++ prefixes }

-- A handler on Redis and the tables.
abbrev pub Handler : Type 0 → Type 0 → Type 0
Handler S D = Request → Shared S D → Writer → Writer × Shared S D

-- The status that `statusCaptureWriter` has seen of a handler that begins with a writer on which
-- nothing was sent; 0 when there is none.
abbrev pub captured_status : Writer → ℕ
captured_status w = elim w.sent [ none ↦ 0 | some sent ↦ sent.status ]

abbrev pub wrote_header : Writer → Bool
wrote_header w = elim w.sent [ none ↦ false | some sent ↦ true ]

module _ {S D : Type 0} where
  -- The function that runs in the transaction.
  abbrev pub in_tx : Handler S D → Request → D × (S × Writer) → Bool × (D × (S × Writer))
  in_tx next r (d, (s, w)) =
      let out = next r (record { redis = s; app = d }) w in
      (leb 400 (captured_status out.0), (out.1.app, (out.1.redis, out.0)))

  abbrev pub after_tx : TxResult × (D × (S × Writer)) → Writer × Shared S D
  after_tx (failed, (d, (s, w))) = (
    if wrote_header w then w else write_json 500 internal_err_body w,
    record { redis = s; app = d },
  )
  after_tx (_, (d, (s, w))) = (w, record { redis = s; app = d })

  -- `valid` says whether the principal's tenant is a UUID.
  unfoldable pub tenant :
      TenantOptions
      → (has_pool : Bool) → (valid : List ℕ → Bool) → TxCircumstances
      → Handler S D
      → Handler S D
  unfolding with_tenant
  tenant cfg has_pool valid tx next r sh w =
      if path_has_any_prefix r.path cfg.skip_prefixes
      then next r sh w
      else if not has_pool
      then next r sh w
      else elim r.tenant [
        | none ↦ (write_json 500 internal_err_body w, sh)
        | some t ↦ after_tx (with_tenant tx (valid t) (in_tx next r) (sh.app, (sh.redis, w)))
      ]
