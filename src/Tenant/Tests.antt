-- ===== src/Tenant/Tests.antt =====
-- The transaction of a request, on concrete inputs.
use iter.Common.{ℕ, suc, ◌≡◌, refl, true, false, none, some, List, [], ◌∷◌, arith}
use iter.Common.Bytes.{bytes}
use iter.Common.KeyStore.{Table, table_store, table_store-KeyLaws}
use iter.Idempotency.{Writer, Codec, new_recorder, write_recorded, write, write_header, payload_of}
use iter.Idempotency.Keys.{IsTenantText}
use iter.Idempotency.Requests.{Request, default_config, Shared}
use iter.Idempotency.Runs.{Setup}
use iter.Idempotency.Runs.Steps.{TakesPart, response}
use iter.Tenant.{TxCircumstances, default_options, Handler, wrote_header, tenant}
use iter.Tenant.Commit.{IsTenanted, tenant_commits}
use iter.Tenant.Stack.{idempotency, failed_commit_replayed}

abbrev plain : Codec
plain = record {
  encode = λ b. b;
  decode = λ b. some b;
  marshal = λ cr. some (cr.status ∷ cr.body_b64);
  unmarshal = λ raw. elim raw [
    | [] ↦ none
    | status ∷ body ↦ some (record { status = status; headers = []; body_b64 = body })
  ];
}

-- The tables are a number, which the handler adds one to.
abbrev inserting : Request → ℕ → Writer → Writer × ℕ
inserting req n w = (write (bytes "made") (write_header 201 w), suc n)

abbrev server : Setup table_store ℕ
server = record { codec = plain; serve = inserting; cfg = default_config; has_redis = true }

abbrev text : List ℕ
text = bytes "7f"

abbrev suggest : Request
suggest = record {
  method = "POST";
  path = bytes "/v1/suggest";
  idempotency_key = bytes "k1";
  tenant = some text;
  body = bytes "{}";
}

abbrev good : TxCircumstances
good = record { opens = true; commits = true }

abbrev cut_off : TxCircumstances
cut_off = record { opens = true; commits = false }

abbrev at_first : Shared Table ℕ
at_first = record { redis = λ k. none; app = 0 }

abbrev direct : Handler Table ℕ
direct r sh w =
    let served = inserting r sh.app w in (served.0, record { redis = sh.redis; app = served.1 })

suggest-IsTenanted :
    (tx : TxCircumstances)
    → tx.opens ≡ true
    → IsTenanted default_options (λ t. true) suggest tx text
suggest-IsTenanted tx h = record { kept = refl; owned = refl; named = refl; opens = h }

tenant_commits_example :
    let all = tenant default_options true (λ t. true) good direct suggest at_first new_recorder in
    (all.1.app ≡ 1)
    × (all.1.redis ≡ at_first.redis)
    × (wrote_header (direct suggest at_first new_recorder).0 ≡ true
        → all.0 ≡ (direct suggest at_first new_recorder).0)
unfolding write write_header
tenant_commits_example =
    tenant_commits default_options (λ t. true) good direct suggest at_first new_recorder text
      (suggest-IsTenanted good refl)

suggest-TakesPart : TakesPart default_config text suggest
suggest-TakesPart = record { post = refl; kept = refl; keyed = refl; owned = refl }

failed_commit_replayed_example :
    let first =
      tenant default_options true
        (λ t. true)
        cut_off
        (idempotency server 1)
        suggest
        at_first
        new_recorder in
    let second =
      tenant default_options true
        (λ t. true)
        good
        (idempotency server 2)
        suggest
        first.1
        new_recorder in
    (first.0 ≡ write_recorded (response server suggest 0) false new_recorder)
    × (first.1.app ≡ 0)
    × (second.0 ≡ write_recorded (response server suggest 0) true new_recorder)
    × (second.1.app ≡ 0)
unfolding payload_of write write_header
failed_commit_replayed_example =
    failed_commit_replayed table_store-KeyLaws server default_options (λ t. true) text suggest
      suggest cut_off good 1 2 new_recorder new_recorder at_first (201 ∷ bytes "made") refl
      (suggest-IsTenanted cut_off refl) (suggest-IsTenanted good refl) seven suggest-TakesPart
      suggest-TakesPart refl refl refl refl (omega arith) (refl, refl, refl)
  where
    seven : IsTenantText text
    seven = λ e. ground arith
