-- ===== src/Idempotency/Tests.antt =====
-- Runs of the middleware on concrete requests, and the properties at concrete inputs.
use iter.Common.{ℕ, suc, ◌≡◌, refl, ap, subst, true, false, not, none, some, List, [], ◌∷◌, arith}
use iter.Common.Bytes.{bytes}
use iter.Common.KeyStore.{Table, table_store, table_store-KeyLaws}
use iter.Idempotency.{
  Writer, new_recorder, Recorded, Codec, replay_cached, payload_of, write_recorded, write_header,
  write,
}
use iter.Idempotency.Keys.{IsTenantText, build_cache_key_injective}
use iter.Idempotency.Replay.{replay_cached_lem}
use iter.Idempotency.Requests.{
  default_config, with_poll_every, with_wait_timeout, configure, Request, build_lock_key, arrive,
  done, Weather, Shared, turn,
}
use iter.Idempotency.Runs.{
  Setup, among, start, fair, done_with, alone, System, pick, Reach, begin, later,
}
use iter.Idempotency.Runs.Steps.{TakesPart, response}
use iter.Idempotency.Runs.Exclusion.{lock_exclusive}
use iter.Idempotency.Runs.Retry.{retry_replays}
use iter.Idempotency.Runs.Rerun.{take_turns, at_start, both_run}
use iter.Idempotency.Runs.Memo.{Call, answer_all, serve_all}
use iter.Idempotency.Runs.Refines.{IsServed, serve_all_refines}
use iter.Idempotency.Runs.Answered.{request_answered}

-- A codec of responses without headers: the status, then the body.
abbrev plain : Codec
plain = record {
  encode = λ b. b;
  decode = λ b. some b;
  marshal = λ cr. some (cr.status ∷ cr.body_b64);
  unmarshal = λ raw. elim raw [
    | [] ↦ none
    | status ∷ body ↦ some (record { status = status; headers = []; body_b64 = body })
  ];
}

-- A handler that counts its runs and answers 201.
abbrev counting : Request → ℕ → Writer → Writer × ℕ
counting req n w = (write (bytes "made") (write_header 201 w), suc n)

abbrev server : Setup table_store ℕ
server = record { codec = plain; serve = counting; cfg = default_config; has_redis = true }

abbrev tenant : List ℕ
tenant = bytes "7f"

abbrev suggest : Request
suggest = record {
  method = "POST";
  path = bytes "/v1/suggest";
  idempotency_key = bytes "k1";
  tenant = some tenant;
  body = bytes "{}";
}

abbrev at_first : Shared Table ℕ
at_first = record { redis = λ k. none; app = 0 }

abbrev made : Recorded
made = record { code = 201; header = []; body = bytes "made" }

suggest-TakesPart : TakesPart default_config tenant suggest
suggest-TakesPart = record { post = refl; kept = refl; keyed = refl; owned = refl }

seven : IsTenantText tenant
seven = λ e. ground arith

replay_cached_lem_example :
    replay_cached plain false (201 ∷ bytes "made") new_recorder
    ≡ (not false, write_recorded made true new_recorder)
unfolding payload_of
replay_cached_lem_example =
    replay_cached_lem plain made (201 ∷ bytes "made") false new_recorder (refl, refl, refl)

build_cache_key_injective_run :
    (tenant ≡ tenant) × (bytes "/v1/suggest" ≡ bytes "/v1/suggest") × (bytes "a:b" ≡ bytes "a:b")
build_cache_key_injective_run =
    build_cache_key_injective tenant tenant (bytes "/v1/suggest") (bytes "/v1/suggest")
      (bytes "a:b") (bytes "a:b") refl refl refl refl

retry_replays_run :
    let first = alone server suggest 5 new_recorder at_first in
    (first.0 ≡ done_with (write_recorded (response server suggest 0) false new_recorder))
    × (first.1.app ≡ 1)
    × (alone server suggest 9 new_recorder first.1
        ≡ (done_with (write_recorded (response server suggest 0) true new_recorder), first.1))
unfolding payload_of write write_header
retry_replays_run =
    retry_replays table_store-KeyLaws server tenant suggest suggest 5 9 new_recorder new_recorder
      at_first (201 ∷ bytes "made") seven suggest-TakesPart suggest-TakesPart refl refl refl refl
      (omega arith) (refl, refl, refl)

both_run_example :
    (order : List ℕ) × ((take_turns {R = table_store} server
        (λ i. suggest)
        5
        order
        (at_start (λ i. new_recorder) at_first)).shared.app
      ≡ 2)
unfolding payload_of write write_header
both_run_example =
    both_run table_store-KeyLaws server (λ i. suggest) (λ i. new_recorder) at_first tenant 5
      (201 ∷ bytes "made") suggest-TakesPart suggest-TakesPart refl refl refl refl (omega arith)
      (omega arith) refl

-- Two turns of the first request, among others.
abbrev under_way :
    (s : System Table ℕ) × Reach {R = table_store} server
      (λ i. suggest)
      (λ k. ⊥)
      (λ i. new_recorder)
      at_first
      s
under_way = (_, later (later (later begin (pick 0 (fair 1))) (pick 0 (fair 2))) (pick 0 (fair 3)))

lock_exclusive_example : ◌≡◌ {A = ℕ} 0 0
unfolding turn arrive
lock_exclusive_example =
    lock_exclusive table_store-KeyLaws server (λ i. suggest) (λ k. ⊥) tenant (bytes "/v1/suggest")
      (bytes "k1") (λ i. new_recorder) at_first under_way.0 (λ e. e) texts under_way.1 0 0 refl refl
  where
    texts : (i : ℕ) (t : List ℕ) → suggest.tenant ≡ some t → IsTenantText t
    texts i t e = subst IsTenantText (ap (λ o. elim o [ none ↦ [] | some x ↦ x ]) e) seven

-- A server that polls every two milliseconds, for three.
abbrev brisk : Setup table_store ℕ
brisk = record {
  codec = plain;
  serve = counting;
  cfg = configure (with_poll_every 2 ∷ with_wait_timeout 3 ∷ []) default_config;
  has_redis = true;
}

-- A store in which another request holds the lock.
abbrev contended : Shared Table ℕ
contended = record {
  redis =
      (table_store.set_nx 60 (build_lock_key tenant (bytes "/v1/suggest") (bytes "k1")) (bytes "1")
        at_first.redis).1;
  app = 0;
}

abbrev at : ℕ → Weather × Shared Table ℕ
at now = (fair now, contended)

request_answered_example :
    (among brisk suggest
      (at 1 ∷ at 2 ∷ at 3 ∷ at 4 ∷ at 6 ∷ at 8 ∷ at 9 ∷ [])
      (start new_recorder)).pc
    ≡ done
unfolding turn arrive
request_answered_example =
    request_answered brisk suggest 2 (at 1 ∷ at 2 ∷ at 3 ∷ at 4 ∷ at 6 ∷ at 8 ∷ at 9 ∷ []) 1
      new_recorder (omega arith) (omega arith)
      (
        omega arith,
        (
          omega arith,
          (omega arith, (omega arith, (omega arith, (omega arith, (omega arith, tt))))),
        ),
      )

abbrev call : Call
call = record { tenant = tenant; req = suggest; now = 1; writer = new_recorder }

call-IsServed : IsServed table_store-KeyLaws server (λ rec. rec.code ∷ rec.body) call
call-IsServed = record { text = seven; part = suggest-TakesPart }

abbrev twice : List Call
twice = call ∷ call ∷ []

serve_all_refines_example :
    serve_all server twice (record { redis = λ k. none; app = 0 })
    ≡ answer_all server twice (record { answers = λ k. none; app = 0 })
unfolding payload_of write write_header
serve_all_refines_example =
    serve_all_refines table_store-KeyLaws server (λ rec. rec.code ∷ rec.body) twice (λ k. none) 0
      (λ k. none) refl (call-IsServed, (call-IsServed, tt)) (λ req n. omega arith)
      (λ req n. (refl, refl, refl))
      (record {
        cached = λ t p q h. refl;
        unlocked = λ t p q. refl;
        readable = λ k rec e. absurd (none_known rec e);
      })
  where
    none_known : (rec : Recorded) → none ≡ some rec → ⊥
    none_known rec e = ground (arith, e)
