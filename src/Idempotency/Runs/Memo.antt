-- ===== src/Idempotency/Runs/Memo.antt =====
-- What the middleware promises: it is a memory of the answers.
use iter.Common.{ℕ, ◌≡◌, true, false, if◌then◌else◌, Option, none, some, List, [], ◌∷◌}
use iter.Common.Bytes.{bytes_eq}
use iter.Common.KeyStore.{KeyStore}
use iter.Idempotency.{Writer, Recorded, new_recorder, write_recorded}
use iter.Idempotency.Replay.{ReadsBack}
use iter.Idempotency.Keys.{IsTenantText}
use iter.Idempotency.Requests.{Request, keys_of, build_cache_key, build_lock_key, Shared}
use iter.Idempotency.Runs.{Setup, alone}
use iter.Idempotency.Runs.Steps.{response}

-- A request of a tenant, the time it is served, and the writer it is answered on.
pub record Call : Type 0 where
  pub tenant : List ℕ
  pub req : Request
  pub now : ℕ
  pub writer : Writer

-- The answers by cache key, and the application.
pub record Memory (App : Type 0) : Type 0 where
  pub answers : List ℕ → Option Recorded
  pub app : App

abbrev pub call_key : Call → List ℕ
call_key c = (keys_of c.tenant c.req).cache_key

abbrev pub remember : List ℕ → Recorded → (List ℕ → Option Recorded) → List ℕ → Option Recorded
remember k rec answers l = if bytes_eq k l then some rec else answers l

module _ {R : KeyStore} {App : Type 0} (M : Setup R App) where
  -- The specification: the handler runs for the first call of a key, and its answer is kept.
  abbrev pub recall : Call → Memory App → Option Recorded → Writer × Memory App
  recall c m (some rec) = (write_recorded rec true c.writer, m)
  recall c m none =
      let rec = response M c.req m.app in
      (
        write_recorded rec false c.writer,
        record {
          answers = remember (call_key c) rec m.answers;
          app = (M.serve c.req m.app new_recorder).1;
        },
      )

  abbrev pub answer_all : List Call → Memory App → List Writer × App
  answer_all [] m = ([], m.app)
  answer_all (c ∷ cs) m =
      let first = recall c m (m.answers (call_key c)) in
      let rest = answer_all cs first.1 in (first.0 ∷ rest.0, rest.1)

  -- The middleware, one call after the other.
  unfoldable pub serve_all : List Call → Shared R.S App → List Writer × App
  serve_all [] sh = ([], sh.app)
  serve_all (c ∷ cs) sh =
      let first = alone M c.req c.now c.writer sh in
      let rest = serve_all cs first.1 in (first.0.writer ∷ rest.0, rest.1)

  abbrev pub payload_in : (Recorded → List ℕ) → Option Recorded → Option (List ℕ)
  payload_in raw_of none = none
  payload_in raw_of (some rec) = some (raw_of rec)

  -- The store holds the payloads of the remembered answers, and no lock.
  pub record Represents (raw_of : Recorded → List ℕ) (s : R.S) (answers : List ℕ → Option Recorded)
      : Type 0 where
    pub cached :
        (t p q : List ℕ)
        → IsTenantText t
        → R.get (build_cache_key t p q) s ≡ payload_in raw_of (answers (build_cache_key t p q))
    pub unlocked : (t p q : List ℕ) → R.get (build_lock_key t p q) s ≡ none
    pub readable :
        (k : List ℕ) (rec : Recorded) → answers k ≡ some rec → ReadsBack M.codec rec (raw_of rec)
