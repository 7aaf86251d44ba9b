-- ===== src/Idempotency/Runs.antt =====
-- Requests over one Redis, interleaved in any order, and one request by itself.
pub mod Effect
pub mod Carried
pub mod Places
pub mod Exclusion
pub mod Steps
pub mod Retry
pub mod Waiting
pub mod Answered
pub mod Memo
pub mod Refines
pub mod Rerun
use iter.Common.{ℕ, zero, suc, Bool, false, Option, none, some, List, [], ◌∷◌, ◌==◌, if◌then◌else◌}
use iter.Common.KeyStore.{KeyStore}
use iter.Idempotency.{Writer, Codec}
use iter.Idempotency.Requests.{Config, Request, Pc, arrived, done, Job, Weather, Shared, turn}

-- What the middleware of one server is built from.
pub record Setup (R : KeyStore) (App : Type 0) : Type 0 where
  pub codec : Codec
  pub serve : Request → App → Writer → Writer × App
  pub cfg : Config
  pub has_redis : Bool

module _ {R : KeyStore} {App : Type 0} (M : Setup R App) where
  abbrev pub turn_of : Request → Weather → Job → Shared R.S App → Job × Shared R.S App
  turn_of req e job sh =
      turn R M.codec M.serve M.cfg M.has_redis req e job.pc job.writer sh.redis sh.app

  -- A request by itself, its steps under the given circumstances.
  unfoldable pub turns : Request → List Weather → Job → Shared R.S App → Job × Shared R.S App
  turns req [] job sh = (job, sh)
  turns req (e ∷ es) job sh = let next = turn_of req e job sh in turns req es next.0 next.1

  -- The same while the store and the application are what others leave before each step.
  unfoldable pub among : Request → List (Weather × Shared R.S App) → Job → Job
  among req [] job = job
  among req ((e, sh) ∷ es) job = among req es (turn_of req e job sh).0

abbrev pub start : Writer → Job
start w = record { pc = arrived; writer = w }

-- All goes well.
abbrev pub fair : ℕ → Weather
fair now = record { now = now; fails = false; gone = false; cancelled = false }

abbrev pub done_with : Writer → Job
done_with w = record { pc = done; writer = w }

-- A request by itself that takes part: six steps are enough.
abbrev pub alone :
    {R : KeyStore} {App : Type 0}
    → Setup R App
    → Request
    → ℕ
    → Writer
    → Shared R.S App
    → Job × Shared R.S App
alone M req now w sh = let e = fair now in turns M req (e ∷ e ∷ e ∷ e ∷ e ∷ e ∷ []) (start w) sh

-- The requests of a server, and the keys that may expire.
pub record System (S App : Type 0) : Type 0 where
  pub shared : Shared S App
  pub jobs : ℕ → Job

abbrev pub update : (ℕ → Job) → ℕ → Job → ℕ → Job
update f i job j = if i == j then job else f j

abbrev pub picked :
    {R : KeyStore} {App : Type 0}
    → Setup R App
    → (ℕ → Request)
    → ℕ
    → Weather
    → System R.S App
    → System R.S App
picked M requests i e s =
    let next = turn_of M (requests i) e (s.jobs i) s.shared in
    record { shared = next.1; jobs = update s.jobs i next.0 }

abbrev pub expired : (R : KeyStore) {App : Type 0} → List ℕ → System R.S App → System R.S App
expired R k s = record {
  shared = record { redis = R.del k s.shared.redis; app = s.shared.app };
  jobs = s.jobs;
}

module _ {R : KeyStore} {App : Type 0} (M : Setup R App) (requests : ℕ → Request)
    (MayExpire : List ℕ → Type 0) where
  pub data Step (s : System R.S App) : System R.S App → Type 0 where
    pick : (i : ℕ) (e : Weather) → Step s (picked M requests i e s)
    expire : (k : List ℕ) → MayExpire k → Step s (expired R k s)

  -- From a store where nothing is kept yet for the requests in question.
  pub data Reach (writers : ℕ → Writer) (sh : Shared R.S App) : System R.S App → Type 0 where
    begin : Reach writers sh (record { shared = sh; jobs = λ i. start (writers i) })
    later : {s t : System R.S App} → Reach writers sh s → Step s t → Reach writers sh t
