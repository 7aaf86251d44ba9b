-- ===== src/Idempotency/Requests.antt =====
-- idempotency.go: the options, the keys of a request, and the middleware as the steps of one
-- request between two calls of Redis.
use iter.Common.{
  ℕ, ◌+◌, ◌*◌, ◌^◌, Bool, true, false, not, ◌&&◌, ltb, if◌then◌else◌, Option, none, some, List, [],
  ◌∷◌, ◌++◌, String, str_eq, length, any,
}
use iter.Common.Bytes.{bytes, has_prefix, is_empty}
use iter.Common.KeyStore.{KeyStore}
use iter.Idempotency.{
  Writer, new_recorder, Recorded, recorded, Codec, replay_cached, payload_of, write_recorded,
  write_json,
}

-- Times are in milliseconds.
pub record Config : Type 0 where
  pub cache_ttl : ℕ
  pub lock_ttl : ℕ
  pub wait_timeout : ℕ
  pub poll_every : ℕ
  pub max_body : ℕ
  pub skip_prefixes : List (List ℕ)

abbrev pub default_config : Config
default_config = record {
  cache_ttl = 24 * 60 * 60 * 1000;
  lock_ttl = 60 * 1000;
  wait_timeout = 30 * 1000;
  poll_every = 50;
  max_body = 2 ^ 20;
  skip_prefixes = bytes "/v1/webhooks" ∷ bytes "/health" ∷ [];
}

abbrev pub IdempotencyOption : Type 0
IdempotencyOption = Config → Config

abbrev pub with_cache_ttl : ℕ → IdempotencyOption
with_cache_ttl d c = record c { cache_ttl = d }

abbrev pub with_lock_ttl : ℕ → IdempotencyOption
with_lock_ttl d c = record c { lock_ttl = d }

abbrev pub with_wait_timeout : ℕ → IdempotencyOption
with_wait_timeout d c = record c { wait_timeout = d }

abbrev pub with_poll_every : ℕ → IdempotencyOption
with_poll_every d c = record c { poll_every = d }

abbrev pub with_max_body_bytes : ℕ → IdempotencyOption
with_max_body_bytes n c = record c { max_body = n }

abbrev pub with_skip_prefix : List ℕ → IdempotencyOption
with_skip_prefix prefix c = record c { skip_prefixes = c.skip_prefixes ++ prefix ∷ [] }

abbrev pub configure : List IdempotencyOption → Config → Config
configure [] c = c
configure (o ∷ opts) c = configure opts (o c)

-- The tenant is that of the principal on the request's context.
pub record Request : Type 0 where
  pub method : String
  pub path : List ℕ
  pub idempotency_key : List ℕ
  pub tenant : Option (List ℕ)
  pub body : List ℕ

abbrev pub path_has_any_prefix : List ℕ → List (List ℕ) → Bool
path_has_any_prefix path prefixes = any (λ p. not (is_empty p) && has_prefix p path) prefixes

abbrev pub build_cache_key : List ℕ → List ℕ → List ℕ → List ℕ
build_cache_key tenant route key =
    bytes "idempotency:" ++ (tenant ++ (bytes ":POST:" ++ (route ++ (bytes ":" ++ key))))

abbrev pub build_lock_key : List ℕ → List ℕ → List ℕ → List ℕ
build_lock_key tenant route key =
    bytes "idempotency:lock:" ++ (tenant ++ (bytes ":POST:" ++ (route ++ (bytes ":" ++ key))))

pub record Keys : Type 0 where
  pub cache_key : List ℕ
  pub lock_key : List ℕ

-- The route is the path.
abbrev pub keys_of : List ℕ → Request → Keys
keys_of tenant req = record {
  cache_key = build_cache_key tenant req.path req.idempotency_key;
  lock_key = build_lock_key tenant req.path req.idempotency_key;
}

-- Where a request stands.
pub data Pc : Type 0 where
  arrived : Pc
  reading : Keys → Pc  -- before `tryReplay`
  locking : Keys → Pc  -- before SETNX
  waiting : Keys → ℕ → Pc  -- before a GET of `waitAndReplay`, with the deadline
  uncached : Pc  -- before the handler writes to the client
  owning : Keys → Pc  -- before the handler writes to the recorder
  persisting : Keys → Recorded → Pc
  releasing : Keys → Recorded → Pc  -- before DEL
  done : Pc

pub record Job : Type 0 where
  pub pc : Pc
  pub writer : Writer

-- The time of a step, whether its call of Redis fails, and without effect, whether a replay cannot
-- be written, and whether the request is cancelled.
pub record Weather : Type 0 where
  pub now : ℕ
  pub fails : Bool
  pub gone : Bool
  pub cancelled : Bool

abbrev pub missing_key_body : List ℕ
missing_key_body = bytes "{\"error\":\"missing_idempotency_key\"}"

abbrev pub internal_err_body : List ℕ
internal_err_body = bytes "{\"error\":\"internal\"}"

-- Up to the computation of the keys; `has_redis` is `rdb != nil`.
unfoldable pub arrive : Config → Bool → Request → Writer → Job
arrive cfg has_redis req w =
    if not (str_eq req.method "POST")
    then record { pc = uncached; writer = w }
    else if path_has_any_prefix req.path cfg.skip_prefixes
    then record { pc = uncached; writer = w }
    else if not has_redis
    then record { pc = uncached; writer = w }
    else if is_empty req.idempotency_key
    then record { pc = done; writer = write_json 400 missing_key_body w }
    else elim req.tenant [
      | none ↦ record { pc = done; writer = write_json 500 internal_err_body w }
      | some tenant ↦ record { pc = reading (keys_of tenant req); writer = w }
    ]

abbrev pub after_replay : Pc → Bool × Writer → Job
after_replay otherwise (true, w) = record { pc = done; writer = w }
after_replay otherwise (false, w) = record { pc = otherwise; writer = w }

pub record Shared (S App : Type 0) : Type 0 where
  pub redis : S
  pub app : App

abbrev pub read_cache : Codec → Weather → Keys → Option (List ℕ) → Writer → Job
read_cache codec e k none w = record { pc = locking k; writer = w }
read_cache codec e k (some raw) w = after_replay (locking k) (replay_cached codec e.gone raw w)

-- One round of the loop of `waitAndReplay`.
abbrev pub poll : Codec → Weather → Keys → ℕ → Option (List ℕ) → Writer → Job
poll codec e k deadline (some raw) w = after_replay uncached (replay_cached codec e.gone raw w)
poll codec e k deadline none w =
    if ltb deadline e.now
    then record { pc = uncached; writer = w }
    else if e.cancelled
    then record { pc = uncached; writer = w }
    else record { pc = waiting k deadline; writer = w }

abbrev pub locked : {S App : Type 0} → ℕ → Keys → Bool × S → App → Writer → Job × Shared S App
locked deadline k (true, s) app w =
    (record { pc = owning k; writer = w }, record { redis = s; app = app })
locked deadline k (false, s) app w =
    (record { pc = waiting k deadline; writer = w }, record { redis = s; app = app })

abbrev pub persist : (R : KeyStore) → ℕ → Keys → Option (List ℕ) → R.S → R.S
persist R ttl k none s = s
persist R ttl k (some payload) s = R.set ttl k.cache_key payload s

abbrev pub after_handler : ℕ → Keys → Recorded → Pc
after_handler max_body k rec =
    if ltb max_body (length rec.body) then releasing k rec else persisting k rec

-- `serve` is the next handler, on the application's state.
module _ (R : KeyStore) {App : Type 0} (codec : Codec)
    (serve : Request → App → Writer → Writer × App) (cfg : Config) (has_redis : Bool) where
  unfoldable pub turn : Request → Weather → Pc → Writer → R.S → App → Job × Shared R.S App
  unfolding arrive
  turn req e arrived w s app = (arrive cfg has_redis req w, record { redis = s; app = app })
  turn req e (reading k) w s app = (
    if e.fails
        then record { pc = locking k; writer = w }
        else read_cache codec e k (R.get k.cache_key s) w,
    record { redis = s; app = app },
  )
  turn req e (locking k) w s app =
      if e.fails
      then (record { pc = uncached; writer = w }, record { redis = s; app = app })
      else locked (e.now + cfg.wait_timeout) k (R.set_nx cfg.lock_ttl k.lock_key (bytes "1") s) app
          w
  turn req e (waiting k deadline) w s app = (
    if e.fails
        then record { pc = uncached; writer = w }
        else poll codec e k deadline (R.get k.cache_key s) w,
    record { redis = s; app = app },
  )
  turn req e uncached w s app =
      let served = serve req app w in
      (record { pc = done; writer = served.0 }, record { redis = s; app = served.1 })
  turn req e (owning k) w s app =
      let served = serve req app new_recorder in
      (
        record { pc = after_handler cfg.max_body k (recorded served.0); writer = w },
        record { redis = s; app = served.1 },
      )
  turn req e (persisting k rec) w s app = (
    record { pc = releasing k rec; writer = w },
    record {
      redis = if e.fails then s else persist R cfg.cache_ttl k (payload_of codec rec) s;
      app = app;
    },
  )
  turn req e (releasing k rec) w s app = (
    record { pc = done; writer = write_recorded rec false w },
    record { redis = if e.fails then s else R.del k.lock_key s; app = app },
  )
  turn req e done w s app = (record { pc = done; writer = w }, record { redis = s; app = app })
