-- ===== src/Idempotency/Keys.antt =====
-- The keys of two requests: when they are the same, and that no cache key is a lock key.
use iter.Common.{ℕ, ◌≡◌, ◌≢◌, refl, ap, false, List, [], ◌∷◌, ◌++◌, length}
use iter.Common.Bytes.{bytes, head_or, has_byte, append-cancel, append-split, append-separated}
use iter.Idempotency.Requests.{build_cache_key, build_lock_key}

-- Requests of two tenants whose identifiers have one length, on routes without a colon, have the
-- same cache key only if tenant, route and Idempotency-Key are all the same.
pub build_cache_key_injective :
    (tenant tenant' route route' key key' : List ℕ)
    → length tenant ≡ length tenant'
    → has_byte 58 route ≡ false
    → has_byte 58 route' ≡ false
    → build_cache_key tenant route key ≡ build_cache_key tenant' route' key'
    → (tenant ≡ tenant') × (route ≡ route') × (key ≡ key')
build_cache_key_injective tenant tenant' route route' key key' l h h' e =
    let parts =
      append-split tenant tenant' (bytes ":POST:" ++ (route ++ (bytes ":" ++ key)))
        (bytes ":POST:" ++ (route' ++ (bytes ":" ++ key'))) l
        (append-cancel (bytes "idempotency:") _ _ e) in
    let rest =
      append-separated 58 route route' key key' h h' (append-cancel (bytes ":POST:") _ _ parts.1) in
    (parts.0, rest.0, rest.1)

-- A tenant's identifier is not empty and begins with a hexadecimal digit, so not with the letter l.
abbrev pub IsTenantText : List ℕ → Type 0
IsTenantText tenant = head_or 108 tenant ≢ 108

pub build_cache_key-apart :
    (tenant tenant' route route' key key' : List ℕ)
    → IsTenantText tenant
    → build_cache_key tenant route key ≢ build_lock_key tenant' route' key'
build_cache_key-apart [] tenant' route route' key key' h e = absurd (h refl)
build_cache_key-apart (b ∷ tenant) tenant' route route' key key' h e =
    h (ap (head_or 108) (append-cancel (bytes "idempotency:") _ _ e))
