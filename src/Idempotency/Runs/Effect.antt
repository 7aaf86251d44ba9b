-- ===== src/Idempotency/Runs/Effect.antt =====
-- What one step of a request does to a lock.
use iter.Common.{
  ℕ, ◌≡◌, ◌≢◌, refl, sym, ap, ◌∙◌, subst, Bool, true, false, Option, none, some, List, Bool-cases,
  Option-cases, inl, inr, arith,
}
use iter.Common.Bytes.{bytes_eq, bytes_eq→eq, bytes_eq_refl}
use iter.Common.KeyStore.{KeyStore, KeyLaws}
use iter.Idempotency.{Codec, Writer, Recorded, payload_of, replay_cached}
use iter.Idempotency.Requests.{
  Request, Keys, keys_of, Pc, arrived, reading, locking, waiting, uncached, owning, persisting,
  releasing, done, Job, Weather, Shared, arrive, turn, after_replay, locked, read_cache, poll,
  persist, after_handler, Config,
}
use iter.Idempotency.Runs.{Setup, turn_of}

-- The lock that a request holds.
abbrev pub holder : Pc → Option (List ℕ)
holder (owning k) = some k.lock_key
holder (persisting k rec) = some k.lock_key
holder (releasing k rec) = some k.lock_key
holder _ = none

abbrev pub carried : Pc → Option Keys
carried arrived = none
carried (reading k) = some k
carried (locking k) = some k
carried (waiting k deadline) = some k
carried uncached = none
carried (owning k) = some k
carried (persisting k rec) = some k
carried (releasing k rec) = some k
carried done = none

-- A request that does not use a key both for its cache and as the lock `l`.
abbrev pub IsApart : List ℕ → Pc → Type 0
IsApart l p = (k : Keys) → carried p ≡ some k → k.cache_key ≢ l

abbrev pub NamesApart : List ℕ → Request → Type 0
NamesApart l req = (tenant : List ℕ) → req.tenant ≡ some tenant → (keys_of tenant req).cache_key ≢ l

-- The lock `l` stays as it is, is taken while it was free, or is given back by its holder.
pub data Effect (R : KeyStore) (l : List ℕ) (p : Pc) (s : R.S) (p' : Pc) (s' : R.S) : Type 0 where
  kept : R.get l s' ≡ R.get l s → (holder p' ≡ some l → holder p ≡ some l) → Effect R l p s p' s'
  taken : (v : List ℕ) → R.get l s ≡ none → R.get l s' ≡ some v → Effect R l p s p' s'
  freed : holder p ≡ some l → holder p' ≡ none → Effect R l p s p' s'

pub bytes_differ : (a b : List ℕ) → bytes_eq a b ≡ false → a ≢ b
bytes_differ a b h e = true-false (sym (subst (λ x. bytes_eq a x ≡ true) e (bytes_eq_refl a)) ∙ h)
  where
    true-false : true ≡ false → ⊥
    true-false q = ground arith

pub none-some : {A : Type 0} (o : Option A) (a : A) → o ≡ none → o ≡ some a → ⊥
none-some o a e f = subst (λ x. elim x [ none ↦ Unit | some y ↦ ⊥ ]) (sym e ∙ f) tt

pub idle_effect :
    (R : KeyStore) (l : List ℕ) (p : Pc) (s : R.S) (p' : Pc)
    → holder p' ≡ none
    → Effect R l p s p' s
idle_effect R l p s p' h = kept refl (λ e. absurd (none-some (holder p') l h e))

abbrev NoLock : Job → Type 0
NoLock job = holder job.pc ≡ none

arrive-NoLock :
    (cfg : Config) (has_redis : Bool) (req : Request) (w : Writer)
    → NoLock (arrive cfg has_redis req w)
unfolding arrive
arrive-NoLock cfg has_redis req w = ground arith

after_replay-NoLock : (p : Pc) (r : Bool × Writer) → holder p ≡ none → NoLock (after_replay p r)
after_replay-NoLock p (true, w) h = refl
after_replay-NoLock p (false, w) h = h

read_cache-NoLock :
    (codec : Codec) (e : Weather) (k : Keys) (o : Option (List ℕ)) (w : Writer)
    → NoLock (read_cache codec e k o w)
read_cache-NoLock codec e k none w = refl
read_cache-NoLock codec e k (some raw) w =
    after_replay-NoLock (locking k) (replay_cached codec e.gone raw w) refl

poll-NoLock :
    (codec : Codec) (e : Weather) (k : Keys) (d : ℕ) (o : Option (List ℕ)) (w : Writer)
    → NoLock (poll codec e k d o w)
poll-NoLock codec e k d none w = ground arith
poll-NoLock codec e k d (some raw) w =
    after_replay-NoLock uncached (replay_cached codec e.gone raw w) refl

after_handler-holder :
    (max : ℕ) (k : Keys) (rec : Recorded) → holder (after_handler max k rec) ≡ some k.lock_key
after_handler-holder max k rec = ground arith

some_eq : (a b : List ℕ) → some a ≡ some b → a ≡ b
some_eq a b e = ap (λ o. elim o [ none ↦ a | some x ↦ x ]) e

module _ {R : KeyStore} (laws : KeyLaws R) (l : List ℕ) where
  set-Effect :
      (t : ℕ) (k v : List ℕ) (p p' : Pc) (s : R.S)
      → k ≢ l
      → holder p ≡ holder p'
      → Effect R l p s p' (R.set t k v s)
  set-Effect t k v p p' s h e = kept (laws.get_set_other t k l v s h) (λ f. e ∙ f)

  locked-Effect :
      (t deadline : ℕ) (k : Keys) (v : List ℕ) {App : Type 0} (s : R.S) (app : App) (w : Writer)
      → let next = locked deadline k (R.set_nx t k.lock_key v s) app w in
        Effect R l (locking k) s next.0.pc next.1.redis
  locked-Effect t deadline k v s app w = elim (Option-cases (R.get k.lock_key s)) [
    | inl free ↦
        rw (laws.set_nx_free t k.lock_key v s free) (elim (Bool-cases (bytes_eq k.lock_key l)) [
          | inl same ↦
              let e = bytes_eq→eq k.lock_key l same in
              taken v (subst (λ x. R.get x s ≡ none) e free) (
                subst (λ x. R.get x (R.set t k.lock_key v s) ≡ some v) e
                  (laws.get_set t k.lock_key v s))
          | inr other ↦
              kept (laws.get_set_other t k.lock_key l v s (bytes_differ k.lock_key l other))
                (λ q. absurd (bytes_differ k.lock_key l other (some_eq k.lock_key l q)))
        ])
    | inr (u, held) ↦ rw (laws.set_nx_held t k.lock_key v u s held) (idle_effect R l _ s _ refl)
  ]

  release-Effect :
      (k : Keys) (rec : Recorded) (s : R.S)
      → Effect R l (releasing k rec) s done (R.del k.lock_key s)
  release-Effect k rec s = elim (Bool-cases (bytes_eq k.lock_key l)) [
    | inl same ↦ freed (ap some (bytes_eq→eq k.lock_key l same)) refl
    | inr other ↦
        kept (laws.get_del_other k.lock_key l s (bytes_differ k.lock_key l other))
          (λ e. absurd (none-some none l refl e))
  ]

module _ {R : KeyStore} (laws : KeyLaws R) {App : Type 0} (M : Setup R App) (l : List ℕ) where
  pub turn-Effect :
      (req : Request) (e : Weather) (p : Pc) (w : Writer) (sh : Shared R.S App)
      → IsApart l p
      → let next = turn_of M req e (record { pc = p; writer = w }) sh in
        Effect R l p sh.redis next.0.pc next.1.redis
  unfolding turn
  turn-Effect req e arrived w sh h = idle_effect R l _ _ _ (arrive-NoLock M.cfg M.has_redis req w)
  turn-Effect req e (reading k) w sh h = elim (Bool-cases e.fails) [
    | inl f ↦ rw f (idle_effect R l _ _ _ refl)
    | inr f ↦ rw f (idle_effect R l _ _ _ (read_cache-NoLock M.codec e k _ w))
  ]
  turn-Effect req e (locking k) w sh h = elim (Bool-cases e.fails) [
    | inl f ↦ rw f (idle_effect R l _ _ _ refl)
    | inr f ↦ rw f (locked-Effect laws l _ _ k _ sh.redis sh.app w)
  ]
  turn-Effect req e (waiting k d) w sh h = elim (Bool-cases e.fails) [
    | inl f ↦ rw f (idle_effect R l _ _ _ refl)
    | inr f ↦ rw f (idle_effect R l _ _ _ (poll-NoLock M.codec e k d _ w))
  ]
  turn-Effect req e uncached w sh h = idle_effect R l _ _ _ refl
  turn-Effect req e (owning k) w sh h =
      kept refl (λ q. sym (after_handler-holder M.cfg.max_body k _) ∙ q)
  turn-Effect req e (persisting k rec) w sh h = elim (Bool-cases e.fails) [
    | inl f ↦ rw f (kept refl (λ q. q))
    | inr f ↦ rw f (by_payload (payload_of M.codec rec))
  ]
    where
      by_payload :
          (o : Option (List ℕ))
          → Effect R l
              (persisting k rec)
              sh.redis
              (releasing k rec)
              (persist R M.cfg.cache_ttl k o sh.redis)
      by_payload none = kept refl (λ q. q)
      by_payload (some v) =
          set-Effect laws l M.cfg.cache_ttl k.cache_key v (persisting k rec) (releasing k rec)
            sh.redis (h k refl) refl
  turn-Effect req e (releasing k rec) w sh h = elim (Bool-cases e.fails) [
    | inl f ↦ rw f (idle_effect R l _ _ _ refl)
    | inr f ↦ rw f (release-Effect laws l k rec sh.redis)
  ]
  turn-Effect req e done w sh h = idle_effect R l _ _ _ refl
