-- ===== src/Idempotency/Runs/Exclusion.antt =====
-- Who holds a lock, over every interleaving of the requests.
use iter.Common.{
  ℕ, ◌≡◌, ◌≢◌, refl, sym, ◌∙◌, subst, false, none, some, List, ◌==◌, if◌then◌else◌, Bool-cases, inl,
  inr, ==_iff, arith,
}
use iter.Common.KeyStore.{KeyStore, KeyLaws}
use iter.Idempotency.{Writer}
use iter.Idempotency.Requests.{Request, Job, Shared, build_lock_key}
use iter.Idempotency.Keys.{IsTenantText, build_cache_key-apart}
use iter.Idempotency.Runs.{Setup, turn_of, update, System, Step, pick, expire, Reach, begin, later}
use iter.Idempotency.Runs.Carried.{turn-IsApart}
use iter.Idempotency.Runs.Effect.{
  holder, IsApart, NamesApart, Effect, kept, taken, freed, turn-Effect, none-some,
}

pub record LockInv (R : KeyStore) {App : Type 0} (l : List ℕ) (s : System R.S App) : Type 0 where
  pub held :
      (i : ℕ) → holder (s.jobs i).pc ≡ some l → (v : List ℕ) × (R.get l s.shared.redis ≡ some v)
  pub unique : (i j : ℕ) → holder (s.jobs i).pc ≡ some l → holder (s.jobs j).pc ≡ some l → i ≡ j
  pub apart : (i : ℕ) → IsApart l (s.jobs i).pc

-- A property of every job after one of them was replaced.
update_all :
    (P : ℕ → Job → Type 0) (f : ℕ → Job) (i : ℕ) (a : Job)
    → P i a
    → ((j : ℕ) → i ≢ j → P j (f j))
    → (j : ℕ) → P j (update f i a j)
update_all P f i a here other j = elim (Bool-cases (i == j)) [
  | inl e ↦
      subst (λ b. P j (if b then a else f j)) (sym e) (subst (λ n. P n a) ((==_iff i j).0 e) here)
  | inr e ↦ subst (λ b. P j (if b then a else f j)) (sym e) (other j (differ e))
]
  where
    differ : (i == j) ≡ false → i ≢ j
    differ e q = ground (arith, e, q)

module _ (l : List ℕ) where
  -- At most one holder after the job `i` was replaced, if its new state holds the lock only when
  -- no other job does.
  unique_after :
      (f : ℕ → Job) (i : ℕ) (a : Job)
      → ((j k : ℕ) → holder (f j).pc ≡ some l → holder (f k).pc ≡ some l → j ≡ k)
      → ((j : ℕ) → i ≢ j → holder a.pc ≡ some l → holder (f j).pc ≡ some l → i ≡ j)
      → (j k : ℕ) → holder (update f i a j).pc ≡ some l
      → holder (update f i a k).pc ≡ some l
      → j ≡ k
  unique_after f i a old new j k =
      update_all (λ j job. holder job.pc ≡ some l → holder (update f i a k).pc ≡ some l → j ≡ k) f i
        a
        (λ q.
          update_all (λ k job. holder job.pc ≡ some l → i ≡ k) f i a (λ r. refl)
            (λ m ne r. new m ne q r) k)
        (λ n ne q.
          update_all (λ k job. holder job.pc ≡ some l → n ≡ k) f i a (λ r. sym (new n ne r q))
            (λ m other r. old n m q r) k)
        j

module _ {R : KeyStore} {App : Type 0} (l : List ℕ) where
  Effect-LockInv :
      (s : System R.S App) (i : ℕ) (a : Job) (sh : Shared R.S App)
      → Effect R l (s.jobs i).pc s.shared.redis a.pc sh.redis
      → IsApart l a.pc
      → LockInv R l s
      → LockInv R l (record { shared = sh; jobs = update s.jobs i a })
  Effect-LockInv s i a sh (kept same back) apart inv = record {
    held =
        update_all (λ j job. holder job.pc ≡ some l → (v : List ℕ) × (R.get l sh.redis ≡ some v))
          s.jobs i a (λ q. let h = inv.held i (back q) in (h.0, same ∙ h.1))
          (λ j ne q. let h = inv.held j q in (h.0, same ∙ h.1));
    unique = unique_after l s.jobs i a inv.unique (λ j ne q r. inv.unique i j (back q) r);
    apart = update_all (λ j job. IsApart l job.pc) s.jobs i a apart (λ j ne. inv.apart j);
  }
  Effect-LockInv s i a sh (taken v free now) apart inv = record {
    held =
        update_all (λ j job. holder job.pc ≡ some l → (u : List ℕ) × (R.get l sh.redis ≡ some u))
          s.jobs i a (λ q. (v, now)) (λ j ne q. (v, now));
    unique = unique_after l s.jobs i a inv.unique (λ j ne q r.
        absurd (none-some (R.get l s.shared.redis) (inv.held j r).0 free (inv.held j r).1));
    apart = update_all (λ j job. IsApart l job.pc) s.jobs i a apart (λ j ne. inv.apart j);
  }
  Effect-LockInv s i a sh (freed had gone) apart inv = record {
    held =
        update_all (λ j job. holder job.pc ≡ some l → (u : List ℕ) × (R.get l sh.redis ≡ some u))
          s.jobs i a (λ q. absurd (none-some (holder a.pc) l gone q))
          (λ j ne q. absurd (ne (inv.unique i j had q)));
    unique =
        unique_after l s.jobs i a inv.unique
          (λ j ne q r. absurd (none-some (holder a.pc) l gone q));
    apart = update_all (λ j job. IsApart l job.pc) s.jobs i a apart (λ j ne. inv.apart j);
  }

module _ {R : KeyStore} (laws : KeyLaws R) {App : Type 0} (M : Setup R App) (requests : ℕ → Request)
    (MayExpire : List ℕ → Type 0) (l : List ℕ) where
  abbrev pub Stays : Type 0
  Stays = MayExpire l → ⊥

  Step-LockInv :
      (s t : System R.S App)
      → Stays
      → ((i : ℕ) → NamesApart l (requests i))
      → Step M requests MayExpire s t
      → LockInv R l s
      → LockInv R l t
  Step-LockInv s _ stays names (pick i e) inv =
      let job = s.jobs i in
      let next = turn_of M (requests i) e job s.shared in
      Effect-LockInv l s i next.0 next.1
        (turn-Effect laws M l (requests i) e job.pc job.writer s.shared (inv.apart i))
        (turn-IsApart M l (requests i) e job.pc job.writer s.shared (names i) (inv.apart i)) inv
  Step-LockInv s _ stays names (expire k may) inv = record {
    held = λ i q. let h = inv.held i q in (h.0, laws.get_del_other k l s.shared.redis differ ∙ h.1);
    unique = inv.unique;
    apart = inv.apart;
  }
    where
      differ : k ≢ l
      differ e = stays (subst MayExpire e may)

  Reach-LockInv :
      (writers : ℕ → Writer) (sh : Shared R.S App) (s : System R.S App)
      → Stays
      → ((i : ℕ) → NamesApart l (requests i))
      → Reach M requests MayExpire writers sh s
      → LockInv R l s
  Reach-LockInv writers sh _ stays names begin = record {
    held = λ i q. absurd (none-some none l refl q);
    unique = λ i j q r. absurd (none-some none l refl q);
    apart = λ i k q. absurd (none-some none k refl q);
  }
  Reach-LockInv writers sh _ stays names (later {s} {t} reach step) =
      Step-LockInv s t stays names step (Reach-LockInv writers sh s stays names reach)

module _ {R : KeyStore} (laws : KeyLaws R) {App : Type 0} (M : Setup R App) (requests : ℕ → Request)
    (MayExpire : List ℕ → Type 0) where
  -- However the requests are interleaved, and whatever calls of Redis fail: while the lock of a
  -- tenant, route and Idempotency-Key does not expire, two requests never hold it at once. Tenants
  -- are named by texts that do not begin with the letter l.
  pub lock_exclusive :
      (tenant route key : List ℕ) (writers : ℕ → Writer) (sh : Shared R.S App) (s : System R.S App)
      → (MayExpire (build_lock_key tenant route key) → ⊥)
      → ((i : ℕ) (t : List ℕ) → (requests i).tenant ≡ some t → IsTenantText t)
      → Reach M requests MayExpire writers sh s
      → (i j : ℕ) → holder (s.jobs i).pc ≡ some (build_lock_key tenant route key)
      → holder (s.jobs j).pc ≡ some (build_lock_key tenant route key)
      → i ≡ j
  lock_exclusive tenant route key writers sh s stays texts reach =
      (Reach-LockInv laws M requests MayExpire (build_lock_key tenant route key) writers sh s stays
        (λ i t e.
          build_cache_key-apart t tenant (requests i).path route (requests i).idempotency_key key
            (texts i t e))
        reach).unique
