-- ===== src/Archive/Counts.antt =====
-- cron.go: what `Run` counts.
use iter.Common.{
  ℕ, zero, suc, ◌+◌, ◌-◌, ◌≡◌, ◌≤◌, ◌⊎◌, keep_if, ◌∙◌, inl, inr, refl, ap, Bool, true, false, not,
  leb, if◌then◌else◌, Option, none, some, List, [], ◌∷◌, length, take, arith,
}
use iter.Archive.{Session, Db, Resolved, list_eligible}
use iter.Archive.Upload.{ObjectStore, Circumstances, Format, World, archive_one}
use iter.Archive.Sweep.{
  Usage, max_frac, RunStats, no_stats, RunCircumstances, counted, archive_all, eligible_now,
  metered, run,
}

length-take {ℓ} : {A : Type ℓ} (n : ℕ) (xs : List A) → length (take n xs) ≤ n
length-take zero xs = omega arith
length-take (suc n) [] = omega arith
length-take (suc n) (x ∷ xs) = omega (arith, length-take n xs)

list_eligible-length : (cutoff limit : ℕ) (db : Db) → length (list_eligible cutoff limit db) ≤ limit
unfolding list_eligible
list_eligible-length cutoff limit db = length-take limit _

abbrev pub successes : List Bool → ℕ
successes bs = length (keep_if (λ b. b) bs)

abbrev pub failures : List Bool → ℕ
failures bs = length (keep_if not bs)

-- Each result is a success or a failure.
split-length : (bs : List Bool) → successes bs + failures bs ≡ length bs
split-length [] = omega arith
split-length (true ∷ bs) = omega (arith, split-length bs)
split-length (false ∷ bs) = omega (arith, split-length bs)

module _ (O : ObjectStore) (f : Format) (c : Resolved) where
  -- The sessions archived one after the other, each in the world that the one before has left:
  -- which of them succeeded, and the world at the end.
  abbrev pub one_by_one : (ℕ → Circumstances) → ℕ → List Session → World O.S → List Bool × World O.S
  one_by_one each n [] wd = ([], wd)
  one_by_one each n (s ∷ ss) wd =
      let r = archive_one O f c (each n) s wd in
      let rest = one_by_one each (suc n) ss r.1 in (r.0 ∷ rest.0, rest.1)

  length-one_by_one :
      (each : ℕ → Circumstances) (n : ℕ) (ss : List Session) (wd : World O.S)
      → length (one_by_one each n ss wd).0 ≡ length ss
  length-one_by_one each n [] wd = refl
  length-one_by_one each n (s ∷ ss) wd =
      ap suc (length-one_by_one each (suc n) ss (archive_one O f c (each n) s wd).1)

  abbrev Tallied : RunStats → List Bool → RunStats → Type 0
  Tallied before bs after =
      (after.archived ≡ before.archived + successes bs)
      × (after.failed ≡ before.failed + failures bs)
      × (after.eligible ≡ before.eligible)
      × (after.paused ≡ before.paused)

  archive_all-Tallied :
      (each : ℕ → Circumstances) (n : ℕ) (ss : List Session) (stats : RunStats) (wd : World O.S)
      → Tallied stats (one_by_one each n ss wd).0 (archive_all O f c each n ss stats wd).0
        × ((archive_all O f c each n ss stats wd).1 ≡ (one_by_one each n ss wd).1)
  unfolding archive_all
  archive_all-Tallied each n [] stats wd = ((omega arith, omega arith, refl, refl), refl)
  archive_all-Tallied each n (s ∷ ss) stats wd =
      let r = archive_one O f c (each n) s wd in
      let ih = archive_all-Tallied each (suc n) ss (counted O f c r.0 stats) r.1 in
      (
        by_result (archive_all O f c each (suc n) ss (counted O f c r.0 stats) r.1).0
            (one_by_one each (suc n) ss r.1).0 r.0 ih.0,
        ih.1,
      )
    where
      by_result :
          (out : RunStats) (bs : List Bool) (b : Bool)
          → Tallied (counted O f c b stats) bs out
          → Tallied stats (b ∷ bs) out
      by_result out bs true h = (omega (arith, h.0), h.1, h.2, h.3)
      by_result out bs false h = (h.0, omega (arith, h.1), h.2, h.3)

  -- The usage that the meter answers, next to the threshold.
  abbrev pub Measured : RunCircumstances → Bool → Type 0
  Measured e reached =
      (usage : Usage) × (e.usage ≡ some usage) × (leb e.threshold (max_frac usage) ≡ reached)

  abbrev pub Refused : RunCircumstances → World O.S → Bool × (RunStats × World O.S) → Type 0
  Refused e wd out = (out.0 ≡ false) × (out.1.1 ≡ wd) × ((e.usage ≡ none) ⊎ (e.lists ≡ false))

  abbrev pub Paused : RunCircumstances → World O.S → Bool × (RunStats × World O.S) → Type 0
  Paused e wd out = (out.0 ≡ true) × (out.1.0.paused ≡ true) × (out.1.1 ≡ wd) × Measured e true

  abbrev pub Swept : RunCircumstances → World O.S → Bool × (RunStats × World O.S) → Type 0
  Swept e wd out =
      let ss = eligible_now O f c e wd.db in
      let each = one_by_one e.each 0 ss wd in
      (out.0 ≡ true)
      × (out.1.0.paused ≡ false)
      × Measured e false
      × (out.1.1 ≡ each.1)
      × (out.1.0.archived ≡ successes each.0)
      × (out.1.0.failed ≡ failures each.0)
      × (out.1.0.eligible ≡ length ss)
      × (out.1.0.archived + out.1.0.failed ≡ out.1.0.eligible)
      × (out.1.0.eligible ≤ c.batch_size)

  abbrev Accounted : RunCircumstances → World O.S → Bool × (RunStats × World O.S) → Type 0
  Accounted e wd out = Refused e wd out ⊎ Paused e wd out ⊎ Swept e wd out

  all-Swept :
      (e : RunCircumstances) (wd : World O.S)
      → Measured e false
      → let ss = eligible_now O f c e wd.db in
        Swept e wd
          (true, archive_all O f c e.each 0 ss (record no_stats { eligible = length ss }) wd)
  all-Swept e wd m =
      let ss = eligible_now O f c e wd.db in
      let t = archive_all-Tallied e.each 0 ss (record no_stats { eligible = length ss }) wd in
      let bs = (one_by_one e.each 0 ss wd).0 in
      let few = list_eligible-length (e.now - c.retention) c.batch_size wd.db in
      let all = split-length bs ∙ length-one_by_one e.each 0 ss wd in
      (
        refl,
        t.0.3,
        m,
        t.1,
        omega (arith, t.0.0),
        omega (arith, t.0.1),
        t.0.2,
        omega (arith, t.0.0, t.0.1, t.0.2, all),
        omega (arith, few, t.0.2),
      )

  -- A run ends in one of three ways. It fails, because the meter or the query for the eligible
  -- sessions failed, and touches nothing. Or it pauses, with the largest fraction not below the
  -- threshold, and touches nothing. Or, with the fraction below the threshold, it archives the
  -- eligible sessions, at most a batch of them, one after the other, whatever becomes of each; it
  -- counts those that succeeded as archived and the others as failed.
  pub run_counts :
      (e : RunCircumstances) (wd : World O.S)
      → let out = run O f c e wd in Refused e wd out ⊎ Paused e wd out ⊎ Swept e wd out
  unfolding run
  run_counts e wd = by_usage e.usage refl
    where
      by_usage : (o : Option Usage) → e.usage ≡ o → Accounted e wd (metered O f c e o wd)
      by_usage none q = inl (refl, refl, inl q)
      by_usage (some usage) q = by_test (leb e.threshold (max_frac usage)) refl e.lists refl
        where
          ss : List Session
          ss = eligible_now O f c e wd.db

          by_test :
              (b : Bool)
              → leb e.threshold (max_frac usage) ≡ b
              → (lists : Bool) → e.lists ≡ lists
              → Accounted e wd (
                  if b
                  then (true, (record no_stats { paused = true }, wd))
                  else if not lists
                  then (false, (no_stats, wd))
                  else (
                    true,
                    archive_all O f c e.each 0 ss (record no_stats { eligible = length ss }) wd,
                  ))
          by_test true t lists l = inr (inl (refl, refl, refl, (usage, q, t)))
          by_test false t false l = inl (refl, refl, inr l)
          by_test false t true l = inr (inr (all-Swept e wd (usage, q, t)))
