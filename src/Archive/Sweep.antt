-- ===== src/Archive/Sweep.antt =====
-- internal/archive/cron.go: `Run`, and the usage of internal/archive/meter.go.
use iter.Common.{
  ℕ, suc, ◌-◌, Bool, true, false, not, ltb, leb, if◌then◌else◌, Option, none, some, List, [], ◌∷◌,
  length,
}
use iter.Archive.{Session, Db, Resolved, list_eligible}
use iter.Archive.Upload.{ObjectStore, Circumstances, Format, World, archive_one}

-- The fractions are numbers in one unit, in which the threshold is given as well.
pub record Usage : Type 0 where
  pub storage_frac : ℕ
  pub class_a_frac : ℕ
  pub class_b_frac : ℕ

abbrev larger : ℕ → ℕ → ℕ
larger m n = if ltb m n then n else m

abbrev pub max_frac : Usage → ℕ
max_frac u = larger (larger u.storage_frac u.class_a_frac) u.class_b_frac

pub record RunStats : Type 0 where
  pub eligible : ℕ
  pub archived : ℕ
  pub failed : ℕ
  pub paused : Bool

abbrev pub no_stats : RunStats
no_stats = record { eligible = 0; archived = 0; failed = 0; paused = false }

-- The answers of the meter and of the query for the eligible sessions, the time, and the
-- circumstances of the sessions by their place in the list.
pub record RunCircumstances : Type 0 where
  pub usage : Option Usage
  pub threshold : ℕ
  pub lists : Bool
  pub now : ℕ
  pub each : ℕ → Circumstances

module _ (O : ObjectStore) (f : Format) (c : Resolved) where
  abbrev pub counted : Bool → RunStats → RunStats
  counted true stats = record stats { archived = suc stats.archived }
  counted false stats = record stats { failed = suc stats.failed }

  unfoldable pub archive_all :
      (ℕ → Circumstances) → ℕ → List Session → RunStats → World O.S → RunStats × World O.S
  archive_all each n [] stats wd = (stats, wd)
  archive_all each n (s ∷ ss) stats wd =
      let r = archive_one O f c (each n) s wd in archive_all each (suc n) ss (counted r.0 stats) r.1

  abbrev pub eligible_now : RunCircumstances → Db → List Session
  eligible_now e db = list_eligible (e.now - c.retention) c.batch_size db

  abbrev pub metered : RunCircumstances → Option Usage → World O.S → Bool × (RunStats × World O.S)
  metered e none wd = (false, (no_stats, wd))
  metered e (some usage) wd =
      let ss = eligible_now e wd.db in
      if leb e.threshold (max_frac usage)
      then (true, (record no_stats { paused = true }, wd))
      else if not e.lists
      then (false, (no_stats, wd))
      else (true, archive_all e.each 0 ss (record no_stats { eligible = length ss }) wd)

  -- Whether it returned no error, and what it did.
  unfoldable pub run : RunCircumstances → World O.S → Bool × (RunStats × World O.S)
  unfolding archive_all
  run e wd = metered e e.usage wd
