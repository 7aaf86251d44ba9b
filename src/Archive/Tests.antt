-- ===== src/Archive/Tests.antt =====
-- Runs of the archive on a session and a later one that was started from it, and the properties at
-- concrete inputs.
use iter.Common.{
  ℕ, ◌≡◌, ◌≢◌, ◌⊎◌, refl, Bool, true, false, leb, none, some, List, [], ◌∷◌, ◌++◌, length,
}
use iter.Common.Bytes.{bytes}
use iter.Common.KeyStore.{Table, table_store, table_store-KeyLaws}
use iter.Archive.{Session, Db, Resolved, resolve, gather}
use iter.Archive.Upload.{
  ObjectStore, ObjectLaws, Circumstances, Format, object_key, encode_tar_zstd, World, object_uri,
  archive_one,
}
use iter.Archive.Gone.{IsGone}
use iter.Archive.Safe.{archive_one_safe, pointer_blocks}
use iter.Archive.Lost.{child_lost}
use iter.Archive.Sweep.{RunCircumstances, run}
use iter.Archive.Counts.{Refused, Paused, Swept, run_counts}

abbrev store : ObjectStore
store = record { S = Table; get = λ k s. s k; put = λ k v s. table_store.set 0 k v s }

abbrev store_laws : ObjectLaws store
store_laws = record {
  get_put = λ k v s. table_store-KeyLaws.get_set 0 k v s;
  get_put_other = λ k l v s h. table_store-KeyLaws.get_set_other 0 k l v s h;
}

abbrev format : Format
format = record {
  encode = λ b. some (bytes "tar" ++ b.session.columns);
  month = λ t. bytes "2026-01";
  text = λ n. n ∷ [];
}

abbrev parent : Session
parent = record {
  id = 1;
  tenant_id = 7;
  parent_session_id = none;
  started_at = 10;
  archived_at = none;
  columns = bytes "fix";
}

-- Started from the first one, and later.
abbrev child : Session
child = record {
  id = 2;
  tenant_id = 7;
  parent_session_id = some 1;
  started_at = 100;
  archived_at = none;
  columns = bytes "go on";
}

abbrev tables : Db
tables = record {
  sessions = child ∷ parent ∷ [];
  events =
      record { session_id = 1; content = bytes "a" }
      ∷ record { session_id = 2; content = bytes "b" }
      ∷ [];
  embeddings = [];
  scores = [];
  outcomes = [];
  pointers = [];
}

abbrev pointed_tables : Db
pointed_tables = record tables {
  pointers = record { session_id = 1; tenant_id = 7; object_uri = bytes "r2://cold/old" } ∷ [];
}

abbrev cfg : Resolved
cfg = record {
  bucket = bytes "cold";
  retention = 50;
  batch_size = 100;
  upload_retries = 3;
  upload_backoff = 500;
}

resolved :
    resolve (record cfg { batch_size = 0; upload_retries = 0; upload_backoff = 0 }) ≡ some cfg
resolved = refl

-- The second attempt stores the object.
abbrev quiet : Circumstances
quiet = record {
  reads = true;
  attempts = λ n. record { stores = leb 2 n; cancelled = false };
  meanwhile = λ db. db;
  works = true;
  bundled_at = 120;
  marked_at = 121;
}

abbrev before : World Table
before = record { db = tables; objects = λ k. none }

abbrev pointed_before : World Table
pointed_before = record { db = pointed_tables; objects = λ k. none }

abbrev evening : RunCircumstances
evening = record {
  usage = some (record { storage_frac = 10; class_a_frac = 20; class_b_frac = 5 });
  threshold = 80;
  lists = true;
  now = 120;
  each = λ n. quiet;
}

-- Only the first session is old enough, and the second goes with it.
one_archived :
    let out = run store format cfg evening before in
    ◌≡◌ {A = Bool × ℕ × ℕ × ℕ × ℕ}
      (
        out.0,
        out.1.0.eligible,
        out.1.0.archived,
        length out.1.1.db.sessions,
        length out.1.1.db.events,
      )
      (true, 1, 1, 0, 0)
unfolding run iter.Archive.list_eligible archive_one
one_archived = refl

archive_one_safe_example :
    let r = archive_one store format cfg quiet parent before in
    let b = gather parent 120 tables in
    ((r.0 ≡ false) × (r.1.db ≡ tables))
    ⊎ ((r.0 ≡ true)
        × IsGone 1 r.1.db
        × (r.1.db.pointers
            ≡ []
              ++ record {
                session_id = 1;
                tenant_id = 7;
                object_uri = object_uri store format cfg (object_key format b);
              }
                ∷ [])
        × ((body : List ℕ) × (encode_tar_zstd format b ≡ some body)
            × (r.1.objects (object_key format b) ≡ some body)))
archive_one_safe_example = archive_one_safe store_laws format cfg quiet parent before

pointer_blocks_example :
    let r = archive_one store format cfg quiet parent pointed_before in
    (r.0 ≡ false) × (r.1.db ≡ pointed_tables)
pointer_blocks_example = pointer_blocks store_laws format cfg quiet parent pointed_before refl

child_lost_example :
    let r = archive_one store format cfg quiet parent before in
    let key = object_key format (gather parent 120 tables) in
    IsGone 2 r.1.db
    × (r.1.db.pointers
        ≡ []
          ++ record { session_id = 1; tenant_id = 7; object_uri = object_uri store format cfg key }
            ∷ [])
    × ((other : List ℕ) → key ≢ other → r.1.objects other ≡ none)
unfolding archive_one
child_lost_example = child_lost store_laws format cfg quiet parent before 2 refl refl

run_counts_example :
    let out = run store format cfg evening before in
    Refused store format cfg evening before out
    ⊎ Paused store format cfg evening before out
    ⊎ Swept store format cfg evening before out
run_counts_example = run_counts store format cfg evening before
