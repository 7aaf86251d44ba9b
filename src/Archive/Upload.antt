-- ===== src/Archive/Upload.antt =====
-- cron.go: `uploadWithRetry` and `archiveOne`.
use iter.Common.{
  ℕ, zero, suc, ◌*◌, ◌≡◌, ◌≢◌, Bool, true, false, not, ◌==◌, if◌then◌else◌, Option, none, some,
  List, [], ◌∷◌, ◌++◌,
}
use iter.Common.Bytes.{bytes}
use iter.Archive.{Session, Db, SessionBundle, Resolved, gather}
use iter.Archive.Writes.{write_archive, with_batch}

-- The object store: a key is looked up, and PutObject replaces what stands under it.
pub record ObjectStore : Type 1 where
  pub S : Type 0
  pub get : List ℕ → S → Option (List ℕ)
  pub put : List ℕ → List ℕ → S → S

pub record ObjectLaws (O : ObjectStore) : Type 0 where
  pub get_put : (k v : List ℕ) (s : O.S) → O.get k (O.put k v s) ≡ some v
  pub get_put_other : (k l v : List ℕ) (s : O.S) → k ≢ l → O.get l (O.put k v s) ≡ O.get l s

-- An attempt: whether PutObject succeeds, and whether the context ends during the wait after it.
-- One that fails stores nothing.
pub record Attempt : Type 0 where
  pub stores : Bool
  pub cancelled : Bool

pub record Uploaded (S : Type 0) : Type 0 where
  pub done : Bool
  pub waits : List ℕ
  pub objects : S

-- What surrounds the archiving of one session: whether the children can be read and the write
-- transaction works, the attempts by their number, what others commit to the tables between the
-- two transactions, and the times.
pub record Circumstances : Type 0 where
  pub reads : Bool
  pub attempts : ℕ → Attempt
  pub meanwhile : Db → Db
  pub works : Bool
  pub bundled_at : ℕ
  pub marked_at : ℕ

module _ (O : ObjectStore) where
  abbrev waited : ℕ → Uploaded O.S → Uploaded O.S
  waited backoff u = record u { waits = backoff ∷ u.waits }

  -- The attempts that are left, the number of the next one, and the wait after it.
  unfoldable pub upload_attempts : (ℕ → Attempt) → List ℕ → List ℕ → ℕ → ℕ → ℕ → O.S → Uploaded O.S
  upload_attempts attempts key body zero attempt backoff objects = record {
    done = false;
    waits = [];
    objects = objects;
  }
  upload_attempts attempts key body (suc left) attempt backoff objects =
      let rest = upload_attempts attempts key body left (suc attempt) (backoff * 2) objects in
      if (attempts attempt).stores
      then record { done = true; waits = []; objects = O.put key body objects }
      else if left == 0
      then record { done = false; waits = []; objects = objects }
      else if (attempts attempt).cancelled
      then record { done = false; waits = backoff ∷ []; objects = objects }
      else waited backoff rest

  abbrev pub upload_with_retry : Resolved → (ℕ → Attempt) → List ℕ → List ℕ → O.S → Uploaded O.S
  upload_with_retry c attempts key body objects =
      upload_attempts attempts key body c.upload_retries 1 c.upload_backoff objects

-- `encode` is the tar.zst of a bundle, if the bundle can be encoded; `month` and `text` format the
-- start of a session and an identifier.
pub record Format : Type 0 where
  pub encode : SessionBundle → Option (List ℕ)
  pub month : ℕ → List ℕ
  pub text : ℕ → List ℕ

abbrev pub object_key : Format → SessionBundle → List ℕ
object_key f b =
    f.text b.session.tenant_id
    ++ (bytes "/"
        ++ (f.month b.session.started_at
            ++ (bytes "/" ++ (f.text b.session.id ++ bytes ".tar.zst"))))

-- No session has the nil identifier when it is encoded.
abbrev pub encode_tar_zstd : Format → SessionBundle → Option (List ℕ)
encode_tar_zstd f b = if b.session.id == 0 then none else f.encode b

pub record World (S : Type 0) : Type 0 where
  pub db : Db
  pub objects : S

module _ (O : ObjectStore) (f : Format) (c : Resolved) where
  abbrev pub object_uri : List ℕ → List ℕ
  object_uri key = bytes "r2://" ++ (c.bucket ++ (bytes "/" ++ key))

  abbrev pub finish : Bool → Bool × Db → Db → O.S → Bool × World O.S
  finish true written db objects = (written.0, record { db = written.1; objects = objects })
  finish false written db objects = (false, record { db = db; objects = objects })

  abbrev pub after_upload : Circumstances → Session → List ℕ → Db → Uploaded O.S → Bool × World O.S
  after_upload e s key db u =
      finish u.done (with_batch e.works (write_archive s e.marked_at (object_uri key)) db) db
        u.objects

  abbrev pub after_encode :
      Circumstances → Session → List ℕ → Option (List ℕ) → World O.S → Bool × World O.S
  after_encode e s key none wd = (false, record { db = e.meanwhile wd.db; objects = wd.objects })
  after_encode e s key (some body) wd =
      after_upload e s key (e.meanwhile wd.db)
        (upload_with_retry O c e.attempts key body wd.objects)

  -- Whether it returned no error.
  unfoldable pub archive_one : Circumstances → Session → World O.S → Bool × World O.S
  unfolding upload_attempts with_batch write_archive
  archive_one e s wd =
      let b = gather s e.bundled_at wd.db in
      if not e.reads
      then (false, record { db = e.meanwhile wd.db; objects = wd.objects })
      else after_encode e s (object_key f b) (encode_tar_zstd f b) wd
