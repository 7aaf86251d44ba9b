-- ===== src/Archive/Lost.antt =====
-- cron.go: what `archiveOne` takes along with a session.
use iter.Common.{
  ℕ, zero, suc, ◌*◌, ◌≡◌, ◌≢◌, refl, sym, ap, ◌∙◌, subst, Bool, true, false, not, ◌==◌,
  if◌then◌else◌, Option, none, some, List, [], ◌∷◌, ◌++◌, inl, inr, arith,
}
use iter.Archive.{Session, Resolved, gather}
use iter.Archive.Writes.{with_batch, write_archive}
use iter.Archive.Upload.{
  ObjectStore, ObjectLaws, Attempt, Uploaded, Circumstances, upload_attempts, upload_with_retry,
  Format, object_key, encode_tar_zstd, World, object_uri, finish, after_encode, archive_one,
}
use iter.Archive.Gone.{IsGone, is_child, moved_out-child-IsGone}
use iter.Archive.One.{archive_one-Settled}

module _ {O : ObjectStore} (laws : ObjectLaws O) (f : Format) (c : Resolved) where
  upload_attempts-other :
      (attempts : ℕ → Attempt) (key other body : List ℕ) (left attempt backoff : ℕ) (objects : O.S)
      → key ≢ other
      → O.get other (upload_attempts O attempts key body left attempt backoff objects).objects
        ≡ O.get other objects
  unfolding upload_attempts
  upload_attempts-other attempts key other body zero attempt backoff objects h = refl
  upload_attempts-other attempts key other body (suc left) attempt backoff objects h =
      by_attempt (attempts attempt).stores (left == 0) (attempts attempt).cancelled
        (upload_attempts-other attempts key other body left (suc attempt) (backoff * 2) objects h)
    where
      rest : Uploaded O.S
      rest = upload_attempts O attempts key body left (suc attempt) (backoff * 2) objects

      by_attempt :
          (stores last cancelled : Bool)
          → O.get other rest.objects ≡ O.get other objects
          → let u =
              if◌then◌else◌ {A = Uploaded O.S} stores
                (record { done = true; waits = []; objects = O.put key body objects })
                (if◌then◌else◌ {A = Uploaded O.S} last
                  (record { done = false; waits = []; objects = objects })
                  (if◌then◌else◌ {A = Uploaded O.S} cancelled
                    (record { done = false; waits = backoff ∷ []; objects = objects })
                    (record {
                      done = rest.done;
                      waits = backoff ∷ rest.waits;
                      objects = rest.objects;
                    }))) in
            O.get other u.objects ≡ O.get other objects
      by_attempt true last cancelled ih = laws.get_put_other key other body objects h
      by_attempt false true cancelled ih = refl
      by_attempt false false true ih = refl
      by_attempt false false false ih = ih

  module _ (e : Circumstances) (s : Session) (wd : World O.S) where
    abbrev key : List ℕ
    key = object_key f (gather s e.bundled_at wd.db)

    encoded-other :
        (o : Option (List ℕ)) (other : List ℕ)
        → key ≢ other
        → O.get other (after_encode O f c e s key o wd).1.objects ≡ O.get other wd.objects
    unfolding archive_one
    encoded-other none other h = refl
    encoded-other (some body) other h =
        by_done (upload_with_retry O c e.attempts key body wd.objects).done
      where
        by_done :
            (b : Bool)
            → O.get other
                (finish O f c b
                  (with_batch e.works
                    (write_archive s e.marked_at (object_uri O f c key))
                    (e.meanwhile wd.db))
                  (e.meanwhile wd.db)
                  (upload_with_retry O c e.attempts key body wd.objects).objects).1.objects
              ≡ O.get other wd.objects
        by_done true =
            upload_attempts-other e.attempts key other body c.upload_retries 1 c.upload_backoff
              wd.objects h
        by_done false =
            upload_attempts-other e.attempts key other body c.upload_retries 1 c.upload_backoff
              wd.objects h

    archive_one-other :
        (other : List ℕ)
        → key ≢ other
        → O.get other (archive_one O f c e s wd).1.objects ≡ O.get other wd.objects
    unfolding archive_one
    archive_one-other other h = by_read e.reads
      where
        by_read :
            (b : Bool)
            → O.get other
                (if◌then◌else◌ {A = Bool × World O.S}
                  (not b)
                  (false, record { db = e.meanwhile wd.db; objects = wd.objects })
                  (after_encode O f c e s key
                    (encode_tar_zstd f (gather s e.bundled_at wd.db))
                    wd)).1.objects
              ≡ O.get other wd.objects
        by_read false = refl
        by_read true = encoded-other (encode_tar_zstd f (gather s e.bundled_at wd.db)) other h

    -- When a session is archived, a session that was started from it is gone from the tables with
    -- every row that hangs on it, whatever its age; the only pointer that was added is that of the
    -- archived session, and no object but that of the archived session was written.
    pub child_lost :
        (i : ℕ)
        → (archive_one O f c e s wd).0 ≡ true
        → is_child s.id i (e.meanwhile wd.db) ≡ true
        → let r = archive_one O f c e s wd in
          IsGone i r.1.db
          × (r.1.db.pointers
              ≡ (e.meanwhile wd.db).pointers
                ++ record {
                  session_id = s.id;
                  tenant_id = s.tenant_id;
                  object_uri = object_uri O f c (object_key f (gather s e.bundled_at wd.db));
                }
                  ∷ [])
          × ((other : List ℕ)
              → object_key f (gather s e.bundled_at wd.db) ≢ other
              → O.get other r.1.objects ≡ O.get other wd.objects)
    child_lost i done child = elim (archive_one-Settled laws f c e s wd) [
      | inl q ↦ absurd (clash (sym done ∙ q.0))
      | inr (q, a) ↦ (
        subst (IsGone i) (sym a.moved) (moved_out-child-IsGone s _ i _ _ child),
        ap (λ db. db.pointers) a.moved,
        archive_one-other,
      )
    ]
      where
        clash : true ≡ false → ⊥
        clash p = ground (arith, p)
