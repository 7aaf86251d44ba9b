-- ===== src/Archive/One.antt =====
-- cron.go: what `archiveOne` leaves of a session.
use iter.Common.{
  ℕ, zero, suc, ◌*◌, arith, ◌≡◌, ◌⊎◌, refl, ap, Bool, true, false, not, ◌||◌, ◌==◌, if◌then◌else◌,
  Option, none, some, List, [], ◌∷◌, any, Bool-cases, inl, inr,
}
use iter.Common.Bytes.{is_empty}
use iter.Archive.{Session, Db, SessionBundle, Resolved, gather}
use iter.Archive.Writes.{
  stamp, exec, insert_pointer, delete_session, end_batch, write_archive, with_batch,
}
use iter.Archive.Upload.{
  ObjectStore, ObjectLaws, Attempt, Uploaded, Circumstances, upload_attempts, upload_with_retry,
  Format, object_key, encode_tar_zstd, World, object_uri, finish, after_encode, archive_one,
}
use iter.Archive.Gone.{moved_out}

abbrev pub has_pointer : ℕ → Db → Bool
has_pointer id db = any (λ p. p.session_id == id) db.pointers

abbrev Batch : Bool → Session → ℕ → List ℕ → Db → Bool × Db → Type 0
Batch works s now uri db w =
    (w ≡ (false, db)) ⊎ ((w ≡ (true, moved_out s now uri db)) × (has_pointer s.id db ≡ false))

write_archive-Batch :
    (works : Bool) (s : Session) (now : ℕ) (uri : List ℕ) (db : Db)
    → Batch works s now uri db (with_batch works (write_archive s now uri) db)
unfolding with_batch write_archive insert_pointer exec delete_session
write_archive-Batch works s now uri db =
    elim (Bool-cases ((s.id == 0) || ((s.tenant_id == 0) || is_empty uri))) [
      | inl e ↦ rw e (inl refl)
      | inr e1 ↦ elim (Bool-cases (has_pointer s.id db)) [
        | inl e ↦ rw e1 rw e (inl refl)
        | inr e2 ↦ rw e1 rw e2 (by_row (any (λ t. t.id == s.id) (stamp s.id now db.sessions)) works)
      ]
    ]
  where
    by_row :
        (b w : Bool)
        → let r = end_batch w db (b, record { db = moved_out s now uri db; aborted = false }) in
          (r ≡ (false, db)) ⊎ ((r ≡ (true, moved_out s now uri db)) × (false ≡ false))
    by_row false w = inl refl
    by_row true true = inr (refl, refl)
    by_row true false = inl refl

module _ {O : ObjectStore} (laws : ObjectLaws O) (f : Format) (c : Resolved) where
  upload_attempts-stores :
      (attempts : ℕ → Attempt) (key body : List ℕ) (left attempt backoff : ℕ) (objects : O.S)
      → let u = upload_attempts O attempts key body left attempt backoff objects in
        u.done ≡ true → O.get key u.objects ≡ some body
  unfolding upload_attempts
  upload_attempts-stores attempts key body zero attempt backoff objects h =
      absurd (ground (arith, h))
  upload_attempts-stores attempts key body (suc left) attempt backoff objects done =
      by_attempt (attempts attempt).stores (left == 0) (attempts attempt).cancelled
        (upload_attempts-stores attempts key body left (suc attempt) (backoff * 2) objects) done
    where
      rest : Uploaded O.S
      rest = upload_attempts O attempts key body left (suc attempt) (backoff * 2) objects

      by_attempt :
          (stores last cancelled : Bool)
          → (rest.done ≡ true → O.get key rest.objects ≡ some body)
          → let u =
              if◌then◌else◌ {A = Uploaded O.S} stores
                (record { done = true; waits = []; objects = O.put key body objects })
                (if◌then◌else◌ {A = Uploaded O.S} last
                  (record { done = false; waits = []; objects = objects })
                  (if◌then◌else◌ {A = Uploaded O.S} cancelled
                    (record { done = false; waits = backoff ∷ []; objects = objects })
                    (record {
                      done = rest.done;
                      waits = backoff ∷ rest.waits;
                      objects = rest.objects;
                    }))) in
            u.done ≡ true → O.get key u.objects ≡ some body
      by_attempt true last cancelled ih h = laws.get_put key body objects
      by_attempt false true cancelled ih h = absurd (ground (arith, h))
      by_attempt false false true ih h = absurd (ground (arith, h))
      by_attempt false false false ih h = ih h

  module _ (e : Circumstances) (s : Session) (wd : World O.S) where
    abbrev bundle : SessionBundle
    bundle = gather s e.bundled_at wd.db

    abbrev uri : List ℕ
    uri = object_uri O f c (object_key f bundle)

    -- Either it fails, and the tables are what the others have made of them; or it succeeds, and
    -- the session was moved out of them after an object with what was gathered was stored.
    pub record IsArchived (r : Bool × World O.S) : Type 0 where
      pub body : List ℕ
      pub encoded : encode_tar_zstd f bundle ≡ some body
      pub stored : O.get (object_key f bundle) r.1.objects ≡ some body
      pub moved : r.1.db ≡ moved_out s e.marked_at uri (e.meanwhile wd.db)
      pub unpointed : has_pointer s.id (e.meanwhile wd.db) ≡ false

    abbrev pub Settled : Bool × World O.S → Type 0
    Settled r = ((r.0 ≡ false) × (r.1.db ≡ e.meanwhile wd.db)) ⊎ ((r.0 ≡ true) × IsArchived r)

    finish-Settled :
        (body : List ℕ) (b : Bool) (w : Bool × Db) (objects : O.S)
        → encode_tar_zstd f bundle ≡ some body
        → (b ≡ true → O.get (object_key f bundle) objects ≡ some body)
        → Batch e.works s e.marked_at uri (e.meanwhile wd.db) w
        → Settled (finish O f c b w (e.meanwhile wd.db) objects)
    finish-Settled body false w objects enc has batch = inl (refl, refl)
    finish-Settled body true w objects enc has (inl q) = inl (ap (λ x. x.0) q, ap (λ x. x.1) q)
    finish-Settled body true w objects enc has (inr (q, free)) = inr (
      ap (λ x. x.0) q,
      record {
        body = body;
        encoded = enc;
        stored = has refl;
        moved = ap (λ x. x.1) q;
        unpointed = free;
      },
    )

    encoded-Settled :
        (o : Option (List ℕ))
        → encode_tar_zstd f bundle ≡ o
        → Settled (after_encode O f c e s (object_key f bundle) o wd)
    unfolding archive_one
    encoded-Settled none enc = inl (refl, refl)
    encoded-Settled (some body) enc =
        let u = upload_with_retry O c e.attempts (object_key f bundle) body wd.objects in
        finish-Settled body u.done
          (with_batch e.works (write_archive s e.marked_at uri) (e.meanwhile wd.db)) u.objects enc
          (upload_attempts-stores e.attempts (object_key f bundle) body c.upload_retries 1
            c.upload_backoff wd.objects)
          (write_archive-Batch e.works s e.marked_at uri (e.meanwhile wd.db))

    pub archive_one-Settled : Settled (archive_one O f c e s wd)
    unfolding archive_one
    archive_one-Settled = by_read e.reads
      where
        by_read :
            (b : Bool)
            → Settled (
                if not b
                then (false, record { db = e.meanwhile wd.db; objects = wd.objects })
                else after_encode O f c e s (object_key f bundle) (encode_tar_zstd f bundle) wd)
        by_read false = inl (refl, refl)
        by_read true = encoded-Settled (encode_tar_zstd f bundle) refl
