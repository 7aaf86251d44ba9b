-- ===== src/Archive/Safe.antt =====
-- cron.go: when `archiveOne` takes a session out of the tables.
use iter.Common.{
  ℕ, ◌≡◌, ◌⊎◌, sym, ap, ◌∙◌, subst, true, false, some, List, ◌++◌, [], ◌∷◌, inl, inr, arith,
}
use iter.Archive.{Session, Resolved, gather}
use iter.Archive.Upload.{
  ObjectStore, ObjectLaws, Circumstances, Format, object_key, encode_tar_zstd, World, object_uri,
  archive_one,
}
use iter.Archive.Gone.{IsGone, moved_out-IsGone}
use iter.Archive.One.{has_pointer, archive_one-Settled}

module _ {O : ObjectStore} (laws : ObjectLaws O) (f : Format) (c : Resolved) (e : Circumstances)
    (s : Session) (wd : World O.S) where
  -- Whatever fails, and whatever others commit in between: either an error is returned, and
  -- nothing was taken out of the tables; or the session and every row that hangs on it are gone
  -- from them, a pointer to its object was added to those that were there, and the object store
  -- has under its key the encoding of the session with the rows that it had when they were read.
  -- Rows that others have committed since then are gone with the session, and not in the object.
  pub archive_one_safe :
      let r = archive_one O f c e s wd in
      let b = gather s e.bundled_at wd.db in
      ((r.0 ≡ false) × (r.1.db ≡ e.meanwhile wd.db))
      ⊎ ((r.0 ≡ true)
          × IsGone s.id r.1.db
          × (r.1.db.pointers
              ≡ (e.meanwhile wd.db).pointers
                ++ record {
                  session_id = s.id;
                  tenant_id = s.tenant_id;
                  object_uri = object_uri O f c (object_key f b);
                }
                  ∷ [])
          × ((body : List ℕ) × (encode_tar_zstd f b ≡ some body)
              × (O.get (object_key f b) r.1.objects ≡ some body)))
  archive_one_safe = elim (archive_one-Settled laws f c e s wd) [
    | inl h ↦ inl h
    | inr (q, a) ↦ inr (
      q,
      subst (IsGone s.id) (sym a.moved) (moved_out-IsGone s _ _ _),
      ap (λ db. db.pointers) a.moved,
      (a.body, a.encoded, a.stored),
    )
  ]

  -- A session that has a pointer is never archived again: the run fails at it every time, and
  -- leaves it in the tables, whatever the store and the database do.
  pub pointer_blocks :
      has_pointer s.id (e.meanwhile wd.db) ≡ true
      → let r = archive_one O f c e s wd in (r.0 ≡ false) × (r.1.db ≡ e.meanwhile wd.db)
  pointer_blocks h = elim (archive_one-Settled laws f c e s wd) [
    | inl q ↦ q
    | inr (q, a) ↦ absurd (clash (sym h ∙ a.unpointed))
  ]
    where
      clash : true ≡ false → ⊥
      clash p = ground (arith, p)
