-- ===== src/Archive/Gone.antt =====
-- sessions.go: what `DeleteSession` takes along, and what the write transaction of the archive
-- leaves of a session.
use iter.Common.{
  ℕ, zero, suc, arith, ◌≡◌, refl, ap, ◌∙◌, Bool, true, false, not, ◌&&◌, ◌||◌, ◌==◌, if◌then◌else◌,
  Option, none, some, List, [], ◌∷◌, ◌++◌, any, keep_if, Bool-cases, length, inl, inr,
}
use iter.Archive.{Child, Session, Db, of_session, is_unarchived}
use iter.Archive.Writes.{descends, goes, keep_children, under, stamped, stamp, cascade, has_session}

abbrev pub pointed : Session → List ℕ → Db → Db
pointed s uri db = record db {
  pointers =
      db.pointers ++ record { session_id = s.id; tenant_id = s.tenant_id; object_uri = uri } ∷ [];
}

-- The tables after the write transaction.
abbrev pub moved_out : Session → ℕ → List ℕ → Db → Db
moved_out s now uri db =
    cascade s.id (record (pointed s uri db) { sessions = stamp s.id now db.sessions })

descends-root :
    (fuel root : ℕ) (ss : List Session) (i : ℕ)
    → (i == root) ≡ true
    → descends fuel root ss i ≡ true
unfolding descends
descends-root zero root ss i e = e
descends-root (suc fuel) root ss i e = rw e refl

-- Whether there is a session `i` that was started from `root`.
abbrev pub is_child : ℕ → ℕ → Db → Bool
is_child root i db =
    any (λ s. (s.id == i) && under (λ p. p == root) s.parent_session_id) db.sessions

stamped-keys :
    (j now : ℕ) (s : Session) (test : ℕ → Option ℕ → Bool)
    → test (stamped j now s).id (stamped j now s).parent_session_id ≡ test s.id s.parent_session_id
stamped-keys j now s test = by_test ((s.id == j) && is_unarchived s)
  where
    by_test :
        (b : Bool)
        → let t = if◌then◌else◌ {A = Session} b (record s { archived_at = some now }) s in
          test t.id t.parent_session_id ≡ test s.id s.parent_session_id
    by_test true = refl
    by_test false = refl

or_mono :
    (a b c b' c' : Bool)
    → (b ≡ true → b' ≡ true)
    → (c ≡ true → c' ≡ true)
    → ((a && b) || c) ≡ true
    → ((a && b') || c') ≡ true
or_mono true true c b' c' f g h = rw (f refl) refl
or_mono true false c b' c' f g h = ground (arith, g h)
or_mono false b c b' c' f g h = g h

under_mono :
    (f g : ℕ → Bool) (o : Option ℕ)
    → ((p : ℕ) → f p ≡ true → g p ≡ true)
    → under f o ≡ true
    → under g o ≡ true
under_mono f g none le h = absurd (ground (arith, h))
under_mono f g (some p) le h = le p h

any-stamp :
    (f g : ℕ → Bool) (i j now : ℕ) (rows : List Session)
    → ((p : ℕ) → f p ≡ true → g p ≡ true)
    → any (λ s. (s.id == i) && under f s.parent_session_id) rows ≡ true
    → any (λ s. (s.id == i) && under g s.parent_session_id) (stamp j now rows) ≡ true
any-stamp f g i j now [] le h = absurd (ground (arith, h))
any-stamp f g i j now (s ∷ rows) le h = rw (stamped-keys j now s (λ k o. (k == i) && under g o)) (
    or_mono (s.id == i) (under f s.parent_session_id)
      (any (λ s. (s.id == i) && under f s.parent_session_id) rows) (under g s.parent_session_id)
      (any (λ s. (s.id == i) && under g s.parent_session_id) (stamp j now rows))
      (under_mono f g s.parent_session_id le) (any-stamp f g i j now rows le) h)

descends-child :
    (root i now : ℕ) (rows : List Session)
    → any (λ s. (s.id == i) && under (λ p. p == root) s.parent_session_id) rows ≡ true
    → descends (length (stamp root now rows)) root (stamp root now rows) i ≡ true
unfolding descends
descends-child root i now [] h = absurd (ground (arith, h))
descends-child root i now (s ∷ rows) h =
    let ss = stamp root now (s ∷ rows) in
    let above = descends (length (stamp root now rows)) root ss in
    rw
      (any-stamp (λ p. p == root) above i root now (s ∷ rows)
        (descends-root (length (stamp root now rows)) root ss) h)
      (or_true (i == root))
  where
    or_true : (b : Bool) → (b || true) ≡ true
    or_true true = refl
    or_true false = refl

id_eq : (a b : ℕ) → (a == b) ≡ true → a ≡ b
id_eq a b h = ground arith

id_eq_refl : (a : ℕ) → (a == a) ≡ true
id_eq_refl a = ground arith

-- No row is left of a session whose rows were deleted.
of_session-deleted :
    (gone : ℕ → Bool) (id : ℕ) (rows : List Child)
    → gone id ≡ true
    → of_session id (keep_children gone rows) ≡ []
of_session-deleted gone id [] h = refl
of_session-deleted gone id (c ∷ rows) h = elim (Bool-cases (c.session_id == id)) [
  | inl e ↦ rw (ap gone (id_eq _ id e) ∙ h) (of_session-deleted gone id rows h)
  | inr e ↦ elim (Bool-cases (gone c.session_id)) [
    | inl q ↦ rw q (of_session-deleted gone id rows h)
    | inr q ↦ rw q rw e (of_session-deleted gone id rows h)
  ]
]

session-deleted :
    (gone : ℕ → Bool) (id : ℕ) (rows : List Session)
    → gone id ≡ true
    → any (λ s. s.id == id) (keep_if (λ s. not (gone s.id)) rows) ≡ false
session-deleted gone id [] h = refl
session-deleted gone id (s ∷ rows) h = elim (Bool-cases (s.id == id)) [
  | inl e ↦ rw (ap gone (id_eq _ id e) ∙ h) (session-deleted gone id rows h)
  | inr e ↦ elim (Bool-cases (gone s.id)) [
    | inl q ↦ rw q (session-deleted gone id rows h)
    | inr q ↦ rw q rw e (session-deleted gone id rows h)
  ]
]

-- Nothing is left of a session.
pub record IsGone (id : ℕ) (db : Db) : Type 0 where
  pub no_session : has_session id db ≡ false
  pub no_events : of_session id db.events ≡ []
  pub no_embeddings : of_session id db.embeddings ≡ []
  pub no_scores : of_session id db.scores ≡ []
  pub no_outcomes : of_session id db.outcomes ≡ []

cascade-IsGone : (root i : ℕ) (db : Db) → goes root db i ≡ true → IsGone i (cascade root db)
cascade-IsGone root i db h = record {
  no_session = session-deleted (goes root db) i db.sessions h;
  no_events = of_session-deleted (goes root db) i db.events h;
  no_embeddings = of_session-deleted (goes root db) i db.embeddings h;
  no_scores = of_session-deleted (goes root db) i db.scores h;
  no_outcomes = of_session-deleted (goes root db) i db.outcomes h;
}

pub moved_out-IsGone :
    (s : Session) (now : ℕ) (uri : List ℕ) (db : Db) → IsGone s.id (moved_out s now uri db)
moved_out-IsGone s now uri db =
    cascade-IsGone s.id s.id (record (pointed s uri db) { sessions = stamp s.id now db.sessions })
      (descends-root (length (stamp s.id now db.sessions)) s.id (stamp s.id now db.sessions) s.id
        (id_eq_refl s.id))

pub moved_out-child-IsGone :
    (s : Session) (now i : ℕ) (uri : List ℕ) (db : Db)
    → is_child s.id i db ≡ true
    → IsGone i (moved_out s now uri db)
moved_out-child-IsGone s now i uri db h =
    cascade-IsGone s.id i (record (pointed s uri db) { sessions = stamp s.id now db.sessions })
      (descends-child s.id i now db.sessions h)
