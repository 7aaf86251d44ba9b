-- ===== src/Outcomes/Inserts.antt =====
-- Operations on the tables that may be repeated.
use iter.Common.{
  ℕ, ◌≡◌, refl, sym, ap, ◌∙◌, subst, Bool, true, false, ◌||◌, ==_iff, if◌then◌else◌, some, List, [],
  ◌∷◌, ◌++◌, any, Bool-cases, inl, inr, arith,
}
use iter.Common.Bytes.{bytes_eq_refl}
use iter.Outcomes.{
  Outcome, PendingOutcome, Tables, InsertResult, or_empty_object, Sink, outcome_error,
  pending_error, same_outcome, same_delivery, insert_outcome, insert_pending, write_outcome,
  buffer_pending,
}

-- What is found in the tables before is found in them after.
abbrev pub Grows : Tables → Tables → Type 0
Grows t u =
    ((p : Outcome → Bool) → any p t.outcomes ≡ true → any p u.outcomes ≡ true)
    × ((p : PendingOutcome → Bool) → any p t.pending ≡ true → any p u.pending ≡ true)

pub Grows-trans : (t u v : Tables) → Grows t u → Grows u v → Grows t v
Grows-trans t u v a b = (λ p h. b.0 p (a.0 p h), λ p h. b.1 p (a.1 p h))

-- An operation that only adds, and adds nothing to tables that have grown since it was done.
pub record IsInsert (f : Tables → Tables) : Type 0 where
  pub keeps : (t : Tables) → Grows t (f t)
  pub settled : (t u : Tables) → Grows (f t) u → f u ≡ u

pub IsInsert-id : IsInsert (λ t. t)
IsInsert-id = record { keeps = λ t. (λ p h. h, λ p h. h); settled = λ t u g. refl }

pub IsInsert-compose : (f g : Tables → Tables) → IsInsert f → IsInsert g → IsInsert (λ t. g (f t))
IsInsert-compose f g hf hg = record {
  keeps = λ t. Grows-trans t (f t) (g (f t)) (hf.keeps t) (hg.keeps (f t));
  settled = λ t u h.
      ap g (hf.settled t u (Grows-trans (f t) (g (f t)) u (hg.keeps (f t)) h))
      ∙ hg.settled (f t) u h;
}

pub IsInsert-ext : (f g : Tables → Tables) → ((t : Tables) → f t ≡ g t) → IsInsert f → IsInsert g
IsInsert-ext f g e h = record {
  keeps = λ t. subst (Grows t) (e t) (h.keeps t);
  settled = λ t u k. sym (e u) ∙ h.settled t u (subst (λ x. Grows x u) (sym (e t)) k);
}

any-append_left :
    {A : Type 0} (p : A → Bool) (xs ys : List A) → any p xs ≡ true → any p (xs ++ ys) ≡ true
any-append_left p [] ys h = absurd (ground (arith, h))
any-append_left p (x ∷ xs) ys h = elim (Bool-cases (p x)) [
  | inl e ↦ rw e refl
  | inr e ↦ rw e (any-append_left p xs ys (subst (λ b. (b || any p xs) ≡ true) e h))
]

any-append_last :
    {A : Type 0} (p : A → Bool) (xs : List A) (x : A) → p x ≡ true → any p (xs ++ x ∷ []) ≡ true
any-append_last p [] x h = rw h refl
any-append_last p (y ∷ xs) x h = let ih = any-append_last p xs x h in ground arith

same_outcome_refl :
    (o : Outcome) (d ref : List ℕ)
    → o.external_ref ≡ some ref
    → same_outcome o (record o { details = d }) ≡ true
same_outcome_refl o d ref e =
    rw ((==_iff o.session_id o.session_id).1 refl) rw (bytes_eq_refl o.outcome_type) rw e
      (bytes_eq_refl ref)

same_delivery_refl :
    (p : PendingOutcome) (d : List ℕ) → same_delivery p (record p { payload = d }) ≡ true
same_delivery_refl p d = rw (bytes_eq_refl p.source) (bytes_eq_refl p.delivery_id)

-- A test that does not depend on the tables.
IsInsert-when : (b : Bool) (f : Tables → Tables) → IsInsert f → IsInsert (λ t. if b then f t else t)
IsInsert-when true f h = h
IsInsert-when false f h = IsInsert-id

IsInsert-unless :
    (b : Bool) (r : InsertResult) (f : Tables → InsertResult × Tables)
    → IsInsert (λ t. (f t).1)
    → IsInsert (λ t. (if◌then◌else◌ {A = InsertResult × Tables} b (r, t) (f t)).1)
IsInsert-unless true r f h = IsInsert-id
IsInsert-unless false r f h = h

-- Adding what is found afterwards, where it is not found already.
IsInsert-new :
    (found : Tables → Bool) (r r' : InsertResult) (new : Tables → Tables)
    → ((t : Tables) → Grows t (new t))
    → ((t : Tables) → found (new t) ≡ true)
    → ((t u : Tables) → Grows t u → found t ≡ true → found u ≡ true)
    → IsInsert (λ t. (if◌then◌else◌ {A = InsertResult × Tables} (found t) (r, t) (r', new t)).1)
IsInsert-new found r r' new grows added stays = record {
  keeps = λ t. elim (Bool-cases (found t)) [
    | inl y ↦ rw y (λ p h. h, λ p h. h)
    | inr n ↦ rw n (grows t)
  ];
  settled = λ t u g. rw (stays _ u g (there t)) refl;
}
  where
    there :
        (t : Tables)
        → found ((if◌then◌else◌ {A = InsertResult × Tables} (found t) (r, t) (r', new t)).1) ≡ true
    there t = elim (Bool-cases (found t)) [
      | inl y ↦
          subst
            (λ (b : Bool).
              found ((if◌then◌else◌ {A = InsertResult × Tables} b (r, t) (r', new t)).1) ≡ true)
            (sym y) y
      | inr n ↦
          subst
            (λ (b : Bool).
              found ((if◌then◌else◌ {A = InsertResult × Tables} b (r, t) (r', new t)).1) ≡ true)
            (sym n) (added t)
    ]

pub write_outcome-IsInsert :
    (sink : Sink) (o : Outcome) (ref : List ℕ)
    → o.external_ref ≡ some ref
    → IsInsert (write_outcome sink o)
unfolding insert_outcome
write_outcome-IsInsert sink o ref e =
    IsInsert-when sink.takes (λ t. (insert_outcome o t).1)
      (IsInsert-unless (outcome_error o) InsertResult.invalid
        (λ t.
          if any (same_outcome o) t.outcomes
          then (InsertResult.already_exists, t)
          else (InsertResult.inserted, new t))
        (IsInsert-new (λ t. any (same_outcome o) t.outcomes) InsertResult.already_exists
          InsertResult.inserted new (λ t. (λ p h. any-append_left p t.outcomes _ h, λ p h. h))
          (λ t.
            any-append_last (same_outcome o) t.outcomes _
              (same_outcome_refl o (or_empty_object o.details) ref e))
          (λ t u g h. g.0 (same_outcome o) h)))
  where
    new : Tables → Tables
    new t = record t {
      outcomes = t.outcomes ++ record o { details = or_empty_object o.details } ∷ [];
    }

pub buffer_pending-IsInsert : (sink : Sink) (p : PendingOutcome) → IsInsert (buffer_pending sink p)
unfolding insert_pending
buffer_pending-IsInsert sink p =
    IsInsert-when sink.takes (λ t. (insert_pending p t).1)
      (IsInsert-unless (pending_error p) InsertResult.invalid
        (λ t.
          if any (same_delivery p) t.pending
          then (InsertResult.already_exists, t)
          else (InsertResult.inserted, new t))
        (IsInsert-new (λ t. any (same_delivery p) t.pending) InsertResult.already_exists
          InsertResult.inserted new (λ t. (λ q h. h, λ q h. any-append_left q t.pending _ h))
          (λ t.
            any-append_last (same_delivery p) t.pending _
              (same_delivery_refl p (or_empty_object p.payload)))
          (λ t u g h. g.1 (same_delivery p) h)))
  where
    new : Tables → Tables
    new t = record t {
      pending = t.pending ++ record p { payload = or_empty_object p.payload } ∷ [];
    }

-- A property of operations on the tables that the writes of the handlers have, and that passes to
-- what is composed of them.
pub record IsClosed (sink : Sink) (P : (Tables → Tables) → Type 0) : Type 0 where
  pub nothing : P (λ t. t)
  pub compose : (f g : Tables → Tables) → P f → P g → P (λ t. g (f t))
  pub ext : (f g : Tables → Tables) → ((t : Tables) → f t ≡ g t) → P f → P g
  pub outcome : (o : Outcome) (ref : List ℕ) → o.external_ref ≡ some ref → P (write_outcome sink o)
  pub pending : (p : PendingOutcome) → P (buffer_pending sink p)

pub IsInsert-IsClosed : (sink : Sink) → IsClosed sink IsInsert
IsInsert-IsClosed sink = record {
  nothing = IsInsert-id;
  compose = IsInsert-compose;
  ext = IsInsert-ext;
  outcome = write_outcome-IsInsert sink;
  pending = buffer_pending-IsInsert sink;
}

-- An operation that leaves the tables as they are.
abbrev pub IsIdle : (Tables → Tables) → Type 0
IsIdle f = (t : Tables) → f t ≡ t

pub IsIdle-IsClosed : (sink : Sink) → sink.takes ≡ false → IsClosed sink IsIdle
IsIdle-IsClosed sink down = record {
  nothing = λ t. refl;
  compose = λ f g hf hg t. ap g (hf t) ∙ hg t;
  ext = λ f g e h t. sym (e t) ∙ h t;
  outcome = λ o ref e t. ap (λ b. if b then (insert_outcome o t).1 else t) down;
  pending = λ p t. ap (λ b. if b then (insert_pending p t).1 else t) down;
}
