-- ===== src/Daemon/Fifo.antt =====
-- The queue's rows stay ordered, appending is idempotent, and publishing takes them in order.
use iter.Common.{
  ℕ, suc, ◌≤◌, ◌<◌, ◌≡◌, refl, ap, subst, ◌∙◌, Bool, true, false, ◌==◌, ==_iff, if◌then◌else◌,
  Option, none, some, List, [], ◌∷◌, ◌++◌, String, eq_iff, any, All, All-append, Bool-cases, inl,
  inr, arith,
}
use mathlib.Core.List.{nil≢cons, head-eq_of_cons-eq, tail-eq_of_cons-eq}
use iter.Daemon.Wal.{
  WalEvent, Entry, Row, Wal, entry_of, new_row, event_key, has_key, entry_by_key, insert_or_ignore,
  append_key, append, is_unsent, unsent_rows, coalesce, update_sent,
}

any-last : (p : Row → Bool) (xs : List Row) (y : Row) → p y ≡ true → any p (xs ++ y ∷ []) ≡ true
any-last p [] y h = rw h refl
any-last p (x ∷ xs) y h = let ih = any-last p xs y h in ground (arith, ih)

insert_twice :
    (key : String) (event : WalEvent) (wal : Wal)
    → insert_or_ignore key event (insert_or_ignore key event wal) ≡ insert_or_ignore key event wal
unfolding insert_or_ignore
insert_twice key event wal = elim (Bool-cases (any (has_key key) wal.rows)) [
  | inl e ↦ rw e (rw e refl)
  | inr e ↦
      let row = new_row wal.next_id key event in
      rw e (rw (any-last (has_key key) wal.rows row ((eq_iff key key).1 refl)) refl)
]

-- An event that was appended is appended again without effect, and the same entry is returned.
pub append_idempotent :
    (digest : WalEvent → String) (event : WalEvent) (wal : Wal)
    → append digest event (append digest event wal).1 ≡ append digest event wal
unfolding append append_key
append_idempotent digest event wal = by_key (event_key digest event)
  where
    by_key :
        (o : Option String) → append_key o event (append_key o event wal).1 ≡ append_key o event wal
    by_key none = refl
    by_key (some key) = ap (λ w. (entry_by_key key w.rows, w)) (insert_twice key event wal)

-- Identifiers grow from row to row, all above a bound.
abbrev pub Above : ℕ → List Row → Type 0
Above n [] = Unit
Above n (row ∷ rows) = (n < row.id) × Above row.id rows

abbrev pub WellFormed : Wal → Type 0
WellFormed wal = Above 0 wal.rows × All (λ row. row.id < wal.next_id) wal.rows × (0 < wal.next_id)

Above-last :
    (n : ℕ) (rows : List Row) (row : Row)
    → Above n rows
    → All (λ r. r.id < row.id) rows
    → n < row.id
    → Above n (rows ++ row ∷ [])
Above-last n [] row a h l = (l, tt)
Above-last n (r ∷ rows) row a h l = (a.0, Above-last r.id rows row a.1 h.1 h.0)

All-weaken :
    (m n : ℕ) (rows : List Row) → m ≤ n → All (λ r. r.id < m) rows → All (λ r. r.id < n) rows
All-weaken m n [] l h = tt
All-weaken m n (r ∷ rows) l h = (omega (arith, l, h.0), All-weaken m n rows l h.1)

insert_or_ignore-WellFormed :
    (key : String) (event : WalEvent) (wal : Wal)
    → WellFormed wal
    → WellFormed (insert_or_ignore key event wal)
unfolding insert_or_ignore
insert_or_ignore-WellFormed key event wal h = elim (Bool-cases (any (has_key key) wal.rows)) [
  | inl e ↦ rw e h
  | inr e ↦
      let row = new_row wal.next_id key event in
      rw e (
        Above-last 0 wal.rows row h.0 h.1 h.2,
        All-append (λ r. r.id < suc wal.next_id) wal.rows (row ∷ [])
            (All-weaken wal.next_id (suc wal.next_id) wal.rows (omega arith) h.1) (omega arith, tt),
        omega arith,
      )
]

-- Appending to a queue whose identifiers grow and stay below the next one keeps it so.
pub append-WellFormed :
    (digest : WalEvent → String) (event : WalEvent) (wal : Wal)
    → WellFormed wal
    → WellFormed (append digest event wal).1
unfolding append append_key
append-WellFormed digest event wal h = by_key (event_key digest event)
  where
    by_key : (o : Option String) → WellFormed (append_key o event wal).1
    by_key none = h
    by_key (some key) = insert_or_ignore-WellFormed key event wal h

update_sent-absent :
    (now id n : ℕ) (rows : List Row) → id ≤ n → Above n rows → update_sent now id rows ≡ rows
unfolding update_sent
update_sent-absent now id n [] l a = refl
update_sent-absent now id n (row ∷ rows) l a =
    rw (other row.id id (omega (arith, l, a.0)))
      (ap (λ rs. row ∷ rs) (update_sent-absent now id row.id rows (omega (arith, l, a.0)) a.1))
  where
    other : (m k : ℕ) → k < m → (m == k) ≡ false
    other m k h = ground arith

pub update_sent-Above :
    (now id n : ℕ) (rows : List Row) → Above n rows → Above n (update_sent now id rows)
unfolding update_sent
update_sent-Above now id n [] a = tt
update_sent-Above now id n (row ∷ rows) a = elim (Bool-cases (row.id == id)) [
  | inl e ↦ rw e (a.0, update_sent-Above now id row.id rows a.1)
  | inr e ↦ rw e (a.0, update_sent-Above now id row.id rows a.1)
]

marked :
    (now : ℕ) (row : Row) → is_unsent (record row { sent_at = coalesce row.sent_at now }) ≡ false
marked now row = by_sent row.sent_at
  where
    by_sent : (o : Option ℕ) → (elim (coalesce o now) [ none ↦ true | some t ↦ false ]) ≡ false
    by_sent none = refl
    by_sent (some t) = refl

same_id : (n : ℕ) → (n == n) ≡ true
same_id n = (==_iff n n).1 refl

-- Marking the oldest unsent row takes it off the front of the queue.
pub unsent_rows-update_sent :
    (now n : ℕ) (rows : List Row) (e : Entry) (rest : List Entry)
    → Above n rows
    → unsent_rows rows ≡ e ∷ rest
    → unsent_rows (update_sent now e.id rows) ≡ rest
unfolding unsent_rows update_sent
unsent_rows-update_sent now n [] e rest a h = absurd (nil≢cons h)
unsent_rows-update_sent now n (row ∷ rows) e rest a h = elim (Bool-cases (is_unsent row)) [
  | inl u ↦
      let k =
        subst (λ b. (if b then entry_of row ∷ unsent_rows rows else unsent_rows rows) ≡ e ∷ rest) u
          h in
      let same = head-eq_of_cons-eq k in
      let gone = update_sent-absent now row.id row.id rows (omega arith) a.1 in
      subst (λ i. unsent_rows (update_sent now i (row ∷ rows)) ≡ rest) (ap (λ x. x.id) same)
        (rw (same_id row.id) (rw (marked now row) (ap unsent_rows gone ∙ tail-eq_of_cons-eq k)))
  | inr u ↦
      let k =
        subst (λ b. (if b then entry_of row ∷ unsent_rows rows else unsent_rows rows) ≡ e ∷ rest) u
          h in
      let ih = unsent_rows-update_sent now row.id rows e rest a.1 k in
      elim (Bool-cases (row.id == e.id)) [
        | inl s ↦ rw s (rw (marked now row) ih)
        | inr s ↦ rw s (rw u ih)
      ]
]
