-- ===== src/Common/KeyStore.antt =====
-- The Redis commands on strings that the middleware and the webhooks call, and what their
-- documentation promises.
use Prim.Native.Nat.{ℕ}
use mathlib.Core.Path.{◌≡◌, refl, ap}
use mathlib.Core.Logic.{◌≢◌, inl, inr}
use mathlib.Core.Bool.{Bool, true, false}
use mathlib.Core.Option.{Option, none, some}
use mathlib.Core.List.{List}
use iter.Common.Bytes.{bytes_eq, bytes_eq→eq, bytes_eq_refl}
use iter.Common.Tests.{if◌then◌else◌, Bool-cases}

-- SET and SET NX take the time to live of the key first. DEL is also what an expiry does.
pub record KeyStore : Type 1 where
  pub S : Type 0
  pub get : List ℕ → S → Option (List ℕ)
  pub set : ℕ → List ℕ → List ℕ → S → S
  pub set_nx : ℕ → List ℕ → List ℕ → S → Bool × S
  pub del : List ℕ → S → S

pub record KeyLaws (R : KeyStore) : Type 0 where
  pub get_set : (t : ℕ) (k v : List ℕ) (s : R.S) → R.get k (R.set t k v s) ≡ some v
  pub get_set_other :
      (t : ℕ) (k l v : List ℕ) (s : R.S) → k ≢ l → R.get l (R.set t k v s) ≡ R.get l s
  pub set_nx_free :
      (t : ℕ) (k v : List ℕ) (s : R.S) → R.get k s ≡ none → R.set_nx t k v s ≡ (true, R.set t k v s)
  pub set_nx_held :
      (t : ℕ) (k v u : List ℕ) (s : R.S) → R.get k s ≡ some u → R.set_nx t k v s ≡ (false, s)
  pub get_del : (k : List ℕ) (s : R.S) → R.get k (R.del k s) ≡ none
  pub get_del_other : (k l : List ℕ) (s : R.S) → k ≢ l → R.get l (R.del k s) ≡ R.get l s

-- A store as the function that looks a key up.
abbrev pub Table : Type 0
Table = List ℕ → Option (List ℕ)

abbrev put : List ℕ → Option (List ℕ) → Table → Table
put k v s l = if bytes_eq k l then v else s l

abbrev put_found : List ℕ → List ℕ → Table → Option (List ℕ) → Bool × Table
put_found k v s none = (true, put k (some v) s)
put_found k v s (some u) = (false, s)

abbrev pub table_store : KeyStore
table_store = record {
  S = Table;
  get = λ k s. s k;
  set = λ t k v s. put k (some v) s;
  set_nx = λ t k v s. put_found k v s (s k);
  del = λ k s. put k none s;
}

put_same : (k : List ℕ) (v : Option (List ℕ)) (s : Table) → put k v s k ≡ v
put_same k v s = rw (bytes_eq_refl k) refl

put_other : (k l : List ℕ) (v : Option (List ℕ)) (s : Table) → k ≢ l → put k v s l ≡ s l
put_other k l v s h = elim (Bool-cases (bytes_eq k l)) [
  | inl e ↦ absurd (h (bytes_eq→eq k l e))
  | inr e ↦ rw e refl
]

pub table_store-KeyLaws : KeyLaws table_store
table_store-KeyLaws = record {
  get_set = λ t k v s. put_same k (some v) s;
  get_set_other = λ t k l v s h. put_other k l (some v) s h;
  set_nx_free = λ t k v s e. ap (put_found k v s) e;
  set_nx_held = λ t k v u s e. ap (put_found k v s) e;
  get_del = λ k s. put_same k none s;
  get_del_other = λ k l s h. put_other k l none s h;
}
