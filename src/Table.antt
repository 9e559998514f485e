-- ===== src/Table.antt =====
-- A key-value database of heed (an LMDB tree), and a `HashMap` of Rust, as the program uses them:
-- `get`, `put` or `insert`, `delete`, and a walk over all entries. The order of the walk is the
-- order of first insertion; in the program it is that of the encoded keys, or unspecified.
pub mod Laws
pub mod Total
pub mod Last
pub mod Unique
pub mod Every
pub mod Moves
use ddk.Prelude.{ℕ, ltb, if◌then◌else◌, Bool, Option, none, some, List, [], ◌∷◌, is_some, map}
use mathlib.Core.Logic.{ite}

-- A type of keys: its equality is decidable (`Eq` in Rust).
pub record Key (K : Type 0) : Type 0 where
  pub discrete : Discrete K

abbrev pub Table : Type 0 → Type 0 → Type 0
Table K V = List (K × V)

module _ {K V : Type 0} ⦃e : Key K⦄ where
  -- `Database::get`
  unfoldable pub get : K → Table K V → Option V
  get k [] = none
  get k ((j, v) ∷ t) = ite (e.discrete k j) (some v) (get k t)

  -- `Database::put`, `HashMap::insert`
  unfoldable pub put : K → V → Table K V → Table K V
  put k v [] = (k, v) ∷ []
  put k v ((j, w) ∷ t) = ite (e.discrete k j) ((k, v) ∷ t) ((j, w) ∷ put k v t)

  -- `Database::delete`
  unfoldable pub delete : K → Table K V → Table K V
  delete k [] = []
  delete k ((j, w) ∷ t) = ite (e.discrete k j) (delete k t) ((j, w) ∷ delete k t)

  -- `for (k, v) in entries { table.put(k, v) }`
  unfoldable pub put_all : List (K × V) → Table K V → Table K V
  put_all [] t = t
  put_all ((k, v) ∷ l) t = put_all l (put k v t)

  -- `for k in keys { table.delete(k) }`
  unfoldable pub delete_all : List K → Table K V → Table K V
  delete_all [] t = t
  delete_all (k ∷ ks) t = delete_all ks (delete k t)

module _ {V : Type 0} where
  -- `Database::last`: the entry with the greatest key, where keys are numbers
  unfoldable pub last : Table ℕ V → Option (ℕ × V)
  last [] = none
  last ((k, v) ∷ t) = elim (last t) [
    | none ↦ some (k, v)
    | some (j, w) ↦ if ltb k j then some (j, w) else some (k, v)
  ]

  insert_sorted : ℕ × V → List (ℕ × V) → List (ℕ × V)
  insert_sorted e [] = e ∷ []
  insert_sorted e (f ∷ l) = if ltb f.0 e.0 then f ∷ insert_sorted e l else e ∷ f ∷ l

  -- `Database::iter`: the entries by ascending key, where keys are numbers
  unfoldable pub iter : Table ℕ V → List (ℕ × V)
  unfolding insert_sorted
  iter [] = []
  iter (e ∷ t) = insert_sorted e (iter t)

-- `HashMap::keys`
abbrev pub keys : {K V : Type 0} → Table K V → List K
keys = map (λ e. e.0)
