-- ===== src/Table/Laws.antt =====
-- What can be read from a table after a write.
use ddk.Prelude.{◌≡◌, ◌≢◌, refl, none, some, List, [], ◌∷◌, ◌++◌, ◌⊎◌, inl, inr, arith}
use ddk.Table.{Key, Table, get, put, delete, put_all, delete_all}
use mathlib.Core.Logic.{ite}

module _ {K V : Type 0} ⦃e : Key K⦄ where
  pub get-put :
      (j k : K) (v : V) (t : Table K V)
      → get j (put k v t) ≡ ite (e.discrete j k) (some v) (get j t)
  unfolding get put
  get-put j k v [] = refl
  get-put j k v ((i, w) ∷ t) = ground (arith, get-put j k v t)

  pub get-delete :
      (j k : K) (t : Table K V) → get j (delete k t) ≡ ite (e.discrete j k) none (get j t)
  unfolding get delete
  get-delete j k [] = ground arith
  get-delete j k ((i, w) ∷ t) = ground (arith, get-delete j k t)

  pub get-put_ne : (j k : K) (v : V) (t : Table K V) → j ≢ k → get j (put k v t) ≡ get j t
  get-put_ne j k v t h = ground (arith, get-put j k v t)

  pub get-put_self : (k : K) (v : V) (t : Table K V) → get k (put k v t) ≡ some v
  get-put_self k v t = ground (arith, get-put k k v t)

  pub get-delete_ne : (j k : K) (t : Table K V) → j ≢ k → get j (delete k t) ≡ get j t
  get-delete_ne j k t h = ground (arith, get-delete j k t)

  pub get-delete_self : (k : K) (t : Table K V) → get k (delete k t) ≡ none
  get-delete_self k t = ground (arith, get-delete k k t)

  -- Writes to different keys commute, up to what an equation of lists can say.
  pub delete-put_self : (k : K) (v : V) (t : Table K V) → delete k (put k v t) ≡ delete k t
  unfolding put delete
  delete-put_self k v [] = ground arith
  delete-put_self k v ((i, w) ∷ t) = ground (arith, delete-put_self k v t)

  pub delete-put_ne :
      (j k : K) (v : V) (t : Table K V) → j ≢ k → delete j (put k v t) ≡ put k v (delete j t)
  unfolding put delete
  delete-put_ne j k v [] h = ground arith
  delete-put_ne j k v ((i, w) ∷ t) h = ground (arith, delete-put_ne j k v t h)

  -- A key that is deleted after a write does not show the write.
  pub delete_all-put :
      (ks : List K) (k : K) (v : V) (t : Table K V)
      → (delete_all ks (put k v t) ≡ delete_all ks t)
        ⊎ (delete_all ks (put k v t) ≡ put k v (delete_all ks t))
  unfolding delete_all
  delete_all-put [] k v t = inr refl
  delete_all-put (j ∷ ks) k v t = elim (e.discrete j k) [
    | yes same ↦ inl (rw (same, delete-put_self k v t))
    | no other ↦ rw (delete-put_ne j k v t other) (delete_all-put ks k v (delete j t))
  ]

  pub delete_all-append :
      (js ks : List K) (t : Table K V) → delete_all (js ++ ks) t ≡ delete_all ks (delete_all js t)
  unfolding delete_all
  delete_all-append [] ks t = refl
  delete_all-append (j ∷ js) ks t = delete_all-append js ks (delete j t)

  pub put_all-append :
      (l m : List (K × V)) (t : Table K V) → put_all (l ++ m) t ≡ put_all m (put_all l t)
  unfolding put_all
  put_all-append [] m t = refl
  put_all-append ((k, v) ∷ l) m t = put_all-append l m (put k v t)
