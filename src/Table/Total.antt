-- ===== src/Table/Total.antt =====
-- The sum of a measure over a table, under each write.
use ddk.Prelude.{ℕ, ◌+◌, ◌≤◌, ◌≡◌, refl, none, some, List, [], ◌∷◌, inl, inr, arith, map, sum}
use ddk.Table.{Key, Table, get, put, delete, put_all, delete_all}
use ddk.Table.Laws.{delete_all-put}

module _ {K V : Type 0} ⦃e : Key K⦄ (value : V → ℕ) where
  unfoldable pub total : Table K V → ℕ
  total [] = 0
  total ((k, v) ∷ t) = value v + total t

  pub total-put-le : (k : K) (v : V) (t : Table K V) → total (put k v t) ≤ total t + value v
  unfolding total put
  total-put-le k v [] = omega arith
  total-put-le k v ((j, w) ∷ t) = ground (arith, total-put-le k v t)

  pub total-delete-le : (k : K) (t : Table K V) → total (delete k t) ≤ total t
  unfolding total delete
  total-delete-le k [] = omega arith
  total-delete-le k ((j, w) ∷ t) = ground (arith, total-delete-le k t)

  -- A deleted entry takes its value along.
  pub total-delete :
      (k : K) (v : V) (t : Table K V) → get k t ≡ some v → total (delete k t) + value v ≤ total t
  unfolding total delete get
  total-delete k v [] h = cc
  total-delete k v ((j, w) ∷ t) h = ground (arith, total-delete k v t, total-delete-le k t)

  -- Writes that a later deletion covers add nothing.
  pub total-delete_all-put :
      (ks : List K) (k : K) (v : V) (t : Table K V)
      → total (delete_all ks (put k v t)) ≤ total (delete_all ks t) + value v
  total-delete_all-put ks k v t = elim (delete_all-put ks k v t) [
    | inl same ↦ rw same (omega arith)
    | inr kept ↦ rw kept (total-put-le k v (delete_all ks t))
  ]

  pub total-delete_all-put_all :
      (ks : List K) (l : List (K × V)) (t : Table K V)
      → total (delete_all ks (put_all l t)) ≤ total (delete_all ks t) + sum (map (λ p. value p.1) l)
  unfolding put_all
  total-delete_all-put_all ks [] t = omega arith
  total-delete_all-put_all ks ((k, v) ∷ l) t =
      omega (arith, total-delete_all-put_all ks l (put k v t), total-delete_all-put ks k v t)

  -- A write over an entry takes the old value out, and a new entry adds its own.
  pub total-put_over :
      (k : K) (v w : V) (t : Table K V)
      → get k t ≡ some w
      → total (put k v t) + value w ≡ total t + value v
  unfolding total put get
  total-put_over k v w [] h = cc
  total-put_over k v w ((j, u) ∷ t) h = ground (arith, total-put_over k v w t)

  pub total-put_new :
      (k : K) (v : V) (t : Table K V) → get k t ≡ none → total (put k v t) ≡ total t + value v
  unfolding total put get
  total-put_new k v [] h = omega arith
  total-put_new k v ((j, u) ∷ t) h = ground (arith, total-put_new k v t)

  pub le-total : (k : K) (v : V) (t : Table K V) → get k t ≡ some v → value v ≤ total t
  unfolding total get
  le-total k v [] h = cc
  le-total k v ((j, u) ∷ t) h = ground (arith, le-total k v t)

module _ {K V : Type 0} where
  pub sum-map-total :
      ⦃e : Key K⦄ (value : V → ℕ) (t : Table K V)
      → sum (map (λ (p : K × V). value p.1) t) ≡ total value t
  unfolding total
  sum-map-total value [] = refl
  sum-map-total value ((k, v) ∷ t) = omega (arith, sum-map-total value t)
