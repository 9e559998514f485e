-- ===== src/Table/Moves.antt =====
-- Entries that move from one table to another take their measure along.
use ddk.Prelude.{ℕ, ◌+◌, ◌≤◌, ◌≡◌, sym, some, [], ◌∷◌, arith, All}
use ddk.Table.{Key, Table, get, delete, put_all, delete_all, keys}
use ddk.Table.Laws.{get-delete_ne}
use ddk.Table.Total.{total, total-delete, total-delete_all-put_all, sum-map-total}
use ddk.Table.Unique.{Lacks, UniqueKeys}

module _ {K V : Type 0} ⦃e : Key K⦄ where
  -- Entries of a table are still there after another key is deleted.
  All-get-delete :
      (k : K) (l t : Table K V)
      → Lacks k l
      → All (λ p. get p.0 t ≡ some p.1) l
      → All (λ p. get p.0 (delete k t) ≡ some p.1) l
  All-get-delete k [] t apart h = tt
  All-get-delete k (p ∷ l) t apart h = (
    rw (get-delete_ne p.0 k t (λ same. apart.0 (sym same))) h.0,
    All-get-delete k l t apart.1 h.1,
  )

  module _ (value : V → ℕ) where
    -- Deleting entries of a table takes their measure out of it.
    pub total-delete_entries :
        (l t : Table K V)
        → UniqueKeys l
        → All (λ p. get p.0 t ≡ some p.1) l
        → total value (delete_all (keys l) t) + total value l ≤ total value t
    unfolding delete_all total
    total-delete_entries [] t u h = omega arith
    total-delete_entries ((k, v) ∷ l) t u h = omega (
      arith,
      total-delete value k v t h.0,
      total-delete_entries l (delete k t) u.1 (All-get-delete k l t u.0 h.1),
    )

    -- Putting entries into a table adds at most their measure.
    pub total-put_all-le :
        (l t : Table K V) → total value (put_all l t) ≤ total value t + total value l
    unfolding delete_all
    total-put_all-le l t =
        omega (arith, total-delete_all-put_all value [] l t, sum-map-total value l)
