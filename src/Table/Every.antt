-- ===== src/Table/Every.antt =====
-- What holds of every entry of a table, under the writes.
use ddk.Prelude.{
  ℕ, zero, suc, ◌≡◌, some, List, [], ◌∷◌, arith, All, take, map, ltb, Bool-cases, inl, inr,
}
use ddk.Table.{Key, Table, get, put, put_all, iter, insert_sorted}
use mathlib.Core.Logic.{if_pos, if_neg}

module _ {K V : Type 0} ⦃e : Key K⦄ (P : K × V → Type 0) where
  pub put-All : (k : K) (v : V) (t : Table K V) → P (k, v) → All P t → All P (put k v t)
  unfolding put
  put-All k v [] p h = (p, tt)
  put-All k v ((j, w) ∷ t) p h = elim (e.discrete k j) [
    | yes same ↦ rw (if_pos _ same) (p, h.1)
    | no other ↦ rw (if_neg _ other) (h.0, put-All k v t p h.1)
  ]

  pub put_all-All : (l t : Table K V) → All P l → All P t → All P (put_all l t)
  unfolding put_all
  put_all-All [] t p h = h
  put_all-All ((k, v) ∷ l) t p h = put_all-All l (put k v t) p.1 (put-All k v t p.0 h)

module _ {K V : Type 0} ⦃e : Key K⦄ (P : V → Type 0) where
  pub All-get :
      (k : K) (v : V) (t : Table K V) → All (λ (p : K × V). P p.1) t → get k t ≡ some v → P v
  unfolding get
  All-get k v [] h g = absurd (ground arith)
  All-get k v ((j, w) ∷ t) h g = elim (e.discrete k j) [
    | yes same ↦ let found : w ≡ v = ground arith in rw found at h.0
    | no other ↦ All-get k v t h.1 (ground arith)
  ]

pub take-All : {T : Type 0} (P : T → Type 0) (n : ℕ) (xs : List T) → All P xs → All P (take n xs)
take-All P zero xs h = tt
take-All P (suc n) [] h = tt
take-All P (suc n) (x ∷ xs) h = (h.0, take-All P n xs h.1)

pub map-All :
    {S T : Type 0} (P : T → Type 0) (f : S → T) (xs : List S)
    → All (λ x. P (f x)) xs
    → All P (map f xs)
map-All P f [] h = tt
map-All P f (x ∷ xs) h = (h.0, map-All P f xs h.1)

module _ {V : Type 0} (P : ℕ × V → Type 0) where
  insert_sorted-All : (p : ℕ × V) (l : List (ℕ × V)) → P p → All P l → All P (insert_sorted p l)
  unfolding insert_sorted
  insert_sorted-All p [] h k = (h, tt)
  insert_sorted-All p (q ∷ l) h k = elim (Bool-cases (ltb q.0 p.0)) [
    | inl low ↦ rw low (k.0, insert_sorted-All p l h k.1)
    | inr high ↦ rw high (h, k)
  ]

  pub iter-All : (t : Table ℕ V) → All P t → All P (iter t)
  unfolding iter
  iter-All [] h = tt
  iter-All (p ∷ t) h = insert_sorted-All p (iter t) h.0 (iter-All t h.1)
