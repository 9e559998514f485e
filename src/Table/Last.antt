-- ===== src/Table/Last.antt =====
-- The last entry of a table with numbers for keys.
use ddk.Prelude.{ℕ, ◌≤◌, ◌≡◌, refl, none, some, [], ◌∷◌, arith, Option-cases, inl, inr}
use ddk.Table.{Table, get, last}
use ddk.Types.{number_key}

module _ {V : Type 0} where
  pub get-last : (t : Table ℕ V) (k : ℕ) (v : V) → last t ≡ some (k, v) → get k t ≡ some v
  unfolding get last
  get-last [] k v h = cc
  get-last ((j, w) ∷ t) k v h = elim (Option-cases (last t)) [
    | inl none_left ↦ ground arith
    | inr ((i, u), e) ↦ ground (arith, get-last t i u e)
  ]

  pub le-last :
      (t : Table ℕ V) (k j : ℕ) (v w : V) → last t ≡ some (k, v) → get j t ≡ some w → j ≤ k
  unfolding get last
  le-last [] k j v w h g = cc
  le-last ((i, u) ∷ t) k j v w h g = elim (Option-cases (last t)) [
    | inl none_left ↦ ground (arith, get-none t j none_left)
    | inr ((i', u'), e) ↦ ground (arith, le-last t i' j u' w e)
  ]
    where
      get-none : (t : Table ℕ V) (j : ℕ) → last t ≡ none → get j t ≡ none
      get-none [] j h = refl
      get-none ((k, v) ∷ t) j h = absurd (ground arith)

  pub get-last-none : (t : Table ℕ V) (j : ℕ) → last t ≡ none → get j t ≡ none
  unfolding get last
  get-last-none [] j h = refl
  get-last-none ((k, v) ∷ t) j h = absurd (ground arith)
