-- ===== src/State/Fill.antt =====
-- `fill_transaction`: which transactions it accepts, and what it reads.
use ddk.Prelude.{
  ◌≡◌, refl, ◌⊎◌, inl, inr, List, [], ◌∷◌, some, none, Option, arith, Result, ok, err, Option-cases,
}
use ddk.Table.{Table, get}
use ddk.Types.{Chain, OutPoint, Output, Transaction, FilledTransaction, out_point_key}
use ddk.State.{State, Error, no_utxo, fill_inputs, fill_transaction}

-- The outputs are those that the outpoints name, one for one and in order.
abbrev pub Spends :
    {c : Chain} → Table OutPoint (Output c) → List OutPoint → List (Output c) → Type 0
Spends utxos [] [] = Unit
Spends utxos [] (o ∷ os) = ⊥
Spends utxos (i ∷ is) [] = ⊥
Spends utxos (i ∷ is) (o ∷ os) = (get i utxos ≡ some o) × Spends utxos is os

-- The first outpoint that the table lacks, if any.
unfoldable pub first_missing :
    {c : Chain} → Table OutPoint (Output c) → List OutPoint → Option OutPoint
first_missing utxos [] = none
first_missing utxos (i ∷ is) = elim (get i utxos) [
  | none ↦ some i
  | some _ ↦ first_missing utxos is
]

module _ {c : Chain} where
  pub fill_inputs-Spends :
      (utxos : Table OutPoint (Output c)) (is : List OutPoint) (os : List (Output c))
      → fill_inputs utxos is ≡ ok os
      → Spends utxos is os
  unfolding fill_inputs
  fill_inputs-Spends utxos [] [] h = tt
  fill_inputs-Spends utxos [] (o ∷ os) h = cc
  fill_inputs-Spends utxos (i ∷ is) [] h = ground arith
  fill_inputs-Spends utxos (i ∷ is) (o ∷ os) h = ground (arith, fill_inputs-Spends utxos is os)

  fill_inputs-eq-err :
      (utxos : Table OutPoint (Output c)) (is : List OutPoint) (e : Error)
      → fill_inputs utxos is ≡ err e
      → (i : OutPoint) × (first_missing utxos is ≡ some i) × (e ≡ no_utxo i)
  unfolding fill_inputs first_missing
  fill_inputs-eq-err utxos [] e h = cc
  fill_inputs-eq-err utxos (i ∷ is) e h = elim (Option-cases (get i utxos)) [
    | inl missing ↦ (i, ground arith, ground arith)
    | inr (o, found) ↦
        let later : fill_inputs utxos is ≡ err e = ground arith in
        let (j, first, same) = fill_inputs-eq-err utxos is e later in (j, ground arith, same)
  ]

  -- What becomes of a transaction: it is filled with the outputs that its inputs name, one for
  -- one and in order, or the first input that is not there is reported.
  abbrev pub Filled : State c → Transaction c → Result Error (FilledTransaction c) → Type 0
  Filled s t result =
      ((f : FilledTransaction c) × (result ≡ ok f)
        × (f.transaction ≡ t)
        × (first_missing s.utxos t.inputs ≡ none)
        × Spends s.utxos t.inputs f.spent_utxos)
      ⊎ ((i : OutPoint) × (result ≡ err (no_utxo i)) × (first_missing s.utxos t.inputs ≡ some i))

  Spends-first_missing :
      (utxos : Table OutPoint (Output c)) (is : List OutPoint) (os : List (Output c))
      → Spends utxos is os
      → first_missing utxos is ≡ none
  unfolding first_missing
  Spends-first_missing utxos [] os h = refl
  Spends-first_missing utxos (i ∷ is) [] h = absurd h
  Spends-first_missing utxos (i ∷ is) (o ∷ os) h =
      ground (arith, h.0, Spends-first_missing utxos is os h.1)

  -- A transaction is filled exactly when no input is missing among the unspent outputs, with
  -- those outputs in the order of the inputs; otherwise the error names the first missing input.
  pub fill_transaction_lem : (s : State c) (t : Transaction c) → Filled s t (fill_transaction s t)
  unfolding fill_transaction
  fill_transaction_lem s t = go (fill_inputs s.utxos t.inputs) refl
    where
      go :
          (r : Result Error (List (Output c)))
          → fill_inputs s.utxos t.inputs ≡ r
          → Filled s t (fill_transaction s t)
      go (ok os) e =
          let spends = fill_inputs-Spends s.utxos t.inputs os e in
          inl (
            record { transaction = t; spent_utxos = os },
            rw e,
            refl,
            Spends-first_missing s.utxos t.inputs os spends,
            spends,
          )
      go (err e) h =
          let (i, first, same) = fill_inputs-eq-err s.utxos t.inputs e h in
          inr (i, rw (h, same), first)

  -- The filled transaction, if there is one.
  pub fill_transaction-ok :
      (s : State c) (t : Transaction c) (f : FilledTransaction c)
      → fill_transaction s t ≡ ok f
      → (f.transaction ≡ t) × Spends s.utxos t.inputs f.spent_utxos
  unfolding fill_transaction
  fill_transaction-ok s t f h =
      (ground arith, fill_inputs-Spends s.utxos t.inputs f.spent_utxos (ground arith))
