-- ===== src/State/Supply.antt =====
-- A block that `validate_body` accepts creates no money.
use ddk.Prelude.{
  ℕ, ◌+◌, ◌≤◌, ◌<◌, ◌≡◌, ◌≢◌, refl, sym, List, [], ◌∷◌, ◌++◌, arith, ok, All, map, sum,
  sum64-eq-sum, u64_mod,
}
use ddk.Table.{Table, delete, delete_all, put_all}
use ddk.Table.Laws.{get-delete_ne, delete_all-append}
use ddk.Table.Total.{total, total-delete, total-delete_all-put_all}
use ddk.Types.{
  Chain, Codec, Verify, OutPoint, Output, Transaction, FilledTransaction, Body, coinbase,
  compute_merkle_root, get_value, out_point_key,
}
use ddk.Types.Blocks.{inputs_of, number_outputs, transaction_entries, coinbase_entries}
use ddk.State.{State, validate_body, connect_body, connect_transactions}
use ddk.State.Fill.{Spends}
use ddk.State.Fresh.{Distinct, Fresh-Distinct}
use ddk.State.Validate.{
  value_of, values_in, values_out, FilledFrom, validate_body-Accepted, check_transactions-Fresh,
  check_transactions-fees,
}

-- The value of all unspent outputs.
abbrev pub supply : {c : Chain} → Table OutPoint (Output c) → ℕ
supply = total get_value

module _ {c : Chain} where
  -- Deleting other outpoints leaves what is spent in place.
  Spends-delete :
      (utxos : Table OutPoint (Output c)) (i : OutPoint) (is : List OutPoint) (os : List (Output c))
      → All (λ j. i ≢ j) is
      → Spends utxos is os
      → Spends (delete i utxos) is os
  Spends-delete utxos i [] [] apart h = tt
  Spends-delete utxos i [] (o ∷ os) apart h = absurd h
  Spends-delete utxos i (j ∷ is) [] apart h = absurd h
  Spends-delete utxos i (j ∷ is) (o ∷ os) apart h = (
    rw (get-delete_ne j i utxos (λ e. apart.0 (sym e))) h.0,
    Spends-delete utxos i is os apart.1 h.1,
  )

  Spends-append :
      (utxos : Table OutPoint (Output c)) (is js : List OutPoint) (os ps : List (Output c))
      → Spends utxos is os
      → Spends utxos js ps
      → Spends utxos (is ++ js) (os ++ ps)
  Spends-append utxos [] js [] ps h k = k
  Spends-append utxos [] js (o ∷ os) ps h k = absurd h
  Spends-append utxos (i ∷ is) js [] ps h k = absurd h
  Spends-append utxos (i ∷ is) js (o ∷ os) ps h k = (h.0, Spends-append utxos is js os ps h.1 k)

  -- What is spent leaves the supply.
  supply-delete_all :
      (utxos : Table OutPoint (Output c)) (is : List OutPoint) (os : List (Output c))
      → Distinct is
      → Spends utxos is os
      → supply (delete_all is utxos) + value_of os ≤ supply utxos
  unfolding delete_all
  supply-delete_all utxos [] [] d h = omega arith
  supply-delete_all utxos [] (o ∷ os) d h = absurd h
  supply-delete_all utxos (i ∷ is) [] d h = absurd h
  supply-delete_all utxos (i ∷ is) (o ∷ os) d h = omega (
    arith,
    total-delete get_value i o utxos h.0,
    supply-delete_all (delete i utxos) is os d.1 (Spends-delete utxos i is os d.0 h.1),
  )

  value_of-append : (os ps : List (Output c)) → value_of (os ++ ps) ≡ value_of os + value_of ps
  value_of-append [] ps = omega arith
  value_of-append (o ∷ os) ps = omega (arith, value_of-append os ps)

  outputs_in : List (FilledTransaction c) → List (Output c)
  outputs_in [] = []
  outputs_in (f ∷ fs) = f.spent_utxos ++ outputs_in fs

  value_of-outputs_in : (fs : List (FilledTransaction c)) → value_of (outputs_in fs) ≡ values_in fs
  unfolding outputs_in
  value_of-outputs_in [] = refl
  value_of-outputs_in (f ∷ fs) =
      omega (arith, value_of-append f.spent_utxos (outputs_in fs), value_of-outputs_in fs)

  FilledFrom-Spends :
      (s : State c) (ts : List (Transaction c)) (fs : List (FilledTransaction c))
      → FilledFrom s ts fs
      → Spends s.utxos (inputs_of ts) (outputs_in fs)
  unfolding inputs_of outputs_in
  FilledFrom-Spends s [] [] h = tt
  FilledFrom-Spends s [] (f ∷ fs) h = absurd h
  FilledFrom-Spends s (t ∷ ts) [] h = absurd h
  FilledFrom-Spends s (t ∷ ts) (f ∷ fs) h =
      Spends-append s.utxos t.inputs (inputs_of ts) f.spent_utxos (outputs_in fs) h.1
        (FilledFrom-Spends s ts fs h.2)

  -- Numbering the outputs keeps their values.
  pub value-number_outputs :
      (point : ℕ → OutPoint) (i : ℕ) (os : List (Output c))
      → sum (map (λ p. get_value p.1) (number_outputs point i os)) ≡ value_of os
  unfolding number_outputs
  value-number_outputs point i [] = refl
  value-number_outputs point i (o ∷ os) = omega (arith, value-number_outputs point (i + 1) os)

  module _ (codec : Codec c) where
    -- Connecting transactions adds at most their outputs to what their inputs leave.
    supply-connect_transactions :
        (ts : List (Transaction c)) (utxos : Table OutPoint (Output c))
        → supply (connect_transactions codec ts utxos)
          ≤ supply (delete_all (inputs_of ts) utxos) + values_out ts
    unfolding connect_transactions inputs_of delete_all transaction_entries
    supply-connect_transactions [] utxos = omega arith
    supply-connect_transactions (t ∷ ts) utxos =
        let left = delete_all t.inputs utxos in
        let entries = transaction_entries codec t in
        let e = delete_all-append t.inputs (inputs_of ts) utxos in
        rw e (
          omega (
            arith,
            supply-connect_transactions ts (put_all entries left),
            total-delete_all-put_all get_value (inputs_of ts) entries left,
            value-number_outputs _ 0 t.outputs,
          ))

    value-coinbase_entries :
        {A : Type 0} (b : Body c A)
        → sum (map (λ p. get_value p.1) (coinbase_entries codec b)) ≡ value_of b.coinbase
    unfolding coinbase_entries
    value-coinbase_entries b =
        value-number_outputs (coinbase (compute_merkle_root codec b)) 0 b.coinbase

    -- If a block is accepted, and neither the supply nor the outputs of one transaction nor the
    -- coinbase overflow 64 bits, then connecting the block does not raise the supply: with the
    -- fees it is at most the old supply with the coinbase, and the coinbase is at most the fees.
    pub supply-connect_body :
        {A : Type 0} (verify : Verify c A) (s : State c) (b : Body c A) {fees : ℕ}
        → validate_body verify s b ≡ ok fees
        → supply s.utxos < u64_mod
        → value_of b.coinbase < u64_mod
        → All (λ t. value_of t.outputs < u64_mod) b.transactions
        → (supply (connect_body codec s b).utxos + fees ≤ supply s.utxos + value_of b.coinbase)
          × (value_of b.coinbase ≤ fees)
          × (supply (connect_body codec s b).utxos ≤ supply s.utxos)
    unfolding connect_body
    supply-connect_body verify s b {fees} h fits cb outs =
        let a = validate_body-Accepted verify s b h in
        let ts = b.transactions in
        let fresh = check_transactions-Fresh s [] 0 ts a.filled a.from a.checked in
        let spent =
          supply-delete_all s.utxos (inputs_of ts) (outputs_in a.filled)
            (Fresh-Distinct (inputs_of ts) fresh) (FilledFrom-Spends s ts a.filled a.from) in
        let ins = value_of-outputs_in a.filled in
        let balance =
          check_transactions-fees s [] 0 ts a.filled a.from a.checked (omega arith) outs in
        let entries = coinbase_entries codec b in
        let added = total-delete_all-put_all get_value (inputs_of ts) entries s.utxos in
        let value = value-coinbase_entries b in
        let done = supply-connect_transactions ts (put_all entries s.utxos) in
        let coinbase_sum = sum64-eq-sum (map get_value b.coinbase) cb in
        let covered = a.covered in (omega arith, omega arith, omega arith)
