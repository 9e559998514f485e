-- ===== src/Types/Blocks.antt =====
-- `Body` of src/types/types.rs: a block's contents put together and taken apart.
use ddk.Prelude.{ℕ, ◌+◌, ◌%◌, List, [], ◌∷◌, ◌++◌, map, sum64_from, u32_mod}
use ddk.Table.{Table, put_all}
use ddk.Types.{
  Chain, Codec, OutPoint, regular, coinbase, Output, Transaction, AuthorizedTransaction, Body,
  get_value, txid, compute_merkle_root, out_point_key,
}

-- `iter().enumerate()` with `vout as u32`, from a first index
unfoldable pub number_outputs :
    {c : Chain} (point : ℕ → OutPoint) → ℕ → List (Output c) → List (OutPoint × Output c)
number_outputs point i [] = []
number_outputs point i (o ∷ os) = (point (i % u32_mod), o) ∷ number_outputs point (i + 1) os

-- the inputs of the transactions, in order
unfoldable pub inputs_of : {c : Chain} → List (Transaction c) → List OutPoint
inputs_of [] = []
inputs_of (t ∷ ts) = t.inputs ++ inputs_of ts

module _ {c : Chain} {A : Type 0} where
  -- the loop of `Body::new`
  unfoldable pub gather :
      List (AuthorizedTransaction c A)
      → List A
      → List (Transaction c)
      → List A × List (Transaction c)
  gather [] authorizations transactions = (authorizations, transactions)
  gather (t ∷ ts) authorizations transactions =
      gather ts (authorizations ++ t.authorizations) (transactions ++ t.transaction ∷ [])

  -- `Body::new`
  unfoldable pub new : List (AuthorizedTransaction c A) → List (Output c) → Body c A
  unfolding gather
  new authorized outputs =
      let (authorizations, transactions) = gather authorized [] [] in
      record { coinbase = outputs; transactions = transactions; authorizations = authorizations }

  -- `Body::get_inputs`
  unfoldable pub get_inputs : Body c A → List OutPoint
  unfolding inputs_of
  get_inputs b = inputs_of b.transactions

  unfoldable pub get_coinbase_value : Body c A → ℕ
  get_coinbase_value b = sum64_from 0 (map get_value b.coinbase)

module _ {c : Chain} (codec : Codec c) where
  -- the entries that a transaction creates
  unfoldable pub transaction_entries : Transaction c → List (OutPoint × Output c)
  unfolding number_outputs txid
  transaction_entries t = number_outputs (regular (txid codec t)) 0 t.outputs

  unfoldable pub insert_outputs :
      List (Transaction c) → Table OutPoint (Output c) → Table OutPoint (Output c)
  insert_outputs [] outputs = outputs
  insert_outputs (t ∷ ts) outputs = insert_outputs ts (put_all (transaction_entries t) outputs)

  unfoldable pub coinbase_entries : {A : Type 0} → Body c A → List (OutPoint × Output c)
  unfolding number_outputs compute_merkle_root
  coinbase_entries b = number_outputs (coinbase (compute_merkle_root codec b)) 0 b.coinbase

  -- `Body::get_outputs`
  unfoldable pub get_outputs : {A : Type 0} → Body c A → Table OutPoint (Output c)
  unfolding insert_outputs transaction_entries coinbase_entries
  get_outputs b = insert_outputs b.transactions (put_all (coinbase_entries b) [])
