-- ===== src/Tests/StateTests.antt =====
-- The ledger's theorems at concrete blocks.
use ddk.Prelude.{
  ℕ, ◌+◌, ◌≤◌, ◌≡◌, ◌-◌, ◌<◌, refl, ok, none, List, [], ◌∷◌, arith, ◌^◌, true, if◌then◌else◌,
  sum64_from, ℕ_discrete,
}
use ddk.Table.{get, put, delete, put_all, delete_all}
use ddk.Table.Total.{total}
use ddk.Types.{
  regular, Output, Transaction, FilledTransaction, Body, get_value, txid, compute_merkle_root,
  out_point_key, OutPoint-discrete, MainOutPoint-discrete,
}
use ddk.Types.Blocks.{get_inputs, get_outputs}
use ddk.Types.Filled.{get_fee}
use ddk.State.{
  State, contains, fill_transaction, validate_filled_transaction, validate_body, connect_body,
}
use ddk.State.Fill.{Spends, first_missing}
use ddk.State.Fresh.{Distinct}
use ddk.State.Validate.{value_of, validate_body-Distinct}
use ddk.State.Supply.{supply, supply-connect_body}
use ddk.State.Overflow.{overflow_mints}
use ddk.State.Owners.{OwnedBy, validate_body-OwnedBy}
use ddk.State.Effect.{overlay, get-connect_body}
use ddk.Tests.Data.{chain, codec, trusting, coin}

-- Everything that a run of the ledger computes with.
runs : Unit {0}
unfolding get put delete put_all delete_all total get_value txid compute_merkle_root
    OutPoint-discrete MainOutPoint-discrete get_inputs get_outputs get_fee contains fill_transaction
    validate_body connect_body ℕ_discrete first_missing sum64_from
runs = tt

abbrev state : State chain
state = record {
  utxos = (regular 7 0, coin 5 10) ∷ (regular 8 1, coin 6 20) ∷ [];
  pending_withdrawal_bundle = none;
  last_withdrawal_bundle_failure_height = none;
  last_deposit_block = none;
}

abbrev payment : Transaction chain
payment = record { inputs = regular 7 0 ∷ []; outputs = coin 9 4 ∷ coin 5 5 ∷ [] }

abbrev block : Body chain ℕ
block = record { coinbase = coin 3 1 ∷ []; transactions = payment ∷ []; authorizations = 5 ∷ [] }

block_accepted : validate_body trusting state block ≡ ok 1
unfolding runs
block_accepted = refl

abbrev filled : FilledTransaction chain
filled = record { transaction = payment; spent_utxos = coin 5 10 ∷ [] }

supply-connect_body_example :
    (supply (connect_body codec state block).utxos + 1
      ≤ supply state.utxos + value_of block.coinbase)
    × (value_of block.coinbase ≤ 1)
    × (supply (connect_body codec state block).utxos ≤ supply state.utxos)
unfolding runs
supply-connect_body_example =
    supply-connect_body codec trusting state block block_accepted (omega arith) (omega arith)
      (omega arith, tt)

validate_body-OwnedBy_example :
    (os : List (Output chain)) × Spends state.utxos (get_inputs block) os
    × OwnedBy trusting block.authorizations os
    × (trusting.verify_body block ≡ true)
unfolding runs
validate_body-OwnedBy_example = validate_body-OwnedBy trusting state block block_accepted refl

validate_body-Distinct_example : Distinct (get_inputs block)
validate_body-Distinct_example = validate_body-Distinct trusting state block block_accepted

get-connect_body_example :
    get (regular 8 1) (connect_body codec state block).utxos
    ≡ overlay
        (get (regular 8 1) (get_outputs codec block))
        (if contains (regular 8 1) (get_inputs block) then none else get (regular 8 1) state.utxos)
unfolding runs
get-connect_body_example = get-connect_body codec state block (regular 8 1) (refl, tt)

abbrev minting : FilledTransaction chain
minting = record {
  transaction = record {
    inputs = regular 7 0 ∷ [];
    outputs = coin 9 (2 ^ 63) ∷ coin 9 (2 ^ 63 + 3) ∷ [];
  };
  spent_utxos = coin 5 10 ∷ [];
}

overflow_mints_example :
    (validate_filled_transaction minting ≡ ok (value_of minting.spent_utxos - 3))
    × (value_of minting.spent_utxos < value_of minting.transaction.outputs)
unfolding runs
overflow_mints_example = overflow_mints minting 3 refl (omega arith) (omega arith)
