-- ===== src/Tests/KeyTests.antt =====
-- The theorems on signatures and the wallet at concrete keys.
use ddk.Prelude.{
  ℕ, ◌≤◌, ◌<◌, ◌⊎◌, ◌≡◌, refl, ok, err, none, some, List, [], ◌∷◌, length, arith, ltb,
  if◌then◌else◌, ℕ_discrete, sum64_from,
}
use ddk.Table.{get, put, last}
use ddk.Table.Total.{total}
use ddk.Table.Unique.{UniqueKeys}
use ddk.Types.{
  regular, withdrawal, Output, Transaction, AuthorizedTransaction, Body, get_value, is_withdrawal,
  out_point_key, number_key, OutPoint-discrete, MainOutPoint-discrete,
}
use ddk.Types.Blocks.{get_inputs, new}
use ddk.State.{State, validate_body}
use ddk.State.Fill.{Spends}
use ddk.State.Owners.{OwnedBy, theft}
use ddk.State.Bundle.Payout.{withdrawn}
use ddk.Authorization.{
  Authorization, dalek_error, panicked, authorize, verify_authorizations,
  verify_authorized_transaction, verify_trait, get_address, sign,
}
use ddk.Authorization.Packages.{all_valid}
use ddk.Authorization.Batch.{signed_pairs, verify_authorizations_lem}
use ddk.Authorization.Combined.{verify_authorizations-new}
use ddk.Authorization.Unsigned.{validate_body-unauthorized}
use ddk.Wallet
use ddk.Wallet.{
  Wallet, Selection, select_coins, not_enough_funds, create_transaction, create_withdrawal,
  get_new_address, get_num_addresses, get_balance,
}
use ddk.Wallet.Create.{Pays, create_transaction-Pays, create_withdrawal-Pays}
use ddk.Wallet.Addresses.{HasKeys}
use ddk.Wallet.Select.{spendable, spendable_value, select_coins-total}
use ddk.Wallet.Authorize.{authorize-OwnedBy}
use ddk.Tests.Data.{
  chain, codec, dalek, valid, batch_law, sign_law, backend, coin_sort_law, coin, exit,
}

runs : Unit {0}
unfolding get put last total OutPoint-discrete MainOutPoint-discrete ℕ_discrete get_inputs get_value
    is_withdrawal authorize verify_authorizations verify_authorized_transaction get_address sign
    spendable_value withdrawn create_transaction create_withdrawal get_balance sum64_from
    Wallet.authorize
runs = tt

abbrev payment : Transaction chain
payment = record { inputs = regular 7 0 ∷ regular 8 0 ∷ []; outputs = coin 9 4 ∷ [] }

abbrev signed : List (Authorization dalek)
signed = record { public_key = 1; signature = 10 } ∷ record { public_key = 2; signature = 11 } ∷ []

abbrev block : Body chain (Authorization dalek)
block = record { coinbase = []; transactions = payment ∷ []; authorizations = signed }

verify_authorizations_lem_example : verify_authorizations dalek codec 4 block ≡ (
    if ltb (length (get_inputs block)) (length block.authorizations)
    then err panicked
    else (if all_valid dalek valid (signed_pairs dalek codec block)
        then ok tt
        else err dalek_error))
verify_authorizations_lem_example =
    verify_authorizations_lem dalek codec valid batch_law 4 block (omega arith)

abbrev state : State chain
state = record {
  utxos = (regular 7 0, coin 501 10) ∷ [];
  pending_withdrawal_bundle = none;
  last_withdrawal_bundle_failure_height = none;
  last_deposit_block = none;
}

validate_body-unauthorized_example :
    validate_body (verify_trait dalek codec 4) state (
      theft
        (verify_trait dalek codec 4)
        (regular 7 0)
        (record { address = 666; content = (coin 501 10).content }))
    ≡ ok 0
unfolding get OutPoint-discrete MainOutPoint-discrete ℕ_discrete get_value
validate_body-unauthorized_example =
    validate_body-unauthorized dalek codec valid batch_law 4 state (regular 7 0) (coin 501 10) 666
      (omega arith) refl (omega arith)

abbrev wallet : Wallet backend
wallet = record {
  seed = some 40;
  address_to_index = (541, 1) ∷ [];
  index_to_address = (1, 541) ∷ [];
  utxos =
      (regular 7 0, coin 541 10) ∷ (regular 7 1, exit 541 3 1 1) ∷ (regular 8 0, coin 541 20) ∷ [];
}

wallet-HasKeys : HasKeys backend wallet
unfolding get get_address
wallet-HasKeys a i h = (40, 41, refl, ground arith, ground arith)

unique : UniqueKeys wallet.utxos
unique = (((λ e. ground arith), ((λ e. ground arith), tt)), (((λ e. ground arith), tt), (tt, tt)))

select_coins-total_example :
    ((found : Selection backend) × (select_coins backend wallet 12 ≡ ok found)
      × (12 ≤ found.total)
      × (found.total ≤ spendable wallet.utxos))
    ⊎ ((select_coins backend wallet 12 ≡ err not_enough_funds) × (spendable wallet.utxos < 12))
unfolding runs
select_coins-total_example = select_coins-total backend coin_sort_law wallet 12 (omega arith)

abbrev chosen : Selection backend
chosen = record {
  total = 30;
  selected = (regular 7 0, coin 541 10) ∷ (regular 8 0, coin 541 20) ∷ [];
}

-- Two coins cover a value of 12.
selects : select_coins backend wallet 12 ≡ ok chosen
unfolding runs
selects = refl

abbrev after : Wallet backend
after = record wallet {
  address_to_index = (541, 1) ∷ (542, 2) ∷ [];
  index_to_address = (1, 541) ∷ (2, 542) ∷ [];
}

abbrev after_two : Wallet backend
after_two = record wallet {
  address_to_index = (541, 1) ∷ (542, 2) ∷ (543, 3) ∷ [];
  index_to_address = (1, 541) ∷ (2, 542) ∷ (3, 543) ∷ [];
}

create_transaction-Pays_example :
    Pays backend wallet
      (coin 9 11)
      (record { inputs = regular 7 0 ∷ regular 8 0 ∷ []; outputs = coin 9 11 ∷ coin 542 18 ∷ [] })
      1
unfolding runs
create_transaction-Pays_example =
    create_transaction-Pays backend coin_sort_law wallet after 9 11 1
      (record { inputs = regular 7 0 ∷ regular 8 0 ∷ []; outputs = coin 9 11 ∷ coin 542 18 ∷ [] })
      unique (omega arith) (omega arith) refl

create_withdrawal-Pays_example :
    (a : ℕ) × Pays backend wallet
      (record { address = a; content = withdrawal 9 2 77 })
      (record {
        inputs = regular 7 0 ∷ regular 8 0 ∷ [];
        outputs = exit 542 9 2 77 ∷ coin 543 20 ∷ [];
      })
      1
unfolding runs
create_withdrawal-Pays_example =
    create_withdrawal-Pays backend coin_sort_law wallet after_two 77 9 2 1
      (record {
        inputs = regular 7 0 ∷ regular 8 0 ∷ [];
        outputs = exit 542 9 2 77 ∷ coin 543 20 ∷ [];
      })
      unique (omega arith) (omega arith) refl

authorize-OwnedBy_example :
    (payment ≡ payment)
    × ((os : List (Output chain)) × Spends wallet.utxos payment.inputs os
        × OwnedBy
            (verify_trait dalek codec 4)
            (record { public_key = 41; signature = 50 }
              ∷ record { public_key = 41; signature = 50 }
              ∷ [])
            os)
    × (verify_authorized_transaction dalek codec (record {
      transaction = payment;
      authorizations =
          record { public_key = 41; signature = 50 }
          ∷ record { public_key = 41; signature = 50 }
          ∷ [];
    })
        ≡ ok tt)
unfolding runs
authorize-OwnedBy_example =
    authorize-OwnedBy backend codec valid batch_law sign_law 4 wallet payment
      (record {
        transaction = payment;
        authorizations =
            record { public_key = 41; signature = 50 }
            ∷ record { public_key = 41; signature = 50 }
            ∷ [];
      })
      wallet-HasKeys refl

-- Two transactions, each signed by the owner of its input, in one block.
abbrev first : AuthorizedTransaction chain (Authorization dalek)
first = record {
  transaction = record { inputs = regular 7 0 ∷ []; outputs = coin 9 4 ∷ [] };
  authorizations = record { public_key = 1; signature = 10 } ∷ [];
}

abbrev second : AuthorizedTransaction chain (Authorization dalek)
second = record {
  transaction = record { inputs = regular 8 0 ∷ []; outputs = coin 5 6 ∷ [] };
  authorizations = record { public_key = 2; signature = 7 } ∷ [];
}

verify_authorizations-new_example :
    verify_authorizations dalek codec 3 (new (first ∷ second ∷ []) (coin 3 1 ∷ [])) ≡ ok tt
unfolding runs
verify_authorizations-new_example =
    verify_authorizations-new dalek codec valid batch_law 3 (first ∷ second ∷ []) (coin 3 1 ∷ [])
      (omega arith) ((refl, refl), ((refl, refl), tt))
