-- ===== src/Tests/NodeTests.antt =====
-- The theorems on the node at a concrete node and block.
use ddk.Prelude.{
  Result, ℕ, ◌+◌, ◌≡◌, refl, ok, none, some, List, [], ◌∷◌, arith, true, ℕ_discrete, sum64_from,
}
use ddk.Table.{iter, get, put, delete, last, put_all, delete_all}
use ddk.Types.{
  regular, Output, AuthorizedTransaction, header_hash, compute_merkle_root, txid, out_point_key,
  number_key, get_value, OutPoint-discrete, MainOutPoint-discrete,
}
use ddk.Types.Withdrawals.{TwoWayPegData}
use ddk.Types.Blocks.{transaction_entries, coinbase_entries}
use ddk.State.{contains, fill_transaction, validate_body, connect_body}
use ddk.State.Fill.{Spends}
use ddk.State.Owners.{OwnedBy}
use ddk.State.Peg.{connect_two_way_peg_data}
use ddk.Archive.{get_height, get_best_hash, get_body, append_header, put_body}
use ddk.Archive.Linked.{IsChain, empty-IsChain}
use ddk.Mempool.{take_some, insert, remove}
use ddk.Mempool.Consistent.{IsConsistent, insert-IsConsistent}
use ddk.Node.{Node, submit_block, submit_transaction, get_transactions}
use ddk.Node.Blocks.{submit_block-IsChain}
use ddk.Node.Submit.{submit_transaction-OwnedBy}
use ddk.Node.Template.{Collected, get_transactions-Collected}
use ddk.Node.Requests.{peer_listen}
use ddk.Tests.Data.{chain, codec, bitcoin, trusting}
use ddk.Tests.NodeData.{
  quiet, world, empty_pool, start, node, payment, with_payment, body, header, after_block,
}

runs : Unit {0}
unfolding take_some iter get put delete last put_all delete_all OutPoint-discrete
    MainOutPoint-discrete ℕ_discrete contains header_hash compute_merkle_root txid validate_body
    connect_body connect_two_way_peg_data insert remove submit_block submit_transaction
    get_transactions peer_listen get_body sum64_from fill_transaction get_value get_height
    append_header put_body transaction_entries coinbase_entries
runs = tt

pub submitted : submit_block world with_payment header body ≡ ok (after_block, none)
unfolding runs
submitted = refl

pub empty_pool-IsConsistent : IsConsistent empty_pool
unfolding get
empty_pool-IsConsistent = record {
  marked = λ k t g. absurd (ground arith);
  distinct = λ k t g. absurd (ground arith);
  disjoint = λ j k s t ne g h. absurd (ground arith);
}

pub start-IsChain : IsChain codec 0 start
start-IsChain = empty-IsChain codec start refl

pub with_payment-IsConsistent : IsConsistent with_payment.mempool
unfolding runs
with_payment-IsConsistent =
    insert-IsConsistent codec empty_pool with_payment.mempool payment empty_pool-IsConsistent refl

submit_block-IsChain_example :
    ((fees : ℕ) × (validate_body trusting with_payment.state body ≡ ok fees))
    × ((data' : TwoWayPegData chain) × (◌≡◌ {A = Result ℕ (TwoWayPegData chain)}
          (ok quiet)
          (ok data'))
        × (connect_two_way_peg_data bitcoin codec
              (connect_body codec with_payment.state body)
              data'
              0
            ≡ ok after_block.state))
    × IsChain codec (0 + 1) after_block.archive
    × (get_height after_block.archive ≡ 0 + 1)
    × (get_best_hash codec after_block.archive ≡ header_hash codec header)
    × (get_body after_block.archive (0 + 1) ≡ some body)
submit_block-IsChain_example =
    submit_block-IsChain world 0 with_payment after_block header body start-IsChain (omega arith)
      submitted

submit_transaction-OwnedBy_example :
    ((os : List (Output chain)) × Spends node.state.utxos (regular 7 0 ∷ []) os
      × OwnedBy trusting payment.authorizations os)
    × (trusting.verify_transaction payment ≡ true)
    × (get (txid codec payment.transaction) with_payment.mempool.transactions ≡ some payment)
    × IsConsistent with_payment.mempool
unfolding runs
submit_transaction-OwnedBy_example =
    submit_transaction-OwnedBy world node with_payment payment {pushed = 1 ∷ 2 ∷ []} refl
      empty_pool-IsConsistent refl

get_transactions-Collected_example :
    (n' : Node world) × (ts : List (AuthorizedTransaction chain ℕ)) × (fee : ℕ) × (get_transactions
        world with_payment 3
      ≡ ok (n', (ts, fee)))
    × Collected world with_payment [] 0 ts fee
get_transactions-Collected_example = get_transactions-Collected world with_payment 3
