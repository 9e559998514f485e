-- ===== src/Tests/LifeTests.antt =====
-- The theorems on the life of a node at a run that pushes a transaction and accepts its block.
use ddk.Prelude.{◌+◌, ◌≡◌, refl, ok, List, [], ◌∷◌, arith, ℕ_discrete, sum64_from}
use Prim.Native.Nat.{min}
use ddk.Table.{iter, get, put, delete, last, put_all, delete_all}
use ddk.Table.Total.{total}
use ddk.Table.Unique.{UniqueKeys}
use ddk.Types.{
  header_hash, compute_merkle_root, txid, get_value, out_point_key, number_key, OutPoint-discrete,
  MainOutPoint-discrete,
}
use ddk.Types.Blocks.{new, transaction_entries, coinbase_entries}
use ddk.State.{contains, fill_transaction, validate_body, connect_body}
use ddk.State.Peg.{connect_two_way_peg_data}
use ddk.Archive.{get_height, get_header, get_body, append_header, put_body}
use ddk.Archive.Linked.{IsChain}
use ddk.Mempool.{take_some, insert, remove}
use ddk.Node.{apply_block, submit_block, submit_transaction, get_transactions}
use ddk.Node.Requests.{push_transaction, peer_listen}
use ddk.Node.Blocks.{submit_block-IsChain}
use ddk.Node.Runs.{Event, new_block, template, request, run, accepted, deposited}
use ddk.Node.Sound.{Sound, run-Sound}
use ddk.Node.Sync.{sync_rounds}
use ddk.Node.Follow.{Agrees, IsFull, sync_rounds-Agrees}
use ddk.Node.Proposal.{get_transactions-new}
use ddk.Tests.Data.{codec, trusting, coin, sort_law}
use ddk.Tests.NodeData.{quiet, world, node, payment, with_payment, body, header, after_block}
use ddk.Tests.NodeTests.{empty_pool-IsConsistent, start-IsChain, submitted}

runs : Unit {0}
unfolding take_some iter get put delete last put_all delete_all OutPoint-discrete
    MainOutPoint-discrete ℕ_discrete contains header_hash compute_merkle_root txid validate_body
    connect_body connect_two_way_peg_data insert remove apply_block submit_block submit_transaction
    get_transactions peer_listen get_header get_body sum64_from fill_transaction get_value
    get_height append_header put_body transaction_entries coinbase_entries total run accepted
    deposited sync_rounds new
runs = tt

-- A peer pushes a transaction, a template is taken, and a block comes with the transaction.
abbrev events : List (Event world)
events = request 2 (push_transaction payment) ∷ template 3 ∷ new_block quiet header body ∷ []

unique : UniqueKeys node.state.utxos
unique = (((λ e. ground arith), tt), (tt, tt))

node-Sound : Sound world 0 node
node-Sound = record { chain = start-IsChain; pool = empty_pool-IsConsistent; unique = unique }

run-Sound_example : Sound world (0 + accepted world node events) (run world node events)
unfolding runs
run-Sound_example = run-Sound world sort_law 0 node events (omega arith) node-Sound

get_transactions-new_example :
    validate_body trusting with_payment.state (new (payment ∷ []) (coin 3 1 ∷ [])) ≡ ok 1
unfolding runs
get_transactions-new_example =
    get_transactions-new world with_payment with_payment 3 (payment ∷ []) 1 (coin 3 1 ∷ [])
      (((tt, tt), refl), tt) refl (omega arith) refl

after_block-IsFull : IsFull world 1 after_block.archive
unfolding runs
after_block-IsFull = record {
  chain =
      (submit_block-IsChain world 0 with_payment after_block header body start-IsChain (omega arith)
        submitted).2;
  bodies = λ h low high. let one : h ≡ 1 = omega arith in (body, rw one refl);
}

-- A peer that has the block, and a node without it.
sync_rounds-Agrees_example :
    IsChain codec (min (0 + 2) 1) after_block.archive
    × Agrees world (min (0 + 2) 1) after_block.archive after_block.archive
unfolding runs
sync_rounds-Agrees_example =
    sync_rounds-Agrees world 2 1 0 after_block with_payment after_block after_block-IsFull
      (omega arith) (omega arith) start-IsChain (λ h low high. absurd (omega arith)) refl
