-- ===== src/Tests/DepositTests.antt =====
-- The theorems on deposits at concrete answers of the mainchain, up to the node's coins.
use ddk.Prelude.{
  ℕ, ◌+◌, ◌≤◌, ◌≡◌, refl, ok, none, some, List, [], ◌∷◌, arith, ℕ_discrete, sum64_from, Result,
}
use ddk.Table.{iter, get, put, delete, last, put_all, delete_all}
use ddk.Table.Total.{total}
use ddk.Types.{
  regular, coinbase, deposit, header_hash, compute_merkle_root, txid, get_value, out_point_key,
  number_key, OutPoint-discrete, MainOutPoint-discrete,
}
use ddk.Types.Blocks.{transaction_entries, coinbase_entries}
use ddk.State.{contains, fill_transaction, validate_body, connect_body}
use ddk.State.Peg.{connect_two_way_peg_data}
use ddk.State.Backing.{backing}
use ddk.Archive.{get_height, append_header, put_body}
use ddk.Mempool.{insert, remove}
use ddk.Drivechain
use ddk.Drivechain.{Deposits, walk_deposits}
use ddk.Drivechain.Credit.{rises}
use ddk.Drivechain.Client
use ddk.Drivechain.Calls.{walk, get_two_way_peg_data}
use ddk.Drivechain.Decode.{decode_deposits}
use ddk.Node.{Node, submit_block}
use ddk.Node.Connected.{connected, submit_block-backing}
use ddk.Tests.Data.{coin, sort_law, toy_hash}
use ddk.Tests.MainData.{crates, deposits, drivechain}
use ddk.Tests.NodeData.{world, empty_pool, start, body, header}

runs : Unit {0}
unfolding iter get put delete last put_all delete_all OutPoint-discrete MainOutPoint-discrete
    ℕ_discrete contains header_hash compute_merkle_root txid validate_body connect_body
    connect_two_way_peg_data insert remove submit_block sum64_from fill_transaction get_value
    get_height append_header put_body transaction_entries coinbase_entries total
    get_two_way_peg_data walk
runs = tt

abbrev node : Node (connected world crates drivechain)
node = record {
  state = record {
    utxos = (regular 7 0, coin 5 10) ∷ [];
    pending_withdrawal_bundle = none;
    last_withdrawal_bundle_failure_height = none;
    last_deposit_block = none;
  };
  custom_state = 0;
  archive = start;
  mempool = empty_pool;
  peers = [];
}

abbrev after_block : Node (connected world crates drivechain)
after_block = record {
  state = record {
    utxos =
        (coinbase 10301 0, coin 3 1)
        ∷ (regular 10509 0, coin 9 4)
        ∷ (regular 10509 1, coin 5 5)
        ∷ (deposit (record { txid = toy_hash (30 ∷ []); vout = 0 }), coin 7 30)
        ∷ [];
    pending_withdrawal_bundle = none;
    last_withdrawal_bundle_failure_height = none;
    last_deposit_block = some 3;
  };
  custom_state = 1;
  archive = record {
    headers = (1, header) ∷ [];
    bodies = (1, body) ∷ [];
    hash_to_height = (20301, 1) ∷ [];
  };
  mempool = empty_pool;
  peers = [];
}

submit_block-backing_example :
    (listed : List Client.Deposit) × (decoded : List ddk.Drivechain.Deposit) × (◌≡◌
      {A = Result ℕ (List Client.Deposit)}
      (ok deposits)
      (ok listed))
    × (decode_deposits crates listed ≡ ok decoded)
    × (backing after_block.state ≤ backing node.state + rises none 0 decoded)
unfolding runs
submit_block-backing_example =
    submit_block-backing world crates drivechain node after_block header body sort_law (tt, tt)
      (omega arith) (omega arith) (omega arith, tt) refl
