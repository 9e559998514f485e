-- ===== src/Tests/NodeData.antt =====
-- A node with a pool, a payment, and a block that includes it.
use ddk.Prelude.{◌+◌, ok, none, some, [], ◌∷◌, ℕ}
use ddk.Types.{regular, coinbase, AuthorizedTransaction, Body, Header}
use ddk.Types.Withdrawals.{TwoWayPegData}
use ddk.Archive.{Archive}
use ddk.Mempool.{Mempool}
use ddk.Node.{World, CustomState, Node}
use ddk.Tests.Data.{chain, codec, bitcoin, trusting, coin}

-- A sidechain without rules of its own.
abbrev pub custom : CustomState chain ℕ
custom = record {
  Store = ℕ;
  Error = ℕ;
  validate_filled_transaction = λ x h s t. ok tt;
  validate_body = λ x h s b. ok tt;
  connect_body = λ x h s b. ok (x + 1);
}

abbrev pub quiet : TwoWayPegData chain
quiet = record { deposits = []; deposit_block_hash = some 5; bundle_statuses = [] }

abbrev pub world : World chain ℕ
world = record {
  verify = trusting;
  codec = codec;
  bitcoin = bitcoin;
  custom = custom;
  DrivechainError = ℕ;
  get_two_way_peg_data = λ end start. ok quiet;
}

abbrev pub empty_pool : Mempool chain ℕ
empty_pool = record { transactions = []; spent_utxos = [] }

abbrev pub start : Archive chain ℕ
start = record { headers = []; bodies = []; hash_to_height = [] }

abbrev pub node : Node world
node = record {
  state = record {
    utxos = (regular 7 0, coin 5 10) ∷ (regular 8 1, coin 6 20) ∷ [];
    pending_withdrawal_bundle = none;
    last_withdrawal_bundle_failure_height = none;
    last_deposit_block = none;
  };
  custom_state = 0;
  archive = start;
  mempool = empty_pool;
  peers = 1 ∷ 2 ∷ [];
}

abbrev pub payment : AuthorizedTransaction chain ℕ
payment = record {
  transaction = record { inputs = regular 7 0 ∷ []; outputs = coin 9 4 ∷ coin 5 5 ∷ [] };
  authorizations = 5 ∷ [];
}

abbrev pub with_payment : Node world
with_payment = record node {
  mempool = record { transactions = (10509, payment) ∷ []; spent_utxos = (regular 7 0, tt) ∷ [] };
}

abbrev pub body : Body chain ℕ
body = record {
  coinbase = coin 3 1 ∷ [];
  transactions = payment.transaction ∷ [];
  authorizations = 5 ∷ [];
}

abbrev pub header : Header
header = record { merkle_root = 10301; prev_side_hash = 0; prev_main_hash = 4 }

abbrev pub after_block : Node world
after_block = record {
  state = record {
    utxos =
        (regular 8 1, coin 6 20)
        ∷ (coinbase 10301 0, coin 3 1)
        ∷ (regular 10509 0, coin 9 4)
        ∷ (regular 10509 1, coin 5 5)
        ∷ [];
    pending_withdrawal_bundle = none;
    last_withdrawal_bundle_failure_height = none;
    last_deposit_block = some 5;
  };
  custom_state = 1;
  archive = record {
    headers = (1, header) ∷ [];
    bodies = (1, body) ∷ [];
    hash_to_height = (20301, 1) ∷ [];
  };
  mempool = record { transactions = []; spent_utxos = (regular 7 0, tt) ∷ [] };
  peers = 1 ∷ 2 ∷ [];
}
