-- ===== src/Node.antt =====
-- The node of src/node.rs: what it does to its state, its archive and its pool when a transaction
-- or a block is submitted, and what it answers to a peer. An operation either succeeds with the
-- new node or fails and leaves the node as it was, since its database transaction is dropped. The
-- sidechain's own state (the trait `State`) is `CustomState`. The spawned tasks, the connections
-- and what they or heed may fail with are not modelled: a message to a peer is part of the result.
pub mod Readers
pub mod Requests
pub mod Blocks
pub mod Pool
pub mod Submit
pub mod Template
pub mod Answers
pub mod Runs
pub mod Sound
pub mod Backed
pub mod Accepted
pub mod Sync
pub mod Follow
pub mod Replay
pub mod Known
pub mod Relay
pub mod Wire
pub mod Host
pub mod Proposal
pub mod Connected
use ddk.Prelude.{
  ℕ, Bool, true, false, Option, none, some, List, [], ◌∷◌, map, is_some, ◌==◌, not, ◌||◌, ◌++◌,
  if◌then◌else◌, add64, sub64, sum64_from, Result, ok, err, ◌>>=◌, ◌>>◌, map_err, fail_if,
}
use ddk.Table.{get}
use ddk.Types.{
  Chain, Codec, Verify, OutPoint, Transaction, FilledTransaction, AuthorizedTransaction, Body,
  Header, Hash, txid, get_value, out_point_key,
}
use ddk.Types.Withdrawals.{TwoWayPegData, WithdrawalBundle, MainTransaction}
use ddk.State
use ddk.State.{
  State, contains, fill_transaction, validate_filled_transaction, check_addresses, validate_body,
  connect_body, authorization_error,
}
use ddk.State.Bundle.{Bitcoin}
use ddk.State.Peg.{connect_two_way_peg_data}
use ddk.Archive
use ddk.Archive.{Archive, get_header, get_body, get_height, append_header, put_body}
use ddk.Mempool
use ddk.Mempool.{Mempool, insert, remove, take_some, take_all}

-- The trait `State` that a sidechain implements on its own databases.
pub record CustomState (c : Chain) (A : Type 0) : Type 1 where
  pub Store : Type 0
  pub Error : Type 0
  pub validate_filled_transaction :
      Store → ℕ → State c → FilledTransaction c → Result Error (Unit {0})
  pub validate_body : Store → ℕ → State c → Body c A → Result Error (Unit {0})
  pub connect_body : Store → ℕ → State c → Body c A → Result Error Store

-- Everything outside the node: the parameters of its parts, and the mainchain's answers.
pub record World (c : Chain) (A : Type 0) : Type 1 where
  pub verify : Verify c A
  pub codec : Codec c
  pub bitcoin : Bitcoin c
  pub custom : CustomState c A
  pub DrivechainError : Type 0
  -- `Drivechain::get_two_way_peg_data(end, start)`
  pub get_two_way_peg_data : Hash → Option Hash → Result DrivechainError (TwoWayPegData c)

module _ {c : Chain} {A : Type 0} (w : World c A) where
  pub data Error : Type 0 where
    archive : ddk.Archive.Error → Error
    drivechain : w.DrivechainError → Error
    mempool : ddk.Mempool.Error → Error
    state : ddk.State.Error → Error
    custom : w.custom.Error → Error

  pub record Node : Type 0 where
    pub state : State c
    pub custom_state : w.custom.Store
    pub archive : Archive c A
    pub mempool : Mempool c A
    -- the connections in `net.peers`, by their ids
    pub peers : List ℕ

  unfoldable pub validate_transaction : Node → AuthorizedTransaction c A → Result Error ℕ
  validate_transaction n t = do
    filled ← map_err Error.state (fill_transaction n.state t.transaction)
    map_err Error.state (check_addresses w.verify t.authorizations filled.spent_utxos)
    fail_if (not (w.verify.verify_transaction t)) (Error.state authorization_error)
    let height = get_height n.archive
    map_err Error.custom (w.custom.validate_filled_transaction n.custom_state height n.state filled)
    map_err Error.state (validate_filled_transaction filled)

  -- `submit_transaction`: the node with the transaction in its pool, and the peers that it is
  -- pushed to
  unfoldable pub submit_transaction :
      Node → AuthorizedTransaction c A → Result Error (Node × List ℕ)
  unfolding validate_transaction
  submit_transaction n t = do
    fee ← validate_transaction n t
    pool ← map_err Error.mempool (insert w.codec n.mempool t)
    ok (record n { mempool = pool }, n.peers)

  unfoldable pub get_spent_utxos : Node → List OutPoint → List OutPoint
  get_spent_utxos n [] = []
  get_spent_utxos n (p ∷ ps) =
      let rest = get_spent_utxos n ps in if is_some (get p n.state.utxos) then rest else p ∷ rest

  unfoldable pub get_all_transactions : Node → List (AuthorizedTransaction c A)
  get_all_transactions n = take_all n.mempool

  -- the deletions of a block's transactions from the pool
  unfoldable pub remove_transactions : Mempool c A → List (Transaction c) → Mempool c A
  remove_transactions m [] = m
  remove_transactions m (t ∷ ts) = remove_transactions (remove m (txid w.codec t)) ts

  -- what `submit_block` does in its database transaction, with the mainchain's data
  unfoldable pub apply_block : Node → TwoWayPegData c → Header → Body c A → Result Error Node
  unfolding remove_transactions
  apply_block n data' header body = do
    fees ← map_err Error.state (validate_body w.verify n.state body)
    let height = get_height n.archive
    map_err Error.custom (w.custom.validate_body n.custom_state height n.state body)
    let s = connect_body w.codec n.state body
    custom_state ← map_err Error.custom (w.custom.connect_body n.custom_state height s body)
    s' ← map_err Error.state (connect_two_way_peg_data w.bitcoin w.codec s data' height)
    a ← map_err Error.archive (append_header w.codec n.archive header)
    a' ← map_err Error.archive (put_body w.codec a header body)
    ok (record n {
      state = s';
      custom_state = custom_state;
      archive = a';
      mempool = remove_transactions n.mempool body.transactions;
    })

  -- `submit_block`: the new node, and the bundle transaction that is broadcast to the mainchain
  unfoldable pub submit_block :
      Node → Header → Body c A → Result Error (Node × Option (MainTransaction c))
  unfolding apply_block
  submit_block n header body = do
    data' ←
        map_err Error.drivechain
          (w.get_two_way_peg_data header.prev_main_hash n.state.last_deposit_block)
    n' ← apply_block n data' header body
    ok (
      n',
      elim n'.state.pending_withdrawal_bundle [
        | none ↦ none
        | some bundle ↦ some bundle.transaction
      ],
    )

  -- The variables of the loop of `get_transactions`.
  pub record Picked : Type 0 where
    pub pool : Mempool c A
    pub fee : ℕ
    pub returned : List (AuthorizedTransaction c A)
    pub spent : List OutPoint

  -- `!spent_utxos.is_disjoint(&inputs)`
  unfoldable pub overlaps : List OutPoint → List OutPoint → Bool
  overlaps spent [] = false
  overlaps spent (i ∷ is) = contains i spent || overlaps spent is

  -- the loop of `get_transactions`
  unfoldable pub pick_transactions :
      Node → List (AuthorizedTransaction c A) → Picked → Result Error Picked
  unfolding overlaps validate_transaction
  pick_transactions n [] p = ok p
  pick_transactions n (t ∷ ts) p =
      let evicted =
        pick_transactions n ts (record p { pool = remove p.pool (txid w.codec t.transaction) }) in
      if overlaps p.spent t.transaction.inputs then evicted else elim (validate_transaction n t) [
        | err _ ↦ evicted
        | ok _ ↦ do
          filled ← map_err Error.state (fill_transaction n.state t.transaction)
          let value_in = sum64_from 0 (map get_value filled.spent_utxos)
          let value_out = sum64_from 0 (map get_value filled.transaction.outputs)
          pick_transactions n ts (record p {
            fee = add64 p.fee (sub64 value_in value_out);
            returned = p.returned ++ t ∷ [];
            spent = p.spent ++ t.transaction.inputs;
          })
      ]

  unfoldable pub get_transactions :
      Node → ℕ → Result Error (Node × (List (AuthorizedTransaction c A) × ℕ))
  unfolding pick_transactions
  get_transactions n number = do
    p ←
        pick_transactions n (take_some n.mempool number)
          (record { pool = n.mempool; fee = 0; returned = []; spent = [] })
    ok (record n { mempool = p.pool }, (p.returned, p.fee))
