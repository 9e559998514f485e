-- ===== src/Databases.antt =====
-- The opening of the databases: `new` of src/state.rs, src/archive.rs, src/mempool.rs,
-- src/wallet.rs and src/node.rs. An environment of heed (LMDB) has room for so many databases as
-- were announced when it was opened, and knows them by their names; it is a parameter.
pub mod Room
use ddk.Prelude.{ℕ, ◌+◌, List, [], ◌∷◌, Result, ok, err, ◌>>=◌, ◌>>◌}
use Prim.Native.String.{String}

pub record Lmdb : Type 1 where
  pub Error : Type 0
  pub Env : Type 0
  -- `EnvOpenOptions::max_dbs(n).open(path)`, where the directory is there or can be made
  pub open_env : ℕ → Result Error Env
  -- `Env::create_database`: the environment with the database open
  pub create_database : Env → String → Result Error Env

-- the constants `NUM_DBS`
abbrev pub state_num_dbs : ℕ
state_num_dbs = 5

abbrev pub archive_num_dbs : ℕ
archive_num_dbs = 3

abbrev pub mempool_num_dbs : ℕ
mempool_num_dbs = 1

abbrev pub wallet_num_dbs : ℕ
wallet_num_dbs = 5

module _ (x : Lmdb) where
  -- `State::new`
  unfoldable pub new_state : x.Env → Result x.Error x.Env
  new_state env = do
    env1 ← x.create_database env "utxos"
    env2 ← x.create_database env1 "pending_withdrawal_bundle"
    env3 ← x.create_database env2 "last_withdrawal_bundle_failure_height"
    env4 ← x.create_database env3 "last_deposit_block"
    ok env4

  -- `Archive::new`
  unfoldable pub new_archive : x.Env → Result x.Error x.Env
  new_archive env = do
    env1 ← x.create_database env "headers"
    env2 ← x.create_database env1 "bodies"
    env3 ← x.create_database env2 "hash_to_height"
    ok env3

  -- `MemPool::new`
  unfoldable pub new_mempool : x.Env → Result x.Error x.Env
  new_mempool env = do
    env1 ← x.create_database env "transactions"
    env2 ← x.create_database env1 "spent_utxos"
    ok env2

  -- `Wallet::new`
  unfoldable pub new_wallet : Result x.Error x.Env
  new_wallet = do
    env ← x.open_env wallet_num_dbs
    env1 ← x.create_database env "seed"
    env2 ← x.create_database env1 "address_to_index"
    env3 ← x.create_database env2 "index_to_address"
    env4 ← x.create_database env3 "utxos"
    ok env4

  -- `Node::new`, with `NUM_DBS` and `new` of the sidechain's own state, and whether the drivechain
  -- connection and the endpoints are made
  unfoldable pub new_node :
      ℕ
      → (x.Env → Result x.Error x.Env)
      → Result x.Error (Unit {0})
      → Result x.Error (Unit {0})
      → Result x.Error x.Env
  unfolding new_state new_archive new_mempool
  new_node custom_num_dbs new_custom drivechain net = do
    env ← x.open_env (state_num_dbs + custom_num_dbs + archive_num_dbs + mempool_num_dbs)
    with_state ← new_state env
    with_archive ← new_archive with_state
    with_mempool ← new_mempool with_archive
    drivechain
    net
    new_custom with_mempool
