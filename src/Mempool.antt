-- ===== src/Mempool.antt =====
-- The pool of transactions of src/mempool.rs. A failed `put` comes back as an error alone: its
-- caller drops the database transaction, so nothing of it is kept. What heed itself may fail with
-- (`Error::Heed`) is not modelled.
pub mod Marks
pub mod Consistent
use ddk.Prelude.{ℕ, List, [], ◌∷◌, map, take, is_some, Result, ok, err, ◌>>=◌, if◌then◌else◌}
use ddk.Table.{Table, get, put, delete, iter}
use ddk.Types.{Chain, Codec, OutPoint, AuthorizedTransaction, Hash, txid, out_point_key, number_key}

pub data Error : Type 0 where
  utxo_double_spent : Error

pub record Mempool (c : Chain) (A : Type 0) : Type 0 where
  pub transactions : Table Hash (AuthorizedTransaction c A)
  pub spent_utxos : Table OutPoint (Unit {0})

-- the loop of `MemPool::put`
unfoldable pub mark_inputs :
    Table OutPoint (Unit {0}) → List OutPoint → Result Error (Table OutPoint (Unit {0}))
mark_inputs spent [] = ok spent
mark_inputs spent (i ∷ is) =
    if is_some (get i spent) then err utxo_double_spent else mark_inputs (put i tt spent) is

module _ {c : Chain} {A : Type 0} where
  -- `MemPool::put`
  unfoldable pub insert :
      Codec c → Mempool c A → AuthorizedTransaction c A → Result Error (Mempool c A)
  unfolding mark_inputs
  insert codec m t = do
    spent ← mark_inputs m.spent_utxos t.transaction.inputs
    ok (record m {
      spent_utxos = spent;
      transactions = put (txid codec t.transaction) t m.transactions;
    })

  -- `MemPool::delete`
  unfoldable pub remove : Mempool c A → Hash → Mempool c A
  remove m id = record m { transactions = delete id m.transactions }

  -- `MemPool::take`
  unfoldable pub take_some : Mempool c A → ℕ → List (AuthorizedTransaction c A)
  take_some m number = map (λ e. e.1) (take number (iter m.transactions))

  -- `MemPool::take_all`
  unfoldable pub take_all : Mempool c A → List (AuthorizedTransaction c A)
  take_all m = map (λ e. e.1) (iter m.transactions)
