-- ===== src/Node/Pool.antt =====
-- What a submitted block does to the node's pool.
use ddk.Prelude.{◌≡◌, arith, Option, none, List, [], ◌∷◌, All, ok}
use ddk.Table.{get}
use ddk.Table.Laws.{get-delete}
use ddk.Types.{Chain, Transaction, Body, Header, Hash, txid, number_key}
use ddk.Types.Withdrawals.{MainTransaction}
use ddk.Mempool.{Mempool, remove}
use ddk.Mempool.Consistent.{IsConsistent, remove-IsConsistent}
use ddk.Node.Blocks.{submit_block-Applied}
use ddk.Node.{World, Node, submit_block, remove_transactions}

module _ {c : Chain} {A : Type 0} (w : World c A) where
  remove_transactions-keeps :
      (m : Mempool c A) (ts : List (Transaction c)) (k : Hash)
      → get k m.transactions ≡ none
      → get k (remove_transactions w m ts).transactions ≡ none
  unfolding remove_transactions remove
  remove_transactions-keeps m [] k h = h
  remove_transactions-keeps m (t ∷ ts) k h =
      remove_transactions-keeps (remove m (txid w.codec t)) ts k
        (ground (arith, h, get-delete k (txid w.codec t) m.transactions))

  remove_transactions-gone :
      (m : Mempool c A) (ts : List (Transaction c))
      → All (λ t. get (txid w.codec t) (remove_transactions w m ts).transactions ≡ none) ts
  unfolding remove_transactions remove
  remove_transactions-gone m [] = tt
  remove_transactions-gone m (t ∷ ts) =
      let id = txid w.codec t in
      (
        remove_transactions-keeps (remove m id) ts id
            (ground (arith, get-delete id id m.transactions)),
        remove_transactions-gone (remove m id) ts,
      )

  pub remove_transactions-IsConsistent :
      (m : Mempool c A) (ts : List (Transaction c))
      → IsConsistent m
      → IsConsistent (remove_transactions w m ts)
  unfolding remove_transactions
  remove_transactions-IsConsistent m [] h = h
  remove_transactions-IsConsistent m (t ∷ ts) h =
      remove_transactions-IsConsistent (remove m (txid w.codec t)) ts
        (remove-IsConsistent w.codec m (txid w.codec t) h)

  -- A submitted block that is accepted leaves none of its transactions in the pool, and keeps the
  -- pool consistent: the inputs of each of its transactions are distinct and marked, and no two of
  -- its transactions spend the same output.
  pub submit_block-IsConsistent :
      (n n' : Node w) (header : Header) (body : Body c A) {out : Option (MainTransaction c)}
      → IsConsistent n.mempool
      → submit_block w n header body ≡ ok (n', out)
      → All (λ t. get (txid w.codec t) n'.mempool.transactions ≡ none) body.transactions
        × IsConsistent n'.mempool
  submit_block-IsConsistent n n' header body old h =
      let (data', told, a) = submit_block-Applied w n n' header body h in
      rw a.pool (
        remove_transactions-gone n.mempool body.transactions,
        remove_transactions-IsConsistent n.mempool body.transactions old,
      )
