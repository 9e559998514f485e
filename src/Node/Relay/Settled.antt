-- ===== src/Node/Relay/Settled.antt =====
-- Where a transaction is when its submission, with all requests that this leads to, is through.
use ddk.Prelude.{ℕ, ◌≡◌, sym, some, ok, err, true, is_some, arith, ◌⊎◌, inl, inr}
use mathlib.Core.Path.{subst}
use ddk.Table.{get, put}
use ddk.Table.Laws.{get-put_self}
use ddk.Types.{Chain, OutPoint, AuthorizedTransaction, txid, number_key, out_point_key}
use ddk.State.{contains}
use ddk.Mempool.{Mempool, insert}
use ddk.Node.{World, Error, Node, validate_transaction}
use ddk.Node.Requests.{push_transaction, peer_listen}
use ddk.Node.Relay.{delivered, Member, Network, busy, submit}
use ddk.Node.Relay.Reaches.{Reach, submit-After}
use ddk.Node.Relay.Keeps.{refuses, conflicts, takes, peer_listen-Listened, Took, Kept}

module _ {c : Chain} {A : Type 0} (w : World c A) (t : AuthorizedTransaction c A) where
  -- The node has the transaction in its pool, or finds it invalid.
  abbrev pub Settled : Node w → Type 0
  Settled n =
      (get (txid w.codec t.transaction) n.mempool.transactions ≡ some t)
      ⊎ (e : Error w) × (validate_transaction w n t ≡ err e)

  abbrev pub SettledAt : Network w → ℕ → Type 0
  SettledAt net j = (m : Member w) × (get j net ≡ some m) × Settled m.node

  insert-there :
      (pool pool' : Mempool c A)
      → insert w.codec pool t ≡ ok pool'
      → get (txid w.codec t.transaction) pool'.transactions ≡ some t
  unfolding insert
  insert-there pool pool' h =
      ground (arith, get-put_self (txid w.codec t.transaction) t pool.transactions)

  Settled-Took : (n n' : Node w) → Took w t n n' → Settled n → Settled n'
  Settled-Took n n' (inl same) s = subst Settled (sym same) s
  Settled-Took n n' (inr (pool, taken, now)) s =
      subst Settled (sym now) (inl (insert-there n.mempool pool taken))

  Settled-Kept :
      (net net' : Network w) (j : ℕ) → Kept w t net net' → SettledAt net j → SettledAt net' j
  Settled-Kept net net' j kept (m, e, s) =
      let (m', e', ends, took) = kept j m e in (m', e', Settled-Took m.node m'.node took s)

  Settled-lands :
      (net : Network w) (j id : ℕ) (m : Member w)
      → get j net ≡ some m
      → is_some (peer_listen w m.node id (push_transaction t)).response ≡ true
      → SettledAt (put j (busy w m id (peer_listen w m.node id (push_transaction t)).node) net) j
  Settled-lands net j id m e answers = elim (peer_listen-Listened w t m.node id) [
    | refuses x bad o response same ↦
        (_, get-put_self j _ net, subst Settled (sym same) (inr (x, bad)))
    | conflicts x o response same ↦ absurd (ground (arith, response))
    | takes pool taken o response whom now ↦ (
      _,
      get-put_self j _ net,
      subst Settled (sym now) (inl (insert-there m.node.mempool pool taken)),
    )
  ]

  -- If the submission of a transaction with an input is through, all its requests answered, then
  -- each node that a request to a peer leads to, over connections of nodes that find the
  -- transaction valid, has it in its pool, or finds it invalid.
  pub submit-Settled :
      (i : OutPoint) (j fuel : ℕ) (net left : Network w) (k : ℕ) (m : Member w) (p k' id' : ℕ)
      → contains i t.transaction.inputs ≡ true
      → get k net ≡ some m
      → submit w t fuel net k m ≡ some (ok delivered, left)
      → contains p m.node.peers ≡ true
      → get p m.ends ≡ some (k', id')
      → Reach w t net k' id' j
      → SettledAt left j
  submit-Settled i j fuel net left k m p k' id' spends e h among leads r =
      submit-After w t i spends j (λ _. Unit) (λ net. SettledAt net j) (λ a b kept u. tt)
        (λ a b kept. Settled-Kept a b j kept)
        (λ net id m there u answers. Settled-lands net j id m there answers) fuel net left k m p k'
        id' e h among leads (λ n ps done. tt) r
