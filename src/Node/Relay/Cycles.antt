-- ===== src/Node/Relay/Cycles.antt =====
-- A transaction that finds a way back to a node that has it.
use ddk.Prelude.{ℕ, ◌≡◌, ◌∙◌, sym, some, List, ok, err, true, is_some, arith, inl, inr, >>=-eq-ok}
use mathlib.Core.Path.{subst}
use ddk.Table.{get}
use ddk.Table.Laws.{get-put_self}
use ddk.Types.{Chain, OutPoint, AuthorizedTransaction, number_key, out_point_key}
use ddk.State.{contains}
use ddk.Mempool.{insert, utxo_double_spent}
use ddk.Mempool.Marks.{insert-again}
use ddk.Node.{World, Node, validate_transaction, submit_transaction}
use ddk.Node.Known.{validate_transaction-pool}
use ddk.Node.Requests.{push_transaction, peer_listen}
use ddk.Node.Relay.{delivered, Member, Network, submit}
use ddk.Node.Relay.Reaches.{Reach, submit-After}
use ddk.Node.Relay.Keeps.{
  refuses, conflicts, takes, peer_listen-Listened, Took, Kept, submit_transaction-pool,
}

module _ {c : Chain} {A : Type 0} (w : World c A) (t : AuthorizedTransaction c A) where
  -- The node finds the transaction valid, and its pool does not take it.
  abbrev Holds : Node w → Type 0
  Holds n =
      ((fee : ℕ) × (validate_transaction w n t ≡ ok fee))
      × (insert w.codec n.mempool t ≡ err utxo_double_spent)

  abbrev HoldsAt : Network w → ℕ → Type 0
  HoldsAt net j = (m : Member w) × (get j net ≡ some m) × Holds m.node

  Holds-Took : (n n' : Node w) → Took w t n n' → Holds n → Holds n'
  Holds-Took n n' (inl same) h = subst Holds (sym same) h
  Holds-Took n n' (inr (pool, taken, now)) h = absurd (ground (arith, h.1, taken))

  HoldsAt-Kept : (j : ℕ) (a b : Network w) → Kept w t a b → HoldsAt a j → HoldsAt b j
  HoldsAt-Kept j a b kept (m, e, h) =
      let (m', e', ends, took) = kept j m e in (m', e', Holds-Took m.node m'.node took h)

  -- Such a node does not respond.
  Holds-lands :
      (net : Network w) (j id : ℕ) (m : Member w)
      → get j net ≡ some m
      → HoldsAt net j
      → ¬ (is_some (peer_listen w m.node id (push_transaction t)).response ≡ true)
  Holds-lands net j id m e (m', e', holds) answers =
      let ((fee, valid), full) = holds in
      let same : m' ≡ m = ground (arith, e, e') in
      let valid' : validate_transaction w m.node t ≡ ok fee =
        subst (λ (m : Member w). validate_transaction w m.node t ≡ ok fee) same valid in
      let full' : insert w.codec m.node.mempool t ≡ err utxo_double_spent =
        subst (λ (m : Member w). insert w.codec m.node.mempool t ≡ err utxo_double_spent) same
          full in
      elim (peer_listen-Listened w t m.node id) [
        | refuses x bad o response same ↦ ground (arith, bad, valid')
        | conflicts x o response same ↦ ground (arith, response, answers)
        | takes pool taken o response whom now ↦ ground (arith, taken, full')
      ]

  Holds-submit_transaction :
      (i : OutPoint) (n n' : Node w) {ps : List ℕ}
      → contains i t.transaction.inputs ≡ true
      → submit_transaction w n t ≡ ok (n', ps)
      → Holds n'
  unfolding submit_transaction
  Holds-submit_transaction i n n' spends h =
      let (fee, valid, rest) = >>=-eq-ok (validate_transaction w n t) _ h in
      let (pool, taken, now, whom) = submit_transaction-pool w t i spends n n' h in
      let held : Holds (record n { mempool = pool }) = (
        (fee, validate_transaction-pool w n pool t ∙ valid),
        insert-again w.codec n.mempool pool t t i taken spends spends,
      ) in
      subst Holds (sym now) held

  -- If a transaction with an input finds a way back to the node that it is submitted to, over
  -- connections of nodes that find it valid, then its submission never comes to all its requests
  -- being answered.
  pub submit-cycle :
      (i : OutPoint) (fuel : ℕ) (net left : Network w) (k : ℕ) (m : Member w) (p k' id' : ℕ)
      → contains i t.transaction.inputs ≡ true
      → get k net ≡ some m
      → contains p m.node.peers ≡ true
      → get p m.ends ≡ some (k', id')
      → Reach w t net k' id' k
      → ¬ (submit w t fuel net k m ≡ some (ok delivered, left))
  submit-cycle i fuel net left k m p k' id' spends e among leads r h =
      submit-After w t i spends k (λ net. HoldsAt net k) (λ _. ⊥) (HoldsAt-Kept k)
        (λ a b kept never. never)
        (λ net id m there holds answers. Holds-lands net k id m there holds answers) fuel net left k
        m p k' id' e h among leads
        (λ n ps done. (
          record m { node = n },
          get-put_self k (record m { node = n }) net,
          Holds-submit_transaction i m.node n spends done,
        ))
        r
