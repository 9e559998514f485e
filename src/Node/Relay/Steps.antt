-- ===== src/Node/Relay/Steps.antt =====
-- What a request, and the loop over the peers, went through, whatever they come to.
use ddk.Prelude.{
  ℕ, suc, ◌≡◌, ◌≢◌, ◌∙◌, Option, none, some, List, ◌∷◌, ok, false, is_some, arith, inl, inr,
  Option-cases, Bool-cases,
}
use ddk.Table.{Table, get, put}
use ddk.Types.{Chain, AuthorizedTransaction, number_key}
use ddk.Mempool.{Mempool, insert}
use ddk.Node.{World}
use ddk.Node.Requests.{push_transaction, peer_listen, other_peers}
use ddk.Node.Relay.{
  Answer, accepted, silent, Pushed, delivered, failed, push_outcome, Pushed-cases, Member, Network,
  answer, busy, push_all, finish, deliver,
}
use ddk.Node.Relay.Keeps.{refuses, conflicts, takes, peer_listen-Listened}

module _ {c : Chain} {A : Type 0} (w : World c A) where
  -- The loop over the peers at its first peer.
  pub data Looped (send : Network w → ℕ → ℕ → Option (Answer × Network w)) (ends : Table ℕ (ℕ × ℕ))
      (q : ℕ) (ps : List ℕ) (net : Network w) (o : Pushed) (left : Network w) : Type 0 where
    nowhere : o ≡ failed → left ≡ net → Looped send ends q ps net o left
    stops :
        (k id : ℕ) (a : Answer)
        → get q ends ≡ some (k, id)
        → send net k id ≡ some (a, left)
        → o ≡ push_outcome a
        → Looped send ends q ps net o left
    goes_on :
        (k id : ℕ) (a : Answer) (net' : Network w)
        → get q ends ≡ some (k, id)
        → send net k id ≡ some (a, net')
        → push_outcome a ≡ delivered
        → push_all w send ends ps net' ≡ some (o, left)
        → Looped send ends q ps net o left

  pub push_all-Looped :
      (send : Network w → ℕ → ℕ → Option (Answer × Network w)) (ends : Table ℕ (ℕ × ℕ)) (q : ℕ)
      (ps : List ℕ) (net : Network w) (o : Pushed) (left : Network w)
      → push_all w send ends (q ∷ ps) net ≡ some (o, left)
      → Looped send ends q ps net o left
  unfolding push_all
  push_all-Looped send ends q ps net o left h = elim (Option-cases (get q ends)) [
    | inl gone ↦ nowhere (ground (arith, gone)) (ground (arith, gone))
    | inr ((k, id), e) ↦ elim (Option-cases (send net k id)) [
      | inl out ↦ absurd (ground (arith, e, out))
      | inr ((a, net'), sent) ↦ elim (Pushed-cases (push_outcome a)) [
        | inl d ↦ goes_on k id a net' e sent d (ground (arith, e, sent, d, h))
        | inr (inl d) ↦
            let at : ◌≡◌ {A = Option (Answer × Network w)} (some (a, net')) (some (a, left)) =
              ground (arith, e, sent, d, h) in
            stops k id a e (sent ∙ at) (ground (arith, e, sent, d))
        | inr (inr d) ↦
            let at : ◌≡◌ {A = Option (Answer × Network w)} (some (a, net')) (some (a, left)) =
              ground (arith, e, sent, d, h) in
            stops k id a e (sent ∙ at) (ground (arith, e, sent, d))
      ]
    ]
  ]

  -- A request, by what the node does with it.
  pub data Delivery (t : AuthorizedTransaction c A) (fuel : ℕ) (net : Network w) (k id : ℕ)
      (a : Answer) (left : Network w) : Type 0 where
    no_node : get k net ≡ none → left ≡ net → Delivery t fuel net k id a left
    no_task :
        (m : Member w)
        → get k net ≡ some m
        → is_some (get id m.listening) ≡ false
        → left ≡ net
        → Delivery t fuel net k id a left
    ends_task :
        (m : Member w)
        → get k net ≡ some m
        → a ≢ silent
        → left ≡ put k (busy w m id (peer_listen w m.node id (push_transaction t)).node) net
        → Delivery t fuel net k id a left
    pushes :
        (m : Member w) (pool : Mempool c A) (o : Pushed) (after : Network w)
        → get k net ≡ some m
        → insert w.codec m.node.mempool t ≡ ok pool
        → (peer_listen w m.node id (push_transaction t)).node ≡ record m.node { mempool = pool }
        → push_all w
            (deliver w t fuel)
            m.ends
            (other_peers w id m.node.peers)
            (put k (busy w m id (peer_listen w m.node id (push_transaction t)).node) net)
          ≡ some (o, after)
        → finish w k id accepted (o, after) ≡ (a, left)
        → Delivery t fuel net k id a left

  pub deliver-Delivery :
      (t : AuthorizedTransaction c A) (fuel : ℕ) (net : Network w) (k id : ℕ) (a : Answer)
      (left : Network w)
      → deliver w t (suc fuel) net k id ≡ some (a, left)
      → Delivery t fuel net k id a left
  unfolding deliver answer
  deliver-Delivery t fuel net k id a left h = elim (Option-cases (get k net)) [
    | inl gone ↦ no_node gone (ground (arith, gone))
    | inr (m, e) ↦ elim (Bool-cases (is_some (get id m.listening))) [
      | inr deaf ↦ no_task m e deaf (ground (arith, e, deaf))
      | inl free ↦ elim (peer_listen-Listened w t m.node id) [
        | refuses x bad o response same ↦
            ends_task m e (ground (arith, e, free, o, response)) (ground (arith, e, free, o))
        | conflicts x o response same ↦
            ends_task m e (ground (arith, e, free, o, response)) (ground (arith, e, free, o))
        | takes pool taken o response whom now ↦
            let reply = peer_listen w m.node id (push_transaction t) in
            let net' = put k (busy w m id reply.node) net in
            elim (Option-cases (push_all w (deliver w t fuel) m.ends reply.pushed net')) [
              | inl out ↦ absurd (ground (arith, e, free, o, out))
              | inr ((sent, after), pushed) ↦
                  pushes m pool sent after e taken now (rw whom at pushed)
                    (ground (arith, e, free, o, pushed, response))
            ]
      ]
    ]
  ]
