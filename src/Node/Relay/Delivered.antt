-- ===== src/Node/Relay/Delivered.antt =====
-- What a request, and the loop over the peers, went through when the sender goes on.
use ddk.Prelude.{
  ℕ, suc, ◌≡◌, refl, Option, some, List, ◌∷◌, err, true, is_some, arith, ◌⊎◌, inl, inr,
  Option-cases, Bool-cases,
}
use ddk.Table.{Table, get, put}
use ddk.Types.{Chain, AuthorizedTransaction, number_key}
use ddk.Node.{World, Error, validate_transaction}
use ddk.Node.Requests.{push_transaction, peer_listen, other_peers}
use ddk.Node.Relay.{
  Answer, Pushed, delivered, failed, blocked, push_outcome, Pushed-cases, Member, Network, answer,
  resume, busy, push_all, finish, deliver,
}
use ddk.Node.Relay.Keeps.{refuses, conflicts, takes, peer_listen-Listened}

module _ {c : Chain} {A : Type 0} (w : World c A) where
  -- The first request of a loop that is through.
  pub push_all-delivered :
      (send : Network w → ℕ → ℕ → Option (Answer × Network w)) (ends : Table ℕ (ℕ × ℕ)) (q : ℕ)
      (ps : List ℕ) (net left : Network w)
      → push_all w send ends (q ∷ ps) net ≡ some (delivered, left)
      → (k : ℕ) × (id : ℕ) × (a : Answer) × (net' : Network w) × (get q ends ≡ some (k, id))
        × (send net k id ≡ some (a, net'))
        × (push_outcome a ≡ delivered)
        × (push_all w send ends ps net' ≡ some (delivered, left))
  unfolding push_all
  push_all-delivered send ends q ps net left h = elim (Option-cases (get q ends)) [
    | inl gone ↦ absurd (ground (arith, gone))
    | inr ((k, id), e) ↦ elim (Option-cases (send net k id)) [
      | inl out ↦ absurd (ground (arith, e, out))
      | inr ((a, net'), sent) ↦ elim (Pushed-cases (push_outcome a)) [
        | inl d ↦ (k, id, a, net', e, sent, d, ground (arith, e, sent, d, h))
        | inr (inl d) ↦ absurd (ground (arith, e, sent, d))
        | inr (inr d) ↦ absurd (ground (arith, e, sent, d))
      ]
    ]
  ]

  finish-delivered :
      (k id : ℕ) (b a : Answer) (o : Pushed) (net left : Network w)
      → finish w k id b (o, net) ≡ (a, left)
      → push_outcome a ≡ delivered
      → (o ≡ delivered) × (left ≡ resume w k id net)
  unfolding finish push_outcome
  finish-delivered k id b a delivered net left h d = (refl, ground arith)
  finish-delivered k id b a failed net left h d = absurd (ground arith)
  finish-delivered k id b a blocked net left h d = absurd (ground arith)

  -- A request that is answered is handled by a node that responds: it finds the transaction
  -- invalid, or pushes it on.
  pub record Handled (t : AuthorizedTransaction c A) (fuel : ℕ) (net : Network w) (k id : ℕ)
      (left : Network w) : Type 0 where
    pub member : Member w
    pub there : get k net ≡ some member
    pub responds : is_some (peer_listen w member.node id (push_transaction t)).response ≡ true
    pub goes :
        (left
            ≡ put k (busy w member id (peer_listen w member.node id (push_transaction t)).node) net)
          × ((e : Error w) × (validate_transaction w member.node t ≡ err e))
        ⊎ (after : Network w) × (push_all w
              (deliver w t fuel)
              member.ends
              (other_peers w id member.node.peers)
              (put k
                (busy w member id (peer_listen w member.node id (push_transaction t)).node)
                net)
            ≡ some (delivered, after))
          × (left ≡ resume w k id after)

  pub deliver-Handled :
      (t : AuthorizedTransaction c A) (fuel : ℕ) (net : Network w) (k id : ℕ) (a : Answer)
      (left : Network w)
      → deliver w t (suc fuel) net k id ≡ some (a, left)
      → push_outcome a ≡ delivered
      → Handled t fuel net k id left
  unfolding deliver push_outcome answer
  deliver-Handled t fuel net k id a left h d = elim (Option-cases (get k net)) [
    | inl gone ↦ absurd (ground (arith, gone))
    | inr (m, e) ↦ elim (Bool-cases (is_some (get id m.listening))) [
      | inr deaf ↦ absurd (ground (arith, e, deaf))
      | inl free ↦ elim (peer_listen-Listened w t m.node id) [
        | refuses x bad o response same ↦ record {
          member = m;
          there = e;
          responds = rw response refl;
          goes = inl (ground (arith, e, free, o), (x, bad));
        }
        | conflicts x o response same ↦ absurd (ground (arith, e, free, o, response))
        | takes pool taken o response whom now ↦
            let reply = peer_listen w m.node id (push_transaction t) in
            let net' = put k (busy w m id reply.node) net in
            elim (Option-cases (push_all w (deliver w t fuel) m.ends reply.pushed net')) [
              | inl out ↦ absurd (ground (arith, e, free, o, out))
              | inr ((sent, after), pushed) ↦
                  let (all, resumed) =
                    finish-delivered k id (answer w reply.response) a sent after left
                      (ground (arith, e, free, o, pushed)) d in
                  record {
                    member = m;
                    there = e;
                    responds = rw response refl;
                    goes = inr (after, rw (all, whom) at pushed, resumed);
                  }
            ]
      ]
    ]
  ]
