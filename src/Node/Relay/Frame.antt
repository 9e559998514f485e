-- ===== src/Node/Relay/Frame.antt =====
-- A task that waits for a node which is busy with the transaction goes on waiting.
use ddk.Prelude.{
  ℕ, zero, suc, ◌≡◌, ◌≢◌, refl, sym, Option, some, List, [], ◌∷◌, err, true, is_some, arith, inl,
  inr, Option-cases,
}
use mathlib.Core.Path.{subst}
use ddk.Table.{Table, get, put}
use ddk.Table.Laws.{get-put, get-delete, get-put_self}
use ddk.Types.{Chain, OutPoint, AuthorizedTransaction, number_key, out_point_key}
use ddk.State.{contains}
use ddk.Mempool.{insert, utxo_double_spent}
use ddk.Node.{World, Node}
use ddk.Node.Requests.{push_transaction, peer_listen, other_peers}
use ddk.Node.Relay.{
  Answer, accepted, Pushed, delivered, failed, blocked, Member, Network, resume, busy, push_all,
  finish, deliver,
}
use ddk.Node.Relay.Steps.{
  nowhere, stops, goes_on, push_all-Looped, no_node, no_task, ends_task, pushes, deliver-Delivery,
}
use ddk.Node.Relay.Keeps.{
  Keeps-Kept, peer_listen-Took, Kept, Kept-put, Kept-trans, Keeps, deliver-Keeps,
}

module _ {c : Chain} {A : Type 0} (w : World c A) where
  -- The connection `p` of the node `j` leads to the connection `id` of the node `k`.
  abbrev pub Link : Network w → ℕ → ℕ → ℕ → ℕ → Type 0
  Link net j p k id = (m : Member w) × (get j net ≡ some m) × (get p m.ends ≡ some (k, id))

  -- A task listens at the connection.
  abbrev pub Listens : Network w → ℕ → ℕ → Type 0
  Listens net k id = (m : Member w) × (get k net ≡ some m) × (is_some (get id m.listening) ≡ true)

  -- No two connections lead to one.
  abbrev pub IsWired : Network w → Type 0
  IsWired net = (j p j' p' k id : ℕ) → Link net j p k id → Link net j' p' k id → (j ≡ j') × (p ≡ p')

  pub Listens-busy :
      (net : Network w) (k id h hd : ℕ) (m : Member w) (n : Node w)
      → get k net ≡ some m
      → ¬ ((k ≡ h) × (id ≡ hd))
      → Listens net h hd
      → Listens (put k (busy w m id n) net) h hd
  Listens-busy net k id h hd m n e other (m0, e0, on) = elim (number_key.discrete h k) [
    | no away ↦ (m0, ground (arith, get-put h k (busy w m id n) net, away), on)
    | yes same ↦
        let is : m0 ≡ m = ground (arith, e, e0, same) in
        let on' : is_some (get hd m.listening) ≡ true =
          subst (λ (m : Member w). is_some (get hd m.listening) ≡ true) is on in
        let apart : hd ≢ id = λ x. other (sym same, sym x) in
        (
          busy w m id n,
          rw same (get-put_self k (busy w m id n) net),
          ground (arith, get-delete hd id m.listening, on', apart),
        )
  ]

  pub Listens-resume :
      (net : Network w) (k id h hd : ℕ) → Listens net h hd → Listens (resume w k id net) h hd
  unfolding resume
  Listens-resume net k id h hd (m0, e0, on) = elim (Option-cases (get k net)) [
    | inl gone ↦ rw (gone, resume) (m0, e0, on)
    | inr (m, e) ↦
        let m' : Member w = record m { listening = put id tt m.listening } in
        rw (e, resume)
          (elim (number_key.discrete h k) [
            | no away ↦ (m0, ground (arith, get-put h k m' net, away), on)
            | yes same ↦
                let is : m0 ≡ m = ground (arith, e, e0, same) in
                let on' : is_some (get hd m.listening) ≡ true =
                  subst (λ (m : Member w). is_some (get hd m.listening) ≡ true) is on in
                (
                  m',
                  rw same (get-put_self k m' net),
                  ground (arith, get-put hd id tt m.listening, on'),
                )
          ])
  ]

  pub Listens-finish :
      (k id h hd : ℕ) (b a : Answer) (o : Pushed) (net left : Network w)
      → finish w k id b (o, net) ≡ (a, left)
      → Listens net h hd
      → Listens left h hd
  unfolding finish
  Listens-finish k id h hd b a delivered net left e on =
      let is : resume w k id net ≡ left = ground (arith, e) in
      subst (λ (x : Network w). Listens x h hd) is (Listens-resume net k id h hd on)
  Listens-finish k id h hd b a failed net left e on =
      let is : net ≡ left = ground (arith, e) in subst (λ (x : Network w). Listens x h hd) is on
  Listens-finish k id h hd b a blocked net left e on =
      let is : net ≡ left = ground (arith, e) in subst (λ (x : Network w). Listens x h hd) is on

-- From here on a network `start` of nodes that all listen, and a transaction with an input.
module _ {c : Chain} {A : Type 0} (w : World c A) (t : AuthorizedTransaction c A) (i : OutPoint)
    (spends : contains i t.transaction.inputs ≡ true) (start : Network w) (wired : IsWired w start)
    (listen : (j p k id : ℕ) → Link w start j p k id → Listens w start k id) where
  -- The node's pool does not take the transaction.
  abbrev pub HeldAt : Network w → ℕ → Type 0
  HeldAt net j =
      (m : Member w) × (get j net ≡ some m)
      × (insert w.codec m.node.mempool t ≡ err utxo_double_spent)

  pub HeldAt-Kept : (j : ℕ) (a b : Network w) → Kept w t a b → HeldAt a j → HeldAt b j
  HeldAt-Kept j a b kept (m, e, full) =
      let (m', e', ends, took) = kept j m e in
      elim took [
        | inl same ↦ (
          m',
          e',
          subst (λ (n : Node w). insert w.codec n.mempool t ≡ err utxo_double_spent) (sym same)
              full,
        )
        | inr (pool, taken, now) ↦ absurd (ground (arith, full, taken))
      ]

  -- A node that is reached has the connections that it had at the start.
  pub Link-start :
      (net : Network w) (j p k id q k' id' : ℕ) (m : Member w)
      → Kept w t start net
      → Link w start j p k id
      → get k net ≡ some m
      → get q m.ends ≡ some (k', id')
      → Link w start k q k' id'
  Link-start net j p k id q k' id' m kept link e leads =
      let (m0, there, on) = listen j p k id link in
      let (m', e', ends, took) = kept k m0 there in
      let is : m' ≡ m = ground (arith, e, e') in
      (
        m0,
        there,
        rw (← ends) (subst (λ (m : Member w). get q m.ends ≡ some (k', id')) (sym is) leads),
      )

  module _ (s p h hd : ℕ) (link : Link w start s p h hd) where
    -- What a request leaves that does not come over the link: the link's task still listens, if it
    -- did, while the node at its other end holds the transaction.
    abbrev Frames : (Network w → ℕ → ℕ → Option (Answer × Network w)) → Type 0
    Frames send =
        (net left : Network w) (j q k id : ℕ) (a : Answer)
        → Kept w t start net
        → Link w start j q k id
        → ¬ ((k ≡ h) × (id ≡ hd))
        → HeldAt net s
        → send net k id ≡ some (a, left)
        → Listens w net h hd
        → Listens w left h hd

    push_all-Frame :
        (send : Network w → ℕ → ℕ → Option (Answer × Network w))
        → ((net : Network w) (k id : ℕ) → Keeps w t i spends net (send net k id))
        → Frames send
        → (ends : Table ℕ (ℕ × ℕ)) (j : ℕ) (ps : List ℕ) (net left : Network w) (o : Pushed)
        → ((q k id : ℕ) → get q ends ≡ some (k, id) → Link w start j q k id)
        → s ≢ j
        → Kept w t start net
        → HeldAt net s
        → push_all w send ends ps net ≡ some (o, left)
        → Listens w net h hd
        → Listens w left h hd
    unfolding push_all
    push_all-Frame send keeps frames ends j [] net left o links away kept held e on =
        let is : net ≡ left = ground (arith, e) in subst (λ (x : Network w). Listens w x h hd) is on
    push_all-Frame send keeps frames ends j (q ∷ ps) net left o links away kept held e on =
        let other = λ (k id : ℕ) (there : get q ends ≡ some (k, id)) (same : (k ≡ h) × (id ≡ hd)).
          away (wired s p j q h hd link (rw (← same.0, ← same.1) (links q k id there))).0 in
        elim (push_all-Looped w send ends q ps net o left e) [
          | nowhere x same ↦ subst (λ (x : Network w). Listens w x h hd) (sym same) on
          | stops k id a there sent x ↦
              frames net left j q k id a kept (links q k id there) (other k id there) held sent on
          | goes_on k id a net' there sent d rest ↦
              let kept' = Keeps-Kept w t i spends net net' _ a (keeps net k id) sent in
              push_all-Frame send keeps frames ends j ps net' left o links away
                (Kept-trans w t i spends start net net' kept kept')
                (HeldAt-Kept s net net' kept' held) rest
                (frames net net' j q k id a kept (links q k id there) (other k id there) held sent
                  on)
        ]

    pub deliver-Frame : (fuel : ℕ) → Frames (deliver w t fuel)
    unfolding deliver
    deliver-Frame zero net left j q k id a kept from other held e on = absurd (ground arith)
    deliver-Frame (suc fuel) net left j q k id a kept from other held e on =
        elim (deliver-Delivery w t fuel net k id a left e) [
          | no_node x same ↦ subst (λ (x : Network w). Listens w x h hd) (sym same) on
          | no_task m x y same ↦ subst (λ (x : Network w). Listens w x h hd) (sym same) on
          | ends_task m there x same ↦
              subst (λ (x : Network w). Listens w x h hd) (sym same)
                (Listens-busy w net k id h hd m _ there other on)
          | pushes m pool o after there taken now pushed ended ↦
              let n = (peer_listen w m.node id (push_transaction t)).node in
              let net' = put k (busy w m id n) net in
              let first =
                Kept-put w t net k m (busy w m id n) there refl (peer_listen-Took w t m.node id) in
              let away : s ≢ k = λ same.
                let (m1, e1, full) = held in
                let is : m1 ≡ m = ground (arith, e1, there, same) in
                ground (
                  arith,
                  taken,
                  subst (λ (m : Member w). insert w.codec m.node.mempool t ≡ err utxo_double_spent)
                      is full,
                ) in
              Listens-finish w k id h hd accepted a o after left ended (
                push_all-Frame (deliver w t fuel) (deliver-Keeps w t i spends fuel)
                  (deliver-Frame fuel) m.ends k (other_peers w id m.node.peers) net' after o
                  (λ q k' id' leads. Link-start net j _ k id q k' id' m kept from there leads) away
                  (Kept-trans w t i spends start net net' kept first)
                  (HeldAt-Kept s net net' first held) pushed
                  (Listens-busy w net k id h hd m n there other on))
        ]
