-- ===== src/Node/Relay/Reaches.antt =====
-- The nodes that a transaction reaches, and what can be said of one when all requests are
-- answered.
use ddk.Prelude.{
  ℕ, zero, suc, ◌≡◌, refl, sym, ap, ◌∙◌, Option, some, List, [], ◌∷◌, ok, true, is_some, arith, inl,
  inr, Result-cases,
}
use mathlib.Core.Path.{subst}
use ddk.Table.{Table, get, put}
use ddk.Types.{Chain, OutPoint, AuthorizedTransaction, number_key, out_point_key}
use ddk.State.{contains}
use ddk.Node.{World, Node, validate_transaction, submit_transaction}
use ddk.Node.Known.{validate_transaction-pool}
use ddk.Node.Requests.{push_transaction, peer_listen, other_peers}
use ddk.Node.Relay.{
  Answer, delivered, push_outcome, Member, Network, busy, resume, push_all, deliver, submit,
}
use ddk.Node.Relay.Delivered.{push_all-delivered, deliver-Handled}
use ddk.Node.Relay.Keeps.{
  Keeps-Kept, peer_listen-Took, Took, Kept, Kept-put, Kept-resume, Keeps, deliver-Keeps,
  push_all-Keeps, submit_transaction-pool,
}

module _ {c : Chain} {A : Type 0} (w : World c A) (t : AuthorizedTransaction c A) where
  -- A request at the connection `id` of the node `k` leads to the node `j`: over connections of
  -- nodes that find the transaction valid, not back over the one that it came by.
  pub data Reach (net : Network w) : ℕ → ℕ → ℕ → Type 0 where
    here : {k id : ℕ} → Reach net k id k
    hop :
        {k id j : ℕ} (m : Member w) (fee p k' id' : ℕ)
        → get k net ≡ some m
        → validate_transaction w m.node t ≡ ok fee
        → contains p (other_peers w id m.node.peers) ≡ true
        → get p m.ends ≡ some (k', id')
        → Reach net k' id' j
        → Reach net k id j

  pub Took-peers : (n n' : Node w) → Took w t n n' → n'.peers ≡ n.peers
  Took-peers n n' (inl same) = rw same refl
  Took-peers n n' (inr (pool, taken, now)) = rw now refl

  pub Took-valid :
      (n n' : Node w) → Took w t n n' → validate_transaction w n' t ≡ validate_transaction w n t
  Took-valid n n' (inl same) = rw same refl
  Took-valid n n' (inr (pool, taken, now)) = rw now (validate_transaction-pool w n pool t)

  Reach-Kept :
      (net net' : Network w) {k id j : ℕ} → Kept w t net net' → Reach net k id j → Reach net' k id j
  Reach-Kept net net' kept here = here
  Reach-Kept net net' {k} {id} kept (hop m fee p k' id' e valid among leads r) =
      let (m', e', ends, took) = kept k m e in
      hop m' fee p k' id' e' (Took-valid m.node m'.node took ∙ valid)
        (subst (λ (ps : List ℕ). contains p (other_peers w id ps) ≡ true)
          (sym (Took-peers m.node m'.node took)) among)
        (subst (λ (t : Table ℕ (ℕ × ℕ)). get p t ≡ some (k', id')) (sym ends) leads)
        (Reach-Kept net net' kept r)

  -- What is known of the node `j` before a request that leads to it, and what is claimed of a
  -- network in which it has handled one with a response.
  module _ (i : OutPoint) (spends : contains i t.transaction.inputs ≡ true) (j : ℕ)
      (Before After : Network w → Type 0)
      (before : (a b : Network w) → Kept w t a b → Before a → Before b)
      (after : (a b : Network w) → Kept w t a b → After a → After b)
      (lands : (net : Network w) (id : ℕ) (m : Member w)
        → get j net ≡ some m
        → Before net
        → is_some (peer_listen w m.node id (push_transaction t)).response ≡ true
        → After (put j (busy w m id (peer_listen w m.node id (push_transaction t)).node) net)) where
    -- What a request comes to, if the sender goes on.
    abbrev Settles : (Network w → ℕ → ℕ → Option (Answer × Network w)) → Type 0
    Settles send =
        (net left : Network w) (k id : ℕ) (a : Answer)
        → send net k id ≡ some (a, left)
        → push_outcome a ≡ delivered
        → Before net
        → Reach net k id j
        → After left

    Reach-same :
        (net : Network w) (k k' id id' : ℕ)
        → ◌≡◌ {A = Option (ℕ × ℕ)} (some (k, id)) (some (k', id'))
        → Reach net k id j
        → Reach net k' id' j
    Reach-same net k k' id id' e r =
        let first : k ≡ k' = ground arith in
        let second : id ≡ id' = ground arith in
        subst (λ (x : ℕ). Reach net k' x j) second (subst (λ (x : ℕ). Reach net x id j) first r)

    push_all-After :
        (send : Network w → ℕ → ℕ → Option (Answer × Network w))
        → ((net : Network w) (k id : ℕ) → Keeps w t i spends net (send net k id))
        → Settles send
        → (ends : Table ℕ (ℕ × ℕ)) (ps : List ℕ) (net left : Network w) (p k id : ℕ)
        → push_all w send ends ps net ≡ some (delivered, left)
        → contains p ps ≡ true
        → get p ends ≡ some (k, id)
        → Before net
        → Reach net k id j
        → After left
    unfolding contains
    push_all-After send keeps settles ends [] net left p k id h among leads b r =
        absurd (ground arith)
    push_all-After send keeps settles ends (q ∷ ps) net left p k id h among leads b r =
        let (k1, id1, a, net', e, sent, d, rest) = push_all-delivered w send ends q ps net left h in
        let kept = Keeps-Kept w t i spends net net' _ a (keeps net k1 id1) sent in
        elim (number_key.discrete p q) [
          | no other ↦
              push_all-After send keeps settles ends ps net' left p k id rest
                (ground (arith, among, other)) leads (before net net' kept b)
                (Reach-Kept net net' kept r)
          | yes same ↦
              let kept' =
                Keeps-Kept w t i spends net' left _ delivered
                  (push_all-Keeps w t i spends send keeps ends ps net') rest in
              let leads' : ◌≡◌ {A = Option (ℕ × ℕ)} (some (k, id)) (some (k1, id1)) =
                sym leads ∙ ap (λ (x : ℕ). get x ends) same ∙ e in
              after net' left kept'
                (settles net net' k1 id1 a sent d b (Reach-same net k k1 id id1 leads' r))
        ]

    Reach-here :
        (net left : Network w) {k id : ℕ} (m : Member w)
        → Reach net k id j
        → get k net ≡ some m
        → (x : (fee p k' id' : ℕ)
            → validate_transaction w m.node t ≡ ok fee
            → contains p (other_peers w id m.node.peers) ≡ true
            → get p m.ends ≡ some (k', id')
            → Reach net k' id' j
            → After left)
        → (k ≡ j → After left)
        → After left
    Reach-here net left m here e x y = y refl
    Reach-here net left {k} {id} m (hop m0 fee p k' id' e0 valid among leads r) e x y =
        let same : m0 ≡ m = ground (arith, e, e0) in
        x fee p k' id'
          (subst (λ (m : Member w). validate_transaction w m.node t ≡ ok fee) same valid)
          (subst (λ (m : Member w). contains p (other_peers w id m.node.peers) ≡ true) same among)
          (subst (λ (m : Member w). get p m.ends ≡ some (k', id')) same leads) r

    lands-at :
        (net : Network w) (k id : ℕ) (m : Member w)
        → get k net ≡ some m
        → Before net
        → is_some (peer_listen w m.node id (push_transaction t)).response ≡ true
        → k ≡ j
        → After (put k (busy w m id (peer_listen w m.node id (push_transaction t)).node) net)
    lands-at net k id m e b answers same =
        rw same (lands net id m (subst (λ (x : ℕ). get x net ≡ some m) same e) b answers)

    deliver-Settles : (fuel : ℕ) → Settles (deliver w t fuel)
    unfolding deliver
    deliver-Settles zero net left k id a h d b r = absurd (ground arith)
    deliver-Settles (suc fuel) net left k id a h d b r =
        let handled = deliver-Handled w t fuel net k id a left h d in
        let m = handled.member in
        let n = (peer_listen w m.node id (push_transaction t)).node in
        let net' = put k (busy w m id n) net in
        let first =
          Kept-put w t net k m (busy w m id n) handled.there refl
            (peer_listen-Took w t m.node id) in
        let landed = lands-at net k id m handled.there b handled.responds in
        elim handled.goes [
          | inl (here_, (x, bad)) ↦ subst After (sym here_) (
              Reach-here net net' m r handled.there
                (λ fee p k' id' valid. absurd (ground (arith, bad, valid))) landed)
          | inr (through, all, resumed) ↦
              let keeps = deliver-Keeps w t i spends fuel in
              let second =
                Keeps-Kept w t i spends net' through _ delivered
                  (push_all-Keeps w t i spends (deliver w t fuel) keeps m.ends _ net') all in
              let done =
                Reach-here net through m r handled.there
                  (λ fee p k' id' valid among leads r'.
                    push_all-After (deliver w t fuel) keeps (deliver-Settles fuel) m.ends _ net'
                      through p k' id' all among leads (before net net' first b)
                      (Reach-Kept net net' first r'))
                  (λ at. after net' through second (landed at)) in
              subst After (sym resumed)
                (after through (resume w k id through) (Kept-resume w t i spends k id through) done)
        ]

    -- The network of a submission that is through.
    pub submit-After :
        (fuel : ℕ) (net left : Network w) (k : ℕ) (m : Member w) (p k' id' : ℕ)
        → get k net ≡ some m
        → submit w t fuel net k m ≡ some (ok delivered, left)
        → contains p m.node.peers ≡ true
        → get p m.ends ≡ some (k', id')
        → ((n : Node w) (ps : List ℕ)
            → submit_transaction w m.node t ≡ ok (n, ps)
            → Before (put k (record m { node = n }) net))
        → Reach net k' id' j
        → After left
    unfolding submit
    submit-After fuel net left k m p k' id' e h among leads b r =
        elim (Result-cases (submit_transaction w m.node t)) [
          | inr (x, bad) ↦ absurd (ground (arith, bad))
          | inl ((n, ps), good) ↦
              let (pool, taken, now, whom) = submit_transaction-pool w t i spends m.node n good in
              let net' = put k (record m { node = n }) net in
              let first =
                Kept-put w t net k m (record m { node = n }) e refl (inr (pool, taken, now)) in
              push_all-After (deliver w t fuel) (deliver-Keeps w t i spends fuel)
                (deliver-Settles fuel) m.ends ps net' left p k' id' (ground (arith, good, h))
                (subst (λ (ps : List ℕ). contains p ps ≡ true) (sym whom) among) leads (b n ps good)
                (Reach-Kept net net' first r)
        ]
