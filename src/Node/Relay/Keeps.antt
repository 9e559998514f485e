-- ===== src/Node/Relay/Keeps.antt =====
-- What the relaying of a transaction changes in a network: a node's pool, at most once.
use ddk.Prelude.{
  ℕ, zero, suc, ◌≡◌, refl, ◌∙◌, Option, none, some, List, [], ◌∷◌, Result, ok, err, true, is_some,
  arith, ◌⊎◌, inl, inr, Option-cases, Bool-cases, Result-cases, >>=-eq-ok, map_err, map_err-eq-ok,
}
use mathlib.Core.Path.{subst}
use ddk.Table.{Table, get, put}
use ddk.Table.Laws.{get-put, get-put_self}
use ddk.Types.{Chain, OutPoint, AuthorizedTransaction, number_key, out_point_key}
use ddk.State.{contains}
use ddk.Mempool.{Mempool, insert}
use ddk.Mempool.Marks.{insert-again}
use ddk.Node.{World, Error, Node, validate_transaction, submit_transaction}
use ddk.Node.Requests.{
  push_transaction, transaction_accepted, transaction_rejected, peer_listen, other_peers,
}
use ddk.Node.Relay.{
  Answer, Pushed, delivered, failed, blocked, push_outcome, Pushed-cases, Member, Network, answer,
  resume, busy, push_all, finish, deliver, submit,
}

module _ {c : Chain} {A : Type 0} (w : World c A) (t : AuthorizedTransaction c A) where
  -- The three ways in which the node handles a pushed transaction.
  pub data Listened (n : Node w) (id : ℕ) : Type 0 where
    refuses :
        (e : Error w)
        → validate_transaction w n t ≡ err e
        → (peer_listen w n id (push_transaction t)).outcome ≡ err e
        → (peer_listen w n id (push_transaction t)).response ≡ some transaction_rejected
        → (peer_listen w n id (push_transaction t)).node ≡ n
        → Listened n id
    conflicts :
        (e : Error w)
        → (peer_listen w n id (push_transaction t)).outcome ≡ err e
        → (peer_listen w n id (push_transaction t)).response ≡ none
        → (peer_listen w n id (push_transaction t)).node ≡ n
        → Listened n id
    takes :
        (pool : Mempool c A)
        → insert w.codec n.mempool t ≡ ok pool
        → (peer_listen w n id (push_transaction t)).outcome ≡ ok tt
        → (peer_listen w n id (push_transaction t)).response ≡ some transaction_accepted
        → (peer_listen w n id (push_transaction t)).pushed ≡ other_peers w id n.peers
        → (peer_listen w n id (push_transaction t)).node ≡ record n { mempool = pool }
        → Listened n id

  pub peer_listen-Listened : (n : Node w) (id : ℕ) → Listened n id
  unfolding peer_listen
  peer_listen-Listened n id = elim (Result-cases (validate_transaction w n t)) [
    | inr (e, bad) ↦
        refuses e bad (rw (peer_listen, bad) refl) (rw (peer_listen, bad) refl)
          (rw (peer_listen, bad) refl)
    | inl (fee, valid) ↦ elim (Result-cases (insert w.codec n.mempool t)) [
      | inr (e, bad) ↦
          conflicts (Error.mempool e) (rw (peer_listen, valid, bad) refl)
            (rw (peer_listen, valid, bad) refl) (rw (peer_listen, valid, bad) refl)
      | inl (pool, good) ↦
          takes pool good (rw (peer_listen, valid, good) refl) (rw (peer_listen, valid, good) refl)
            (rw (peer_listen, valid, good) refl) (rw (peer_listen, valid, good) refl)
    ]
  ]

  -- The node is the same, or its pool has taken the transaction.
  abbrev pub Took : Node w → Node w → Type 0
  Took n n' =
      (n' ≡ n)
      ⊎ (pool : Mempool c A) × (insert w.codec n.mempool t ≡ ok pool)
        × (n' ≡ record n { mempool = pool })

  pub peer_listen-Took :
      (n : Node w) (id : ℕ) → Took n (peer_listen w n id (push_transaction t)).node
  peer_listen-Took n id = elim (peer_listen-Listened n id) [
    | refuses e bad o r same ↦ inl same
    | conflicts e o r same ↦ inl same
    | takes pool good o r p now ↦ inr (pool, good, now)
  ]

  -- Each node is still there, its connections lead where they led, and it took the transaction at
  -- most once.
  abbrev pub Kept : Network w → Network w → Type 0
  Kept net net' =
      (j : ℕ) (m : Member w)
      → get j net ≡ some m
      → (m' : Member w) × (get j net' ≡ some m') × (m'.ends ≡ m.ends) × Took m.node m'.node

  Kept-refl : (net : Network w) → Kept net net
  Kept-refl net j m e = (m, e, refl, inl refl)

  pub Kept-put :
      (net : Network w) (k : ℕ) (m m' : Member w)
      → get k net ≡ some m
      → m'.ends ≡ m.ends
      → Took m.node m'.node
      → Kept net (put k m' net)
  Kept-put net k m m' e same took j m0 e0 = elim (number_key.discrete j k) [
    | yes p ↦
        let is : m ≡ m0 = ground (arith, e, e0) in
        (
          m',
          rw p (get-put_self k m' net),
          subst (λ (x : Member w). m'.ends ≡ x.ends) is same,
          subst (λ (x : Member w). Took x.node m'.node) is took,
        )
    | no p ↦ (m0, ground (arith, get-put j k m' net), refl, inl refl)
  ]

  module _ (i : OutPoint) (spends : contains i t.transaction.inputs ≡ true) where
    Took-trans : (a b c : Node w) → Took a b → Took b c → Took a c
    Took-trans a b c (inl p) q = subst (λ (x : Node w). Took x c) p q
    Took-trans a b c (inr p) (inl q) = inr (p.0, p.1, q ∙ p.2)
    Took-trans a b c (inr (pool, taken, now)) (inr (pool', again, now')) =
        let full : b.mempool ≡ pool = rw now refl in
        absurd (ground (arith, insert-again w.codec a.mempool pool t t i taken spends spends))

    pub Kept-trans : (a b c : Network w) → Kept a b → Kept b c → Kept a c
    Kept-trans a b c p q j m e =
        let (m1, e1, ends1, took1) = p j m e in
        let (m2, e2, ends2, took2) = q j m1 e1 in
        (m2, e2, ends2 ∙ ends1, Took-trans m.node m1.node m2.node took1 took2)

    pub Kept-resume : (k id : ℕ) (net : Network w) → Kept net (resume w k id net)
    unfolding resume
    Kept-resume k id net = elim (Option-cases (get k net)) [
      | inl gone ↦ rw (gone, resume) (Kept-refl net)
      | inr (m, e) ↦
          rw (e, resume)
            (Kept-put net k m (record m { listening = put id tt m.listening }) e refl (inl refl))
    ]

    pub Kept-finish :
        (k id : ℕ) (a : Answer) (o : Pushed) (net : Network w)
        → Kept net (finish w k id a (o, net)).1
    unfolding finish
    Kept-finish k id a delivered net = Kept-resume k id net
    Kept-finish k id a failed net = Kept-refl net
    Kept-finish k id a blocked net = Kept-refl net

    -- What is left of the network, if there is a result.
    abbrev pub Keeps : {R : Type 0} → Network w → Option (R × Network w) → Type 0
    Keeps net none = Unit
    Keeps net (some (_, left)) = Kept net left

    pub Keeps-Kept :
        {R : Type 0} (net left : Network w) (o : Option (R × Network w)) (r : R)
        → Keeps net o
        → o ≡ some (r, left)
        → Kept net left
    Keeps-Kept net left o r keeps e = subst (Keeps net) e keeps

    Keeps-trans :
        {R : Type 0} (a b : Network w) (r : Option (R × Network w))
        → Kept a b
        → Keeps b r
        → Keeps a r
    Keeps-trans a b none p q = tt
    Keeps-trans a b (some (_, left)) p q = Kept-trans a b left p q

    pub push_all-Keeps :
        (send : Network w → ℕ → ℕ → Option (Answer × Network w))
        → ((net : Network w) (k id : ℕ) → Keeps net (send net k id))
        → (ends : Table ℕ (ℕ × ℕ)) (ps : List ℕ) (net : Network w)
        → Keeps net (push_all w send ends ps net)
    unfolding push_all
    push_all-Keeps send keeps ends [] net = Kept-refl net
    push_all-Keeps send keeps ends (p ∷ ps) net = elim (Option-cases (get p ends)) [
      | inl gone ↦ rw (gone, push_all) (Kept-refl net)
      | inr ((k, id), e) ↦ elim (Option-cases (send net k id)) [
        | inl out ↦ rw (e, out, push_all) tt
        | inr ((a, net'), sent) ↦
            let first : Kept net net' =
              subst (λ (r : Option (Answer × Network w)). Keeps net r) sent (keeps net k id) in
            let rest =
              Keeps-trans net net' (push_all w send ends ps net') first
                (push_all-Keeps send keeps ends ps net') in
            elim (Pushed-cases (push_outcome a)) [
              | inl d ↦ rw (e, sent, d, push_all) rest
              | inr (inl d) ↦ rw (e, sent, d, push_all) first
              | inr (inr d) ↦ rw (e, sent, d, push_all) first
            ]
      ]
    ]

    pub deliver-Keeps :
        (fuel : ℕ) (net : Network w) (k id : ℕ) → Keeps net (deliver w t fuel net k id)
    unfolding deliver
    deliver-Keeps zero net k id = tt
    deliver-Keeps (suc fuel) net k id = elim (Option-cases (get k net)) [
      | inl gone ↦ rw (gone, deliver) (Kept-refl net)
      | inr (m, e) ↦ elim (Bool-cases (is_some (get id m.listening))) [
        | inr deaf ↦ rw (e, deaf, deliver) (Kept-refl net)
        | inl free ↦
            let reply = peer_listen w m.node id (push_transaction t) in
            let net' = put k (busy w m id reply.node) net in
            let first =
              Kept-put net k m (busy w m id reply.node) e refl (peer_listen-Took m.node id) in
            elim (Result-cases reply.outcome) [
              | inr (x, bad) ↦ rw (e, free, bad, deliver) first
              | inl (u, good) ↦
                  let rest =
                    push_all-Keeps (deliver w t fuel) (deliver-Keeps fuel) m.ends reply.pushed
                      net' in
                  elim (Option-cases (push_all w (deliver w t fuel) m.ends reply.pushed net')) [
                    | inl out ↦ rw (e, free, good, out, deliver) tt
                    | inr ((o, left), pushed) ↦
                        let second : Kept net' left =
                          subst (λ (r : Option (Pushed × Network w)). Keeps net' r) pushed rest in
                        let third = Kept-finish k id (answer w reply.response) o left in
                        rw (e, free, good, pushed, deliver)
                          (Kept-trans net net' _ first (Kept-trans net' left _ second third))
                  ]
            ]
      ]
    ]

    pub submit_transaction-pool :
        (n n' : Node w) {ps : List ℕ}
        → submit_transaction w n t ≡ ok (n', ps)
        → (pool : Mempool c A) × (insert w.codec n.mempool t ≡ ok pool)
          × (n' ≡ record n { mempool = pool })
          × (ps ≡ n.peers)
    unfolding submit_transaction
    submit_transaction-pool n n' h =
        let (fee, valid, r1) = >>=-eq-ok (validate_transaction w n t) _ h in
        let (pool, taken, r2) =
          >>=-eq-ok (map_err Error.mempool (insert w.codec n.mempool t)) _ r1 in
        (pool, map_err-eq-ok _ _ taken, ground arith, ground arith)

    -- If a transaction has an input, then whatever its submission comes to, each node of the
    -- network is as it was, or its pool has taken the transaction, once; and its connections
    -- lead where they led.
    pub submit-Kept :
        (fuel : ℕ) (net left : Network w) (k : ℕ) (m : Member w) {r : Result (Error w) Pushed}
        → get k net ≡ some m
        → submit w t fuel net k m ≡ some (r, left)
        → Kept net left
    unfolding submit
    submit-Kept fuel net left k m e h = elim (Result-cases (submit_transaction w m.node t)) [
      | inr (x, bad) ↦
          let same : net ≡ left = ground (arith, bad) in subst (Kept net) same (Kept-refl net)
      | inl ((n, ps), good) ↦
          let (pool, taken, now, whom) = submit_transaction-pool m.node n good in
          let net' = put k (record m { node = n }) net in
          let first = Kept-put net k m (record m { node = n }) e refl (inr (pool, taken, now)) in
          let rest = push_all-Keeps (deliver w t fuel) (deliver-Keeps fuel) m.ends ps net' in
          elim (Option-cases (push_all w (deliver w t fuel) m.ends ps net')) [
            | inl out ↦ absurd (ground (arith, good, out))
            | inr ((o, left'), pushed) ↦
                let same : left' ≡ left = ground (arith, good, pushed) in
                let second : Kept net' left' =
                  subst (λ (r : Option (Pushed × Network w)). Keeps net' r) pushed rest in
                Kept-trans net net' left first (subst (Kept net') same second)
          ]
    ]
