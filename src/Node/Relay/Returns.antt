-- ===== src/Node/Relay/Returns.antt =====
-- The submission of a transaction returns: no request waits for a task that does not listen.
use ddk.Prelude.{
  ℕ, zero, suc, ◌+◌, ◌≡◌, ◌≢◌, refl, sym, some, List, [], ◌∷◌, Result, ok, err, true, is_some,
  arith, inl, inr, Result-cases, Option-cases,
}
use mathlib.Core.Path.{subst}
use ddk.Table.{get, put}
use ddk.Table.Laws.{get-put, get-put_self}
use ddk.Types.{Chain, OutPoint, AuthorizedTransaction, number_key, out_point_key}
use ddk.State.{contains}
use ddk.Mempool.{Mempool, insert, utxo_double_spent}
use ddk.Mempool.Marks.{insert-again}
use ddk.Node.{World, Error, Node, submit_transaction}
use ddk.Node.Requests.{push_transaction, peer_listen, other_peers}
use ddk.Node.Relay.{Pushed, blocked, Member, Network, busy, push_all, deliver, submit}
use ddk.Node.Relay.Ends.{listeners, submit-ends}
use ddk.Node.Relay.Steps.{no_node, no_task, ends_task, pushes, deliver-Delivery}
use ddk.Node.Relay.Frame.{Link, Listens, IsWired, Listens-busy, Link-start}
use ddk.Node.Relay.Ready.{
  Distinct, other_peers-Distinct, finish-silent, IsOpen, IsOpen-busy, IsOpen-finish, Holds, Answers,
  Ready, push_all-Answers,
}
use ddk.Node.Relay.Reaches.{Took-peers}
use ddk.Node.Relay.Keeps.{peer_listen-Took, Kept, Kept-put, Kept-trans, submit_transaction-pool}

module _ {c : Chain} {A : Type 0} (w : World c A) (t : AuthorizedTransaction c A) (i : OutPoint)
    (spends : contains i t.transaction.inputs ≡ true) (start : Network w) (wired : IsWired w start)
    (listen : (j p k id : ℕ) → Link w start j p k id → Listens w start k id)
    (distinct : (j : ℕ) (m : Member w) → get j start ≡ some m → Distinct m.node.peers) where
  -- The peers of a node that has just taken the transaction.
  at-Ready :
      (net net' : Network w) (k : ℕ) (m : Member w) (ps : List ℕ)
      → ((q k' id' : ℕ) → get q m.ends ≡ some (k', id') → Link w start k q k' id')
      → ((q k' id' : ℕ) → Link w start k q k' id' → Listens w net k' id' → Listens w net' k' id')
      → ¬ Holds w t i spends start wired listen distinct net k
      → IsOpen w t i spends start wired listen distinct net
      → Ready w t i spends start wired listen distinct net' m.ends ps
  at-Ready net net' k m [] links kept free open_ = tt
  at-Ready net net' k m (q ∷ ps) links kept free open_ = (
    (λ k' id' leads. elim (open_ k q k' id' (links q k' id' leads)) [
      | inl holds ↦ absurd (free holds)
      | inr on ↦ kept q k' id' (links q k' id' leads) on
    ]),
    at-Ready net net' k m ps links kept free open_,
  )

  -- A node whose pool takes the transaction does not hold it.
  not-Holds :
      (net : Network w) (k : ℕ) (m : Member w) (pool : Mempool c A)
      → get k net ≡ some m
      → insert w.codec m.node.mempool t ≡ ok pool
      → ¬ Holds w t i spends start wired listen distinct net k
  not-Holds net k m pool e taken (m1, e1, full) =
      let is : m1 ≡ m = ground (arith, e, e1) in
      ground (
        arith,
        taken,
        subst (λ (m : Member w). insert w.codec m.node.mempool t ≡ err utxo_double_spent) is full,
      )

  put-Holds :
      (net : Network w) (k : ℕ) (m : Member w) (old : Mempool c A)
      → insert w.codec old t ≡ ok m.node.mempool
      → Holds w t i spends start wired listen distinct (put k m net) k
  put-Holds net k m old taken =
      (m, get-put_self k m net, insert-again w.codec old m.node.mempool t t i taken spends spends)

  deliver-Answers : (fuel : ℕ) → Answers w t i spends start wired listen distinct (deliver w t fuel)
  unfolding deliver
  deliver-Answers zero net left j q k id a kept open_ from held on e = absurd (ground arith)
  deliver-Answers (suc fuel) net left j q k id a kept open_ from held (m0, e0, free) e =
      elim (deliver-Delivery w t fuel net k id a left e) [
        | no_node x same ↦ absurd (ground (arith, x, e0))
        | no_task m x deaf same ↦
            let is : m0 ≡ m = ground (arith, x, e0) in
            absurd (
              ground (
                arith,
                deaf,
                subst (λ (m : Member w). is_some (get id m.listening) ≡ true) is free,
              ))
        | ends_task m there heard same ↦
            let n = (peer_listen w m.node id (push_transaction t)).node in
            let first =
              Kept-put w t net k m (busy w m id n) there refl (peer_listen-Took w t m.node id) in
            (
              heard,
              subst (IsOpen w t i spends start wired listen distinct) (sym same) (
                  IsOpen-busy w t i spends start wired listen distinct net j q k id m n first from
                    held there open_),
            )
        | pushes m pool o after there taken now pushed ended ↦
            let n = (peer_listen w m.node id (push_transaction t)).node in
            let net' = put k (busy w m id n) net in
            let first =
              Kept-put w t net k m (busy w m id n) there refl (peer_listen-Took w t m.node id) in
            let free' = not-Holds net k m pool there taken in
            let holds : Holds w t i spends start wired listen distinct net' k =
              put-Holds net k (busy w m id n) m.node.mempool (rw now taken) in
            let links = λ (q' k' id' : ℕ) (leads : get q' m.ends ≡ some (k', id')).
              Link-start w t i spends start wired listen net j q k id q' k' id' m kept from there
                leads in
            let peers_apart : Distinct m.node.peers =
              (let (m1, there1, on1) = listen j q k id from in
                let (m2, e2, ends2, took2) = kept k m1 there1 in
                let is : m2 ≡ m = ground (arith, e2, there) in
                let same : m.node.peers ≡ m1.node.peers =
                  subst (λ (m : Member w). m.node.peers ≡ m1.node.peers) is
                    (Took-peers w t m1.node m2.node took2) in
                subst Distinct (sym same) (distinct k m1 there1)) in
            let others = other_peers-Distinct w id m.node.peers peers_apart in
            let ready =
              at-Ready net net' k m (other_peers w id m.node.peers) links
                (λ q' k' id' link on'.
                  Listens-busy w net k id k' id' m n there
                    (λ same.
                      let link' : Link w start k q' k id =
                        subst (λ (x : ℕ). Link w start k q' x id) (sym same.0)
                          (subst (λ (y : ℕ). Link w start k q' k' y) (sym same.1) link) in
                      let is = (wired j q k q' k id from link').0 in
                      free' (
                        subst (λ (x : ℕ). Holds w t i spends start wired listen distinct net x) is
                          held))
                    on')
                free' open_ in
            let (through, open') =
              push_all-Answers w t i spends start wired listen distinct fuel (deliver-Answers fuel)
                m.ends k (other_peers w id m.node.peers) net' after o links
                (Kept-trans w t i spends start net net' kept first)
                (IsOpen-busy w t i spends start wired listen distinct net j q k id m n first from
                  held there open_)
                holds others ready pushed in
            (
              finish-silent w k id a o after left ended through,
              IsOpen-finish w t i spends start wired listen distinct k id a o after left ended
                  open',
            )
      ]

  IsOpen-start : IsOpen w t i spends start wired listen distinct start
  IsOpen-start j p k id link = inr (listen j p k id link)

  Listens-put :
      (net : Network w) (k h hd : ℕ) (m : Member w) (n : Node w)
      → get k net ≡ some m
      → Listens w net h hd
      → Listens w (put k (record m { node = n }) net) h hd
  Listens-put net k h hd m n e (m0, e0, on) = elim (number_key.discrete h k) [
    | no away ↦ (m0, ground (arith, get-put h k (record m { node = n }) net, away), on)
    | yes same ↦
        let is : m0 ≡ m = ground (arith, e, e0, same) in
        (
          record m { node = n },
          rw same (get-put_self k (record m { node = n }) net),
          subst (λ (m : Member w). is_some (get hd m.listening) ≡ true) is on,
        )
  ]

  -- A transaction has an input, no two connections lead to one, a task listens wherever a
  -- connection leads, and no node has a peer twice. Then its submission returns: fuel for one more
  -- than the tasks that listen gives a result, and the result is not that a request waits for ever.
  pub submit-returns :
      (k : ℕ) (m : Member w)
      → get k start ≡ some m
      → (r : Result (Error w) Pushed) × (left : Network w) × (submit w t
            (listeners w start + 1)
            start
            k
            m
          ≡ some (r, left))
        × (r ≢ ok blocked)
  unfolding submit
  submit-returns k m e =
      let fuel = listeners w start + 1 in
      elim (Result-cases (submit_transaction w m.node t)) [
        | inr (x, bad) ↦ (err x, start, rw (submit, bad) refl, λ z. ground (arith, z))
        | inl ((n, ps), good) ↦
            let (r, left, returns, fewer) = submit-ends w t start k m e in
            let m' : Member w = record m { node = n } in
            let net' = put k m' start in
            let (pool, taken, now, peers) = submit_transaction-pool w t i spends m.node n good in
            let kept : Kept w t start net' =
              Kept-put w t start k m m' e refl (inr (pool, taken, now)) in
            let links = λ (q k' id' : ℕ) (leads : get q m.ends ≡ some (k', id')).
              let link : Link w start k q k' id' = (m, e, leads) in link in
            let open_ : IsOpen w t i spends start wired listen distinct net' =
              λ j p k' id' link. inr (Listens-put start k k' id' m n e (listen j p k' id' link)) in
            let holds = put-Holds start k m' m.node.mempool (rw now taken) in
            let apart : Distinct ps = subst Distinct (sym peers) (distinct k m e) in
            let ready =
              at-Ready start net' k m ps links
                (λ q k' id' link on. Listens-put start k k' id' m n e on)
                (not-Holds start k m pool e taken) IsOpen-start in
            elim (Option-cases (push_all w (deliver w t fuel) m.ends ps net')) [
              | inl out ↦ absurd (ground (arith, returns, good, out))
              | inr ((o, left'), pushed) ↦
                  let (through, open') =
                    push_all-Answers w t i spends start wired listen distinct fuel
                      (deliver-Answers fuel) m.ends k ps net' left' o links kept open_ holds apart
                      ready pushed in
                  (ok o, left', rw (submit, good, pushed) refl, λ z. through (ground (arith, z)))
            ]
      ]
