-- ===== src/Node/Relay/Ends.antt =====
-- The relaying of a transaction ends: a request that is handled takes up a task that listens.
use ddk.Prelude.{
  ℕ, zero, suc, ◌+◌, ◌≤◌, ◌<◌, ◌≡◌, refl, Option, some, List, [], ◌∷◌, Result, ok, err, true,
  is_some, arith, length, inl, inr, Option-cases, Bool-cases, Result-cases,
}
use ddk.Table.{Table, get, put, delete}
use ddk.Table.Total.{total, total-put_over}
use ddk.Types.{Chain, AuthorizedTransaction, number_key}
use ddk.Node.{World, Error, Node, submit_transaction}
use ddk.Node.Requests.{push_transaction, peer_listen}
use ddk.Node.Relay.{
  Answer, Pushed, delivered, failed, blocked, push_outcome, Pushed-cases, Member, Network, answer,
  resume, busy, push_all, finish, deliver, submit,
}

length-put : (i : ℕ) (t : Table ℕ (Unit {0})) → length (put i tt t) ≤ length t + 1
unfolding put
length-put i [] = omega arith
length-put i ((j, u) ∷ t) = ground (arith, length-put i t)

length-delete-le : (i : ℕ) (t : Table ℕ (Unit {0})) → length (delete i t) ≤ length t
unfolding delete
length-delete-le i [] = omega arith
length-delete-le i ((j, u) ∷ t) = ground (arith, length-delete-le i t)

length-delete :
    (i : ℕ) (t : Table ℕ (Unit {0})) → is_some (get i t) ≡ true → length (delete i t) + 1 ≤ length t
unfolding delete get
length-delete i [] h = cc
length-delete i ((j, u) ∷ t) h = ground (arith, length-delete i t, length-delete-le i t)

module _ {c : Chain} {A : Type 0} (w : World c A) where
  -- the tasks that wait for a request
  abbrev pub listeners : Network w → ℕ
  listeners = total (λ m. length m.listening)

  listeners-resume :
      (k id : ℕ) (net : Network w) → listeners (resume w k id net) ≤ listeners net + 1
  unfolding resume
  listeners-resume k id net = elim (Option-cases (get k net)) [
    | inl gone ↦ rw (gone, resume) (omega arith)
    | inr (m, e) ↦
        rw (e, resume)
          (omega (
            arith,
            total-put_over (λ (m : Member w). length m.listening) k
                (record m { listening = put id tt m.listening }) m net e,
            length-put id m.listening,
          ))
  ]

  listeners-busy :
      (k id : ℕ) (m : Member w) (n : Node w) (net : Network w)
      → get k net ≡ some m
      → is_some (get id m.listening) ≡ true
      → listeners (put k (busy w m id n) net) + 1 ≤ listeners net
  listeners-busy k id m n net e free = omega (
    arith,
    total-put_over (λ (m : Member w). length m.listening) k (busy w m id n) m net e,
    length-delete id m.listening free,
  )

  module _ {R : Type 0} where
    -- A result is given, and no more tasks listen than before.
    pub record Ended (net : Network w) (r : Option (R × Network w)) : Type 0 where
      pub result : R
      pub left : Network w
      pub returns : r ≡ some (result, left)
      pub fewer : listeners left ≤ listeners net

  push_all-Ended :
      (bound : ℕ) (send : Network w → ℕ → ℕ → Option (Answer × Network w))
      → ((net : Network w) (k id : ℕ) → listeners net ≤ bound → Ended net (send net k id))
      → (ends : Table ℕ (ℕ × ℕ)) (ps : List ℕ) (net : Network w) → listeners net ≤ bound
      → Ended net (push_all w send ends ps net)
  unfolding push_all
  push_all-Ended bound send sends ends [] net h = record {
    result = delivered;
    left = net;
    returns = refl;
    fewer = omega arith;
  }
  push_all-Ended bound send sends ends (p ∷ ps) net h = elim (Option-cases (get p ends)) [
    | inl gone ↦ record {
      result = failed;
      left = net;
      returns = rw (push_all, gone) refl;
      fewer = omega arith;
    }
    | inr ((k, id), e) ↦
        let sent = sends net k id h in
        let rest =
          push_all-Ended bound send sends ends ps sent.left (omega (arith, sent.fewer, h)) in
        elim (Pushed-cases (push_outcome sent.result)) [
          | inl d ↦ record {
            result = rest.result;
            left = rest.left;
            returns = rw (push_all, e, sent.returns, d) rest.returns;
            fewer = omega (arith, rest.fewer, sent.fewer);
          }
          | inr (inl d) ↦ record {
            result = failed;
            left = sent.left;
            returns = rw (push_all, e, sent.returns, d) refl;
            fewer = sent.fewer;
          }
          | inr (inr d) ↦ record {
            result = blocked;
            left = sent.left;
            returns = rw (push_all, e, sent.returns, d) refl;
            fewer = sent.fewer;
          }
        ]
  ]

  finish-fewer :
      (k id : ℕ) (a : Answer) (r : Pushed) (net : Network w)
      → listeners (finish w k id a (r, net)).1 ≤ listeners net + 1
  unfolding finish
  finish-fewer k id a delivered net = listeners-resume k id net
  finish-fewer k id a failed net = omega arith
  finish-fewer k id a blocked net = omega arith

  deliver-Ended :
      (t : AuthorizedTransaction c A) (fuel : ℕ) (net : Network w) (k id : ℕ)
      → listeners net < fuel
      → Ended net (deliver w t fuel net k id)
  unfolding deliver
  deliver-Ended t zero net k id h = absurd (omega arith)
  deliver-Ended t (suc fuel) net k id h = elim (Option-cases (get k net)) [
    | inl gone ↦ record {
      result = Answer.closed;
      left = net;
      returns = rw (deliver, gone) refl;
      fewer = omega arith;
    }
    | inr (m, e) ↦ elim (Bool-cases (is_some (get id m.listening))) [
      | inr deaf ↦ record {
        result = Answer.silent;
        left = net;
        returns = rw (deliver, e, deaf) refl;
        fewer = omega arith;
      }
      | inl free ↦
          let reply = peer_listen w m.node id (push_transaction t) in
          let net' = put k (busy w m id reply.node) net in
          let used = listeners-busy k id m reply.node net e free in
          elim (Result-cases reply.outcome) [
            | inr (x, bad) ↦ record {
              result = answer w reply.response;
              left = net';
              returns = rw (deliver, e, free, bad) refl;
              fewer = omega (arith, used);
            }
            | inl (u, good) ↦
                let rest =
                  push_all-Ended (listeners net') (deliver w t fuel)
                    (λ net0 k0 id0 below. deliver-Ended t fuel net0 k0 id0 (omega (arith, used)))
                    m.ends reply.pushed net' (omega arith) in
                let pair = finish w k id (answer w reply.response) (rest.result, rest.left) in
                record {
                  result = pair.0;
                  left = pair.1;
                  returns = rw (deliver, e, free, good, rest.returns) refl;
                  fewer = omega (
                    arith,
                    used,
                    rest.fewer,
                    finish-fewer k id (answer w reply.response) rest.result rest.left,
                  );
                }
          ]
    ]
  ]

  -- The submission of a transaction gives a result, and no more tasks listen afterwards than
  -- before: each request that is handled takes up a task that listens, so that fuel for one more
  -- than the tasks that listen in the network is enough.
  pub submit-ends :
      (t : AuthorizedTransaction c A) (net : Network w) (k : ℕ) (m : Member w)
      → get k net ≡ some m
      → (r : Result (Error w) Pushed) × (left : Network w) × (submit w t (listeners net + 1) net k m
          ≡ some (r, left))
        × (listeners left ≤ listeners net)
  unfolding submit
  submit-ends t net k m e = elim (Result-cases (submit_transaction w m.node t)) [
    | inr (x, bad) ↦ (err x, net, rw (submit, bad) refl, omega arith)
    | inl ((n, ps), good) ↦
        let net' = put k (record m { node = n }) net in
        let same =
          total-put_over (λ (m : Member w). length m.listening) k (record m { node = n }) m net e in
        let rest =
          push_all-Ended (listeners net) (deliver w t (listeners net + 1))
            (λ net0 k0 id0 below. deliver-Ended t (listeners net + 1) net0 k0 id0 (omega arith))
            m.ends ps net' (omega (arith, same)) in
        (
          ok rest.result,
          rest.left,
          rw (submit, good, rest.returns) refl,
          omega (arith, same, rest.fewer),
        )
  ]
