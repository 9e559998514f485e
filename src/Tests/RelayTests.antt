-- ===== src/Tests/RelayTests.antt =====
-- The theorems on the relaying of a transaction, in a line and in a ring of three nodes.
use ddk.Prelude.{
  Option, map, length, unwrap_or, ℕ, ◌+◌, ◌%◌, ◌≤◌, ◌<◌, ◌⊎◌, inl, inr, arith, is_some, true, sym,
  ◌≡◌, ◌≢◌, refl, none, some, List, [], ◌∷◌, Result, ok, ℕ_discrete,
}
use mathlib.Core.Path.{subst}
use ddk.Table.{Table, get, put, delete}
use ddk.Table.Total.{total}
use ddk.Types.{
  out_point_key, number_key, regular, AuthorizedTransaction, OutPoint-discrete, get_value, txid,
}
use ddk.State.{contains, fill_transaction, validate_filled_transaction, check_addresses}
use ddk.Mempool.{insert, mark_inputs}
use ddk.Node.{Error, validate_transaction, submit_transaction}
use ddk.Node.Requests.{other_peers, peer_listen}
use ddk.Node.Relay.{
  Pushed, delivered, failed, blocked, Member, Network, push_outcome, answer, resume, push_all,
  finish, deliver, submit,
}
use ddk.Node.Relay.Keeps.{Kept, submit-Kept}
use ddk.Node.Relay.Frame.{Link, Listens, IsWired}
use ddk.Node.Relay.Ready.{Distinct}
use ddk.Node.Relay.Returns.{submit-returns}
use ddk.Node.Relay.Reaches.{here, hop}
use ddk.Node.Relay.Settled.{SettledAt, submit-Settled}
use ddk.Node.Relay.Cycles.{submit-cycle}
use ddk.Tests.Data.{chain, coin}
use ddk.Tests.NodeData.{world, node, payment}

runs : Unit {0}
unfolding ℕ_discrete get put delete contains fill_transaction validate_filled_transaction
    check_addresses insert mark_inputs validate_transaction submit_transaction other_peers
    peer_listen push_outcome answer resume push_all finish deliver submit OutPoint-discrete
    get_value txid
runs = tt

abbrev member : List ℕ → Table ℕ (ℕ × ℕ) → Member world
member peers ends = record {
  node = record node { peers = peers };
  ends = ends;
  listening = (1, tt) ∷ (2, tt) ∷ [];
}

-- Connection 1 leads to the next node, and connection 2 to the one before.
abbrev line : Network world
line =
    (0, member (1 ∷ []) ((1, (1, 2)) ∷ []))
    ∷ (1, member (1 ∷ 2 ∷ []) ((1, (2, 2)) ∷ (2, (0, 1)) ∷ []))
    ∷ (2, member (2 ∷ []) ((2, (1, 1)) ∷ []))
    ∷ []

abbrev first : Member world
first = member (1 ∷ 2 ∷ []) ((1, (1, 2)) ∷ (2, (2, 1)) ∷ [])

abbrev second : Member world
second = member (1 ∷ 2 ∷ []) ((1, (2, 2)) ∷ (2, (0, 1)) ∷ [])

abbrev third : Member world
third = member (1 ∷ 2 ∷ []) ((1, (0, 2)) ∷ (2, (1, 1)) ∷ [])

abbrev ring : Network world
ring = (0, first) ∷ (1, second) ∷ (2, third) ∷ []

-- What a submission comes to, and the pools and the tasks that it leaves.
abbrev seen :
    Option (Result (Error world) Pushed × Network world)
    → Option (Result (Error world) Pushed × List (ℕ × ℕ))
seen none = none
seen (some (r, net)) = some (
  r,
  map (λ (e : ℕ × Member world). (length e.1.node.mempool.transactions, length e.1.listening)) net,
)

-- In a line every node takes the transaction.
line-delivered :
    seen (submit world payment 7 line 0 (member (1 ∷ []) ((1, (1, 2)) ∷ [])))
    ≡ some (ok delivered, (1, 2) ∷ (1, 2) ∷ (1, 2) ∷ [])
unfolding runs
line-delivered = refl

-- In a ring too, but the submission fails, and one task of each node ends.
ring-failed :
    seen (submit world payment 7 ring 0 first) ≡ some (ok failed, (1, 1) ∷ (1, 1) ∷ (1, 1) ∷ [])
unfolding runs
ring-failed = refl

abbrev second_payment : AuthorizedTransaction chain ℕ
second_payment = record {
  transaction = record { inputs = regular 8 1 ∷ []; outputs = coin 9 20 ∷ [] };
  authorizations = 6 ∷ [];
}

abbrev member_of : ℕ → Network world → Member world
member_of k net = unwrap_or (get k net) first

-- The next submission in the ring is not answered: the task that ended does not listen.
ring-blocked :
    elim (submit world payment 7 ring 0 first) [
      | none ↦ none
      | some (_, net) ↦ seen (submit world second_payment 7 net 0 (member_of 0 net))
    ]
    ≡ some (ok blocked, (2, 1) ∷ (1, 1) ∷ (1, 1) ∷ [])
unfolding runs
ring-blocked = refl

-- The nodes of the ring.
ring-nodes :
    (j : ℕ) (m : Member world)
    → get j ring ≡ some m
    → ((j ≡ 0) × (first ≡ m)) ⊎ ((j ≡ 1) × (second ≡ m)) ⊎ ((j ≡ 2) × (third ≡ m))
unfolding get
ring-nodes j m e = elim (ℕ_discrete j 0) [
  | yes here_ ↦ inl (here_, ground (arith, e))
  | no a ↦ elim (ℕ_discrete j 1) [
    | yes here_ ↦ inr (inl (here_, ground (arith, e)))
    | no b ↦ elim (ℕ_discrete j 2) [
      | yes here_ ↦ inr (inr (here_, ground (arith, e)))
      | no c ↦ absurd (ground (arith, e))
    ]
  ]
]

-- A connection of two, which lead to the ids 2 and 1.
ends-two :
    (a b p k id : ℕ)
    → get {V = ℕ × ℕ} p ((1, (a, 2)) ∷ (2, (b, 1)) ∷ []) ≡ some (k, id)
    → ((p ≡ 1) × (k ≡ a) × (id ≡ 2)) ⊎ ((p ≡ 2) × (k ≡ b) × (id ≡ 1))
unfolding get
ends-two a b p k id e = elim (ℕ_discrete p 1) [
  | yes one ↦ inl (one, ground (arith, e), ground (arith, e))
  | no x ↦ elim (ℕ_discrete p 2) [
    | yes two ↦ inr (two, ground (arith, e), ground (arith, e))
    | no y ↦ absurd (ground (arith, e))
  ]
]

-- The connection 1 of a node of the ring leads to the next node, and 2 to the one before.
ring-Link :
    (j p k id : ℕ)
    → Link world ring j p k id
    → (j < 3) × (1 ≤ p) × (p < 3) × (id + p ≡ 3) × (k ≡ (j + p) % 3)
ring-Link j p k id (m, e, leads) = elim (ring-nodes j m e) [
  | inl (at, is) ↦
      elim (ends-two 1 2 p k id
        (subst (λ (m : Member world). get p m.ends ≡ some (k, id)) (sym is) leads)) [
          | inl (one, k1, id2) ↦ omega arith
          | inr (two, k2, id1) ↦ omega arith
        ]
  | inr (inl (at, is)) ↦
      elim (ends-two 2 0 p k id
        (subst (λ (m : Member world). get p m.ends ≡ some (k, id)) (sym is) leads)) [
          | inl (one, k1, id2) ↦ omega arith
          | inr (two, k2, id1) ↦ omega arith
        ]
  | inr (inr (at, is)) ↦
      elim (ends-two 0 1 p k id
        (subst (λ (m : Member world). get p m.ends ≡ some (k, id)) (sym is) leads)) [
          | inl (one, k1, id2) ↦ omega arith
          | inr (two, k2, id1) ↦ omega arith
        ]
]

-- In the ring no two connections lead to one.
ring-IsWired : IsWired world ring
ring-IsWired j p j' p' k id a b =
    let x = ring-Link j p k id a in
    let y = ring-Link j' p' k id b in (omega (arith, x, y), omega (arith, x, y))

ring-listen : (j p k id : ℕ) → Link world ring j p k id → Listens world ring k id
unfolding get ℕ_discrete
ring-listen j p k id link =
    let (low, one, few, sum_, place) = ring-Link j p k id link in
    elim (ℕ_discrete k 0) [
      | yes zero_ ↦ rw zero_ (first, refl, listening id (omega arith))
      | no x ↦ elim (ℕ_discrete k 1) [
        | yes one_ ↦ rw one_ (second, refl, listening id (omega arith))
        | no y ↦ let two_ : k ≡ 2 = omega arith in rw two_ (third, refl, listening id (omega arith))
      ]
    ]
  where
    listening :
        (id : ℕ)
        → (id ≡ 1) ⊎ (id ≡ 2)
        → is_some (get {V = Unit {0}} id ((1, tt) ∷ (2, tt) ∷ [])) ≡ true
    listening id (inl e) = rw e refl
    listening id (inr e) = rw e refl

ring-Distinct : (j : ℕ) (m : Member world) → get j ring ≡ some m → Distinct m.node.peers
ring-Distinct j m e = elim (ring-nodes j m e) [
  | inl (at, is) ↦ subst (λ (m : Member world). Distinct m.node.peers) is two
  | inr (inl (at, is)) ↦ subst (λ (m : Member world). Distinct m.node.peers) is two
  | inr (inr (at, is)) ↦ subst (λ (m : Member world). Distinct m.node.peers) is two
]
  where
    two : Distinct (1 ∷ 2 ∷ [])
    two = (((λ e. ground (arith, e)), tt), (tt, tt))

submit-returns_example :
    (r : Result (Error world) Pushed) × (left : Network world) × (submit world payment 7 ring 0
        first
      ≡ some (r, left))
    × (r ≢ ok blocked)
unfolding runs total
submit-returns_example =
    submit-returns world payment (regular 7 0) refl ring ring-IsWired ring-listen ring-Distinct 0
      first refl

abbrev after : Network world → Option (Result (Error world) Pushed × Network world) → Network world
after net none = net
after net (some (_, left)) = left

abbrev line_after : Network world
unfolding runs
line_after = after line (submit world payment 7 line 0 (member_of 0 line))

abbrev ring_after : Network world
unfolding runs
ring_after = after ring (submit world payment 7 ring 0 first)

submit-Kept_example : Kept world payment ring ring_after
unfolding runs
submit-Kept_example =
    submit-Kept world payment (regular 7 0) refl 7 ring ring_after 0 first {r = ok failed} refl refl

submit-Settled_example : SettledAt world payment line_after 2
unfolding runs
submit-Settled_example =
    submit-Settled world payment (regular 7 0) 2 7 line line_after 0 (member_of 0 line) 1 1 2 refl
      refl refl refl refl (hop (member_of 1 line) 1 1 2 2 refl refl refl refl here)

submit-cycle_example : ¬ (submit world payment 7 ring 0 first ≡ some (ok delivered, ring_after))
unfolding runs
submit-cycle_example =
    submit-cycle world payment (regular 7 0) 7 ring ring_after 0 first 1 1 2 refl refl refl refl
      (hop second 1 1 2 2 refl refl refl refl (hop third 1 1 0 2 refl refl refl refl here))
