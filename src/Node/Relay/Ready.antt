-- ===== src/Node/Relay/Ready.antt =====
-- A node that pushes a transaction finds a task that listens at each of its peers.
use ddk.Prelude.{
  ℕ, ◌==◌, ◌≡◌, ◌≢◌, refl, sym, ap, ◌∙◌, ◌⊎◌, Option, some, List, [], ◌∷◌, All, true, arith, inl,
  inr, Bool-cases,
}
use mathlib.Core.Path.{subst}
use ddk.Table.{Table, get, put}
use ddk.Types.{Chain, OutPoint, AuthorizedTransaction, number_key, out_point_key}
use ddk.State.{contains}
use ddk.Node.{World, Node}
use ddk.Node.Requests.{other_peers}
use ddk.Node.Relay.{
  Answer, accepted, closed, silent, Pushed, delivered, failed, blocked, push_outcome, Member,
  Network, busy, push_all, finish, deliver,
}
use ddk.Node.Relay.Steps.{nowhere, stops, goes_on, push_all-Looped}
use ddk.Node.Relay.Frame.{
  Link, Listens, IsWired, Listens-busy, Listens-finish, HeldAt, HeldAt-Kept, deliver-Frame,
}
use ddk.Node.Relay.Keeps.{Keeps-Kept, Kept, Kept-trans, Kept-finish, deliver-Keeps}

-- No peer stands twice.
abbrev pub Distinct : List ℕ → Type 0
Distinct [] = Unit
Distinct (p ∷ ps) = All (λ q. p ≢ q) ps × Distinct ps

pub push_outcome-blocked : (a : Answer) → a ≢ silent → push_outcome a ≢ blocked
unfolding push_outcome
push_outcome-blocked accepted h e = ground arith
push_outcome-blocked Answer.rejected h e = ground arith
push_outcome-blocked closed h e = ground arith
push_outcome-blocked silent h e = h refl

module _ {c : Chain} {A : Type 0} (w : World c A) where
  other_peers-apart :
      (peer p : ℕ) (ps : List ℕ) → All (λ q. p ≢ q) ps → All (λ q. p ≢ q) (other_peers w peer ps)
  unfolding other_peers
  other_peers-apart peer p [] h = tt
  other_peers-apart peer p (q ∷ ps) h =
      let rest = other_peers-apart peer p ps h.1 in
      elim (Bool-cases (q == peer)) [ inl same ↦ rw same rest | inr other ↦ rw other (h.0, rest) ]

  pub other_peers-Distinct :
      (peer : ℕ) (ps : List ℕ) → Distinct ps → Distinct (other_peers w peer ps)
  unfolding other_peers
  other_peers-Distinct peer [] h = tt
  other_peers-Distinct peer (p ∷ ps) h =
      let rest = other_peers-Distinct peer ps h.1 in
      elim (Bool-cases (p == peer)) [
        | inl same ↦ rw same rest
        | inr other ↦ rw other (other_peers-apart peer p ps h.0, rest)
      ]

  pub finish-silent :
      (k id : ℕ) (a : Answer) (o : Pushed) (net left : Network w)
      → finish w k id accepted (o, net) ≡ (a, left)
      → o ≢ blocked
      → a ≢ silent
  unfolding finish
  finish-silent k id a delivered net left e h = ground (arith, e)
  finish-silent k id a failed net left e h = ground (arith, e)
  finish-silent k id a blocked net left e h = absurd (h refl)

module _ {c : Chain} {A : Type 0} (w : World c A) (t : AuthorizedTransaction c A) (i : OutPoint)
    (spends : contains i t.transaction.inputs ≡ true) (start : Network w) (wired : IsWired w start)
    (listen : (j p k id : ℕ) → Link w start j p k id → Listens w start k id)
    (distinct : (j : ℕ) (m : Member w) → get j start ≡ some m → Distinct m.node.peers) where
  -- A task listens wherever a node leads that does not hold the transaction.
  abbrev pub IsOpen : Network w → Type 0
  IsOpen net =
      (j p k id : ℕ)
      → Link w start j p k id
      → HeldAt w t i spends start wired listen net j ⊎ Listens w net k id

  abbrev pub Holds : Network w → ℕ → Type 0
  Holds = HeldAt w t i spends start wired listen

  pub IsOpen-busy :
      (net : Network w) (j q k id : ℕ) (m : Member w) (n : Node w)
      → Kept w t net (put k (busy w m id n) net)
      → Link w start j q k id
      → Holds net j
      → get k net ≡ some m
      → IsOpen net
      → IsOpen (put k (busy w m id n) net)
  IsOpen-busy net j q k id m n kept from held e open_ j' p' k' id' link =
      let keep = λ (x : ℕ). HeldAt-Kept w t i spends start wired listen x net _ kept in
      elim (open_ j' p' k' id' link) [
        | inl holds ↦ inl (keep j' holds)
        | inr on ↦ elim (number_key.discrete k k') [
          | no away ↦ inr (Listens-busy w net k id k' id' m n e (λ same. away same.0) on)
          | yes here_ ↦ elim (number_key.discrete id id') [
            | no away ↦ inr (Listens-busy w net k id k' id' m n e (λ same. away same.1) on)
            | yes same ↦
                let is : j ≡ j' = (wired j q j' p' k id from (rw (here_, same) link)).0 in
                inl (keep j' (subst (λ (x : ℕ). Holds net x) is held))
          ]
        ]
      ]

  pub IsOpen-finish :
      (k id : ℕ) (a : Answer) (o : Pushed) (net left : Network w)
      → finish w k id accepted (o, net) ≡ (a, left)
      → IsOpen net
      → IsOpen left
  IsOpen-finish k id a o net left e open_ j p k' id' link =
      let same : (finish w k id accepted (o, net)).1 ≡ left =
        ap (λ (r : Answer × Network w). r.1) e in
      let kept : Kept w t net left =
        subst (Kept w t net) same (Kept-finish w t i spends k id accepted o net) in
      elim (open_ j p k' id' link) [
        | inl holds ↦ inl (HeldAt-Kept w t i spends start wired listen j net left kept holds)
        | inr on ↦ inr (Listens-finish w k id k' id' accepted a o net left e on)
      ]

  -- What a request comes to that a node sends which holds the transaction, to a task that listens.
  abbrev pub Answers : (Network w → ℕ → ℕ → Option (Answer × Network w)) → Type 0
  Answers send =
      (net left : Network w) (j q k id : ℕ) (a : Answer)
      → Kept w t start net
      → IsOpen net
      → Link w start j q k id
      → Holds net j
      → Listens w net k id
      → send net k id ≡ some (a, left)
      → (a ≢ silent) × IsOpen left

  -- Each of the peers has a task that listens.
  abbrev pub Ready : Network w → Table ℕ (ℕ × ℕ) → List ℕ → Type 0
  Ready net ends ps = All (λ q. (k id : ℕ) → get q ends ≡ some (k, id) → Listens w net k id) ps

  Ready-after :
      (fuel : ℕ) (net net' : Network w) (ends : Table ℕ (ℕ × ℕ)) (j q k id : ℕ) (a : Answer)
      (ps : List ℕ)
      → ((q k id : ℕ) → get q ends ≡ some (k, id) → Link w start j q k id)
      → Kept w t start net
      → Holds net j
      → get q ends ≡ some (k, id)
      → deliver w t fuel net k id ≡ some (a, net')
      → All (λ p. q ≢ p) ps
      → Ready net ends ps
      → Ready net' ends ps
  Ready-after fuel net net' ends j q k id a [] links kept held e sent apart ready = tt
  Ready-after fuel net net' ends j q k id a (p ∷ ps) links kept held e sent apart ready = (
    (λ h hd leads.
        deliver-Frame w t i spends start wired listen j p h hd (links p h hd leads) fuel net net' j
          q k id a kept (links q k id e)
          (λ same.
            apart.0
              (wired j q j p h hd (rw (← same.0, ← same.1) (links q k id e))
                (links p h hd leads)).1)
          held sent (ready.0 h hd leads)),
    Ready-after fuel net net' ends j q k id a ps links kept held e sent apart.1 ready.1,
  )

  pub push_all-Answers :
      (fuel : ℕ)
      → Answers (deliver w t fuel)
      → (ends : Table ℕ (ℕ × ℕ)) (j : ℕ) (ps : List ℕ) (net left : Network w) (o : Pushed)
      → ((q k id : ℕ) → get q ends ≡ some (k, id) → Link w start j q k id)
      → Kept w t start net
      → IsOpen net
      → Holds net j
      → Distinct ps
      → Ready net ends ps
      → push_all w (deliver w t fuel) ends ps net ≡ some (o, left)
      → (o ≢ blocked) × IsOpen left
  unfolding push_all
  push_all-Answers fuel answers ends j [] net left o links kept open_ held apart ready e =
      let is : net ≡ left = ground (arith, e) in (ground (arith, e), subst IsOpen is open_)
  push_all-Answers fuel answers ends j (q ∷ ps) net left o links kept open_ held apart ready e =
      elim (push_all-Looped w (deliver w t fuel) ends q ps net o left e) [
        | nowhere x same ↦ (ground (arith, x), subst IsOpen (sym same) open_)
        | stops k id a there sent x ↦
            let (heard, open') =
              answers net left j q k id a kept open_ (links q k id there) held (ready.0 k id there)
                sent in
            ((λ z. push_outcome-blocked a heard (sym x ∙ z)), open')
        | goes_on k id a net' there sent d rest ↦
            let (heard, open') =
              answers net net' j q k id a kept open_ (links q k id there) held (ready.0 k id there)
                sent in
            let kept' =
              Keeps-Kept w t i spends net net' _ a (deliver-Keeps w t i spends fuel net k id)
                sent in
            push_all-Answers fuel answers ends j ps net' left o links
              (Kept-trans w t i spends start net net' kept kept') open'
              (HeldAt-Kept w t i spends start wired listen j net net' kept' held) apart.1
              (Ready-after fuel net net' ends j q k id a ps links kept held there sent apart.0
                ready.1)
              rest
      ]
