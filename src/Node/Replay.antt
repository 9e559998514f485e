-- ===== src/Node/Replay.antt =====
-- Blocks that one node has submitted, and another that starts with the same ledger.
use ddk.Prelude.{
  ℕ, suc, ◌+◌, ◌≤◌, ◌<◌, ◌≡◌, refl, sym, ap, ◌∙◌, Option, none, some, List, [], ◌∷◌, length, arith,
  ok, err, Result-cases, inl, inr, u32_mod, add32, ltb, true,
}
use mathlib.Core.Path.{subst}
use ddk.Types.{Chain, Body, Header}
use ddk.Types.Withdrawals.{TwoWayPegData, MainTransaction}
use ddk.State.{State}
use ddk.Mempool.{Mempool}
use ddk.Archive.{Archive, get_header, get_body, get_height}
use ddk.Archive.Linked.{IsChain}
use ddk.Node.{World, Node, apply_block, submit_block, remove_transactions}
use ddk.Node.Blocks.{Applied, submit_block-Applied, submit_block-IsChain}
use ddk.Node.Requests.{peer_listen}
use ddk.Node.Sync.{sync_peer, announced, next_request, take_response}
use ddk.Node.Follow.{submit_block-reads}

module _ {c : Chain} {A : Type 0} (w : World c A) where
  -- Two nodes with the same state, custom state and archive.
  abbrev pub SameLedger : Node w → Node w → Type 0
  SameLedger n m = (n.state ≡ m.state) × (n.custom_state ≡ m.custom_state) × (n.archive ≡ m.archive)

  -- A block is applied whatever is in the pool, and whoever the peers are.
  Applied-apply_block :
      (m m' : Node w) (data' : TwoWayPegData c) (header : Header) (body : Body c A)
      (pool : Mempool c A) (peers : List ℕ)
      → Applied w m data' header body m'
      → apply_block w (record m { mempool = pool; peers = peers }) data' header body
        ≡ ok (record m' { mempool = remove_transactions w pool body.transactions; peers = peers })
  unfolding apply_block
  Applied-apply_block m m' data' header body pool peers a =
      rw a.accepted
        (rw a.approved (rw a.stored (rw a.pegged (rw a.is_appended (rw a.is_put refl)))))

  rebuild : (n : Node w) → State c → w.custom.Store → Archive c A → Node w
  rebuild n s x a = record n { state = s; custom_state = x; archive = a }

  SameLedger-eq :
      (n m : Node w) → SameLedger n m → record m { mempool = n.mempool; peers = n.peers } ≡ n
  unfolding rebuild
  SameLedger-eq n m same =
      ap (λ s. rebuild n s m.custom_state m.archive) (sym same.0)
      ∙ ap (λ x. rebuild n n.state x m.archive) (sym same.1)
      ∙ ap (λ a. rebuild n n.state n.custom_state a) (sym same.2)

  -- A block that a node accepts is accepted by every node with the same ledger, which then has the
  -- same ledger again.
  abbrev pub Accepts : Node w → Node w → Header → Body c A → Type 0
  Accepts n m' header body =
      (n' : Node w) × (out : Option (MainTransaction c)) × (submit_block w n header body
        ≡ ok (n', out))
      × SameLedger n' m'

  pub submit_block-SameLedger :
      (n m m' : Node w) (header : Header) (body : Body c A) {out : Option (MainTransaction c)}
      → SameLedger n m
      → submit_block w m header body ≡ ok (m', out)
      → Accepts n m' header body
  unfolding submit_block
  submit_block-SameLedger n m m' header body same h =
      let (data', told, a) = submit_block-Applied w m m' header body h in
      let applied = Applied-apply_block m m' data' header body n.mempool n.peers a in
      subst (λ (x : Node w). Accepts x m' header body) (SameLedger-eq n m same)
        (
          record m' {
            mempool = remove_transactions w n.mempool body.transactions;
            peers = n.peers;
          },
          elim m'.state.pending_withdrawal_bundle [
            | none ↦ none
            | some bundle ↦ some bundle.transaction
          ],
          rw told (rw applied refl),
          (refl, refl, refl),
        )

  -- Blocks submitted in turn, with none if one is refused.
  unfoldable pub submit_all : Node w → List (Header × Body c A) → Option (Node w)
  unfolding submit_block
  submit_all n [] = some n
  submit_all n ((header, body) ∷ bs) = elim (submit_block w n header body) [
    | ok (n', _) ↦ submit_all n' bs
    | err _ ↦ none
  ]

  -- What stays readable after more blocks, and how high the archive is.
  pub submit_all-reads :
      (bs : List (Header × Body c A)) (height : ℕ) (m peer : Node w)
      → IsChain w.codec height m.archive
      → height + length bs < u32_mod
      → submit_all m bs ≡ some peer
      → IsChain w.codec (height + length bs) peer.archive
        × ((k : ℕ)
            → k ≤ height
            → (get_header peer.archive k ≡ get_header m.archive k)
              × (get_body peer.archive k ≡ get_body m.archive k))
  unfolding submit_all
  submit_all-reads [] height m peer chain bound h =
      let same : m ≡ peer = ground arith in
      let level : height + 0 ≡ height = omega arith in
      rw level (
        subst
          (λ (x : Node w).
            IsChain w.codec height x.archive
            × ((k : ℕ)
                → k ≤ height
                → (get_header x.archive k ≡ get_header m.archive k)
                  × (get_body x.archive k ≡ get_body m.archive k)))
          same (chain, λ k low. (refl, refl)))
  submit_all-reads ((header, body) ∷ bs) height m peer chain bound h =
      elim (Result-cases (submit_block w m header body)) [
        | inr (e, refused) ↦ absurd (ground arith)
        | inl ((m', out), accepted) ↦
            let grown =
              submit_block-IsChain w height m m' header body chain (omega arith) accepted in
            let (chain', reads) =
              submit_all-reads bs (height + 1) m' peer grown.2 (omega arith)
                (rw (accepted, submit_all) at h) in
            let level : height + suc (length bs) ≡ height + 1 + length bs = omega arith in
            (
              rw level chain',
              λ k low.
                  let one =
                    submit_block-reads w height m m' header body chain (omega arith) accepted k in
                  ground (arith, reads k, one),
            )
      ]

  -- One round with a peer that has the next block, which the node accepts.
  pub sync_peer-next :
      (height top : ℕ) (n n' peer : Node w) (header : Header) (body : Body c A)
      {out : Option (MainTransaction c)}
      → get_height n.archive ≡ height
      → get_height peer.archive ≡ top
      → height < top
      → top < u32_mod
      → get_header peer.archive (height + 1) ≡ some header
      → get_body peer.archive (height + 1) ≡ some body
      → submit_block w n header body ≡ ok (n', out)
      → sync_peer w n (some (announced w peer)) (λ message. (peer_listen w peer 0 message).response)
        ≡ some n'
  unfolding sync_peer announced next_request take_response peer_listen
  sync_peer-next height top n n' peer header body at_node at_peer low bound header_there body_there
        accepted =
      let behind : ltb height top ≡ true = ground arith in
      let wrap : add32 height 1 ≡ height + 1 = omega arith in
      rw (at_node, at_peer, behind, wrap, header_there, body_there)
        (rw (accepted, take_response) refl)
