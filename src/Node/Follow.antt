-- ===== src/Node/Follow.antt =====
-- What synchronization copies: block by block, the archive of the peer.
use ddk.Prelude.{
  [], ◌∷◌, ℕ, zero, suc, ◌+◌, ◌≤◌, ◌<◌, ◌≡◌, Option, some, Option-cases, inl, inr, arith, ltb,
  ltb→lt, not-ltb→le, if◌then◌else◌, ◌==◌, add32, ok, Result-cases, u32_mod, Bool-cases, sym, ◌∙◌,
}
use Prim.Native.Nat.{min}
use mathlib.Core.Path.{subst}
use ddk.Table.Laws.{get-put}
use ddk.Types.{Chain, Body, Header, header_hash, number_key}
use ddk.Types.Withdrawals.{MainTransaction}
use ddk.Archive.{Archive, get_header, get_body}
use ddk.Archive.Linked.{IsChain, get_height-IsChain, append_header-ok}
use ddk.Archive.Store.{put_body-ok}
use ddk.Node.{World, Node, submit_block}
use ddk.Node.Blocks.{submit_block-Applied, submit_block-IsChain}
use ddk.Node.Requests.{block, peer_listen}
use ddk.Node.Sync.{
  sync_peer, sync_round, seen, sync_round-sync_peer, sync_rounds, announced, next_request,
  take_response,
}

module _ {c : Chain} {A : Type 0} (w : World c A) where
  -- What can be read of the archive after a block.
  pub submit_block-reads :
      (height : ℕ) (n n' : Node w) (header : Header) (body : Body c A)
      {out : Option (MainTransaction c)}
      → IsChain w.codec height n.archive
      → height + 1 < u32_mod
      → submit_block w n header body ≡ ok (n', out)
      → (k : ℕ)
      → (get_header n'.archive k
          ≡ (if k == height + 1 then some header else get_header n.archive k))
        × (get_body n'.archive k ≡ (if k == height + 1 then some body else get_body n.archive k))
  unfolding get_header get_body
  submit_block-reads height n n' header body chain bound h k =
      let (data', told, a) = submit_block-Applied w n n' header body h in
      let (prev, headers, index, bodies) =
        append_header-ok w.codec height n.archive a.appended header chain bound a.is_appended in
      let (at, found, root, reads, same_headers, same_index) =
        put_body-ok w.codec a.appended n'.archive header body a.is_put in
      let first : at ≡ height + 1 = ground (
        arith,
        index,
        found,
        get-put (header_hash w.codec header) (header_hash w.codec header) (height + 1)
            n.archive.hash_to_height,
      ) in
      (ground (arith, get-put k (height + 1) header n.archive.headers), ground (arith, reads k))

  -- Two archives have the same headers and bodies up to a height.
  abbrev pub Agrees : ℕ → Archive c A → Archive c A → Type 0
  Agrees height a b =
      (h : ℕ)
      → 1 ≤ h
      → h ≤ height
      → (get_header a h ≡ get_header b h) × (get_body a h ≡ get_body b h)

  -- An archive that is a chain of so many headers, each with its body.
  pub record IsFull (height : ℕ) (a : Archive c A) : Type 0 where
    pub chain : IsChain w.codec height a
    pub bodies : (h : ℕ) → 1 ≤ h → h ≤ height → (b : Body c A) × (get_body a h ≡ some b)

  -- A block of the peer, taken at the height above the node's.
  take_response-Agrees :
      (height : ℕ) (n n' : Node w) (peer : Archive c A) (header : Header) (body : Body c A)
      → IsChain w.codec height n.archive
      → height + 1 < u32_mod
      → Agrees height n.archive peer
      → get_header peer (height + 1) ≡ some header
      → get_body peer (height + 1) ≡ some body
      → take_response w n (some (block header body)) ≡ some n'
      → IsChain w.codec (height + 1) n'.archive × Agrees (height + 1) n'.archive peer
  unfolding take_response
  take_response-Agrees height n n' peer header body chain bound agrees header_there body_there
        taken =
      elim (Result-cases (submit_block w n header body)) [
        | inr (e, refused) ↦ absurd (ground arith)
        | inl ((m, out), accepted) ↦
            let same : m ≡ n' = ground arith in
            let grown = (submit_block-IsChain w height n m header body chain bound accepted).2 in
            subst
              (λ (x : Node w).
                IsChain w.codec (height + 1) x.archive × Agrees (height + 1) x.archive peer)
              same
              (
                grown,
                λ h low high.
                    let reads = submit_block-reads height n m header body chain bound accepted h in
                    ground (arith, agrees h low),
              )
      ]

  sync_peer-Agrees :
      (top height : ℕ) (peer n n' : Node w)
      → IsFull top peer.archive
      → top < u32_mod
      → height ≤ top
      → IsChain w.codec height n.archive
      → Agrees height n.archive peer.archive
      → sync_peer w n (some (announced w peer)) (λ message. (peer_listen w peer 0 message).response)
        ≡ some n'
      → IsChain w.codec (min (height + 1) top) n'.archive
        × Agrees (min (height + 1) top) n'.archive peer.archive
  unfolding sync_peer announced next_request peer_listen get_header
  sync_peer-Agrees top height peer n n' full bound below chain agrees h =
      let at_node = get_height-IsChain w.codec height n.archive chain in
      let at_peer = get_height-IsChain w.codec top peer.archive full.chain in
      elim (Bool-cases (ltb height top)) [
        | inl behind ↦
            let low = ltb→lt height top behind in
            let (header, header_there) =
              full.chain.present (height + 1) (omega arith) (omega arith) in
            let (body, body_there) = full.bodies (height + 1) (omega arith) (omega arith) in
            let wrap : add32 height 1 ≡ height + 1 = omega arith in
            let reached : min (height + 1) top ≡ height + 1 = omega arith in
            let there : get_header peer.archive (height + 1) ≡ some header = header_there in
            let taken : take_response w n (some (block header body)) ≡ some n' =
              rw (at_node, at_peer, behind, wrap, there, body_there) at h in
            rw reached (
              take_response-Agrees height n n' peer.archive header body chain (omega arith) agrees
                there body_there taken)
        | inr level ↦
            let high = not-ltb→le height top level in
            let reached : min (height + 1) top ≡ height = omega arith in
            let same : some n ≡ some n' = rw (at_node, at_peer, level) at h in
            let kept : n ≡ n' = ground arith in
            rw reached (
              subst
                (λ (x : Node w).
                  IsChain w.codec height x.archive × Agrees height x.archive peer.archive)
                kept (chain, agrees))
      ]

  -- If the peer's archive is a chain with all its bodies, its height fits 32 bits, and the node's
  -- archive is a chain that agrees with it, then after any number of rounds of synchronization
  -- that do not panic the node's archive is a chain, one header higher for each round up to the
  -- height of the peer, and has the peer's headers and bodies.
  pub sync_rounds-Agrees :
      (k top height : ℕ) (peer n n' : Node w)
      → IsFull top peer.archive
      → top < u32_mod
      → height ≤ top
      → IsChain w.codec height n.archive
      → Agrees height n.archive peer.archive
      → sync_rounds w k peer n ≡ some n'
      → IsChain w.codec (min (height + k) top) n'.archive
        × Agrees (min (height + k) top) n'.archive peer.archive
  unfolding sync_rounds seen
  sync_rounds-Agrees zero top height peer n n' full bound below chain agrees h =
      let done : min (height + 0) top ≡ height = omega arith in
      let kept : n ≡ n' = ground arith in
      rw done (
        subst
          (λ (x : Node w). IsChain w.codec height x.archive × Agrees height x.archive peer.archive)
          kept (chain, agrees))
  sync_rounds-Agrees (suc k) top height peer n n' full bound below chain agrees h =
      let round = sync_round w (seen w peer ∷ []) n in
      elim (Option-cases round) [
        | inl panicked ↦ absurd (ground arith)
        | inr (m, advanced) ↦
            let (chain', agrees') =
              sync_peer-Agrees top height peer n m full bound below chain agrees
                (sym (sync_round-sync_peer w (seen w peer).0 (seen w peer).1 n) ∙ advanced) in
            let rest : min (min (height + 1) top + k) top ≡ min (height + suc k) top =
              omega arith in
            rw (← rest) (
              sync_rounds-Agrees k top (min (height + 1) top) peer m n' full bound (omega arith)
                chain' agrees' (rw (advanced, sync_rounds) at h))
      ]
