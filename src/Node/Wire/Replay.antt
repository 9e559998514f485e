-- ===== src/Node/Wire/Replay.antt =====
-- A node that starts where its peer started reaches the ledger of the peer by synchronization, if
-- the blocks fit the limit of `Peer::request`.
use ddk.Prelude.{
  ℕ, ◌+◌, ◌≤◌, ◌<◌, ◌≡◌, refl, ap, ◌∙◌, Option, some, List, [], ◌∷◌, length, arith, ok,
  Result-cases, inl, inr, u32_mod, add32, ltb, true, false, All,
}
use mathlib.Core.Path.{subst}
use ddk.Types.{Chain, Body, Header}
use ddk.Types.Withdrawals.{MainTransaction}
use ddk.Archive.{get_header, get_body, get_height}
use ddk.Archive.Linked.{IsChain, get_height-IsChain}
use ddk.Node.{World, Node, submit_block}
use ddk.Node.Blocks.{submit_block-IsChain}
use ddk.Node.Sync.{sync_peer, sync_round-sync_peer, seen, next_request}
use ddk.Node.Follow.{submit_block-reads}
use ddk.Node.Replay.{
  SameLedger, submit_all, submit_all-reads, submit_block-SameLedger, sync_peer-next,
}
use ddk.Node.Requests.{Request, Response, get_block, block, peer_listen, block_response}
use ddk.Node.Wire.{Bytes, read_limit, Transport, TransportLaw, connected_peer, connected_rounds}
use ddk.Node.Wire.Limit.{Exchange, sync_peer-connected_peer}

module _ {c : Chain} {A : Type 0} (w : World c A) (x : Transport w) (law : TransportLaw w x) where
  -- The request has a code within the limit.
  abbrev pub IsShortRequest : Request w → Type 0
  IsShortRequest message =
      (bytes : Bytes) × (x.serialize_request message ≡ ok bytes) × (length bytes ≤ read_limit)

  -- The response has a code within the limit.
  abbrev pub IsShortResponse : Response w → Type 0
  IsShortResponse response =
      (bytes : Bytes) × (x.serialize_response response ≡ ok bytes) × (length bytes ≤ read_limit)

  -- One round over the stream with a peer that has the next block.
  connected_peer-next :
      (height top : ℕ) (n n' peer : Node w) (header : Header) (body : Body c A)
      {out : Option (MainTransaction c)}
      → get_height n.archive ≡ height
      → get_height peer.archive ≡ top
      → height < top
      → top < u32_mod
      → get_header peer.archive (height + 1) ≡ some header
      → get_body peer.archive (height + 1) ≡ some body
      → IsShortRequest (get_block (height + 1))
      → IsShortResponse (block header body)
      → submit_block w n header body ≡ ok (n', out)
      → sync_peer w n (connected_peer w x peer).0 (connected_peer w x peer).1 ≡ some n'
  unfolding next_request seen peer_listen block_response
  connected_peer-next height top n n' peer header body at_node at_peer low bound header_there
        body_there (asked, codes, fits) (answered, codes_back, short) accepted =
      let wrap : add32 (get_height n.archive) 1 ≡ height + 1 = omega arith in
      let e : Exchange w x law peer 0 (next_request w n) = record {
        asked = asked;
        response = block header body;
        answered = answered;
        codes = rw wrap codes;
        fits = fits;
        responds = rw (wrap, header_there, body_there) refl;
        codes_back = codes_back;
      } in
      let ahead : ltb (get_height n.archive) (get_height peer.archive) ≡ true = ground arith in
      let within : ltb read_limit (length answered) ≡ false = ground arith in
      let round =
        sync_peer-next w height top n n' peer header body at_node at_peer low bound header_there
          body_there accepted in
      sync_peer-connected_peer w x law n peer e ahead ∙ rw within round

  -- If messages survive the coding and streams are read up to the limit, the peer came from a
  -- chain of so many headers by submitting blocks that were all accepted, the mainchain answers the
  -- node as it answered the peer, heights fit 32 bits, the node has the ledger that the peer
  -- started with, and each of the blocks and the requests for them has a code within the limit,
  -- then as many rounds of synchronization over the stream as there are blocks succeed, and the
  -- node then has the ledger of the peer: the same state, the same state of the sidechain, and the
  -- same archive.
  pub connected_rounds-SameLedger :
      (bs : List (Header × Body c A)) (height : ℕ) (n m peer : Node w)
      → IsChain w.codec height m.archive
      → height + length bs < u32_mod
      → submit_all w m bs ≡ some peer
      → SameLedger w n m
      → ((k : ℕ) → k ≤ height + length bs → IsShortRequest (get_block k))
      → All (λ (b : Header × Body c A). IsShortResponse (block b.0 b.1)) bs
      → (n' : Node w) × (connected_rounds w x (length bs) peer n ≡ some n') × SameLedger w n' peer
  unfolding connected_rounds submit_all
  connected_rounds-SameLedger [] height n m peer chain bound h same asks fits =
      let done : m ≡ peer = ground arith in
      (n, refl, subst (λ (x : Node w). SameLedger w n x) done same)
  connected_rounds-SameLedger ((header, body) ∷ bs) height n m peer chain bound h same asks fits =
      elim (Result-cases (submit_block w m header body)) [
        | inr (e, refused) ↦ absurd (ground arith)
        | inl ((m', out), accepted) ↦
            let rest = rw (accepted, submit_all) at h in
            let grown =
              submit_block-IsChain w height m m' header body chain (omega arith) accepted in
            let (top, reads) =
              submit_all-reads w bs (height + 1) m' peer grown.2 (omega arith) rest in
            let here =
              submit_block-reads w height m m' header body chain (omega arith) accepted
                (height + 1) in
            let there = reads (height + 1) (omega arith) in
            let (n', out', advanced, same') =
              submit_block-SameLedger w n m m' header body same accepted in
            let at_node =
              ap (λ a. get_height a) same.2 ∙ get_height-IsChain w.codec height m.archive chain in
            let round =
              connected_peer-next height (height + 1 + length bs) n n' peer header body at_node
                (get_height-IsChain w.codec (height + 1 + length bs) peer.archive top) (omega arith)
                (omega arith) (ground (arith, here, there)) (ground (arith, here, there))
                (asks (height + 1) (omega arith)) fits.0 advanced in
            let (n'', run, same'') =
              connected_rounds-SameLedger bs (height + 1) n' m' peer grown.2 (omega arith) rest
                same' (λ k low. asks k (omega arith)) fits.1 in
            let peer' = connected_peer w x peer in
            (
              n'',
              rw (sync_round-sync_peer w peer'.0 peer'.1 n ∙ round, connected_rounds) run,
              same'',
            )
      ]
