-- ===== src/Node/Wire/Limit.antt =====
-- What `READ_LIMIT` of src/net.rs lets through.
use ddk.Prelude.{
  ℕ, ◌≤◌, ◌<◌, ◌≡◌, refl, true, none, some, ok, err, length, ltb, ltb→lt, not-ltb→le, Bool-cases,
  inl, inr, if◌then◌else◌,
}
use ddk.Types.{Chain}
use ddk.Archive.{get_height}
use ddk.Node.{World, Node}
use ddk.Node.Requests.{Request, Response, peer_listen}
use ddk.Node.Sync.{sync_peer, seen, announced, next_request, take_response}
use ddk.Node.Wire.{Bytes, read_limit, Transport, TransportLaw, request, serve, ask, connected_peer}

module _ {c : Chain} {A : Type 0} (w : World c A) (x : Transport w) (law : TransportLaw w x) where
  -- A request that fits the limit, and the response of a node to it, with their bytes.
  pub record Exchange (n : Node w) (peer : ℕ) (message : Request w) : Type 0 where
    pub asked : Bytes
    pub response : Response w
    pub answered : Bytes
    pub codes : x.serialize_request message ≡ ok asked
    pub fits : length asked ≤ read_limit
    pub responds : (peer_listen w n peer message).response ≡ some response
    pub codes_back : x.serialize_response response ≡ ok answered

  module _ (n : Node w) (peer : ℕ) (message : Request w) (e : Exchange n peer message) where
    serve-sent : (serve w x n peer e.asked (ok tt)).sent ≡ e.answered
    unfolding serve
    serve-sent =
        rw
          (
            serve,
            law.short read_limit e.asked e.fits,
            law.read_request message e.asked e.codes,
            e.responds,
            e.codes_back,
          )
          refl

    -- If the request and its response fit the limit, then the request over the stream comes to
    -- what the handler responds.
    pub ask-peer_listen : length e.answered ≤ read_limit → ask w x n peer message ≡ ok e.response
    unfolding ask request
    ask-peer_listen small =
        rw (e.codes, serve-sent, law.short read_limit e.answered small)
          (law.read_response e.response e.answered e.codes_back)

    pub ask-too_long : read_limit < length e.answered → (z : x.E) × (ask w x n peer message ≡ err z)
    unfolding ask request
    ask-too_long long =
        let (z, refused) = law.too_long read_limit e.answered long in
        (z, rw (e.codes, serve-sent, refused) refl)

  -- If messages survive the coding and streams are read up to the limit, a peer has announced a
  -- greater height, its response to the next request has a code, and so does the request within
  -- the limit, then a step of the synchronization over the stream comes to the step with the
  -- peer's own response if that fits the limit, and otherwise the task that synchronizes ends.
  pub sync_peer-connected_peer :
      (n other : Node w) (e : Exchange other 0 (next_request w n))
      → ltb (get_height n.archive) (get_height other.archive) ≡ true
      → sync_peer w n (connected_peer w x other).0 (connected_peer w x other).1 ≡ (
          if ltb read_limit (length e.answered)
          then none
          else sync_peer w n (seen w other).0 (seen w other).1)
  unfolding sync_peer connected_peer seen announced take_response
  sync_peer-connected_peer n other e ahead =
      elim (Bool-cases (ltb read_limit (length e.answered))) [
        | inl long ↦
            let (z, refused) =
              ask-too_long other 0 (next_request w n) e (ltb→lt read_limit _ long) in
            rw (long, ahead, connected_peer, refused) refl
        | inr small ↦
            let response =
              ask-peer_listen other 0 (next_request w n) e (not-ltb→le read_limit _ small) in
            rw (small, ahead, connected_peer, response, seen, e.responds) refl
      ]
