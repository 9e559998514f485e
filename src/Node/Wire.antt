-- ===== src/Node/Wire.antt =====
-- Requests and responses as bytes: `Peer::request` of src/net.rs, and how `peer_listen` of
-- src/node.rs reads a request and writes its response. The coding of `bincode` and the reading of
-- a stream of `quinn` are parameters.
pub mod Limit
pub mod Replay
use ddk.Prelude.{
  ℕ, zero, suc, ◌≤◌, ◌<◌, ◌≡◌, refl, Option, none, some, List, [], ◌∷◌, Result, ok, err, ◌>>=◌,
  ◌>>◌, map_err, length, arith, ltb, inl, inr, Result-cases, Option-cases,
}
use mathlib.Core.Path.{subst}
use ddk.Types.{Chain}
use ddk.Archive.{get_height}
use ddk.Net.{PeerState}
use ddk.Node.{World, Error, Node}
use ddk.Node.Requests.{Request, Response, peer_listen}
use ddk.Node.Sync.{sync_peer, sync_round, announced, next_request, take_response}

abbrev pub Bytes : Type 0
Bytes = List ℕ

-- the bytes that a request or a response may have
abbrev pub read_limit : ℕ
read_limit = 1024

module _ {c : Chain} {A : Type 0} (w : World c A) where
  pub record Transport : Type 1 where
    pub E : Type 0
    pub serialize_request : Request w → Result E Bytes
    pub deserialize_request : Bytes → Result E (Request w)
    pub serialize_response : Response w → Result E Bytes
    pub deserialize_response : Bytes → Result E (Response w)
    -- `RecvStream::read_to_end`, with the limit and what the other end has written when it ends
    -- the stream
    pub read_to_end : ℕ → Bytes → Result E Bytes

  -- What is written can be read back, and a stream is read if it is not too long, else refused.
  pub record TransportLaw (x : Transport) : Type 0 where
    pub read_request :
        (message : Request w) (bytes : Bytes)
        → x.serialize_request message ≡ ok bytes
        → x.deserialize_request bytes ≡ ok message
    pub read_response :
        (response : Response w) (bytes : Bytes)
        → x.serialize_response response ≡ ok bytes
        → x.deserialize_response bytes ≡ ok response
    pub short :
        (limit : ℕ) (bytes : Bytes) → length bytes ≤ limit → x.read_to_end limit bytes ≡ ok bytes
    pub too_long :
        (limit : ℕ) (bytes : Bytes)
        → limit < length bytes
        → (e : x.E) × (x.read_to_end limit bytes ≡ err e)

module _ {c : Chain} {A : Type 0} (w : World c A) (x : Transport w) where
  -- `Peer::request`, with whether a stream opens and takes the message, and what the other end
  -- writes back
  unfoldable pub request :
      Result x.E (Unit {0})
      → Result x.E (Unit {0})
      → (Bytes → Bytes)
      → Request w
      → Result x.E (Response w)
  request opened written respond message = do
    opened
    asked ← x.serialize_request message
    written
    response ← x.read_to_end read_limit (respond asked)
    x.deserialize_response response

  pub data ServeError : Type 0 where
    connection : x.E → ServeError
    node : Error w → ServeError

  -- What is left after a request was read: the outcome, the node, what is written back, and the
  -- peers that a transaction is pushed to.
  pub record Served : Type 0 where
    pub outcome : Result ServeError (Unit {0})
    pub after : Node w
    pub sent : Bytes
    pub pushed : List ℕ

  -- `peer_listen`, with the bytes of the request, and whether the stream takes the response
  unfoldable pub serve : Node w → ℕ → Bytes → Result x.E (Unit {0}) → Served
  unfolding peer_listen
  serve n peer asked written = elim (x.read_to_end read_limit asked >>= x.deserialize_request) [
    | err e ↦ record { outcome = err (connection e); after = n; sent = []; pushed = [] }
    | ok message ↦
        let reply = peer_listen w n peer message in
        elim reply.response [
          | none ↦ record {
            outcome = map_err node reply.outcome;
            after = reply.node;
            sent = [];
            pushed = reply.pushed;
          }
          | some response ↦ elim (x.serialize_response response) [
            | err e ↦ record {
              outcome = err (connection e);
              after = reply.node;
              sent = [];
              pushed = reply.pushed;
            }
            | ok bytes ↦ record {
              outcome = map_err connection written >> map_err node reply.outcome;
              after = reply.node;
              sent = bytes;
              pushed = reply.pushed;
            }
          ]
        ]
  ]

  -- a request to another node, over a connection that works
  unfoldable pub ask : Node w → ℕ → Request w → Result x.E (Response w)
  unfolding request serve
  ask other peer = request (ok tt) (ok tt) (λ asked. (serve other peer asked (ok tt)).sent)

  -- another node as a peer, as the task that synchronizes sees it
  unfoldable pub connected_peer : Node w → Option PeerState × (Request w → Option (Response w))
  unfolding ask announced
  connected_peer other = (
    some (announced w other),
    λ message. elim (ask other 0 message) [ ok response ↦ some response | err _ ↦ none ],
  )

  -- So many rounds over the stream with one peer, another node that stays as it is.
  unfoldable pub connected_rounds : ℕ → Node w → Node w → Option (Node w)
  unfolding sync_round connected_peer
  connected_rounds zero other n = some n
  connected_rounds (suc k) other n = elim (sync_round w (connected_peer other ∷ []) n) [
    | none ↦ none
    | some n' ↦ connected_rounds k other n'
  ]
