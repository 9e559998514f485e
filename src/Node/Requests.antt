-- ===== src/Node/Requests.antt =====
-- `peer_listen` of src/node.rs: the answer to a request of a peer (src/net.rs).
use ddk.Prelude.{ℕ, Option, none, some, List, [], ◌∷◌, ◌==◌, if◌then◌else◌, Result, ok, err}
use ddk.Types.{Chain, AuthorizedTransaction, Body, Header}
use ddk.Archive.{get_header, get_body}
use ddk.Mempool.{insert}
use ddk.Node.{World, Error, Node, validate_transaction}

module _ {c : Chain} {A : Type 0} (w : World c A) where
  pub data Request : Type 0 where
    get_block : ℕ → Request
    push_transaction : AuthorizedTransaction c A → Request

  pub data Response : Type 0 where
    block : Header → Body c A → Response
    no_block : Response
    transaction_accepted transaction_rejected : Response

  -- What is left after a request: the outcome, the node, the response sent, and the peers that
  -- the transaction is pushed to.
  pub record Reply : Type 0 where
    pub outcome : Result (Error w) (Unit {0})
    pub node : Node w
    pub response : Option Response
    pub pushed : List ℕ

  unfoldable pub block_response : Option Header → Option (Body c A) → Response
  block_response (some header) (some body) = block header body
  block_response (some header) none = no_block
  block_response none body = no_block

  -- all peers but the one that sent the transaction
  unfoldable pub other_peers : ℕ → List ℕ → List ℕ
  other_peers peer [] = []
  other_peers peer (p ∷ ps) = let rest = other_peers peer ps in if p == peer then rest else p ∷ rest

  unfoldable pub peer_listen : Node w → ℕ → Request → Reply
  unfolding block_response other_peers
  peer_listen n peer (get_block height) = record {
    outcome = ok tt;
    node = n;
    response = some (block_response (get_header n.archive height) (get_body n.archive height));
    pushed = [];
  }
  peer_listen n peer (push_transaction t) = elim (validate_transaction w n t) [
    | err e ↦ record {
      outcome = err e;
      node = n;
      response = some transaction_rejected;
      pushed = [];
    }
    | ok _ ↦ elim (insert w.codec n.mempool t) [
      | err e ↦ record { outcome = err (Error.mempool e); node = n; response = none; pushed = [] }
      | ok pool ↦ record {
        outcome = ok tt;
        node = record n { mempool = pool };
        response = some transaction_accepted;
        pushed = other_peers peer n.peers;
      }
    ]
  ]
