-- ===== src/Tests/WireTests.antt =====
-- The theorem on the reading of responses, with a coding of short messages.
use ddk.Prelude.{
  ℕ, Option, none, some, sum64_from, ◌≡◌, refl, List, [], ◌∷◌, Result, ok, err, arith, length, ltb,
  if◌then◌else◌, ◌>>=◌, ℕ_discrete,
}
use mathlib.Core.Path.{subst}
use ddk.Table.{iter, get, put, delete, last, put_all, delete_all}
use ddk.Types.{
  Output, Transaction, Body, Header, header_hash, compute_merkle_root, txid, get_value,
  out_point_key, number_key, OutPoint-discrete, MainOutPoint-discrete,
}
use ddk.Types.Blocks.{transaction_entries, coinbase_entries}
use ddk.State.{contains, fill_transaction, validate_body, connect_body}
use ddk.State.Peg.{connect_two_way_peg_data}
use ddk.Archive.{get_height, get_header, get_body, append_header, put_body}
use ddk.Mempool.{take_some, remove}
use ddk.Node.{Node, apply_block, submit_block}
use ddk.Node.Replay.{SameLedger, submit_all}
use ddk.Node.Wire.Replay.{connected_rounds-SameLedger}
use ddk.Node.Requests.{
  Request, Response, get_block, push_transaction, block, no_block, transaction_accepted,
  transaction_rejected, block_response, peer_listen,
}
use ddk.Node.Sync.{sync_peer, seen, next_request}
use ddk.Node.Wire.{Bytes, Transport, TransportLaw, connected_peer, connected_rounds}
use ddk.Tests.NodeTests.{start-IsChain}
use ddk.Node.Wire.Limit.{Exchange, sync_peer-connected_peer}
use ddk.Tests.Data.{chain}
use ddk.Tests.NodeData.{world, node}

runs : Unit {0}
unfolding take_some iter get put delete last put_all delete_all OutPoint-discrete
    MainOutPoint-discrete ℕ_discrete contains header_hash compute_merkle_root txid validate_body
    connect_body connect_two_way_peg_data remove apply_block submit_block get_header get_body
    sum64_from fill_transaction get_value get_height append_header put_body transaction_entries
    coinbase_entries submit_all
runs = tt

-- The length tells the message. Blocks without coins and transactions have a code.
abbrev block_code :
    Header → List (Output chain) → List (Transaction chain) → List ℕ → Result ℕ Bytes
block_code h [] [] [] = ok (h.merkle_root ∷ h.prev_side_hash ∷ h.prev_main_hash ∷ 0 ∷ [])
block_code h _ _ _ = err 0

abbrev response_code : Response world → Result ℕ Bytes
response_code (block h b) = block_code h b.coinbase b.transactions b.authorizations
response_code no_block = ok (0 ∷ [])
response_code transaction_accepted = ok (0 ∷ 0 ∷ [])
response_code transaction_rejected = ok (0 ∷ 0 ∷ 0 ∷ [])

abbrev empty : Body chain ℕ
empty = record { coinbase = []; transactions = []; authorizations = [] }

abbrev read_code : Bytes → Result ℕ (Response world)
read_code (_ ∷ []) = ok no_block
read_code (_ ∷ _ ∷ []) = ok transaction_accepted
read_code (_ ∷ _ ∷ _ ∷ []) = ok transaction_rejected
read_code (m ∷ s ∷ p ∷ _ ∷ []) =
    ok (block (record { merkle_root = m; prev_side_hash = s; prev_main_hash = p }) empty)
read_code _ = err 1

abbrev request_code : Request world → Result ℕ Bytes
request_code (get_block height) = ok (height ∷ [])
request_code (push_transaction t) = err 0

abbrev read_request : Bytes → Result ℕ (Request world)
read_request (height ∷ []) = ok (get_block height)
read_request _ = err 1

abbrev transport : Transport world
transport = record {
  E = ℕ;
  serialize_request = request_code;
  deserialize_request = read_request;
  serialize_response = response_code;
  deserialize_response = read_code;
  read_to_end = λ limit bytes. if ltb limit (length bytes) then err 2 else ok bytes;
}

block_code-read :
    (h : Header) (os : List (Output chain)) (ts : List (Transaction chain)) (as_ : List ℕ)
    (bytes : Bytes)
    → block_code h os ts as_ ≡ ok bytes
    → read_code bytes
      ≡ ok (block h (record { coinbase = os; transactions = ts; authorizations = as_ }))
block_code-read h [] [] [] bytes e =
    subst (λ (r : Result ℕ Bytes). (r >>= read_code) ≡ ok (block h empty)) e refl
block_code-read h [] [] (_ ∷ _) bytes e = absurd (ground arith)
block_code-read h [] (_ ∷ _) _ bytes e = absurd (ground arith)
block_code-read h (_ ∷ _) _ _ bytes e = absurd (ground arith)

read-response_code :
    (r : Response world) (bytes : Bytes) → response_code r ≡ ok bytes → read_code bytes ≡ ok r
read-response_code (block h b) bytes e =
    block_code-read h b.coinbase b.transactions b.authorizations bytes e
read-response_code no_block bytes e =
    subst (λ (r : Result ℕ Bytes). (r >>= read_code) ≡ ok no_block) e refl
read-response_code transaction_accepted bytes e =
    subst (λ (r : Result ℕ Bytes). (r >>= read_code) ≡ ok transaction_accepted) e refl
read-response_code transaction_rejected bytes e =
    subst (λ (r : Result ℕ Bytes). (r >>= read_code) ≡ ok transaction_rejected) e refl

read-request_code :
    (m : Request world) (bytes : Bytes) → request_code m ≡ ok bytes → read_request bytes ≡ ok m
read-request_code (get_block height) bytes e =
    subst (λ (r : Result ℕ Bytes). (r >>= read_request) ≡ ok (get_block height)) e refl
read-request_code (push_transaction t) bytes e = absurd (ground arith)

transport-law : TransportLaw world transport
transport-law = record {
  read_request = read-request_code;
  read_response = read-response_code;
  short = λ limit bytes h. ground arith;
  too_long = λ limit bytes h. (2, ground arith);
}

-- A node with one block, of which another has none.
abbrev ahead : Node world
ahead = record node {
  archive = record {
    headers = (1, record { merkle_root = 0; prev_side_hash = 0; prev_main_hash = 4 }) ∷ [];
    bodies = (1, empty) ∷ [];
    hash_to_height = [];
  };
}

exchange : Exchange world transport transport-law ahead 0 (next_request world node)
unfolding peer_listen block_response get_header get_body get last get_height next_request ℕ_discrete
exchange = record {
  asked = 1 ∷ [];
  response = block (record { merkle_root = 0; prev_side_hash = 0; prev_main_hash = 4 }) empty;
  answered = 0 ∷ 0 ∷ 4 ∷ 0 ∷ [];
  codes = refl;
  fits = omega arith;
  responds = refl;
  codes_back = refl;
}

sync_peer-connected_peer_example :
    sync_peer world node
      (connected_peer world transport ahead).0
      (connected_peer world transport ahead).1
    ≡ sync_peer world node (seen world ahead).0 (seen world ahead).1
unfolding get_height last sync_peer exchange
sync_peer-connected_peer_example =
    sync_peer-connected_peer world transport transport-law node ahead exchange refl

-- Two blocks without transactions, that a node submits.
abbrev first_block : Header
first_block = record { merkle_root = 100; prev_side_hash = 0; prev_main_hash = 4 }

abbrev second_block : Header
second_block = record { merkle_root = 100; prev_side_hash = 10100; prev_main_hash = 5 }

abbrev blocks : List (Header × Body chain ℕ)
blocks = (first_block, empty) ∷ (second_block, empty) ∷ []

abbrev or_node : Option (Node world) → Node world
or_node none = node
or_node (some n) = n

abbrev submitter : Node world
unfolding runs
submitter = or_node (submit_all world node blocks)

connected_rounds-SameLedger_example :
    (n' : Node world) × (connected_rounds world transport 2 submitter node ≡ some n')
    × SameLedger world n' submitter
unfolding runs
connected_rounds-SameLedger_example =
    connected_rounds-SameLedger world transport transport-law blocks 0 node node submitter
      start-IsChain (omega arith) refl (refl, refl, refl) (λ k low. (k ∷ [], refl, omega arith))
      (
        (100 ∷ 0 ∷ 4 ∷ 0 ∷ [], refl, omega arith),
        ((100 ∷ 10100 ∷ 5 ∷ 0 ∷ [], refl, omega arith), tt),
      )
