-- ===== src/Lib.antt =====
-- Verification of ddk, a toolkit for drivechain sidechains: the ledger with its two-way peg, the
-- block archive, the pool of transactions, the checking of signatures, the wallet, the node that
-- combines them, its peers, its connection to the mainchain, and the miner.
--
-- The parts and how they interact. A node keeps a state (unspent outputs, the pending withdrawal
-- bundle, the height of the last failure of a bundle, the last deposit block), an archive of
-- headers and bodies, and a pool of transactions. A block is validated against the state, its
-- body is connected, and the deposits and reports of the mainchain are connected after it; then
-- its header is appended to the archive and its body is stored. Validation calls the trait
-- `Verify`, which the authorizations implement; the wallet makes transactions and authorizes
-- them with keys derived from a seed. The mainchain's data come over the drivechain connection,
-- blocks and transactions from peers come as requests and responses, and the miner has the
-- mainchain commit to a block before it is submitted. A transaction that a node accepts is
-- pushed to its peers, which push it on before they respond.
--
--   Types           src/types/types.rs, hashes.rs, mod.rs: outputs, transactions, headers
--   Types.Filled    `FilledTransaction`: `get_value_in`, `get_value_out`, `get_fee`
--   Types.Blocks    `Body`: `new`, `get_inputs`, `get_outputs`, `get_coinbase_value`
--   Types.Withdrawals  bundles, two-way peg data, `Ord for AggregatedWithdrawal`
--   Types.Text      src/types/address.rs: `to_base58`, `from_str`; `format_deposit_address` of
--                   src/lib.rs
--   Types.Display   the text forms of hashes and outpoints
--   Databases       `new` of src/state.rs, archive.rs, mempool.rs, wallet.rs and node.rs: which
--                   databases are opened, and how many each part announces (`NUM_DBS`)
--   State           src/state.rs: `fill_transaction`, `validate_filled_transaction`,
--                   `validate_body`, `connect_body`, the readers of unspent outputs
--   State.Bundle    `collect_withdrawal_bundle`
--   State.Peg       `connect_two_way_peg_data`
--   Archive         src/archive.rs: `append_header`, `put_body` and the readers
--   Mempool         src/mempool.rs: `insert` is `put`, `remove` is `delete`, `take_some` is `take`
--   Authorization   src/authorization.rs: `verify_authorizations`,
--                   `verify_authorized_transaction`, `sign`, `authorize`
--   Wallet          src/wallet.rs: all operations
--   Net             src/net.rs: the table of peers with `connect` and `disconnect`; of
--                   src/node.rs the task that accepts connections, and `heart_beat_listen`
--   Net.Steps       `connect` and the accepting task in two steps, between which other tasks run
--   Node            src/node.rs: `validate_transaction`, `submit_transaction`, `submit_block`,
--                   `get_transactions`
--   Node.Requests   `peer_listen` with the messages of src/net.rs
--   Node.Sync       the task of `run` that requests missing blocks, a round over the peers, and
--                   the height that a heart beat announces
--   Node.Wire       `Peer::request` of src/net.rs, and `peer_listen` on the bytes of a stream
--   Node.Relay      several nodes: `submit_transaction` and `peer_listen` with the requests that
--                   they send
--   Node.Host       the tasks that `connect` and `run` spawn, each with its loop and its end
--   Node.Readers    what the node reads from its parts
--   Node.Runs       the node over any sequence of operations
--   Drivechain      src/drivechain/mod.rs: what it makes of reports, and of decoded deposits
--   Drivechain.Client  src/drivechain/client.rs: the JSON interface of the mainchain
--   Drivechain.Calls   src/drivechain/mod.rs: the calls of it, with their errors
--   Miner           src/miner.rs: `generate`, `attempt_bmm`, `confirm_bmm`
--   Prelude, Table  lists, words, results, and association lists for the databases and maps
--   Tests           concrete runs
-- A module below one of these is named for what its lemmas are about.
--
-- Conventions. A database or a map is an association list, and walking one goes in the order of
-- that list, on which no theorem depends; `last` of a database is the entry with the greatest
-- key, as its keys are stored most significant byte first. A hash, an address or an identifier
-- is the number that its bytes read as, and a text is the list of its bytes. `u64` and `u32`
-- arithmetic wraps round, as in a release build. Loops are structural recursion on the list that
-- they walk, or on the number of rounds left. Only the requests that a pushed transaction leads
-- to take fuel: one more than the tasks that listen in the network is enough, as each request
-- that is handled takes up one of them (Node/Relay/Ends.antt). A panic is the error `panicked`,
-- or none. An operation of the wallet commits database transactions of its own, so that it
-- returns a state also where it fails; the other components run in a transaction of the caller,
-- which is the node, and the node drops it on an error.
--
-- Tasks. Each operation of the node runs in database transactions of its own, so the tasks that
-- are spawned are sequences of operations in any order: lists of events for the node
-- (Node/Runs.antt), its connections and the tasks themselves (Node/Host.antt), the table of
-- peers (Net/Peers.antt) and the miner (Miner/Confirm.antt). What the mainchain, an endpoint or
-- a connection answers stands in the event. There `connect` of src/net.rs is one event; the
-- program awaits the connection between the look at the table and the entry in it, and
-- Net/Steps.antt has the two steps and what may come between them. The node's own list of peers,
-- to which it pushes transactions, is their ids. In Node/Relay.antt a network of nodes is a
-- table, and a request is a call that the node at the other end of the connection handles, if a
-- task listens there: one transaction is on its way at a time. Where no task listens the program
-- waits for ever, which is the outcome `blocked`: Node/Relay/Returns.antt is about when a
-- submission does return.
--
-- Parameters. The sidechain's own output data and the `bitcoin` types are the record `Chain`;
-- `bincode` and BLAKE3 are `Codec`; ed25519 is `Dalek`; weights, scripts and sorting of
-- destinations are `Bitcoin`; key derivation and sorting of coins are `Backend`; the builders
-- of `bs58` are `Base58`, and hexadecimal text is `Hex`; the JSON values, the codings and the
-- errors of the mainchain interface are `Crates`, and its answers `Main`; an environment of
-- databases is `Lmdb`; the bytes of requests and responses and the reading of a stream are
-- `Transport`; the sidechain's own state is `CustomState`, and all that surrounds a node is
-- `World`, whose mainchain data Node/Connected.antt takes from the connection. Theorems name what
-- they need of these: that sorting permutes (`SortLaw`), that a batch verifies when each of its signatures
-- does (`BatchLaw`), that a key pair's signature is valid (`SignLaw`), that bytes survive Base58
-- and what is done with a checksum (`Base58Law`), that they survive hexadecimal text (`HexLaw`),
-- that messages survive `bincode` and a stream is read up to the limit and no further
-- (`TransportLaw`), and that an environment has room for as many databases as were announced
-- (`LmdbLaw`).
--
-- Not modelled. What the reading and writing of a database and the file system may fail with;
-- certificates and endpoints of src/net.rs, and the HTTP client of src/drivechain/mod.rs; the
-- pauses of the tasks of src/node.rs and their output; src/drivechain/amount.rs, which no module
-- includes.

pub mod Prelude
pub mod Table
pub mod Types
pub mod Databases
pub mod State
pub mod Archive
pub mod Mempool
pub mod Authorization
pub mod Wallet
pub mod Net
pub mod Node
pub mod Drivechain
pub mod Miner
pub mod Tests
