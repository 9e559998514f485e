-- ===== src/Tests/NetTests.antt =====
-- The theorems on addresses, the miner, the peers and the connection at concrete answers.
use ddk.Prelude.{false, ℕ, ◌≡◌, refl, ok, none, some, List, [], ◌∷◌, arith, All, ℕ_discrete}
use mathlib.Core.List.{Sublistᴰ}
use ddk.Table.{get, put, delete}
use ddk.Types.{Body, Header, header_hash, compute_merkle_root, number_key}
use ddk.Types.Display.{u32_text}
use ddk.Types.Text.{to_base58, from_str}
use ddk.Types.Base58.{Reads, from_str-to_base58}
use ddk.Miner.{Miner, attempt_bmm, confirm_bmm}
use ddk.Miner.Runs.{Event, attempt, confirm, attempted, confirmed, IsCommitted}
use ddk.Miner.Confirm.{VerifiedIn, confirmed-attempted}
use ddk.Net.{
  Connection, Peer, connect, accept, disconnect, heart_beat_listen, Net, is_connected, add_peer,
}
use ddk.Net.Peers
use ddk.Net.Peers.{IsUnique, run, run-IsUnique, dial, incoming, hang_up, beat}
use ddk.Net.Steps
use ddk.Net.Steps.{Tasks, Step, step, steps, IsApart, AllAlone, steps-IsApart}
use ddk.Net.Race.{race, steps-race_two}
use ddk.Tests.Data.{chain, codec, coin}
use ddk.Tests.MainData.{base58, base58_law, crates, client, drivechain}

runs : Unit {0}
unfolding ℕ_discrete header_hash compute_merkle_root confirmed attempt_bmm confirm_bmm
runs = tt

-- An address that is printed, and the text of two bytes.
from_str-to_base58_example :
    (from_str base58 (to_base58 base58 300) ≡ ok 300) × Reads base58 (1 ∷ 2 ∷ [])
from_str-to_base58_example =
    from_str-to_base58 base58 300 (1 ∷ 2 ∷ []) base58_law (omega arith)
      (omega arith, (omega arith, tt))

abbrev body : Body chain ℕ
body = record { coinbase = coin 3 1 ∷ []; transactions = []; authorizations = [] }

abbrev header : Header
header = record { merkle_root = 10300; prev_side_hash = 0; prev_main_hash = 4 }

abbrev miner : Miner crates chain ℕ
miner = record { drivechain = drivechain; block = none; sidechain_number = 0 }

-- An attempt, and two confirmations, of which the second finds no block.
abbrev mining : List (Event crates chain ℕ)
mining = attempt client 1000 0 header body ∷ confirm client ∷ confirm client ∷ []

confirmed-attempted_example :
    Sublistᴰ (confirmed crates codec miner mining) (attempted crates codec miner mining)
    × All (IsCommitted crates codec) (confirmed crates codec miner mining)
    × All (VerifiedIn crates codec 0 mining) (confirmed crates codec miner mining)
confirmed-attempted_example = confirmed-attempted crates codec miner mining refl

-- The block is handed out once.
mining-confirmed : confirmed crates codec miner mining ≡ (header, body) ∷ []
unfolding runs
mining-confirmed = refl

abbrev net : Net
net = record { peers = []; states = []; next_state = 0 }

net-IsUnique : IsUnique net
unfolding get
net-IsUnique = record {
  own_id = λ i p h. absurd (ground arith);
  one_each = λ i j p q hi hj same. absurd (ground arith);
  old_state = λ i p h. absurd (ground arith);
  own_state = λ i j p q hi hj same. absurd (ground arith);
}

-- A connection out, one in from the same address, which is refused, a heart beat, and an end.
abbrev traffic : List (Peers.Event ℕ)
traffic =
    dial 80 (ok (record { stable_id = 1; remote_address = 80 }))
    ∷ incoming (record { stable_id = 2; remote_address = 80 }) false
    ∷ beat (record { state = 0; connection = record { stable_id = 1; remote_address = 80 } })
        (ok (ok (record { block_height = 3 })))
    ∷ hang_up 1
    ∷ []

-- Nothing is left in the table.
traffic-runs : (run net traffic).peers ≡ []
unfolding run Peers.handle connect accept disconnect heart_beat_listen is_connected add_peer get put
    delete ℕ_discrete
traffic-runs = refl

looked : is_connected net.peers 80 ≡ false
unfolding is_connected
looked = refl

abbrev tasks : Tasks
tasks = record { net = net; waiting = [] }

tasks-IsApart : IsApart tasks
unfolding get is_connected
tasks-IsApart = record {
  unique = net-IsUnique;
  free = λ i a h. absurd (ground arith);
  own = λ i j a hi hj. absurd (ground arith);
}

-- Two tasks with different addresses, one step of each in turn.
abbrev interleaved : List (Step ℕ)
interleaved =
    Steps.look 0 80
    ∷ Steps.look 1 81
    ∷ Steps.enter 1 (ok (record { stable_id = 2; remote_address = 81 }))
    ∷ Steps.enter 0 (ok (record { stable_id = 1; remote_address = 80 }))
    ∷ Steps.hang_up 2
    ∷ []

alone : AllAlone tasks interleaved
unfolding get put delete step is_connected add_peer ℕ_discrete
alone = (
  (λ i a h. absurd (ground arith)),
  ((λ i a h same. ground arith), ((λ a h. ground arith), ((λ a h. ground arith), (tt, tt)))),
)

steps-IsApart_example : IsApart (steps tasks interleaved)
steps-IsApart_example = steps-IsApart tasks interleaved alone tasks-IsApart

abbrev first_connection : Connection
first_connection = record { stable_id = 1; remote_address = 80 }

abbrev second_connection : Connection
second_connection = record { stable_id = 2; remote_address = 80 }

abbrev raced : Tasks
raced = steps tasks (race ℕ 0 1 80 first_connection second_connection)

steps-race_two_example :
    (p : Peer) × (q : Peer) × (get 1 raced.net.peers ≡ some p)
    × (get 2 raced.net.peers ≡ some q)
    × (p.connection.remote_address ≡ 80)
    × (q.connection.remote_address ≡ 80)
steps-race_two_example =
    steps-race_two ℕ tasks 0 1 80 first_connection second_connection (λ e. ground arith) looked refl
      refl (λ e. ground arith)

-- The number of an output in decimal.
u32_text-runs : u32_text 1203 ≡ b'1' ∷ b'2' ∷ b'0' ∷ b'3' ∷ []
unfolding u32_text
u32_text-runs = refl
