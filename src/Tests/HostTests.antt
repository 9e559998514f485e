-- ===== src/Tests/HostTests.antt =====
-- The theorems on the tasks of a node: a connection out, a request, one that fails to arrive, one
-- that comes too late.
use ddk.Prelude.{ℕ, ◌≡◌, ◌⊎◌, refl, true, false, none, some, List, [], ◌∷◌, ok, err, ℕ_discrete}
use ddk.Table.{get, put, delete, last}
use ddk.Types.{number_key}
use ddk.Net.{Connection, Peer, is_connected, add_peer, connect, accept, peer_state}
use ddk.Net.Peers
use ddk.Node.Sync.{sync_peer}
use ddk.Node.Requests.{get_block, peer_listen}
use ddk.Node.Host.{
  Host, Event, dialled, arrived, requested, heard, beat_due, sync_due, hung_up, handle, run, dial,
  accept_next, listen, hear, beat, synchronize, spawn, heart_beats,
}
use ddk.Node.Host.Refines.{net_events, net_trace}
use ddk.Node.Host.Ended.{DialledIn, run-arrived}
use ddk.Tests.NodeData.{world, node}

runs : Unit {0}
unfolding ℕ_discrete get put delete last is_connected add_peer connect accept peer_listen handle run
    dial accept_next listen hear beat synchronize spawn net_events net_trace Peers.run Peers.handle
runs = tt

abbrev host : Host world ℕ
host = record {
  node = node;
  net = record { peers = []; states = []; next_state = 0 };
  listening = [];
  hearing = [];
  accepting = true;
  beating = true;
  synchronizing = true;
}

abbrev out : Connection
out = record { stable_id = 1; remote_address = 80 }

abbrev late : Connection
late = record { stable_id = 2; remote_address = 81 }

abbrev events : List (Event world ℕ)
events =
    dialled 80 (ok out)
    ∷ requested 1 (ok (get_block 1))
    ∷ heard 1 (ok (ok (record { block_height = 3 })))
    ∷ arrived (ok late) false
    ∷ hung_up 2
    ∷ []

-- The peer on the connection out.
abbrev first : Peer
first = record { state = 0; connection = out }

run-arrived_example : (get 1 host.net.peers ≡ some first) ⊎ DialledIn world ℕ first events
unfolding runs
run-arrived_example = run-arrived world ℕ host 0 false events 1 first refl

-- A heart beat that is not sent ends the task.
beat-ends : (run world ℕ host (dialled 80 (ok out) ∷ beat_due (λ p s. err 7) ∷ [])).beating ≡ false
unfolding runs heart_beats
beat-ends = refl

-- With nothing announced there is nothing to request.
sync-idle :
    (run world ℕ host (dialled 80 (ok out) ∷ sync_due 1 (λ r. none) ∷ [])).synchronizing ≡ true
unfolding runs sync_peer peer_state
sync-idle = refl
