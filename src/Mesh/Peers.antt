-- ===== src/Mesh/Peers.antt =====
-- core/mesh_discovery.go: the peers that a node knows. Sockets and JSON are parameters; times are in
-- nanoseconds. Each call holds the lock where it touches the table, and is one step.
pub mod Known
use aethercore.Prelude.{
  ℕ, ◌+◌, ◌/◌, Bool, true, false, not, ◌||◌, Option, none, some, List, [], GoMap, lookup, insert,
  delete_where, map, ltb, ◌==◌, eq_list, eq_nat, if◌then◌else◌,
}
use aethercore.Prelude.Int.{ℤ, pos}
use aethercore.Prelude.Result.{Result, ok, err}
use aethercore.Prelude.Text.{Text}

-- meshPeerTimeout
abbrev pub mesh_peer_timeout : ℕ
mesh_peer_timeout = 15000000000

pub record PeerBeacon : Type 0 where
  pub node_id : Text
  pub grpc_addr : Text
  pub version : Text
  pub timestamp : ℤ

pub record Peer : Type 0 where
  pub node_id : Text
  pub grpc_addr : Text
  pub version : Text
  pub last_seen : ℕ

-- `stopped` says that the quit channel is closed.
pub record MeshDiscovery : Type 0 where
  pub beacon : PeerBeacon
  pub peers : GoMap Text Peer
  pub stopped : Bool
  pub running : Bool

-- ErrMeshAlreadyRunning, and what ListenPacket reports
pub data MeshError : Type 0 where
  already_running : MeshError
  bind_failed : Text → MeshError

-- NewMeshDiscovery
unfoldable pub new_mesh_discovery : Text → Text → Text → MeshDiscovery
new_mesh_discovery node_id grpc_addr version = record {
  beacon = record {
    node_id = node_id;
    grpc_addr = grpc_addr;
    version = version;
    timestamp = pos 0;
  };
  peers = [];
  stopped = false;
  running = false;
}

-- Start, with what ListenPacket reports; the last answer says whether it begins the two loops.
unfoldable pub start : MeshDiscovery → Option Text → (Option MeshError × MeshDiscovery) × Bool
start m bound = if m.running then ((some already_running, m), false) else elim bound [
  | some e ↦ ((some (bind_failed e), record m { running = true }), false)
  | none ↦ ((none, record m { running = true }), true)
]

-- Stop; the Once lets the first call in
unfoldable pub stop : MeshDiscovery → MeshDiscovery
stop m = if m.stopped then m else record m { stopped = true; running = false }

-- Peers
unfoldable pub known_peers : MeshDiscovery → List Peer
known_peers m = map (λ e. e.1) m.peers

-- the entry that a beacon leaves
unfoldable pub refresh : Option Peer → PeerBeacon → ℕ → Peer
refresh none beacon now = record {
  node_id = beacon.node_id;
  grpc_addr = beacon.grpc_addr;
  version = beacon.version;
  last_seen = now;
}
refresh (some existing) beacon now =
    if not (existing.grpc_addr == beacon.grpc_addr)
    then record {
      node_id = beacon.node_id;
      grpc_addr = beacon.grpc_addr;
      version = beacon.version;
      last_seen = now;
    }
    else record existing { last_seen = now }

-- upsertPeer
unfoldable pub upsert_peer : MeshDiscovery → PeerBeacon → ℕ → MeshDiscovery
upsert_peer m beacon now = if beacon.node_id == m.beacon.node_id then m else record m {
  peers = insert beacon.node_id (refresh (lookup beacon.node_id m.peers) beacon now) m.peers;
}

-- listenLoop on a datagram, as the decoder reads it
unfoldable pub receive : MeshDiscovery → Result Text PeerBeacon → ℕ → MeshDiscovery
receive m (err e) now = m
receive m (ok beacon) now = upsert_peer m beacon now

-- p.LastSeen.Before(cutoff)
unfoldable pub is_stale : ℕ → Peer → Bool
is_stale now p = ltb (p.last_seen + mesh_peer_timeout) now

-- evictStalePeers
unfoldable pub evict_stale_peers : MeshDiscovery → ℕ → MeshDiscovery
evict_stale_peers m now = record m { peers = delete_where (is_stale now) m.peers }

-- broadcast, up to the beacon that it sends
unfoldable pub broadcast : MeshDiscovery → ℕ → MeshDiscovery
broadcast m now = record m { beacon = record m.beacon { timestamp = pos (now / 1000000000) } }

-- announceLoop at a tick
unfoldable pub announce : MeshDiscovery → ℕ → MeshDiscovery
announce m now = evict_stale_peers (broadcast m now) now
