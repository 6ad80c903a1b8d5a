-- ===== src/Mesh/Tests.antt =====
-- The theorems on the peers at two nodes, one of which falls silent.
use aethercore.Prelude.{
  ◌≡◌, ◌≢◌, ◌≤◌, arith, true, false, none, some, [], ◌∷◌, lookup, eq_list, eq_nat,
}
use aethercore.Prelude.Int.{pos}
use aethercore.Prelude.Text.{Text, codes}
use aethercore.Mesh.Peers.{PeerBeacon, Peer, MeshDiscovery}
use aethercore.Mesh.Peers.Known.{
  heard, tick, meet_all, seen_of, track_all, meet_all-track, meet_all-alive,
}

abbrev beacon_of : Text → PeerBeacon
beacon_of id = record {
  node_id = id;
  grpc_addr = codes "10.0.0.2:9100";
  version = codes "1";
  timestamp = pos 0;
}

abbrev here : MeshDiscovery
here = record { beacon = beacon_of (codes "me"); peers = []; stopped = false; running = true }

meet_all-track_example :
    seen_of (
      lookup
        (codes "you")
        (meet_all here (heard (beacon_of (codes "you")) 5 ∷ tick 20000000000 ∷ [])).peers)
    ≡ track_all
        (codes "me")
        (codes "you")
        none
        (heard (beacon_of (codes "you")) 5 ∷ tick 20000000000 ∷ [])
unfolding lookup
meet_all-track_example =
    meet_all-track here (codes "you") (heard (beacon_of (codes "you")) 5 ∷ tick 20000000000 ∷ []) tt

other_node : codes "you" ≢ codes "me"
other_node e = cc

meet_all-alive_example :
    (p : Peer) × (lookup
        (codes "you")
        (meet_all here (
          heard (beacon_of (codes "you")) 5
          ∷ tick 5000000000
          ∷ heard (beacon_of (codes "me")) 6000000000
          ∷ [])).peers
      ≡ some p)
    × (5 ≤ p.last_seen)
meet_all-alive_example =
    meet_all-alive here (beacon_of (codes "you")) 5
      (tick 5000000000 ∷ heard (beacon_of (codes "me")) 6000000000 ∷ []) tt other_node
      ((omega arith, omega arith), ((omega arith, omega arith), tt))
