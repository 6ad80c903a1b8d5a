-- ===== src/Mesh/Peers/Known.antt =====
-- core/mesh_discovery.go: which nodes are known behind any sequence of beacons and ticks.
use aethercore.Prelude.{
  ℕ, ◌+◌, ◌≤◌, ◌≡◌, ◌≢◌, refl, ap, ◌∙◌, sym, subst, inl, inr, arith, Bool, Bool-cases, not, ◌&&◌,
  Option, none, some, List, [], ◌∷◌, All, lookup, Distinct, unless, lookup-insert,
  lookup-delete_where, insert-Distinct, delete_where-Distinct, ltb, ◌==◌, eq_list, eq_nat,
  list_eq_iff, if◌then◌else◌,
}
use aethercore.Prelude.Text.{Text}
use aethercore.Mesh.Peers.{
  PeerBeacon, Peer, MeshDiscovery, mesh_peer_timeout, refresh, upsert_peer, is_stale,
  evict_stale_peers, broadcast, announce,
}

-- What a node meets: a beacon at a time, or the tick of its announcements.
pub data Act : Type 0 where
  heard : PeerBeacon → ℕ → Act
  tick : ℕ → Act

abbrev pub meet : MeshDiscovery → Act → MeshDiscovery
meet m (heard b now) = upsert_peer m b now
meet m (tick now) = announce m now

abbrev pub meet_all : MeshDiscovery → List Act → MeshDiscovery
meet_all m [] = m
meet_all m (a ∷ as_) = meet_all (meet m a) as_

-- The address and the time of the last beacon of one node, unless it was too old at a tick.
abbrev pub Seen : Type 0
Seen = Option (Text × ℕ)

abbrev pub too_old : ℕ → Text × ℕ → Bool
too_old now s = ltb (s.1 + mesh_peer_timeout) now

abbrev pub track : Text → Text → Seen → Act → Seen
track self id seen (heard b now) =
    if (b.node_id == id) && not (b.node_id == self) then some (b.grpc_addr, now) else seen
track self id seen (tick now) = unless (too_old now) seen

abbrev pub track_all : Text → Text → Seen → List Act → Seen
track_all self id seen [] = seen
track_all self id seen (a ∷ as_) = track_all self id (track self id seen a) as_

abbrev pub seen_of : Option Peer → Seen
seen_of none = none
seen_of (some p) = some (p.grpc_addr, p.last_seen)

refresh-seen :
    (o : Option Peer) (b : PeerBeacon) (now : ℕ)
    → seen_of (some (refresh o b now)) ≡ some (b.grpc_addr, now)
unfolding refresh
refresh-seen none b now = refl
refresh-seen (some p) b now = ground (arith, list_eq_iff p.grpc_addr b.grpc_addr)

unless-seen :
    (o : Option Peer) (now : ℕ)
    → seen_of (unless (is_stale now) o) ≡ unless (too_old now) (seen_of o)
unfolding is_stale
unless-seen none now = refl
unless-seen (some p) now = ground arith

meet-track :
    (m : MeshDiscovery) (id : Text) (a : Act)
    → Distinct m.peers
    → seen_of (lookup id (meet m a).peers)
      ≡ track m.beacon.node_id id (seen_of (lookup id m.peers)) a
unfolding upsert_peer announce evict_stale_peers broadcast
meet-track m id (heard b now) d = elim (Bool-cases (b.node_id == m.beacon.node_id)) [
  | inl own ↦ rw (own, upsert_peer) (ground arith)
  | inr other ↦
      rw (other, upsert_peer)
        (ground (
          arith,
          lookup-insert b.node_id id (refresh (lookup b.node_id m.peers) b now) m.peers,
          refresh-seen (lookup b.node_id m.peers) b now,
        ))
]
meet-track m id (tick now) d =
    ap seen_of (lookup-delete_where (is_stale now) id m.peers d)
    ∙ unless-seen (lookup id m.peers) now

meet-Distinct : (m : MeshDiscovery) (a : Act) → Distinct m.peers → Distinct (meet m a).peers
unfolding upsert_peer announce evict_stale_peers broadcast
meet-Distinct m (heard b now) d = elim (Bool-cases (b.node_id == m.beacon.node_id)) [
  | inl own ↦ rw (own, upsert_peer) d
  | inr other ↦ rw (other, upsert_peer) (insert-Distinct b.node_id _ m.peers d)
]
meet-Distinct m (tick now) d = delete_where-Distinct (is_stale now) m.peers d

meet_self : (m : MeshDiscovery) (a : Act) → (meet m a).beacon.node_id ≡ m.beacon.node_id
unfolding upsert_peer announce evict_stale_peers broadcast
meet_self m (heard b now) = elim (Bool-cases (b.node_id == m.beacon.node_id)) [
  | inl own ↦ rw (own, upsert_peer) refl
  | inr other ↦ rw (other, upsert_peer) refl
]
meet_self m (tick now) = refl

-- Behind any beacons and ticks, in any order, a node is known exactly where its last beacon was not
-- too old at a tick behind it, with the address of this beacon and its time; what other nodes send
-- plays no part, and a node is never a peer of itself.
pub meet_all-track :
    (m : MeshDiscovery) (id : Text) (as_ : List Act)
    → Distinct m.peers
    → seen_of (lookup id (meet_all m as_).peers)
      ≡ track_all m.beacon.node_id id (seen_of (lookup id m.peers)) as_
meet_all-track m id [] d = refl
meet_all-track m id (a ∷ as_) d =
    meet_all-track (meet m a) id as_ (meet-Distinct m a d)
    ∙ ap (λ self. track_all self id (seen_of (lookup id (meet m a).peers)) as_) (meet_self m a)
    ∙ ap (λ seen. track_all m.beacon.node_id id seen as_) (meet-track m id a d)

abbrev pub time_of : Act → ℕ
time_of (heard b now) = now
time_of (tick now) = now

-- An act between the time `t` and the timeout behind it.
abbrev pub Soon : ℕ → Act → Type 0
Soon t a = (t ≤ time_of a) × (time_of a ≤ t + mesh_peer_timeout)

-- A beacon at `t` or later.
abbrev pub SeenSince : ℕ → Seen → Type 0
SeenSince t none = ⊥
SeenSince t (some s) = t ≤ s.1

track-SeenSince :
    (self id : Text) (t : ℕ) (seen : Seen) (a : Act)
    → Soon t a
    → SeenSince t seen
    → SeenSince t (track self id seen a)
track-SeenSince self id t none a soon h = elim h [ ]
track-SeenSince self id t (some s) (heard b now) soon h =
    elim (Bool-cases ((b.node_id == id) && not (b.node_id == self))) [
      | inl new ↦ rw new soon.0
      | inr old ↦ rw old h
    ]
track-SeenSince self id t (some s) (tick now) soon h = elim (Bool-cases (too_old now s)) [
  | inl old ↦ absurd (ground arith)
  | inr young ↦ rw young h
]

track_all-SeenSince :
    (self id : Text) (t : ℕ) (seen : Seen) (as_ : List Act)
    → All (Soon t) as_
    → SeenSince t seen
    → SeenSince t (track_all self id seen as_)
track_all-SeenSince self id t seen [] soon h = h
track_all-SeenSince self id t seen (a ∷ as_) soon h =
    track_all-SeenSince self id t (track self id seen a) as_ soon.1
      (track-SeenSince self id t seen a soon.0 h)

first_beacon :
    (self : Text) (seen : Seen) (b : PeerBeacon) (t : ℕ)
    → b.node_id ≢ self
    → SeenSince t (track self b.node_id seen (heard b t))
first_beacon self seen b t other =
    ground (arith, list_eq_iff b.node_id b.node_id, list_eq_iff b.node_id self)

found_since :
    (t : ℕ) (o : Option Peer)
    → SeenSince t (seen_of o)
    → (p : Peer) × (o ≡ some p) × (t ≤ p.last_seen)
found_since t none h = elim h [ ]
found_since t (some p) h = (p, refl, h)

-- Another node that is heard at a time `t` stays known, as last seen at `t` or later, through any
-- beacons and ticks of the next 15 seconds.
pub meet_all-alive :
    (m : MeshDiscovery) (b : PeerBeacon) (t : ℕ) (as_ : List Act)
    → Distinct m.peers
    → b.node_id ≢ m.beacon.node_id
    → All (Soon t) as_
    → (p : Peer) × (lookup b.node_id (meet_all m (heard b t ∷ as_)).peers ≡ some p)
      × (t ≤ p.last_seen)
meet_all-alive m b t as_ d other soon =
    found_since t (lookup b.node_id (meet_all m (heard b t ∷ as_)).peers) (
      subst (λ seen. SeenSince t seen) (sym (meet_all-track m b.node_id (heard b t ∷ as_) d))
        (track_all-SeenSince m.beacon.node_id b.node_id t _ as_ soon
          (first_beacon m.beacon.node_id (seen_of (lookup b.node_id m.peers)) b t other)))
