-- ===== src/Manager/Refusals.antt =====
-- What becomes of a peer of internal/litenetlib/manager.go whose protocol the other side does not know.
use scpxy.Base.{ℕ, ◌≡◌, refl, true, some, List, [], ◌>>=◌}
use scpxy.Base.Assoc.{lookup, nat_key, bytes_key}
use scpxy.Wire.{invalid_protocol}
use scpxy.Packet.{packet, property, verify, prop_invalid_protocol}
use scpxy.Peer.{Peer, UdpAddr, outgoing, disconnected}
use scpxy.Peer.Connect.{shutdown}
use scpxy.Peer.Process.{Now}
use scpxy.Manager.{Manager, put_peer, disconnect_peer_force, connect}
use scpxy.Manager.Route.{peer_of, receive, on_refusal}

-- An outgoing peer ends without a report, unless its connection failed or was rejected.
force_outgoing :
    (m : Manager) (id : ℕ) (p : Peer)
    → lookup id m.store ≡ some p
    → p.state ≡ outgoing
    → disconnect_peer_force m id invalid_protocol []
      ≡ some (put_peer m id (record p { state = disconnected }), [])
unfolding disconnect_peer_force shutdown
force_outgoing m id p there asks = rw (disconnect_peer_force, there, ◌>>=◌, shutdown, asks) refl

-- A peer that connects is told that its protocol is not known: the peer is disconnected, the manager
-- reports nothing, the peer stays in the map, and a later `Connect` to its address does nothing.
pub receive_invalid_protocol :
    (t : Now) (m : Manager) (bytes : List ℕ) (addr : UdpAddr) (id : ℕ) (p : Peer) (now : ℕ)
    (connect_data : List ℕ)
    → lookup addr.text m.peers ≡ some id
    → lookup id m.store ≡ some p
    → p.state ≡ outgoing
    → verify (packet bytes) ≡ true
    → property (packet bytes) ≡ some prop_invalid_protocol
    → let m' : Manager = put_peer m id (record p { state = disconnected }) in
      (receive t m bytes addr ≡ some (m', [])) × (connect m' addr now connect_data ≡ some (m', []))
unfolding receive peer_of on_refusal connect
receive_invalid_protocol t m bytes addr id p now connect_data known there asks good first = (
  rw (receive, good, first, ◌>>=◌, peer_of, known, ◌>>=◌, there, ◌>>=◌, on_refusal, asks)
      (force_outgoing m id p there asks),
  rw (connect, known) refl,
)
