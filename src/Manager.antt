-- ===== src/Manager.antt =====
-- internal/litenetlib/manager.go: the peers of a socket and the requests to connect. A peer goes by its
-- id and a request by a number: the maps and the handlers hold these, and the store what they point to.
-- The handlers' calls and the datagrams sent are events, in their order. `none` is a panic.
pub mod Route
pub mod Packets
pub mod Numbered
pub mod Handshake
pub mod Strangers
pub mod Refusals
mod Tests
use scpxy.Base.{
  ℕ, ◌+◌, ◌-◌, ◌*◌, ◌^◌, ◌%◌, Bool, true, false, not, ◌&&◌, ◌||◌, Option, none, some, List, [], ◌∷◌,
  ◌++◌, length, get_elem?, drop, ltb, leb, ◌==◌, if◌then◌else◌, ◌>>=◌,
}
use scpxy.Base.Assoc.{lookup, insert, erase, nat_key, bytes_key}
use scpxy.Wire.{
  Delivery, DisconnectReason, connection_failed, connection_rejected, disconnect_peer_called,
  connect_request_header, max_connection_number, default_channels_count, default_ping_interval,
  default_disconnect_after, default_reconnect_delay, default_connect_attempts,
  default_update_interval,
}
use scpxy.Packet.{Packet, packet, size, new_packet, connection_number}
use scpxy.Peer.{
  Peer, Settings, UdpAddr, Call, send_raw, dispatch_receive, disconnect_force, slice_from,
}
use scpxy.Peer.Connect.{
  Request, shutdown, disconnect_header, tell, new_accepted_peer, new_outgoing_peer, uint_at,
}

-- `Config`, as far as it is numbers, and its defaults.
pub record Config : Type 0 where
  pub channels_count : ℕ
  pub ping_interval : ℕ
  pub disconnect_timeout : ℕ
  pub reconnect_delay : ℕ
  pub max_connect_attempts : ℕ
  pub update_interval : ℕ

abbrev or_default : ℕ → ℕ → ℕ
or_default v d = if v == 0 then d else v

unfoldable pub apply_defaults : Config → Config
apply_defaults c = record {
  channels_count = or_default c.channels_count default_channels_count;
  ping_interval = or_default c.ping_interval default_ping_interval;
  disconnect_timeout = or_default c.disconnect_timeout default_disconnect_after;
  reconnect_delay = or_default c.reconnect_delay default_reconnect_delay;
  max_connect_attempts = or_default c.max_connect_attempts default_connect_attempts;
  update_interval = or_default c.update_interval default_update_interval;
}

pub data Event : Type 0 where
  sends : UdpAddr → List ℕ → Event
  asked : ℕ → Event
  peer_connected : ℕ → Event
  peer_disconnected : ℕ → DisconnectReason → List ℕ → Event
  received : ℕ → List ℕ → ℕ → Delivery → Event

pub record ConnectionRequest : Type 0 where
  pub internal : Request
  pub resolved : Bool

pub record Manager : Type 0 where
  pub settings : Settings
  pub accept : Bool
  pub has_request_handler : Bool
  pub store : List (ℕ × Peer)
  pub peers : List (List ℕ × ℕ)
  pub request_store : List (ℕ × ConnectionRequest)
  pub requests : List (List ℕ × ℕ)
  pub request_count : ℕ
  pub last_id : ℕ

abbrev pub put_peer : Manager → ℕ → Peer → Manager
put_peer m id p = record m { store = insert id p m.store }

-- What has been reported is one of these two.
abbrev pub is_refusal : DisconnectReason → Bool
is_refusal connection_failed = true
is_refusal connection_rejected = true
is_refusal _ = false

-- `disconnectPeerForce`
unfoldable pub disconnect_peer_force :
    Manager → ℕ → DisconnectReason → List ℕ → Option (Manager × List Event)
disconnect_peer_force m id reason message = lookup id m.store >>= λ p. shutdown p [] true >>= λ r.
    let m' : Manager = put_peer m id r.0 in
    some (
      if not r.1 && not (is_refusal reason) then (m', []) else (
        record m' { peers = erase p.addr.text m.peers },
        peer_disconnected id reason message ∷ [],
      ))

-- The calls of a peer, one after the other.
unfoldable pub perform : Manager → ℕ → UdpAddr → List Call → Option (Manager × List Event)
perform m id addr [] = some (m, [])
perform m id addr (send_raw bs ∷ cs) = perform m id addr cs >>= λ r. some (r.0, sends addr bs ∷ r.1)
perform m id addr (dispatch_receive bs channel d ∷ cs) =
    perform m id addr cs >>= λ r. some (r.0, received id bs channel d ∷ r.1)
perform m id addr (disconnect_force reason ∷ cs) = disconnect_peer_force m id reason [] >>= λ first.
    perform first.0 id addr cs >>= λ r. some (r.0, first.1 ++ r.1)

-- `sendProperty`
abbrev pub send_property : ℕ → UdpAddr → Option (List Event)
send_property prop addr = new_packet prop 0 >>= λ p. some (sends addr p.bytes ∷ [])

-- `disconnectPeer`
unfoldable pub disconnect_peer : Manager → ℕ → List ℕ → Option (Manager × List Event)
disconnect_peer m id message = lookup id m.store >>= λ p. shutdown p message false >>= λ r.
    perform (put_peer m id r.0) id p.addr r.2 >>= λ done.
    some
      (done.0, done.1 ++ (if r.1 then peer_disconnected id disconnect_peer_called [] ∷ [] else []))

-- `Connect`, at the tick `now`.
unfoldable pub connect : Manager → UdpAddr → ℕ → List ℕ → Option (Manager × List Event)
connect m addr now connect_data = elim (lookup addr.text m.peers) [
  | some id ↦ some (m, [])
  | none ↦
      let id : ℕ = m.last_id + 1 in
      new_outgoing_peer m.settings addr now id 0 connect_data >>= λ r.
      let m' : Manager = record m {
        last_id = id;
        store = insert id r.0 m.store;
        peers = insert addr.text id m.peers;
      } in
      perform m' id addr r.1
]

-- `parseConnectRequest`: `none` inside is `ErrBadPacket`.
unfoldable pub parse_connect_request : Packet → UdpAddr → Option (Option Request)
parse_connect_request p addr =
    if ltb (size p) connect_request_header
    then some none
    else (connection_number p >>= λ num. get_elem? p.bytes (connect_request_header - 1) >>= λ len.
        if leb max_connection_number num
        then some none
        else if not (len == 16) && not (len == 28)
        then some none
        else if ltb (size p) (connect_request_header + len)
        then some none
        else (uint_at p 8 5 >>= λ time. uint_at p 4 13 >>= λ id.
            slice_from p.bytes (connect_request_header + len) >>= λ payload. some (
              some (record {
                addr = addr;
                connection_time = time;
                connection_number = num;
                peer_id = id;
                payload = payload;
              }))))

-- The answer to a request that is refused.
unfoldable pub reject_packet : Request → List ℕ → Option Packet
reject_packet req message =
    disconnect_header req.connection_time req.connection_number (length message) >>= λ p.
    if ltb 0 (length message) then tell p message else some p

-- `resolveRequest`
unfoldable pub resolve_request : Manager → ℕ → Bool → List ℕ → Option (Manager × List Event)
resolve_request m number accept message = lookup number m.request_store >>= λ request.
    let req : Request = request.internal in
    let m₁ : Manager = record m {
      request_store = insert number (record request { resolved = true }) m.request_store;
      requests = erase req.addr.text m.requests;
    } in
    if request.resolved
    then some (m, [])
    else if not accept
    then (reject_packet req message >>= λ p. some (m₁, sends req.addr p.bytes ∷ []))
    else elim (lookup req.addr.text m.peers) [
      | some id ↦ some (m₁, [])
      | none ↦
          let id : ℕ = m.last_id + 1 in
          new_accepted_peer m.settings req id >>= λ r.
          let m₂ : Manager = record m₁ {
            last_id = id;
            store = insert id r.0 m.store;
            peers = insert req.addr.text id m.peers;
          } in
          perform m₂ id req.addr r.1 >>= λ done. some (done.0, done.1 ++ (peer_connected id ∷ []))
    ]
