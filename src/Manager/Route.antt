-- ===== src/Manager/Route.antt =====
-- `receive`, `processConnectRequest`, `update` and `Stop` of internal/litenetlib/manager.go.
use scpxy.Base.{
  ℕ, ◌+◌, ◌^◌, ◌%◌, Bool, true, false, not, ◌&&◌, ◌||◌, Option, none, some, List, [], ◌∷◌, ◌++◌,
  ltb, ◌==◌, if◌then◌else◌, ◌>>=◌,
}
use scpxy.Base.Assoc.{lookup, insert, erase, nat_key, bytes_key}
use scpxy.Wire.{
  Delivery, DisconnectReason, protocol_id, remote_connection_close, connection_rejected,
  invalid_protocol, peer_not_found, reconnect,
}
use scpxy.Packet.{
  Packet, packet, size, property, verify, prop_connect_request, prop_connect_accept,
  prop_disconnect, prop_invalid_protocol, prop_peer_not_found, prop_unconnected_message,
  prop_broadcast, prop_nat_message, prop_shutdown_ok,
}
use scpxy.Peer.{ConnectionState, outgoing, connected, disconnected, Peer, UdpAddr, slice_from}
use scpxy.Peer.Connect.{
  Request, process_connect_accept, process_disconnect, is_outgoing, is_connected, shutdown, uint_at,
}
use scpxy.Peer.Process.{Now, process_packet}
use scpxy.Peer.Update.{Tick}
use scpxy.Peer.Update as Update
use scpxy.Manager.{
  Manager, ConnectionRequest, Event, sends, asked, peer_connected, put_peer, disconnect_peer_force,
  perform, send_property, parse_connect_request, resolve_request,
}

-- The peer of an address.
unfoldable pub peer_of : Manager → UdpAddr → Option (ℕ × Peer)
peer_of m addr = lookup addr.text m.peers >>= λ id. lookup id m.store >>= λ p. some (id, p)

-- `a < b` of two `int64`, given by their bits.
abbrev pub signed_ltb : ℕ → ℕ → Bool
signed_ltb a b = ltb ((a + 2 ^ 63) % 2 ^ 64) ((b + 2 ^ 63) % 2 ^ 64)

-- What becomes of the peer that a new request finds: it stays as it is and the request is dropped
-- (`none` inside), or it has to go.
unfoldable pub replace_peer :
    Manager → Request → ℕ → Peer → Option (Option (Manager × List Event) × List Event)
replace_peer m req id p =
    let gone : Option (Option (Manager × List Event) × List Event) =
      disconnect_peer_force m id reconnect [] >>= λ r. some (some r, []) in
    elim p.state [
      | outgoing ↦ some (none, [])
      | connected ↦
          if req.connection_time == p.connect_time
          then elim p.connect_accept_packet [
            | none ↦ none
            | some accept ↦ some (none, sends p.addr accept.bytes ∷ [])
          ]
          else if signed_ltb req.connection_time p.connect_time
          then some (none, [])
          else gone
      | _ ↦ if signed_ltb req.connection_time p.connect_time then some (none, []) else gone
    ]

-- `processConnectRequest` behind the old peer: a request that waits is renewed, or a new one is made.
unfoldable pub raise_request : Manager → Request → Option (Manager × List Event)
raise_request m req = elim (lookup req.addr.text m.requests) [
  | some number ↦ lookup number m.request_store >>= λ old.
      let renewed : ConnectionRequest = record old { internal = req } in
      some (record m { request_store = insert number renewed m.request_store }, [])
  | none ↦
      let number : ℕ = m.request_count + 1 in
      let request : ConnectionRequest = record { internal = req; resolved = false } in
      let m' : Manager = record m {
        request_count = number;
        request_store = insert number request m.request_store;
        requests = insert req.addr.text number m.requests;
      } in
      if m.has_request_handler
      then some (m', asked number ∷ [])
      else resolve_request m' number false []
]

-- `processConnectRequest`
unfoldable pub process_connect_request :
    Manager → Request → Option (ℕ × Peer) → Option (Manager × List Event)
process_connect_request m req found = if not m.accept then some (m, []) else elim found [
  | none ↦ raise_request m req
  | some (id, p) ↦ replace_peer m req id p >>= λ r. elim r.0 [
    | none ↦ some (m, r.1)
    | some (m', events) ↦
        raise_request (record m' { peers = erase req.addr.text m'.peers }) req >>= λ last.
        some (last.0, events ++ last.1)
  ]
]

-- A datagram with a connect request.
unfoldable pub on_connect_request :
    Manager → Packet → UdpAddr → Option (ℕ × Peer) → Option (Manager × List Event)
on_connect_request m p addr found = uint_at p 4 1 >>= λ protocol.
    if not (protocol == protocol_id)
    then (send_property prop_invalid_protocol addr >>= λ es. some (m, es))
    else (parse_connect_request p addr >>= λ parsed. elim parsed [
      | none ↦ some (m, [])
      | some req ↦ process_connect_request m req found
    ])

unfoldable pub on_connect_accept :
    Manager → Packet → Option (ℕ × Peer) → Option (Manager × List Event)
on_connect_accept m p none = some (m, [])
on_connect_accept m p (some (id, peer)) = process_connect_accept peer p >>= λ r.
    some (put_peer m id r.0, if r.1 then peer_connected id ∷ [] else [])

-- The part of a disconnect that depends on the peer.
unfoldable pub disconnect_known : Manager → Packet → ℕ → Peer → Option (Manager × List Event)
disconnect_known m p id peer = process_disconnect peer p >>= λ valid.
    if valid
    then (slice_from p.bytes 9 >>= λ message.
        disconnect_peer_force m id
          (if is_outgoing peer.state then connection_rejected else remote_connection_close) message)
    else some (m, [])

unfoldable pub on_disconnect :
    Manager → Packet → UdpAddr → Option (ℕ × Peer) → Option (Manager × List Event)
on_disconnect m p addr found =
    let first : Option (Manager × List Event) = elim found [
      | none ↦ some (m, [])
      | some (id, peer) ↦ disconnect_known m p id peer
    ] in
    first >>= λ r. send_property prop_shutdown_ok addr >>= λ es. some (r.0, r.1 ++ es)

-- The other side does not know the protocol, or the peer.
unfoldable pub on_refusal :
    Manager
    → Option (ℕ × Peer)
    → (ConnectionState → Bool)
    → DisconnectReason
    → Option (Manager × List Event)
on_refusal m none applies reason = some (m, [])
on_refusal m (some (id, peer)) applies reason =
    if applies peer.state then disconnect_peer_force m id reason [] else some (m, [])

-- Any other packet is its peer's.
unfoldable pub on_other :
    Now → Manager → Packet → UdpAddr → Option (ℕ × Peer) → Option (Manager × List Event)
on_other t m p addr none = send_property prop_peer_not_found addr >>= λ es. some (m, es)
on_other t m p addr (some (id, peer)) =
    process_packet (size p + 1) t peer p >>= λ r. perform (put_peer m id r.0) id peer.addr r.1

-- `receive`
unfoldable pub receive : Now → Manager → List ℕ → UdpAddr → Option (Manager × List Event)
receive t m bytes addr =
    let p : Packet = packet bytes in
    let found : Option (ℕ × Peer) = peer_of m addr in
    if not (verify p)
    then some (m, [])
    else (property p >>= λ kind.
        if kind == prop_connect_request
        then on_connect_request m p addr found
        else if kind == prop_connect_accept
        then on_connect_accept m p found
        else if kind == prop_disconnect
        then on_disconnect m p addr found
        else if kind == prop_invalid_protocol
        then on_refusal m found is_outgoing invalid_protocol
        else if kind == prop_peer_not_found
        then on_refusal m found is_connected peer_not_found
        else if kind == prop_unconnected_message
            || (kind == prop_broadcast || kind == prop_nat_message)
        then some (m, [])
        else on_other t m p addr found)

abbrev pub is_disconnected : ConnectionState → Bool
is_disconnected disconnected = true
is_disconnected _ = false

-- One peer of `update`, by its address. One that was deleted on the way is not visited.
unfoldable pub update_peer : (ℕ → Tick) → Manager → List ℕ → Option (Manager × List Event)
update_peer ticks m key = elim (lookup key m.peers) [
  | none ↦ some (m, [])
  | some id ↦ lookup id m.store >>= λ p.
      if is_disconnected p.state && ltb m.settings.disconnect_timeout p.since_last_packet
      then some (record m { peers = erase key m.peers }, [])
      else (Update.update (ticks id) p >>= λ r. perform (put_peer m id r.0) id p.addr r.1)
]

-- `update`: Go visits the map in an order of its own, which is an argument.
unfoldable pub update : (ℕ → Tick) → Manager → List (List ℕ) → Option (Manager × List Event)
update ticks m [] = some (m, [])
update ticks m (key ∷ keys) =
    update_peer ticks m key >>= λ r. update ticks r.0 keys >>= λ rest. some (rest.0, r.1 ++ rest.1)

-- `Send` of a peer, which its id names.
unfoldable pub send : Manager → ℕ → List ℕ → ℕ → Delivery → Option Manager
send m id message channel d =
    lookup id m.store >>= λ p. Update.send p message channel d >>= λ p'. some (put_peer m id p')

-- The command of `Stop`: each peer of the map is shut down.
unfoldable pub stop : Manager → List (List ℕ) → Option (Manager × List Event)
stop m [] = some (m, [])
stop m (key ∷ keys) = elim (lookup key m.peers) [
  | none ↦ stop m keys
  | some id ↦ lookup id m.store >>= λ p. shutdown p [] false >>= λ r.
      perform (put_peer m id r.0) id p.addr r.2 >>= λ first.
      stop first.0 keys >>= λ rest. some (rest.0, first.1 ++ rest.1)
]
