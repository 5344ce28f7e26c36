-- ===== src/Peer/Connect.antt =====
-- How a connection of peer.go begins and ends: the outgoing and the accepted peer, the answer to a
-- request, `processDisconnect` and `shutdown`. Times and ids are the bit patterns that are sent.
use scpxy.Base.{
  ℕ, ◌+◌, ◌-◌, ◌/◌, ◌%◌, ◌^◌, Bool, true, false, not, ◌&&◌, Option, none, some, List, [], ◌∷◌,
  length, get_elem?, take, drop, replicate, ltb, leb, ◌==◌, if◌then◌else◌, ◌>>=◌,
}
use scpxy.Base.LittleEndian.{le_bytes, le_value}
use scpxy.Base.Assoc.{bytes_beq}
use scpxy.Base.Slice.{read, put, write}
use scpxy.Wire.{
  protocol_id, connect_request_header, connect_accept_size, max_connection_number,
  address_family_ipv4, address_family_ipv6,
}
use scpxy.Packet.{
  Packet, packet, size, new_packet, connection_number, set_connection_number, prop_connect_request,
  prop_connect_accept, prop_disconnect,
}
use scpxy.Peer.{
  ConnectionState, outgoing, connected, shutdown_requested, disconnected, Peer, Settings, UdpAddr,
  Call, send_raw, new_peer, set_connection_num, copy_at,
}

-- `net.IP.To4`: the four bytes of an IPv4 address, also of one within IPv6.
unfoldable pub to4 : List ℕ → Option (List ℕ)
to4 ip =
    if length ip == 4
    then some ip
    else if length ip == 16
        && bytes_beq (take 12 ip) (0 ∷ 0 ∷ 0 ∷ 0 ∷ 0 ∷ 0 ∷ 0 ∷ 0 ∷ 0 ∷ 0 ∷ 255 ∷ 255 ∷ [])
    then some (drop 12 ip)
    else none

-- `serializeSocketAddress`: the family, the port with its high byte first, the address.
unfoldable pub serialize_socket_address : UdpAddr → List ℕ
serialize_socket_address a =
    let port : List ℕ = (a.port / 256 % 256) ∷ (a.port % 256) ∷ [] in
    elim (to4 a.ip) [
      | some ip4 ↦
          write (write (write (replicate 16 0) 0 (le_bytes 2 address_family_ipv4)) 2 port) 4 ip4
      | none ↦
          write (write (write (replicate 28 0) 0 (le_bytes 2 address_family_ipv6)) 2 port) 8
            (if length a.ip == 16 then a.ip else [])
    ]

-- A number of `n` bytes written at a place, and read there.
abbrev pub put_uint : Packet → ℕ → ℕ → ℕ → Option Packet
put_uint p n at v = do bs ← put p.bytes at (le_bytes n v); some (packet bs)

abbrev pub uint_at : Packet → ℕ → ℕ → Option ℕ
uint_at p n at = do bs ← read n p.bytes at; some (le_value bs)

-- The request of `newOutgoingPeer`.
unfoldable pub connect_request : ℕ → ℕ → ℕ → List ℕ → List ℕ → Option Packet
connect_request time id num target connect_data = do
  p ← new_packet prop_connect_request (length connect_data + length target)
  p₁ ← put_uint p 4 1 protocol_id
  p₂ ← put_uint p₁ 8 5 time
  p₃ ← put_uint p₂ 4 13 id
  bs ← put p₃.bytes (connect_request_header - 1) ((length target % 256) ∷ [])
  bs₁ ← copy_at bs connect_request_header target
  bs₂ ← copy_at bs₁ (connect_request_header + length target) connect_data
  set_connection_number (packet bs₂) num

-- `newOutgoingPeer`, at the tick `now`.
unfoldable pub new_outgoing_peer :
    Settings → UdpAddr → ℕ → ℕ → ℕ → List ℕ → Option (Peer × List Call)
new_outgoing_peer s addr now id num connect_data = do
  p ← new_peer s addr id
  p₁ ← set_connection_num (record p { connect_time = now; state = outgoing }) num
  request ← connect_request now id num (serialize_socket_address addr) connect_data
  some (record p₁ { connect_request_packet = some request }, send_raw request.bytes ∷ [])

-- The answer of `newAcceptedPeer`.
unfoldable pub connect_accept : ℕ → ℕ → ℕ → Option Packet
connect_accept time num id = do
  p ← new_packet prop_connect_accept 0
  p₁ ← put_uint p 8 1 time
  bs ← put p₁.bytes 9 (num ∷ [])
  put_uint (packet bs) 4 11 id

-- A parsed request, `connectRequest`.
pub record Request : Type 0 where
  pub addr : UdpAddr
  pub connection_time : ℕ
  pub connection_number : ℕ
  pub peer_id : ℕ
  pub payload : List ℕ

-- `newAcceptedPeer`
unfoldable pub new_accepted_peer : Settings → Request → ℕ → Option (Peer × List Call)
new_accepted_peer s req id = do
  p ← new_peer s req.addr id
  p₁ ← set_connection_num (record p { connect_time = req.connection_time }) req.connection_number
  accept ← connect_accept req.connection_time req.connection_number id
  some (
    record p₁ { remote_id = req.peer_id; connect_accept_packet = some accept; state = connected },
    send_raw accept.bytes ∷ [],
  )

abbrev pub is_outgoing : ConnectionState → Bool
is_outgoing outgoing = true
is_outgoing _ = false

abbrev pub is_connected : ConnectionState → Bool
is_connected connected = true
is_connected _ = false

-- `processConnectAccept`, whose id is negative from 2^31 on.
unfoldable pub process_connect_accept : Peer → Packet → Option (Peer × Bool)
process_connect_accept p pkt =
    if not (is_outgoing p.state)
    then some (p, false)
    else if not (size pkt == connect_accept_size)
    then some (p, false)
    else (uint_at pkt 8 1 >>= λ time.
        if not (time == p.connect_time)
        then some (p, false)
        else (get_elem? pkt.bytes 9 >>= λ num.
            if leb max_connection_number num
            then some (p, false)
            else (uint_at pkt 4 11 >>= λ id.
                if leb (2 ^ 31) id
                then some (p, false)
                else (set_connection_num p num >>= λ p₁. some (
                  record p₁ { remote_id = id; since_last_packet = 0; state = connected },
                  true,
                )))))

-- `processDisconnect`
unfoldable pub process_disconnect : Peer → Packet → Option Bool
process_disconnect p pkt =
    if not (is_connected p.state) && not (is_outgoing p.state)
    then some false
    else if ltb (size pkt) 9
    then some false
    else (uint_at pkt 8 1 >>= λ time.
        if not (time == p.connect_time)
        then some false
        else (connection_number pkt >>= λ num. some (num == p.connect_num)))

-- A disconnect packet of a connection, with room for what it tells, and what it tells put in.
unfoldable pub disconnect_header : ℕ → ℕ → ℕ → Option Packet
disconnect_header time num len = do
  p ← new_packet prop_disconnect len
  p₁ ← set_connection_number p num
  put_uint p₁ 8 1 time

abbrev pub tell : Packet → List ℕ → Option Packet
tell p reason = copy_at p.bytes 9 reason >>= λ bs. some (packet bs)

unfoldable pub shutdown_packet : Peer → List ℕ → Option Packet
shutdown_packet p reason = disconnect_header p.connect_time p.connect_num (length reason) >>= λ pkt.
    if ltb 0 (length reason) && ltb (size pkt) p.path.mtu then tell pkt reason else some pkt

-- `shutdown`: the peer, whether it was connected, and what is sent.
unfoldable pub shutdown : Peer → List ℕ → Bool → Option (Peer × Bool × List Call)
shutdown p reason force =
    if not (is_connected p.state) && not (is_outgoing p.state)
    then some (p, false, [])
    else if force
    then some (record p { state = disconnected }, is_connected p.state, [])
    else (shutdown_packet p reason >>= λ pkt. some (
      record p { since_last_packet = 0; shutdown_packet = some pkt; state = shutdown_requested },
      is_connected p.state,
      send_raw pkt.bytes ∷ [],
    ))
