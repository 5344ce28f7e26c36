-- ===== src/Peer/Update.antt =====
-- `send` and `update` of peer.go, and the messages' sizes.
use scpxy.Base.{
  ℕ, ◌+◌, ◌-◌, ◌*◌, ◌%◌, Bool, true, false, not, Option, none, some, List, [], ◌∷◌, ◌++◌, length,
  ltb, leb, if◌then◌else◌, ◌>>=◌,
}
use scpxy.Wire.{
  Delivery, reliable_ordered, reliable_unordered, sequenced, reliable_sequenced, delivery_byte,
  timeout, connection_failed, channel_type_count, shutdown_resend_delay, fragment_header_size,
}
use scpxy.Wire as Wire
use scpxy.Packet.{
  Packet, packet, new_packet, sequence, set_sequence, property_header_size, prop_unreliable,
  prop_channeled,
}
use scpxy.Peer.{
  ConnectionState, outgoing, connected, shutdown_requested, disconnected, Peer, Ping, Settings,
  Call, send_raw, disconnect_force, copy_at, NetChannel, Lane,
}
use scpxy.Peer.Connect.{is_connected}
use scpxy.Peer.Discovery.{update_mtu_logic}
use scpxy.Peer.Fragments.{total_packets, split_message}
use scpxy.Peer.Lanes.{
  Moment, create_channel, store_channel, enqueue_channel_at, lane_enqueue, send_pending,
}
use scpxy.Peer.Merge.{flush_unreliable}
use scpxy.Peer.Process.{update_round_trip_time}

-- The bytes that a packet of this delivery has before its message.
abbrev pub property_of : Delivery → ℕ
property_of Wire.unreliable = prop_unreliable
property_of _ = prop_channeled

-- `MaxSinglePacketSize`
unfoldable pub max_single_packet_size : Peer → Delivery → ℕ
max_single_packet_size p d = p.path.mtu - property_header_size (property_of d)

abbrev pub is_unreliable : Delivery → Bool
is_unreliable Wire.unreliable = true
is_unreliable _ = false

-- The deliveries that take a message of any size.
abbrev pub may_fragment : Delivery → Bool
may_fragment reliable_ordered = true
may_fragment reliable_unordered = true
may_fragment _ = false

unfoldable pub enqueue_packets : Lane → List Packet → Lane
enqueue_packets lane [] = lane
enqueue_packets lane (q ∷ qs) = enqueue_packets (lane_enqueue lane q) qs

-- Packets wait in a channel, and the channel waits to be served.
abbrev pub enqueue_all : Peer → ℕ → NetChannel → List Packet → Peer
enqueue_all p idx c ps =
    enqueue_channel_at (store_channel p idx (record c { lane = enqueue_packets c.lane ps })) idx

-- A message that fits one packet.
unfoldable pub single_packet : ℕ → List ℕ → Option Packet
single_packet prop message = new_packet prop (length message) >>= λ p.
    copy_at p.bytes (property_header_size prop) message >>= λ bs. some (packet bs)

-- `send` on the channel of a delivery. The MTU is one of the table, and more than the headers.
unfoldable pub send_channeled : Peer → ℕ → NetChannel → List ℕ → Delivery → Option Peer
send_channeled p idx c message d =
    let header : ℕ = property_header_size prop_channeled in
    let width : ℕ = p.path.mtu - header - fragment_header_size in
    let id : ℕ = (p.fragment_id + 1) % 65536 in
    if leb (length message + header) p.path.mtu
    then (single_packet prop_channeled message >>= λ pkt. some (enqueue_all p idx c (pkt ∷ [])))
    else if not (may_fragment d)
    then some p
    else if ltb 65535 (total_packets (length message) width)
    then some p
    else (split_message id width message >>= λ ps.
        some (enqueue_all (record p { fragment_id = id }) idx c ps))

-- `send` of an unreliable message.
unfoldable pub send_unreliable : Peer → List ℕ → Option Peer
send_unreliable p message =
    if leb (length message + property_header_size prop_unreliable) p.path.mtu
    then (single_packet prop_unreliable message >>= λ pkt.
        some (record p { unreliable = p.unreliable ++ (pkt ∷ []) }))
    else some p

-- `send`. The channel's index is in the table, so that there is a channel.
unfoldable pub send : Peer → List ℕ → ℕ → Delivery → Option Peer
send p message number d =
    let idx : ℕ = number * channel_type_count + delivery_byte d in
    if not (is_connected p.state)
    then some p
    else if is_unreliable d
    then send_unreliable p message
    else if leb (length p.channels) idx
    then some p
    else (create_channel p (idx % 256) >>= λ r. elim r.1 [
      | none ↦ none
      | some c ↦ send_channeled r.0 (idx % 256) c message d
    ])

-- What an `update` reads from outside: the settings, the time since the last update and since the
-- last ping in milliseconds, the clock of a new ping, the channels' moments, and the socket's answer.
pub record Tick : Type 0 where
  pub settings : Settings
  pub delta : ℕ
  pub elapsed : ℕ
  pub clock : ℕ
  pub moments : ℕ → Moment
  pub accepted : Bool

-- A ping is due.
unfoldable pub update_ping : Tick → Ping → Option (Ping × List Call)
update_ping t g =
    let g₁ : Ping = record g { ping_send_timer = g.ping_send_timer + t.delta } in
    let g₂ : Ping = if g.ping_running then update_round_trip_time g t.elapsed else g in
    if ltb g₁.ping_send_timer t.settings.ping_interval
    then some (g₁, [])
    else (sequence g.ping_packet >>= λ seq.
        set_sequence g.ping_packet ((seq + 1) % 65536) >>= λ ping. some (
          record g₂ {
            ping_packet = ping;
            ping_send_timer = 0;
            ping_start = t.clock;
            ping_running = true;
          },
          send_raw ping.bytes ∷ [],
        ))

-- The average starts anew with itself as its one value.
unfoldable pub update_average : Tick → Ping → Ping
update_average t g =
    if leb (t.settings.ping_interval * 3) (g.rtt_reset_timer + t.delta)
    then record g { rtt_reset_timer = 0; rtt = g.avg_rtt; rtt_count = 1 }
    else record g { rtt_reset_timer = g.rtt_reset_timer + t.delta }

-- `update` of a connected peer, behind its timeout.
unfoldable pub update_connected : Tick → Peer → Option (Peer × List Call)
update_connected t p = update_ping t p.ping >>= λ pinged.
    update_mtu_logic t.settings.disable_mtu t.accepted t.delta p.path >>= λ probed.
    let p₁ : Peer = record p { ping = update_average t pinged.0; path = probed.0 } in
    send_pending (length p₁.send_queue) p₁ t.moments >>= λ sent.
    flush_unreliable sent.0.connect_num sent.0.path.mtu sent.0.merging sent.0.unreliable >>= λ last.
    some (
      record sent.0 { merging = last.0; unreliable = [] },
      pinged.1 ++ (probed.1 ++ (sent.1 ++ last.1)),
    )

-- A packet that the peer has kept, sent again; a missing one is a nil pointer.
abbrev pub resent : Option Packet → Option (List Call)
resent none = none
resent (some p) = some (send_raw p.bytes ∷ [])

unfoldable pub update_shutdown : Tick → Peer → Option (Peer × List Call)
update_shutdown t p =
    if ltb t.settings.disconnect_timeout p.since_last_packet
    then some (record p { state = disconnected }, [])
    else if ltb (p.shutdown_timer + t.delta) shutdown_resend_delay
    then some (record p { shutdown_timer = p.shutdown_timer + t.delta }, [])
    else (resent p.shutdown_packet >>= λ calls. some (record p { shutdown_timer = 0 }, calls))

unfoldable pub update_outgoing : Tick → Peer → Option (Peer × List Call)
update_outgoing t p =
    let p₁ : Peer = record p { connect_timer = 0; connect_attempts = p.connect_attempts + 1 } in
    if leb (p.connect_timer + t.delta) t.settings.reconnect_delay
    then some (record p { connect_timer = p.connect_timer + t.delta }, [])
    else if ltb t.settings.max_connect_attempts p₁.connect_attempts
    then some (p₁, disconnect_force connection_failed ∷ [])
    else (resent p.connect_request_packet >>= λ calls. some (p₁, calls))

-- `update`, by the state.
unfoldable pub update_in : ConnectionState → Tick → Peer → Option (Peer × List Call)
update_in connected t p =
    if ltb t.settings.disconnect_timeout p.since_last_packet
    then some (p, disconnect_force timeout ∷ [])
    else update_connected t p
update_in shutdown_requested t p = update_shutdown t p
update_in outgoing t p = update_outgoing t p
update_in disconnected t p = some (p, [])

unfoldable pub update : Tick → Peer → Option (Peer × List Call)
update t p =
    let p₁ : Peer = record p { since_last_packet = p.since_last_packet + t.delta } in
    update_in p.state t p₁
