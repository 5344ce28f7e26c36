-- ===== src/Peer/Process.antt =====
-- `processPacket` of peer.go. `now` is the tick of a pong, `elapsed` the milliseconds since the ping.
use scpxy.Base.{
  ℕ, zero, suc, ◌+◌, ◌/◌, Bool, true, false, not, ◌&&◌, ◌||◌, Option, none, some, List, [], ◌∷◌,
  ◌++◌, ◌==◌, if◌then◌else◌, ◌>>=◌,
}
use scpxy.Base.Int.{pos, ltb_ℤ}
use scpxy.Wire.{unreliable, header_size, relative_sequence}
use scpxy.Packet.{
  Packet, size, property, connection_number, sequence, set_sequence, channel_id, prop_merged,
  prop_ping, prop_pong, prop_ack, prop_channeled, prop_reliable_merged, prop_unreliable,
  prop_mtu_check, prop_mtu_ok, prop_shutdown_ok,
}
use scpxy.Peer.{
  ConnectionState, connected, shutdown_requested, disconnected, Peer, Ping, Settings, Call,
  send_raw, dispatch_receive, slice_from,
}
use scpxy.Peer.Connect.{put_uint}
use scpxy.Peer.Discovery.{process_mtu_packet}
use scpxy.Peer.Merge.{merged_parts}
use scpxy.Peer.Lanes.{receive_on}

-- `updateRoundTripTime`; the resend delay follows from the average.
unfoldable pub update_round_trip_time : Ping → ℕ → Ping
update_round_trip_time g rtt = record g {
  rtt = g.rtt + rtt;
  rtt_count = g.rtt_count + 1;
  avg_rtt = (g.rtt + rtt) / (g.rtt_count + 1);
}

unfoldable pub process_ping : Ping → Packet → ℕ → Option (Ping × List Call)
process_ping g pkt now = sequence pkt >>= λ seq. sequence g.pong_packet >>= λ last.
    if ltb_ℤ (pos 0) (relative_sequence seq last)
    then (put_uint g.pong_packet 8 3 now >>= λ pong. set_sequence pong seq >>= λ pong'.
        some (record g { pong_packet = pong' }, send_raw pong'.bytes ∷ []))
    else some (g, [])

unfoldable pub process_pong : Ping → Packet → ℕ → Option Ping
process_pong g pkt elapsed = sequence pkt >>= λ seq. sequence g.ping_packet >>= λ sent. some (
    if seq == sent && g.ping_running
    then update_round_trip_time (record g { ping_running = false }) elapsed
    else g)

-- What does not lie in the state's hands: the settings, the tick of a pong, the time since a ping.
pub record Now : Type 0 where
  pub settings : Settings
  pub ticks : ℕ
  pub elapsed : ℕ

-- The `switch` over the properties, but for the merged packet.
unfoldable pub dispatch : Now → Peer → Packet → ℕ → Option (Peer × List Call)
dispatch t p pkt kind =
    if kind == prop_ping
    then (process_ping p.ping pkt t.ticks >>= λ r. some (record p { ping = r.0 }, r.1))
    else if kind == prop_pong
    then (process_pong p.ping pkt t.elapsed >>= λ g. some (record p { ping = g }, []))
    else if kind == prop_ack || (kind == prop_channeled || kind == prop_reliable_merged)
    then (channel_id pkt >>= λ idx. receive_on p idx (kind == prop_ack) pkt)
    else if kind == prop_unreliable
    then (slice_from pkt.bytes header_size >>= λ message.
        some (p, dispatch_receive message 0 unreliable ∷ []))
    else if kind == prop_mtu_check || kind == prop_mtu_ok
    then (process_mtu_packet t.settings.disable_mtu p.path pkt >>= λ r.
        some (record p { path = r.0 }, r.1))
    else some (p, [])

-- The packets of a merged packet, one after the other.
unfoldable pub each_part :
    (Peer → Packet → Option (Peer × List Call)) → Peer → List Packet → Option (Peer × List Call)
each_part f p [] = some (p, [])
each_part f p (q ∷ qs) = f p q >>= λ r. each_part f r.0 qs >>= λ rest. some (rest.0, r.1 ++ rest.1)

abbrev pub may_receive : ConnectionState → Bool
may_receive connected = true
may_receive shutdown_requested = true
may_receive _ = false

abbrev pub after_shutdown_ok : ConnectionState → ConnectionState
after_shutdown_ok shutdown_requested = disconnected
after_shutdown_ok s = s

-- `processPacket`; the fuel bounds how deep merged packets stand in one another, and a packet within
-- one is three bytes shorter at least.
unfoldable pub process_packet : ℕ → Now → Peer → Packet → Option (Peer × List Call)
process_packet zero t p pkt = none
process_packet (suc fuel) t p pkt =
    if not (may_receive p.state)
    then some (p, [])
    else (property pkt >>= λ kind. connection_number pkt >>= λ num.
        let p' : Peer = record p { since_last_packet = 0 } in
        let inner : Peer → Packet → Option (Peer × List Call) = process_packet fuel t in
        if kind == prop_shutdown_ok
        then some (record p { state = after_shutdown_ok p.state }, [])
        else if not (num == p.connect_num)
        then some (p, [])
        else if kind == prop_merged
        then (merged_parts (size pkt) pkt header_size >>= λ parts. each_part inner p' parts)
        else dispatch t p' pkt kind)
