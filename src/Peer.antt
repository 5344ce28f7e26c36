-- ===== src/Peer.antt =====
-- internal/litenetlib/peer.go: a peer's state, its constructors, and the calls that it makes of its
-- manager, as values in the order of the calls. The clock, the manager's settings and what the socket
-- answers are arguments; durations are in nanoseconds. `none` is a panic of Go.
pub mod Fragments
pub mod Split
pub mod Reassembly
pub mod Arrivals
pub mod AnyOrder
pub mod Whole
pub mod Merge
pub mod Unpack
pub mod Merged
pub mod Datagrams
pub mod Connect
pub mod Discovery
pub mod Lanes
pub mod Process
pub mod Update
pub mod Probe
pub mod Sizes
pub mod Growth
pub mod Ends
pub mod Attempts
mod Tests
use scpxy.Base.{
  ℕ, ◌+◌, ◌-◌, ◌*◌, ◌/◌, ◌%◌, Bool, true, false, ◌&&◌, Option, none, some, List, [], ◌∷◌, ◌++◌,
  length, get_elem?, set, take, drop, replicate, ltb, leb, ◌==◌, if◌then◌else◌, ◌>>=◌,
}
use scpxy.Base.LittleEndian.{le_bytes}
use scpxy.Base.Slice.{put, write}
use scpxy.Wire.{
  Delivery, DisconnectReason, header_size, protocol_id, channel_type_count, possible_mtu,
  max_packet_size, connect_request_header,
}
use scpxy.Packet.{
  Packet, packet, new_packet, set_property, set_sequence, set_connection_number, prop_merged,
  prop_ping, prop_pong, prop_connect_request, prop_connect_accept,
}
use scpxy.Channel.{Reliable, new_reliable_channel}
use scpxy.Channel.Sequenced.{Sequenced, new_sequenced_channel}

pub data ConnectionState : Type 0 where
  outgoing connected shutdown_requested disconnected : ConnectionState

-- `p.mgr.sendRaw`, `p.mgr.dispatchReceive` and `p.mgr.disconnectPeerForce`, each for this peer.
pub data Call : Type 0 where
  send_raw : List ℕ → Call
  dispatch_receive : List ℕ → ℕ → Delivery → Call
  disconnect_force : DisconnectReason → Call

-- A slice `b[from:]`, and a `copy` into `b[at:]`, which ends at the end of `b`.
abbrev pub slice_from : List ℕ → ℕ → Option (List ℕ)
slice_from bs from = if leb from (length bs) then some (drop from bs) else none

abbrev pub copy_at : List ℕ → ℕ → List ℕ → Option (List ℕ)
copy_at bs at vs = if leb at (length bs) then some (write bs at vs) else none

-- `b[from:to]`, within the slice's length.
abbrev pub slice : List ℕ → ℕ → ℕ → Option (List ℕ)
slice bs from to =
    if leb from to && leb to (length bs) then some (take (to - from) (drop from bs)) else none

pub record IncomingFragments : Type 0 where
  pub fragments : List (Option Packet)
  pub received : ℕ
  pub total_size : ℕ
  pub channel_id : ℕ

-- The fields of `Peer`, those that belong together in records of their own.
pub record Mtu : Type 0 where
  pub mtu : ℕ
  pub mtu_idx : ℕ
  pub finish_mtu : Bool
  pub mtu_timer : ℕ
  pub mtu_attempts : ℕ

pub record Merging : Type 0 where
  pub merge_data : Packet
  pub merge_pos : ℕ
  pub merge_count : ℕ

pub record Ping : Type 0 where
  pub ping_packet : Packet
  pub pong_packet : Packet
  pub ping_send_timer : ℕ
  pub rtt_reset_timer : ℕ
  pub rtt : ℕ
  pub avg_rtt : ℕ
  pub rtt_count : ℕ
  pub ping_start : ℕ
  pub ping_running : Bool

-- A channel with its `inQueue`; the other fields are the channel's own.
pub data Lane : Type 0 where
  reliable : Reliable → Lane
  sequential : Sequenced → Lane

pub record NetChannel : Type 0 where
  pub lane : Lane
  pub in_queue : Bool

-- `net.UDPAddr`: the bytes of its IP, 4 or 16, its port, and what its `String` says.
pub record UdpAddr : Type 0 where
  pub ip : List ℕ
  pub port : ℕ
  pub text : List ℕ

-- A channel in the send queue goes by its place in `channels`.
pub record Peer : Type 0 where
  pub addr : UdpAddr
  pub id : ℕ
  pub remote_id : ℕ
  pub state : ConnectionState
  pub connect_time : ℕ
  pub connect_num : ℕ
  pub channels : List (Option NetChannel)
  pub send_queue : List ℕ
  pub unreliable : List Packet
  pub held_frags : List (ℕ × IncomingFragments)
  pub fragment_id : ℕ
  pub path : Mtu
  pub merging : Merging
  pub ping : Ping
  pub connect_request_packet : Option Packet
  pub connect_accept_packet : Option Packet
  pub shutdown_packet : Option Packet
  pub connect_timer : ℕ
  pub shutdown_timer : ℕ
  pub connect_attempts : ℕ
  pub since_last_packet : ℕ

-- What a peer reads of its manager.
pub record Settings : Type 0 where
  pub channels_count : ℕ
  pub ping_interval : ℕ
  pub disconnect_timeout : ℕ
  pub reconnect_delay : ℕ
  pub max_connect_attempts : ℕ
  pub disable_mtu : Bool

-- `setMtu`, on an index of the table.
unfoldable pub set_mtu : Mtu → ℕ → Option Mtu
set_mtu m idx = do mtu ← get_elem? possible_mtu idx; some (record m { mtu_idx = idx; mtu = mtu })

unfoldable pub reset_mtu : Mtu → Option Mtu
unfolding set_mtu
reset_mtu m = set_mtu (record m { finish_mtu = false }) 0

abbrev no_mtu : Mtu
no_mtu = record { mtu = 0; mtu_idx = 0; finish_mtu = false; mtu_timer = 0; mtu_attempts = 0 }

unfoldable pub new_peer : Settings → UdpAddr → ℕ → Option Peer
unfolding reset_mtu
new_peer s addr id = do
  merge ← new_packet prop_merged max_packet_size
  pong ← new_packet prop_pong 0
  ping ← new_packet prop_ping 0
  ping' ← set_sequence ping 1
  path ← reset_mtu no_mtu
  some (record {
    addr = addr;
    id = id;
    remote_id = 0;
    state = connected;
    connect_time = 0;
    connect_num = 0;
    channels = replicate (s.channels_count * channel_type_count) none;
    send_queue = [];
    unreliable = [];
    held_frags = [];
    fragment_id = 0;
    path = path;
    merging = record { merge_data = merge; merge_pos = 0; merge_count = 0 };
    ping = record {
      ping_packet = ping';
      pong_packet = pong;
      ping_send_timer = 0;
      rtt_reset_timer = 0;
      rtt = 0;
      avg_rtt = 0;
      rtt_count = 0;
      ping_start = 0;
      ping_running = false;
    };
    connect_request_packet = none;
    connect_accept_packet = none;
    shutdown_packet = none;
    connect_timer = 0;
    shutdown_timer = 0;
    connect_attempts = 0;
    since_last_packet = 0;
  })

-- `setConnectionNum`
unfoldable pub set_connection_num : Peer → ℕ → Option Peer
set_connection_num p v = do
  merge ← set_connection_number p.merging.merge_data v
  ping ← set_connection_number p.ping.ping_packet v
  pong ← set_connection_number p.ping.pong_packet v
  some (record p {
    connect_num = v;
    merging = record p.merging { merge_data = merge };
    ping = record p.ping { ping_packet = ping; pong_packet = pong };
  })

-- `createChannel`: the channel's kind by its number; `none` inside for a number past the table.
unfoldable pub create_lane : ℕ → Option Lane
create_lane idx =
    if idx % channel_type_count == 0
    then (new_reliable_channel false idx >>= λ c. some (reliable c))
    else if idx % channel_type_count == 1
    then (new_sequenced_channel false idx >>= λ c. some (sequential c))
    else if idx % channel_type_count == 2
    then (new_reliable_channel true idx >>= λ c. some (reliable c))
    else (new_sequenced_channel true idx >>= λ c. some (sequential c))
