-- ===== src/Manager/Tests.antt =====
-- Runs of internal/litenetlib/manager.go.
use scpxy.Base.{ℕ, List, refl, true, none, some, ◌≡◌, ◌≢◌, [], ◌∷◌, false, arith}
use scpxy.Base.Assoc.{lookup}
use scpxy.Packet.{packet, property, prop_connect_request}
use scpxy.Peer.Process.{Now}
use scpxy.Manager.{Manager, Event}
use scpxy.Manager.Route.{peer_of, receive}
use scpxy.Manager.Strangers.{IsShort, receive-Harmless}
use scpxy.Manager.Refusals.{receive_invalid_protocol}
use scpxy.Base.Assoc.{nat_key, bytes_key}
use scpxy.Packet.{verify, property_header_size, prop_invalid_protocol}
use scpxy.Manager.{put_peer, connect}
use scpxy.Peer.{Peer, outgoing, disconnected, Settings, UdpAddr}
use scpxy.Manager.Handshake.{Asks, Accepts, Joins, IsRefused, handshake}

abbrev settings : Settings
settings = record {
  channels_count = 1;
  ping_interval = 1000000000;
  disconnect_timeout = 5000000000;
  reconnect_delay = 500000000;
  max_connect_attempts = 10;
  disable_mtu = false;
}

abbrev server_at : UdpAddr
server_at = record { ip = 10 ∷ 0 ∷ 0 ∷ 1 ∷ []; port = 7777; text = [] }

abbrev client_at : UdpAddr
client_at = record { ip = 10 ∷ 0 ∷ 0 ∷ 2 ∷ []; port = 40000; text = [] }

handshake_example :
    (a : Asks settings server_at client_at 123456789 5 2
      (9 ∷ 8 ∷ [])
      (omega arith)
      (omega arith)
      (omega arith))
    × (r : Accepts settings server_at client_at 123456789 5 2
        (9 ∷ 8 ∷ [])
        (omega arith)
        (omega arith)
        (omega arith)
        settings
        6)
    × Joins settings server_at client_at 123456789 5 2
        (9 ∷ 8 ∷ [])
        (omega arith)
        (omega arith)
        (omega arith)
        a.client
        r.answer
        6
    × IsRefused settings server_at client_at 123456789 5 2
        (9 ∷ 8 ∷ [])
        (omega arith)
        (omega arith)
        (omega arith)
        a.client
        (1 ∷ [])
handshake_example =
    handshake settings server_at client_at 123456789 5 2 (9 ∷ 8 ∷ []) (omega arith) (omega arith)
      (omega arith) settings 6 (1 ∷ []) (omega arith)

-- A manager that knows nobody, and a ping.
abbrev alone : Manager
alone = record {
  settings = settings;
  accept = true;
  has_request_handler = true;
  store = [];
  peers = [];
  request_store = [];
  requests = [];
  request_count = 0;
  last_id = 0;
}

abbrev at_once : Now
at_once = record { settings = settings; ticks = 0; elapsed = 0 }

abbrev ping : List ℕ
ping = 3 ∷ 1 ∷ 0 ∷ []

nobody : peer_of alone client_at ≡ none
unfolding peer_of lookup
nobody = refl

no_request : property (packet ping) ≢ some prop_connect_request
unfolding property
no_request e = ground (arith, e)

receive-Harmless_example :
    (es : List Event) × (receive at_once alone ping client_at ≡ some (alone, es))
    × IsShort client_at ping es
receive-Harmless_example = receive-Harmless at_once alone ping client_at nobody no_request

-- A peer that asks for a connection, known to the manager.
abbrev some_peer : Peer
some_peer = record {
  addr = record { ip = 10 ∷ 0 ∷ 0 ∷ 1 ∷ []; port = 7777; text = 1 ∷ [] };
  id = 1;
  remote_id = 0;
  state = outgoing;
  connect_time = 5;
  connect_num = 0;
  channels = [];
  send_queue = [];
  unreliable = [];
  held_frags = [];
  fragment_id = 0;
  path = record { mtu = 1024; mtu_idx = 0; finish_mtu = true; mtu_timer = 0; mtu_attempts = 0 };
  merging = record { merge_data = packet []; merge_pos = 0; merge_count = 0 };
  ping = record {
    ping_packet = packet (3 ∷ 1 ∷ 0 ∷ []);
    pong_packet = packet (4 ∷ 0 ∷ 0 ∷ []);
    ping_send_timer = 0;
    rtt_reset_timer = 0;
    rtt = 0;
    avg_rtt = 0;
    rtt_count = 0;
    ping_start = 0;
    ping_running = false;
  };
  connect_request_packet = some (packet (5 ∷ []));
  connect_accept_packet = none;
  shutdown_packet = none;
  connect_timer = 0;
  shutdown_timer = 0;
  connect_attempts = 0;
  since_last_packet = 0;
}

abbrev asking : Manager
asking = record alone { store = (1, some_peer) ∷ []; peers = (1 ∷ [], 1) ∷ [] }

known : lookup some_peer.addr.text asking.peers ≡ some 1
unfolding lookup
known = refl

there : lookup 1 asking.store ≡ some some_peer
unfolding lookup
there = refl

refused : verify (packet (15 ∷ [])) ≡ true
unfolding verify property_header_size
refused = refl

refused_kind : property (packet (15 ∷ [])) ≡ some prop_invalid_protocol
unfolding property
refused_kind = refl

abbrev ended : Manager
ended = put_peer asking 1 (record some_peer { state = disconnected })

receive_invalid_protocol_example :
    (receive at_once asking (15 ∷ []) some_peer.addr ≡ some (ended, []))
    × (connect ended some_peer.addr 6 [] ≡ some (ended, []))
receive_invalid_protocol_example =
    receive_invalid_protocol at_once asking (15 ∷ []) some_peer.addr 1 some_peer 6 [] known there
      refl refused refused_kind
