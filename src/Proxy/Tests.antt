-- ===== src/Proxy/Tests.antt =====
-- Runs of internal/proxy/proxy.go, with whole numbers in the place of the gate's floats.
use scpxy.Base.{
  arith, ℕ, ◌+◌, ◌-◌, ◌*◌, ◌/◌, ◌≡◌, refl, true, false, none, some, List, [], ◌∷◌, ltb,
}
use scpxy.Base.Int.{pos}
use scpxy.Base.Assoc.{nat_key, bytes_key}
use scpxy.Config.{BackendConfig}
use scpxy.Gate.{Floats, Options, second, new_gate, count}
use scpxy.Gate.Counts.{held}
use scpxy.Backend.{new_backend, new_backend_pool}
use scpxy.Base.Assoc.{lookup}
use scpxy.Wire.{reliable_ordered}
use scpxy.Packet.{packet, property_header_size}
use scpxy.Peer.{Peer, connected}
use scpxy.Peer.Update.{max_single_packet_size}
use scpxy.Session.{Session, RelayMsg, active}
use scpxy.Proxy.Relay.{relayable}
use scpxy.Proxy.Pumps.{
  RelayStep, client_sends, backend_sends, pumps_up, pumps_down, sent_up, sent_down, Ready, Relayed,
  relay,
}
use scpxy.Proxy.Order.{relay-Relayed}
use scpxy.Proxy.Once.{close_session_once}
use scpxy.Proxy.Expiry.{expired_while_connected}
use scpxy.Session.{pending, is_closed}
use scpxy.Proxy.{
  Action, accepts, rejects, backend_down_message, fail_pending, on_upstream_connected, raw, says,
  close_session, drop_session, Proxy, Incoming, new_proxy, register, admit,
}
use scpxy.Proxy.Console.{kick}
use scpxy.Proxy.Open.{open_ips}
use scpxy.Proxy.Accounts.{Accounts}
use scpxy.Proxy.Life.{Balanced}
use scpxy.Proxy.Traces.{
  Call, connection_requested, upstream_connected, client_connected, kicked, run,
}
use scpxy.Proxy.Ledger.{run-Accounts}
use scpxy.Proxy.Race.{kicked_before_counted}

abbrev whole : Floats
whole = record {
  F = ℕ;
  of_int = λ n. n;
  elapsed = λ now last. (now - last) / second;
  add = λ a b. a + b;
  mul = λ a b. a * b;
  lt = ltb;
  minus_one = λ n. n - 1;
}

abbrev limits : Options ℕ
limits = record {
  rate_per_second = 1;
  burst = 4;
  block_duration = 10 * second;
  max_sessions_per_ip = 2;
  max_sessions = 10;
}

abbrev server : BackendConfig
server = record {
  name = 97 ∷ [];
  address = 98 ∷ [];
  priority = pos 0;
  enabled = none;
  health_interval = pos 1;
  health_failures = pos 3;
  resolved = some (98 ∷ []);
}

abbrev asks : Incoming
asks = record { request = 1; address = 1 ∷ 2 ∷ []; ip = 1 ∷ []; payload = [] }

-- A client asks, is connected on both sides, and is kicked.
abbrev visit : List (Call × ℕ)
visit =
    (connection_requested false asks true, second)
    ∷ (upstream_connected 1 4, second)
    ∷ (client_connected (1 ∷ 2 ∷ []) 5, second)
    ∷ (kicked 1 none, 2 * second)
    ∷ []

abbrev start : Proxy ℕ
start = new_proxy (new_gate limits [] 0) (new_backend_pool (server ∷ []))

run-Accounts_example :
    Accounts
      (run whole start visit).gate
      (run whole start visit).pool
      (run whole start visit).store
      (run whole start visit).next_id
run-Accounts_example = run-Accounts whole limits [] 0 (server ∷ []) visit

start-Balanced : Balanced start
unfolding run
start-Balanced = run-Accounts whole limits [] 0 (server ∷ []) []

nothing_open : held asks.ip (open_ips start.store) ≡ 0
unfolding new_proxy open_ips held
nothing_open = refl

-- What the kicked request leaves.
abbrev entered : Proxy ℕ × ℕ
entered = register start asks 0 (new_backend server) second

abbrev left : Proxy ℕ
left = (admit (kick entered.0 entered.1 none second).0 entered.1 asks 0 (98 ∷ []) [] second true).0

kicked_before_counted_example :
    (count left.gate.sessions asks.ip ≡ 1) × (held asks.ip (open_ips left.store) ≡ 0)
kicked_before_counted_example =
    kicked_before_counted start asks 0 (new_backend server) none (98 ∷ []) [] second second true
      start-Balanced nothing_open

-- A peer of either side, and an open session with both.
abbrev some_peer : Peer
some_peer = record {
  addr = record { ip = 10 ∷ 0 ∷ 0 ∷ 1 ∷ []; port = 7777; text = 1 ∷ [] };
  id = 1;
  remote_id = 0;
  state = connected;
  connect_time = 5;
  connect_num = 0;
  channels = [];
  send_queue = [];
  unreliable = [];
  held_frags = [];
  fragment_id = 0;
  path = record { mtu = 1024; mtu_idx = 0; finish_mtu = true; mtu_timer = 0; mtu_attempts = 0 };
  merging = record { merge_data = packet []; merge_pos = 0; merge_count = 0 };
  ping = record {
    ping_packet = packet (3 ∷ 1 ∷ 0 ∷ []);
    pong_packet = packet (4 ∷ 0 ∷ 0 ∷ []);
    ping_send_timer = 0;
    rtt_reset_timer = 0;
    rtt = 0;
    avg_rtt = 0;
    rtt_count = 0;
    ping_start = 0;
    ping_running = false;
  };
  connect_request_packet = some (packet (5 ∷ []));
  connect_accept_packet = none;
  shutdown_packet = none;
  connect_timer = 0;
  shutdown_timer = 0;
  connect_attempts = 0;
  since_last_packet = 0;
}

abbrev open_session : Session
open_session = record {
  id = 1;
  real_ip = 1 ∷ [];
  client_at = 1 ∷ 2 ∷ [];
  user_id = [];
  masked = [];
  version = [];
  backend = 0;
  backend_name = 97 ∷ [];
  link = some 3;
  request = 1;
  client_peer = some 5;
  upstream = some 3;
  upstream_peer = some 4;
  state = active;
  started = 0;
  to_client = [];
  to_backend = [];
  client_ready = true;
  backend_ready = true;
}

abbrev relaying : Proxy ℕ
relaying = record start { store = (1, open_session) ∷ []; sessions = (1 ∷ 2 ∷ [], 1) ∷ [] }

abbrev said : ℕ → RelayMsg
said b = record { message = b ∷ []; channel = 0; delivery = reliable_ordered }

-- Both sides speak, and the pumps go round.
abbrev talk : List RelayStep
talk =
    client_sends false (said 1)
    ∷ client_sends false (said 2)
    ∷ pumps_up false
    ∷ backend_sends false (said 3)
    ∷ pumps_down true
    ∷ []

relaying-Ready : Ready 1 (1 ∷ 2 ∷ []) 3 4 5 0 some_peer some_peer relaying open_session
unfolding lookup
relaying-Ready = record {
  there = refl;
  known = refl;
  open_is = refl;
  backend_is = refl;
  client_ready_is = refl;
  link_is = refl;
  to_is = refl;
  client_is = refl;
}

said_up : sent_up talk ≡ said 1 ∷ said 2 ∷ []
unfolding sent_up
said_up = refl

said_down : sent_down talk ≡ said 3 ∷ []
unfolding sent_down
said_down = refl

passes : (b : ℕ) → relayable some_peer (b ∷ []) reliable_ordered ≡ true
unfolding relayable max_single_packet_size property_header_size
passes b = refl

relay-Relayed_example :
    Relayed 1
      (1 ∷ 2 ∷ [])
      3
      4
      5
      0
      some_peer
      some_peer
      open_session
      (relay 1 (1 ∷ 2 ∷ []) 3 4 5 0 some_peer some_peer relaying talk)
      (sent_up talk)
      (sent_down talk)
relay-Relayed_example =
    relay-Relayed 1 (1 ∷ 2 ∷ []) 3 4 5 0 some_peer some_peer relaying open_session talk
      relaying-Ready (rw said_up (omega arith)) (rw said_down (omega arith))
      (rw said_up (passes 1, (passes 2, tt))) (rw said_down (passes 3, tt))

-- The client leaves, and is kicked.
abbrev over : Proxy ℕ
over = (close_session relaying 1 (raw []) 0).0

close_session_once_example :
    (over ≡ drop_session relaying 1 0)
    × (close_session over 1 (says "Kicked by an administrator.") 1 ≡ (over, []))
    × (drop_session over 1 1 ≡ over)
close_session_once_example =
    close_session_once relaying 1 (raw []) (says "Kicked by an administrator.") 0 1

-- The session while it waits for its backend.
abbrev waiting : Session
waiting = record open_session {
  state = pending;
  upstream_peer = none;
  backend_ready = false;
  client_peer = none;
}

abbrev expiring : Proxy ℕ
expiring = record start { store = (1, waiting) ∷ [] }

is_waiting : lookup 1 expiring.store ≡ some waiting
unfolding lookup
is_waiting = refl

abbrev answered : Proxy ℕ × List Action
answered = on_upstream_connected expiring 1 4

abbrev given_up : Proxy ℕ × List Action
given_up = fail_pending answered.0 1 waiting [] 9

expired_while_connected_example :
    (answered.1 ≡ accepts 1 ∷ [])
    × (given_up.1 ≡ rejects 1 backend_down_message ∷ [])
    × (s' : Session) × (lookup 1 given_up.0.store ≡ some s')
    × (s'.upstream_peer ≡ some 4)
    × (is_closed s'.state ≡ true)
    × (close_session given_up.0 1 (raw []) 10 ≡ (given_up.0, []))
expired_while_connected_example =
    expired_while_connected expiring 1 4 waiting [] 9 10 (raw []) is_waiting refl
