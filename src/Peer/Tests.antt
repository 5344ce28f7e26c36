-- ===== src/Peer/Tests.antt =====
-- Runs of internal/litenetlib/peer.go.
use scpxy.Base.{
  ℕ, All, ◌+◌, ◌≡◌, ◌≢◌, ◌<◌, ◌≤◌, refl, none, some, List, [], ◌∷◌, map, replicate, false, true,
  arith,
}
use scpxy.Base.Assoc.{lookup, nat_key}
use scpxy.Base.Slice.{put, write}
use scpxy.Wire.{header_size, connection_failed, reliable_ordered}
use scpxy.Packet.{
  size, Packet, packet, property_header_size, set_sequence, set_channel_id, set_connection_number,
  set_property, mark_fragmented, new_raw_packet, set_fragment_id, set_fragment_part,
  set_fragments_total, verify, property, is_fragmented,
}
use scpxy.Peer.Ends.{process_packet-Ends}
use scpxy.Peer.Attempts.{Asked, updates, updates-Asked}
use scpxy.Peer.Update.{Tick}
use scpxy.Peer.Process.{Now, process_packet}
use scpxy.Peer.Merge.{merged_parts}
use scpxy.Peer.{Peer, Settings, connected, outgoing, send_raw, disconnect_force, Mtu, Merging}
use scpxy.Peer.Fragments.{Held, fragment, fragments_from, split_message}
use scpxy.Peer.Split.{carried}
use scpxy.Peer.Arrivals.{member}
use scpxy.Peer.AnyOrder.{Delivered}
use scpxy.Peer.Whole.{Arrival, split-deliver}
use scpxy.Peer.Unpack.{encode}
use scpxy.Peer.Merged.{IsSendable, Carries}
use scpxy.Peer.Datagrams.{Emptied, flush_unreliable-Emptied}
use scpxy.Peer.Probe.{IsMtu}
use scpxy.Peer.Growth.{Grows, Event, arrives, ticks, run, mtu_bounds}

-- Three bytes in fragments of two, the second of them twice and first.
abbrev part_at : ℕ → ℕ → ℕ → List ℕ → Packet
part_at first seq part chunk = packet (first ∷ seq ∷ 0 ∷ seq ∷ 7 ∷ 0 ∷ part ∷ 0 ∷ 2 ∷ 0 ∷ chunk)

abbrev cut : List Packet
cut = part_at 129 0 0 (10 ∷ 11 ∷ []) ∷ part_at 129 0 1 (12 ∷ []) ∷ []

is_cut : split_message 7 2 (10 ∷ 11 ∷ 12 ∷ []) ≡ some cut
unfolding split_message fragments_from fragment set_property new_raw_packet set_fragment_id
    set_fragment_part set_fragments_total mark_fragmented put write
is_cut = refl

-- A fragment with its number, on the channel of its number, and the connection's bits.
first_arrives : Arrival cut 2 0 (packet (161 ∷ 5 ∷ 0 ∷ 2 ∷ 7 ∷ 0 ∷ 0 ∷ 0 ∷ 2 ∷ 0 ∷ 10 ∷ 11 ∷ []))
unfolding carried set_sequence set_channel_id set_connection_number put write
first_arrives = record {
  sent = part_at 129 0 0 (10 ∷ 11 ∷ []);
  seq = 5;
  num = 1;
  num_lt = omega arith;
  sent_is = refl;
  carried_is = refl;
}

second_arrives : Arrival cut 2 1 (packet (161 ∷ 6 ∷ 0 ∷ 2 ∷ 7 ∷ 0 ∷ 1 ∷ 0 ∷ 2 ∷ 0 ∷ 12 ∷ []))
unfolding carried set_sequence set_channel_id set_connection_number put write
second_arrives = record {
  sent = part_at 129 0 1 (12 ∷ []);
  seq = 6;
  num = 1;
  num_lt = omega arith;
  sent_is = refl;
  carried_is = refl;
}

abbrev second_part : Packet
second_part = packet (161 ∷ 6 ∷ 0 ∷ 2 ∷ 7 ∷ 0 ∷ 1 ∷ 0 ∷ 2 ∷ 0 ∷ 12 ∷ [])

abbrev twice : List (ℕ × Packet)
twice = (1, second_part) ∷ (1, second_part) ∷ []

abbrev none_yet : Held
none_yet = []

none_held : lookup 7 none_yet ≡ none
unfolding lookup
none_held = refl

away : member 0 (map (λ a. a.0) twice) ≡ false
unfolding member
away = refl

others : (i : ℕ) → i < 2 → i ≢ 0 → member i (map (λ a. a.0) twice) ≡ true
unfolding member
others i h ne = let e : i ≡ 1 = omega arith in rw e refl

split-deliver_example :
    Delivered (10 ∷ 11 ∷ 12 ∷ []) 2 7 2 2 (omega arith) (omega arith) none_yet reliable_ordered (
      second_part
      ∷ second_part
      ∷ packet (161 ∷ 5 ∷ 0 ∷ 2 ∷ 7 ∷ 0 ∷ 0 ∷ 0 ∷ 2 ∷ 0 ∷ 10 ∷ 11 ∷ [])
      ∷ [])
split-deliver_example =
    split-deliver (10 ∷ 11 ∷ 12 ∷ []) 2 7 2 (omega arith) (omega arith) cut none_yet
      reliable_ordered twice 0 (packet (161 ∷ 5 ∷ 0 ∷ 2 ∷ 7 ∷ 0 ∷ 0 ∷ 0 ∷ 2 ∷ 0 ∷ 10 ∷ 11 ∷ []))
      (omega arith) is_cut none_held (second_arrives, (second_arrives, tt)) first_arrives away
      others

-- A peer at the start of its discovery, whose timer has run out.
abbrev starting : Mtu
starting = record {
  mtu = 1024;
  mtu_idx = 0;
  finish_mtu = false;
  mtu_timer = 900000000;
  mtu_attempts = 0;
}

starting-IsMtu : IsMtu starting
starting-IsMtu = refl

abbrev some_events : List Event
some_events = arrives (packet (5 ∷ [])) ∷ ticks true 100000000 ∷ ticks false 1000000000 ∷ []

mtu_bounds_example :
    (g : Grows starting (run false starting some_events)) × (1024 ≤ g.next.mtu)
    × (g.next.mtu ≤ 1432)
mtu_bounds_example = mtu_bounds false starting some_events starting-IsMtu

-- An empty datagram, and two packets without a channel.
abbrev empty : Merging
empty = record { merge_data = packet (12 ∷ replicate 1432 0); merge_pos = 0; merge_count = 0 }

empty-Carries : Carries 12 1024 refl (omega arith) empty []
unfolding encode
empty-Carries = record {
  junk = replicate 1432 0;
  bytes_are = refl;
  size_is = refl;
  pos_is = refl;
  count_is = refl;
  within = omega arith;
  sendable = tt;
}

piece-IsSendable : (b : ℕ) → IsSendable (packet (0 ∷ b ∷ []))
unfolding verify property property_header_size is_fragmented
piece-IsSendable b = record {
  piece = (refl, omega arith);
  kind = 0;
  kind_is = refl;
  kind_ne = omega arith;
}

flush_unreliable-Emptied_example :
    Emptied 1 12 1024
      (omega arith)
      refl
      (omega arith)
      empty
      []
      (packet (0 ∷ 7 ∷ []) ∷ packet (0 ∷ 8 ∷ []) ∷ [])
flush_unreliable-Emptied_example =
    flush_unreliable-Emptied 1 12 1024 (omega arith) refl (omega arith) empty [] _ empty-Carries (
      (piece-IsSendable 7, omega arith, omega arith),
      ((piece-IsSendable 8, omega arith, omega arith), tt),
    )

-- A peer that asks for a connection.
abbrev some_peer : Peer
some_peer = record {
  addr = record { ip = 10 ∷ 0 ∷ 0 ∷ 1 ∷ []; port = 7777; text = 1 ∷ [] };
  id = 1;
  remote_id = 0;
  state = outgoing;
  connect_time = 5;
  connect_num = 0;
  channels = [];
  send_queue = [];
  unreliable = [];
  held_frags = [];
  fragment_id = 0;
  path = record { mtu = 1024; mtu_idx = 0; finish_mtu = true; mtu_timer = 0; mtu_attempts = 0 };
  merging = record { merge_data = packet []; merge_pos = 0; merge_count = 0 };
  ping = record {
    ping_packet = packet (3 ∷ 1 ∷ 0 ∷ []);
    pong_packet = packet (4 ∷ 0 ∷ 0 ∷ []);
    ping_send_timer = 0;
    rtt_reset_timer = 0;
    rtt = 0;
    avg_rtt = 0;
    rtt_count = 0;
    ping_start = 0;
    ping_running = false;
  };
  connect_request_packet = some (packet (5 ∷ []));
  connect_accept_packet = none;
  shutdown_packet = none;
  connect_timer = 0;
  shutdown_timer = 0;
  connect_attempts = 0;
  since_last_packet = 0;
}

abbrev settings : Settings
settings = record {
  channels_count = 1;
  ping_interval = 1000000000;
  disconnect_timeout = 5000000000;
  reconnect_delay = 500000000;
  max_connect_attempts = 2;
  disable_mtu = true;
}

abbrev late : Tick
late = record {
  settings = settings;
  delta = 600000000;
  elapsed = 0;
  clock = 0;
  moments = λ i. record { now = 0; later = 0; delay = 27 };
  accepted = true;
}

updates-Asked_example :
    Asked settings
      (packet (5 ∷ []))
      (updates (late ∷ late ∷ late ∷ []) some_peer)
      3
      (send_raw (5 ∷ []) ∷ send_raw (5 ∷ []) ∷ disconnect_force connection_failed ∷ [])
updates-Asked_example =
    updates-Asked settings (packet (5 ∷ [])) 2 (late ∷ late ∷ late ∷ []) some_peer 0
      (record { state_is = refl; request_is = refl; attempts_are = refl })
      ((refl, omega arith), ((refl, omega arith), ((refl, omega arith), tt))) refl refl

-- A merged packet with two packets inside, on a connected peer.
abbrev merged : Packet
merged = packet (12 ∷ 2 ∷ 0 ∷ 0 ∷ 7 ∷ 2 ∷ 0 ∷ 0 ∷ 8 ∷ [])

merged_first : property merged ≡ some 12
unfolding property
merged_first = refl

abbrev joined : Peer
joined = record some_peer { state = connected }

abbrev at_once : Now
at_once = record { settings = settings; ticks = 0; elapsed = 0 }

process_packet-Ends_example :
    (process_packet 20 at_once joined merged ≡ process_packet 10 at_once joined merged)
    × (parts : List Packet) × (merged_parts 9 merged header_size ≡ some parts)
    × All (λ q. size q + 3 ≤ 9) parts
process_packet-Ends_example =
    process_packet-Ends at_once joined merged 20 12 (omega arith) merged_first
