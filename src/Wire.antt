-- ===== src/Wire.antt =====
-- internal/litenetlib/const.go: the protocol's numbers, delivery methods and disconnect reasons.
pub mod Sequence
mod Tests
use Prim.Native.String.{String}
use scpxy.Base.{ℕ, ◌+◌, ◌-◌, ◌*◌, ◌/◌, List, [], ◌∷◌}
use scpxy.Base.Int.{ℤ, pos, sub_ℕ, rem, ◌-ℤ◌}

pub data Delivery : Type 0 where
  reliable_unordered sequenced reliable_ordered reliable_sequenced unreliable : Delivery

-- The byte that stands for a method, and `Delivery.String`.
abbrev pub delivery_byte : Delivery → ℕ
delivery_byte reliable_unordered = 0
delivery_byte sequenced = 1
delivery_byte reliable_ordered = 2
delivery_byte reliable_sequenced = 3
delivery_byte unreliable = 4

pub delivery_name : Delivery → String
delivery_name reliable_unordered = "ReliableUnordered"
delivery_name sequenced = "Sequenced"
delivery_name reliable_ordered = "ReliableOrdered"
delivery_name reliable_sequenced = "ReliableSequenced"
delivery_name unreliable = "Unreliable"

abbrev pub protocol_id : ℕ
protocol_id = 13

abbrev pub header_size : ℕ
header_size = 1

abbrev pub channeled_header_size : ℕ
channeled_header_size = 4

abbrev pub fragment_header_size : ℕ
fragment_header_size = 6

abbrev pub fragmented_header_total : ℕ
fragmented_header_total = channeled_header_size + fragment_header_size

abbrev pub max_sequence : ℕ
max_sequence = 32768

abbrev pub half_max_sequence : ℕ
half_max_sequence = max_sequence / 2

abbrev pub channel_type_count : ℕ
channel_type_count = 4

abbrev pub max_connection_number : ℕ
max_connection_number = 4

abbrev pub default_window_size : ℕ
default_window_size = 64

abbrev pub max_udp_header_size : ℕ
max_udp_header_size = 68

abbrev pub connect_request_header : ℕ
connect_request_header = 18

abbrev pub connect_accept_size : ℕ
connect_accept_size = 15

abbrev pub merge_size_threshold : ℕ
merge_size_threshold = 20

abbrev pub merge_header_size : ℕ
merge_header_size = 2

abbrev pub max_mtu_check_attempts : ℕ
max_mtu_check_attempts = 4

abbrev pub shutdown_resend_delay : ℕ
shutdown_resend_delay = 300 * 1000000

abbrev pub mtu_check_delay : ℕ
mtu_check_delay = 1000 * 1000000

abbrev pub default_channels_count : ℕ
default_channels_count = 64

abbrev pub default_ping_interval : ℕ
default_ping_interval = 1000 * 1000000

abbrev pub default_disconnect_after : ℕ
default_disconnect_after = 5000 * 1000000

abbrev pub default_reconnect_delay : ℕ
default_reconnect_delay = 500 * 1000000

abbrev pub default_connect_attempts : ℕ
default_connect_attempts = 10

abbrev pub default_update_interval : ℕ
default_update_interval = 15 * 1000000

abbrev pub address_family_ipv4 : ℕ
address_family_ipv4 = 2

abbrev pub address_family_ipv6 : ℕ
address_family_ipv6 = 23

abbrev pub possible_mtu : List ℕ
possible_mtu =
    1024
    ∷ (1232 - max_udp_header_size)
    ∷ (1460 - max_udp_header_size)
    ∷ (1472 - max_udp_header_size)
    ∷ (1492 - max_udp_header_size)
    ∷ (1500 - max_udp_header_size)
    ∷ []

-- `possibleMtu[len(possibleMtu)-1]`
abbrev pub max_packet_size : ℕ
max_packet_size = 1500 - max_udp_header_size

pub data DisconnectReason : Type 0 where
  connection_failed timeout host_unreachable network_unreachable remote_connection_close :
      DisconnectReason
  disconnect_peer_called connection_rejected invalid_protocol unknown_host : DisconnectReason
  reconnect peer_not_found : DisconnectReason

pub reason_text : DisconnectReason → String
reason_text connection_failed = "connection failed"
reason_text timeout = "timeout"
reason_text host_unreachable = "host unreachable"
reason_text network_unreachable = "network unreachable"
reason_text remote_connection_close = "closed by remote"
reason_text disconnect_peer_called = "disconnected locally"
reason_text connection_rejected = "rejected"
reason_text invalid_protocol = "invalid protocol"
reason_text unknown_host = "unknown host"
reason_text reconnect = "reconnect"
reason_text peer_not_found = "peer not found"

-- How far `number` is ahead of `expected` on the circle of sequence numbers. The arguments are
-- Go ints that are never negative; the sum can be, and Go's `%` keeps its sign.
unfoldable pub relative_sequence : ℕ → ℕ → ℤ
relative_sequence number expected =
    rem (sub_ℕ (number + max_sequence + half_max_sequence) expected) max_sequence
    -ℤ pos half_max_sequence
