-- ===== src/Packet.antt =====
-- internal/litenetlib/packet.go: a packet is its bytes, behind accessors for the header's fields.
-- `none` stands for Go's panic on an index out of range; `Packet.Bounds` shows where it cannot come.
pub mod Header
pub mod Bounds
pub mod Words
mod Tests
use Prim.Native.String.{String}
use scpxy.Base.{
  ℕ, zero, suc, ◌+◌, ◌*◌, ◌/◌, ◌%◌, bit_and, bit_or, Bool, true, false, not, ◌&&◌, ◌||◌, Option,
  none, some, List, [], ◌∷◌, map, length, get_elem?, set, replicate, ltb, leb, ◌==◌, if◌then◌else◌,
  ◌>>=◌,
}
use scpxy.Base.LittleEndian.{le_bytes, le_value}
use scpxy.Base.Slice.{read, put}
use scpxy.Wire.{
  header_size, channeled_header_size, fragment_header_size, connect_request_header,
  connect_accept_size,
}

-- The properties, by number.
abbrev pub prop_unreliable : ℕ
prop_unreliable = 0

abbrev pub prop_channeled : ℕ
prop_channeled = 1

abbrev pub prop_ack : ℕ
prop_ack = 2

abbrev pub prop_ping : ℕ
prop_ping = 3

abbrev pub prop_pong : ℕ
prop_pong = 4

abbrev pub prop_connect_request : ℕ
prop_connect_request = 5

abbrev pub prop_connect_accept : ℕ
prop_connect_accept = 6

abbrev pub prop_disconnect : ℕ
prop_disconnect = 7

abbrev pub prop_unconnected_message : ℕ
prop_unconnected_message = 8

abbrev pub prop_mtu_check : ℕ
prop_mtu_check = 9

abbrev pub prop_mtu_ok : ℕ
prop_mtu_ok = 10

abbrev pub prop_broadcast : ℕ
prop_broadcast = 11

abbrev pub prop_merged : ℕ
prop_merged = 12

abbrev pub prop_shutdown_ok : ℕ
prop_shutdown_ok = 13

abbrev pub prop_peer_not_found : ℕ
prop_peer_not_found = 14

abbrev pub prop_invalid_protocol : ℕ
prop_invalid_protocol = 15

abbrev pub prop_nat_message : ℕ
prop_nat_message = 16

abbrev pub prop_empty : ℕ
prop_empty = 17

abbrev pub prop_reliable_merged : ℕ
prop_reliable_merged = 18

abbrev pub prop_total : ℕ
prop_total = 19

-- One entry of the table, by the `switch` of `buildHeaderSizes`.
abbrev pub table_size : ℕ → ℕ
table_size i =
    if i == prop_channeled || i == prop_ack || i == prop_reliable_merged
    then channeled_header_size
    else if i == prop_ping
    then header_size + 2
    else if i == prop_connect_request
    then connect_request_header
    else if i == prop_connect_accept
    then connect_accept_size
    else if i == prop_disconnect
    then header_size + 8
    else if i == prop_pong
    then header_size + 10
    else header_size

-- The numbers from `i` on, `n` of them.
abbrev range_from : ℕ → ℕ → List ℕ
range_from zero i = []
range_from (suc n) i = i ∷ range_from n (i + 1)

abbrev pub header_sizes : List ℕ
header_sizes = map table_size (range_from prop_total 0)

unfoldable pub property_header_size : ℕ → ℕ
property_header_size p = if leb (length header_sizes) p then header_size else indexed
  where
    indexed : ℕ
    indexed = elim (get_elem? header_sizes p) [ none ↦ header_size | some s ↦ s ]

pub record Packet : Type 0 where
  pub bytes : List ℕ

abbrev pub packet : List ℕ → Packet
packet bs = record { bytes = bs }

abbrev pub size : Packet → ℕ
size p = length p.bytes

-- A store to the first byte.
abbrev set_first : Packet → (ℕ → ℕ) → Option Packet
set_first p f = do b ← get_elem? p.bytes 0; some (packet (set p.bytes 0 (f b)))

unfoldable pub property : Packet → Option ℕ
property p = do b ← get_elem? p.bytes 0; some (bit_and b 0x1f)

unfoldable pub set_property : Packet → ℕ → Option Packet
set_property p v = set_first p (λ b. bit_or (bit_and b 0xe0) v)

unfoldable pub connection_number : Packet → Option ℕ
connection_number p = do b ← get_elem? p.bytes 0; some (shift b)
  where
    -- `(b & 0x60) >> 5`
    shift : ℕ → ℕ
    shift b = bit_and b 0x60 / 32

-- `v << 5` keeps the low eight bits.
unfoldable pub set_connection_number : Packet → ℕ → Option Packet
set_connection_number p v = set_first p (λ b. bit_or (bit_and b 0x9f) (v * 32 % 256))

abbrev pub fragment_bit : ℕ → Bool
fragment_bit b = not (bit_and b 0x80 == 0)

unfoldable pub is_fragmented : Packet → Option Bool
is_fragmented p = do b ← get_elem? p.bytes 0; some (fragment_bit b)

unfoldable pub mark_fragmented : Packet → Option Packet
mark_fragmented p = set_first p (λ b. bit_or b 0x80)

unfoldable pub new_raw_packet : ℕ → Packet
new_raw_packet n = packet (replicate n 0)

unfoldable pub new_packet : ℕ → ℕ → Option Packet
new_packet p payload = set_property (packet (replicate (property_header_size p + payload) 0)) p

-- `binary.LittleEndian.Uint16(p.data[i:])` and its write.
abbrev uint16_at : Packet → ℕ → Option ℕ
uint16_at p i = do bs ← read 2 p.bytes i; some (le_value bs)

abbrev put_uint16_at : Packet → ℕ → ℕ → Option Packet
put_uint16_at p i v = do bs ← put p.bytes i (le_bytes 2 v); some (packet bs)

unfoldable pub sequence : Packet → Option ℕ
sequence p = uint16_at p 1

unfoldable pub set_sequence : Packet → ℕ → Option Packet
set_sequence p v = put_uint16_at p 1 v

unfoldable pub channel_id : Packet → Option ℕ
channel_id p = get_elem? p.bytes 3

unfoldable pub set_channel_id : Packet → ℕ → Option Packet
set_channel_id p v = do bs ← put p.bytes 3 (v ∷ []); some (packet bs)

unfoldable pub fragment_id : Packet → Option ℕ
fragment_id p = uint16_at p 4

unfoldable pub set_fragment_id : Packet → ℕ → Option Packet
set_fragment_id p v = put_uint16_at p 4 v

unfoldable pub fragment_part : Packet → Option ℕ
fragment_part p = uint16_at p 6

unfoldable pub set_fragment_part : Packet → ℕ → Option Packet
set_fragment_part p v = put_uint16_at p 6 v

unfoldable pub fragments_total : Packet → Option ℕ
fragments_total p = uint16_at p 8

unfoldable pub set_fragments_total : Packet → ℕ → Option Packet
set_fragments_total p v = put_uint16_at p 8 v

-- The tests of `verify` on a packet that has a first byte.
abbrev pub verify_first : ℕ → ℕ → Bool
verify_first b len =
    if leb prop_total (bit_and b 0x1f)
    then false
    else if ltb len (property_header_size (bit_and b 0x1f))
    then false
    else if fragment_bit b && ltb len (property_header_size (bit_and b 0x1f) + fragment_header_size)
    then false
    else true

unfoldable pub verify : Packet → Bool
verify p = elim p.bytes [ [] ↦ false | b ∷ rest ↦ verify_first b (suc (length rest)) ]

-- The copy has bytes of its own; in a model without aliasing it is the same value.
unfoldable pub clone : Packet → Packet
clone p = packet p.bytes

pub property_name : ℕ → String
property_name p = elim (get_elem? names p) [ none ↦ "Unknown" | some s ↦ s ]
  where
    names : List String
    names =
        "Unreliable" ∷ "Channeled" ∷ "Ack" ∷ "Ping" ∷ "Pong" ∷ "ConnectRequest" ∷ "ConnectAccept"
        ∷ "Disconnect" ∷ "UnconnectedMessage" ∷ "MtuCheck" ∷ "MtuOk" ∷ "Broadcast" ∷ "Merged"
        ∷ "ShutdownOk" ∷ "PeerNotFound" ∷ "InvalidProtocol" ∷ "NatMessage" ∷ "Empty"
        ∷ "ReliableMerged" ∷ []
