-- ===== src/Channel.antt =====
-- internal/litenetlib/channel.go: what the channels share. A channel asks its peer for things through
-- effects, in the order of its calls; time and the resend delay are arguments. `none` is a panic of
-- Go, an index out of range, or a loop that has used up its fuel; the theorems exclude both.
pub mod Bitmap
pub mod Receive
pub mod Merged
pub mod Held
pub mod Drain
pub mod Slide
pub mod Kept
pub mod Accept
pub mod Send
pub mod Flight
pub mod Acked
pub mod Sent
pub mod Resent
pub mod Start
pub mod Step
pub mod Order
pub mod Sequenced
pub mod Newest
mod Tests
mod SequencedTests
pub mod Window
use scpxy.Base.{
  ℕ, ◌+◌, ◌-◌, ◌/◌, ◌%◌, ◌^◌, bit_and, bit_or, Bool, true, false, not, Option, none, some, List, [],
  ◌∷◌, ◌++◌, replicate, get_elem?, set, ◌==◌, if◌then◌else◌, ◌>>=◌,
}
use scpxy.Wire.{
  Delivery, reliable_ordered, reliable_unordered, channeled_header_size, default_window_size,
  max_sequence,
}
use scpxy.Packet.{Packet, packet, new_packet, set_channel_id, prop_ack}

abbrev pub bits_in_byte : ℕ
bits_in_byte = 8

-- The `windowSize` of every channel.
abbrev pub window_size : ℕ
window_size = default_window_size

-- The calls of `c.peer`: `sendUserData`, `addReliablePacket`, `deliver` with its channel and offset, and
-- `enqueueChannel` of the channel itself. `sendUserData` also writes the connection number into the
-- packet; no channel reads it, and each send writes it anew.
pub data Effect : Type 0 where
  send_user_data : Packet → Effect
  add_reliable : Delivery → Packet → Effect
  deliver : Packet → Delivery → ℕ → ℕ → Effect
  enqueue_channel : Effect

pub record Pending : Type 0 where
  pub pkt : Option Packet
  pub time_stamp : ℕ
  pub is_sent : Bool

pub record Reliable : Type 0 where
  pub id : ℕ
  pub ordered : Bool
  pub outgoing : List Packet
  pub outgoing_acks : Packet
  pub pending_packets : List Pending
  pub received_packets : List (Option Packet)
  pub early_received : List Bool
  pub local_sequence : ℕ
  pub remote_sequence : ℕ
  pub local_window : ℕ
  pub remote_window : ℕ
  pub must_send_acks : Bool

abbrev pub delivery_of : Reliable → Delivery
delivery_of c = if c.ordered then reliable_ordered else reliable_unordered

abbrev pub no_pending : Pending
no_pending = record { pkt = none; time_stamp = 0; is_sent = false }

-- An ack bit for each place of the window, eight to a byte.
abbrev pub ack_bytes : ℕ
ack_bytes = (window_size - 1) / bits_in_byte + 2

unfoldable pub new_reliable_channel : Bool → ℕ → Option Reliable
new_reliable_channel ordered id = do
  acks ← new_packet prop_ack ack_bytes
  acks' ← set_channel_id acks id
  some (record {
    id = id;
    ordered = ordered;
    outgoing = [];
    outgoing_acks = acks';
    pending_packets = replicate window_size no_pending;
    received_packets = if ordered then replicate window_size none else [];
    early_received = if ordered then [] else replicate window_size false;
    local_sequence = 0;
    remote_sequence = 0;
    local_window = 0;
    remote_window = 0;
    must_send_acks = false;
  })

unfoldable pub enqueue : Reliable → Packet → Reliable
enqueue c p = record c { outgoing = c.outgoing ++ (p ∷ []) }

-- `1 << (idx % bitsInByte)` as a byte, and the three uses of it on the byte of the place `idx`.
abbrev pub ack_mask : ℕ → ℕ
ack_mask idx = 2 ^ (idx % bits_in_byte)

abbrev pub ack_byte : ℕ → ℕ
ack_byte idx = channeled_header_size + idx / bits_in_byte

abbrev pub has_bit : ℕ → ℕ → Bool
has_bit b idx = not (bit_and b (ack_mask idx) == 0)

unfoldable pub ack_bit : Packet → ℕ → Option Bool
ack_bit p idx = do b ← get_elem? p.bytes (ack_byte idx); some (has_bit b idx)

unfoldable pub set_ack : Packet → ℕ → Option Packet
set_ack p idx = do
  b ← get_elem? p.bytes (ack_byte idx)
  some (packet (set p.bytes (ack_byte idx) (bit_or b (ack_mask idx))))

-- `&^=`
unfoldable pub clear_ack : Packet → ℕ → Option Packet
clear_ack p idx = do
  b ← get_elem? p.bytes (ack_byte idx)
  some (packet (set p.bytes (ack_byte idx) (bit_and b (255 - ack_mask idx))))

abbrev pub next_sequence : ℕ → ℕ
next_sequence s = (s + 1) % max_sequence

-- The steps of one from `a` to `b` on the circle of sequence numbers: the fuel of a loop over them.
abbrev pub steps : ℕ → ℕ → ℕ
steps a b = (b + max_sequence - a) % max_sequence
