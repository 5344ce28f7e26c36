-- ===== src/Packet/Tests.antt =====
-- Runs of internal/litenetlib/packet.go.
use scpxy.Base.{
  ℕ, ◌≡◌, ◌<◌, ◌≤◌, refl, true, some, none, List, [], ◌∷◌, arith, replicate, get_elem?, ◌>>=◌, All,
}
use scpxy.Base.Bits.{IsByte}
use scpxy.Base.Slice.{put, write}
use scpxy.Packet.{
  Packet, packet, size, property, property_header_size, set_property, set_connection_number,
  mark_fragmented, connection_number, is_fragmented, sequence, set_sequence, set_fragment_id,
  set_fragment_part, set_fragments_total, fragment_id, fragment_part, fragments_total, verify,
  new_packet, set_channel_id, prop_ack, prop_total, header_sizes,
}
use scpxy.Packet.Header.{Stores, fields, setters_independent}
use scpxy.Packet.Bounds.{Readable, FragmentReadable, IsChanneled, verify-Readable}
use scpxy.Packet.Words.{set_sequence_lem, fragment_header_lem}

-- `propertyHeaderSizes`
sizes :
    header_sizes
    ≡ (1 ∷ 4 ∷ 4 ∷ 3 ∷ 11 ∷ 18 ∷ 15 ∷ 9 ∷ 1 ∷ 1 ∷ 1 ∷ 1 ∷ 1 ∷ 1 ∷ 1 ∷ 1 ∷ 1 ∷ 1 ∷ 4 ∷ [])
sizes = refl

-- The packet of acks of the channel 2.
acks :
    (new_packet prop_ack 9 >>= λ p. set_channel_id p 2)
    ≡ some (packet (2 ∷ 0 ∷ 0 ∷ 2 ∷ replicate 9 0))
unfolding new_packet set_property property_header_size set_channel_id put write
acks = refl

-- The empty packet has no property to read.
nothing : property (packet []) ≡ none
unfolding property
nothing = refl

abbrev tail_bytes : List ℕ
tail_bytes = 7 ∷ 8 ∷ []

setters_independent_example :
    Stores tail_bytes
      (set_property (packet (0xe5 ∷ tail_bytes)) 2)
      (record (fields 0xe5) { kind = 2 })
    × Stores tail_bytes
        (set_connection_number (packet (0xe5 ∷ tail_bytes)) 1)
        (record (fields 0xe5) { number = 1 })
    × Stores tail_bytes
        (mark_fragmented (packet (0xe5 ∷ tail_bytes)))
        (record (fields 0xe5) { fragmented = true })
setters_independent_example =
    setters_independent 0xe5 tail_bytes (omega arith) 2 1 (omega arith) (omega arith)

-- A fragment with its headers, and two bytes.
abbrev fragment_tail : List ℕ
fragment_tail = 5 ∷ 0 ∷ 2 ∷ 1 ∷ 0 ∷ 0 ∷ 0 ∷ 3 ∷ 0 ∷ 9 ∷ 9 ∷ []

bytes_lem : All IsByte (0x81 ∷ fragment_tail)
bytes_lem = (
  omega arith,
  (
    omega arith,
    (
      omega arith,
      (
        omega arith,
        (
          omega arith,
          (
            omega arith,
            (
              omega arith,
              (omega arith, (omega arith, (omega arith, (omega arith, (omega arith, tt))))),
            ),
          ),
        ),
      ),
    ),
  ),
)

verified : verify (packet (0x81 ∷ fragment_tail)) ≡ true
unfolding verify property_header_size
verified = refl

read_kind : property (packet (0x81 ∷ fragment_tail)) ≡ some 1
unfolding property
read_kind = refl

verify-Readable_example :
    (1 < prop_total)
    × (property_header_size 1 ≤ size (packet (0x81 ∷ fragment_tail)))
    × (IsChanneled 1 → Readable (packet (0x81 ∷ fragment_tail)))
    × (IsChanneled 1
        → is_fragmented (packet (0x81 ∷ fragment_tail)) ≡ some true
        → FragmentReadable (packet (0x81 ∷ fragment_tail)))
verify-Readable_example = verify-Readable 0x81 fragment_tail bytes_lem verified 1 read_kind

abbrev fragment : Packet
fragment = packet (0x81 ∷ fragment_tail)

set_sequence_lem_example :
    (q : Packet) × (set_sequence fragment 32767 ≡ some q)
    × (sequence q ≡ some 32767)
    × (size q ≡ size fragment)
    × (property q ≡ property fragment)
    × (connection_number q ≡ connection_number fragment)
    × (is_fragmented q ≡ is_fragmented fragment)
    × ((j : ℕ) → 3 ≤ j → get_elem? q.bytes j ≡ get_elem? fragment.bytes j)
set_sequence_lem_example = set_sequence_lem fragment 32767 (omega arith) (omega arith)

fragment_header_lem_example :
    (q : Packet) × ((set_fragment_id fragment 300 >>= λ a.
    set_fragment_part a 2 >>= λ b. set_fragments_total b 3)
      ≡ some q)
    × (fragment_id q ≡ some 300)
    × (fragment_part q ≡ some 2)
    × (fragments_total q ≡ some 3)
    × (size q ≡ size fragment)
    × ((j : ℕ) → j < 4 → get_elem? q.bytes j ≡ get_elem? fragment.bytes j)
    × ((j : ℕ) → 10 ≤ j → get_elem? q.bytes j ≡ get_elem? fragment.bytes j)
fragment_header_lem_example =
    fragment_header_lem fragment 300 2 3 (omega arith) (omega arith) (omega arith) (omega arith)
