-- ===== src/Peer/Fragments.antt =====
-- Messages larger than a packet in peer.go: the loop of `send` that cuts them, and
-- `addReliablePacket` that puts them together again.
use scpxy.Base.{
  ℕ, zero, suc, ◌+◌, ◌-◌, ◌*◌, ◌/◌, ◌%◌, Bool, true, false, not, ◌||◌, Option, none, some, List, [],
  ◌∷◌, length, get_elem?, set, take, drop, replicate, ltb, leb, ◌==◌, if◌then◌else◌, ◌>>=◌,
}
use scpxy.Base.Assoc.{lookup, insert, erase, nat_key}
use scpxy.Base.Slice.{write}
use scpxy.Wire.{
  Delivery, channel_type_count, channeled_header_size, fragment_header_size,
  fragmented_header_total,
}
use scpxy.Packet.{
  Packet, packet, size, set_property, is_fragmented, mark_fragmented, new_raw_packet, channel_id,
  fragment_id, set_fragment_id, fragment_part, set_fragment_part, fragments_total,
  set_fragments_total, prop_channeled,
}
use scpxy.Peer.{IncomingFragments, Call, dispatch_receive, slice_from, copy_at}

-- One fragment: its header behind the channel's, then its bytes of the message.
unfoldable pub fragment : ℕ → ℕ → ℕ → List ℕ → Option Packet
fragment id part total chunk = do
  a ←
      set_property (new_raw_packet (channeled_header_size + length chunk + fragment_header_size))
        prop_channeled
  b ← set_fragment_id a id
  c ← set_fragment_part b (part % 65536)
  d ← set_fragments_total c (total % 65536)
  e ← mark_fragmented d
  bs ← copy_at e.bytes fragmented_header_total chunk
  some (packet bs)

-- The loop over the parts: the rounds that are left, the part's number, and the bytes that remain.
unfoldable pub fragments_from : ℕ → ℕ → ℕ → ℕ → ℕ → ℕ → List ℕ → Option (List Packet)
fragments_from zero part id total width remaining message = some []
fragments_from (suc rounds) part id total width remaining message =
    let len : ℕ = if ltb remaining width then remaining else width in
    fragment id part total (take len (drop (part * width) message)) >>= λ p.
    fragments_from rounds (part + 1) id total width (remaining - len) message >>= λ ps.
    some (p ∷ ps)

-- `totalPackets`, for a part's `width`.
abbrev pub total_packets : ℕ → ℕ → ℕ
total_packets len width = if len % width == 0 then len / width else len / width + 1

-- The message in its fragments.
unfoldable pub split_message : ℕ → ℕ → List ℕ → Option (List Packet)
split_message id width message =
    let total = total_packets (length message) width in
    fragments_from total 0 id total width (length message) message

abbrev pub Held : Type 0
Held = List (ℕ × IncomingFragments)

-- The fragments of a message that has them all, one behind the other; `none` inside where they do not
-- fit into the bytes counted. A fragment shorter than its header, which `verify` refuses, is a panic.
unfoldable pub join : List (Option Packet) → ℕ → List ℕ → Option (Option (List ℕ))
join [] pos result = some (some result)
join (none ∷ fs) pos result = none
join (some f ∷ fs) pos result =
    let written = size f - fragmented_header_total in
    let rest = join fs (pos + written) (write result pos (drop fragmented_header_total f.bytes)) in
    if ltb (size f) fragmented_header_total
    then none
    else if ltb (length result) (pos + written)
    then some none
    else rest

-- The entry of a fragment's message, or a new one.
unfoldable pub entry : Held → ℕ → Packet → Option IncomingFragments
entry held id p = elim (lookup id held) [
  | some e ↦ some e
  | none ↦ fragments_total p >>= λ total. channel_id p >>= λ channel. some (record {
    fragments = replicate total none;
    received = 0;
    total_size = 0;
    channel_id = channel;
  })
]

abbrev pub is_missing : Option (Option Packet) → Bool
is_missing (some none) = true
is_missing _ = false

-- The fragment is out of place, there already, or of another channel.
unfoldable pub is_refused : IncomingFragments → ℕ → ℕ → Bool
is_refused e part channel =
    leb (length e.fragments) part
    || (not (is_missing (get_elem? e.fragments part)) || not (channel == e.channel_id))

abbrev pub with_fragment : IncomingFragments → ℕ → Packet → IncomingFragments
with_fragment e part p = record e {
  fragments = set e.fragments part (some p);
  received = e.received + 1;
  total_size = e.total_size + (size p - fragmented_header_total);
}

-- The last fragment of a message completes it.
unfoldable pub complete : Held → ℕ → IncomingFragments → Delivery → Option (Held × List Call)
complete held id e method = join e.fragments 0 (replicate e.total_size 0) >>= λ joined.
    some (elim joined [
      | none ↦ (erase id held, [])
      | some message ↦
          (erase id held, dispatch_receive message (e.channel_id / channel_type_count) method ∷ [])
    ])

unfoldable pub add_fragment : Held → Delivery → Packet → ℕ → Option (Held × List Call)
add_fragment held method p id = entry held id p >>= λ e. fragment_part p >>= λ part.
    channel_id p >>= λ channel.
    let e' : IncomingFragments = with_fragment e part p in
    if is_refused e part channel
    then some (insert id e held, [])
    else if e'.received == length e'.fragments
    then complete held id e' method
    else some (insert id e' held, [])

-- `addReliablePacket`
unfoldable pub add_reliable_packet : Held → Delivery → Packet → Option (Held × List Call)
add_reliable_packet held method p = is_fragmented p >>= λ fragmented.
    if fragmented
    then (fragment_id p >>= λ id. add_fragment held method p id)
    else (channel_id p >>= λ channel. slice_from p.bytes channeled_header_size >>= λ message.
        some (held, dispatch_receive message (channel / channel_type_count) method ∷ []))
