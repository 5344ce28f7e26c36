-- ===== src/Channel/Receive.antt =====
-- The receiving side of the reliable channel of channel.go.
use scpxy.Base.{
  ℕ, zero, suc, ◌+◌, ◌-◌, ◌*◌, ◌%◌, Bool, true, false, not, ◌||◌, Option, none, some, List, [], ◌∷◌,
  ◌++◌, length, get_elem?, set, take, drop, ltb, leb, ◌==◌, if◌then◌else◌, ◌>>=◌,
}
use scpxy.Base.Int.{ℤ, pos, negsuc, ltb_ℤ}
use scpxy.Base.LittleEndian.{le_value}
use scpxy.Base.Slice.{read, put}
use scpxy.Wire.{Delivery, channeled_header_size, max_sequence, merge_header_size, relative_sequence}
use scpxy.Packet.{
  Packet, packet, size, property, set_sequence, channel_id, set_channel_id, new_packet,
  prop_channeled, prop_reliable_merged,
}
use scpxy.Channel.{
  Reliable, Effect, add_reliable, enqueue_channel, delivery_of, window_size, ack_bit, set_ack,
  clear_ack, next_sequence, steps,
}

-- One message out of a merged packet: a packet of its own with the same channel.
unfoldable pub inner_packet : Packet → ℕ → ℕ → Option Packet
inner_packet p at n = do
  fresh ← new_packet prop_channeled n
  channel ← channel_id p
  inner ← set_channel_id fresh channel
  bs ← put inner.bytes channeled_header_size (take n (drop at p.bytes))
  some (packet bs)

-- The loop of `processIncoming` from the offset `at`, by the bytes of the packet as fuel.
unfoldable pub split_merged : ℕ → Delivery → Packet → ℕ → Option (List Effect)
split_merged zero d p at = none
split_merged (suc fuel) d p at =
    if ltb (size p) (at + merge_header_size)
    then some []
    else (read 2 p.bytes at >>= λ bs.
        elim (le_value bs == 0 || ltb (size p) (at + merge_header_size + le_value bs)) [
          | true ↦ some []
          | false ↦ inner_packet p (at + merge_header_size) (le_value bs) >>= λ inner.
              split_merged fuel d p (at + merge_header_size + le_value bs) >>= λ more.
              some (add_reliable d inner ∷ more)
        ])

unfoldable pub process_incoming : Delivery → Packet → Option (List Effect)
process_incoming d p = do
  kind ← property p
  (if kind == prop_reliable_merged
      then split_merged (size p) d p channeled_header_size
      else some (add_reliable d p ∷ []))

-- The bits of the places that the window leaves are cleared on its way to `start`.
unfoldable pub clear_places : ℕ → ℕ → ℕ → Packet → Option Packet
clear_places zero window start acks = if window == start then some acks else none
clear_places (suc fuel) window start acks = elim (window == start) [
  | true ↦ some acks
  | false ↦ clear_ack acks (window % window_size) >>= λ acks'.
      clear_places fuel (next_sequence window) start acks'
]

abbrev pub nonneg : ℤ → ℕ
nonneg (pos n) = n
nonneg (negsuc n) = 0

-- The window moves when the packet lies beyond it.
unfoldable pub slide : Reliable → ℕ → Option Reliable
slide c relate = if ltb relate window_size then some c else (do
  let start = (c.remote_window + relate - window_size + 1) % max_sequence
  acks ← set_sequence c.outgoing_acks start
  acks' ← clear_places (steps c.remote_window start) c.remote_window start acks
  some (record c { outgoing_acks = acks'; remote_window = start }))

-- The packets that were held, from `remoteSequence` on, until a place is empty. The ordered channel's
-- loop, and the other's, which only counts; the window's size and two more as fuel.
unfoldable pub drain_held : ℕ → Reliable → Option (Reliable × List Effect)
drain_held zero c = none
drain_held (suc fuel) c = get_elem? c.received_packets (c.remote_sequence % window_size) >>= λ held.
    elim held [
      | none ↦ some (c, [])
      | some p ↦ process_incoming (delivery_of c) p >>= λ effects.
          drain_held fuel (record c {
            received_packets = set c.received_packets (c.remote_sequence % window_size) none;
            remote_sequence = next_sequence c.remote_sequence;
          })
          >>= λ rest. some (rest.0, effects ++ rest.1)
    ]

unfoldable pub drain_early : ℕ → Reliable → Option Reliable
drain_early zero c = none
drain_early (suc fuel) c = get_elem? c.early_received (c.remote_sequence % window_size) >>= λ early.
    elim early [
      | false ↦ some c
      | true ↦ drain_early fuel (record c {
        early_received = set c.early_received (c.remote_sequence % window_size) false;
        remote_sequence = next_sequence c.remote_sequence;
      })
    ]

abbrev pub drain_fuel : ℕ
drain_fuel = window_size + 2

-- The packet that was waited for, and those behind it.
unfoldable pub advance : Reliable → Packet → Option (Reliable × List Effect)
advance c p = process_incoming (delivery_of c) p >>= λ effects.
    let c' : Reliable = record c { remote_sequence = next_sequence c.remote_sequence } in
    if c.ordered
    then (drain_held drain_fuel c' >>= λ rest. some (rest.0, effects ++ rest.1))
    else (drain_early drain_fuel c' >>= λ c''. some (c'', effects))

-- A write to a slice; past its end Go panics.
abbrev pub store {ℓ} : {A : Type ℓ} → List A → ℕ → A → Option (List A)
store xs i v = if ltb i (length xs) then some (set xs i v) else none

-- A packet ahead of the one that is waited for.
unfoldable pub hold : Reliable → Packet → ℕ → Option (Reliable × List Effect)
hold c p idx =
    if c.ordered
    then (store c.received_packets idx (some p) >>= λ held.
        some (record c { received_packets = held }, []))
    else (store c.early_received idx true >>= λ early.
        process_incoming (delivery_of c) p >>= λ effects.
        some (record c { early_received = early }, effects))

-- `processPacket` from `mustSendAcks = true` on.
unfoldable pub accept : Reliable → Packet → ℕ → Option (Reliable × List Effect × Bool)
accept c p seq = ack_bit c.outgoing_acks (seq % window_size) >>= λ seen.
    if seen
    then some (c, enqueue_channel ∷ [], false)
    else (set_ack c.outgoing_acks (seq % window_size) >>= λ acks.
        let c' : Reliable = record c { outgoing_acks = acks } in
        (if seq == c.remote_sequence then advance c' p else hold c' p (seq % window_size)) >>= λ r.
        some (r.0, enqueue_channel ∷ r.1, true))

-- `processPacket` of a packet that is no ack, from its sequence number on.
unfoldable pub receive : Reliable → Packet → ℕ → Option (Reliable × List Effect × Bool)
receive c p seq =
    let relate = relative_sequence seq c.remote_window in
    if leb max_sequence seq
    then some (c, [], false)
    else if ltb_ℤ (pos window_size) (relative_sequence seq c.remote_sequence)
    then some (c, [], false)
    else if ltb_ℤ relate (pos 0) || not (ltb_ℤ relate (pos (window_size * 2)))
    then some (c, [], false)
    else (slide c (nonneg relate) >>= λ c'. accept (record c' { must_send_acks = true }) p seq)
