-- ===== src/Channel/Send.antt =====
-- The sending side of the reliable channel of channel.go, its acks, and `processPacket` as a whole.
-- `now` is the tick of the call, `delay` the peer's resend delay in ticks.
use scpxy.Base.{
  ℕ, zero, suc, ◌+◌, ◌%◌, Bool, true, false, not, ◌||◌, ◌&&◌, Option, none, some, List, [], ◌∷◌,
  ◌++◌, get_elem?, set, ltb, leb, ◌==◌, if◌then◌else◌, ◌>>=◌,
}
use scpxy.Base.Int.{ℤ, pos, ltb_ℤ}
use scpxy.Wire.{max_sequence, relative_sequence}
use scpxy.Packet.{Packet, size, property, sequence, set_sequence, set_channel_id, prop_ack}
use scpxy.Channel.{
  Reliable, Pending, Effect, send_user_data, window_size, ack_bit, next_sequence, steps,
}
use scpxy.Channel.Receive.{receive, store}

-- `pendingPacket.trySend`: the entry, what is sent, and whether there is a packet.
unfoldable pub try_send : Pending → ℕ → ℕ → Pending × List Effect × Bool
try_send pp now delay = elim pp.pkt [
  | none ↦ (pp, [], false)
  | some p ↦
      if pp.is_sent && ltb now (pp.time_stamp + delay)
      then (pp, [], true)
      else (record pp { time_stamp = now; is_sent = true }, send_user_data p ∷ [], true)
]

unfoldable pub clear : Pending → Pending
clear pp = record pp { pkt = none }

-- The packet of the number `seq` has been acknowledged.
unfoldable pub acknowledge : Reliable → ℕ → Option Reliable
acknowledge c seq = do
  pp ← get_elem? c.pending_packets (seq % window_size)
  some (record c {
    local_window = if seq == c.local_window then next_sequence c.local_window else c.local_window;
    pending_packets = set c.pending_packets (seq % window_size) (clear pp);
  })

-- `!(z < window_size)`
abbrev pub beyond_window : ℤ → Bool
beyond_window z = not (ltb_ℤ z (pos window_size))

-- The loop of `processAck` from `seq` on; the steps up to `localSequence` as fuel.
unfoldable pub ack_loop : ℕ → ℕ → ℕ → Packet → Reliable → Option Reliable
ack_loop zero seq start p c = if seq == c.local_sequence then some c else none
ack_loop (suc fuel) seq start p c =
    elim (seq == c.local_sequence || beyond_window (relative_sequence seq start)) [
      | true ↦ some c
      | false ↦ ack_bit p (seq % window_size) >>= λ acked.
          (if acked then acknowledge c seq else some c) >>= λ c'.
          ack_loop fuel (next_sequence seq) start p c'
    ]

unfoldable pub process_ack : Reliable → Packet → Option Reliable
process_ack c p =
    if not (size p == size c.outgoing_acks)
    then some c
    else (sequence p >>= λ start.
        let relate = relative_sequence c.local_window start in
        if leb max_sequence start || (ltb_ℤ relate (pos 0) || beyond_window relate)
        then some c
        else ack_loop (steps c.local_window c.local_sequence) c.local_window start p c)

-- `processPacket`
unfoldable pub process_packet : Reliable → Packet → Option (Reliable × List Effect × Bool)
process_packet c p = property p >>= λ kind.
    if kind == prop_ack
    then (process_ack c p >>= λ c'. some (c', [], false))
    else (sequence p >>= λ seq. receive c p seq)

abbrev pub fresh_pending : Packet → Pending
fresh_pending p = record { pkt = some p; time_stamp = 0; is_sent = false }

-- Packets that wait are numbered and become pending while the window has room.
unfoldable pub fill : List Packet → Reliable → Option Reliable
fill [] c = some (record c { outgoing = [] })
fill (p ∷ ps) c = elim (beyond_window (relative_sequence c.local_sequence c.local_window)) [
  | true ↦ some (record c { outgoing = p ∷ ps })
  | false ↦ set_sequence p c.local_sequence >>= λ p₁. set_channel_id p₁ c.id >>= λ p₂.
      store c.pending_packets (c.local_sequence % window_size) (fresh_pending p₂) >>= λ pending.
      fill ps
        (record c { pending_packets = pending; local_sequence = next_sequence c.local_sequence })
]

-- The pending packets from `seq` up to `localSequence` are sent, or sent again.
unfoldable pub resend : ℕ → ℕ → ℕ → ℕ → Reliable → Option (Reliable × List Effect × Bool)
resend zero seq now delay c = if seq == c.local_sequence then some (c, [], false) else none
resend (suc fuel) seq now delay c = elim (seq == c.local_sequence) [
  | true ↦ some (c, [], false)
  | false ↦ get_elem? c.pending_packets (seq % window_size) >>= λ pp.
      let sent = try_send pp now delay in
      resend fuel (next_sequence seq) now delay
        (record c { pending_packets = set c.pending_packets (seq % window_size) sent.0 })
      >>= λ rest. some (rest.0, sent.1 ++ rest.1, sent.2 || rest.2)
]

abbrev pub is_empty : List Packet → Bool
is_empty [] = true
is_empty (p ∷ ps) = false

-- `sendNextPackets`; the flag says whether the channel has to be called again.
unfoldable pub send_next_packets : Reliable → ℕ → ℕ → Option (Reliable × List Effect × Bool)
send_next_packets c now delay =
    let acks : List Effect = if c.must_send_acks then send_user_data c.outgoing_acks ∷ [] else [] in
    fill c.outgoing (record c { must_send_acks = false }) >>= λ c₁.
    resend (steps c₁.local_window c₁.local_sequence) c₁.local_window now delay c₁ >>= λ r.
    some (r.0, acks ++ r.1, r.2 || (r.0.must_send_acks || not (is_empty r.0.outgoing)))
