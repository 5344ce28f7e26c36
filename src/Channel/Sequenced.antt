-- ===== src/Channel/Sequenced.antt =====
-- The sequenced channel of channel.go: only the newest packet counts. `now` and `later` are the ticks
-- that the two reads of the clock return, `delay` the peer's resend delay in ticks. `none` is a panic.
use scpxy.Base.{
  ℕ, ◌+◌, ◌/◌, Bool, true, false, ◌&&◌, Option, none, some, List, [], ◌∷◌, ◌++◌, ltb, leb, ◌==◌,
  if◌then◌else◌, ◌>>=◌,
}
use scpxy.Base.Int.{pos, ltb_ℤ}
use scpxy.Wire.{
  Delivery, sequenced, reliable_sequenced, max_sequence, relative_sequence, channel_type_count,
  channeled_header_size,
}
use scpxy.Packet.{
  Packet, property, is_fragmented, sequence, set_sequence, channel_id, set_channel_id, new_packet,
  prop_ack,
}
use scpxy.Channel.{Effect, send_user_data, deliver, enqueue_channel, next_sequence}

pub record Sequenced : Type 0 where
  pub id : ℕ
  pub reliable : Bool
  pub outgoing : List Packet
  pub local_sequence : ℕ
  pub remote_seq : ℕ
  pub last_packet : Option Packet
  pub last_send_time : ℕ
  pub ack_packet : Option Packet
  pub must_send_ack : Bool

unfoldable pub new_sequenced_channel : Bool → ℕ → Option Sequenced
new_sequenced_channel reliable id =
    let c : Sequenced = record {
      id = id;
      reliable = reliable;
      outgoing = [];
      local_sequence = 0;
      remote_seq = 0;
      last_packet = none;
      last_send_time = 0;
      ack_packet = none;
      must_send_ack = false;
    } in
    if reliable
    then (new_packet prop_ack 0 >>= λ p.
        set_channel_id p id >>= λ ack. some (record c { ack_packet = some ack }))
    else some c

-- An ack of the last packet takes it back.
unfoldable pub acknowledge_last : Sequenced → Packet → Option Sequenced
acknowledge_last c p =
    if c.reliable
    then elim c.last_packet [
      | none ↦ some c
      | some l ↦ sequence p >>= λ seq.
          sequence l >>= λ last. some (if seq == last then record c { last_packet = none } else c)
    ]
    else some c

abbrev pub sequenced_delivery : Sequenced → Delivery
sequenced_delivery c = if c.reliable then reliable_sequenced else sequenced

-- The number is a sequence number and ahead of the last one that was delivered.
abbrev pub is_newer : ℕ → ℕ → Bool
is_newer seq last = ltb seq max_sequence && ltb_ℤ (pos 0) (relative_sequence seq last)

-- A packet that is no ack, up to the delivery.
unfoldable pub deliver_newer : Sequenced → Packet → ℕ → Option (Sequenced × List Effect × Bool)
deliver_newer c p seq =
    if is_newer seq c.remote_seq
    then (channel_id p >>= λ channel. some (
      record c { remote_seq = seq },
      deliver p (sequenced_delivery c) (channel / channel_type_count) channeled_header_size ∷ [],
      true,
    ))
    else some (c, [], false)

abbrev pub asks_for_ack : Sequenced × List Effect × Bool → Sequenced × List Effect × Bool
asks_for_ack (c, es, processed) =
    if c.reliable
    then (record c { must_send_ack = true }, es ++ (enqueue_channel ∷ []), processed)
    else (c, es, processed)

-- `processPacket`
unfoldable pub process_sequenced : Sequenced → Packet → Option (Sequenced × List Effect × Bool)
process_sequenced c p = is_fragmented p >>= λ fragmented.
    if fragmented
    then some (c, [], false)
    else (property p >>= λ kind.
        if kind == prop_ack
        then (acknowledge_last c p >>= λ c'. some (c', [], false))
        else (sequence p >>= λ seq. deliver_newer c p seq >>= λ r. some (asks_for_ack r)))

abbrev pub none_left : List Packet → Bool
none_left [] = true
none_left (p ∷ ps) = false

-- The last packet, sent again when its time has come.
unfoldable pub resend_last : Sequenced → ℕ → ℕ → Sequenced × List Effect
resend_last c now delay = elim c.last_packet [
  | none ↦ (c, [])
  | some l ↦
      if c.reliable && none_left c.outgoing && leb (c.last_send_time + delay) now
      then (record c { last_send_time = now }, send_user_data l ∷ [])
      else (c, [])
]

-- The loop over the packets that wait.
unfoldable pub send_outgoing : List Packet → ℕ → Sequenced → Option (Sequenced × List Effect)
send_outgoing [] later c = some (record c { outgoing = [] }, [])
send_outgoing (p ∷ ps) later c = set_sequence p (next_sequence c.local_sequence) >>= λ p₁.
    set_channel_id p₁ c.id >>= λ p₂.
    let c₁ : Sequenced = record c { local_sequence = next_sequence c.local_sequence } in
    let c₂ : Sequenced =
      if c.reliable && none_left ps
      then record c₁ { last_send_time = later; last_packet = some p₂ }
      else c₁ in
    send_outgoing ps later c₂ >>= λ rest. some (rest.0, send_user_data p₂ ∷ rest.1)

unfoldable pub send_ack : Sequenced → Option (Sequenced × List Effect)
send_ack c =
    if c.reliable && c.must_send_ack
    then elim c.ack_packet [
      | none ↦ none
      | some ack ↦ set_sequence ack c.remote_seq >>= λ ack'.
          some
            (record c { must_send_ack = false; ack_packet = some ack' }, send_user_data ack' ∷ [])
    ]
    else some (c, [])

abbrev is_some : Option Packet → Bool
is_some none = false
is_some (some p) = true

-- `sendNextPackets`
unfoldable pub send_sequenced : Sequenced → ℕ → ℕ → ℕ → Option (Sequenced × List Effect × Bool)
send_sequenced c now later delay =
    let first = resend_last c now delay in
    send_outgoing first.0.outgoing later first.0 >>= λ sent. send_ack sent.0 >>= λ acked.
    some (acked.0, first.1 ++ (sent.1 ++ acked.1), is_some acked.0.last_packet)
