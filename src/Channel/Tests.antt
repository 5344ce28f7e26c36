-- ===== src/Channel/Tests.antt =====
-- Runs of internal/litenetlib/channel.go.
use scpxy.Base.{false, ℕ, ◌≡◌, refl, true, some, List, [], ◌∷◌, All, arith, ◌>>=◌}
use scpxy.Base.Slice.{put, write, read}
use scpxy.Wire.{reliable_ordered, relative_sequence}
use scpxy.Packet.{
  Packet, packet, property, sequence, set_sequence, new_packet, set_property, property_header_size,
  set_channel_id,
}
use scpxy.Channel.{Reliable, add_reliable, new_reliable_channel, enqueue, ack_bit, set_ack}
use scpxy.Channel.Receive.{process_incoming, receive, accept, advance, hold, slide, drain_held}
use scpxy.Channel.Merged.{deliveries}
use scpxy.Channel.Send.{process_packet, process_ack, send_next_packets, fill, resend, try_send}
use scpxy.Channel.Window.{wrapped}
use scpxy.Channel.Accept.{Outcome}
use scpxy.Channel.Start.{new_ordered, new_ordered-Inv, new_ordered-Flight, no_acks-IsAcks}
use scpxy.Channel.Resent.{Sent, send_next_packets-Sent}
use scpxy.Channel.Acked.{Acked, process_ack-Acked}
use scpxy.Channel.Bitmap.{IsAcks}
use scpxy.Channel.Step.{Event, arrives, queues, sends, event, Fits, Ran, receive_due}
use scpxy.Channel.Order.{run, delivers_in_order}

-- A channeled packet of the channel 2 with its number and one byte.
abbrev numbered : ℕ → Packet
numbered n = packet (1 ∷ n ∷ 0 ∷ 2 ∷ 77 ∷ [])

-- The second packet comes first, then the first, and the first again; one is queued and sent.
abbrev life : List Event
life =
    arrives (numbered 1)
    ∷ arrives (numbered 0)
    ∷ arrives (numbered 0)
    ∷ queues (numbered 9)
    ∷ sends 5 1
    ∷ []

abbrev Any : Packet → Type 0
Any p = Unit {0}

life-Fits : All (Fits Any) life
unfolding Fits
life-Fits = ((omega arith, tt), ((omega arith, tt), ((omega arith, tt), (omega arith, (tt, tt)))))

given :
    (new_reliable_channel true 2 >>= λ c. run c life >>= λ r. some (deliveries r.1))
    ≡ some (
        add_reliable reliable_ordered (numbered 0)
        ∷ add_reliable reliable_ordered (numbered 1)
        ∷ [])
unfolding new_reliable_channel new_packet set_property property_header_size set_channel_id put write
    read event run enqueue process_packet property sequence receive accept advance hold slide
    drain_held process_incoming ack_bit set_ack relative_sequence send_next_packets fill resend
    try_send set_sequence deliveries
given = refl

delivers_in_order_example :
    (c : Reliable) × (new_reliable_channel true 2 ≡ some c) × Ran Any 0 (run c life)
delivers_in_order_example = delivers_in_order Any 2 life (omega arith) life-Fits

number_zero : sequence (numbered 0) ≡ some (wrapped 0)
unfolding sequence read
number_zero = refl

receive_due_example :
    (o : Outcome Any (new_ordered 2) 0 (receive (new_ordered 2) (numbered 0) (wrapped 0)))
    × (ps : List Packet) × (o.packets ≡ numbered 0 ∷ ps)
receive_due_example =
    receive_due Any (new_ordered 2) (λ i. false) 0 0 (numbered 0)
      (new_ordered-Inv Any 2 (omega arith)) (omega arith) number_zero (omega arith) tt

-- A channel with a packet that waits.
abbrev busy : Reliable
busy = record (new_ordered 2) { outgoing = numbered 0 ∷ [] }

send_next_packets-Sent_example : Sent busy 0 0 (send_next_packets busy 100 1)
send_next_packets-Sent_example =
    send_next_packets-Sent busy 0 0 100 1 (new_ordered-Flight 2) (omega arith, tt)

-- The other side's ack of the packet 0.
abbrev ack : Packet
ack = packet (2 ∷ 0 ∷ 0 ∷ 2 ∷ 1 ∷ 0 ∷ 0 ∷ 0 ∷ 0 ∷ 0 ∷ 0 ∷ 0 ∷ 0 ∷ [])

ack_number : sequence ack ≡ some 0
unfolding sequence read
ack_number = refl

new-IsAcks : IsAcks (new_ordered 2).outgoing_acks
new-IsAcks = no_acks-IsAcks 2 (omega arith)

process_ack-Acked_example : Acked (new_ordered 2) 0 0 (process_ack (new_ordered 2) ack)
process_ack-Acked_example =
    process_ack-Acked (new_ordered 2) 0 0 ack 0 (new_ordered-Flight 2) new-IsAcks ack_number
