-- ===== src/Channel/SequencedTests.antt =====
-- Runs of the sequenced channel of internal/litenetlib/channel.go.
use scpxy.Base.{ℕ, ◌≡◌, refl, true, false, some, none, List, [], ◌∷◌, map, arith, ◌>>=◌}
use scpxy.Base.Slice.{put, write, read}
use scpxy.Packet.{
  Packet, packet, property, is_fragmented, sequence, set_sequence, channel_id, set_channel_id,
  new_packet, set_property, property_header_size,
}
use scpxy.Channel.{Effect}
use scpxy.Channel.Merged.{deliveries}
use scpxy.Channel.Sequenced.{
  Sequenced, new_sequenced_channel, process_sequenced, acknowledge_last, send_sequenced,
  resend_last, send_outgoing, send_ack,
}
use scpxy.Channel.Newest.{Carries, Arrivals, newest, handed, process_all, process_all-newest}

abbrev numbered : ℕ → Packet
numbered n = packet (1 ∷ n ∷ 0 ∷ 1 ∷ 77 ∷ [])

abbrev fresh : Sequenced
fresh = record {
  id = 1;
  reliable = false;
  outgoing = [];
  local_sequence = 0;
  remote_seq = 0;
  last_packet = none;
  last_send_time = 0;
  ack_packet = none;
  must_send_ack = false;
}

is_fresh : new_sequenced_channel false 1 ≡ some fresh
unfolding new_sequenced_channel
is_fresh = refl

-- The last packet of a reliable channel, sent, acknowledged, and then not sent again.
acknowledged :
    (new_sequenced_channel true 3 >>= λ c.
    send_sequenced (record c { outgoing = numbered 0 ∷ [] }) 10 10 5 >>= λ sent.
    process_sequenced sent.0 (packet (2 ∷ 1 ∷ 0 ∷ 3 ∷ [])) >>= λ back.
    send_sequenced back.0 90 90 5 >>= λ again. some again.1)
    ≡ some []
unfolding new_sequenced_channel new_packet set_property property_header_size set_channel_id put
    write read send_sequenced resend_last send_outgoing set_sequence send_ack process_sequenced
    is_fragmented property acknowledge_last sequence
acknowledged = refl

abbrev arrivals : List (Packet × ℕ)
arrivals = (numbered 2, 2) ∷ (numbered 1, 1) ∷ (numbered 5, 5) ∷ []

numbered_1-Carries : Carries (numbered 1) 1
unfolding is_fragmented property channel_id sequence read
numbered_1-Carries = record {
  kind = 1;
  channel = 1;
  is_whole = refl;
  has_kind = refl;
  no_ack = refl;
  has_number = refl;
  has_channel = refl;
}

numbered_2-Carries : Carries (numbered 2) 2
unfolding is_fragmented property channel_id sequence read
numbered_2-Carries = record {
  kind = 1;
  channel = 1;
  is_whole = refl;
  has_kind = refl;
  no_ack = refl;
  has_number = refl;
  has_channel = refl;
}

numbered_5-Carries : Carries (numbered 5) 5
unfolding is_fragmented property channel_id sequence read
numbered_5-Carries = record {
  kind = 1;
  channel = 1;
  is_whole = refl;
  has_kind = refl;
  no_ack = refl;
  has_number = refl;
  has_channel = refl;
}

arrivals-Arrivals : Arrivals 0 arrivals
unfolding Arrivals
arrivals-Arrivals = (
  numbered_2-Carries,
  (omega arith, omega arith),
  (
    numbered_1-Carries,
    (omega arith, omega arith),
    (numbered_5-Carries, (omega arith, omega arith), tt),
  ),
)

process_all-newest_example :
    (c' : Sequenced) × (es : List Effect) × (process_all fresh arrivals ≡ some (c', es))
    × (deliveries es ≡ map (handed fresh) (newest 0 arrivals))
process_all-newest_example = process_all-newest arrivals fresh 0 refl arrivals-Arrivals

newest_kept : newest 0 arrivals ≡ (numbered 2 ∷ numbered 5 ∷ [])
unfolding newest
newest_kept = refl
