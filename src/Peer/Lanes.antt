-- ===== src/Peer/Lanes.antt =====
-- A peer's channels in peer.go: `createChannel`, `enqueueChannel`, and the calls that a channel makes
-- of its peer, carried out in their order. No call reads the channel that makes it but for `inQueue`.
use scpxy.Base.{
  ℕ, zero, suc, Bool, true, false, Option, none, some, List, [], ◌∷◌, ◌++◌, length, get_elem?, set,
  leb, if◌then◌else◌, ◌>>=◌,
}
use scpxy.Packet.{Packet}
use scpxy.Channel.{Effect, send_user_data, add_reliable, deliver, enqueue_channel, enqueue}
use scpxy.Channel.Send.{process_packet, send_next_packets}
use scpxy.Channel.Sequenced.{process_sequenced, send_sequenced}
use scpxy.Peer.{
  Peer, NetChannel, Lane, reliable, sequential, Call, dispatch_receive, create_lane, slice_from,
}
use scpxy.Peer.Fragments.{add_reliable_packet}
use scpxy.Peer.Merge as Merge

-- When a channel is called: the ticks that it reads and the resend delay.
pub record Moment : Type 0 where
  pub now : ℕ
  pub later : ℕ
  pub delay : ℕ

unfoldable pub lane_process : Lane → Packet → Option (Lane × List Effect)
lane_process (reliable c) p = process_packet c p >>= λ r. some (reliable r.0, r.1)
lane_process (sequential c) p = process_sequenced c p >>= λ r. some (sequential r.0, r.1)

unfoldable pub lane_send : Lane → Moment → Option (Lane × List Effect × Bool)
lane_send (reliable c) t = send_next_packets c t.now t.delay >>= λ r. some (reliable r.0, r.1, r.2)
lane_send (sequential c) t =
    send_sequenced c t.now t.later t.delay >>= λ r. some (sequential r.0, r.1, r.2)

unfoldable pub lane_enqueue : Lane → Packet → Lane
lane_enqueue (reliable c) p = reliable (enqueue c p)
lane_enqueue (sequential c) p = sequential (record c { outgoing = c.outgoing ++ (p ∷ []) })

-- The channel at an index, if there is one.
unfoldable pub channel_at : Peer → ℕ → Option NetChannel
channel_at p idx = elim (get_elem? p.channels idx) [ none ↦ none | some c ↦ c ]

abbrev pub store_channel : Peer → ℕ → NetChannel → Peer
store_channel p idx c = record p { channels = set p.channels idx (some c) }

-- `createChannel`: the peer with the channel, which is new or was there; past the table there is none.
unfoldable pub create_channel : Peer → ℕ → Option (Peer × Option NetChannel)
create_channel p idx =
    if leb (length p.channels) idx then some (p, none) else elim (channel_at p idx) [
      | some c ↦ some (p, some c)
      | none ↦ create_lane idx >>= λ lane.
          let c : NetChannel = record { lane = lane; in_queue = false } in
          some (store_channel p idx c, some c)
    ]

-- `enqueueChannel`
unfoldable pub enqueue_channel_at : Peer → ℕ → Peer
enqueue_channel_at p idx = elim (channel_at p idx) [
  | none ↦ p
  | some c ↦ if c.in_queue then p else record (store_channel p idx (record c { in_queue = true })) {
    send_queue = p.send_queue ++ (idx ∷ []);
  }
]

-- One call of the channel `idx`.
unfoldable pub perform : Peer → ℕ → Effect → Option (Peer × List Call)
perform p idx (send_user_data pkt) =
    Merge.send_user_data p.connect_num p.path.mtu p.merging pkt >>= λ r.
    some (record p { merging = r.0 }, r.1)
perform p idx (add_reliable method pkt) =
    add_reliable_packet p.held_frags method pkt >>= λ r. some (record p { held_frags = r.0 }, r.1)
perform p idx (deliver pkt method channel offset) = slice_from pkt.bytes offset >>= λ message.
    some (p, dispatch_receive message channel method ∷ [])
perform p idx enqueue_channel = some (enqueue_channel_at p idx, [])

unfoldable pub perform_all : Peer → ℕ → List Effect → Option (Peer × List Call)
perform_all p idx [] = some (p, [])
perform_all p idx (e ∷ es) =
    perform p idx e >>= λ r. perform_all r.0 idx es >>= λ rest. some (rest.0, r.1 ++ rest.1)

-- A packet for the channel `idx`; an ack makes no channel.
unfoldable pub receive_on : Peer → ℕ → Bool → Packet → Option (Peer × List Call)
receive_on p idx is_ack pkt =
    if leb (length p.channels) idx
    then some (p, [])
    else ((if is_ack then some (p, channel_at p idx) else create_channel p idx) >>= λ r. elim r.1 [
      | none ↦ some (r.0, [])
      | some c ↦ lane_process c.lane pkt >>= λ done.
          perform_all (store_channel r.0 idx (record c { lane = done.0 })) idx done.1
    ])

-- A channel that has more to send goes to the queue's end; another leaves it.
unfoldable pub after_send : Peer → ℕ → Bool → Peer
after_send p idx again =
    if again
    then record p { send_queue = p.send_queue ++ (idx ∷ []) }
    else elim (channel_at p idx) [
      | none ↦ p
      | some c ↦ store_channel p idx (record c { in_queue = false })
    ]

-- One round of the loop of `update` over the send queue.
unfoldable pub send_on : Peer → ℕ → Moment → Option (Peer × List Call)
send_on p idx t = elim (channel_at p idx) [
  | none ↦ none
  | some c ↦ lane_send c.lane t >>= λ sent.
      perform_all (store_channel p idx (record c { lane = sent.0 })) idx sent.1 >>= λ r.
      some (after_send r.0 idx sent.2, r.1)
]

-- The loop: as many rounds as channels stood in the queue.
unfoldable pub send_pending : ℕ → Peer → (ℕ → Moment) → Option (Peer × List Call)
send_pending zero p times = some (p, [])
send_pending (suc pending) p times = elim p.send_queue [
  | [] ↦ none
  | idx ∷ rest ↦ send_on (record p { send_queue = rest }) idx (times idx) >>= λ r.
      send_pending pending r.0 times >>= λ later. some (later.0, r.1 ++ later.1)
]
