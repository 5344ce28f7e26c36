-- ===== src/Channel/Step.antt =====
-- One event in the life of channel.go's ordered channel.
use scpxy.Base.{
  ℕ, ◌+◌, ◌≤◌, ◌≡◌, refl, ◌∙◌, Bool, true, false, Option, some, List, [], ◌∷◌, ◌++◌, get_elem?,
  get_elem?-some, ◌==◌, ◌>>=◌, All, arith, inl, inr, Bool-cases, bit_and,
}
use scpxy.Base.Slice.{read-some}
use scpxy.Base.LittleEndian.{le_value}
use scpxy.Packet.{Packet, property, sequence, prop_ack}
use scpxy.Channel.{Reliable, Effect, enqueue}
use scpxy.Channel.Receive.{receive}
use scpxy.Channel.Window.{wrapped, receive-Placed, receive_wanted}
use scpxy.Channel.Merged.{deliveries}
use scpxy.Channel.Held.{InOrder, delivered, Inv}
use scpxy.Channel.Slide.{slide-Inv}
use scpxy.Channel.Accept.{Outcome, received, accept-Outcome, accept_due, unchanged}
use scpxy.Channel.Send.{process_packet, process_ack, send_next_packets}
use scpxy.Channel.Acked.{with_acks, process_ack-Acked}
use scpxy.Channel.Sent.{HasHeader}
use scpxy.Channel.Resent.{send_next_packets-Sent}
use scpxy.Channel.Start.{Ordered}

-- What happens to a channel: a packet arrives, the peer queues one, it is time to send.
pub data Event : Type 0 where
  arrives queues : Packet → Event
  sends : ℕ → ℕ → Event

unfoldable pub event : Reliable → Event → Option (Reliable × List Effect)
event c (arrives p) = process_packet c p >>= λ r. some (r.0, r.1)
event c (queues p) = some (enqueue c p, [])
event c (sends now delay) = send_next_packets c now delay >>= λ r. some (r.0, r.1)

module _ (P : Packet → Type 0) where
  -- A packet of the event holds a channel's header, and one that arrives is known.
  unfoldable pub Fits : Event → Type 0
  Fits (arrives p) = HasHeader p × P p
  Fits (queues p) = HasHeader p
  Fits (sends now delay) = Unit {0}

  -- A result in the state of the count `r`: it is returned, the state is in order again, and the
  -- deliveries are those of known packets with the numbers from `r` on, without a gap.
  pub record Ran (r : ℕ) (result : Option (Reliable × List Effect)) : Type 0 where
    pub after : Reliable
    pub effects : List Effect
    pub packets : List Packet
    pub next_after : ℕ
    pub returns : result ≡ some (after, effects)
    pub in_order : InOrder r packets next_after
    pub all_known : All P packets
    pub gives : delivered packets ≡ some (deliveries effects)
    pub holds : Ordered P after next_after

  receive-Outcome :
      (c : Reliable) (f : ℕ → Bool) (w r seq : ℕ) (p : Packet)
      → Inv P c f w r (r + 1)
      → sequence p ≡ some seq
      → HasHeader p
      → P p
      → Outcome P c r (receive c p seq)
  unfolding deliveries
  receive-Outcome c f w r seq p v numbered header known =
      elim (receive-Placed c p seq w r v.window_is v.next_is v.window_low v.next_near) [
        | inl dropped ↦ unchanged P c f w r [] _ v refl dropped
        | inr (a, from, within, near, named, eq) ↦
            let (acks, window, f', w', slid, v', from', below) =
              slide-Inv P c f w r a v from within near in
            let o =
              accept-Outcome P
                (record c { outgoing_acks = acks; remote_window = window; must_send_acks = true })
                f' w' r a p seq v' from' below named numbered header known in
            record {
              acks_after = o.acks_after;
              held_after = o.held_after;
              sequence_after = o.sequence_after;
              start_after = o.start_after;
              must_after = o.must_after;
              effects = o.effects;
              processed = o.processed;
              marks_after = o.marks_after;
              window_after = o.window_after;
              packets = o.packets;
              next_after = o.next_after;
              returns = eq ∙ (rw slid o.returns);
              holds = o.holds;
              in_order = o.in_order;
              all_known = o.all_known;
              gives = o.gives;
            }
      ]

  packet_of_acks :
      (c c' : Reliable) (p : Packet) (kind : ℕ)
      → property p ≡ some kind
      → (kind == prop_ack) ≡ true
      → process_ack c p ≡ some c'
      → event c (arrives p) ≡ some (c', [])
  unfolding event process_packet
  packet_of_acks c c' p kind has is_ack done = rw (has, is_ack, done) refl

  packet_of_channel :
      (c c' : Reliable) (p : Packet) (kind seq : ℕ) (es : List Effect) (b : Bool)
      → property p ≡ some kind
      → (kind == prop_ack) ≡ false
      → sequence p ≡ some seq
      → receive c p seq ≡ some (c', es, b)
      → event c (arrives p) ≡ some (c', es)
  unfolding event process_packet
  packet_of_channel c c' p kind seq es b has is_not numbered done =
      rw (has, is_not, numbered) (rw done refl)

  -- A step that delivers nothing.
  quiet :
      (c c' : Reliable) (r : ℕ) (es : List Effect) (result : Option (Reliable × List Effect))
      → result ≡ some (c', es)
      → deliveries es ≡ []
      → Ordered P c' r
      → Ran r result
  unfolding InOrder delivered
  quiet c c' r es result e nothing o = record {
    after = c';
    effects = es;
    packets = [];
    next_after = r;
    returns = e;
    in_order = refl;
    all_known = tt;
    gives = rw nothing refl;
    holds = o;
  }

  kind_of : (p : Packet) (b : ℕ) → get_elem? p.bytes 0 ≡ some b → property p ≡ some (bit_and b 0x1f)
  unfolding property
  kind_of p b first = rw first refl

  number_of : (p : Packet) → HasHeader p → (seq : ℕ) × (sequence p ≡ some seq)
  unfolding sequence
  number_of p h =
      let (vs, found, l) = read-some 2 p.bytes 1 (omega arith) in (le_value vs, rw found refl)

  -- Each event leaves the channel in order.
  pub event-Ran : (c : Reliable) (r : ℕ) (e : Event) → Ordered P c r → Fits e → Ran r (event c e)
  unfolding Fits event enqueue deliveries
  event-Ran c r (queues p) o fit = quiet c (enqueue c p) r [] _ refl refl (record {
    marks = o.marks;
    start = o.start;
    oldest = o.oldest;
    newest = o.newest;
    receiving = o.receiving;
    sending = o.sending;
    waiting = All-snoc c.outgoing o.waiting fit;
  })
    where
      All-snoc :
          (ps : List Packet) → All HasHeader ps → HasHeader p → All HasHeader (ps ++ (p ∷ []))
      All-snoc [] h hp = (hp, tt)
      All-snoc (q ∷ ps) h hp = (h.0, All-snoc ps h.1 hp)
  event-Ran c r (sends now delay) o fit =
      let s = send_next_packets-Sent c o.oldest o.newest now delay o.sending o.waiting in
      quiet c
        (record c {
          must_send_acks = false;
          outgoing = s.outgoing_after;
          pending_packets = s.pending_after;
          local_sequence = s.sequence_after;
        })
        r s.effects _ (rw s.returns refl) s.sends_only
        (record {
          marks = o.marks;
          start = o.start;
          oldest = o.oldest;
          newest = s.next_after;
          receiving = o.receiving;
          sending = s.in_flight;
          waiting = s.waiting;
        })
  event-Ran c r (arrives p) o (header, known) =
      let (b, first) = get_elem?-some p.bytes 0 (omega arith) in
      let (seq, numbered) = number_of p header in
      elim (Bool-cases (bit_and b 0x1f == prop_ack)) [
        | inl is_ack ↦
            let a =
              process_ack-Acked c o.oldest o.newest p seq o.sending o.receiving.are_acks numbered in
            quiet c (with_acks c a.window_after a.pending_after) r [] _
              (packet_of_acks c _ p (bit_and b 0x1f) (kind_of p b first) is_ack a.returns) refl
              (record {
                marks = o.marks;
                start = o.start;
                oldest = a.oldest_after;
                newest = o.newest;
                receiving = o.receiving;
                sending = a.in_flight;
                waiting = o.waiting;
              })
        | inr is_not ↦
            let t = receive-Outcome c o.marks o.start r seq p o.receiving numbered header known in
            record {
              after =
                  received c t.acks_after t.held_after t.sequence_after t.start_after t.must_after;
              effects = t.effects;
              packets = t.packets;
              next_after = t.next_after;
              returns =
                  packet_of_channel c _ p (bit_and b 0x1f) seq t.effects t.processed
                    (kind_of p b first) is_not numbered t.returns;
              in_order = t.in_order;
              all_known = t.all_known;
              gives = t.gives;
              holds = record {
                marks = t.marks_after;
                start = t.window_after;
                oldest = o.oldest;
                newest = o.newest;
                receiving = t.holds;
                sending = o.sending;
                waiting = o.waiting;
              };
            }
      ]

  -- The packet that an ordered channel waits for, in a state in order whose window starts at or below
  -- its count, is delivered when it arrives, the first of those that its arrival sets free.
  pub receive_due :
      (c : Reliable) (f : ℕ → Bool) (w r : ℕ) (p : Packet)
      → Inv P c f w r (r + 1)
      → w ≤ r
      → sequence p ≡ some (wrapped r)
      → HasHeader p
      → P p
      → (o : Outcome P c r (receive c p (wrapped r))) × (ps : List Packet) × (o.packets ≡ p ∷ ps)
  receive_due c f w r p v from numbered header known =
      let (acks, window, f', w', slid, v', from', below) =
        slide-Inv P c f w r r v from (omega (arith, v.next_near)) (omega arith) in
      let (o, ps, first) =
        accept_due P
          (record c { outgoing_acks = acks; remote_window = window; must_send_acks = true }) f' w' r
          p (wrapped r) v' from' below refl numbered header known in
      let wanted = receive_wanted c p (wrapped r) w r v.window_is v.next_is from v.next_near refl in
      (
        record {
          acks_after = o.acks_after;
          held_after = o.held_after;
          sequence_after = o.sequence_after;
          start_after = o.start_after;
          must_after = o.must_after;
          effects = o.effects;
          processed = o.processed;
          marks_after = o.marks_after;
          window_after = o.window_after;
          packets = o.packets;
          next_after = o.next_after;
          returns = wanted ∙ (rw slid o.returns);
          holds = o.holds;
          in_order = o.in_order;
          all_known = o.all_known;
          gives = o.gives;
        },
        ps,
        first,
      )
