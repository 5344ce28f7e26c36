-- ===== src/Channel/Accept.antt =====
-- What channel.go's ordered channel does with a packet that lies in its window.
use scpxy.Base.{
  ℕ, ◌+◌, ◌%◌, ◌≤◌, ◌<◌, ◌≡◌, refl, ap, sym, ◌∙◌, Bool, true, false, Option, some, List, [], ◌∷◌,
  ◌++◌, length, set, ltb, ◌==◌, if◌then◌else◌, arith, All, inl, inr, Bool-cases, lt→ltb,
}
use scpxy.Wire.{reliable_ordered}
use scpxy.Packet.{Packet, size, sequence}
use scpxy.Channel.{Reliable, Effect, window_size, next_sequence, enqueue_channel, ack_bit, set_ack}
use scpxy.Channel.Receive.{process_incoming, drain_held, drain_fuel, accept, advance, hold}
use scpxy.Channel.Bitmap.{mark, set_ack-Marks}
use scpxy.Channel.Window.{wrapped}
use scpxy.Channel.Merged.{deliveries, process_incoming-some}
use scpxy.Channel.Drain.{drain_held-Inv}
use scpxy.Channel.Kept.{put_in, go_on, not_marked}
use scpxy.Channel.Held.{InOrder, delivered, State, Inv, Gives-first}

advance_lem :
    (c c' : Reliable) (p : Packet) (es fs : List Effect)
    → c.ordered ≡ true
    → process_incoming reliable_ordered p ≡ some es
    → drain_held drain_fuel (record c { remote_sequence = next_sequence c.remote_sequence })
      ≡ some (c', fs)
    → advance c p ≡ some (c', es ++ fs)
unfolding advance drain_held
advance_lem c c' p es fs ord now ran = rw (ord, now) (rw ran refl)

hold_lem :
    (c : Reliable) (p : Packet) (i : ℕ)
    → c.ordered ≡ true
    → i < length c.received_packets
    → hold c p i ≡ some (record c { received_packets = set c.received_packets i (some p) }, [])
unfolding hold
hold_lem c p i ord lt = rw (ord, lt→ltb i (length c.received_packets) lt) refl

accept_seen :
    (c : Reliable) (p : Packet) (seq i : ℕ)
    → seq % window_size ≡ i
    → ack_bit c.outgoing_acks i ≡ some true
    → accept c p seq ≡ some (c, enqueue_channel ∷ [], false)
unfolding accept
accept_seen c p seq i place seen = rw (place, seen) refl

accept_new :
    (c : Reliable) (p : Packet) (seq i : ℕ) (acks : Packet) (c' : Reliable) (es : List Effect)
    → seq % window_size ≡ i
    → ack_bit c.outgoing_acks i ≡ some false
    → set_ack c.outgoing_acks i ≡ some acks
    → (if seq == c.remote_sequence
        then advance (record c { outgoing_acks = acks }) p
        else hold (record c { outgoing_acks = acks }) p i)
      ≡ some (c', es)
    → accept c p seq ≡ some (c', enqueue_channel ∷ es, true)
unfolding accept
accept_new c p seq i acks c' es place fresh kept step = rw (place, fresh, kept) (rw step refl)

-- What an arrival may change of the channel.
abbrev pub received : Reliable → Packet → List (Option Packet) → ℕ → ℕ → Bool → Reliable
received c acks held sequence start must = record c {
  outgoing_acks = acks;
  received_packets = held;
  remote_sequence = sequence;
  remote_window = start;
  must_send_acks = must;
}

module _ (P : Packet → Type 0) where
  -- The result of a call in the state of the count `r`: it returns, the state is in order again, and
  -- the deliveries are those of known packets with the numbers from `r` on.
  pub record Outcome (c : Reliable) (r : ℕ) (result : Option (Reliable × List Effect × Bool))
      : Type 0 where
    pub acks_after : Packet
    pub held_after : List (Option Packet)
    pub sequence_after : ℕ
    pub start_after : ℕ
    pub must_after : Bool
    pub effects : List Effect
    pub processed : Bool
    pub marks_after : ℕ → Bool
    pub window_after : ℕ
    pub packets : List Packet
    pub next_after : ℕ
    pub returns :
        result
        ≡ some (
          received c acks_after held_after sequence_after start_after must_after,
          effects,
          processed,
        )
    pub holds :
        State P c.ordered start_after sequence_after acks_after held_after marks_after window_after
          next_after
          (next_after + 1)
    pub in_order : InOrder r packets next_after
    pub all_known : All P packets
    pub gives : delivered packets ≡ some (deliveries effects)

  pub unchanged :
      (c : Reliable) (f : ℕ → Bool) (w r : ℕ) (es : List Effect)
      (result : Option (Reliable × List Effect × Bool))
      → Inv P c f w r (r + 1)
      → deliveries es ≡ []
      → result ≡ some (c, es, false)
      → Outcome c r result
  unfolding InOrder delivered
  unchanged c f w r es result v nothing e = record {
    acks_after = c.outgoing_acks;
    held_after = c.received_packets;
    sequence_after = c.remote_sequence;
    start_after = c.remote_window;
    must_after = c.must_send_acks;
    effects = es;
    processed = false;
    marks_after = f;
    window_after = w;
    packets = [];
    next_after = r;
    returns = e;
    holds = v;
    in_order = refl;
    all_known = tt;
    gives = rw nothing refl;
  }

  accept_early :
      (c : Reliable) (f : ℕ → Bool) (w r a : ℕ) (p : Packet) (seq : ℕ)
      → Inv P c f w r (r + 1)
      → r < a
      → a < w + window_size
      → seq ≡ wrapped a
      → sequence p ≡ some seq
      → 4 ≤ size p
      → P p
      → f (a % window_size) ≡ false
      → (seq == c.remote_sequence) ≡ false
      → Outcome c r (accept c p seq)
  unfolding deliveries InOrder delivered
  accept_early c f w r a p seq v ahead within named numbered header known new early =
      let (acks, kept, ia, ma) =
        set_ack-Marks c.outgoing_acks f (a % window_size) v.are_acks v.are_marks (omega arith) in
      let fresh : ack_bit c.outgoing_acks (a % window_size) ≡ some false =
        v.are_marks (a % window_size) (omega arith) ∙ ap some new in
      let held =
        hold_lem (record c { outgoing_acks = acks }) p (a % window_size) v.is_ordered
          (omega (arith, v.places)) in
      record {
        acks_after = acks;
        held_after = set c.received_packets (a % window_size) (some p);
        sequence_after = c.remote_sequence;
        start_after = c.remote_window;
        must_after = c.must_send_acks;
        effects = enqueue_channel ∷ [];
        processed = true;
        marks_after = mark f (a % window_size) true;
        window_after = w;
        packets = [];
        next_after = r;
        returns =
            accept_new c p seq (a % window_size) acks _ [] (omega (arith, named)) fresh kept
              (rw early held);
        holds =
            put_in P c f w r a p acks v ahead within (numbered ∙ ap some named) header known ia ma;
        in_order = refl;
        all_known = tt;
        gives = refl;
      }

  -- The packet that is waited for is delivered, the first of those that are.
  pub accept_due :
      (c : Reliable) (f : ℕ → Bool) (w r : ℕ) (p : Packet) (seq : ℕ)
      → Inv P c f w r (r + 1)
      → w ≤ r
      → r < w + window_size
      → seq ≡ wrapped r
      → sequence p ≡ some seq
      → 4 ≤ size p
      → P p
      → (o : Outcome c r (accept c p seq)) × (ps : List Packet) × (o.packets ≡ p ∷ ps)
  unfolding deliveries InOrder delivered
  accept_due c f w r p seq v from up named numbered header known =
      let i = r % window_size in
      let (acks, kept, ia, ma) =
        set_ack-Marks c.outgoing_acks f i v.are_acks v.are_marks (omega arith) in
      let fresh : ack_bit c.outgoing_acks i ≡ some false =
        v.are_marks i (omega arith) ∙ ap some (not_marked P c f w r v from up) in
      let due : (seq == c.remote_sequence) ≡ true = ground (arith, v.next_is) in
      let (es, first, whole) = process_incoming-some reliable_ordered p header in
      let (held, next, fs, ps, r', ran, v', gives) =
        drain_held-Inv P drain_fuel
          (record c { outgoing_acks = acks; remote_sequence = next_sequence c.remote_sequence })
          (mark f i true) w (r + 1) (go_on P c f w r acks v from up ia ma) (omega arith) in
      let ran' = advance_lem (record c { outgoing_acks = acks }) _ p es fs v.is_ordered first ran in
      let (order, all, later, rest) =
        Gives-first P r r' p ps es fs (numbered ∙ ap some named) known first whole gives in
      (
        record {
          acks_after = acks;
          held_after = held;
          sequence_after = next;
          start_after = c.remote_window;
          must_after = c.must_send_acks;
          effects = enqueue_channel ∷ (es ++ fs);
          processed = true;
          marks_after = mark f i true;
          window_after = w;
          packets = p ∷ ps;
          next_after = r';
          returns =
              accept_new c p seq i acks _ (es ++ fs) (omega (arith, named)) fresh kept
                (rw due ran');
          holds = v';
          in_order = order;
          all_known = all;
          gives = later ∙ ap some (sym rest);
        },
        ps,
        refl,
      )

  pub accept-Outcome :
      (c : Reliable) (f : ℕ → Bool) (w r a : ℕ) (p : Packet) (seq : ℕ)
      → Inv P c f w r (r + 1)
      → w ≤ a
      → a < w + window_size
      → seq ≡ wrapped a
      → sequence p ≡ some seq
      → 4 ≤ size p
      → P p
      → Outcome c r (accept c p seq)
  unfolding deliveries InOrder delivered
  accept-Outcome c f w r a p seq v from within named numbered header known =
      elim (Bool-cases (f (a % window_size))) [
        | inl old ↦
            unchanged c f w r (enqueue_channel ∷ []) _ v refl
              (accept_seen c p seq (a % window_size) place (bit ∙ ap some old))
        | inr new ↦ elim (Bool-cases (seq == c.remote_sequence)) [
          | inl due ↦
              let now : a ≡ r = turn due in
              (accept_due c f w r p seq v (omega arith) (omega arith) (omega arith) numbered header
                known).0
          | inr early ↦
              accept_early c f w r a p seq v (later new early) within named numbered header known
                new early
        ]
      ]
    where
      place : seq % window_size ≡ a % window_size
      place = omega (arith, named)

      bit : ack_bit c.outgoing_acks (a % window_size) ≡ some (f (a % window_size))
      bit = v.are_marks (a % window_size) (omega arith)

      turn : (seq == c.remote_sequence) ≡ true → a ≡ r
      turn due =
          let e : seq ≡ c.remote_sequence = ground arith in
          omega (arith, e, named, v.next_is, v.next_near, v.window_low)

      later : f (a % window_size) ≡ false → (seq == c.remote_sequence) ≡ false → r < a
      later new early = elim (Bool-cases (ltb a r)) [
        | inl below ↦ absurd (cc (v.are_done a from (ground arith), new))
        | inr above ↦ elim (Bool-cases (a == r)) [
          | inl same ↦ absurd (ground (arith, v.next_is))
          | inr other ↦ ground arith
        ]
      ]
