-- ===== src/Channel/Sent.antt =====
-- What `sendNextPackets` of channel.go does to the packets in flight.
use scpxy.Base.{
  ℕ, ◌+◌, ◌-◌, ◌%◌, ◌≤◌, ◌<◌, ◌≡◌, refl, ◌∙◌, true, false, ◌⊎◌, Option, some, List, [], ◌∷◌, length,
  get_elem?-set_self, get_elem?-set_ne, set, length-set, ltb, ◌==◌, arith, All, inl, inr,
  Bool-cases, lt→ltb,
}
use scpxy.Base.Int.{pos}
use scpxy.Base.Slice.{put-some, write, read-write_below}
use scpxy.Wire.{max_sequence, relative_sequence}
use scpxy.Wire.Sequence.{relative_sequence_ahead}
use scpxy.Packet.{Packet, packet, size, sequence, set_sequence, set_channel_id}
use scpxy.Packet.Words.{set_sequence_lem}
use scpxy.Channel.{Reliable, Pending, window_size, next_sequence}
use scpxy.Channel.Window.{wrapped}
use scpxy.Channel.Flight.{Flight}
use scpxy.Channel.Send.{beyond_window, fresh_pending, fill}

abbrev pub HasHeader : Packet → Type 0
HasHeader p = 4 ≤ size p

-- A packet with a number and a channel: the number is read back.
numbered-some :
    (p : Packet) (n id : ℕ)
    → HasHeader p
    → (q₁ : Packet) × (q₂ : Packet) × (set_sequence p (wrapped n) ≡ some q₁)
      × (set_channel_id q₁ id ≡ some q₂)
      × (sequence q₂ ≡ some (wrapped n))
unfolding set_channel_id sequence
numbered-some p n id h =
    let (q, stored, named, l, _, _, _, _) = set_sequence_lem p (wrapped n) (omega arith) h in
    (
      q,
      packet (write q.bytes 3 (id ∷ [])),
      stored,
      rw (put-some q.bytes 3 (id ∷ []) (omega (arith, l))) refl,
      rw (read-write_below 2 q.bytes 3 (id ∷ []) 1 (omega arith)) named,
    )

-- The place of the next count is given to its packet.
put_pending :
    {window next : ℕ} {pending : List Pending} {s n : ℕ} (i : ℕ) (p : Packet)
    → Flight window next pending s n
    → n < s + window_size
    → i ≡ n % window_size
    → sequence p ≡ some (wrapped n)
    → Flight window (next_sequence next) (set pending i (fresh_pending p)) s (n + 1)
put_pending {pending} {n} i p v room place named = record {
  window_is = v.window_is;
  next_is = omega (arith, v.next_is);
  in_turn = omega (arith, v.in_turn);
  fits = omega arith;
  places = length-set pending i (fresh_pending p) ∙ v.places;
  are_pending = λ j qq q found has. elim (Bool-cases (i == j)) [
    | inl same ↦
        let e : i ≡ j = ground arith in
        let is_fresh : fresh_pending p ≡ qq = cc (
          get_elem?-set_self pending i (fresh_pending p) (omega (arith, v.places)),
          rw (← e) at found,
        ) in
        let is_p : p ≡ q = cc (rw (← is_fresh) at has) in
        (n, v.in_turn, omega arith, omega (arith, e), rw (← is_p) named)
    | inr other ↦
        let (a, from, below, at, numbered) =
          v.are_pending j qq q
            (rw (get_elem?-set_ne pending i j (fresh_pending p) (λ e. absurd (ground arith))) at
              found)
            has in
        (a, from, omega arith, at, numbered)
  ];
}

-- The packets that wait go into the window until it is full or none waits.
pub record Filled (c : Reliable) (s n : ℕ) (result : Option Reliable) : Type 0 where
  pub outgoing_after : List Packet
  pub pending_after : List Pending
  pub sequence_after : ℕ
  pub next_after : ℕ
  pub returns :
      result
      ≡ some (record c {
        outgoing = outgoing_after;
        pending_packets = pending_after;
        local_sequence = sequence_after;
      })
  pub not_below : n ≤ next_after
  pub in_flight : Flight c.local_window sequence_after pending_after s next_after
  pub waiting : All HasHeader outgoing_after
  pub none_waits_or_full : (outgoing_after ≡ []) ⊎ (next_after ≡ s + window_size)

fill_full :
    (p : Packet) (ps : List Packet) (c : Reliable)
    → beyond_window (relative_sequence c.local_sequence c.local_window) ≡ true
    → fill (p ∷ ps) c ≡ some (record c { outgoing = p ∷ ps })
unfolding fill
fill_full p ps c t = rw (t, fill) refl

fill_next :
    (p q₁ q₂ : Packet) (ps : List Packet) (c : Reliable) (i seq : ℕ)
    → beyond_window (relative_sequence c.local_sequence c.local_window) ≡ false
    → c.local_sequence ≡ seq
    → seq % window_size ≡ i
    → set_sequence p seq ≡ some q₁
    → set_channel_id q₁ c.id ≡ some q₂
    → i < length c.pending_packets
    → fill (p ∷ ps) c
      ≡ fill ps (record c {
        pending_packets = set c.pending_packets i (fresh_pending q₂);
        local_sequence = next_sequence c.local_sequence;
      })
unfolding fill
fill_next p q₁ q₂ ps c i seq t e place stored named lt =
    rw (t, fill, e, place, stored, named, lt→ltb i (length c.pending_packets) lt) refl

pub fill-Filled :
    (ps : List Packet) (c : Reliable) (s n : ℕ)
    → Flight c.local_window c.local_sequence c.pending_packets s n
    → All HasHeader ps
    → Filled c s n (fill ps c)
unfolding fill
fill-Filled [] c s n v h = record {
  outgoing_after = [];
  pending_after = c.pending_packets;
  sequence_after = c.local_sequence;
  next_after = n;
  returns = refl;
  not_below = omega arith;
  in_flight = v;
  waiting = tt;
  none_waits_or_full = inl refl;
}
fill-Filled (p ∷ ps) c s n v h = elim (Bool-cases (ltb n (s + window_size))) [
  | inl room ↦
      let (q₁, q₂, stored, named, numbered) = numbered-some p n c.id h.0 in
      let r =
        fill-Filled ps
          (record c {
            pending_packets = set c.pending_packets (n % window_size) (fresh_pending q₂);
            local_sequence = next_sequence c.local_sequence;
          })
          s (n + 1) (put_pending (n % window_size) q₂ v (ground arith) refl numbered) h.1 in
      record {
        outgoing_after = r.outgoing_after;
        pending_after = r.pending_after;
        sequence_after = r.sequence_after;
        next_after = r.next_after;
        returns =
            fill_next p q₁ q₂ ps c (n % window_size) (wrapped n) (rw distance (ground arith))
              v.next_is (omega arith) stored named (omega (arith, v.places))
            ∙ r.returns;
        not_below = omega (arith, r.not_below);
        in_flight = r.in_flight;
        waiting = r.waiting;
        none_waits_or_full = r.none_waits_or_full;
      }
  | inr full ↦ record {
    outgoing_after = p ∷ ps;
    pending_after = c.pending_packets;
    sequence_after = c.local_sequence;
    next_after = n;
    returns = fill_full p ps c (rw distance (ground (arith, v.fits)));
    not_below = omega arith;
    in_flight = v;
    waiting = h;
    none_waits_or_full = inr (ground (arith, v.fits));
  }
]
  where
    distance : relative_sequence c.local_sequence c.local_window ≡ pos (n - s)
    distance =
        let e : c.local_sequence ≡ (c.local_window + (n - s)) % max_sequence =
          omega (arith, v.window_is, v.next_is, v.in_turn) in
        rw e (
          relative_sequence_ahead c.local_window (n - s) (omega (arith, v.window_is))
            (omega (arith, v.fits)))
