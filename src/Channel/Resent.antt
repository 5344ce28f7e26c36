-- ===== src/Channel/Resent.antt =====
-- `trySend` and `sendNextPackets` of channel.go.
use scpxy.Base.{
  ℕ, zero, suc, ◌+◌, ◌-◌, ◌%◌, ◌≤◌, ◌≡◌, ◌≢◌, refl, sym, ◌∙◌, Bool, true, false, not, ◌||◌, ◌⊎◌,
  Option, some, List, [], ◌∷◌, ◌++◌, get_elem?, get_elem?-some, set, ◌==◌, if◌then◌else◌, arith,
  All, ==_ne,
}
use scpxy.Packet.{Packet}
use scpxy.Channel.{Reliable, Pending, Effect, send_user_data, window_size, next_sequence, steps}
use scpxy.Channel.Window.{wrapped}
use scpxy.Channel.Merged.{deliveries, deliveries-append}
use scpxy.Channel.Flight.{Flight, IsInFlight, exchanged}
use scpxy.Channel.Send.{try_send, fill, resend, send_next_packets, is_empty}
use scpxy.Channel.Sent.{HasHeader, fill-Filled}

-- `trySend` keeps the packet, and sends at most.
try_send_lem :
    (pp : Pending) (now delay : ℕ)
    → ((try_send pp now delay).0.pkt ≡ pp.pkt) × (deliveries (try_send pp now delay).1 ≡ [])
unfolding try_send deliveries
try_send_lem pp now delay = ground arith

-- The loop over the pending packets returns, and what is in flight stays.
pub record Resent (c : Reliable) (s n : ℕ) (result : Option (Reliable × List Effect × Bool))
    : Type 0 where
  pub pending_after : List Pending
  pub effects : List Effect
  pub has_pending : Bool
  pub returns : result ≡ some (record c { pending_packets = pending_after }, effects, has_pending)
  pub in_flight : Flight c.local_window c.local_sequence pending_after s n
  pub sends_only : deliveries effects ≡ []

resend_stops :
    (fuel seq now delay : ℕ) (c : Reliable)
    → seq ≡ c.local_sequence
    → resend fuel seq now delay c ≡ some (c, [], false)
unfolding resend
resend_stops zero seq now delay c e =
    let t : (seq == c.local_sequence) ≡ true = ground arith in rw (t, resend) refl
resend_stops (suc fuel) seq now delay c e =
    let t : (seq == c.local_sequence) ≡ true = ground arith in rw (t, resend) refl

resend_next :
    (fuel seq now delay i : ℕ) (c c' : Reliable) (pp : Pending) (es : List Effect) (b : Bool)
    → (seq == c.local_sequence) ≡ false
    → seq % window_size ≡ i
    → get_elem? c.pending_packets i ≡ some pp
    → resend fuel
        (next_sequence seq)
        now
        delay
        (record c { pending_packets = set c.pending_packets i (try_send pp now delay).0 })
      ≡ some (c', es, b)
    → resend (suc fuel) seq now delay c
      ≡ some (c', (try_send pp now delay).1 ++ es, (try_send pp now delay).2 || b)
unfolding resend
resend_next fuel seq now delay i c c' pp es b t place there rest =
    rw (t, resend, place, there) (rw rest refl)

pub resend-Resent :
    (fuel : ℕ) (c : Reliable) (s n a seq now delay : ℕ)
    → Flight c.local_window c.local_sequence c.pending_packets s n
    → seq ≡ wrapped a
    → s ≤ a
    → n ≡ a + fuel
    → Resent c s n (resend fuel seq now delay c)
unfolding deliveries
resend-Resent zero c s n a seq now delay v e from enough = record {
  pending_after = c.pending_packets;
  effects = [];
  has_pending = false;
  returns = resend_stops zero seq now delay c (omega (arith, e, v.next_is));
  in_flight = v;
  sends_only = refl;
}
resend-Resent (suc fuel) c s n a seq now delay v e from enough =
    let i = a % window_size in
    let (pp, there) = get_elem?-some c.pending_packets i (omega (arith, v.places)) in
    let (kept, sent_only) = try_send_lem pp now delay in
    let own : (p : Packet) → (try_send pp now delay).0.pkt ≡ some p → IsInFlight s n i p =
      λ p h. v.are_pending i pp p there (sym kept ∙ h) in
    let r =
      resend-Resent fuel
        (record c { pending_packets = set c.pending_packets i (try_send pp now delay).0 }) s n
        (a + 1) (next_sequence seq) now delay
        (exchanged i (try_send pp now delay).0 v own (omega arith)) (omega (arith, e)) (omega arith)
        (omega arith) in
    record {
      pending_after = r.pending_after;
      effects = (try_send pp now delay).1 ++ r.effects;
      has_pending = (try_send pp now delay).2 || r.has_pending;
      returns =
          resend_next fuel seq now delay i c _ pp r.effects r.has_pending
            (not_last (omega (arith, e, v.next_is, v.fits))) (omega (arith, e)) there r.returns;
      in_flight = r.in_flight;
      sends_only =
          deliveries-append (try_send pp now delay).1 r.effects
          ∙ (rw (sent_only, r.sends_only) refl);
    }
  where
    not_last : seq ≢ c.local_sequence → (seq == c.local_sequence) ≡ false
    not_last h = ==_ne seq c.local_sequence h

-- A round of sending: it returns, nothing is delivered, the packets in flight are in order, and a
-- packet waits only when the window is full.
pub record Sent (c : Reliable) (s n : ℕ) (result : Option (Reliable × List Effect × Bool))
    : Type 0 where
  pub outgoing_after : List Packet
  pub pending_after : List Pending
  pub sequence_after : ℕ
  pub next_after : ℕ
  pub effects : List Effect
  pub again : Bool
  pub returns :
      result
      ≡ some (
        record c {
          must_send_acks = false;
          outgoing = outgoing_after;
          pending_packets = pending_after;
          local_sequence = sequence_after;
        },
        effects,
        again,
      )
  pub not_below : n ≤ next_after
  pub in_flight : Flight c.local_window sequence_after pending_after s next_after
  pub waiting : All HasHeader outgoing_after
  pub none_waits_or_full : (outgoing_after ≡ []) ⊎ (next_after ≡ s + window_size)
  pub sends_only : deliveries effects ≡ []

acks_first : Reliable → List Effect
acks_first c = if c.must_send_acks then send_user_data c.outgoing_acks ∷ [] else []

send_ran :
    (c c₁ c₂ : Reliable) (now delay fuel : ℕ) (es : List Effect) (b : Bool)
    → fill c.outgoing (record c { must_send_acks = false }) ≡ some c₁
    → steps c₁.local_window c₁.local_sequence ≡ fuel
    → resend fuel c₁.local_window now delay c₁ ≡ some (c₂, es, b)
    → send_next_packets c now delay
      ≡ some (c₂, acks_first c ++ es, b || (c₂.must_send_acks || not (is_empty c₂.outgoing)))
unfolding send_next_packets acks_first
send_ran c c₁ c₂ now delay fuel es b filled count ran = rw (filled, count) (rw ran refl)

acks_first_lem : (c : Reliable) → deliveries (acks_first c) ≡ []
unfolding acks_first deliveries
acks_first_lem c = ground arith

-- `sendNextPackets` in a state where at most a window of packets is in flight, each in its own
-- place, returns. It delivers nothing and leaves such a state, the packets that wait have a header,
-- and a packet waits only when the window is full.
pub send_next_packets-Sent :
    (c : Reliable) (s n now delay : ℕ)
    → Flight c.local_window c.local_sequence c.pending_packets s n
    → All HasHeader c.outgoing
    → Sent c s n (send_next_packets c now delay)
send_next_packets-Sent c s n now delay v h =
    let f = fill-Filled c.outgoing (record c { must_send_acks = false }) s n v h in
    let c₁ : Reliable = record c {
      must_send_acks = false;
      outgoing = f.outgoing_after;
      pending_packets = f.pending_after;
      local_sequence = f.sequence_after;
    } in
    let w = f.in_flight in
    let r =
      resend-Resent (f.next_after - s) c₁ s f.next_after s c.local_window now delay w w.window_is
        (omega arith) (omega (arith, w.in_turn)) in
    record {
      outgoing_after = f.outgoing_after;
      pending_after = r.pending_after;
      sequence_after = f.sequence_after;
      next_after = f.next_after;
      effects = acks_first c ++ r.effects;
      again = _;
      returns =
          send_ran c c₁ (record c₁ { pending_packets = r.pending_after }) now delay
            (f.next_after - s) r.effects r.has_pending f.returns
            (omega (arith, w.window_is, w.next_is, w.in_turn, w.fits)) r.returns;
      not_below = f.not_below;
      in_flight = r.in_flight;
      waiting = f.waiting;
      none_waits_or_full = f.none_waits_or_full;
      sends_only =
          deliveries-append (acks_first c) r.effects ∙ (rw (acks_first_lem c, r.sends_only) refl);
    }
