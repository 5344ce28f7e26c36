-- ===== src/Channel/Acked.antt =====
-- What an ack does to the packets in flight of channel.go.
use scpxy.Base.{
  ℕ, zero, suc, ◌+◌, ◌-◌, ◌%◌, ◌≤◌, ◌<◌, ◌≡◌, refl, ◌∙◌, Bool, true, false, ◌||◌, Option, some,
  List, get_elem?, get_elem?-some, get_elem?-set_self, set, leb, ◌==◌, if◌then◌else◌, arith, inl,
  inr, Bool-cases,
}
use scpxy.Base.Int.{pos, ltb_ℤ}
use scpxy.Wire.{max_sequence, relative_sequence}
use scpxy.Packet.{Packet, size, sequence}
use scpxy.Channel.{Reliable, Pending, window_size, ack_bit, ack_byte, has_bit, next_sequence, steps}
use scpxy.Channel.Bitmap.{IsAcks}
use scpxy.Channel.Window.{wrapped}
use scpxy.Channel.Flight.{Flight, exchanged, next_oldest}
use scpxy.Channel.Send.{clear, acknowledge, beyond_window, ack_loop, process_ack}

-- An ack touches the window's start and the pending packets only.
abbrev pub with_acks : Reliable → ℕ → List Pending → Reliable
with_acks c window pending = record c { local_window = window; pending_packets = pending }

-- An ack's result: it returns, and what is in flight is in order, from a count at or above the old.
pub record Acked (c : Reliable) (s n : ℕ) (result : Option Reliable) : Type 0 where
  pub window_after : ℕ
  pub pending_after : List Pending
  pub oldest_after : ℕ
  pub returns : result ≡ some (with_acks c window_after pending_after)
  pub not_below : s ≤ oldest_after
  pub in_flight : Flight window_after c.local_sequence pending_after oldest_after n

acknowledge_found :
    (c : Reliable) (seq i window : ℕ) (pp : Pending)
    → seq % window_size ≡ i
    → get_elem? c.pending_packets i ≡ some pp
    → (if seq == c.local_window then next_sequence c.local_window else c.local_window) ≡ window
    → acknowledge c seq ≡ some (with_acks c window (set c.pending_packets i (clear pp)))
unfolding acknowledge
acknowledge_found c seq i window pp place there e = rw (place, there, e) refl

acknowledge-Acked :
    (c : Reliable) (s n a seq : ℕ)
    → Flight c.local_window c.local_sequence c.pending_packets s n
    → seq ≡ wrapped a
    → s ≤ a
    → a < n
    → (r : Acked c s n (acknowledge c seq)) × (r.oldest_after ≤ a + 1)
unfolding clear
acknowledge-Acked c s n a seq v e from below =
    let place : seq % window_size ≡ a % window_size = omega (arith, e) in
    let (pp, there) =
      get_elem?-some c.pending_packets (a % window_size) (omega (arith, v.places)) in
    let gone : Flight c.local_window c.local_sequence
        (set c.pending_packets (a % window_size) (clear pp)) s n =
      exchanged (a % window_size) (clear pp) v (λ p h. absurd (cc h)) (omega arith) in
    elim (Bool-cases (seq == c.local_window)) [
      | inl oldest ↦
          let same : s ≡ a = ground (arith, v.window_is, v.fits) in
          (
            record {
              window_after = next_sequence c.local_window;
              pending_after = set c.pending_packets (a % window_size) (clear pp);
              oldest_after = s + 1;
              returns = acknowledge_found c seq (a % window_size) _ pp place there (rw oldest refl);
              not_below = omega arith;
              in_flight =
                  next_oldest (a % window_size) (clear pp) gone (omega (arith, same))
                    (get_elem?-set_self c.pending_packets (a % window_size) (clear pp)
                      (omega (arith, v.places)))
                    refl (omega arith);
            },
            omega arith,
          )
      | inr other ↦ (
        record {
          window_after = c.local_window;
          pending_after = set c.pending_packets (a % window_size) (clear pp);
          oldest_after = s;
          returns = acknowledge_found c seq (a % window_size) _ pp place there (rw other refl);
          not_below = omega arith;
          in_flight = gone;
        },
        omega arith,
      )
    ]

pub ack_bit-some :
    (p : Packet) (i : ℕ) → size p ≡ 13 → i < window_size → (b : Bool) × (ack_bit p i ≡ some b)
unfolding ack_bit
ack_bit-some p i l h =
    let (b, found) = get_elem?-some p.bytes (ack_byte i) (omega arith) in
    (has_bit b i, rw found refl)

-- One round of the loop.
ack_stops :
    (fuel seq start : ℕ) (p : Packet) (c : Reliable)
    → (seq == c.local_sequence || beyond_window (relative_sequence seq start)) ≡ true
    → ack_loop (suc fuel) seq start p c ≡ some c
unfolding ack_loop
ack_stops fuel seq start p c t = rw (t, ack_loop) refl

ack_goes_on :
    (fuel seq start i : ℕ) (p : Packet) (c c' : Reliable) (acked : Bool)
    → (seq == c.local_sequence || beyond_window (relative_sequence seq start)) ≡ false
    → seq % window_size ≡ i
    → ack_bit p i ≡ some acked
    → (if acked then acknowledge c seq else some c) ≡ some c'
    → ack_loop (suc fuel) seq start p c ≡ ack_loop fuel (next_sequence seq) start p c'
unfolding ack_loop
ack_goes_on fuel seq start i p c c' acked t place bit step =
    rw (t, ack_loop, place, bit) (rw step refl)

one_ack :
    (c : Reliable) (s n a seq : ℕ) (acked : Bool)
    → Flight c.local_window c.local_sequence c.pending_packets s n
    → seq ≡ wrapped a
    → s ≤ a
    → a < n
    → (r : Acked c s n (if acked then acknowledge c seq else some c)) × (r.oldest_after ≤ a + 1)
one_ack c s n a seq true v e from below = acknowledge-Acked c s n a seq v e from below
one_ack c s n a seq false v e from below = (
  record {
    window_after = c.local_window;
    pending_after = c.pending_packets;
    oldest_after = s;
    returns = refl;
    not_below = omega arith;
    in_flight = v;
  },
  omega arith,
)

pub ack_loop-Acked :
    (fuel : ℕ) (c : Reliable) (s n a seq start : ℕ) (p : Packet)
    → Flight c.local_window c.local_sequence c.pending_packets s n
    → size p ≡ 13
    → seq ≡ wrapped a
    → s ≤ a
    → a ≤ n
    → n ≡ a + fuel
    → Acked c s n (ack_loop fuel seq start p c)
unfolding ack_loop
ack_loop-Acked zero c s n a seq start p v l e from below enough = record {
  window_after = c.local_window;
  pending_after = c.pending_packets;
  oldest_after = s;
  returns =
      let last : seq ≡ c.local_sequence = omega (arith, v.next_is) in
      let t : (seq == c.local_sequence) ≡ true = ground arith in rw (ack_loop, t) refl;
  not_below = omega arith;
  in_flight = v;
}
ack_loop-Acked (suc fuel) c s n a seq start p v l e from below enough =
    elim (Bool-cases (seq == c.local_sequence || beyond_window (relative_sequence seq start))) [
      | inl stops ↦ record {
        window_after = c.local_window;
        pending_after = c.pending_packets;
        oldest_after = s;
        returns = ack_stops fuel seq start p c stops;
        not_below = omega arith;
        in_flight = v;
      }
      | inr more ↦
          let (acked, bit) = ack_bit-some p (a % window_size) l (omega arith) in
          let (r, le) = one_ack c s n a seq acked v e from (omega arith) in
          let rest =
            ack_loop-Acked fuel (with_acks c r.window_after r.pending_after) r.oldest_after n
              (a + 1) (next_sequence seq) start p r.in_flight l (omega arith) (omega arith)
              (omega arith) (omega arith) in
          record {
            window_after = rest.window_after;
            pending_after = rest.pending_after;
            oldest_after = rest.oldest_after;
            returns =
                ack_goes_on fuel seq start (a % window_size) p c
                  (with_acks c r.window_after r.pending_after) acked more (omega (arith, e)) bit
                  r.returns
                ∙ rest.returns;
            not_below = omega (arith, r.not_below, rest.not_below);
            in_flight = rest.in_flight;
          }
    ]

ack_ran :
    (c : Reliable) (p : Packet) (start fuel : ℕ) (result : Option Reliable)
    → size p ≡ size c.outgoing_acks
    → sequence p ≡ some start
    → (leb max_sequence start
        || (ltb_ℤ (relative_sequence c.local_window start) (pos 0)
            || beyond_window (relative_sequence c.local_window start)))
      ≡ false
    → steps c.local_window c.local_sequence ≡ fuel
    → ack_loop fuel c.local_window start p c ≡ result
    → process_ack c p ≡ result
unfolding process_ack
ack_ran c p start fuel result l named in_ count ran =
    let t : (size p == size c.outgoing_acks) ≡ true = ground arith in rw (t, named, in_, count) ran

ack_ignored :
    (c : Reliable) (p : Packet) (start : ℕ)
    → sequence p ≡ some start
    → (leb max_sequence start
        || (ltb_ℤ (relative_sequence c.local_window start) (pos 0)
            || beyond_window (relative_sequence c.local_window start)))
      ≡ true
    → (size p == size c.outgoing_acks) ≡ true
    → process_ack c p ≡ some c
unfolding process_ack
ack_ignored c p start named out t = rw (t, named, out) refl

ack_of_other_size :
    (c : Reliable) (p : Packet)
    → (size p == size c.outgoing_acks) ≡ false
    → process_ack c p ≡ some c
unfolding process_ack
ack_of_other_size c p t = rw t refl

-- Whatever packet with a sequence number arrives as an ack, `processAck` returns in a state where at
-- most a window of packets is in flight, each in its own place: no index is out of range, the window
-- only moves forward, and what is in flight is in such a state again.
pub process_ack-Acked :
    (c : Reliable) (s n : ℕ) (p : Packet) (start : ℕ)
    → Flight c.local_window c.local_sequence c.pending_packets s n
    → IsAcks c.outgoing_acks
    → sequence p ≡ some start
    → Acked c s n (process_ack c p)
process_ack-Acked c s n p start v acks named = elim (Bool-cases (size p == size c.outgoing_acks)) [
  | inr other ↦ same (ack_of_other_size c p other)
  | inl equal ↦
      elim (Bool-cases (
        leb max_sequence start
        || (ltb_ℤ (relative_sequence c.local_window start) (pos 0)
            || beyond_window (relative_sequence c.local_window start)))) [
              | inl out ↦ same (ack_ignored c p start named out equal)
              | inr in_ ↦
                  let l : size p ≡ size c.outgoing_acks = ground arith in
                  let r =
                    ack_loop-Acked (n - s) c s n s c.local_window start p v (l ∙ acks.length_is)
                      v.window_is (omega arith) v.in_turn (omega (arith, v.in_turn)) in
                  record {
                    window_after = r.window_after;
                    pending_after = r.pending_after;
                    oldest_after = r.oldest_after;
                    returns =
                        ack_ran c p start (n - s) _ l named in_
                          (omega (arith, v.window_is, v.next_is, v.in_turn, v.fits)) r.returns;
                    not_below = r.not_below;
                    in_flight = r.in_flight;
                  }
            ]
]
  where
    same : process_ack c p ≡ some c → Acked c s n (process_ack c p)
    same e = record {
      window_after = c.local_window;
      pending_after = c.pending_packets;
      oldest_after = s;
      returns = e;
      not_below = omega arith;
      in_flight = v;
    }
