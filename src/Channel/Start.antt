-- ===== src/Channel/Start.antt =====
-- A new ordered channel of channel.go.
use scpxy.Base.{
  ℕ, zero, suc, ◌+◌, ◌<◌, ◌≡◌, refl, ap, Bool, true, false, Option, none, some, [], ◌∷◌, replicate,
  get_elem?, All, arith,
}
use scpxy.Base.Bits.{all_below, all_below-at}
use scpxy.Base.Slice.{put, write}
use scpxy.Packet.{Packet, packet, new_packet, set_property, property_header_size, set_channel_id}
use scpxy.Channel.{Reliable, Pending, window_size, new_reliable_channel, ack_bit, no_pending}
use scpxy.Channel.Bitmap.{IsAcks, Marks}
use scpxy.Channel.Held.{Inv}
use scpxy.Channel.Flight.{Flight}
use scpxy.Channel.Sent.{HasHeader}

-- The state of an ordered channel: what it holds, what it has in flight, what waits to be sent.
pub record Ordered (P : Packet → Type 0) (c : Reliable) (r : ℕ) : Type 0 where
  pub marks : ℕ → Bool
  pub start : ℕ
  pub oldest : ℕ
  pub newest : ℕ
  pub receiving : Inv P c marks start r (r + 1)
  pub sending : Flight c.local_window c.local_sequence c.pending_packets oldest newest
  pub waiting : All HasHeader c.outgoing

get_elem?-replicate :
    {A : Type 0} (n i : ℕ) (a b : A) → get_elem? (replicate n a) i ≡ some b → a ≡ b
get_elem?-replicate zero i a b h = absurd (cc h)
get_elem?-replicate (suc n) zero a b h = cc h
get_elem?-replicate (suc n) (suc i) a b h = get_elem?-replicate n i a b h

-- The packet of acks of a new channel.
abbrev pub no_acks : ℕ → Packet
no_acks id = packet (2 ∷ 0 ∷ 0 ∷ id ∷ 0 ∷ 0 ∷ 0 ∷ 0 ∷ 0 ∷ 0 ∷ 0 ∷ 0 ∷ 0 ∷ [])

is_clear : Option Bool → Bool
is_clear none = false
is_clear (some true) = false
is_clear (some false) = true

is_clear-eq : (o : Option Bool) → is_clear o ≡ true → o ≡ some false
unfolding is_clear
is_clear-eq none h = absurd (cc h)
is_clear-eq (some true) h = absurd (cc h)
is_clear-eq (some false) h = refl

all_clear : (id : ℕ) → all_below 64 (λ i. is_clear (ack_bit (no_acks id) i)) ≡ true
unfolding all_below is_clear ack_bit
all_clear id = refl

no_acks-Marks : (id : ℕ) → Marks (no_acks id) (λ i. false)
no_acks-Marks id i h =
    is_clear-eq (ack_bit (no_acks id) i)
      (all_below-at 64 (λ i. is_clear (ack_bit (no_acks id) i)) i (all_clear id) h)

pub no_acks-IsAcks : (id : ℕ) → id < 256 → IsAcks (no_acks id)
no_acks-IsAcks id h = record {
  length_is = refl;
  are_bytes = (
    omega arith,
    (
      omega arith,
      (
        omega arith,
        (
          h,
          (
            omega arith,
            (
              omega arith,
              (
                omega arith,
                (
                  omega arith,
                  (omega arith, (omega arith, (omega arith, (omega arith, (omega arith, tt))))),
                ),
              ),
            ),
          ),
        ),
      ),
    ),
  );
}

abbrev hole : Option Packet
hole = none

abbrev pub new_ordered : ℕ → Reliable
new_ordered id = record {
  id = id;
  ordered = true;
  outgoing = [];
  outgoing_acks = no_acks id;
  pending_packets = replicate window_size no_pending;
  received_packets = replicate window_size none;
  early_received = [];
  local_sequence = 0;
  remote_sequence = 0;
  local_window = 0;
  remote_window = 0;
  must_send_acks = false;
}

pub new_ordered-Inv :
    (P : Packet → Type 0) (id : ℕ) → id < 256 → Inv P (new_ordered id) (λ i. false) 0 0 1
new_ordered-Inv P id h = record {
  is_ordered = refl;
  window_is = refl;
  next_is = refl;
  window_low = omega arith;
  next_near = omega arith;
  are_acks = no_acks-IsAcks id h;
  are_marks = no_acks-Marks id;
  are_done = λ a l lt. absurd (omega arith);
  accounted = λ a l h m. absurd (cc m);
  places = refl;
  are_held = λ i p found. absurd (cc (get_elem?-replicate window_size i hole (some p) found));
}

pub new_ordered-Flight : (id : ℕ) → Flight 0 0 (new_ordered id).pending_packets 0 0
new_ordered-Flight id = record {
  window_is = refl;
  next_is = refl;
  in_turn = omega arith;
  fits = omega arith;
  places = refl;
  are_pending = λ i pp p found has. absurd (
      cc
        (ap (λ (q : Pending). q.pkt) (get_elem?-replicate window_size i no_pending pp found), has));
}

pub new_reliable_channel-Ordered :
    (P : Packet → Type 0) (id : ℕ)
    → id < 256
    → (c : Reliable) × (new_reliable_channel true id ≡ some c) × Ordered P c 0
unfolding new_reliable_channel new_packet set_property property_header_size set_channel_id put write
new_reliable_channel-Ordered P id h = (
  new_ordered id,
  refl,
  record {
    marks = λ i. false;
    start = 0;
    oldest = 0;
    newest = 0;
    receiving = new_ordered-Inv P id h;
    sending = new_ordered-Flight id;
    waiting = tt;
  },
)
