-- ===== src/Channel/Flight.antt =====
-- The packets in flight of channel.go's reliable channel: those that are sent and not acknowledged.
-- `s` is the least count that is not acknowledged, `n` the count of the next packet.
use scpxy.Base.{
  ℕ, ◌+◌, ◌%◌, ◌≤◌, ◌<◌, ◌≡◌, ◌∙◌, none, some, List, length, get_elem?, get_elem?-set_self,
  get_elem?-set_ne, set, length-set, ◌==◌, arith, inl, inr, Bool-cases,
}
use scpxy.Packet.{Packet, sequence}
use scpxy.Channel.{Pending, window_size, next_sequence}
use scpxy.Channel.Window.{wrapped}

-- The packet in the place `i` bears the number of a count in flight.
abbrev pub IsInFlight : ℕ → ℕ → ℕ → Packet → Type 0
IsInFlight s n i p =
    (a : ℕ) × (s ≤ a) × (a < n) × (a % window_size ≡ i) × (sequence p ≡ some (wrapped a))

-- At most a window of packets is in flight, and a place holds none but the one that belongs there.
pub record Flight (window next : ℕ) (pending : List Pending) (s n : ℕ) : Type 0 where
  pub window_is : window ≡ wrapped s
  pub next_is : next ≡ wrapped n
  pub in_turn : s ≤ n
  pub fits : n ≤ s + window_size
  pub places : length pending ≡ window_size
  pub are_pending :
      (i : ℕ) (pp : Pending) (p : Packet)
      → get_elem? pending i ≡ some pp
      → pp.pkt ≡ some p
      → IsInFlight s n i p

-- An entry is exchanged for one without a packet, or with the same.
pub exchanged :
    {window next : ℕ} {pending : List Pending} {s n : ℕ} (i : ℕ) (pp : Pending)
    → Flight window next pending s n
    → ((p : Packet) → pp.pkt ≡ some p → IsInFlight s n i p)
    → i < window_size
    → Flight window next (set pending i pp) s n
exchanged {pending} i pp v own h = record {
  window_is = v.window_is;
  next_is = v.next_is;
  in_turn = v.in_turn;
  fits = v.fits;
  places = length-set pending i pp ∙ v.places;
  are_pending = λ j qq q found has. elim (Bool-cases (i == j)) [
    | inl same ↦
        let e : i ≡ j = ground arith in
        let is_pp : pp ≡ qq =
          cc (get_elem?-set_self pending i pp (omega (arith, v.places)), rw (← e) at found) in
        rw (← e) (own q (rw is_pp has))
    | inr other ↦
        v.are_pending j qq q
          (rw (get_elem?-set_ne pending i j pp (λ e. absurd (ground arith))) at found) has
  ];
}

-- The oldest packet is acknowledged: its place is empty, and the window moves.
pub next_oldest :
    {window next : ℕ} {pending : List Pending} {s n : ℕ} (i : ℕ) (pp : Pending)
    → Flight window next pending s n
    → s % window_size ≡ i
    → get_elem? pending i ≡ some pp
    → pp.pkt ≡ none
    → s < n
    → Flight (next_sequence window) next pending (s + 1) n
next_oldest {s} i pp v here there gone lt = record {
  window_is = omega (arith, v.window_is);
  next_is = v.next_is;
  in_turn = omega arith;
  fits = omega (arith, v.fits);
  places = v.places;
  are_pending = λ j qq q found has.
      let (a, from, below, place, numbered) = v.are_pending j qq q found has in
      elim (Bool-cases (s == a)) [
        | inl same ↦
            let e : i ≡ j = ground (arith, here) in absurd (cc (rw e at there, found, gone, has))
        | inr other ↦ (a, ground arith, below, place, numbered)
      ];
}
