-- ===== src/Channel/Drain.antt =====
-- The loop over the held packets of channel.go's ordered channel.
use scpxy.Base.{
  ℕ, zero, suc, ◌+◌, ◌%◌, ◌≤◌, ◌<◌, ◌≡◌, ◌≢◌, refl, ◌∙◌, Bool, true, Option, none, some, List, [],
  ◌∷◌, ◌++◌, get_elem?, get_elem?-some, get_elem?-set_self, get_elem?-set_ne, set, length-set, ◌==◌,
  ◌>>=◌, arith, inl, inr, Bool-cases, Option-cases,
}
use scpxy.Wire.{reliable_ordered}
use scpxy.Packet.{Packet}
use scpxy.Channel.{Reliable, Effect, window_size, next_sequence}
use scpxy.Channel.Receive.{process_incoming, drain_held}
use scpxy.Channel.Merged.{deliveries, process_incoming-some}
use scpxy.Channel.Held.{InOrder, delivered, Slot, Inv, Gives, Gives-first}

-- The place `i` is emptied and the next count waited for.
abbrev take_out : Reliable → ℕ → Reliable
take_out c i = record c {
  received_packets = set c.received_packets i none;
  remote_sequence = next_sequence c.remote_sequence;
}

module _ (P : Packet → Type 0) where
  -- An empty place for the count that is waited for: nothing held is due.
  stopped :
      (c : Reliable) (f : ℕ → Bool) (w r : ℕ)
      → Inv P c f w r r
      → get_elem? c.received_packets (r % window_size) ≡ some none
      → Inv P c f w r (r + 1)
  stopped c f w r v hole = record {
    is_ordered = v.is_ordered;
    window_is = v.window_is;
    next_is = v.next_is;
    window_low = omega (arith, v.window_low);
    next_near = v.next_near;
    are_acks = v.are_acks;
    are_marks = v.are_marks;
    are_done = v.are_done;
    places = v.places;
    accounted = v.accounted;
    are_held = λ i p found.
        let s = v.are_held i p found in
        record {
          number = s.number;
          from_low = later i p found s;
          in_window = s.in_window;
          in_place = s.in_place;
          has_number = s.has_number;
          is_marked = s.is_marked;
          has_header = s.has_header;
          is_known = s.is_known;
        };
  }
    where
      later :
          (i : ℕ) (p : Packet)
          → get_elem? c.received_packets i ≡ some (some p)
          → (s : Slot P f w r i p) → r + 1 ≤ s.number
      later i p found s = elim (Bool-cases (s.number == r)) [
        | inl same ↦
            let e : r % window_size ≡ i = ground (arith, s.in_place) in absurd (cc (rw e at hole))
        | inr other ↦ ground (arith, s.from_low)
      ]

  -- The due packet is taken out.
  taken :
      (c : Reliable) (f : ℕ → Bool) (w r : ℕ) (p : Packet)
      → Inv P c f w r r
      → Slot P f w r (r % window_size) p
      → w ≤ r
      → r < w + window_size
      → Inv P (take_out c (r % window_size)) f w (r + 1) (r + 1)
  taken c f w r p v s from up = record {
    is_ordered = v.is_ordered;
    window_is = v.window_is;
    next_is = omega (arith, v.next_is);
    window_low = omega arith;
    next_near = omega arith;
    are_acks = v.are_acks;
    are_marks = v.are_marks;
    are_done = λ a l h. ground (arith, v.are_done a l, s.is_marked);
    places = length-set c.received_packets (r % window_size) none ∙ v.places;
    accounted = λ a l h m. elim (Bool-cases (a == r)) [
      | inl same ↦ inl (ground arith)
      | inr other ↦ elim (v.accounted a l h m) [
        | inl below ↦ inl (omega arith)
        | inr (q, there) ↦
            let elsewhere : r % window_size ≢ a % window_size = λ e. absurd (ground (arith, e)) in
            inr (
              q,
              get_elem?-set_ne c.received_packets (r % window_size) (a % window_size) none elsewhere
                  ∙ there,
            )
      ]
    ];
    are_held = λ i q found. elim (Bool-cases (r % window_size == i)) [
      | inl same ↦
          let e : r % window_size ≡ i = ground arith in
          absurd (
            cc (
              get_elem?-set_self c.received_packets (r % window_size) none
                  (omega (arith, v.places)),
              rw (← e) at found,
            ))
      | inr other ↦
          let t = v.are_held i q (
            rw
              (get_elem?-set_ne c.received_packets (r % window_size) i none
                (λ e. absurd (ground arith)))
              at found) in
          record {
            number = t.number;
            from_low = ground (arith, t.from_low, t.in_place);
            in_window = t.in_window;
            in_place = t.in_place;
            has_number = t.has_number;
            is_marked = t.is_marked;
            has_header = t.has_header;
            is_known = t.is_known;
          }
    ];
  }

  drain_next :
      (fuel : ℕ) (c : Reliable) (i : ℕ) (p : Packet) (es : List Effect)
      → c.ordered ≡ true
      → c.remote_sequence % window_size ≡ i
      → get_elem? c.received_packets i ≡ some (some p)
      → process_incoming reliable_ordered p ≡ some es
      → drain_held (suc fuel) c
        ≡ (drain_held fuel (take_out c i) >>= λ rest. some (rest.0, es ++ rest.1))
  unfolding drain_held
  drain_next fuel c i p es ord place found now = rw (place, found, drain_held, place, ord, now) refl

  drain_stops :
      (fuel : ℕ) (c : Reliable)
      → get_elem? c.received_packets (c.remote_sequence % window_size) ≡ some none
      → drain_held (suc fuel) c ≡ some (c, [])
  unfolding drain_held
  drain_stops fuel c hole = rw (hole, drain_held) refl

  -- The loop over the held packets gives out those whose turn has come, in order, and leaves only
  -- packets that are not yet due.
  pub drain_held-Inv :
      (fuel : ℕ) (c : Reliable) (f : ℕ → Bool) (w r : ℕ)
      → Inv P c f w r r
      → w + window_size < r + fuel
      → (held : List (Option Packet)) × (next : ℕ) × (es : List Effect) × (ps : List Packet)
        × (r' : ℕ) × (drain_held fuel c
            ≡ some (record c { received_packets = held; remote_sequence = next }, es))
        × Inv P (record c { received_packets = held; remote_sequence = next }) f w r' (r' + 1)
        × Gives P r ps r' es
  unfolding InOrder delivered deliveries
  drain_held-Inv zero c f w r v enough = absurd (omega (arith, v.next_near))
  drain_held-Inv (suc fuel) c f w r v enough =
      let place : c.remote_sequence % window_size ≡ r % window_size = omega (arith, v.next_is) in
      let (held, there) =
        get_elem?-some c.received_packets (r % window_size) (omega (arith, v.places)) in
      elim (Option-cases held) [
        | inl none_held ↦
            let hole : get_elem? c.received_packets (r % window_size) ≡ some none =
              rw none_held at there in
            (
              c.received_packets,
              c.remote_sequence,
              [],
              [],
              r,
              drain_stops fuel c (rw place hole),
              stopped c f w r v hole,
              (refl, tt, refl, refl),
            )
        | inr (p, is_p) ↦
            let found : get_elem? c.received_packets (r % window_size) ≡ some (some p) =
              rw is_p at there in
            let s = v.are_held (r % window_size) p found in
            let here : s.number ≡ r =
              omega (arith, s.from_low, s.in_window, s.in_place, v.window_low) in
            let up : r < w + window_size = omega (arith, s.in_window) in
            let (es, now, whole) = process_incoming-some reliable_ordered p s.has_header in
            let (later_held, next, fs, ps, r', ran, v', gives) =
              drain_held-Inv fuel (take_out c (r % window_size)) f w (r + 1)
                (taken c f w r p v s v.window_low up) (omega arith) in
            (
              later_held,
              next,
              es ++ fs,
              p ∷ ps,
              r',
              drain_next fuel c (r % window_size) p es v.is_ordered place found now ∙ (rw ran refl),
              v',
              Gives-first P r r' p ps es fs (rw here at s.has_number) s.is_known now whole gives,
            )
      ]
