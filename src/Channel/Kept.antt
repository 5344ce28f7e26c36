-- ===== src/Channel/Kept.antt =====
-- The state of channel.go's ordered channel after it has taken a packet.
use scpxy.Base.{
  ℕ, ◌+◌, ◌%◌, ◌≤◌, ◌<◌, ◌≡◌, ◌∙◌, Bool, true, false, some, get_elem?-set_self, get_elem?-set_ne,
  set, length-set, ◌==◌, arith, inl, inr, Bool-cases,
}
use scpxy.Packet.{Packet, size, sequence}
use scpxy.Channel.{Reliable, window_size, next_sequence}
use scpxy.Channel.Bitmap.{IsAcks, Marks, mark}
use scpxy.Channel.Window.{wrapped}
use scpxy.Channel.Held.{Inv}

module _ (P : Packet → Type 0) where
  -- A packet ahead of the one that is waited for takes its place.
  pub put_in :
      (c : Reliable) (f : ℕ → Bool) (w r a : ℕ) (p : Packet) (acks : Packet)
      → Inv P c f w r (r + 1)
      → r < a
      → a < w + window_size
      → sequence p ≡ some (wrapped a)
      → 4 ≤ size p
      → P p
      → IsAcks acks
      → Marks acks (mark f (a % window_size) true)
      → Inv P
          (record c {
            outgoing_acks = acks;
            received_packets = set c.received_packets (a % window_size) (some p);
          })
          (mark f (a % window_size) true)
          w
          r
          (r + 1)
  put_in c f w r a p acks v ahead within numbered header known ia ma = record {
    is_ordered = v.is_ordered;
    window_is = v.window_is;
    next_is = v.next_is;
    window_low = v.window_low;
    next_near = v.next_near;
    are_acks = ia;
    are_marks = ma;
    are_done = λ b l h. ground (arith, v.are_done b l h);
    places = length-set c.received_packets (a % window_size) (some p) ∙ v.places;
    accounted = λ b l h m. elim (Bool-cases (a % window_size == b % window_size)) [
      | inl same ↦
          let e : a % window_size ≡ b % window_size = ground arith in
          inr (
            p,
            rw (← e) (
                get_elem?-set_self c.received_packets (a % window_size) (some p)
                  (omega (arith, v.places))),
          )
      | inr other ↦ elim (v.accounted b l h (rw other at m)) [
        | inl below ↦ inl below
        | inr (q, there) ↦ inr (
          q,
          get_elem?-set_ne c.received_packets (a % window_size) (b % window_size) (some p)
                (λ e. absurd (ground (arith, e)))
              ∙ there,
        )
      ]
    ];
    are_held = λ i q found. elim (Bool-cases (a % window_size == i)) [
      | inl same ↦
          let e : a % window_size ≡ i = ground arith in
          let stored =
            get_elem?-set_self c.received_packets (a % window_size) (some p)
              (omega (arith, v.places)) in
          let is_p : p ≡ q = cc (stored, rw (← e) at found) in
          record {
            number = a;
            from_low = omega arith;
            in_window = within;
            in_place = e;
            has_number = rw (← is_p) numbered;
            is_marked = ground arith;
            has_header = rw (← is_p) header;
            is_known = rw (← is_p) known;
          }
      | inr other ↦
          let s = v.are_held i q (
            rw
              (get_elem?-set_ne c.received_packets (a % window_size) i (some p)
                (λ e. absurd (ground arith)))
              at found) in
          record {
            number = s.number;
            from_low = s.from_low;
            in_window = s.in_window;
            in_place = s.in_place;
            has_number = s.has_number;
            is_marked = ground (arith, s.is_marked);
            has_header = s.has_header;
            is_known = s.is_known;
          }
    ];
  }

  -- The packet that is waited for: the count goes on, and what is held may now be due.
  pub go_on :
      (c : Reliable) (f : ℕ → Bool) (w r : ℕ) (acks : Packet)
      → Inv P c f w r (r + 1)
      → w ≤ r
      → r < w + window_size
      → IsAcks acks
      → Marks acks (mark f (r % window_size) true)
      → Inv P
          (record c { outgoing_acks = acks; remote_sequence = next_sequence c.remote_sequence })
          (mark f (r % window_size) true)
          w
          (r + 1)
          (r + 1)
  go_on c f w r acks v from up ia ma = record {
    is_ordered = v.is_ordered;
    window_is = v.window_is;
    next_is = omega (arith, v.next_is);
    window_low = v.window_low;
    next_near = omega arith;
    are_acks = ia;
    are_marks = ma;
    are_done = λ b l h. ground (arith, v.are_done b l);
    places = v.places;
    accounted = λ b l h m. elim (Bool-cases (r % window_size == b % window_size)) [
      | inl same ↦ inl (ground arith)
      | inr other ↦ elim (v.accounted b l h (rw other at m)) [
        | inl below ↦ inl (omega arith)
        | inr held ↦ inr held
      ]
    ];
    are_held = λ i q found.
        let s = v.are_held i q found in
        record {
          number = s.number;
          from_low = s.from_low;
          in_window = s.in_window;
          in_place = s.in_place;
          has_number = s.has_number;
          is_marked = ground (arith, s.is_marked);
          has_header = s.has_header;
          is_known = s.is_known;
        };
  }

  -- The count that is waited for is not marked.
  pub not_marked :
      (c : Reliable) (f : ℕ → Bool) (w r : ℕ)
      → Inv P c f w r (r + 1)
      → w ≤ r
      → r < w + window_size
      → f (r % window_size) ≡ false
  not_marked c f w r v from up = elim (Bool-cases (f (r % window_size))) [
    | inr no_mark ↦ no_mark
    | inl m ↦ elim (v.accounted r from up m) [
      | inl below ↦ absurd (omega arith)
      | inr (p, there) ↦
          let s = v.are_held (r % window_size) p there in
          absurd (omega (arith, s.from_low, s.in_window, s.in_place))
    ]
  ]
