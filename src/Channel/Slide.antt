-- ===== src/Channel/Slide.antt =====
-- The window of channel.go's ordered channel moves ahead with the state intact.
use scpxy.Base.{
  ℕ, ◌+◌, ◌-◌, ◌%◌, ◌≤◌, ◌<◌, ◌≡◌, refl, sym, ◌∙◌, Bool, some, ltb, arith, inl, inr, Bool-cases,
  le→ltb, lt→ltb,
}
use scpxy.Wire.{max_sequence}
use scpxy.Packet.{Packet, set_sequence}
use scpxy.Channel.{Reliable, window_size, steps}
use scpxy.Channel.Receive.{slide, clear_places}
use scpxy.Channel.Bitmap.{IsAcks, Marks, set_sequence-Marks}
use scpxy.Channel.Window.{wrapped, cleared, cleared_ahead, cleared_within, clear_places-Marks}
use scpxy.Channel.Held.{State, Inv}

slide_short : (c : Reliable) (k : ℕ) → k < window_size → slide c k ≡ some c
unfolding slide
slide_short c k h = rw (lt→ltb k window_size h) refl

slide_far :
    (c : Reliable) (k start : ℕ) (a b : Packet)
    → window_size ≤ k
    → (c.remote_window + k - window_size + 1) % max_sequence ≡ start
    → set_sequence c.outgoing_acks start ≡ some a
    → clear_places (steps c.remote_window start) c.remote_window start a ≡ some b
    → slide c k ≡ some (record c { outgoing_acks = b; remote_window = start })
unfolding slide
slide_far c k start a b h e named swept = rw (le→ltb k window_size h, e, named, swept) refl

module _ (P : Packet → Type 0) where
  -- The window moves as far as the count `a` asks for.
  pub slide-Inv :
      (c : Reliable) (f : ℕ → Bool) (w r a : ℕ)
      → Inv P c f w r (r + 1)
      → w ≤ a
      → a < w + window_size + window_size
      → a ≤ r + window_size
      → (acks : Packet) × (window : ℕ) × (f' : ℕ → Bool) × (w' : ℕ) × (slide c (a - w)
          ≡ some (record c { outgoing_acks = acks; remote_window = window }))
        × Inv P (record c { outgoing_acks = acks; remote_window = window }) f' w' r (r + 1)
        × (w' ≤ a)
        × (a < w' + window_size)
  slide-Inv c f w r a v from within near = elim (Bool-cases (ltb (a - w) window_size)) [
    | inl short ↦ (
      c.outgoing_acks,
      c.remote_window,
      f,
      w,
      slide_short c (a - w) (ground arith),
      v,
      from,
      ground arith,
    )
    | inr far ↦
        let beyond : w + window_size ≤ a = ground arith in
        let n = a + 1 - window_size - w in
        let start = wrapped (w + n) in
        let (acks, named, ia, ma) =
          set_sequence-Marks c.outgoing_acks f start v.are_acks v.are_marks in
        let (acks', swept, ia', ma') =
          clear_places-Marks n w acks f c.remote_window start (omega arith) v.window_is refl ia
            ma in
        let count : steps c.remote_window start ≡ n = omega (arith, v.window_is) in
        (
          acks',
          start,
          cleared f w n,
          w + n,
          slide_far c (a - w) start acks acks' (omega arith) (omega (arith, v.window_is)) named
              (rw count swept),
          moved n acks' ia' ma' (omega arith) (omega arith),
          omega arith,
          omega arith,
        )
  ]
    where
      moved :
          (n : ℕ) (acks : Packet)
          → IsAcks acks
          → Marks acks (cleared f w n)
          → n ≤ window_size
          → w + n ≤ r + 1
          → State P c.ordered
              (wrapped (w + n))
              c.remote_sequence
              acks
              c.received_packets
              (cleared f w n)
              (w + n)
              r
              (r + 1)
      moved n acks ia ma small low = record {
        is_ordered = v.is_ordered;
        window_is = refl;
        next_is = v.next_is;
        window_low = low;
        next_near = omega (arith, v.next_near);
        are_acks = ia;
        are_marks = ma;
        are_done = λ b l h.
            cleared_ahead n f w b l (omega (arith, v.next_near)) ∙ v.are_done b (omega arith) h;
        places = v.places;
        accounted = λ b l h m. elim (Bool-cases (ltb b (w + window_size))) [
          | inl inside ↦
              v.accounted b (omega arith) (ground arith)
                (sym (cleared_ahead n f w b l (ground arith)) ∙ m)
          | inr outside ↦
              let same : (b - window_size) % window_size ≡ b % window_size = ground arith in
              let gone = cleared_within n f w (b - window_size) (ground arith) (ground arith) in
              absurd (cc (rw same at gone, m))
        ];
        are_held = λ i p found.
            let s = v.are_held i p found in
            let kept = cleared_ahead n f w s.number (omega (arith, s.from_low)) s.in_window in
            record {
              number = s.number;
              from_low = s.from_low;
              in_window = omega (arith, s.in_window);
              in_place = s.in_place;
              has_number = s.has_number;
              is_marked = (rw s.in_place at kept) ∙ s.is_marked;
              has_header = s.has_header;
              is_known = s.is_known;
            };
      }
