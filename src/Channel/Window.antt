-- ===== src/Channel/Window.antt =====
-- The receive window of channel.go in absolute numbers: a sequence number is a count that never wraps,
-- taken modulo 32768.
use scpxy.Base.{
  ℕ, zero, suc, ◌+◌, ◌-◌, ◌*◌, ◌%◌, ◌≤◌, ◌<◌, ◌≡◌, refl, ◌∙◌, Bool, true, false, not, ◌||◌, some,
  [], arith, ◌==◌, leb, ◌>>=◌, ◌⊎◌, inl, inr, Bool-cases, ==_ne,
}
use scpxy.Base.Int.{ℤ, pos, negsuc, ltb_ℤ}
use scpxy.Wire.{max_sequence, relative_sequence}
use scpxy.Wire.Sequence.{IsSequence, LeadsTo, relative_sequence-LeadsTo, relative_sequence_ahead}
use scpxy.Packet.{Packet}
use scpxy.Channel.{Reliable, window_size, clear_ack, next_sequence}
use scpxy.Channel.Receive.{clear_places, slide, accept, receive}
use scpxy.Channel.Bitmap.{IsAcks, Marks, mark, clear_ack-Marks}

-- The sequence number of an absolute count.
abbrev pub wrapped : ℕ → ℕ
wrapped a = a % max_sequence

-- The marks after the places of the counts from `a` on, `n` of them, are cleared.
pub cleared : (ℕ → Bool) → ℕ → ℕ → ℕ → Bool
cleared f a zero = f
cleared f a (suc n) = cleared (mark f (a % window_size) false) (a + 1) n

pub cleared_ahead :
    (n : ℕ) (f : ℕ → Bool) (a b : ℕ)
    → a + n ≤ b
    → b < a + window_size
    → cleared f a n (b % window_size) ≡ f (b % window_size)
unfolding cleared
cleared_ahead zero f a b h l = refl
cleared_ahead (suc n) f a b h l =
    cleared_ahead n (mark f (a % window_size) false) (a + 1) b (omega arith) (omega arith) ∙ apart
  where
    apart : mark f (a % window_size) false (b % window_size) ≡ f (b % window_size)
    apart =
        let e : (a % window_size == b % window_size) ≡ false =
          ==_ne _ _ (λ e. absurd (omega arith)) in
        rw e refl

cleared-false : (n : ℕ) (f : ℕ → Bool) (a j : ℕ) → f j ≡ false → cleared f a n j ≡ false
unfolding cleared
cleared-false zero f a j h = h
cleared-false (suc n) f a j h =
    cleared-false n (mark f (a % window_size) false) (a + 1) j (ground arith)

pub cleared_within :
    (n : ℕ) (f : ℕ → Bool) (a b : ℕ) → a ≤ b → b < a + n → cleared f a n (b % window_size) ≡ false
unfolding cleared
cleared_within zero f a b h l = absurd (omega arith)
cleared_within (suc n) f a b h l = elim (Bool-cases (a == b)) [
  | inl same ↦
      let e : a ≡ b = ground arith in
      cleared-false n (mark f (a % window_size) false) (a + 1) (b % window_size)
        (rw e (let t : (b % window_size == b % window_size) ≡ true = ground arith in rw t refl))
  | inr other ↦
      cleared_within n (mark f (a % window_size) false) (a + 1) b (ground arith) (omega arith)
]

clear_places_next :
    (n w start place : ℕ) (acks q : Packet)
    → (w == start) ≡ false
    → w % window_size ≡ place
    → clear_ack acks place ≡ some q
    → clear_places (suc n) w start acks ≡ clear_places n (next_sequence w) start q
unfolding clear_places
clear_places_next n w start place acks q t e h = rw (clear_places, t, e, h) refl

pub clear_places-Marks :
    (n : ℕ) (a : ℕ) (acks : Packet) (f : ℕ → Bool) (w start : ℕ)
    → n ≤ window_size
    → w ≡ wrapped a
    → start ≡ wrapped (a + n)
    → IsAcks acks
    → Marks acks f
    → (acks' : Packet) × (clear_places n w start acks ≡ some acks')
      × IsAcks acks'
      × Marks acks' (cleared f a n)
unfolding clear_places cleared
clear_places-Marks zero a acks f w start h ew es ia m =
    let t : (w == start) ≡ true = ground arith in (acks, rw t refl, ia, m)
clear_places-Marks (suc n) a acks f w start h ew es ia m =
    let t : (w == start) ≡ false = ==_ne w start (λ e. absurd (omega arith)) in
    let place : w % window_size ≡ a % window_size = omega arith in
    let (q, cleared_one, iq, mq) = clear_ack-Marks acks f (a % window_size) ia m (omega arith) in
    let (r, rest, ir, mr) =
      clear_places-Marks n (a + 1) q (mark f (a % window_size) false) (next_sequence w) start
        (omega arith) (omega arith) (omega arith) iq mq in
    (r, clear_places_next n w start (a % window_size) acks q t place cleared_one ∙ rest, ir, mr)

-- A packet is dropped as it is, or it has a count `a` from the window's start on, below twice the
-- window's size, and at most 64 ahead of the count that is waited for.
abbrev pub Placed : Reliable → Packet → ℕ → ℕ → ℕ → Type 0
Placed c p seq w r =
    (a : ℕ) × (w ≤ a)
    × (a < w + window_size + window_size)
    × (a ≤ r + window_size)
    × (seq ≡ wrapped a)
    × (receive c p seq
        ≡ (slide c (a - w) >>= λ c'. accept (record c' { must_send_acks = true }) p seq))

pub receive-Placed :
    (c : Reliable) (p : Packet) (seq w r : ℕ)
    → c.remote_window ≡ wrapped w
    → c.remote_sequence ≡ wrapped r
    → w ≤ r + 1
    → r ≤ w + window_size
    → (receive c p seq ≡ some (c, [], false)) ⊎ Placed c p seq w r
unfolding receive
receive-Placed c p seq w r ew er h₁ h₂ = elim (Bool-cases (leb max_sequence seq)) [
  | inl big ↦ inl (rw big refl)
  | inr small ↦
      elim (Bool-cases (ltb_ℤ (pos window_size) (relative_sequence seq c.remote_sequence))) [
        | inl far ↦ inl (rw (small, far) refl)
        | inr near ↦
            elim (Bool-cases (
              ltb_ℤ (relative_sequence seq c.remote_window) (pos 0)
              || not (ltb_ℤ (relative_sequence seq c.remote_window) (pos (window_size * 2))))) [
                | inl out ↦ inl (rw (small, near, out) refl)
                | inr in_ ↦ inr (place (relative_sequence seq c.remote_window) refl in_ near small)
              ]
      ]
]
  where
    close :
        (k : ℕ)
        → seq ≡ wrapped (w + k)
        → ltb_ℤ (pos window_size) (relative_sequence seq c.remote_sequence) ≡ false
        → k < window_size + window_size
        → w + k ≤ r + window_size
    close k named near short = elim (Bool-cases (leb (w + k) (r + window_size))) [
      | inl t ↦ ground arith
      | inr f ↦
          let far : relative_sequence ((c.remote_sequence + (w + k - r)) % max_sequence)
                c.remote_sequence
              ≡ pos (w + k - r) =
            relative_sequence_ahead c.remote_sequence (w + k - r) (omega (arith, er))
              (ground arith) in
          let same : seq ≡ (c.remote_sequence + (w + k - r)) % max_sequence = ground arith in
          let test : ltb_ℤ (pos window_size) (pos (w + k - r)) ≡ false = rw (same, far) at near in
          absurd (ground arith)
    ]

    place :
        (z : ℤ)
        → relative_sequence seq c.remote_window ≡ z
        → (ltb_ℤ z (pos 0) || not (ltb_ℤ z (pos (window_size * 2)))) ≡ false
        → ltb_ℤ (pos window_size) (relative_sequence seq c.remote_sequence) ≡ false
        → leb max_sequence seq ≡ false
        → Placed c p seq w r
    place (pos k) ez in_ near small =
        let is : IsSequence seq = ground arith in
        let iw : IsSequence c.remote_window = omega (arith, ew) in
        let leads : LeadsTo c.remote_window seq (pos k) =
          rw ez at (relative_sequence-LeadsTo seq c.remote_window is iw) in
        let named : seq ≡ wrapped (w + k) = omega (arith, leads.1, ew) in
        let short : k < window_size + window_size = ground arith in
        (
          w + k,
          omega arith,
          omega arith,
          close k named near short,
          named,
          (let back : w + k - w ≡ k = omega arith in rw (back, small, near, ez, in_) refl),
        )
    place (negsuc k) ez in_ near small = absurd (ground arith)

-- The packet that is waited for is not dropped while the window holds its count.
pub receive_wanted :
    (c : Reliable) (p : Packet) (seq w r : ℕ)
    → c.remote_window ≡ wrapped w
    → c.remote_sequence ≡ wrapped r
    → w ≤ r
    → r ≤ w + window_size
    → seq ≡ wrapped r
    → receive c p seq
      ≡ (slide c (r - w) >>= λ c'. accept (record c' { must_send_acks = true }) p seq)
unfolding receive
receive_wanted c p seq w r ew er from near named =
    let small : leb max_sequence seq ≡ false = ground arith in
    let here : relative_sequence seq c.remote_sequence ≡ pos 0 =
      let e : seq ≡ (c.remote_sequence + 0) % max_sequence = omega (arith, er) in
      rw e (relative_sequence_ahead c.remote_sequence 0 (omega (arith, er)) (omega arith)) in
    let ahead : relative_sequence seq c.remote_window ≡ pos (r - w) =
      let e : seq ≡ (c.remote_window + (r - w)) % max_sequence = omega (arith, ew) in
      rw e (relative_sequence_ahead c.remote_window (r - w) (omega (arith, ew)) (omega arith)) in
    let in_ : (ltb_ℤ (pos (r - w)) (pos 0) || not (ltb_ℤ (pos (r - w)) (pos (window_size * 2))))
        ≡ false =
      ground arith in
    rw (small, here, ahead, in_) refl
