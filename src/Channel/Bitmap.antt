-- ===== src/Channel/Bitmap.antt =====
-- The ack bitmap of channel.go as a function from the places of the window.
use scpxy.Base.{
  ℕ, ◌-◌, ◌%◌, ◌^◌, ◌<◌, ◌≡◌, ◌≢◌, refl, ap, ◌∙◌, bit_and, bit_or, Bool, true, false, not, ◌&&◌,
  some, length, get_elem?, set, arith, ◌==◌, if◌then◌else◌, All, inl, inr, Bool-cases,
  get_elem?-some, get_elem?-set_self, get_elem?-set_ne, length-set, ==_ne, ltb,
}
use scpxy.Base.Bits.{IsByte, all_below, all_below-at}
use scpxy.Base.Slice.{
  All-get_elem?, All-set, put-some, write, length-write, get_elem?-write_above, All-write,
}
use scpxy.Base.LittleEndian.{le_bytes, le_bytes-IsByte}
use scpxy.Packet.{Packet, packet, set_sequence}
use scpxy.Channel.{window_size, ack_bit, set_ack, clear_ack, has_bit, ack_byte, ack_mask}

-- Agreement of Boolean functions of one byte and two bit numbers, by a table of 16384 rows.
bool_eq : Bool → Bool → Bool
bool_eq true b = b
bool_eq false b = not b

bool_eq→eq : (a b : Bool) → bool_eq a b ≡ true → a ≡ b
unfolding bool_eq
bool_eq→eq true true h = refl
bool_eq→eq true false h = absurd (cc)
bool_eq→eq false true h = absurd (cc)
bool_eq→eq false false h = refl

abbrev bit8 : ℕ → ℕ → Bool
bit8 b i = not (bit_and b (2 ^ i) == 0)

or_row : ℕ → ℕ → ℕ → Bool
unfolding bool_eq
or_row b i j = bool_eq (bit8 (bit_or b (2 ^ i)) j) (if i == j then true else bit8 b j)

or_table : all_below 256 (λ b. all_below 8 (λ i. all_below 8 (λ j. or_row b i j))) ≡ true
unfolding all_below or_row
or_table = refl

and_row : ℕ → ℕ → ℕ → Bool
unfolding bool_eq
and_row b i j = bool_eq (bit8 (bit_and b (255 - 2 ^ i)) j) (if i == j then false else bit8 b j)

and_table : all_below 256 (λ b. all_below 8 (λ i. all_below 8 (λ j. and_row b i j))) ≡ true
unfolding all_below and_row
and_table = refl

byte_row : ℕ → ℕ → Bool
byte_row b i =
    (if ltb (bit_or b (2 ^ i)) 256 then true else false)
    && (if ltb (bit_and b (255 - 2 ^ i)) 256 then true else false)

byte_table : all_below 256 (λ b. all_below 8 (λ i. byte_row b i)) ≡ true
unfolding all_below byte_row
byte_table = refl

at_row :
    (row : ℕ → ℕ → ℕ → Bool) (b i j : ℕ)
    → all_below 256 (λ b. all_below 8 (λ i. all_below 8 (λ j. row b i j))) ≡ true
    → b < 256
    → i < 8
    → j < 8
    → row b i j ≡ true
at_row row b i j t hb hi hj =
    all_below-at 8 (λ j. row b i j) j
      (all_below-at 8 (λ i. all_below 8 (λ j. row b i j)) i
        (all_below-at 256 (λ b. all_below 8 (λ i. all_below 8 (λ j. row b i j))) b t hb) hi)
      hj

pub bit8-or :
    (b i j : ℕ)
    → b < 256
    → i < 8
    → j < 8
    → bit8 (bit_or b (2 ^ i)) j ≡ (if i == j then true else bit8 b j)
bit8-or b i j hb hi hj = bool_eq→eq _ _ (unfold or_row in (at_row or_row b i j or_table hb hi hj))

pub bit8-and :
    (b i j : ℕ)
    → b < 256
    → i < 8
    → j < 8
    → bit8 (bit_and b (255 - 2 ^ i)) j ≡ (if i == j then false else bit8 b j)
bit8-and b i j hb hi hj =
    bool_eq→eq _ _ (unfold and_row in (at_row and_row b i j and_table hb hi hj))

pub masked-IsByte :
    (b i : ℕ) → b < 256 → i < 8 → IsByte (bit_or b (2 ^ i)) × IsByte (bit_and b (255 - 2 ^ i))
masked-IsByte b i hb hi = split (
    unfold byte_row in
    (all_below-at 8 (λ i. byte_row b i) i
      (all_below-at 256 (λ b. all_below 8 (λ i. byte_row b i)) b byte_table hb) hi))
  where
    split :
        ((if ltb (bit_or b (2 ^ i)) 256 then true else false)
            && (if ltb (bit_and b (255 - 2 ^ i)) 256 then true else false))
          ≡ true
        → IsByte (bit_or b (2 ^ i)) × IsByte (bit_and b (255 - 2 ^ i))
    split h = ground arith

-- The packet of acks: its length, and bytes.
pub record IsAcks (p : Packet) : Type 0 where
  pub length_is : length p.bytes ≡ 13
  pub are_bytes : All IsByte p.bytes

-- `f` says which places of the window are marked.
abbrev pub Marks : Packet → (ℕ → Bool) → Type 0
Marks p f = (i : ℕ) → i < window_size → ack_bit p i ≡ some (f i)

abbrev pub mark : (ℕ → Bool) → ℕ → Bool → ℕ → Bool
mark f i v j = if i == j then v else f j

marked :
    (p : Packet) (f : ℕ → Bool) (i b c : ℕ) (v : Bool)
    → Marks p f
    → i < window_size
    → length p.bytes ≡ 13
    → get_elem? p.bytes (ack_byte i) ≡ some b
    → ((j : ℕ) → j < 8 → bit8 c j ≡ (if i % 8 == j then v else bit8 b j))
    → Marks (packet (set p.bytes (ack_byte i) c)) (mark f i v)
unfolding ack_bit
marked p f i b c v m hi l found bits j hj = elim (Bool-cases (ack_byte i == ack_byte j)) [
  | inl same ↦
      let e : ack_byte j ≡ ack_byte i = ground arith in
      rw (e, get_elem?-set_self p.bytes (ack_byte i) c (omega arith))
        (ap some (bits (j % 8) (omega arith) ∙ step e (rw (e, found) at (m j hj))))
  | inr other ↦
      let apart : i ≢ j = λ e. absurd (ground (arith, e)) in
      rw
        (
          get_elem?-set_ne p.bytes (ack_byte i) (ack_byte j) c (λ e. absurd (ground (arith, e))),
          ==_ne i j apart,
        )
        (m j hj)
]
  where
    step :
        ack_byte j ≡ ack_byte i
        → some (has_bit b j) ≡ some (f j)
        → (if i % 8 == j % 8 then v else bit8 b (j % 8)) ≡ mark f i v j
    step e h = ground arith

-- Marking a place, taking its mark away, and a store of the sequence number in front.
pub set_ack-Marks :
    (p : Packet) (f : ℕ → Bool) (i : ℕ)
    → IsAcks p
    → Marks p f
    → i < window_size
    → (q : Packet) × (set_ack p i ≡ some q) × IsAcks q × Marks q (mark f i true)
unfolding set_ack
set_ack-Marks p f i a m hi =
    let (b, found) = get_elem?-some p.bytes (ack_byte i) (omega (arith, a.length_is)) in
    let hb = All-get_elem? IsByte p.bytes (ack_byte i) b a.are_bytes found in
    let c = bit_or b (ack_mask i) in
    (
      packet (set p.bytes (ack_byte i) c),
      rw found refl,
      record {
        length_is = length-set p.bytes (ack_byte i) c ∙ a.length_is;
        are_bytes =
            All-set IsByte p.bytes (ack_byte i) c a.are_bytes
              (masked-IsByte b (i % 8) hb (omega arith)).0;
      },
      marked p f i b c true m hi a.length_is found
          (λ j hj. bit8-or b (i % 8) j hb (omega arith) hj),
    )

pub clear_ack-Marks :
    (p : Packet) (f : ℕ → Bool) (i : ℕ)
    → IsAcks p
    → Marks p f
    → i < window_size
    → (q : Packet) × (clear_ack p i ≡ some q) × IsAcks q × Marks q (mark f i false)
unfolding clear_ack
clear_ack-Marks p f i a m hi =
    let (b, found) = get_elem?-some p.bytes (ack_byte i) (omega (arith, a.length_is)) in
    let hb = All-get_elem? IsByte p.bytes (ack_byte i) b a.are_bytes found in
    let c = bit_and b (255 - ack_mask i) in
    (
      packet (set p.bytes (ack_byte i) c),
      rw found refl,
      record {
        length_is = length-set p.bytes (ack_byte i) c ∙ a.length_is;
        are_bytes =
            All-set IsByte p.bytes (ack_byte i) c a.are_bytes
              (masked-IsByte b (i % 8) hb (omega arith)).1;
      },
      marked p f i b c false m hi a.length_is found
          (λ j hj. bit8-and b (i % 8) j hb (omega arith) hj),
    )

pub set_sequence-Marks :
    (p : Packet) (f : ℕ → Bool) (s : ℕ)
    → IsAcks p
    → Marks p f
    → (q : Packet) × (set_sequence p s ≡ some q) × IsAcks q × Marks q f
unfolding set_sequence ack_bit
set_sequence-Marks p f s a m =
    let vs = le_bytes 2 s in
    (
      packet (write p.bytes 1 vs),
      rw (put-some p.bytes 1 vs (omega (arith, a.length_is))) refl,
      record {
        length_is = length-write p.bytes 1 vs ∙ a.length_is;
        are_bytes = All-write IsByte p.bytes 1 vs a.are_bytes (le_bytes-IsByte 2 s);
      },
      λ j hj. rw (get_elem?-write_above p.bytes 1 vs (ack_byte j) (omega arith)) (m j hj),
    )
