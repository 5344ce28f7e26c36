-- ===== src/Packet/Bounds.antt =====
-- What `verify` of packet.go guarantees: no accessor that the code calls after it can panic.
use scpxy.Base.{
  ℕ, ◌+◌, ◌%◌, ◌≤◌, ◌<◌, ◌≡◌, ◌⊎◌, inl, inr, refl, ap, true, some, List, [], ◌∷◌, length, All,
  arith, ◌>>=◌, get_elem?-some,
}
use scpxy.Base.Bits.{IsByte, and_property, and_fragment}
use scpxy.Base.LittleEndian.{le_value}
use scpxy.Base.Slice.{read, read-some, All-read}
use scpxy.Packet.{
  Packet, packet, size, property, is_fragmented, sequence, channel_id, fragment_id, fragment_part,
  fragments_total, verify, verify_first, property_header_size, prop_channeled, prop_ack,
  prop_reliable_merged, prop_total,
}

-- A read of two bytes within the slice, as a number below 65536.
uint16_some :
    (bs : List ℕ) (i : ℕ)
    → All IsByte bs
    → i + 2 ≤ length bs
    → (v : ℕ) × (v < 65536) × ((read 2 bs i >>= λ vs. some (le_value vs)) ≡ some v)
uint16_some bs i h l =
    let (vs, e, n) = read-some 2 bs i l in
    (le_value vs, bound vs n (All-read IsByte 2 bs i vs h e), rw e refl)
  where
    bound : (vs : List ℕ) → length vs ≡ 2 → All IsByte vs → le_value vs < 65536
    bound [] n a = absurd (omega arith)
    bound (x ∷ []) n a = absurd (omega arith)
    bound (x ∷ y ∷ []) n a = omega arith
    bound (x ∷ y ∷ z ∷ r) n a = absurd (omega arith)

-- The number of a packet whose header has a sequence and a channel.
abbrev pub IsChanneled : ℕ → Type 0
IsChanneled k = (k ≡ prop_channeled) ⊎ (k ≡ prop_ack) ⊎ (k ≡ prop_reliable_merged)

-- The header of a verified packet in numbers: the property is known, and the packet holds the
-- header of its property, and the fragment header behind it when the fragment bit is set.
pub verify_first_lem :
    (b len : ℕ)
    → IsByte b
    → verify_first b len ≡ true
    → (b % 32 < prop_total)
      × (property_header_size (b % 32) ≤ len)
      × (128 ≤ b → property_header_size (b % 32) + 6 ≤ len)
verify_first_lem b len h v = ground (arith, and_property b h, and_fragment b h)

IsChanneled-size : (k : ℕ) → IsChanneled k → property_header_size k ≡ 4
unfolding property_header_size
IsChanneled-size k (inl e) = rw e
IsChanneled-size k (inr (inl e)) = rw e
IsChanneled-size k (inr (inr e)) = rw e

-- What the code reads of a packet with a channel header, and of a fragment.
pub record Readable (p : Packet) : Type 0 where
  pub sequence_of : ℕ
  pub channel_of : ℕ
  pub sequence_lt : sequence_of < 65536
  pub sequence_eq : sequence p ≡ some sequence_of
  pub channel_eq : channel_id p ≡ some channel_of

pub record FragmentReadable (p : Packet) : Type 0 where
  pub id_of : ℕ
  pub part_of : ℕ
  pub total_of : ℕ
  pub id_eq : fragment_id p ≡ some id_of
  pub part_eq : fragment_part p ≡ some part_of
  pub total_eq : fragments_total p ≡ some total_of

pub size-Readable : (p : Packet) → All IsByte p.bytes → 4 ≤ size p → Readable p
unfolding sequence channel_id
size-Readable p h l =
    let (s, hs, es) = uint16_some p.bytes 1 h (omega arith) in
    let (c, ec) = get_elem?-some p.bytes 3 (omega arith) in
    record { sequence_of = s; channel_of = c; sequence_lt = hs; sequence_eq = es; channel_eq = ec }

pub size-FragmentReadable : (p : Packet) → All IsByte p.bytes → 10 ≤ size p → FragmentReadable p
unfolding fragment_id fragment_part fragments_total
size-FragmentReadable p h l =
    let (i, hi, ei) = uint16_some p.bytes 4 h (omega arith) in
    let (a, ha, ea) = uint16_some p.bytes 6 h (omega arith) in
    let (t, ht, et) = uint16_some p.bytes 8 h (omega arith) in
    record { id_of = i; part_of = a; total_of = t; id_eq = ei; part_eq = ea; total_eq = et }

module _ (b : ℕ) (rest : List ℕ) (h : All IsByte (b ∷ rest))
    (v : verify (packet (b ∷ rest)) ≡ true) where
  -- A verified packet holds the whole header of its property, which is one of the nineteen. On a
  -- channeled packet, an ack or a reliable merge the sequence and the channel can be read, and on
  -- one of them that is a fragment the three fragment fields too.
  pub verify-Readable :
      (k : ℕ)
      → property (packet (b ∷ rest)) ≡ some k
      → (k < prop_total)
        × (property_header_size k ≤ size (packet (b ∷ rest)))
        × (IsChanneled k → Readable (packet (b ∷ rest)))
        × (IsChanneled k
            → is_fragmented (packet (b ∷ rest)) ≡ some true
            → FragmentReadable (packet (b ∷ rest)))
  unfolding verify property is_fragmented
  verify-Readable k e =
      let (t, s, f) = verify_first_lem b (size (packet (b ∷ rest))) h.0 v in
      let ek : k ≡ b % 32 = ground (arith, and_property b h.0) in
      (
        omega arith,
        rw ek s,
        λ c.
            size-Readable (packet (b ∷ rest)) h
              (omega (arith, IsChanneled-size k c, ap property_header_size ek)),
        λ c fr. size-FragmentReadable (packet (b ∷ rest)) h (
            omega (
              arith,
              IsChanneled-size k c,
              ap property_header_size ek,
              f (ground (arith, and_fragment b h.0)),
            )),
      )
