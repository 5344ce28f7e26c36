-- ===== src/Packet/Words.antt =====
-- The numbers of packet.go's channel header and fragment header: what is stored is read back.
use scpxy.Base.{ℕ, ◌≤◌, ◌<◌, ◌≡◌, refl, ap, ◌∙◌, some, get_elem?, arith, ◌>>=◌}
use scpxy.Base.LittleEndian.{le_value, le_bytes}
use scpxy.Base.Slice.{
  write, put-some, length-write, read-write_self, read-write_below, get_elem?-write_below,
  get_elem?-write_above,
}
use scpxy.Packet.{
  Packet, packet, size, property, is_fragmented, connection_number, sequence, set_sequence,
  fragment_id, set_fragment_id, fragment_part, set_fragment_part, fragments_total,
  set_fragments_total,
}

pub le_value-le_bytes_2 : (v : ℕ) → v < 65536 → le_value (le_bytes 2 v) ≡ v
le_value-le_bytes_2 v h = omega arith

module _ (p : Packet) (v : ℕ) (hv : v < 65536) where
  -- A packet with a channel header takes a sequence number: it is read back, and the first byte,
  -- the channel, and all that lies behind are as before.
  pub set_sequence_lem :
      4 ≤ size p
      → (q : Packet) × (set_sequence p v ≡ some q)
        × (sequence q ≡ some v)
        × (size q ≡ size p)
        × (property q ≡ property p)
        × (connection_number q ≡ connection_number p)
        × (is_fragmented q ≡ is_fragmented p)
        × ((j : ℕ) → 3 ≤ j → get_elem? q.bytes j ≡ get_elem? p.bytes j)
  unfolding set_sequence sequence property connection_number is_fragmented
  set_sequence_lem h =
      let bs = p.bytes in
      let first = get_elem?-write_below bs 1 (le_bytes 2 v) 0 (omega arith) in
      (
        packet (write bs 1 (le_bytes 2 v)),
        rw (put-some bs 1 (le_bytes 2 v) (omega arith)) refl,
        rw (read-write_self bs 1 (le_bytes 2 v) (omega arith)) (ap some (le_value-le_bytes_2 v hv)),
        length-write bs 1 (le_bytes 2 v),
        rw first refl,
        rw first refl,
        rw first refl,
        λ j hj. get_elem?-write_above bs 1 (le_bytes 2 v) j (omega arith),
      )

-- The three fields of the fragment header are written one behind the other and read back, and the
-- channel header in front of them stays.
pub fragment_header_lem :
    (p : Packet) (id part total : ℕ)
    → id < 65536
    → part < 65536
    → total < 65536
    → 10 ≤ size p
    → (q : Packet) × ((set_fragment_id p id >>= λ a.
          set_fragment_part a part >>= λ b. set_fragments_total b total)
        ≡ some q)
      × (fragment_id q ≡ some id)
      × (fragment_part q ≡ some part)
      × (fragments_total q ≡ some total)
      × (size q ≡ size p)
      × ((j : ℕ) → j < 4 → get_elem? q.bytes j ≡ get_elem? p.bytes j)
      × ((j : ℕ) → 10 ≤ j → get_elem? q.bytes j ≡ get_elem? p.bytes j)
unfolding set_fragment_id set_fragment_part set_fragments_total fragment_id fragment_part
    fragments_total
fragment_header_lem p id part total hi hp ht h =
    let w₁ = write p.bytes 4 (le_bytes 2 id) in
    let w₂ = write w₁ 6 (le_bytes 2 part) in
    let w₃ = write w₂ 8 (le_bytes 2 total) in
    let l₁ = length-write p.bytes 4 (le_bytes 2 id) in
    let l₂ = length-write w₁ 6 (le_bytes 2 part) in
    let l₃ = length-write w₂ 8 (le_bytes 2 total) in
    (
      packet w₃,
      rw
          (
            put-some p.bytes 4 (le_bytes 2 id) (omega arith),
            put-some w₁ 6 (le_bytes 2 part) (omega (arith, l₁)),
            put-some w₂ 8 (le_bytes 2 total) (omega (arith, l₁, l₂)),
          )
          refl,
      rw
          (
            read-write_below 2 w₂ 8 (le_bytes 2 total) 4 (omega arith),
            read-write_below 2 w₁ 6 (le_bytes 2 part) 4 (omega arith),
            read-write_self p.bytes 4 (le_bytes 2 id) (omega arith),
          )
          (ap some (le_value-le_bytes_2 id hi)),
      rw
          (
            read-write_below 2 w₂ 8 (le_bytes 2 total) 6 (omega arith),
            read-write_self w₁ 6 (le_bytes 2 part) (omega (arith, l₁)),
          )
          (ap some (le_value-le_bytes_2 part hp)),
      rw (read-write_self w₂ 8 (le_bytes 2 total) (omega (arith, l₁, l₂)))
          (ap some (le_value-le_bytes_2 total ht)),
      l₃ ∙ l₂ ∙ l₁,
      λ j hj.
          get_elem?-write_below w₂ 8 (le_bytes 2 total) j (omega arith)
          ∙ get_elem?-write_below w₁ 6 (le_bytes 2 part) j (omega arith)
          ∙ get_elem?-write_below p.bytes 4 (le_bytes 2 id) j (omega arith),
      λ j hj.
          get_elem?-write_above w₂ 8 (le_bytes 2 total) j (omega arith)
          ∙ get_elem?-write_above w₁ 6 (le_bytes 2 part) j (omega arith)
          ∙ get_elem?-write_above p.bytes 4 (le_bytes 2 id) j (omega arith),
    )
