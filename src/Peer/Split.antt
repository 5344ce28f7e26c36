-- ===== src/Peer/Split.antt =====
-- What the fragments of peer.go's `send` look like when they reach the other side.
use scpxy.Base.{
  ℕ, suc, ◌+◌, ◌*◌, ◌/◌, ◌%◌, ◌<◌, ◌≡◌, refl, ap, true, Option, some, List, [], ◌∷◌, length, drop,
  replicate, length-replicate, append-nil, ◌>>=◌, arith,
}
use scpxy.Base.Bits.{or_number, and_fragment}
use scpxy.Base.Slice.{put, read, write, write-append}
use scpxy.Packet.{
  Packet, packet, size, set_sequence, set_channel_id, set_connection_number, set_property,
  new_raw_packet, mark_fragmented, set_fragment_id, set_fragment_part, set_fragments_total,
  is_fragmented, channel_id, fragment_id, fragment_part, fragments_total,
}
use scpxy.Peer.Fragments.{fragment}

-- A fragment's first byte, sequence number and channel, its id, part and total, and its bytes.
pub record Header : Type 0 where
  pub first : ℕ
  pub seq : ℕ
  pub channel : ℕ

abbrev pub fragment_words : ℕ → ℕ → ℕ → List ℕ → List ℕ
fragment_words id part total chunk =
    (id % 256)
    ∷ (id / 256 % 256)
    ∷ (part % 256)
    ∷ (part / 256 % 256)
    ∷ (total % 256)
    ∷ (total / 256 % 256)
    ∷ chunk

abbrev pub laid_out : Header → ℕ → ℕ → ℕ → List ℕ → Packet
laid_out h id part total chunk =
    packet (
      h.first
      ∷ (h.seq % 256)
      ∷ (h.seq / 256 % 256)
      ∷ h.channel
      ∷ fragment_words id part total chunk)

pub fragment-laid_out :
    (id part total : ℕ) (chunk : List ℕ)
    → part < 65536
    → total < 65536
    → fragment id part total chunk
      ≡ some (laid_out (record { first = 129; seq = 0; channel = 0 }) id part total chunk)
unfolding fragment new_raw_packet set_property set_fragment_id set_fragment_part set_fragments_total
    mark_fragmented put write
fragment-laid_out id part total chunk hp ht =
    let n = length chunk in
    let old : List ℕ = replicate n 0 in
    let ten : 4 + n + 6 ≡ suc (suc (suc (suc (suc (suc (suc (suc (suc (suc n))))))))) =
      omega arith in
    let part' : part % 65536 ≡ part = omega arith in
    let total' : total % 65536 ≡ total = omega arith in
    let pre : List ℕ = 129 ∷ 0 ∷ 0 ∷ 0 ∷ fragment_words id part total [] in
    let filled = write-append pre old [] chunk (length-replicate n 0) in
    rw (ten, part', total') (ground (arith, filled, append-nil old, append-nil chunk))

-- On its way a packet gets the number and the channel by the channel, and the connection's number.
unfoldable pub carried : ℕ → ℕ → ℕ → Packet → Option Packet
carried seq channel num p =
    set_sequence p seq >>= λ a. set_channel_id a channel >>= λ b. set_connection_number b num

pub carried-laid_out :
    (seq channel num id part total : ℕ) (chunk : List ℕ)
    → num < 4
    → carried seq channel num
        (laid_out (record { first = 129; seq = 0; channel = 0 }) id part total chunk)
      ≡ some (
          laid_out
            (record { first = 129 + num * 32; seq = seq; channel = channel })
            id
            part
            total
            chunk)
unfolding carried set_sequence set_channel_id set_connection_number put write
carried-laid_out seq channel num id part total chunk h = ground (arith, or_number 129 num)

-- What the receiver reads of it.
module _ (num seq channel id part total : ℕ) (chunk : List ℕ) where
  unfoldable pub on_wire : Packet
  on_wire =
      laid_out (record { first = 129 + num * 32; seq = seq; channel = channel }) id part total chunk

  pub record Reads : Type 0 where
    pub fragmented_is : is_fragmented on_wire ≡ some true
    pub id_is : fragment_id on_wire ≡ some id
    pub part_is : fragment_part on_wire ≡ some part
    pub total_is : fragments_total on_wire ≡ some total
    pub channel_is : channel_id on_wire ≡ some channel
    pub size_is : size on_wire ≡ 10 + length chunk
    pub rest_is : drop 10 on_wire.bytes ≡ chunk

  pub on_wire-Reads : num < 4 → id < 65536 → part < 65536 → total < 65536 → Reads
  unfolding on_wire is_fragmented fragment_id fragment_part fragments_total channel_id read
  on_wire-Reads hn hi hp ht = record {
    fragmented_is = ground (arith, and_fragment (129 + num * 32) (omega arith));
    id_is = ap some (omega arith);
    part_is = ap some (omega arith);
    total_is = ap some (omega arith);
    channel_is = refl;
    size_is = omega arith;
    rest_is = refl;
  }
