-- ===== src/Channel/Merged.antt =====
-- `processIncoming` of channel.go returns on every packet that holds a channel header.
use scpxy.Base.{
  bit_and, bit_or, ℕ, zero, suc, ◌+◌, ◌≤◌, ◌<◌, ◌≡◌, refl, ap, ◌∙◌, true, false, ◌||◌, some, List,
  [], ◌∷◌, ◌++◌, length, take, drop, replicate, get_elem?-some, set, length-set, length-take,
  length-drop, length-replicate, ltb, ◌==◌, ◌>>=◌, arith, inl, inr, Bool-cases,
}
use scpxy.Base.LittleEndian.{le_value}
use scpxy.Base.Slice.{read, write, read-some, put-some, length-write}
use scpxy.Wire.{Delivery, merge_header_size, channeled_header_size}
use scpxy.Packet.{
  Packet, packet, size, property, channel_id, set_channel_id, new_packet, set_property,
  property_header_size, prop_channeled, prop_reliable_merged,
}
use scpxy.Channel.{Effect, add_reliable, send_user_data, deliver, enqueue_channel}
use scpxy.Channel.Receive.{inner_packet, split_merged, process_incoming}

-- What the peer is given to deliver, of the channel's calls.
unfoldable pub deliveries : List Effect → List Effect
deliveries [] = []
deliveries (add_reliable d p ∷ es) = add_reliable d p ∷ deliveries es
deliveries (deliver p d channel offset ∷ es) = deliver p d channel offset ∷ deliveries es
deliveries (_ ∷ es) = deliveries es

pub deliveries-append :
    (es fs : List Effect) → deliveries (es ++ fs) ≡ deliveries es ++ deliveries fs
unfolding deliveries
deliveries-append [] fs = refl
deliveries-append (add_reliable d p ∷ es) fs = ap (◌∷◌ (add_reliable d p)) (deliveries-append es fs)
deliveries-append (deliver p d c o ∷ es) fs = ap (◌∷◌ (deliver p d c o)) (deliveries-append es fs)
deliveries-append (send_user_data p ∷ es) fs = deliveries-append es fs
deliveries-append (enqueue_channel ∷ es) fs = deliveries-append es fs

-- A packet of a channel's header and `n` bytes.
new_packet-some : (n : ℕ) → (q : Packet) × (new_packet prop_channeled n ≡ some q) × (size q ≡ 4 + n)
unfolding new_packet set_property property_header_size
new_packet-some n =
    let zeros = replicate (4 + n) 0 in
    let l = length-replicate (4 + n) 0 in
    let (b, first) = get_elem?-some zeros 0 (omega (arith, l)) in
    (
      packet (set zeros 0 (bit_or (bit_and b 0xe0) prop_channeled)),
      rw first refl,
      length-set zeros 0 (bit_or (bit_and b 0xe0) prop_channeled) ∙ l,
    )

inner_packet-some :
    (p : Packet) (at n : ℕ)
    → 4 ≤ size p
    → at + n ≤ size p
    → (q : Packet) × (inner_packet p at n ≡ some q)
unfolding inner_packet channel_id set_channel_id
inner_packet-some p at n h room =
    let (fresh, made, l) = new_packet-some n in
    let (channel, found) = get_elem?-some p.bytes 3 (omega arith) in
    let chosen = take n (drop at p.bytes) in
    let sized : length chosen ≡ n =
      omega (arith, length-take n (drop at p.bytes), length-drop at p.bytes) in
    let named = write fresh.bytes 3 (channel ∷ []) in
    (
      packet (write named 4 chosen),
      rw
          (
            made,
            found,
            put-some fresh.bytes 3 (channel ∷ []) (omega (arith, l)),
            put-some named 4 chosen
                (omega (arith, sized, l, length-write fresh.bytes 3 (channel ∷ []))),
          )
          refl,
    )

-- The loop over the messages returns when its fuel covers the bytes that are left, and all that it
-- calls are deliveries.
split_next :
    (fuel : ℕ) (d : Delivery) (p : Packet) (at : ℕ) (bs : List ℕ)
    → ltb (size p) (at + merge_header_size) ≡ false
    → read 2 p.bytes at ≡ some bs
    → split_merged (suc fuel) d p at
      ≡ elim (le_value bs == 0 || ltb (size p) (at + merge_header_size + le_value bs)) [
        | true ↦ some []
        | false ↦ inner_packet p (at + merge_header_size) (le_value bs) >>= λ inner.
            split_merged fuel d p (at + merge_header_size + le_value bs) >>= λ more.
            some (add_reliable d inner ∷ more)
      ]
unfolding split_merged
split_next fuel d p at bs more found = rw (more, split_merged, found) refl

pub split_merged-some :
    (fuel : ℕ) (d : Delivery) (p : Packet) (at : ℕ)
    → 4 ≤ size p
    → at ≤ size p
    → size p < fuel + at
    → (es : List Effect) × (split_merged fuel d p at ≡ some es) × (deliveries es ≡ es)
unfolding deliveries split_merged
split_merged-some zero d p at h room enough = absurd (omega arith)
split_merged-some (suc fuel) d p at h room enough =
    elim (Bool-cases (ltb (size p) (at + merge_header_size))) [
      | inl last ↦ ([], rw (last, split_merged) refl, refl)
      | inr more ↦
          let (bs, found, two) = read-some 2 p.bytes at (ground arith) in
          elim (Bool-cases
            (le_value bs == 0 || ltb (size p) (at + merge_header_size + le_value bs))) [
              | inl corrupt ↦ ([], split_next fuel d p at bs more found ∙ (rw corrupt refl), refl)
              | inr fits ↦
                  let n = le_value bs in
                  let (inner, made) =
                    inner_packet-some p (at + merge_header_size) n h (ground arith) in
                  let (es, rest, all) =
                    split_merged-some fuel d p (at + merge_header_size + n) h (ground arith)
                      (ground arith) in
                  (
                    add_reliable d inner ∷ es,
                    split_next fuel d p at bs more found ∙ (rw (fits, made, rest) refl),
                    ap (◌∷◌ (add_reliable d inner)) all,
                  )
            ]
    ]

pub process_incoming-some :
    (d : Delivery) (p : Packet)
    → 4 ≤ size p
    → (es : List Effect) × (process_incoming d p ≡ some es) × (deliveries es ≡ es)
unfolding process_incoming property deliveries
process_incoming-some d p h =
    let (b, first) = get_elem?-some p.bytes 0 (omega arith) in
    elim (Bool-cases (bit_and b 0x1f == prop_reliable_merged)) [
      | inl merged ↦
          let (es, split_all, all) =
            split_merged-some (size p) d p channeled_header_size h h (omega arith) in
          (es, rw (first, merged) split_all, all)
      | inr plain ↦ (add_reliable d p ∷ [], rw (first, plain) refl, refl)
    ]
