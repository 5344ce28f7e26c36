-- ===== src/Peer/Ends.antt =====
-- `processPacket` of peer.go ends: a packet within a merged packet is shorter than it.
use scpxy.Base.{
  ℕ, zero, suc, ◌+◌, ◌-◌, ◌*◌, ◌≤◌, ◌<◌, ◌≡◌, refl, not, Option, some, List, [], ◌∷◌, length,
  get_elem?, bit_and, length-take, length-drop, take, drop, All, ltb, lt→ltb, ◌⊎◌, ◌==◌, ◌>>=◌,
  arith, inl, inr, Bool-cases, Option-cases,
}
use scpxy.Base.LittleEndian.{le_value}
use scpxy.Base.Slice.{read-some}
use scpxy.Wire.{header_size}
use scpxy.Packet.{
  Packet, packet, size, property, connection_number, verify, prop_merged, prop_shutdown_ok,
}
use scpxy.Peer.{Peer, Call, slice}
use scpxy.Peer.Merge.{merged_parts}
use scpxy.Peer.Process.{Now, process_packet, each_part, may_receive}

-- The loop returns, and what it finds is shorter than the packet.
record Splits (fuel : ℕ) (p : Packet) (pos : ℕ) : Type 0 where
  parts : List Packet
  returns : merged_parts fuel p pos ≡ some parts
  shorter : All (λ q. size q + (pos + 2) ≤ size p) parts

weaken-All :
    (p : Packet) (pos pos' : ℕ) (qs : List Packet)
    → pos ≤ pos'
    → All (λ q. size q + (pos' + 2) ≤ size p) qs
    → All (λ q. size q + (pos + 2) ≤ size p) qs
weaken-All p pos pos' [] h all = tt
weaken-All p pos pos' (q ∷ qs) h (one, rest) = (omega arith, weaken-All p pos pos' qs h rest)

slice-size :
    (bs : List ℕ) (from n : ℕ)
    → from + n ≤ length bs
    → (inner : List ℕ) × (slice bs from (from + n) ≡ some inner) × (length inner ≡ n)
slice-size bs from n h = (
  take (from + n - from) (drop from bs),
  ground arith,
  omega (arith, length-take (from + n - from) (drop from bs), length-drop from bs),
)

step-Splits :
    (fuel : ℕ) (p : Packet) (pos : ℕ)
    → (size p < pos + 2) ⊎ ((pos' : ℕ) → pos + 2 ≤ pos' → Splits fuel p pos')
    → Splits (suc fuel) p pos
unfolding merged_parts
step-Splits fuel p pos (inl ends) = record {
  parts = [];
  returns = rw (lt→ltb (size p) (pos + 2) ends, merged_parts) refl;
  shorter = tt;
}
step-Splits fuel p pos (inr rest) = elim (Bool-cases (ltb (size p) (pos + 2))) [
  | inl ends ↦ record { parts = []; returns = rw (merged_parts, ends) refl; shorter = tt }
  | inr more ↦
      let (bs, b, two) = read-some 2 p.bytes pos (ground (arith, more)) in
      elim (Bool-cases (ltb (size p) (pos + 2 + le_value bs))) [
        | inl short ↦ record {
          parts = [];
          returns = rw (merged_parts, more, b, ◌>>=◌, short) refl;
          shorter = tt;
        }
        | inr fits ↦
            let (inner, cut, len) =
              slice-size p.bytes (pos + 2) (le_value bs) (ground (arith, fits)) in
            elim (Bool-cases (verify (packet inner))) [
              | inr bad ↦ record {
                parts = [];
                returns = rw (merged_parts, more, b, ◌>>=◌, fits, cut, ◌>>=◌, bad) refl;
                shorter = tt;
              }
              | inl good ↦
                  let r = rest (pos + 2 + le_value bs) (omega arith) in
                  record {
                    parts = packet inner ∷ r.parts;
                    returns =
                        rw (merged_parts, more, b, ◌>>=◌, fits, cut, ◌>>=◌, good, r.returns) refl;
                    shorter = (
                      ground (arith, len, fits),
                      weaken-All p pos (pos + 2 + le_value bs) r.parts (omega arith) r.shorter,
                    );
                  }
            ]
      ]
]

merged_parts-Splits :
    (fuel : ℕ) (p : Packet) (pos : ℕ) → size p < pos + 2 + 2 * fuel → Splits (suc fuel) p pos
merged_parts-Splits zero p pos h = step-Splits zero p pos (inl (omega arith))
merged_parts-Splits (suc fuel) p pos h =
    step-Splits (suc fuel) p pos (inr (λ pos' le. merged_parts-Splits fuel p pos' (omega arith)))

-- Two ways to treat the parts that agree on each of them.
each_part-same :
    (f g : Peer → Packet → Option (Peer × List Call)) (p : Peer) (qs : List Packet)
    → All (λ q. (p : Peer) → f p q ≡ g p q) qs
    → each_part f p qs ≡ each_part g p qs
unfolding each_part
each_part-same f g p [] all = refl
each_part-same f g p (q ∷ qs) (one, rest) = elim (Option-cases (g p q)) [
  | inl e ↦ rw (one p, e) refl
  | inr (r, e) ↦ rw (one p, e, ◌>>=◌, each_part-same f g r.0 qs rest) refl
]

abbrev Same : ℕ → ℕ → Now → Packet → Type 0
Same n m t q = (p : Peer) → process_packet n t p q ≡ process_packet m t p q

-- The parts of a packet with a first byte.
parts-Splits :
    (pkt : Packet) (kind : ℕ) → property pkt ≡ some kind → Splits (size pkt) pkt header_size
unfolding property
parts-Splits pkt kind h =
    let some_bytes : 0 < size pkt = first_byte pkt.bytes h in
    let e : size pkt ≡ suc (size pkt - 1) = omega arith in
    rw e (merged_parts-Splits (size pkt - 1) pkt header_size (omega arith))
  where
    first_byte :
        (bs : List ℕ) → (get_elem? bs 0 >>= λ b. some (bit_and b 0x1f)) ≡ some kind → 0 < length bs
    first_byte [] h' = absurd (cc h')
    first_byte (b ∷ bs) h' = omega arith

All-smaller :
    (n m : ℕ) (t : Now) (pkt : Packet) (qs : List Packet)
    → All (λ q. size q + (header_size + 2) ≤ size pkt) qs
    → ((q : Packet) → size q < size pkt → Same n m t q)
    → All (λ q. Same n m t q) qs
All-smaller n m t pkt [] all inner = tt
All-smaller n m t pkt (q ∷ qs) (one, rest) inner =
    (inner q (omega arith), All-smaller n m t pkt qs rest inner)

step-Same :
    (n m : ℕ) (t : Now) (pkt : Packet)
    → ((q : Packet) → size q < size pkt → Same n m t q)
    → Same (suc n) (suc m) t pkt
unfolding process_packet
step-Same n m t pkt inner p = elim (Bool-cases (not (may_receive p.state))) [
  | inl off ↦ rw (process_packet, off) refl
  | inr on ↦ elim (Option-cases (property pkt)) [
    | inl e ↦ rw (process_packet, on, e) refl
    | inr (kind, e) ↦ elim (Option-cases (connection_number pkt)) [
      | inl f ↦ rw (process_packet, on, e, ◌>>=◌, f) refl
      | inr (num, f) ↦ elim (Bool-cases (kind == prop_shutdown_ok)) [
        | inl g ↦ rw (process_packet, on, e, ◌>>=◌, f, ◌>>=◌, g) refl
        | inr g ↦ elim (Bool-cases (not (num == p.connect_num))) [
          | inl h ↦ rw (process_packet, on, e, ◌>>=◌, f, ◌>>=◌, g, h) refl
          | inr h ↦ elim (Bool-cases (kind == prop_merged)) [
            | inr k ↦ rw (process_packet, on, e, ◌>>=◌, f, ◌>>=◌, g, h, k) refl
            | inl k ↦
                let s = parts-Splits pkt kind e in
                rw (process_packet, on, e, ◌>>=◌, f, ◌>>=◌, g, h, k, s.returns, ◌>>=◌)
                  (each_part-same (process_packet n t) (process_packet m t)
                    (record p { since_last_packet = 0 }) s.parts
                    (All-smaller n m t pkt s.parts s.shorter inner))
          ]
        ]
      ]
    ]
  ]
]

any-Same : (n m : ℕ) (t : Now) (pkt : Packet) → size pkt < n → size pkt < m → Same n m t pkt
any-Same zero m t pkt hn hm = absurd (omega arith)
any-Same (suc n) zero t pkt hn hm = absurd (omega arith)
any-Same (suc n) (suc m) t pkt hn hm =
    step-Same n m t pkt (λ q less. any-Same n m t q (omega arith) (omega arith))

-- What `receive` gives to `processPacket` is enough, whatever the packet and the peer: with more
-- rounds its result is the same. The loop over a merged packet returns, and each packet that it finds is
-- three bytes shorter at least.
pub process_packet-Ends :
    (t : Now) (p : Peer) (pkt : Packet) (n kind : ℕ)
    → size pkt < n
    → property pkt ≡ some kind
    → (process_packet n t p pkt ≡ process_packet (size pkt + 1) t p pkt)
      × (parts : List Packet) × (merged_parts (size pkt) pkt header_size ≡ some parts)
      × All (λ q. size q + 3 ≤ size pkt) parts
process_packet-Ends t p pkt n kind h first =
    let s = parts-Splits pkt kind first in
    (any-Same n (size pkt + 1) t pkt h (omega arith) p, s.parts, s.returns, s.shorter)
