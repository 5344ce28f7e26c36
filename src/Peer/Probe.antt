-- ===== src/Peer/Probe.antt =====
-- The discovery of peer.go's MTU between two peers: a probe, its answer, and what the answer changes.
use scpxy.Base.{
  ℕ, zero, suc, ◌+◌, ◌-◌, ◌^◌, ◌≤◌, ◌<◌, ◌≡◌, refl, ap, ◌∙◌, false, some, List, [], ◌∷◌, length,
  get_elem?, set, replicate, length-set, length-replicate, get_elem?-set_self, ◌>>=◌, arith,
}
use scpxy.Base.LittleEndian.{le_bytes, le_value}
use scpxy.Base.Slice.{
  write, put-some, length-write, read-write_self, read-write_below, read-write_above,
  get_elem?-write_below,
}
use scpxy.Wire.{possible_mtu, max_packet_size}
use scpxy.Packet.{
  Packet, packet, size, property, set_property, new_raw_packet, prop_mtu_check, prop_mtu_ok,
}
use scpxy.Peer.{Mtu, send_raw}
use scpxy.Peer.Connect.{uint_at}
use scpxy.Peer.Discovery.{mtu_probe, process_mtu_packet, raise_mtu}

first_zero : (n : ℕ) → 0 < n → get_elem? (replicate {A = ℕ} n 0) 0 ≡ some 0
first_zero zero h = elim h [ ]
first_zero (suc n) h = refl

value_4 : (v : ℕ) → v < 2 ^ 32 → le_value (le_bytes 4 v) ≡ v
value_4 v h = omega arith

-- A packet of a size, of which both its ends tell, with a kind in its first byte.
pub record Tells (n kind : ℕ) (p : Packet) : Type 0 where
  pub size_is : size p ≡ n
  pub first_is : get_elem? p.bytes 0 ≡ some kind
  pub front_is : uint_at p 4 1 ≡ some n
  pub back_is : uint_at p 4 (n - 4) ≡ some n

module _ (n : ℕ) (large : 1024 ≤ n) (small : n ≤ max_packet_size) where
  abbrev pub probe_bytes : List ℕ
  probe_bytes = write (write (set (replicate n 0) 0 9) 1 (le_bytes 4 n)) (n - 4) (le_bytes 4 n)

  first_set : get_elem? {A = ℕ} (set (replicate n 0) 0 9) 0 ≡ some 9
  first_set = get_elem?-set_self (replicate n 0) 0 9 (omega (arith, length-replicate {A = ℕ} n 0))

  length-set-replicate : length (set (replicate {A = ℕ} n 0) 0 9) ≡ n
  length-set-replicate = length-set (replicate n 0) 0 9 ∙ length-replicate n 0

  pub mtu_probe-bytes : mtu_probe n ≡ some (packet probe_bytes)
  unfolding mtu_probe new_raw_packet set_property
  mtu_probe-bytes =
      let base : List ℕ = set (replicate n 0) 0 9 in
      let front : List ℕ = write base 1 (le_bytes 4 n) in
      rw
        (
          first_zero n (omega arith),
          put-some base 1 (le_bytes 4 n) (omega (arith, length-set-replicate)),
          put-some front (n - 4) (le_bytes 4 n)
              (omega (arith, length-set-replicate, length-write base 1 (le_bytes 4 n))),
        )
        refl

  pub probe-Tells : Tells n prop_mtu_check (packet probe_bytes)
  probe-Tells =
      let base : List ℕ = set (replicate n 0) 0 9 in
      let len : List ℕ = le_bytes 4 n in
      let front : List ℕ = write base 1 len in
      let front_length : length front ≡ n = length-write base 1 len ∙ length-set-replicate in
      let value = value_4 n (omega arith) in
      record {
        size_is = length-write front (n - 4) len ∙ front_length;
        first_is =
            get_elem?-write_below front (n - 4) len 0 (omega arith)
            ∙ get_elem?-write_below base 1 len 0 (omega arith)
            ∙ first_set;
        front_is =
            rw
              (
                read-write_below 4 front (n - 4) len 1 (omega arith),
                read-write_self base 1 len (omega (arith, length-set-replicate)),
              )
              (ap some value);
        back_is =
            rw (read-write_self front (n - 4) len (omega (arith, front_length))) (ap some value);
      }

  -- The answer has the bytes of the probe, but for its kind.
  pub answer-Tells :
      (p : Packet)
      → Tells n prop_mtu_check p
      → (q : Packet) × (set_property p prop_mtu_ok ≡ some q) × Tells n prop_mtu_ok q
  unfolding set_property write
  answer-Tells p t = (
    packet (set p.bytes 0 10),
    rw t.first_is refl,
    record {
      size_is = length-set p.bytes 0 10 ∙ t.size_is;
      first_is = get_elem?-set_self p.bytes 0 10 (omega (arith, t.size_is));
      front_is = rw (read-write_above 4 p.bytes 0 (10 ∷ []) 1 (omega arith)) t.front_is;
      back_is = rw (read-write_above 4 p.bytes 0 (10 ∷ []) (n - 4) (omega arith)) t.back_is;
    },
  )

-- The table's entries, which grow.
pub table_bounds :
    (i v : ℕ) → get_elem? possible_mtu i ≡ some v → (1024 ≤ v) × (v ≤ max_packet_size) × (i < 6)
table_bounds zero v h = ground arith
table_bounds (suc zero) v h = ground arith
table_bounds (suc (suc zero)) v h = ground arith
table_bounds (suc (suc (suc zero))) v h = ground arith
table_bounds (suc (suc (suc (suc zero)))) v h = ground arith
table_bounds (suc (suc (suc (suc (suc zero))))) v h = ground arith
table_bounds (suc (suc (suc (suc (suc (suc i)))))) v h = absurd (cc h)

pub table_grows :
    (i v w : ℕ)
    → get_elem? possible_mtu i ≡ some v
    → get_elem? possible_mtu (i + 1) ≡ some w
    → v < w
table_grows zero v w h k = ground arith
table_grows (suc zero) v w h k = ground arith
table_grows (suc (suc zero)) v w h k = ground arith
table_grows (suc (suc (suc zero))) v w h k = ground arith
table_grows (suc (suc (suc (suc zero)))) v w h k = ground arith
table_grows (suc (suc (suc (suc (suc i))))) v w h k =
    absurd (omega (arith, table_bounds (suc (suc (suc (suc (suc i)))) + 1) w k))

-- The MTU is the table's at its index.
abbrev pub IsMtu : Mtu → Type 0
IsMtu m = get_elem? possible_mtu m.mtu_idx ≡ some m.mtu

-- What a peer does with a packet of a size that both its ends tell of.
pub process_ok :
    (m : Mtu) (n : ℕ) (p : Packet)
    → 1024 ≤ n
    → n ≤ max_packet_size
    → Tells n prop_mtu_ok p
    → process_mtu_packet false m p ≡ (raise_mtu m n >>= λ m'. some (m', []))
unfolding process_mtu_packet property
process_ok m n p large small t = rw (t.size_is, t.front_is, t.back_is, t.first_is) (ground arith)

pub process_check :
    (m : Mtu) (n : ℕ) (p q : Packet)
    → 1024 ≤ n
    → n ≤ max_packet_size
    → Tells n prop_mtu_check p
    → set_property p prop_mtu_ok ≡ some q
    → process_mtu_packet false m p ≡ some (record m { mtu_attempts = 0 }, send_raw q.bytes ∷ [])
unfolding process_mtu_packet property
process_check m n p q large small t made =
    rw (t.size_is, t.front_is, t.back_is, t.first_is) (ground (arith, made))
