-- ===== src/Packet/Header.antt =====
-- The fields of packet.go's first byte are independent: a store to one leaves the others.
use scpxy.Base.{
  ℕ, ◌+◌, ◌*◌, ◌/◌, ◌%◌, ◌<◌, ◌≡◌, refl, Bool, true, Option, some, List, ◌∷◌, bit_and, bit_or,
  arith, leb,
}
use scpxy.Base.Bits.{
  IsByte, and_property, and_flags, and_number, and_rest, and_fragment, or_fragment, or_number,
  or_property,
}
use scpxy.Packet.{
  Packet, packet, property, set_property, connection_number, set_connection_number, is_fragmented,
  mark_fragmented,
}

-- The first byte's three fields, in plain arithmetic.
pub record Fields : Type 0 where
  pub kind : ℕ
  pub number : ℕ
  pub fragmented : Bool

unfoldable pub fields : ℕ → Fields
fields b = record { kind = b % 32; number = b / 32 % 4; fragmented = leb 128 b }

-- What the three getters say of a packet that begins with `b`.
abbrev pub HasFields : Packet → Fields → Type 0
HasFields p f =
    (property p ≡ some f.kind)
    × (connection_number p ≡ some f.number)
    × (is_fragmented p ≡ some f.fragmented)

-- The getters read the first byte's three fields.
pub getters-fields : (b : ℕ) (rest : List ℕ) → IsByte b → HasFields (packet (b ∷ rest)) (fields b)
unfolding property connection_number is_fragmented fields
getters-fields b rest h = ground (arith, and_property b h, and_number b h, and_fragment b h)

stored_property : (b v : ℕ) → IsByte b → v < 32 → bit_or (bit_and b 0xe0) v ≡ b / 32 * 32 + v
stored_property b v h hv = rw (and_flags b h) (or_property b v h hv)

stored_number :
    (b v : ℕ)
    → IsByte b
    → v < 4
    → bit_or (bit_and b 0x9f) (v * 32 % 256) ≡ b / 128 * 128 + b % 32 + v * 32
stored_number b v h hv =
    let e : v * 32 % 256 ≡ v * 32 = omega arith in rw (and_rest b h, e) (or_number b v h hv)

-- What a store to the first byte has to establish: it succeeds, the getters see the new fields, and
-- the other bytes are the old ones.
abbrev pub Stores : List ℕ → Option Packet → Fields → Type 0
Stores rest q f =
    (c : ℕ) × (q ≡ some (packet (c ∷ rest))) × IsByte c × HasFields (packet (c ∷ rest)) f

stores :
    (rest : List ℕ) (q : Option Packet) (f : Fields) (c : ℕ)
    → q ≡ some (packet (c ∷ rest))
    → IsByte c
    → fields c ≡ f
    → Stores rest q f
stores rest q f c e h ef = (c, e, h, rw (← ef) (getters-fields c rest h))

module _ (b : ℕ) (rest : List ℕ) (h : IsByte b) where
  pub set_property-Stores :
      (v : ℕ)
      → v < 32
      → Stores rest (set_property (packet (b ∷ rest)) v) (record (fields b) { kind = v })
  unfolding set_property fields
  set_property-Stores v hv =
      stores rest _ _ (b / 32 * 32 + v) (rw (stored_property b v h hv) refl) (omega arith)
        (ground arith)

  pub set_connection_number-Stores :
      (v : ℕ)
      → v < 4
      → Stores rest (set_connection_number (packet (b ∷ rest)) v) (record (fields b) { number = v })
  unfolding set_connection_number fields
  set_connection_number-Stores v hv =
      stores rest _ _ (b / 128 * 128 + b % 32 + v * 32) (rw (stored_number b v h hv) refl)
        (omega arith) (ground arith)

  pub mark_fragmented-Stores :
      Stores rest (mark_fragmented (packet (b ∷ rest))) (record (fields b) { fragmented = true })
  unfolding mark_fragmented fields
  mark_fragmented-Stores =
      stores rest _ _ (128 + b % 128) (rw (or_fragment b h) refl) (omega arith) (ground arith)

  -- Each of the three setters of the first byte changes its own field and no other, and keeps
  -- the packet's other bytes, for a property below 32 and a connection number below 4.
  pub setters_independent :
      (v n : ℕ)
      → v < 32
      → n < 4
      → Stores rest (set_property (packet (b ∷ rest)) v) (record (fields b) { kind = v })
        × Stores rest
            (set_connection_number (packet (b ∷ rest)) n)
            (record (fields b) { number = n })
        × Stores rest
            (mark_fragmented (packet (b ∷ rest)))
            (record (fields b) { fragmented = true })
  setters_independent v n hv hn =
      (set_property-Stores v hv, set_connection_number-Stores n hn, mark_fragmented-Stores)
