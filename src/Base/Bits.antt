-- ===== src/Base/Bits.antt =====
-- Masks on one byte as arithmetic: each law is a table of at most 256 rows, checked by evaluation.
use Prim.Native.Nat.{ℕ, zero, suc, ◌+◌, ◌*◌, ◌/◌, ◌%◌, ◌<◌, bit_and, bit_or}
use mathlib.Core.Path.{◌≡◌, refl}
use mathlib.Core.Bool.{Bool, true, ◌&&◌}
use mathlib.Core.Logic.{inl, inr}
use native.Mathlib.Omega.{arith}
use scpxy.Base.Tests.{◌==◌, ==_iff, Bool-cases}

abbrev pub IsByte : ℕ → Type 0
IsByte b = b < 256

-- A test holds at every number below a bound, and so at each of them.
unfoldable pub all_below : ℕ → (ℕ → Bool) → Bool
all_below zero test = true
all_below (suc bound) test = all_below bound test && test bound

pub all_below-at :
    (bound : ℕ) (test : ℕ → Bool) (b : ℕ) → all_below bound test ≡ true → b < bound → test b ≡ true
unfolding all_below
all_below-at zero test b t below = absurd (omega arith)
all_below-at (suc bound) test b t below = elim (Bool-cases (b == bound)) [
  | inl top ↦ let same : b ≡ bound = ground arith in rw same (ground arith)
  | inr lower ↦ all_below-at bound test b (ground arith) (ground arith)
]

agree : (f g : ℕ → ℕ) → all_below 256 (λ x. f x == g x) ≡ true → (b : ℕ) → IsByte b → f b ≡ g b
agree f g table b h = (==_iff _ _).0 (all_below-at 256 (λ x. f x == g x) b table h)

-- b & 0x1F: the property of a packet's first byte.
pub and_property : (b : ℕ) → IsByte b → bit_and b 0x1f ≡ b % 32
unfolding all_below
and_property = agree _ _ refl

-- b & 0xE0
pub and_flags : (b : ℕ) → IsByte b → bit_and b 0xe0 ≡ b / 32 * 32
unfolding all_below
and_flags = agree _ _ refl

-- b & 0x60
pub and_number : (b : ℕ) → IsByte b → bit_and b 0x60 ≡ b / 32 % 4 * 32
unfolding all_below
and_number = agree _ _ refl

-- b & 0x9F
pub and_rest : (b : ℕ) → IsByte b → bit_and b 0x9f ≡ b / 128 * 128 + b % 32
unfolding all_below
and_rest = agree _ _ refl

-- b & 0x80
pub and_fragment : (b : ℕ) → IsByte b → bit_and b 0x80 ≡ b / 128 * 128
unfolding all_below
and_fragment = agree _ _ refl

-- b | 0x80
pub or_fragment : (b : ℕ) → IsByte b → bit_or b 0x80 ≡ 128 + b % 128
unfolding all_below
or_fragment = agree _ _ refl

or_number_row : ℕ → Bool
or_number_row b =
    all_below 4 (λ v. bit_or (b / 128 * 128 + b % 32) (v * 32) == b / 128 * 128 + b % 32 + v * 32)

or_number_table : all_below 256 or_number_row ≡ true
unfolding all_below or_number_row
or_number_table = refl

-- A connection number put into the two bits that `b & 0x9F` clears.
pub or_number :
    (b v : ℕ)
    → IsByte b
    → v < 4
    → bit_or (b / 128 * 128 + b % 32) (v * 32) ≡ b / 128 * 128 + b % 32 + v * 32
unfolding or_number_row
or_number b v hb hv =
    (==_iff _ _).0 (all_below-at 4 _ v (all_below-at 256 or_number_row b or_number_table hb) hv)

or_property_row : ℕ → Bool
or_property_row b = all_below 32 (λ v. bit_or (b / 32 * 32) v == b / 32 * 32 + v)

or_property_table : all_below 256 or_property_row ≡ true
unfolding all_below or_property_row
or_property_table = refl

-- A property put into the five bits that `b & 0xE0` clears.
pub or_property : (b v : ℕ) → IsByte b → v < 32 → bit_or (b / 32 * 32) v ≡ b / 32 * 32 + v
unfolding or_property_row
or_property b v hb hv =
    (==_iff _ _).0
      (all_below-at 32 _ v (all_below-at 256 or_property_row b or_property_table hb) hv)
