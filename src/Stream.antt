-- ===== src/Stream.antt =====
-- internal/litenetlib/data.go: the writer and the reader of connection data. Text is its bytes; a
-- signed number of w bits is the bit pattern that Go's conversion to the unsigned type gives.
pub mod RoundTrip
pub mod Prefix
mod Tests
use scpxy.Base.{
  ℕ, zero, suc, ◌+◌, ◌-◌, ◌%◌, ◌^◌, ◌<◌, Bool, true, false, not, ◌||◌, List, [], ◌∷◌, ◌++◌, length,
  take, drop, ltb, leb, ◌==◌, if◌then◌else◌,
}
use scpxy.Base.LittleEndian.{le_bytes, le_value}

abbrev pub string_buffer_max_length : ℕ
string_buffer_max_length = 65535

pub record Writer : Type 0 where
  pub buf : List ℕ

unfoldable pub new_writer : Writer
new_writer = record { buf = [] }

-- Also `Bytes` and `Len`: the buffer and its length.
unfoldable pub new_writer_from : List ℕ → Writer
new_writer_from bs = record { buf = bs }

unfoldable pub put_raw : Writer → List ℕ → Writer
put_raw w v = record { buf = w.buf ++ v }

unfoldable pub put_byte : Writer → ℕ → Writer
put_byte w v = record { buf = w.buf ++ (v ∷ []) }

unfoldable pub put_bool : Writer → Bool → Writer
unfolding put_byte
put_bool w v = if v then put_byte w 1 else put_byte w 0

unfoldable pub put_uint16 : Writer → ℕ → Writer
put_uint16 w v = record { buf = w.buf ++ le_bytes 2 v }

unfoldable pub put_int32 : Writer → ℕ → Writer
put_int32 w v = record { buf = w.buf ++ le_bytes 4 v }

unfoldable pub put_int64 : Writer → ℕ → Writer
put_int64 w v = record { buf = w.buf ++ le_bytes 8 v }

-- `int32(len(v))` keeps the low 32 bits.
unfoldable pub put_bytes_with_length : Writer → List ℕ → Writer
unfolding put_int32 put_raw
put_bytes_with_length w v = put_raw (put_int32 w (length v % 2 ^ 32)) v

unfoldable pub put_string : Writer → List ℕ → Writer
unfolding put_uint16 put_raw
put_string w v =
    if length v == 0
    then put_uint16 w 0
    else if leb string_buffer_max_length (length v)
    then put_uint16 w 0
    else put_raw (put_uint16 w (length v + 1)) v

pub data StreamError : Type 0 where
  truncated string_size : StreamError

-- A value or an error, as Go returns the pair of them.
pub data Result {ℓ} (E : Type 0) (A : Type ℓ) : Type ℓ where
  ok : A → Result E A
  err : E → Result E A

infixl 5 ◌>>=◌
abbrev pub ◌>>=◌ {ℓ κ} :
    {E : Type 0} {A : Type ℓ} {B : Type κ} → Result E A → (A → Result E B) → Result E B
ok a >>= f = f a
err e >>= f = err e

pub record Reader : Type 0 where
  pub buf : List ℕ
  pub pos : ℕ

-- A read returns its value and the reader that has moved on, or an error of type `E`.
abbrev pub ReadOr {ℓ} : Type 0 → Type ℓ → Type ℓ
ReadOr E A = Result E (A × Reader)

abbrev pub Read {ℓ} : Type ℓ → Type ℓ
Read A = ReadOr StreamError A

unfoldable pub new_reader : List ℕ → Reader
new_reader bs = record { buf = bs; pos = 0 }

unfoldable pub remaining : Reader → ℕ
remaining r = length r.buf - r.pos

unfoldable pub rest_of : Reader → List ℕ
rest_of r = drop r.pos r.buf

-- `take(n)` for an `n` that is not negative.
unfoldable pub read_take : Reader → ℕ → Read (List ℕ)
unfolding remaining
read_take r n =
    if ltb (remaining r) n
    then err truncated
    else ok (take n (drop r.pos r.buf), record r { pos = r.pos + n })

abbrev first_byte : List ℕ → ℕ
first_byte [] = 0
first_byte (b ∷ bs) = b

-- `b[0]` of a slice that has one byte.
unfoldable pub read_byte : Reader → Read ℕ
unfolding read_take
read_byte r = do (b, r') ← read_take r 1; ok (first_byte b, r')

unfoldable pub read_bool : Reader → Read Bool
unfolding read_byte
read_bool r = do (b, r') ← read_byte r; ok (not (b == 0), r')

unfoldable pub read_uint16 : Reader → Read ℕ
unfolding read_take
read_uint16 r = do (b, r') ← read_take r 2; ok (le_value b, r')

unfoldable pub read_int32 : Reader → Read ℕ
unfolding read_take
read_int32 r = do (b, r') ← read_take r 4; ok (le_value b, r')

unfoldable pub read_int64 : Reader → Read ℕ
unfolding read_take
read_int64 r = do (b, r') ← read_take r 8; ok (le_value b, r')

-- `n < 0` is the sign bit of the pattern; no int32 exceeds `math.MaxInt32`.
abbrev pub sized_bytes : ℕ → Reader → Read (List ℕ)
sized_bytes n r = if leb (2 ^ 31) n then err truncated else read_take r n

unfoldable pub read_bytes_with_length : Reader → Read (List ℕ)
unfolding read_int32
read_bytes_with_length r = do (n, r') ← read_int32 r; sized_bytes n r'

-- What follows the size that was read.
abbrev pub sized_string : ℕ → Reader → Read (List ℕ)
sized_string size r =
    if size == 0
    then ok ([], r)
    else if leb string_buffer_max_length (size - 1)
    then err string_size
    else read_take r (size - 1)

unfoldable pub read_string : Reader → Read (List ℕ)
unfolding read_uint16
read_string r = do (size, r') ← read_uint16 r; sized_string size r'
