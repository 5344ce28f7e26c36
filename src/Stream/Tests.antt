-- ===== src/Stream/Tests.antt =====
-- Runs of internal/litenetlib/data.go.
use scpxy.Base.{ℕ, ◌≡◌, refl, true, List, [], ◌∷◌, arith}
use scpxy.Stream.{
  Writer, err, new_writer, new_reader, put_byte, put_bool, put_uint16, put_int32, put_int64,
  put_bytes_with_length, put_string, put_raw, read_byte, read_bool, read_uint16, read_int32,
  read_int64, read_take, read_bytes_with_length, read_string, remaining, truncated,
}
use scpxy.Stream.RoundTrip.{Reads, kept_string, read-put}

abbrev text : List ℕ
text = b'h' ∷ b'i' ∷ []

written : put_string new_writer text ≡ record { buf = 3 ∷ 0 ∷ text }
unfolding put_string put_uint16 put_raw new_writer
written = refl

-- A text that ends early, and a size that no text has.
cut : read_string (new_reader (3 ∷ 0 ∷ b'h' ∷ [])) ≡ err truncated
unfolding read_string read_uint16 read_take remaining new_reader
cut = refl

abbrev first : Writer
first = record { buf = 9 ∷ [] }

read-put_example :
    Reads first (put_byte first 200) read_byte 200
    × Reads first (put_bool first true) read_bool true
    × Reads first (put_uint16 first 1000) read_uint16 1000
    × Reads first (put_int32 first 70000) read_int32 70000
    × Reads first (put_int64 first 5000000000) read_int64 5000000000
    × Reads first (put_bytes_with_length first text) read_bytes_with_length text
    × Reads first (put_string first text) read_string (kept_string text)
read-put_example =
    read-put first 200 true 1000 70000 5000000000 text text (omega arith) (omega arith)
      (omega arith) (omega arith)
