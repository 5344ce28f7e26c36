-- ===== src/Peer/Unpack.antt =====
-- The loop of peer.go over a merged packet finds the packets that were merged.
use scpxy.Base.{
  ℕ, zero, suc, ◌+◌, ◌-◌, ◌<◌, ◌≡◌, refl, ◌∙◌, true, false, some, List, [], ◌∷◌, ◌++◌, append_assoc,
  length, get_elem?, All, length-append, take-append_self, drop-append_self, ltb, le→ltb, lt→ltb,
  le→leb, ◌>>=◌, arith,
}
use scpxy.Base.LittleEndian.{le_bytes, le_value}
use scpxy.Base.Slice.{read}
use scpxy.Packet.{Packet, packet, size, verify}
use scpxy.Packet.Words.{le_value-le_bytes_2}
use scpxy.Peer.{slice}
use scpxy.Peer.Merge.{merged_parts}

unfoldable pub encode : List Packet → List ℕ
encode [] = []
encode (p ∷ ps) = le_bytes 2 (size p) ++ (p.bytes ++ encode ps)

-- A packet that can be one of a merged packet.
abbrev pub IsPiece : Packet → Type 0
IsPiece p = (verify p ≡ true) × (size p < 65536)

-- Bytes in the middle of a slice.
pub slice-append :
    (pre mid post : List ℕ)
    → slice (pre ++ (mid ++ post)) (length pre) (length pre + length mid) ≡ some mid
slice-append pre mid post =
    let short : length pre + length mid - length pre ≡ length mid = omega arith in
    rw
      (
        le→leb (length pre) (length pre + length mid) (omega arith),
        le→leb (length pre + length mid) (length (pre ++ (mid ++ post)))
            (omega (arith, length-append pre (mid ++ post), length-append mid post)),
        short,
        drop-append_self pre (mid ++ post),
        take-append_self mid post,
      )
      refl

get_elem?-append : (pre post : List ℕ) (b : ℕ) → get_elem? (pre ++ (b ∷ post)) (length pre) ≡ some b
get_elem?-append [] post b = refl
get_elem?-append (x ∷ pre) post b = get_elem?-append pre post b

pub read-append :
    (pre mid post : List ℕ) → read (length mid) (pre ++ (mid ++ post)) (length pre) ≡ some mid
unfolding read
read-append pre [] post = refl
read-append pre (b ∷ mid) post =
    let next : length pre + 1 ≡ length (pre ++ (b ∷ [])) =
      omega (arith, length-append pre (b ∷ [])) in
    rw
      (
        get_elem?-append pre (mid ++ post) b,
        next,
        ← append_assoc pre (b ∷ []) (mid ++ post),
        read-append (pre ++ (b ∷ [])) mid post,
      )
      refl

merged_next :
    (fuel : ℕ) (p : Packet) (pos : ℕ) (bs inner : List ℕ) (rest : List Packet)
    → ltb (size p) (pos + 2) ≡ false
    → read 2 p.bytes pos ≡ some bs
    → ltb (size p) (pos + 2 + le_value bs) ≡ false
    → slice p.bytes (pos + 2) (pos + 2 + le_value bs) ≡ some inner
    → verify (packet inner) ≡ true
    → merged_parts fuel p (pos + 2 + le_value bs) ≡ some rest
    → merged_parts (suc fuel) p pos ≡ some (packet inner ∷ rest)
unfolding merged_parts
merged_next fuel p pos bs inner rest more found fits taken valid tail =
    rw (more, merged_parts, found, ◌>>=◌, fits, taken, ◌>>=◌, valid, tail) refl

pub merged_parts-encode :
    (fuel : ℕ) (pre : List ℕ) (ps : List Packet)
    → All IsPiece ps
    → length (encode ps) < fuel
    → merged_parts fuel (packet (pre ++ encode ps)) (length pre) ≡ some ps
unfolding merged_parts encode
merged_parts-encode zero pre ps h enough = absurd (omega arith)
merged_parts-encode (suc fuel) pre [] h enough =
    rw (lt→ltb (length (pre ++ [])) (length pre + 2) (omega (arith, length-append pre []))) refl
merged_parts-encode (suc fuel) pre (p ∷ ps) h enough =
    let n = size p in
    let len = le_bytes 2 n in
    let tail = p.bytes ++ encode ps in
    let whole = pre ++ (len ++ tail) in
    let value : le_value len ≡ n = le_value-le_bytes_2 n h.0.1 in
    let sized : length whole ≡ length pre + 2 + n + length (encode ps) =
      omega (arith, length-append pre (len ++ tail), length-append p.bytes (encode ps)) in
    let pre₁ = pre ++ len in
    let pre₂ = pre₁ ++ p.bytes in
    let at₁ : length pre₁ ≡ length pre + 2 = length-append pre len in
    let at₂ : length pre₂ ≡ length pre + 2 + n = omega (arith, length-append pre₁ p.bytes, at₁) in
    let grouped₁ : pre₁ ++ tail ≡ whole = append_assoc pre len tail in
    let grouped₂ : pre₂ ++ encode ps ≡ whole = append_assoc pre₁ p.bytes (encode ps) ∙ grouped₁ in
    let taken : slice whole (length pre + 2) (length pre + 2 + n) ≡ some p.bytes =
      rw (← grouped₁, ← at₁) (slice-append pre₁ p.bytes (encode ps)) in
    let ih : merged_parts fuel (packet whole) (length pre + 2 + n) ≡ some ps =
      rw (← grouped₂, ← at₂)
        (merged_parts-encode fuel pre₂ ps h.1 (omega (arith, length-append p.bytes (encode ps)))) in
    merged_next fuel (packet whole) (length pre) len p.bytes ps
      (le→ltb (length whole) (length pre + 2) (omega (arith, sized))) (read-append pre len tail)
      (rw value (le→ltb (length whole) (length pre + 2 + n) (omega (arith, sized))))
      (rw value taken) h.0.0 (rw value ih)
