-- ===== src/Stream/RoundTrip.antt =====
-- What data.go's writer appends, the reader reads back, whatever follows it.
use scpxy.Base.{
  ℕ, zero, suc, ◌+◌, ◌-◌, ◌%◌, ◌^◌, ◌≤◌, ◌<◌, ◌≡◌, refl, ap, ◌∙◌, sym, Bool, true, false, ◌||◌,
  List, [], ◌∷◌, ◌++◌, length, drop, leb, ◌==◌, if◌then◌else◌, arith, length-append, le→ltb,
  Bool-cases, inl, inr, append_assoc, take-append_self, drop-append_self,
}
use scpxy.Base.LittleEndian.{le_bytes, le_value}
use scpxy.Stream.{
  Reader, Read, ReadOr, ok, ◌>>=◌, read_take, remaining, read_byte, read_bool, read_uint16,
  read_int32, read_int64, read_bytes_with_length, read_string, sized_bytes, sized_string, Writer,
  put_byte, put_bool, put_uint16, put_int32, put_int64, put_bytes_with_length, put_string,
  string_buffer_max_length,
}
use scpxy.Stream.Prefix.{bind}

abbrev pub advance : Reader → ℕ → Reader
advance r n = record r { pos = r.pos + n }

-- On an input that goes on with `enc`, the read returns `v` and stops behind `enc`.
pub record Decodes {ℓ} {E : Type 0} {A : Type ℓ} (f : Reader → ReadOr E A) (enc : List ℕ) (v : A)
    : Type ℓ where
  pub run :
      (r : Reader) (xs : List ℕ)
      → drop r.pos r.buf ≡ enc ++ xs
      → f r ≡ ok (v, advance r (length enc))

drop-add : {A : Type 0} (n m : ℕ) (xs : List A) → drop (n + m) xs ≡ drop m (drop n xs)
drop-add zero m xs = let e : 0 + m ≡ m = omega arith in rw e
drop-add (suc n) zero [] = let e : suc n + 0 ≡ suc n = omega arith in rw e
drop-add (suc n) (suc m) [] = let e : suc n + suc m ≡ suc (n + suc m) = omega arith in rw e
drop-add (suc n) m (x ∷ xs) =
    let e : suc n + m ≡ suc (n + m) = omega arith in rw e (drop-add n m xs)

length-drop_le : (p : ℕ) (buf ys : List ℕ) → drop p buf ≡ ys → length ys ≤ length buf - p
length-drop_le zero buf ys e = omega (arith, ap length e)
length-drop_le (suc p) [] ys e = omega (arith, ap length e)
length-drop_le (suc p) (x ∷ buf) ys e = omega (arith, length-drop_le p buf ys e)

module _ {ℓ κ} {E : Type 0} {A : Type ℓ} {B : Type κ} where
  pub bind-Decodes :
      (m : Reader → ReadOr E A) (k : A → Reader → ReadOr E B) (e₁ e₂ : List ℕ) (a : A) (b : B)
      → Decodes m e₁ a
      → Decodes (k a) e₂ b
      → Decodes (bind m k) (e₁ ++ e₂) b
  bind-Decodes m k e₁ e₂ a b hm hk = record {
    run = λ r xs e.
        let p : drop r.pos r.buf ≡ e₁ ++ (e₂ ++ xs) = e ∙ append_assoc e₁ e₂ xs in
        let q : drop (r.pos + length e₁) r.buf ≡ e₂ ++ xs =
          rw (drop-add r.pos (length e₁) r.buf, p) (drop-append_self e₁ (e₂ ++ xs)) in
        let same : advance (advance r (length e₁)) (length e₂) ≡ advance r (length (e₁ ++ e₂)) =
          ground (arith, length-append e₁ e₂) in
        rw (hm.run r (e₂ ++ xs) p)
          (hk.run (advance r (length e₁)) xs q ∙ ap (λ (t : Reader). ok (b, t)) same);
  }

pub ok-Decodes {ℓ} : {E : Type 0} {A : Type ℓ} (a : A) → Decodes {E = E} (λ r. ok (a, r)) [] a
ok-Decodes a = record { run = λ r xs e. ground arith }

pub read_take-Decodes : (v : List ℕ) → Decodes (λ r. read_take r (length v)) v v
unfolding read_take remaining
read_take-Decodes v = record {
  run = λ r xs e.
      let l : length v ≤ length r.buf - r.pos =
        omega (arith, length-drop_le r.pos r.buf (v ++ xs) e, length-append v xs) in
      rw (le→ltb (length r.buf - r.pos) (length v) l, e, take-append_self v xs) refl;
}

-- A read that returns a function of the bytes that it takes.
mapped-Decodes {ℓ} :
    {A : Type ℓ} (g : List ℕ → A) (v : List ℕ) (n : ℕ)
    → length v ≡ n
    → Decodes (λ r. read_take r n >>= λ (b, r'). ok (g b, r')) v (g v)
mapped-Decodes g v n l = record { run = λ r xs e. rw (← l, (read_take-Decodes v).run r xs e) refl }

pub read_byte-Decodes : (b : ℕ) → Decodes read_byte (b ∷ []) b
unfolding read_byte
read_byte-Decodes b = mapped-Decodes _ (b ∷ []) 1 refl

pub bool_byte : Bool → ℕ
bool_byte v = if v then 1 else 0

pub read_bool-Decodes : (v : Bool) → Decodes read_bool (bool_byte v ∷ []) v
unfolding read_bool bool_byte
read_bool-Decodes true = record { run = λ r xs e. rw ((read_byte-Decodes 1).run r xs e) refl }
read_bool-Decodes false = record { run = λ r xs e. rw ((read_byte-Decodes 0).run r xs e) refl }

pub read_uint16-Decodes : (v : ℕ) → v < 2 ^ 16 → Decodes read_uint16 (le_bytes 2 v) v
unfolding read_uint16
read_uint16-Decodes v h = record {
  run = λ r xs e.
      let back : le_value (le_bytes 2 v) ≡ v = omega arith in
      (mapped-Decodes le_value (le_bytes 2 v) 2 refl).run r xs e
      ∙ ap (λ w. ok (w, advance r 2)) back;
}

pub read_int32-Decodes : (v : ℕ) → v < 2 ^ 32 → Decodes read_int32 (le_bytes 4 v) v
unfolding read_int32
read_int32-Decodes v h = record {
  run = λ r xs e.
      let back : le_value (le_bytes 4 v) ≡ v = omega arith in
      (mapped-Decodes le_value (le_bytes 4 v) 4 refl).run r xs e
      ∙ ap (λ w. ok (w, advance r 4)) back;
}

pub read_int64-Decodes : (v : ℕ) → v < 2 ^ 64 → Decodes read_int64 (le_bytes 8 v) v
unfolding read_int64
read_int64-Decodes v h = record {
  run = λ r xs e.
      let back : le_value (le_bytes 8 v) ≡ v = omega arith in
      (mapped-Decodes le_value (le_bytes 8 v) 8 refl).run r xs e
      ∙ ap (λ w. ok (w, advance r 8)) back;
}

-- The bytes that `PutBytesWithLength` and `PutString` append.
pub length_prefixed : List ℕ → List ℕ
length_prefixed v = le_bytes 4 (length v % 2 ^ 32) ++ v

unfoldable pub string_bytes : List ℕ → List ℕ
string_bytes v =
    if length v == 0 || leb string_buffer_max_length (length v)
    then le_bytes 2 0
    else le_bytes 2 (length v + 1) ++ v

sized_bytes-Decodes : (v : List ℕ) → length v < 2 ^ 31 → Decodes (sized_bytes (length v)) v v
sized_bytes-Decodes v h = record {
  run = λ r xs e.
      let t : leb (2 ^ 31) (length v) ≡ false = ground arith in
      rw t ((read_take-Decodes v).run r xs e);
}

pub read_bytes-Decodes :
    (v : List ℕ) → length v < 2 ^ 31 → Decodes read_bytes_with_length (length_prefixed v) v
unfolding read_bytes_with_length length_prefixed
read_bytes-Decodes v h =
    let e : length v % 2 ^ 32 ≡ length v = omega arith in
    rw e (
      bind-Decodes read_int32 sized_bytes (le_bytes 4 (length v)) v (length v) v
        (read_int32-Decodes (length v) (omega arith)) (sized_bytes-Decodes v h))

-- `PutString` of a text of 65535 bytes or more writes the empty text.
unfoldable pub kept_string : List ℕ → List ℕ
kept_string v = if leb string_buffer_max_length (length v) then [] else v

sized_string-Decodes :
    (v : List ℕ)
    → 0 < length v
    → length v < string_buffer_max_length
    → Decodes (sized_string (length v + 1)) v v
sized_string-Decodes v h l = record {
  run = λ r xs e.
      let n : length v + 1 - 1 ≡ length v = omega arith in
      let t₁ : (length v + 1 == 0) ≡ false = ground arith in
      let t₂ : leb string_buffer_max_length (length v) ≡ false = ground arith in
      rw (t₁, n, t₂) ((read_take-Decodes v).run r xs e);
}

read_string-zero : Decodes read_string (le_bytes 2 0) []
unfolding read_string
read_string-zero =
    bind-Decodes read_uint16 sized_string (le_bytes 2 0) [] 0 []
      (read_uint16-Decodes 0 (omega arith)) (ok-Decodes [])

read_string-full :
    (v : List ℕ)
    → 0 < length v
    → length v < string_buffer_max_length
    → Decodes read_string (le_bytes 2 (length v + 1) ++ v) v
unfolding read_string
read_string-full v h l =
    bind-Decodes read_uint16 sized_string (le_bytes 2 (length v + 1)) v (length v + 1) v
      (read_uint16-Decodes (length v + 1) (omega arith)) (sized_string-Decodes v h l)

empty_of_length : (v : List ℕ) → length v ≡ 0 → v ≡ []
empty_of_length [] e = refl
empty_of_length (x ∷ v) e = absurd (omega arith)

pub read_string-Decodes : (v : List ℕ) → Decodes read_string (string_bytes v) (kept_string v)
unfolding string_bytes kept_string
read_string-Decodes v = elim (Bool-cases (leb string_buffer_max_length (length v))) [
  | inl long ↦ let t : (length v == 0) ≡ false = ground arith in rw (t, long) read_string-zero
  | inr short ↦ elim (Bool-cases (length v == 0)) [
    | inl none_left ↦ let e : v ≡ [] = empty_of_length v (ground arith) in rw e read_string-zero
    | inr more ↦ rw (more, short) (read_string-full v (ground arith) (ground arith))
  ]
]

-- From where the writer `w` stood, whatever was written after `w'`, `f` reads `v` and stops where
-- `w'` stood.
abbrev pub Reads {ℓ} : {A : Type ℓ} → Writer → Writer → (Reader → Read A) → A → Type ℓ
Reads w w' f v =
    (xs : List ℕ)
    → f (record { buf = w'.buf ++ xs; pos = length w.buf })
      ≡ ok (v, record { buf = w'.buf ++ xs; pos = length w'.buf })

Decodes-Reads {ℓ} :
    {A : Type ℓ} (f : Reader → Read A) (w w' : Writer) (enc : List ℕ) (v : A)
    → Decodes f enc v
    → w'.buf ≡ w.buf ++ enc
    → Reads w w' f v
Decodes-Reads f w w' enc v d e xs =
    let start : Reader = record { buf = w'.buf ++ xs; pos = length w.buf } in
    let at : drop (length w.buf) (w'.buf ++ xs) ≡ enc ++ xs =
      rw (e, append_assoc w.buf enc xs) (drop-append_self w.buf (enc ++ xs)) in
    let end : length w.buf + length enc ≡ length w'.buf = rw e (sym (length-append w.buf enc)) in
    d.run start xs at ∙ ap (λ (n : ℕ). ok (v, record { buf = w'.buf ++ xs; pos = n })) end

-- Each read takes back what its write appended: a byte, a Boolean, numbers of 16, 32 and 64 bits, a
-- slice below 2^31 bytes behind its length, and a text, which comes back whole below 65535 bytes
-- and empty from there on.
pub read-put :
    (w : Writer) (b : ℕ) (t : Bool) (n i j : ℕ) (s v : List ℕ)
    → n < 2 ^ 16
    → i < 2 ^ 32
    → j < 2 ^ 64
    → length s < 2 ^ 31
    → Reads w (put_byte w b) read_byte b
      × Reads w (put_bool w t) read_bool t
      × Reads w (put_uint16 w n) read_uint16 n
      × Reads w (put_int32 w i) read_int32 i
      × Reads w (put_int64 w j) read_int64 j
      × Reads w (put_bytes_with_length w s) read_bytes_with_length s
      × Reads w (put_string w v) read_string (kept_string v)
unfolding put_byte put_bool put_uint16 put_int32 put_int64 put_bytes_with_length put_string
    length_prefixed string_bytes bool_byte
read-put w b t n i j s v hn hi hj hs = (
  Decodes-Reads read_byte w _ (b ∷ []) b (read_byte-Decodes b) refl,
  Decodes-Reads read_bool w _ (bool_byte t ∷ []) t (read_bool-Decodes t) (ground arith),
  Decodes-Reads read_uint16 w _ (le_bytes 2 n) n (read_uint16-Decodes n hn) refl,
  Decodes-Reads read_int32 w _ (le_bytes 4 i) i (read_int32-Decodes i hi) refl,
  Decodes-Reads read_int64 w _ (le_bytes 8 j) j (read_int64-Decodes j hj) refl,
  Decodes-Reads read_bytes_with_length w _ (length_prefixed s) s (read_bytes-Decodes s hs)
      (append_assoc w.buf (le_bytes 4 (length s % 2 ^ 32)) s),
  Decodes-Reads read_string w _ (string_bytes v) (kept_string v) (read_string-Decodes v)
      (ground (arith, append_assoc w.buf (le_bytes 2 (length v + 1)) v)),
)
