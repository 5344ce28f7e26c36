-- ===== src/Base/Slice.antt =====
-- Reads and writes of a byte slice at a position. `none` is Go's index-out-of-range panic.
use Prim.Native.Nat.{ℕ, zero, suc, ◌+◌, ◌≤◌, ◌<◌}
use mathlib.Core.Path.{◌≡◌, refl, ap, sym, ◌∙◌}
use mathlib.Core.Option.{Option, none, some}
use mathlib.Core.List.{List, [], ◌∷◌, ◌++◌, append_assoc, append-nil}
use native.Mathlib.Omega.{arith}
use scpxy.Base.Tests.{◌>>=◌, >>=-eq-some, leb, le→leb, if◌then◌else◌}
use scpxy.Base.Lists.{
  length, get_elem?, set, length-set, get_elem?-set_self, get_elem?-set_ne, get_elem?-some, All,
  length-append, take, drop, length-take, length-drop, take-append-drop,
}

-- The bytes from position `i` on overwritten by `vs`.
unfoldable pub write : List ℕ → ℕ → List ℕ → List ℕ
write bs i [] = bs
write bs i (v ∷ vs) = write (set bs i v) (i + 1) vs

-- `binary.LittleEndian.Put…(b[i:], v)`: checked before anything is written.
unfoldable pub put : List ℕ → ℕ → List ℕ → Option (List ℕ)
put bs i vs = if leb (i + length vs) (length bs) then some (write bs i vs) else none

-- `n` bytes at position `i`.
unfoldable pub read : ℕ → List ℕ → ℕ → Option (List ℕ)
read zero bs i = some []
read (suc n) bs i = do b ← get_elem? bs i; rest ← read n bs (i + 1); some (b ∷ rest)

pub length-write : (bs : List ℕ) (i : ℕ) (vs : List ℕ) → length (write bs i vs) ≡ length bs
unfolding write
length-write bs i [] = refl
length-write bs i (v ∷ vs) = length-write (set bs i v) (i + 1) vs ∙ length-set bs i v

pub get_elem?-write_below :
    (bs : List ℕ) (i : ℕ) (vs : List ℕ) (j : ℕ)
    → j < i
    → get_elem? (write bs i vs) j ≡ get_elem? bs j
unfolding write
get_elem?-write_below bs i [] j h = refl
get_elem?-write_below bs i (v ∷ vs) j h =
    get_elem?-write_below (set bs i v) (i + 1) vs j (omega arith)
    ∙ get_elem?-set_ne bs i j v (λ e. absurd (omega arith))

pub get_elem?-write_above :
    (bs : List ℕ) (i : ℕ) (vs : List ℕ) (j : ℕ)
    → i + length vs ≤ j
    → get_elem? (write bs i vs) j ≡ get_elem? bs j
unfolding write
get_elem?-write_above bs i [] j h = refl
get_elem?-write_above bs i (v ∷ vs) j h =
    get_elem?-write_above (set bs i v) (i + 1) vs j (omega arith)
    ∙ get_elem?-set_ne bs i j v (λ e. absurd (omega arith))

-- What was written is read back.
pub read-write_self :
    (bs : List ℕ) (i : ℕ) (vs : List ℕ)
    → i + length vs ≤ length bs
    → read (length vs) (write bs i vs) i ≡ some vs
unfolding read write
read-write_self bs i [] h = refl
read-write_self bs i (v ∷ vs) h = rw (
  get_elem?-write_below (set bs i v) (i + 1) vs i (omega arith),
  get_elem?-set_self bs i v (omega arith),
  read-write_self (set bs i v) (i + 1) vs (omega (arith, length-set bs i v)),
)

-- A read that ends before the write, or begins behind it, sees the old bytes.
pub read-write_below :
    (n : ℕ) (bs : List ℕ) (i : ℕ) (vs : List ℕ) (j : ℕ)
    → j + n ≤ i
    → read n (write bs i vs) j ≡ read n bs j
unfolding read
read-write_below zero bs i vs j h = refl
read-write_below (suc n) bs i vs j h = rw (
  get_elem?-write_below bs i vs j (omega arith),
  read-write_below n bs i vs (j + 1) (omega arith),
)

pub read-write_above :
    (n : ℕ) (bs : List ℕ) (i : ℕ) (vs : List ℕ) (j : ℕ)
    → i + length vs ≤ j
    → read n (write bs i vs) j ≡ read n bs j
unfolding read
read-write_above zero bs i vs j h = refl
read-write_above (suc n) bs i vs j h = rw (
  get_elem?-write_above bs i vs j (omega arith),
  read-write_above n bs i vs (j + 1) (omega arith),
)

-- A read within the slice succeeds.
pub read-some :
    (n : ℕ) (bs : List ℕ) (i : ℕ)
    → i + n ≤ length bs
    → (vs : List ℕ) × (read n bs i ≡ some vs) × (length vs ≡ n)
unfolding read
read-some zero bs i h = ([], refl, refl)
read-some (suc n) bs i h =
    let (b, e) = get_elem?-some bs i (omega arith) in
    let (vs, e', l) = read-some n bs (i + 1) (omega arith) in (b ∷ vs, rw (e, e') refl, ap suc l)

pub put-some :
    (bs : List ℕ) (i : ℕ) (vs : List ℕ)
    → i + length vs ≤ length bs
    → put bs i vs ≡ some (write bs i vs)
unfolding put
put-some bs i vs h = rw (le→leb _ _ h)

pub All-get_elem? {κ} :
    (P : ℕ → Type κ) (bs : List ℕ) (i b : ℕ) → All P bs → get_elem? bs i ≡ some b → P b
All-get_elem? P [] i b a e = absurd (cc)
All-get_elem? P (x ∷ xs) zero b a e = let e' : x ≡ b = cc in rw (← e') a.0
All-get_elem? P (x ∷ xs) (suc i) b a e = All-get_elem? P xs i b a.1 e

pub All-set {κ} : (P : ℕ → Type κ) (bs : List ℕ) (i v : ℕ) → All P bs → P v → All P (set bs i v)
All-set P [] i v a h = a
All-set P (x ∷ xs) zero v a h = (h, a.1)
All-set P (x ∷ xs) (suc i) v a h = (a.0, All-set P xs i v a.1 h)

pub All-write {κ} :
    (P : ℕ → Type κ) (bs : List ℕ) (i : ℕ) (vs : List ℕ)
    → All P bs
    → All P vs
    → All P (write bs i vs)
unfolding write
All-write P bs i [] a h = a
All-write P bs i (v ∷ vs) a h = All-write P (set bs i v) (i + 1) vs (All-set P bs i v a h.0) h.1

pub All-read {κ} :
    (P : ℕ → Type κ) (n : ℕ) (bs : List ℕ) (i : ℕ) (vs : List ℕ)
    → All P bs
    → read n bs i ≡ some vs
    → All P vs
unfolding read
All-read P zero bs i vs a e = let e' : vs ≡ [] = cc in rw e' tt
All-read P (suc n) bs i vs a e =
    let (b, eb, e₁) = >>=-eq-some (get_elem? bs i) _ e in
    let (rest, er, e₂) = >>=-eq-some (read n bs (i + 1)) _ e₁ in
    let e' : b ∷ rest ≡ vs = cc in
    rw (← e') (All-get_elem? P bs i b a eb, All-read P n bs (i + 1) rest a er)

set-append :
    (pre old : List ℕ) (o v : ℕ) → set (pre ++ (o ∷ old)) (length pre) v ≡ (pre ++ (v ∷ [])) ++ old
set-append [] old o v = refl
set-append (x ∷ pre) old o v = ap (◌∷◌ x) (set-append pre old o v)

-- A write over a part of a slice, with what stands before and behind it.
pub write-append :
    (pre old rest vs : List ℕ)
    → length old ≡ length vs
    → write (pre ++ (old ++ rest)) (length pre) vs ≡ (pre ++ vs) ++ rest
unfolding write
write-append pre [] rest [] h = rw (append-nil pre) refl
write-append pre (o ∷ old) rest [] h = absurd (omega arith)
write-append pre [] rest (v ∷ vs) h = absurd (omega arith)
write-append pre (o ∷ old) rest (v ∷ vs) h =
    let next : length pre + 1 ≡ length (pre ++ (v ∷ [])) =
      omega (arith, length-append pre (v ∷ [])) in
    rw
      (
        set-append pre (old ++ rest) o v,
        next,
        write-append (pre ++ (v ∷ [])) old rest vs (omega arith),
        append_assoc pre (v ∷ []) vs,
      )
      refl

-- Two writes, one behind the other, over the end of a slice.
pub write-write-append :
    (pre old us vs : List ℕ)
    → length us + length vs ≤ length old
    → write (write (pre ++ old) (length pre) us) (length pre + length us) vs
      ≡ (pre ++ (us ++ vs)) ++ drop (length vs) (drop (length us) old)
write-write-append pre old us vs h =
    let o₁ : List ℕ = take (length us) old in
    let r₁ : List ℕ = drop (length us) old in
    let o₂ : List ℕ = take (length vs) r₁ in
    let r₂ : List ℕ = drop (length vs) r₁ in
    let l₁ : length o₁ ≡ length us = omega (arith, length-take (length us) old) in
    let l₂ : length o₂ ≡ length vs =
      omega (arith, length-take (length vs) r₁, length-drop (length us) old) in
    let first : write (pre ++ old) (length pre) us ≡ (pre ++ us) ++ r₁ =
      ap (λ (t : List ℕ). write (pre ++ t) (length pre) us) (sym (take-append-drop (length us) old))
      ∙ write-append pre o₁ r₁ us l₁ in
    let second : write ((pre ++ us) ++ r₁) (length (pre ++ us)) vs ≡ ((pre ++ us) ++ vs) ++ r₂ =
      ap (λ (t : List ℕ). write ((pre ++ us) ++ t) (length (pre ++ us)) vs)
        (sym (take-append-drop (length vs) r₁))
      ∙ write-append (pre ++ us) o₂ r₂ vs l₂ in
    rw (first, ← length-append pre us)
      (second ∙ ap (λ (t : List ℕ). t ++ r₂) (append_assoc pre us vs))
