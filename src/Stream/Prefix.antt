-- ===== src/Stream/Prefix.antt =====
-- Reads of data.go do not look past what they take: bytes added behind the input change nothing.
use scpxy.Base.{
  ℕ, zero, suc, ◌-◌, ◌≤◌, ◌≡◌, refl, ap, List, [], ◌∷◌, ◌++◌, length, take, drop, arith,
  length-append,
}
use scpxy.Stream.{
  Reader, ReadOr, ok, err, ◌>>=◌, read_take, remaining, read_byte, read_bool, read_uint16,
  read_int32, read_int64, read_bytes_with_length, read_string, sized_bytes, sized_string,
}

abbrev pub extend : Reader → List ℕ → Reader
extend r more = record r { buf = r.buf ++ more }

-- A read that succeeds does the same on the longer input.
abbrev pub IsStable {ℓ} : {E : Type 0} {A : Type ℓ} → (Reader → ReadOr E A) → Type ℓ
IsStable {A} f =
    (r : Reader) (more : List ℕ) (v : A) (r' : Reader)
    → f r ≡ ok (v, r')
    → f (extend r more) ≡ ok (v, extend r' more)

abbrev pub bind {ℓ κ} :
    {E : Type 0} {A : Type ℓ} {B : Type κ}
    → (Reader → ReadOr E A)
    → (A → Reader → ReadOr E B)
    → Reader
    → ReadOr E B
bind m k r = m r >>= λ (a, r'). k a r'

pub bind-eq-ok {ℓ κ} :
    {E : Type 0} {A : Type ℓ} {B : Type κ} (m : ReadOr E A) (k : A → Reader → ReadOr E B) (b : B)
    (r'' : Reader)
    → (m >>= λ (a, r'). k a r') ≡ ok (b, r'')
    → (a : A) × (r' : Reader) × (m ≡ ok (a, r')) × (k a r' ≡ ok (b, r''))
bind-eq-ok (ok (a, r')) k b r'' h = (a, r', refl, h)
bind-eq-ok (err e) k b r'' h = absurd (cc)

module _ {ℓ κ} {E : Type 0} {A : Type ℓ} {B : Type κ} where
  pub bind-IsStable :
      (m : Reader → ReadOr E A) (k : A → Reader → ReadOr E B)
      → IsStable m
      → ((a : A) → IsStable (k a))
      → IsStable (bind m k)
  bind-IsStable m k hm hk r more v r' e =
      let (a, r₁, e₁, e₂) = bind-eq-ok (m r) k v r' e in
      rw (hm r more a r₁ e₁) (hk a r₁ more v r' e₂)

pub ok-IsStable {ℓ} : {E : Type 0} {A : Type ℓ} (a : A) → IsStable {E = E} (λ r. ok (a, r))
ok-IsStable a r more v r' e = cc

pub err-IsStable {ℓ} : {E : Type 0} {A : Type ℓ} (x : E) → IsStable {A = A} (λ r. err x)
err-IsStable x r more v r' e = absurd (cc)

take-drop-append :
    (n p : ℕ) (xs ys : List ℕ) → n ≤ length xs - p → take n (drop p (xs ++ ys)) ≡ take n (drop p xs)
take-drop-append zero p xs ys h = refl
take-drop-append (suc n) zero [] ys h = absurd (omega arith)
take-drop-append (suc n) zero (x ∷ xs) ys h =
    ap (◌∷◌ x) (take-drop-append n zero xs ys (omega arith))
take-drop-append (suc n) (suc p) [] ys h = absurd (omega arith)
take-drop-append (suc n) (suc p) (x ∷ xs) ys h = take-drop-append (suc n) p xs ys (omega arith)

pub read_take-IsStable : (n : ℕ) → IsStable (λ r. read_take r n)
unfolding read_take remaining
read_take-IsStable n r more v r' e =
    ground (arith, take-drop-append n r.pos r.buf more, length-append r.buf more)

pub read_byte-IsStable : IsStable read_byte
unfolding read_byte
read_byte-IsStable =
    bind-IsStable (λ r. read_take r 1) _ (read_take-IsStable 1) (λ b. ok-IsStable _)

pub read_bool-IsStable : IsStable read_bool
unfolding read_bool
read_bool-IsStable = bind-IsStable read_byte _ read_byte-IsStable (λ b. ok-IsStable _)

pub read_uint16-IsStable : IsStable read_uint16
unfolding read_uint16
read_uint16-IsStable =
    bind-IsStable (λ r. read_take r 2) _ (read_take-IsStable 2) (λ b. ok-IsStable _)

pub read_int32-IsStable : IsStable read_int32
unfolding read_int32
read_int32-IsStable =
    bind-IsStable (λ r. read_take r 4) _ (read_take-IsStable 4) (λ b. ok-IsStable _)

pub read_int64-IsStable : IsStable read_int64
unfolding read_int64
read_int64-IsStable =
    bind-IsStable (λ r. read_take r 8) _ (read_take-IsStable 8) (λ b. ok-IsStable _)

sized_bytes-IsStable : (n : ℕ) → IsStable (sized_bytes n)
sized_bytes-IsStable n r more v r' e = ground (arith, read_take-IsStable n r more v r')

pub read_bytes_with_length-IsStable : IsStable read_bytes_with_length
unfolding read_bytes_with_length
read_bytes_with_length-IsStable =
    bind-IsStable read_int32 sized_bytes read_int32-IsStable sized_bytes-IsStable

sized_string-IsStable : (n : ℕ) → IsStable (sized_string n)
sized_string-IsStable n r more v r' e = ground (arith, read_take-IsStable (n - 1) r more v r')

pub read_string-IsStable : IsStable read_string
unfolding read_string
read_string-IsStable =
    bind-IsStable read_uint16 sized_string read_uint16-IsStable sized_string-IsStable

pub ruleset stable = (
  bind-IsStable, ok-IsStable, err-IsStable, read_byte-IsStable, read_bool-IsStable,
  read_uint16-IsStable, read_int64-IsStable, read_string-IsStable, read_bytes_with_length-IsStable,
)
