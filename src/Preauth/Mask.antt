-- ===== src/Preauth/Mask.antt =====
-- What `MaskedUserID` of preauth.go shows of a user id.
use scpxy.Base.{
  ℕ, zero, suc, ◌+◌, ◌-◌, ◌≤◌, ◌<◌, ◌≡◌, ◌⊎◌, inl, inr, refl, none, some, List, [], ◌∷◌, ◌++◌,
  length, drop, replicate, get_elem?, leb, arith, length-append, length-replicate, length-drop,
  Bool-cases, Option-cases,
}
use scpxy.Preauth.{mask_tail, last_index, user_id_mask_keep}

abbrev star : ℕ
star = b'*'

-- The place `i` of a text of `n` bytes is hidden: all but the last four are, and all of a short text.
abbrev pub IsHidden : ℕ → ℕ → Type 0
IsHidden n i = (i + user_id_mask_keep < n) ⊎ (n ≤ user_id_mask_keep)

get_elem?-replicate_append :
    {A : Type 0} (n i : ℕ) (a : A) (ys : List A)
    → i < n
    → get_elem? (replicate n a ++ ys) i ≡ some a
get_elem?-replicate_append zero i a ys h = absurd (omega arith)
get_elem?-replicate_append (suc n) zero a ys h = refl
get_elem?-replicate_append (suc n) (suc i) a ys h =
    get_elem?-replicate_append n i a ys (omega arith)

get_elem?-replicate : {A : Type 0} (n i : ℕ) (a : A) → i < n → get_elem? (replicate n a) i ≡ some a
get_elem?-replicate zero i a h = absurd (omega arith)
get_elem?-replicate (suc n) zero a h = refl
get_elem?-replicate (suc n) (suc i) a h = get_elem?-replicate n i a (omega arith)

-- Behind the stars of a text the text itself shows.
get_elem?-stars_drop :
    (n i : ℕ) (a : ℕ) (v : List ℕ)
    → n ≤ length v
    → n ≤ i
    → get_elem? (replicate n a ++ drop n v) i ≡ get_elem? v i
get_elem?-stars_drop zero i a v h k = refl
get_elem?-stars_drop (suc n) i a [] h k = absurd (omega arith)
get_elem?-stars_drop (suc n) zero a (x ∷ v) h k = absurd (omega arith)
get_elem?-stars_drop (suc n) (suc i) a (x ∷ v) h k =
    get_elem?-stars_drop n i a v (omega arith) (omega arith)

-- The mask has the length of the text, a star at each hidden place and the text's byte elsewhere.
pub mask_tail_lem :
    (v : List ℕ) (i : ℕ)
    → i < length v
    → (length (mask_tail v) ≡ length v)
      × (IsHidden (length v) i → get_elem? (mask_tail v) i ≡ some star)
      × (¬ IsHidden (length v) i → get_elem? (mask_tail v) i ≡ get_elem? v i)
unfolding mask_tail
mask_tail_lem v i h = elim (Bool-cases (leb (length v) user_id_mask_keep)) [
  | inl short ↦ rw short (
    length-replicate (length v) star,
    λ _. get_elem?-replicate (length v) i star h,
    λ shown. absurd (shown (inr (ground arith))),
  )
  | inr long ↦
      let n = length v - user_id_mask_keep in
      let room : user_id_mask_keep < length v = ground arith in
      rw long (
        omega (
          arith,
          length-append (replicate n star) (drop n v),
          length-replicate n star,
          length-drop n v,
        ),
        λ hidden. get_elem?-replicate_append n i star (drop n v) (before hidden room),
        λ shown. get_elem?-stars_drop n i star v (omega arith) (behind shown),
      )
]
  where
    before : IsHidden (length v) i → user_id_mask_keep < length v → i < length v - user_id_mask_keep
    before (inl a) room = omega arith
    before (inr a) room = absurd (omega arith)

    behind : ¬ IsHidden (length v) i → length v - user_id_mask_keep ≤ i
    behind shown = elim (Bool-cases (leb (length v - user_id_mask_keep) i)) [
      | inl e ↦ ground arith
      | inr e ↦ absurd (shown (inl (ground arith)))
    ]

-- `last_index` finds the last `c`: it stands there, and there is none behind it.
pub last_index-some :
    (v : List ℕ) (c i : ℕ)
    → last_index v c ≡ some i
    → (d : List ℕ) × (i < length v) × (drop i v ≡ c ∷ d) × (last_index d c ≡ none)
unfolding last_index
last_index-some [] c i e = absurd (cc)
last_index-some (b ∷ bs) c i e = elim (Option-cases (last_index bs c)) [
  | inl miss ↦
      let hit : b ≡ c = ground arith in
      let place : i ≡ 0 = ground arith in (bs, omega arith, rw (place, hit) refl, miss)
  | inr (j, found) ↦
      let (d, lt, at, last) = last_index-some bs c j found in
      let place : i ≡ suc j = ground arith in (d, omega arith, rw place at, last)
]

-- An id falls into a local part and a domain, and `shown` is the masked local part with the domain.
-- The domain is empty, or it begins with the last `@` of the id and the local part is not empty.
abbrev pub Splits : List ℕ → List ℕ → Type 0
Splits id shown =
    (local : List ℕ) × (domain : List ℕ) × (id ≡ local ++ domain)
    × (shown ≡ mask_tail local ++ domain)
    × ((domain ≡ [])
        ⊎ ((0 < length local) × ((d : List ℕ) × (domain ≡ b'@' ∷ d) × (last_index d b'@' ≡ none))))
