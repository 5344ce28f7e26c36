-- ===== src/Base/Assoc.antt =====
-- Go maps as association lists over keys with a Boolean equality.
use scpxy.Base.Tests.{if◌then◌else◌, Bool-cases}
use scpxy.Base.Lists.{All}
use Prim.Native.Nat.{ℕ}
use mathlib.Core.Path.{◌≡◌, refl}
use mathlib.Core.Logic.{◌≢◌, ◌↔◌, inl, inr}
use mathlib.Core.Bool.{Bool, true, false, ◌&&◌}
use mathlib.Core.Option.{Option, none, some}
use mathlib.Core.List.{List, [], ◌∷◌}
use native.Mathlib.Omega.{arith}
use scpxy.Base.Tests.{◌==◌ as nat_beq, ==_iff}

-- What a map asks of its keys.
pub record Key {ℓ} (K : Type ℓ) : Type ℓ where
  pub beq : K → K → Bool
  pub beq_iff : (k j : K) → (beq k j ≡ true) ↔ (k ≡ j)

instance abbrev pub nat_key : Key ℕ
nat_key = record { beq = nat_beq; beq_iff = λ k j. ==_iff k j }

abbrev pub bytes_beq : List ℕ → List ℕ → Bool
bytes_beq [] [] = true
bytes_beq [] (b ∷ bs) = false
bytes_beq (a ∷ as_) [] = false
bytes_beq (a ∷ as_) (b ∷ bs) = nat_beq a b && bytes_beq as_ bs

pub bytes_beq_iff : (a b : List ℕ) → (bytes_beq a b ≡ true) ↔ (a ≡ b)
bytes_beq_iff [] [] = (λ h. refl, λ h. refl)
bytes_beq_iff [] (b ∷ bs) = (λ h. cc, λ h. cc)
bytes_beq_iff (a ∷ as_) [] = (λ h. cc, λ h. cc)
bytes_beq_iff (a ∷ as_) (b ∷ bs) = ground (arith, bytes_beq_iff as_ bs)

-- Text is its bytes.
instance abbrev pub bytes_key : Key (List ℕ)
bytes_key = record { beq = bytes_beq; beq_iff = bytes_beq_iff }

pub beq_ne : {K : Type 0} ⦃e : Key K⦄ (k j : K) → k ≢ j → e.beq k j ≡ false
beq_ne ⦃e⦄ k j h = elim (Bool-cases (e.beq k j)) [
  | inl t ↦ absurd (h ((e.beq_iff k j).0 t))
  | inr f ↦ f
]

module _ {ℓ} {K : Type 0} {V : Type ℓ} ⦃e : Key K⦄ where
  unfoldable pub lookup : K → List (K × V) → Option V
  lookup k [] = none
  lookup k ((j, v) ∷ m) = if e.beq j k then some v else lookup k m

  unfoldable pub insert : K → V → List (K × V) → List (K × V)
  insert k v [] = (k, v) ∷ []
  insert k v ((j, w) ∷ m) = if e.beq j k then (j, v) ∷ m else (j, w) ∷ insert k v m

  -- Go's `delete`: every entry of the key goes.
  unfoldable pub erase : K → List (K × V) → List (K × V)
  erase k [] = []
  erase k ((j, w) ∷ m) = if e.beq j k then erase k m else (j, w) ∷ erase k m

module _ {ℓ} {K : Type 0} {V : Type ℓ} ⦃e : Key K⦄ where
  pub lookup-insert :
      (k j : K) (v : V) (m : List (K × V))
      → lookup j (insert k v m) ≡ (if e.beq k j then some v else lookup j m)
  unfolding lookup insert
  lookup-insert k j v [] = refl
  lookup-insert k j v ((i, w) ∷ m) =
      ground (arith, e.beq_iff k j, e.beq_iff i k, e.beq_iff i j, lookup-insert k j v m)

  pub lookup-erase :
      (k j : K) (m : List (K × V)) → lookup j (erase k m) ≡ (if e.beq k j then none else lookup j m)
  unfolding lookup erase
  lookup-erase k j [] = ground arith
  lookup-erase k j ((i, w) ∷ m) =
      ground (arith, e.beq_iff k j, e.beq_iff i k, e.beq_iff i j, lookup-erase k j m)

  pub lookup-insert_self : (k : K) (v : V) (m : List (K × V)) → lookup k (insert k v m) ≡ some v
  lookup-insert_self k v m = rw (lookup-insert k k v m, (e.beq_iff k k).1 refl) refl

  pub lookup-insert_ne :
      (k j : K) (v : V) (m : List (K × V)) → k ≢ j → lookup j (insert k v m) ≡ lookup j m
  lookup-insert_ne k j v m h = rw (lookup-insert k j v m, beq_ne k j h) refl

  pub lookup-erase_ne : (k j : K) (m : List (K × V)) → k ≢ j → lookup j (erase k m) ≡ lookup j m
  lookup-erase_ne k j m h = rw (lookup-erase k j m, beq_ne k j h) refl

  pub lookup-erase_self : (k : K) (m : List (K × V)) → lookup k (erase k m) ≡ none
  lookup-erase_self k m = rw (lookup-erase k k m, (e.beq_iff k k).1 refl) refl

  -- A property of all entries, for what is found, what is put in and what stays.
  pub All-lookup {κ} :
      (P : K × V → Type κ) (k : K) (v : V) (m : List (K × V))
      → All P m
      → lookup k m ≡ some v
      → P (k, v)
  unfolding lookup
  All-lookup P k v [] a h = absurd (cc)
  All-lookup P k v ((j, w) ∷ m) a h = elim (Bool-cases (e.beq j k)) [
    | inl hit ↦
        let ek : j ≡ k = (e.beq_iff j k).0 hit in
        let ew : w ≡ v = ground arith in rw (← ek, ← ew) a.0
    | inr miss ↦ All-lookup P k v m a.1 (rw miss at h)
  ]

  pub All-insert {κ} :
      (P : K × V → Type κ) (k : K) (v : V) (m : List (K × V))
      → All P m
      → P (k, v)
      → All P (insert k v m)
  unfolding insert
  All-insert P k v [] a h = (h, tt)
  All-insert P k v ((j, w) ∷ m) a h = elim (Bool-cases (e.beq j k)) [
    | inl hit ↦ let ek : j ≡ k = (e.beq_iff j k).0 hit in rw hit (rw ek h, a.1)
    | inr miss ↦ rw miss (a.0, All-insert P k v m a.1 h)
  ]

  pub All-erase {κ} :
      (P : K × V → Type κ) (k : K) (m : List (K × V))
      → All P m
      → All (λ s. P s × (e.beq s.0 k ≡ false)) (erase k m)
  unfolding erase
  All-erase P k [] a = tt
  All-erase P k ((j, w) ∷ m) a = elim (Bool-cases (e.beq j k)) [
    | inl hit ↦ rw hit (All-erase P k m a.1)
    | inr miss ↦ rw miss ((a.0, miss), All-erase P k m a.1)
  ]
