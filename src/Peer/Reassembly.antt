-- ===== src/Peer/Reassembly.antt =====
-- Fragments of one message of peer.go: `addReliablePacket` puts them together in any order.
use scpxy.Base.{
  ℕ, zero, suc, ◌+◌, ◌-◌, ◌*◌, ◌≤◌, ◌<◌, ◌≡◌, refl, ap, sym, ◌∙◌, false, Option, none, some, List,
  [], ◌∷◌, ◌++◌, append_assoc, length, get_elem?, set, take, drop, replicate, take-append-drop,
  drop_all, drop-drop, replicate-append, length-replicate, length-append, arith, le→ltb,
}
use scpxy.Base.Slice.{write-append}
use scpxy.Packet.{Packet, size}
use scpxy.Peer.Fragments.{join, is_missing}
use scpxy.Peer.Split.{on_wire, Reads, on_wire-Reads}

-- The bytes of a part, and of the parts from one on.
abbrev pub chunk : List ℕ → ℕ → ℕ → List ℕ
chunk message width part = take width (drop (part * width) message)

pub chunks : List ℕ → ℕ → ℕ → ℕ → List ℕ
chunks message width zero part = []
chunks message width (suc n) part = chunk message width part ++ chunks message width n (part + 1)

pub chunks_lem :
    (message : List ℕ) (width n part : ℕ)
    → length message ≤ (part + n) * width
    → chunks message width n part ≡ drop (part * width) message
unfolding chunks
chunks_lem message width zero part h =
    let e : part + 0 ≡ part = omega arith in sym (drop_all (part * width) message (rw e at h))
chunks_lem message width (suc n) part h =
    let next : (part + 1) * width ≡ part * width + width = grind arith in
    let far : part + 1 + n ≡ part + suc n = omega arith in
    rw
      (
        chunks_lem message width n (part + 1) (rw far h),
        next,
        ← drop-drop (part * width) width message,
        take-append-drop width (drop (part * width) message),
      )
      refl

-- How many parts have come, and how many bytes they carry.
pub come : List (Option Packet) → ℕ
come [] = 0
come (none ∷ fs) = come fs
come (some p ∷ fs) = come fs + 1

pub carry : List (Option Packet) → ℕ
carry [] = 0
carry (none ∷ fs) = carry fs
carry (some p ∷ fs) = (size p - 10) + carry fs

pub come-le : (fs : List (Option Packet)) → come fs ≤ length fs
unfolding come
come-le [] = omega arith
come-le (none ∷ fs) = omega (arith, come-le fs)
come-le (some p ∷ fs) = omega (arith, come-le fs)

-- A place that is empty keeps the count below the length.
pub come-lt : (fs : List (Option Packet)) (i : ℕ) → get_elem? fs i ≡ some none → come fs < length fs
unfolding come
come-lt [] i h = absurd (cc h)
come-lt (none ∷ fs) zero h = omega (arith, come-le fs)
come-lt (some p ∷ fs) zero h = absurd (cc h)
come-lt (none ∷ fs) (suc i) h = omega (arith, come-lt fs i h)
come-lt (some p ∷ fs) (suc i) h = omega (arith, come-lt fs i h)

-- Where no place is empty, all have come.
pub come_full :
    (fs : List (Option Packet))
    → ((i : ℕ) → i < length fs → is_missing (get_elem? fs i) ≡ false)
    → come fs ≡ length fs
unfolding come
come_full [] h = refl
come_full (none ∷ fs) h = absurd (cc (h 0 (omega arith)))
come_full (some p ∷ fs) h = omega (arith, come_full fs (λ i l. h (suc i) (omega arith)))

pub come-set :
    (fs : List (Option Packet)) (i : ℕ) (p : Packet)
    → get_elem? fs i ≡ some none
    → (come (set fs i (some p)) ≡ come fs + 1)
      × (carry (set fs i (some p)) ≡ carry fs + (size p - 10))
unfolding come carry
come-set [] i p h = absurd (cc h)
come-set (none ∷ fs) zero p h = (refl, omega arith)
come-set (some q ∷ fs) zero p h = absurd (cc h)
come-set (none ∷ fs) (suc i) p h = come-set fs i p h
come-set (some q ∷ fs) (suc i) p h = omega (arith, come-set fs i p h)

pub come-replicate : (n : ℕ) → (come (replicate n none) ≡ 0) × (carry (replicate n none) ≡ 0)
unfolding come carry
come-replicate zero = (refl, refl)
come-replicate (suc n) = come-replicate n

module _ (message : List ℕ) (width id channel total : ℕ) (hi : id < 65536)
    (ht : total < 65536) where
  -- A packet that carries a part of the message.
  unfoldable pub IsPart : ℕ → Packet → Type 0
  IsPart part p =
      (num : ℕ) × (seq : ℕ) × (num < 4)
      × (part < total)
      × (p ≡ on_wire num seq channel id part total (chunk message width part))

  pub IsPart-Reads :
      (part : ℕ) (p : Packet)
      → IsPart part p
      → (num : ℕ) × (seq : ℕ) × (p
          ≡ on_wire num seq channel id part total (chunk message width part))
        × Reads num seq channel id part total (chunk message width part)
  unfolding IsPart
  IsPart-Reads part p (num, seq, hn, hp, e) =
      (num, seq, e, on_wire-Reads num seq channel id part total _ hn hi (omega arith) ht)

  IsPart-bytes :
      (part : ℕ) (p : Packet)
      → IsPart part p
      → (size p ≡ 10 + length (chunk message width part))
        × (drop 10 p.bytes ≡ chunk message width part)
  IsPart-bytes part p h =
      let (num, seq, e, r) = IsPart-Reads part p h in rw e (r.size_is, r.rest_is)

  -- Each packet stands in the place of its part, from the part `k` on.
  pub Parts : ℕ → List (Option Packet) → Type 0
  Parts k [] = Unit {0}
  Parts k (none ∷ fs) = Parts (k + 1) fs
  Parts k (some p ∷ fs) = IsPart k p × Parts (k + 1) fs

  pub Parts-replicate : (n k : ℕ) → Parts k (replicate n none)
  unfolding Parts
  Parts-replicate zero k = tt
  Parts-replicate (suc n) k = Parts-replicate n (k + 1)

  pub Parts-set :
      (fs : List (Option Packet)) (k i : ℕ) (p : Packet)
      → Parts k fs
      → IsPart (k + i) p
      → Parts k (set fs i (some p))
  unfolding Parts
  Parts-set [] k i p h hp = h
  Parts-set (none ∷ fs) k zero p h hp = let e : k + 0 ≡ k = omega arith in (rw e at hp, h)
  Parts-set (some q ∷ fs) k zero p h hp = let e : k + 0 ≡ k = omega arith in (rw e at hp, h.1)
  Parts-set (none ∷ fs) k (suc i) p h hp =
      let e : k + suc i ≡ k + 1 + i = omega arith in Parts-set fs (k + 1) i p h (rw e at hp)
  Parts-set (some q ∷ fs) k (suc i) p h hp =
      let e : k + suc i ≡ k + 1 + i = omega arith in
      (h.0, Parts-set fs (k + 1) i p h.1 (rw e at hp))

  -- With all parts there, what stands before them stays and the parts follow in order.
  pub join-Parts :
      (fs : List (Option Packet)) (k : ℕ) (pre : List ℕ)
      → Parts k fs
      → come fs ≡ length fs
      → join fs (length pre) (pre ++ replicate (carry fs) 0)
        ≡ some (some (pre ++ chunks message width (length fs) k))
  unfolding Parts join come carry chunks
  join-Parts [] k pre h full = refl
  join-Parts (none ∷ fs) k pre h full = absurd (omega (arith, come-le fs))
  join-Parts (some p ∷ fs) k pre h full =
      let c = chunk message width k in
      let (sized, rest) = IsPart-bytes k p h.0 in
      let fits : size p - 10 ≡ length c = omega (arith, sized) in
      let zeros : List ℕ = replicate (length c) 0 in
      let left : List ℕ = replicate (carry fs) 0 in
      let room : length (pre ++ (zeros ++ left)) ≡ length pre + (length c + carry fs) = omega (
        arith,
        length-append pre (zeros ++ left),
        length-append zeros left,
        length-replicate {A = ℕ} (length c) 0,
        length-replicate {A = ℕ} (carry fs) 0,
      ) in
      rw
        (
          le→ltb (size p) 10 (omega (arith, sized)),
          fits,
          rest,
          replicate-append {A = ℕ} (length c) (carry fs) 0,
          room,
          le→ltb (length pre + (length c + carry fs)) (length pre + length c) (omega arith),
          write-append pre zeros left c (length-replicate {A = ℕ} (length c) 0),
          ← length-append pre c,
        )
        (join-Parts fs (k + 1) (pre ++ c) h.1 (omega arith)
          ∙ ap (λ r. some (some r)) (append_assoc pre c (chunks message width (length fs) (k + 1))))
