-- ===== src/Backend/Pick.antt =====
-- Which backend `pick` of backend.go chooses.
use scpxy.Base.{
  ℕ, zero, suc, ◌+◌, ◌≤◌, ◌<◌, ◌≡◌, ap, Bool, true, false, none, some, List, [], ◌∷◌, get_elem?,
  ltb, ◌==◌, ◌⊎◌, inl, inr, arith, All, All-map, Bool-cases, Option-cases,
}
use scpxy.Base.Int.{ℤ, pos, negsuc, ltb_ℤ}
use scpxy.Backend.{Backend, insert_by_priority, slice_stable, first_from, is_usable, pick}

-- `a` is not below `b`.
abbrev pub NotBelow : ℤ → ℤ → Type 0
NotBelow a b = ltb_ℤ a b ≡ false

-- The pool is in the order of the priorities.
unfoldable pub Sorted : List Backend → Type 0
Sorted [] = Unit {0}
Sorted (b ∷ bs) = All (λ c. NotBelow c.cfg.priority b.cfg.priority) bs × Sorted bs

NotBelow-trans : (a b c : ℤ) → NotBelow a b → NotBelow b c → NotBelow a c
NotBelow-trans (pos a) (pos b) (pos c) h k = ground arith
NotBelow-trans (pos a) (pos b) (negsuc c) h k = ground arith
NotBelow-trans (pos a) (negsuc b) (pos c) h k = ground arith
NotBelow-trans (pos a) (negsuc b) (negsuc c) h k = ground arith
NotBelow-trans (negsuc a) (pos b) (pos c) h k = ground arith
NotBelow-trans (negsuc a) (pos b) (negsuc c) h k = ground arith
NotBelow-trans (negsuc a) (negsuc b) (pos c) h k = ground arith
NotBelow-trans (negsuc a) (negsuc b) (negsuc c) h k = ground arith

below-NotBelow : (a b : ℤ) → ltb_ℤ a b ≡ true → NotBelow b a
below-NotBelow a b h = ground arith

insert-All :
    (x : ℤ) (b : Backend) (cs : List Backend)
    → NotBelow b.cfg.priority x
    → All (λ c. NotBelow c.cfg.priority x) cs
    → All (λ c. NotBelow c.cfg.priority x) (insert_by_priority b cs)
unfolding insert_by_priority
insert-All x b [] h a = (h, tt)
insert-All x b (c ∷ cs) h a = elim (Bool-cases (ltb_ℤ c.cfg.priority b.cfg.priority)) [
  | inl lower ↦ rw lower (a.0, insert-All x b cs h a.1)
  | inr not_lower ↦ rw not_lower (h, a)
]

insert-Sorted : (b : Backend) (cs : List Backend) → Sorted cs → Sorted (insert_by_priority b cs)
unfolding insert_by_priority Sorted
insert-Sorted b [] s = (tt, tt)
insert-Sorted b (c ∷ cs) s = elim (Bool-cases (ltb_ℤ c.cfg.priority b.cfg.priority)) [
  | inl lower ↦ rw lower (
    insert-All c.cfg.priority b cs (below-NotBelow c.cfg.priority b.cfg.priority lower) s.0,
    insert-Sorted b cs s.1,
  )
  | inr not_lower ↦ rw not_lower (
    (
      not_lower,
      All-map _ _ cs
          (λ (d : Backend) h.
            NotBelow-trans d.cfg.priority c.cfg.priority b.cfg.priority h not_lower)
          s.0,
    ),
    s,
  )
]

pub slice_stable-Sorted : (bs : List Backend) → Sorted (slice_stable bs)
unfolding slice_stable Sorted
slice_stable-Sorted [] = tt
slice_stable-Sorted (b ∷ bs) = insert-Sorted b (slice_stable bs) (slice_stable-Sorted bs)

Sorted-get_elem? :
    (bs : List Backend) (i j : ℕ) (b c : Backend)
    → Sorted bs
    → i < j
    → get_elem? bs i ≡ some b
    → get_elem? bs j ≡ some c
    → NotBelow c.cfg.priority b.cfg.priority
unfolding Sorted
Sorted-get_elem? [] i j b c s lt h k = absurd (cc)
Sorted-get_elem? (d ∷ bs) i zero b c s lt h k = absurd (omega arith)
Sorted-get_elem? (d ∷ bs) (suc i) (suc j) b c s lt h k =
    Sorted-get_elem? bs i j b c s.1 (omega arith) h k
Sorted-get_elem? (d ∷ bs) zero (suc j) b c s lt h k =
    let e : d ≡ b = cc in rw (← e) (All-at bs j c s.0 k)
  where
    All-at :
        (cs : List Backend) (j : ℕ) (c : Backend)
        → All (λ c. NotBelow c.cfg.priority d.cfg.priority) cs
        → get_elem? cs j ≡ some c
        → NotBelow c.cfg.priority d.cfg.priority
    All-at [] j c a k = absurd (cc)
    All-at (x ∷ cs) zero c a k = let e : x ≡ c = cc in rw (← e) a.0
    All-at (x ∷ cs) (suc j) c a k = All-at cs j c a.1 k

-- What `first_from` finds, and what it has passed by.
first_from-none :
    (test : Backend → Bool) (bs : List Backend) (i k : ℕ) (c : Backend)
    → first_from test i bs ≡ none
    → get_elem? bs k ≡ some c
    → test c ≡ false
unfolding first_from
first_from-none test [] i k c e h = absurd (cc)
first_from-none test (b ∷ bs) i zero c e h = let same : b ≡ c = cc in rw (← same) (ground arith)
first_from-none test (b ∷ bs) i (suc k) c e h = first_from-none test bs (i + 1) k c (ground arith) h

pub record Found (test : Backend → Bool) (bs : List Backend) (i j : ℕ) (b : Backend) : Type 0 where
  pub distance : ℕ
  pub is_at : j ≡ i + distance
  pub stands_there : get_elem? bs distance ≡ some b
  pub passes : test b ≡ true
  pub none_before : (k : ℕ) (c : Backend) → k < distance → get_elem? bs k ≡ some c → test c ≡ false

first_from-some :
    (test : Backend → Bool) (bs : List Backend) (i j : ℕ) (b : Backend)
    → first_from test i bs ≡ some (j, b)
    → Found test bs i j b
unfolding first_from
first_from-some test [] i j b e = absurd (cc)
first_from-some test (d ∷ bs) i j b e = elim (Bool-cases (test d)) [
  | inl hit ↦
      let same : d ≡ b = ground arith in
      let place : j ≡ i = ground arith in
      record {
        distance = 0;
        is_at = omega arith;
        stands_there = ap some same;
        passes = rw (← same) hit;
        none_before = λ k c lt h. absurd (omega arith);
      }
  | inr miss ↦
      let f = first_from-some test bs (i + 1) j b (rw miss at e) in
      record {
        distance = suc f.distance;
        is_at = omega (arith, f.is_at);
        stands_there = f.stands_there;
        passes = f.passes;
        none_before = λ k c lt h. before k c f.none_before miss lt h;
      }
]
  where
    before :
        (k : ℕ) (c : Backend) {n : ℕ}
        → ((k : ℕ) (c : Backend) → k < n → get_elem? bs k ≡ some c → test c ≡ false)
        → test d ≡ false
        → k < suc n
        → get_elem? (d ∷ bs) k ≡ some c
        → test c ≡ false
    before zero c f miss lt h = let same : d ≡ c = cc in rw (← same) miss
    before (suc k) c f miss lt h = f k c (omega arith) h

-- The choice of `pick` without a preferred name: none when no backend is usable, or a usable backend in
-- front of all usable ones, by priority and then by place.
abbrev pub Picks : List Backend → ℕ → Type 0
Picks pool now =
    ((pick pool [] now ≡ none)
      × ((k : ℕ) (c : Backend) → get_elem? pool k ≡ some c → is_usable now c ≡ false))
    ⊎ ((i : ℕ) × (b : Backend) × (pick pool [] now ≡ some (i, b))
        × (get_elem? pool i ≡ some b)
        × (is_usable now b ≡ true)
        × ((k : ℕ) (c : Backend)
            → get_elem? pool k ≡ some c
            → is_usable now c ≡ true
            → NotBelow c.cfg.priority b.cfg.priority × (i ≤ k)))

pub pick_lem : (pool : List Backend) (now : ℕ) → Sorted pool → Picks pool now
unfolding pick
pick_lem pool now s = elim (Option-cases (first_from (is_usable now) 0 pool)) [
  | inl missing ↦ inl (missing, λ k c h. first_from-none (is_usable now) pool 0 k c missing h)
  | inr ((i, b), found) ↦
      let f = first_from-some (is_usable now) pool 0 i b found in
      let place : f.distance ≡ i = omega (arith, f.is_at) in
      let there : get_elem? pool i ≡ some b = rw place at f.stands_there in
      inr (i, b, found, there, f.passes, λ k c h usable. behind i b f place there k c h usable)
]
  where
    behind :
        (i : ℕ) (b : Backend) (f : Found (is_usable now) pool 0 i b)
        → f.distance ≡ i
        → get_elem? pool i ≡ some b
        → (k : ℕ) (c : Backend) → get_elem? pool k ≡ some c
        → is_usable now c ≡ true
        → NotBelow c.cfg.priority b.cfg.priority × (i ≤ k)
    behind i b f place there k c h usable = elim (Bool-cases (ltb k i)) [
      | inl before ↦ absurd (cc (f.none_before k c (ground (arith, place)) h, usable))
      | inr not_before ↦ elim (Bool-cases (k == i)) [
        | inl same ↦
            let e : k ≡ i = ground arith in
            let is_b : c ≡ b = cc (rw e at h, there) in (rw is_b (ground arith), omega (arith, e))
        | inr other ↦ (Sorted-get_elem? pool i k b c s (ground arith) there h, ground arith)
      ]
    ]
