-- ===== src/Backend/Stable.antt =====
-- The order of a new pool of backend.go.
use scpxy.Base.{
  ◌≡◌, refl, ap, sym, ◌∙◌, Bool, true, false, not, ◌&&◌, List, [], ◌∷◌, length, map, if◌then◌else◌,
  inl, inr, arith, Bool-cases, ◌+◌,
}
use scpxy.Base.Int.{ℤ, ltb_ℤ}
use scpxy.Config.{BackendConfig}
use scpxy.Backend.{Backend, new_backend, insert_by_priority, slice_stable, new_backend_pool}
use scpxy.Backend.Pick.{Sorted, slice_stable-Sorted}

abbrev same_priority : ℤ → Backend → Bool
same_priority z b = not (ltb_ℤ b.cfg.priority z) && not (ltb_ℤ z b.cfg.priority)

-- The backends of one priority, in their order.
pub of_priority : ℤ → List Backend → List Backend
of_priority z [] = []
of_priority z (b ∷ bs) = if same_priority z b then b ∷ of_priority z bs else of_priority z bs

-- Two backends with one lower than the other are not of one priority.
apart :
    (z : ℤ) (b c : Backend)
    → ltb_ℤ c.cfg.priority b.cfg.priority ≡ true
    → same_priority z b ≡ true
    → same_priority z c ≡ false
apart z b c h k = ground arith

passed_by :
    (z : ℤ) (b : Backend) (cs : List Backend)
    → same_priority z b ≡ false
    → of_priority z (b ∷ cs) ≡ of_priority z cs
unfolding of_priority
passed_by z b cs other = rw other refl

of_priority-insert :
    (z : ℤ) (b : Backend) (cs : List Backend)
    → of_priority z (insert_by_priority b cs) ≡ of_priority z (b ∷ cs)
unfolding of_priority insert_by_priority
of_priority-insert z b [] = refl
of_priority-insert z b (c ∷ cs) = elim (Bool-cases (ltb_ℤ c.cfg.priority b.cfg.priority)) [
  | inr not_lower ↦ rw not_lower refl
  | inl lower ↦ elim (Bool-cases (same_priority z b)) [
    | inl mine ↦ rw (lower, apart z b c lower mine) (of_priority-insert z b cs)
    | inr other ↦ rw lower (
        ap (λ t. if same_priority z c then c ∷ t else t)
          (of_priority-insert z b cs ∙ passed_by z b cs other)
        ∙ sym (passed_by z b (c ∷ cs) other))
  ]
]

length-insert : (b : Backend) (cs : List Backend) → length (insert_by_priority b cs) ≡ length cs + 1
unfolding insert_by_priority
length-insert b [] = refl
length-insert b (c ∷ cs) = ground (arith, length-insert b cs)

slice_stable_lem :
    (z : ℤ) (bs : List Backend)
    → (of_priority z (slice_stable bs) ≡ of_priority z bs) × (length (slice_stable bs) ≡ length bs)
unfolding slice_stable of_priority
slice_stable_lem z [] = (refl, refl)
slice_stable_lem z (b ∷ bs) =
    let (kept, n) = slice_stable_lem z bs in
    (
      of_priority-insert z b (slice_stable bs)
          ∙ ap (λ t. if same_priority z b then b ∷ t else t) kept,
      ground (arith, length-insert b (slice_stable bs)),
    )

-- A new pool has the configured backends in the order of their priorities, and those of one priority
-- in the order of the configuration.
pub new_backend_pool_lem :
    (cfgs : List BackendConfig) (z : ℤ)
    → Sorted (new_backend_pool cfgs)
      × (length (new_backend_pool cfgs) ≡ length (map new_backend cfgs))
      × (of_priority z (new_backend_pool cfgs) ≡ of_priority z (map new_backend cfgs))
unfolding new_backend_pool
new_backend_pool_lem cfgs z =
    let (kept, n) = slice_stable_lem z (map new_backend cfgs) in (slice_stable-Sorted _, n, kept)
