-- ===== src/Backend/Calls.antt =====
-- The pool of backend.go over its life: no operation moves a backend or its priority.
use scpxy.Base.{
  ℕ, zero, suc, ◌≡◌, refl, Bool, true, false, none, some, List, [], ◌∷◌, get_elem?, set, inl, inr,
  arith, All, Option-cases,
}
use scpxy.Base.Int.{ℤ, pos, negsuc}
use scpxy.Config.{BackendConfig}
use scpxy.Backend.{
  Backend, new_backend_pool, by_name, success, failure, moved_players, update, mark_success,
  mark_failure, add_player, set_enabled,
}
use scpxy.Backend.Pick.{NotBelow, Sorted, slice_stable-Sorted, Picks, pick_lem}

-- What the proxy and the console do to the pool.
pub data Call : Type 0 where
  succeeds : ℕ → Call
  fails : ℕ → List ℕ → ℕ → Call
  moves : ℕ → ℤ → Call
  enables : List ℕ → Bool → Call

pub call : List Backend → Call → List Backend
call pool (succeeds i) = mark_success pool i
call pool (fails i reason now) = (mark_failure pool i reason now).0
call pool (moves i delta) = add_player pool i delta
call pool (enables name b) = (set_enabled pool name b).0

pub calls : List Backend → List Call → List Backend
calls pool [] = pool
calls pool (c ∷ cs) = calls (call pool c) cs

set-All :
    (x : ℤ) (pool : List Backend) (i : ℕ) (b b' : Backend)
    → All (λ c. NotBelow c.cfg.priority x) pool
    → get_elem? pool i ≡ some b
    → b'.cfg ≡ b.cfg
    → All (λ c. NotBelow c.cfg.priority x) (set pool i b')
set-All x [] i b b' a h e = a
set-All x (c ∷ cs) zero b b' a h e =
    let same : c ≡ b = cc in let kept : b'.cfg ≡ c.cfg = rw same e in (rw kept a.0, a.1)
set-All x (c ∷ cs) (suc i) b b' a h e = (a.0, set-All x cs i b b' a.1 h e)

set-Sorted :
    (pool : List Backend) (i : ℕ) (b b' : Backend)
    → Sorted pool
    → get_elem? pool i ≡ some b
    → b'.cfg ≡ b.cfg
    → Sorted (set pool i b')
unfolding Sorted
set-Sorted [] i b b' s h e = s
set-Sorted (c ∷ cs) zero b b' s h e =
    let same : c ≡ b = cc in let kept : b'.cfg ≡ c.cfg = rw same e in (rw kept s.0, s.1)
set-Sorted (c ∷ cs) (suc i) b b' s h e =
    (set-All c.cfg.priority cs i b b' s.0 h e, set-Sorted cs i b b' s.1 h e)

update-Sorted :
    (pool : List Backend) (i : ℕ) (f : Backend → Backend)
    → ((b : Backend) → (f b).cfg ≡ b.cfg)
    → Sorted pool
    → Sorted (update pool i f)
unfolding update
update-Sorted pool i f keeps s = elim (Option-cases (get_elem? pool i)) [
  | inl missing ↦ rw (missing, update) s
  | inr (b, there) ↦ rw (there, update) (set-Sorted pool i b (f b) s there (keeps b))
]

failure-cfg : (reason : List ℕ) (now : ℕ) (b : Backend) → (failure b reason now).0.cfg ≡ b.cfg
unfolding failure
failure-cfg reason now b = ground arith

moved_players-cfg : (delta : ℤ) (b : Backend) → (moved_players b delta).cfg ≡ b.cfg
unfolding moved_players
moved_players-cfg (pos d) b = refl
moved_players-cfg (negsuc d) b = refl

set_enabled_found :
    (pool : List Backend) (name : List ℕ) (on : Bool) (found : ℕ × Backend)
    → by_name pool name ≡ some found
    → set_enabled pool name on ≡ (update pool found.0 (λ b. record b { enabled = on }), true)
unfolding set_enabled
set_enabled_found pool name on found there = rw (there, set_enabled) refl

set_enabled_missing :
    (pool : List Backend) (name : List ℕ) (on : Bool)
    → by_name pool name ≡ none
    → set_enabled pool name on ≡ (pool, false)
unfolding set_enabled
set_enabled_missing pool name on missing = rw (missing, set_enabled) refl

set_enabled-Sorted :
    (pool : List Backend) (name : List ℕ) (on : Bool)
    → Sorted pool
    → Sorted (set_enabled pool name on).0
set_enabled-Sorted pool name on s = elim (Option-cases (by_name pool name)) [
  | inl missing ↦ rw (set_enabled_missing pool name on missing) s
  | inr (found, there) ↦
      rw (set_enabled_found pool name on found there)
        (update-Sorted pool found.0 (λ b. record b { enabled = on }) (λ b. refl) s)
]

call-Sorted : (pool : List Backend) (c : Call) → Sorted pool → Sorted (call pool c)
unfolding call mark_success mark_failure add_player success
call-Sorted pool (succeeds i) s = update-Sorted pool i success (λ b. refl) s
call-Sorted pool (fails i reason now) s =
    update-Sorted pool i (λ b. (failure b reason now).0) (failure-cfg reason now) s
call-Sorted pool (moves i delta) s =
    update-Sorted pool i (λ b. moved_players b delta) (moved_players-cfg delta) s
call-Sorted pool (enables name on) s = set_enabled-Sorted pool name on s

calls-Sorted : (pool : List Backend) (cs : List Call) → Sorted pool → Sorted (calls pool cs)
unfolding calls
calls-Sorted pool [] s = s
calls-Sorted pool (c ∷ cs) s = calls-Sorted (call pool c) cs (call-Sorted pool c s)

-- Whatever has been called on a new pool: `pick` without a preferred name finds none only when no
-- backend is usable, which is enabled, and healthy or due for a probe. Else it returns a usable
-- backend of the pool whose priority no usable one is below, the first of those in the pool.
pub pick_first_usable :
    (cfgs : List BackendConfig) (cs : List Call) (now : ℕ)
    → Picks (calls (new_backend_pool cfgs) cs) now
unfolding new_backend_pool
pick_first_usable cfgs cs now =
    pick_lem (calls (new_backend_pool cfgs) cs) now
      (calls-Sorted (new_backend_pool cfgs) cs (slice_stable-Sorted _))
