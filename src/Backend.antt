-- ===== src/Backend.antt =====
-- internal/proxy/backend.go: the pool of backends. A backend is a pointer into the pool in Go; here it
-- is its place in the pool's list, which never moves after the sort. `now` is the clock's value at the
-- call, in nanoseconds; the zero time is 0.
pub mod Pick
pub mod Calls
pub mod Stable
pub mod Health
mod Tests
use scpxy.Base.{
  ℕ, zero, suc, ◌+◌, ◌-◌, ◌*◌, Bool, true, false, not, ◌&&◌, ◌||◌, Option, none, some, List, [],
  ◌∷◌, length, map, get_elem?, set, ltb, ◌==◌, if◌then◌else◌,
}
use scpxy.Base.Int.{ℤ, pos, negsuc, ltb_ℤ}
use scpxy.Base.Assoc.{bytes_beq}
use scpxy.Config.{BackendConfig, is_enabled}

abbrev pub backend_recovery_probe : ℕ
backend_recovery_probe = 30 * 1_000_000_000

pub record Backend : Type 0 where
  pub cfg : BackendConfig
  pub enabled : Bool
  pub healthy : Bool
  pub failures : ℕ
  pub players : ℕ
  pub last_error : List ℕ
  pub down_since : ℕ
  pub next_probe : ℕ

unfoldable pub new_backend : BackendConfig → Backend
unfolding is_enabled
new_backend c = record {
  cfg = c;
  enabled = is_enabled c;
  healthy = true;
  failures = 0;
  players = 0;
  last_error = [];
  down_since = 0;
  next_probe = 0;
}

-- `sort.SliceStable` by the priority, as an insertion sort: a backend goes in front of those that
-- have its priority already.
unfoldable pub insert_by_priority : Backend → List Backend → List Backend
insert_by_priority b [] = b ∷ []
insert_by_priority b (c ∷ cs) =
    if ltb_ℤ c.cfg.priority b.cfg.priority then c ∷ insert_by_priority b cs else b ∷ c ∷ cs

unfoldable pub slice_stable : List Backend → List Backend
slice_stable [] = []
slice_stable (b ∷ bs) = insert_by_priority b (slice_stable bs)

unfoldable pub new_backend_pool : List BackendConfig → List Backend
new_backend_pool cfgs = slice_stable (map new_backend cfgs)

-- The first backend from the place `i` on that passes a test, with its place.
unfoldable pub first_from : (Backend → Bool) → ℕ → List Backend → Option (ℕ × Backend)
first_from test i [] = none
first_from test i (b ∷ bs) = if test b then some (i, b) else first_from test (i + 1) bs

abbrev pub has_name : List ℕ → Backend → Bool
has_name name b = bytes_beq b.cfg.name name

-- The two tests of the loop in `pick`.
abbrev pub is_usable : ℕ → Backend → Bool
is_usable now b = b.enabled && (b.healthy || not (ltb now b.next_probe))

-- `pick`; the address that it also returns is `cfg.resolved` of the backend.
unfoldable pub pick : List Backend → List ℕ → ℕ → Option (ℕ × Backend)
pick pool preferred now =
    if not (length preferred == 0)
    then elim (first_from (has_name preferred) 0 pool) [
      | none ↦ none
      | some found ↦ if found.1.enabled then some found else none
    ]
    else first_from (is_usable now) 0 pool

unfoldable pub by_name : List Backend → List ℕ → Option (ℕ × Backend)
by_name pool name = first_from (has_name name) 0 pool

unfoldable pub success : Backend → Backend
success b = record b {
  failures = 0;
  last_error = [];
  healthy = true;
  down_since = if b.healthy then b.down_since else 0;
}

-- Whether the backend went down by this failure.
unfoldable pub failure : Backend → List ℕ → ℕ → Backend × Bool
failure b reason now =
    let counted : Backend = record b {
      failures = b.failures + 1;
      last_error = reason;
      next_probe = now + backend_recovery_probe;
    } in
    if not b.healthy
    then (counted, false)
    else if ltb_ℤ (pos (b.failures + 1)) b.cfg.health_failures
    then (counted, false)
    else (record counted { healthy = false; down_since = now }, true)

-- `players + delta`, and 0 when that is negative.
unfoldable pub moved_players : Backend → ℤ → Backend
moved_players b (pos d) = record b { players = b.players + d }
moved_players b (negsuc d) = record b { players = b.players - (d + 1) }

-- An operation on the backend in a place.
unfoldable pub update : List Backend → ℕ → (Backend → Backend) → List Backend
update pool i f = elim (get_elem? pool i) [ none ↦ pool | some b ↦ set pool i (f b) ]

unfoldable pub mark_success : List Backend → ℕ → List Backend
mark_success pool i = update pool i success

unfoldable pub mark_failure : List Backend → ℕ → List ℕ → ℕ → List Backend × Bool
mark_failure pool i reason now =
    (update pool i (λ b. (failure b reason now).0), down (get_elem? pool i))
  where
    down : Option Backend → Bool
    down none = false
    down (some b) = (failure b reason now).1

unfoldable pub add_player : List Backend → ℕ → ℤ → List Backend
add_player pool i delta = update pool i (λ b. moved_players b delta)

unfoldable pub set_enabled : List Backend → List ℕ → Bool → List Backend × Bool
set_enabled pool name enabled = elim (by_name pool name) [
  | none ↦ (pool, false)
  | some found ↦ (update pool found.0 (λ b. record b { enabled = enabled }), true)
]

pub record BackendState : Type 0 where
  pub name : List ℕ
  pub address : List ℕ
  pub enabled : Bool
  pub healthy : Bool
  pub players : ℕ
  pub failures : ℕ
  pub last_error : List ℕ
  pub down_since : ℕ

unfoldable pub state_of : Backend → BackendState
state_of b = record {
  name = b.cfg.name;
  address = b.cfg.address;
  enabled = b.enabled;
  healthy = b.healthy;
  players = b.players;
  failures = b.failures;
  last_error = b.last_error;
  down_since = b.down_since;
}

unfoldable pub snapshot : List Backend → List BackendState
snapshot pool = map state_of pool
