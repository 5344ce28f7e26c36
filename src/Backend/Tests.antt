-- ===== src/Backend/Tests.antt =====
-- Runs of internal/proxy/backend.go.
use scpxy.Base.{
  ℕ, ◌+◌, ◌≡◌, ◌≤◌, refl, true, false, ◌&&◌, some, none, List, [], ◌∷◌, length, map, ltb, leb, ◌==◌,
  arith,
}
use scpxy.Base.Int.{ℤ, pos, negsuc}
use scpxy.Config.{BackendConfig, is_enabled}
use scpxy.Backend.{
  Backend, new_backend, insert_by_priority, slice_stable, new_backend_pool, first_from, pick,
  is_usable, failure, success, backend_recovery_probe, mark_failure, update,
}
use scpxy.Backend.Pick.{Sorted, Picks}
use scpxy.Backend.Calls.{Call, fails, enables, calls, pick_first_usable}
use scpxy.Backend.Stable.{of_priority, new_backend_pool_lem}
use scpxy.Backend.Health.{failing, failures_in_a_row}

abbrev configured : ℕ → ℤ → BackendConfig
configured name priority = record {
  name = name ∷ [];
  address = [];
  priority = priority;
  enabled = none;
  health_failures = pos 2;
  health_interval = pos 0;
  resolved = none;
}

abbrev three : List BackendConfig
three = configured b'a' (pos 5) ∷ configured b'b' (negsuc 0) ∷ configured b'c' (pos 5) ∷ []

-- The lowest priority comes first.
chosen : pick (new_backend_pool three) [] 7 ≡ some (0, new_backend (configured b'b' (negsuc 0)))
unfolding pick new_backend_pool slice_stable insert_by_priority new_backend is_enabled first_from
chosen = refl

-- After two failures of it the second is chosen, which came first in the configuration.
next_chosen :
    pick (mark_failure (mark_failure (new_backend_pool three) 0 [] 7).0 0 [] 8).0 [] 9
    ≡ some (1, new_backend (configured b'a' (pos 5)))
unfolding pick new_backend_pool slice_stable insert_by_priority new_backend is_enabled first_from
    mark_failure failure update
next_chosen = refl

abbrev some_calls : List Call
some_calls = fails 0 [] 7 ∷ fails 0 [] 8 ∷ enables (b'a' ∷ []) false ∷ []

pick_first_usable_example : Picks (calls (new_backend_pool three) some_calls) 9
pick_first_usable_example = pick_first_usable three some_calls 9

new_backend_pool_lem_example :
    Sorted (new_backend_pool three)
    × (length (new_backend_pool three) ≡ length (map new_backend three))
    × (of_priority (pos 5) (new_backend_pool three) ≡ of_priority (pos 5) (map new_backend three))
new_backend_pool_lem_example = new_backend_pool_lem three (pos 5)

abbrev one : Backend
one = record {
  cfg = configured b'a' (pos 5);
  enabled = true;
  healthy = true;
  failures = 0;
  players = 0;
  last_error = [];
  down_since = 0;
  next_probe = 0;
}

abbrev once : List (List ℕ × ℕ)
once = ([], 7) ∷ []

failures_in_a_row_example :
    ((failing (success one) once).healthy ≡ ltb (length once) 2)
    × ((failure (failing (success one) once) [] 8).1 ≡ (length once + 1 == 2))
    × (2 ≤ length once + 1
        → is_usable 9 (failure (failing (success one) once) [] 8).0
          ≡ (true && leb (8 + backend_recovery_probe) 9))
failures_in_a_row_example = failures_in_a_row one 2 once [] 8 9 refl (omega arith)
