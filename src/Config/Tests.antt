-- ===== src/Config/Tests.antt =====
-- Runs of internal/config/config.go.
use scpxy.Base.{ℕ, ◌≡◌, refl, Bool, true, false, Option, some, none, List, [], ◌∷◌, length, All}
use scpxy.Base.Int.{pos}
use scpxy.Stream.{ok, err}
use scpxy.Config.{
  BackendConfig, Library, Config, filled, normalize_backends, has_text, duplicate, checked,
  normalize, short_timeout,
}
use scpxy.Config.Normal.{Ready, Distinct, normalize_backends-Ready}

abbrev named : ℕ → BackendConfig
named n = record {
  name = n ∷ [];
  address = 1 ∷ [];
  priority = pos 0;
  enabled = none;
  health_interval = pos 0;
  health_failures = pos 0;
  resolved = none;
}

abbrev resolves : List ℕ → Option (List ℕ)
resolves a = some a

twice : normalize_backends resolves [] 1 (named 7 ∷ named 7 ∷ []) ≡ err (duplicate (7 ∷ []))
unfolding normalize_backends has_text
twice = refl

-- A library that accepts every address, and no rate below 1.
abbrev lenient : Library
lenient = record { F = Bool; resolve = resolves; is_ip = λ a. true; below_min_rate = λ low. low }

abbrev hasty : Config Bool
hasty = record {
  bind = [];
  log_level = b'i' ∷ b'n' ∷ b'f' ∷ b'o' ∷ [];
  handshake_timeout = 5;
  connect_rate_per_ip = false;
  connect_burst_per_ip = 1;
  banned = [];
  backends = [];
}

refused : normalize lenient hasty ≡ err short_timeout
unfolding normalize checked has_text
refused = refl

abbrev two_named : List BackendConfig
two_named = filled (named 7) (1 ∷ []) ∷ filled (named 8) (1 ∷ []) ∷ []

two_accepted : normalize_backends resolves [] 1 (named 7 ∷ named 8 ∷ []) ≡ ok two_named
unfolding normalize_backends has_text
two_accepted = refl

normalize_backends-Ready_example :
    All (Ready resolves) two_named × Distinct [] two_named × (length two_named ≡ 2)
normalize_backends-Ready_example =
    normalize_backends-Ready (named 7 ∷ named 8 ∷ []) resolves [] 1 two_named two_accepted
