-- ===== src/Config.antt =====
-- internal/config/config.go: what `Normalize` checks and fills in. Text is its bytes. The fields that
-- it does not touch are left out, a duration is in nanoseconds, and a negative burst or
-- timeout reads as 0, which is refused alike.
pub mod Normal
mod Tests
use scpxy.Base.{
  ℕ, zero, suc, ◌+◌, ◌*◌, Bool, true, false, not, Option, none, some, List, [], ◌∷◌, length, ltb,
  ◌==◌, if◌then◌else◌,
}
use scpxy.Base.Int.{ℤ, pos, negsuc}
use scpxy.Base.Assoc.{bytes_beq}
use scpxy.Stream.{Result, ok, err, ◌>>=◌}

abbrev pub min_handshake_timeout_value : ℕ
min_handshake_timeout_value = 1_000_000_000

abbrev pub default_health_interval : ℤ
default_health_interval = pos 10_000_000_000

abbrev pub default_health_failures : ℤ
default_health_failures = pos 3

-- "0.0.0.0:7777"
abbrev pub default_bind : List ℕ
default_bind =
    b'0' ∷ b'.' ∷ b'0' ∷ b'.' ∷ b'0' ∷ b'.' ∷ b'0' ∷ b':' ∷ b'7' ∷ b'7' ∷ b'7' ∷ b'7' ∷ []

abbrev pub valid_log_levels : List (List ℕ)
valid_log_levels =
    (b'd' ∷ b'e' ∷ b'b' ∷ b'u' ∷ b'g' ∷ [])
    ∷ (b'i' ∷ b'n' ∷ b'f' ∷ b'o' ∷ [])
    ∷ (b'w' ∷ b'a' ∷ b'r' ∷ b'n' ∷ [])
    ∷ (b'e' ∷ b'r' ∷ b'r' ∷ b'o' ∷ b'r' ∷ [])
    ∷ []

-- `config.Backend`; `resolved` is the text of the UDP address, and none is nil.
pub record BackendConfig : Type 0 where
  pub name : List ℕ
  pub address : List ℕ
  pub priority : ℤ
  pub enabled : Option Bool
  pub health_interval : ℤ
  pub health_failures : ℤ
  pub resolved : Option (List ℕ)

unfoldable pub is_enabled : BackendConfig → Bool
is_enabled c = elim c.enabled [ none ↦ true | some b ↦ b ]

pub record Config (F : Type 0) : Type 0 where
  pub bind : List ℕ
  pub log_level : List ℕ
  pub handshake_timeout : ℕ
  pub connect_rate_per_ip : F
  pub connect_burst_per_ip : ℕ
  pub banned : List (List ℕ)
  pub backends : List BackendConfig

-- The library calls: `net.ResolveUDPAddr`, `net.ParseIP`, and the float test against 0.1.
pub record Library : Type 1 where
  pub F : Type 0
  pub resolve : List ℕ → Option (List ℕ)
  pub is_ip : List ℕ → Bool
  pub below_min_rate : F → Bool

pub data ConfigError : Type 0 where
  bad_bind bad_log_level short_timeout low_rate low_burst no_backends : ConfigError
  bad_ip : List ℕ → ConfigError
  unnamed : ℕ → ConfigError
  duplicate bad_address : List ℕ → ConfigError

unfoldable pub has_text : List ℕ → List (List ℕ) → Bool
has_text t [] = false
has_text t (u ∷ us) = if bytes_beq u t then true else has_text t us

unfoldable pub check_banned : (List ℕ → Bool) → List (List ℕ) → Result ConfigError (Unit {0})
check_banned is_ip [] = ok tt
check_banned is_ip (raw ∷ raws) = if is_ip raw then check_banned is_ip raws else err (bad_ip raw)

abbrev pub is_zero : ℤ → Bool
is_zero (pos n) = n == 0
is_zero (negsuc n) = false

-- The defaults of one backend, with its address resolved.
abbrev pub filled : BackendConfig → List ℕ → BackendConfig
filled b addr = record b {
  resolved = some addr;
  health_interval =
      if is_zero b.health_interval then default_health_interval else b.health_interval;
  health_failures =
      if is_zero b.health_failures then default_health_failures else b.health_failures;
}

-- The loop over the backends, from the number `i` on, with the names that it has seen.
unfoldable pub normalize_backends :
    (List ℕ → Option (List ℕ))
    → List (List ℕ)
    → ℕ
    → List BackendConfig
    → Result ConfigError (List BackendConfig)
normalize_backends resolve seen i [] = ok []
normalize_backends resolve seen i (b ∷ bs) =
    if length b.name == 0
    then err (unnamed i)
    else if has_text b.name seen
    then err (duplicate b.name)
    else elim (resolve b.address) [
      | none ↦ err (bad_address b.name)
      | some addr ↦ normalize_backends resolve (b.name ∷ seen) (i + 1) bs >>= λ rest.
          ok (filled b addr ∷ rest)
    ]

module _ (lib : Library) where
  open lib use {F, resolve, is_ip, below_min_rate}

  abbrev pub with_bind : Config F → Config F
  with_bind c = record c { bind = if length c.bind == 0 then default_bind else c.bind }

  -- From the bind address on.
  unfoldable pub checked : Config F → Result ConfigError (Config F)
  checked c =
      if not (has_text c.log_level valid_log_levels)
      then err bad_log_level
      else if ltb c.handshake_timeout min_handshake_timeout_value
      then err short_timeout
      else if below_min_rate c.connect_rate_per_ip
      then err low_rate
      else if ltb c.connect_burst_per_ip 1
      then err low_burst
      else (check_banned is_ip c.banned >>= λ u.
          if length c.backends == 0
          then err no_backends
          else (normalize_backends resolve [] 1 c.backends >>= λ bs.
              ok (record c { backends = bs })))

  unfoldable pub normalize : Config F → Result ConfigError (Config F)
  normalize c = elim (resolve (with_bind c).bind) [
    | none ↦ err bad_bind
    | some addr ↦ checked (with_bind c)
  ]
