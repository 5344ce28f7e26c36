-- ===== src/Gate.antt =====
-- internal/security/gate.go: bans, the connection limiter and the session counts of each address.
-- A key is the text of an IP address, `now` is the clock's value at the call in nanoseconds, and
-- the zero time is 0. The token counts are floats, which the program computes with by way of
-- `Floats`; int counters that only grow are unbounded, the uint64 ones wrap.
pub mod Frame
pub mod Blocks
pub mod Admission
pub mod Counts
mod Tests
use Prim.Native.String.{String}
use scpxy.Base.{
  ℕ, zero, suc, ◌+◌, ◌-◌, ◌*◌, ◌%◌, ◌^◌, Bool, true, false, not, ◌&&◌, ◌||◌, Option, none, some,
  List, [], ◌∷◌, ◌++◌, map, length, ltb, leb, ◌==◌, if◌then◌else◌,
}
use scpxy.Base.Assoc.{Key, lookup, insert, erase}

-- Go's float64 as far as the gate uses it: `elapsed now last` is `now.Sub(last).Seconds()`, and
-- `minus_one` is `--`.
pub record Floats : Type 1 where
  pub F : Type 0
  pub of_int : ℕ → F
  pub elapsed : ℕ → ℕ → F
  pub add : F → F → F
  pub mul : F → F → F
  pub lt : F → F → Bool
  pub minus_one : F → F

-- In nanoseconds.
abbrev pub second : ℕ
second = 1_000_000_000

abbrev pub sweep_interval : ℕ
sweep_interval = 60 * second

abbrev pub bucket_idle_time : ℕ
bucket_idle_time = 5 * 60 * second

pub data Decision : Type 0 where
  allowed denied_banned denied_rate_limited denied_too_many_sessions denied_full : Decision

pub decision_text : Decision → String
decision_text allowed = "allowed"
decision_text denied_banned = "banned"
decision_text denied_rate_limited = "rate limited"
decision_text denied_too_many_sessions = "too many sessions"
decision_text denied_full = "server full"

pub decision_message : Decision → String
decision_message allowed = ""
decision_message denied_banned = "You are banned from this proxy."
decision_message denied_rate_limited = "Too many connection attempts. Try again in a moment."
decision_message denied_too_many_sessions = "Too many connections from your address."
decision_message denied_full = "The server is full."

-- A limit of 0 (or less, in Go) means none.
pub record Options (F : Type 0) : Type 0 where
  pub rate_per_second : F
  pub burst : ℕ
  pub block_duration : ℕ
  pub max_sessions_per_ip : ℕ
  pub max_sessions : ℕ

pub record Bucket (F : Type 0) : Type 0 where
  pub tokens : F
  pub last : ℕ
  pub blocked_until : ℕ

pub record Gate (K F : Type 0) : Type 0 where
  pub opts : Options F
  pub buckets : List (K × Bucket F)
  pub sessions : List (K × ℕ)
  pub banned : List (K × Unit {0})
  pub total : ℕ
  pub last_sweep : ℕ
  pub blocked : ℕ
  pub rejected : ℕ

-- A uint64 counter's `++`.
abbrev pub bump : ℕ → ℕ
bump n = (n + 1) % 2 ^ 64

-- A read of a map of ints: a missing key reads as 0.
abbrev pub or_zero : Option ℕ → ℕ
or_zero none = 0
or_zero (some n) = n

abbrev pub has_key {ℓ} : {V : Type ℓ} → Option V → Bool
has_key none = false
has_key (some v) = true

abbrev pub found_or {ℓ} : {V : Type ℓ} → Option V → V → V
found_or none d = d
found_or (some v) d = v

module _ {K : Type 0} ⦃e : Key K⦄ where
  unfoldable pub count : List (K × ℕ) → K → ℕ
  count m k = or_zero (lookup k m)

  -- The banned texts that `net.ParseIP` accepts, each as the text of the address.
  pub ban_all : List (Option K) → List (K × Unit {0}) → List (K × Unit {0})
  ban_all [] m = m
  ban_all (none ∷ raws) m = ban_all raws m
  ban_all (some k ∷ raws) m = ban_all raws (insert k tt m)

module _ {K : Type 0} ⦃e : Key K⦄ {F : Type 0} where
  -- `parsed` is `opts.Banned` behind `net.ParseIP`.
  unfoldable pub new_gate : Options F → List (Option K) → ℕ → Gate K F
  unfolding ban_all
  new_gate o parsed now = record {
    opts = o;
    buckets = [];
    sessions = [];
    banned = ban_all parsed [];
    total = 0;
    last_sweep = now;
    blocked = 0;
    rejected = 0;
  }

  abbrev pub keeps : List (K × ℕ) → ℕ → K → Bucket F → Bool
  keeps sessions now k b =
      ltb now b.blocked_until || (ltb now (b.last + bucket_idle_time) || ltb 0 (count sessions k))

  pub sweep_buckets : List (K × ℕ) → ℕ → List (K × Bucket F) → List (K × Bucket F)
  sweep_buckets sessions now [] = []
  sweep_buckets sessions now ((k, b) ∷ m) =
      if keeps sessions now k b
      then (k, b) ∷ sweep_buckets sessions now m
      else sweep_buckets sessions now m

  unfoldable pub sweep : Gate K F → ℕ → Gate K F
  sweep g now =
      if ltb now (g.last_sweep + sweep_interval)
      then g
      else record g { last_sweep = now; buckets = sweep_buckets g.sessions now g.buckets }

  unfoldable pub acquire : Gate K F → K → Gate K F
  acquire g k = record g {
    sessions = insert k (count g.sessions k + 1) g.sessions;
    total = g.total + 1;
  }

  unfoldable pub release : Gate K F → K → Gate K F
  release g k = record g {
    sessions =
        if leb (count g.sessions k) 1
        then erase k g.sessions
        else insert k (count g.sessions k - 1) g.sessions;
    total = if ltb 0 g.total then g.total - 1 else g.total;
  }

  unfoldable pub ban : Gate K F → K → Gate K F
  ban g k = record g { banned = insert k tt g.banned }

  unfoldable pub unban : Gate K F → K → Gate K F × Bool
  unban g k =
      if has_key (lookup k g.banned)
      then (record g { banned = erase k g.banned }, true)
      else (g, false)

module _ {K F : Type 0} where
  unfoldable pub banned_list : Gate K F → List K
  banned_list g = map (λ s. s.0) g.banned

  pub blocked_at : ℕ → List (K × Bucket F) → ℕ
  blocked_at now [] = 0
  blocked_at now ((k, b) ∷ m) =
      if ltb now b.blocked_until then suc (blocked_at now m) else blocked_at now m

pub record Stats : Type 0 where
  pub rejected : ℕ
  pub rate_limited : ℕ
  pub active_ips : ℕ
  pub blocked_ips : ℕ
  pub total_active : ℕ
  pub banned_count : ℕ

unfoldable pub stats : {K F : Type 0} → Gate K F → ℕ → Stats
unfolding blocked_at
stats g now = record {
  rejected = g.rejected;
  rate_limited = g.blocked;
  active_ips = length g.sessions;
  blocked_ips = blocked_at now g.buckets;
  total_active = g.total;
  banned_count = length g.banned;
}

module _ (fl : Floats) where
  open fl use {F, of_int, elapsed, add, mul, lt}

  unfoldable pub fresh_bucket : Options F → ℕ → Bucket F
  fresh_bucket o now = record { tokens = of_int o.burst; last = now; blocked_until = 0 }

  -- The tokens that have come since the last visit, up to the burst.
  unfoldable pub refill : Options F → Bucket F → ℕ → Bucket F
  refill o b now =
      let tokens = add b.tokens (mul (elapsed now b.last) o.rate_per_second) in
      record b {
        last = now;
        tokens = if lt (of_int o.burst) tokens then of_int o.burst else tokens;
      }

module _ {K : Type 0} ⦃e : Key K⦄ (fl : Floats) where
  open fl use {F, of_int, lt, minus_one}

  abbrev pub put_bucket : Gate K F → K → Bucket F → Gate K F
  put_bucket g k b = record g { buckets = insert k b g.buckets }

  -- `Allow` from the refilled bucket on.
  unfoldable pub allow_refilled : Gate K F → K → Bucket F → ℕ → Gate K F × Decision
  allow_refilled g k b now =
      if lt b.tokens (of_int 1)
      then (
        record (put_bucket g k (record b { blocked_until = now + g.opts.block_duration })) {
          blocked = bump g.blocked;
          rejected = bump g.rejected;
        },
        denied_rate_limited,
      )
      else if ltb 0 g.opts.max_sessions_per_ip
          && leb g.opts.max_sessions_per_ip (count g.sessions k)
      then (record (put_bucket g k b) { rejected = bump g.rejected }, denied_too_many_sessions)
      else if ltb 0 g.opts.max_sessions && leb g.opts.max_sessions g.total
      then (record (put_bucket g k b) { rejected = bump g.rejected }, denied_full)
      else (put_bucket g k (record b { tokens = minus_one b.tokens }), allowed)

  -- `Allow` from the bucket on, which is new or was found.
  unfoldable pub allow_bucket : Gate K F → K → Bucket F → ℕ → Gate K F × Decision
  unfolding allow_refilled refill
  allow_bucket g k b now =
      if ltb now b.blocked_until
      then (
        record (put_bucket g k b) { blocked = bump g.blocked; rejected = bump g.rejected },
        denied_rate_limited,
      )
      else allow_refilled g k (refill fl g.opts b now) now

  -- `Allow` behind the sweep.
  unfoldable pub allow_swept : Gate K F → K → ℕ → Gate K F × Decision
  unfolding allow_bucket fresh_bucket
  allow_swept g k now =
      if has_key (lookup k g.banned)
      then (record g { rejected = bump g.rejected }, denied_banned)
      else allow_bucket g k (found_or (lookup k g.buckets) (fresh_bucket fl g.opts now)) now

  unfoldable pub allow : Gate K F → K → ℕ → Gate K F × Decision
  unfolding allow_swept sweep
  allow g k now = allow_swept (sweep g now) k now
