-- ===== src/Gate/Tests.antt =====
-- Runs of internal/security/gate.go, with whole numbers in the place of its floats.
use scpxy.Base.{
  ℕ, ◌+◌, ◌-◌, ◌*◌, ◌/◌, ◌≡◌, ◌≤◌, ◌<◌, refl, some, List, [], ◌∷◌, ltb, arith, ◌⊎◌, All,
}
use scpxy.Base.Assoc.{nat_key, lookup, insert}
use scpxy.Gate.{
  Floats, Options, Bucket, Gate, allowed, denied_rate_limited, denied_banned, second, new_gate,
  sweep, allow, allow_swept, allow_bucket, allow_refilled, refill, fresh_bucket, acquire, release,
  count, ban_all,
}
use scpxy.Gate.Blocks.{Call, calls, acquires, limited_for_block}
use scpxy.Gate.Counts.{
  Represents, give_back, held, acquire-Represents, new_gate-Represents, release-Represents,
}
use scpxy.Gate.Admission.{
  HasRoom, allowed-HasRoom, Visit, enters, leaves, visits, Within, visits-new_gate,
}

abbrev whole : Floats
whole = record {
  F = ℕ;
  of_int = λ n. n;
  elapsed = λ now last. (now - last) / second;
  add = λ a b. a + b;
  mul = λ a b. a * b;
  lt = ltb;
  minus_one = λ n. n - 1;
}

-- One attempt in burst, none in time, a block of ten seconds, two sessions in all.
abbrev limits : Options ℕ
limits = record {
  rate_per_second = 0;
  burst = 1;
  block_duration = 10 * second;
  max_sessions_per_ip = 1;
  max_sessions = 2;
}

abbrev start : Gate ℕ ℕ
start = new_gate limits [] 0

abbrev asked : Gate ℕ ℕ
asked = (allow whole start 7 second).0

first_is_allowed : (allow whole start 7 second).1 ≡ allowed
unfolding allow allow_swept allow_bucket allow_refilled refill fresh_bucket sweep new_gate lookup
    count ban_all
first_is_allowed = refl

second_is_not : (allow whole asked 7 second).1 ≡ denied_rate_limited
unfolding allow allow_swept allow_bucket allow_refilled refill fresh_bucket sweep new_gate lookup
    insert count ban_all
second_is_not = refl

no_block :
    (b : Bucket ℕ) → lookup 7 (sweep asked second).buckets ≡ some b → b.blocked_until ≤ second
unfolding allow allow_swept allow_bucket allow_refilled refill fresh_bucket sweep new_gate lookup
    insert count ban_all
no_block b found = ground arith

abbrev between : List (ℕ × Call ℕ)
between = (2 * second, acquires 7) ∷ []

early : All (λ c. c.0 < second + asked.opts.block_duration) between
unfolding allow allow_swept allow_bucket allow_refilled refill fresh_bucket sweep new_gate lookup
    insert count ban_all
early = (omega arith, tt)

late : 5 * second < second + asked.opts.block_duration
unfolding allow allow_swept allow_bucket allow_refilled refill fresh_bucket sweep new_gate lookup
    insert count ban_all
late = omega arith

limited_for_block_example :
    ((allow whole (calls whole (allow whole asked 7 second).0 between) 7 (5 * second)).1
      ≡ denied_rate_limited)
    ⊎ ((allow whole (calls whole (allow whole asked 7 second).0 between) 7 (5 * second)).1
        ≡ denied_banned)
limited_for_block_example =
    limited_for_block whole asked 7 second (5 * second) between no_block second_is_not early late

allowed-HasRoom_example : HasRoom start 7
allowed-HasRoom_example = allowed-HasRoom whole start 7 second first_is_allowed

abbrev visited : List (ℕ × Visit ℕ)
visited = (second, enters 7) ∷ (second, enters 8) ∷ (second, enters 9) ∷ (2 * second, leaves 8) ∷ []

visits-new_gate_example :
    Within whole limits
      (visits {K = ℕ} whole (new_gate limits [] 0) [] visited).0
      (visits {K = ℕ} whole (new_gate limits [] 0) [] visited).1
visits-new_gate_example = visits-new_gate whole limits [] 0 visited

entered : Represents (acquire start 7) (7 ∷ [])
entered = acquire-Represents start 7 [] (new_gate-Represents limits [] 0)

one_held : 0 < held {K = ℕ} 7 (7 ∷ [])
unfolding held
one_held = omega arith

release-Represents_example : Represents (release (acquire start 7) 7) (give_back 7 (7 ∷ []))
release-Represents_example = release-Represents (acquire start 7) 7 (7 ∷ []) entered one_held
