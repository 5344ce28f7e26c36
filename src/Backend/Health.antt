-- ===== src/Backend/Health.antt =====
-- When a backend of backend.go counts as down.
use scpxy.Base.{
  ℕ, suc, ◌+◌, ◌≤◌, ◌<◌, ◌≡◌, refl, ◌&&◌, List, [], ◌∷◌, length, ltb, leb, ◌==◌, arith,
}
use scpxy.Base.Int.{pos}
use scpxy.Backend.{Backend, failure, success, is_usable, backend_recovery_probe}

-- Failures in a row, each with its reason and time.
pub failing : Backend → List (List ℕ × ℕ) → Backend
failing b [] = b
failing b ((reason, now) ∷ rs) = failing (failure b reason now).0 rs

-- The health of a backend that has failed `n` times in a row.
record AfterFailures (b b' : Backend) (limit n : ℕ) : Type 0 where
  counted : b'.failures ≡ n
  same_cfg : b'.cfg.health_failures ≡ pos limit
  same_enabled : b'.enabled ≡ b.enabled
  health : b'.healthy ≡ ltb n limit

one_more :
    (b b' : Backend) (limit n : ℕ) (reason : List ℕ) (now : ℕ)
    → AfterFailures b b' limit n
    → AfterFailures b (failure b' reason now).0 limit (n + 1)
unfolding failure
one_more b b' limit n reason now a = record {
  counted = ground (arith, a.counted);
  same_cfg = ground (arith, a.same_cfg);
  same_enabled = ground (arith, a.same_enabled);
  health = ground (arith, a.counted, a.same_cfg, a.health);
}

all_failures :
    (b b' : Backend) (limit n : ℕ) (rs : List (List ℕ × ℕ))
    → AfterFailures b b' limit n
    → AfterFailures b (failing b' rs) limit (n + length rs)
unfolding failing
all_failures b b' limit n [] a = let e : n + 0 ≡ n = omega arith in rw e a
all_failures b b' limit n ((reason, now) ∷ rs) a =
    let e : n + suc (length rs) ≡ n + 1 + length rs = omega arith in
    rw e (
      all_failures b (failure b' reason now).0 limit (n + 1) rs
        (one_more b b' limit n reason now a))

-- A backend that has just succeeded, with a limit of one failure at least, and fails again and again:
-- it is healthy while the failures are fewer than its limit, and the one failure that reaches the
-- limit reports that it went down. From then on it is not usable until 30 seconds after the last
-- failure, and usable again from that time on if it is enabled.
pub failures_in_a_row :
    (b : Backend) (limit : ℕ) (rs : List (List ℕ × ℕ)) (reason : List ℕ) (now later : ℕ)
    → b.cfg.health_failures ≡ pos limit
    → 0 < limit
    → ((failing (success b) rs).healthy ≡ ltb (length rs) limit)
      × ((failure (failing (success b) rs) reason now).1 ≡ (length rs + 1 == limit))
      × (limit ≤ length rs + 1
          → is_usable later (failure (failing (success b) rs) reason now).0
            ≡ (b.enabled && leb (now + backend_recovery_probe) later))
unfolding success
failures_in_a_row b limit rs reason now later is_limit h =
    let a = all_failures b (success b) limit 0 rs (record {
      counted = refl;
      same_cfg = is_limit;
      same_enabled = refl;
      health = ground arith;
    }) in
    let n : 0 + length rs ≡ length rs = omega arith in step (failing (success b) rs) (rw n at a)
  where
    step :
        (b' : Backend)
        → AfterFailures b b' limit (length rs)
        → (b'.healthy ≡ ltb (length rs) limit)
          × ((failure b' reason now).1 ≡ (length rs + 1 == limit))
          × (limit ≤ length rs + 1
              → is_usable later (failure b' reason now).0
                ≡ (b.enabled && leb (now + backend_recovery_probe) later))
    step b' a = (a.health, reports b' a, λ reached. down b' a reached)
      where
        reports :
            (b' : Backend)
            → AfterFailures b b' limit (length rs)
            → (failure b' reason now).1 ≡ (length rs + 1 == limit)
        reports b' a = unfold failure in ground (arith, a.counted, a.same_cfg, a.health)

        down :
            (b' : Backend)
            → AfterFailures b b' limit (length rs)
            → limit ≤ length rs + 1
            → is_usable later (failure b' reason now).0
              ≡ (b.enabled && leb (now + backend_recovery_probe) later)
        down b' a reached =
            unfold failure in ground (arith, a.counted, a.same_cfg, a.health, a.same_enabled)
