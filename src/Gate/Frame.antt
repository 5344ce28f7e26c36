-- ===== src/Gate/Frame.antt =====
-- What `Allow` of gate.go leaves alone, and which bucket it writes.
use scpxy.Base.{
  ℕ, ◌+◌, ◌≤◌, ◌<◌, ◌≡◌, refl, ◌∙◌, true, false, ◌&&◌, ◌⊎◌, inl, inr, ltb, leb, arith, Bool-cases,
  lt→ltb, le→ltb,
}
use scpxy.Base.Assoc.{Key, lookup, insert}
use scpxy.Gate.{
  Floats, Bucket, Gate, denied_banned, denied_rate_limited, sweep, allow, allow_swept, allow_bucket,
  allow_refilled, refill, fresh_bucket, has_key, found_or, count,
}

-- A gate that differs from `g` in its buckets and its counters of refusals only.
pub record SameCounts {K F : Type 0} (g h : Gate K F) : Type 0 where
  pub same_opts : h.opts ≡ g.opts
  pub same_sessions : h.sessions ≡ g.sessions
  pub same_total : h.total ≡ g.total
  pub same_banned : h.banned ≡ g.banned

module _ {K : Type 0} ⦃e : Key K⦄ (fl : Floats) where
  open fl use {F}

  -- The bucket of the address is written back, and nothing else.
  pub allow_refilled-Writes :
      (g : Gate K F) (k : K) (b : Bucket F) (now : ℕ)
      → (c : Bucket F) × ((allow_refilled fl g k b now).0.buckets ≡ insert k c g.buckets)
        × ((b.blocked_until ≤ c.blocked_until)
            ⊎ ((allow_refilled fl g k b now).1 ≡ denied_rate_limited))
  unfolding allow_refilled
  allow_refilled-Writes g k b now = elim (Bool-cases (fl.lt b.tokens (fl.of_int 1))) [
    | inl empty ↦ (
      record b { blocked_until = now + g.opts.block_duration },
      rw empty refl,
      inr (rw empty refl),
    )
    | inr filled ↦
        elim (Bool-cases (
          ltb 0 g.opts.max_sessions_per_ip
          && leb g.opts.max_sessions_per_ip (count g.sessions k))) [
            | inl many ↦ (b, rw (filled, many) refl, inl (omega arith))
            | inr few ↦
                elim (Bool-cases (ltb 0 g.opts.max_sessions && leb g.opts.max_sessions g.total)) [
                  | inl full ↦ (b, rw (filled, few, full) refl, inl (omega arith))
                  | inr room ↦ (
                    record b { tokens = fl.minus_one b.tokens },
                    rw (filled, few, room) refl,
                    inl (omega arith),
                  )
                ]
          ]
  ]

  pub allow_bucket-SameCounts :
      (g : Gate K F) (k : K) (b : Bucket F) (now : ℕ) → SameCounts g (allow_bucket fl g k b now).0
  unfolding allow_bucket
  allow_bucket-SameCounts g k b now = record {
    same_opts = ground arith;
    same_sessions = ground arith;
    same_total = ground arith;
    same_banned = ground arith;
  }

  pub sweep-SameCounts : (g : Gate K F) (now : ℕ) → SameCounts g (sweep g now)
  unfolding sweep
  sweep-SameCounts g now = record {
    same_opts = ground arith;
    same_sessions = ground arith;
    same_total = ground arith;
    same_banned = ground arith;
  }

  allow_swept-SameCounts :
      (g : Gate K F) (k : K) (now : ℕ) → SameCounts g (allow_swept fl g k now).0
  unfolding allow_swept
  allow_swept-SameCounts g k now = elim (Bool-cases (has_key (lookup k g.banned))) [
    | inl out ↦
        rw (out, allow_swept)
          (record { same_opts = refl; same_sessions = refl; same_total = refl; same_banned = refl })
    | inr in_ ↦ rw (in_, allow_swept) (allow_bucket-SameCounts g k _ now)
  ]

  -- `Allow` changes nothing but buckets, the counters of refusals and the time of the last sweep.
  pub allow-SameCounts : (g : Gate K F) (k : K) (now : ℕ) → SameCounts g (allow fl g k now).0
  unfolding allow
  allow-SameCounts g k now =
      let s = sweep-SameCounts g now in
      let a = allow_swept-SameCounts (sweep g now) k now in
      record {
        same_opts = a.same_opts ∙ s.same_opts;
        same_sessions = a.same_sessions ∙ s.same_sessions;
        same_total = a.same_total ∙ s.same_total;
        same_banned = a.same_banned ∙ s.same_banned;
      }

  -- The ways through `allow_bucket` and `allow_swept`.
  pub allow_bucket_blocked :
      (g : Gate K F) (k : K) (b : Bucket F) (now : ℕ)
      → now < b.blocked_until
      → ((allow_bucket fl g k b now).0.buckets ≡ insert k b g.buckets)
        × ((allow_bucket fl g k b now).1 ≡ denied_rate_limited)
  unfolding allow_bucket
  allow_bucket_blocked g k b now h = rw (lt→ltb now b.blocked_until h) (refl, refl)

  pub allow_bucket_open :
      (g : Gate K F) (k : K) (b : Bucket F) (now : ℕ)
      → b.blocked_until ≤ now
      → allow_bucket fl g k b now ≡ allow_refilled fl g k (refill fl g.opts b now) now
  unfolding allow_bucket
  allow_bucket_open g k b now h = rw (le→ltb now b.blocked_until h) refl

  pub allow_swept_banned :
      (g : Gate K F) (k : K) (now : ℕ)
      → has_key (lookup k g.banned) ≡ true
      → ((allow_swept fl g k now).0.buckets ≡ g.buckets)
        × ((allow_swept fl g k now).1 ≡ denied_banned)
  unfolding allow_swept
  allow_swept_banned g k now out = rw (out, allow_swept) (refl, refl)

  pub allow_swept_bucket :
      (g : Gate K F) (k : K) (now : ℕ)
      → has_key (lookup k g.banned) ≡ false
      → allow_swept fl g k now
        ≡ allow_bucket fl g k (found_or (lookup k g.buckets) (fresh_bucket fl g.opts now)) now
  unfolding allow_swept
  allow_swept_bucket g k now out = rw (out, allow_swept) refl
