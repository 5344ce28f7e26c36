-- ===== src/Gate/Blocks.antt =====
-- How long gate.go refuses an address: a block set by the limiter, and a ban.
use scpxy.Base.{
  ℕ, ◌+◌, ◌≤◌, ◌<◌, ◌≡◌, refl, ap, ◌∙◌, false, Option, none, some, List, [], ◌∷◌, ◌⊎◌, inl, inr,
  ltb, arith, Bool-cases, All,
}
use scpxy.Base.Assoc.{Key, lookup, insert, lookup-insert, lookup-insert_self}
use scpxy.Gate.{
  Floats, Options, Bucket, Gate, denied_banned, denied_rate_limited, sweep, sweep_buckets, acquire,
  release, ban, unban, allow, allow_swept, allow_bucket, allow_refilled, refill, fresh_bucket,
  has_key, found_or,
}
use scpxy.Gate.Frame.{
  allow_refilled-Writes, allow_bucket_blocked, allow_bucket_open, allow_swept_banned,
  allow_swept_bucket, sweep-SameCounts,
}

-- A call at a time.
pub data Call (K : Type 0) : Type 0 where
  allows acquires releases bans unbans : K → Call K

module _ {K : Type 0} ⦃e : Key K⦄ (fl : Floats) where
  open fl use {F}

  pub call : Gate K F → ℕ → Call K → Gate K F
  call g now (allows k) = (allow fl g k now).0
  call g now (acquires k) = acquire g k
  call g now (releases k) = release g k
  call g now (bans k) = ban g k
  call g now (unbans k) = (unban g k).0

  pub calls : Gate K F → List (ℕ × Call K) → Gate K F
  calls g [] = g
  calls g ((now, c) ∷ cs) = calls (call g now c) cs

  -- The address has a bucket that blocks it up to the time `until`.
  abbrev pub IsBlocked : Gate K F → K → ℕ → Type 0
  IsBlocked g k until = (b : Bucket F) × (lookup k g.buckets ≡ some b) × (until ≤ b.blocked_until)

  sweep_buckets-kept :
      (sessions : List (K × ℕ)) (now : ℕ) (k : K) (b : Bucket F) (m : List (K × Bucket F))
      → now < b.blocked_until
      → lookup k m ≡ some b
      → lookup k (sweep_buckets sessions now m) ≡ some b
  unfolding sweep_buckets lookup
  sweep_buckets-kept sessions now k b [] h found = absurd (cc)
  sweep_buckets-kept sessions now k b ((j, c) ∷ m) h found =
      ground (arith, e.beq_iff j k, sweep_buckets-kept sessions now k b m h)

  pub sweep-IsBlocked :
      (g : Gate K F) (k : K) (now until : ℕ)
      → now < until
      → IsBlocked g k until
      → IsBlocked (sweep g now) k until
  unfolding sweep
  sweep-IsBlocked g k now until h (b, found, le) =
      elim (Bool-cases (ltb now (g.last_sweep + 60000000000))) [
        | inl early ↦ rw early (b, found, le)
        | inr due ↦
            rw due (b, sweep_buckets-kept g.sessions now k b g.buckets (omega arith) found, le)
      ]

  IsBlocked-written :
      (g : Gate K F) (m : List (K × Bucket F)) (k j : K) (b : Bucket F) (until : ℕ)
      → m ≡ insert j b g.buckets
      → ((j ≡ k) → until ≤ b.blocked_until)
      → IsBlocked g k until
      → (c : Bucket F) × (lookup k m ≡ some c) × (until ≤ c.blocked_until)
  IsBlocked-written g m k j b until w own (c, found, le) = elim (Bool-cases (e.beq j k)) [
    | inl hit ↦ (b, rw (w, lookup-insert j k b g.buckets, hit) refl, own ((e.beq_iff j k).0 hit))
    | inr miss ↦ (c, rw (w, lookup-insert j k b g.buckets, miss) found, le)
  ]

  -- A visit of any address before the block ends leaves it in place.
  allow_bucket-IsBlocked :
      (g : Gate K F) (k j : K) (b : Bucket F) (now until : ℕ)
      → now < until
      → ((j ≡ k) → until ≤ b.blocked_until)
      → IsBlocked g k until
      → IsBlocked (allow_bucket fl g j b now).0 k until
  allow_bucket-IsBlocked g k j b now until h own v = elim (Bool-cases (ltb now b.blocked_until)) [
    | inl early ↦
        IsBlocked-written g _ k j b until (allow_bucket_blocked fl g j b now (ground arith)).0 own v
    | inr late ↦
        let r = refill fl g.opts b now in
        let (c, w, _) = allow_refilled-Writes fl g j r now in
        rw (allow_bucket_open fl g j b now (ground arith)) (
          IsBlocked-written g _ k j c until w
            (λ same. absurd (omega (arith, own same, late_le late))) v)
  ]
    where
      late_le : ltb now b.blocked_until ≡ false → b.blocked_until ≤ now
      late_le l = ground arith

  allow_swept-IsBlocked :
      (g : Gate K F) (k j : K) (now until : ℕ)
      → now < until
      → IsBlocked g k until
      → IsBlocked (allow_swept fl g j now).0 k until
  allow_swept-IsBlocked g k j now until h (b, found, le) =
      elim (Bool-cases (has_key (lookup j g.banned))) [
        | inl out ↦ rw ((allow_swept_banned fl g j now out).0) (b, found, le)
        | inr in_ ↦ rw (allow_swept_bucket fl g j now in_) (
            allow_bucket-IsBlocked g k j _ now until h (λ same. rw (same, found) le) (b, found, le))
      ]

  allow-IsBlocked :
      (g : Gate K F) (k j : K) (now until : ℕ)
      → now < until
      → IsBlocked g k until
      → IsBlocked (allow fl g j now).0 k until
  unfolding allow
  allow-IsBlocked g k j now until h v =
      allow_swept-IsBlocked (sweep g now) k j now until h (sweep-IsBlocked g k now until h v)

  unban-buckets : (g : Gate K F) (k : K) → (unban g k).0.buckets ≡ g.buckets
  unfolding unban
  unban-buckets g k = ground arith

  -- Nothing but `Allow` touches the buckets.
  call-IsBlocked :
      (g : Gate K F) (k : K) (now until : ℕ) (c : Call K)
      → now < until
      → IsBlocked g k until
      → IsBlocked (call g now c) k until
  unfolding call acquire release ban
  call-IsBlocked g k now until (allows j) h v = allow-IsBlocked g k j now until h v
  call-IsBlocked g k now until (acquires j) h v = v
  call-IsBlocked g k now until (releases j) h v = v
  call-IsBlocked g k now until (bans j) h v = v
  call-IsBlocked g k now until (unbans j) h v = rw (unban-buckets g j) v

  pub calls-IsBlocked :
      (g : Gate K F) (k : K) (until : ℕ) (cs : List (ℕ × Call K))
      → All (λ c. c.0 < until) cs
      → IsBlocked g k until
      → IsBlocked (calls g cs) k until
  unfolding calls
  calls-IsBlocked g k until [] h v = v
  calls-IsBlocked g k until ((now, c) ∷ cs) h v =
      calls-IsBlocked (call g now c) k until cs h.1 (call-IsBlocked g k now until c h.0 v)

  -- While the block lasts the address is refused: as rate limited, or as banned.
  allow_refused :
      (g : Gate K F) (k : K) (now until : ℕ)
      → now < until
      → IsBlocked g k until
      → ((allow fl g k now).1 ≡ denied_rate_limited) ⊎ ((allow fl g k now).1 ≡ denied_banned)
  unfolding allow
  allow_refused g k now until h v = step (sweep-IsBlocked g k now until h v)
    where
      s : Gate K F
      s = sweep g now

      step :
          IsBlocked s k until
          → ((allow_swept fl s k now).1 ≡ denied_rate_limited)
            ⊎ ((allow_swept fl s k now).1 ≡ denied_banned)
      step (b, found, le) = elim (Bool-cases (has_key (lookup k s.banned))) [
        | inl out ↦ inr (allow_swept_banned fl s k now out).1
        | inr in_ ↦ inl (
            rw (allow_swept_bucket fl s k now in_, found)
              (allow_bucket_blocked fl s k b now (omega arith)).1)
      ]

  -- Where the limiter says no on a refilled bucket, the block ends `block_duration` later.
  limited-IsBlocked :
      (g : Gate K F) (k : K) (b : Bucket F) (now until : ℕ)
      → until ≤ now + g.opts.block_duration
      → (allow_refilled fl g k b now).1 ≡ denied_rate_limited
      → IsBlocked (allow_refilled fl g k b now).0 k until
  unfolding allow_refilled
  limited-IsBlocked g k b now until ends h = elim (Bool-cases (fl.lt b.tokens (fl.of_int 1))) [
    | inl empty ↦ rw empty (
      record b { blocked_until = now + g.opts.block_duration },
      lookup-insert_self k _ g.buckets,
      omega arith,
    )
    | inr filled ↦ absurd (ground arith)
  ]

  allow_limited-IsBlocked :
      (g : Gate K F) (k : K) (now until : ℕ)
      → until ≤ now + g.opts.block_duration
      → ((b : Bucket F) → lookup k g.buckets ≡ some b → b.blocked_until ≤ now)
      → (allow_swept fl g k now).1 ≡ denied_rate_limited
      → IsBlocked (allow_swept fl g k now).0 k until
  allow_limited-IsBlocked g k now until ends free h =
      elim (Bool-cases (has_key (lookup k g.banned))) [
        | inl out ↦ absurd (cc ((allow_swept_banned fl g k now out).1))
        | inr in_ ↦
            let b = found_or (lookup k g.buckets) (fresh_bucket fl g.opts now) in
            let whole =
              allow_swept_bucket fl g k now in_
              ∙ allow_bucket_open fl g k b now (idle (lookup k g.buckets) refl) in
            rw whole (limited-IsBlocked g k (refill fl g.opts b now) now until ends (rw whole at h))
      ]
    where
      fresh_idle : (fresh_bucket fl g.opts now).blocked_until ≤ now
      fresh_idle = unfold fresh_bucket in omega arith

      idle :
          (o : Option (Bucket F))
          → lookup k g.buckets ≡ o
          → (found_or o (fresh_bucket fl g.opts now)).blocked_until ≤ now
      idle none eo = fresh_idle
      idle (some b) eo = free b eo

  -- An address that the limiter of `Allow` refuses, with no block of it in force, is refused from then
  -- on for the block's length, whatever else is called before that on the gate: each later `Allow`
  -- answers that it is rate limited or banned.
  pub limited_for_block :
      (g : Gate K F) (k : K) (now later : ℕ) (cs : List (ℕ × Call K))
      → ((b : Bucket F) → lookup k (sweep g now).buckets ≡ some b → b.blocked_until ≤ now)
      → (allow fl g k now).1 ≡ denied_rate_limited
      → All (λ c. c.0 < now + g.opts.block_duration) cs
      → later < now + g.opts.block_duration
      → ((allow fl (calls (allow fl g k now).0 cs) k later).1 ≡ denied_rate_limited)
        ⊎ ((allow fl (calls (allow fl g k now).0 cs) k later).1 ≡ denied_banned)
  unfolding allow
  limited_for_block g k now later cs free h early late =
      let until = now + g.opts.block_duration in
      let same : (sweep g now).opts.block_duration ≡ g.opts.block_duration =
        ap (λ (o : Options F). o.block_duration) ((sweep-SameCounts fl g now).same_opts) in
      let set = allow_limited-IsBlocked (sweep g now) k now until (omega arith) free h in
      allow_refused (calls (allow fl g k now).0 cs) k later until late
        (calls-IsBlocked (allow fl g k now).0 k until cs early set)
