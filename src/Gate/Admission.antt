-- ===== src/Gate/Admission.antt =====
-- Whom `Allow` of gate.go lets in, and the limits on sessions that follow.
use scpxy.Base.{
  ℕ, ◌≤◌, ◌<◌, ◌≡◌, refl, ap, ◌∙◌, Bool, true, false, Option, List, [], ◌∷◌, ◌⊎◌, inl, inr, ltb,
  if◌then◌else◌, arith, Bool-cases, length,
}
use scpxy.Base.Assoc.{Key, lookup}
use scpxy.Gate.{
  Floats, Options, Bucket, Gate, Decision, allowed, sweep, allow, allow_swept, allow_bucket,
  allow_refilled, refill, fresh_bucket, has_key, found_or, count, new_gate, acquire, release, ban,
  unban,
}
use scpxy.Gate.Frame.{
  SameCounts, sweep-SameCounts, allow-SameCounts, allow_bucket_blocked, allow_bucket_open,
  allow_swept_banned, allow_swept_bucket,
}
use scpxy.Gate.Counts.{
  Represents, held, give_back, held-give_back, length-give_back, acquire-Represents,
  release-Represents, new_gate-Represents,
}

module _ {K : Type 0} ⦃e : Key K⦄ where
  -- There is room for one more session of `k`; a limit of 0 is no limit.
  pub record HasRoom {F : Type 0} (g : Gate K F) (k : K) : Type 0 where
    pub room_of_address :
        (g.opts.max_sessions_per_ip ≡ 0) ⊎ (count g.sessions k < g.opts.max_sessions_per_ip)
    pub room_in_all : (g.opts.max_sessions ≡ 0) ⊎ (g.total < g.opts.max_sessions)
    pub not_banned : has_key (lookup k g.banned) ≡ false

module _ {K : Type 0} ⦃e : Key K⦄ (fl : Floats) where
  open fl use {F}

  refilled_room :
      (g : Gate K F) (k : K) (b : Bucket F) (now : ℕ)
      → (allow_refilled fl g k b now).1 ≡ allowed
      → ((g.opts.max_sessions_per_ip ≡ 0) ⊎ (count g.sessions k < g.opts.max_sessions_per_ip))
        × ((g.opts.max_sessions ≡ 0) ⊎ (g.total < g.opts.max_sessions))
        × (fl.lt b.tokens (fl.of_int 1) ≡ false)
  unfolding allow_refilled
  refilled_room g k b now h = ground arith

  swept_room : (g : Gate K F) (k : K) (now : ℕ) → (allow_swept fl g k now).1 ≡ allowed → HasRoom g k
  swept_room g k now h = elim (Bool-cases (has_key (lookup k g.banned))) [
    | inl out ↦ absurd (cc ((allow_swept_banned fl g k now out).1))
    | inr in_ ↦
        let b = found_or (lookup k g.buckets) (fresh_bucket fl g.opts now) in
        inner b in_ (rw (allow_swept_bucket fl g k now in_) at h)
  ]
    where
      inner :
          (b : Bucket F)
          → has_key (lookup k g.banned) ≡ false
          → (allow_bucket fl g k b now).1 ≡ allowed
          → HasRoom g k
      inner b in_ h = elim (Bool-cases (ltb now b.blocked_until)) [
        | inl early ↦ absurd (cc ((allow_bucket_blocked fl g k b now (ground arith)).1))
        | inr late ↦
            let (ip, all, _) =
              refilled_room g k (refill fl g.opts b now) now
                (rw (allow_bucket_open fl g k b now (ground arith)) at h) in
            record { room_of_address = ip; room_in_all = all; not_banned = in_ }
      ]

  -- `Allow` lets in only an address that is not banned and has room, by its own limit and the total.
  pub allowed-HasRoom :
      (g : Gate K F) (k : K) (now : ℕ) → (allow fl g k now).1 ≡ allowed → HasRoom g k
  unfolding allow
  allowed-HasRoom g k now h =
      let s = sweep-SameCounts fl g now in
      let r = swept_room (sweep g now) k now h in
      record {
        room_of_address = ground (arith, r.room_of_address, s.same_opts, s.same_sessions);
        room_in_all = ground (arith, r.room_in_all, s.same_opts, s.same_total);
        not_banned = rw (← s.same_banned) r.not_banned;
      }

-- What the proxy does with an address: it asks and takes a session when it may, it asks and leaves
-- it at that, it ends a session, and the console bans and unbans.
pub data Visit (K : Type 0) : Type 0 where
  enters tries leaves bans unbans : K → Visit K

abbrev pub is_allowed : Decision → Bool
is_allowed allowed = true
is_allowed _ = false

is_allowed-eq : (d : Decision) → is_allowed d ≡ true → d ≡ allowed
is_allowed-eq allowed h = refl
is_allowed-eq _ h = absurd (cc)

module _ {K : Type 0} ⦃e : Key K⦄ (fl : Floats) where
  open fl use {F}

  -- The gate, and the addresses that hold a session.
  pub visit : Gate K F → List K → ℕ × Visit K → Gate K F × List K
  visit g hs (now, enters k) =
      let (g', d) = allow fl g k now in if is_allowed d then (acquire g' k, k ∷ hs) else (g', hs)
  visit g hs (now, tries k) = ((allow fl g k now).0, hs)
  visit g hs (now, leaves k) = if ltb 0 (held k hs) then (release g k, give_back k hs) else (g, hs)
  visit g hs (now, bans k) = (ban g k, hs)
  visit g hs (now, unbans k) = ((unban g k).0, hs)

  pub visits : Gate K F → List K → List (ℕ × Visit K) → Gate K F × List K
  visits g hs [] = (g, hs)
  visits g hs (v ∷ vs) = let (g', hs') = visit g hs v in visits g' hs' vs

  -- The counts are right and within the limits; a limit of 0 is none.
  pub record Within (o : Options F) (g : Gate K F) (hs : List K) : Type 0 where
    pub opts_kept : g.opts ≡ o
    pub represented : Represents g hs
    pub all_fit : (o.max_sessions ≡ 0) ⊎ (length hs ≤ o.max_sessions)
    pub each_fits : (o.max_sessions_per_ip ≡ 0) ⊎ ((k : K) → held k hs ≤ o.max_sessions_per_ip)

  SameCounts-Within :
      (o : Options F) (g h : Gate K F) (hs : List K)
      → SameCounts g h
      → Within o g hs
      → Within o h hs
  SameCounts-Within o g h hs s w = record {
    opts_kept = s.same_opts ∙ w.opts_kept;
    represented = record {
      counted = λ k. ap (λ (m : List (K × ℕ)). count m k) s.same_sessions ∙ w.represented.counted k;
      summed = s.same_total ∙ w.represented.summed;
    };
    all_fit = w.all_fit;
    each_fits = w.each_fits;
  }

  enter_each :
      (n : ℕ) (k : K) (hs : List K)
      → (n ≡ 0) ⊎ (held k hs < n)
      → (n ≡ 0) ⊎ ((j : K) → held j hs ≤ n)
      → (n ≡ 0) ⊎ ((j : K) → held j (k ∷ hs) ≤ n)
  unfolding held
  enter_each n k hs (inl z) f = inl z
  enter_each n k hs (inr lt) (inl z) = inl z
  enter_each n k hs (inr lt) (inr f) = inr (λ j. ground (arith, e.beq_iff k j, f j))

  leave_each :
      (n : ℕ) (k : K) (hs : List K)
      → 0 < held k hs
      → (n ≡ 0) ⊎ ((j : K) → held j hs ≤ n)
      → (n ≡ 0) ⊎ ((j : K) → held j (give_back k hs) ≤ n)
  leave_each n k hs h (inl z) = inl z
  leave_each n k hs h (inr f) = inr (λ j. ground (arith, held-give_back k j hs h, f j))

  acquire-Within :
      (o : Options F) (g : Gate K F) (k : K) (hs : List K)
      → HasRoom g k
      → Within o g hs
      → Within o (acquire g k) (k ∷ hs)
  acquire-Within o g k hs r w = record {
    opts_kept = unfold acquire in w.opts_kept;
    represented = acquire-Represents g k hs w.represented;
    all_fit = ground (arith, r.room_in_all, w.all_fit, w.opts_kept, w.represented.summed);
    each_fits =
        enter_each o.max_sessions_per_ip k hs
          (ground (arith, r.room_of_address, w.opts_kept, w.represented.counted k)) w.each_fits;
  }

  release-Within :
      (o : Options F) (g : Gate K F) (k : K) (hs : List K)
      → 0 < held k hs
      → Within o g hs
      → Within o (release g k) (give_back k hs)
  release-Within o g k hs h w = record {
    opts_kept = unfold release in w.opts_kept;
    represented = release-Represents g k hs w.represented h;
    all_fit = ground (arith, w.all_fit, length-give_back k hs h);
    each_fits = leave_each o.max_sessions_per_ip k hs h w.each_fits;
  }

  -- A gate that differs in its bans only.
  banned-Within :
      (o : Options F) (g h : Gate K F) (hs : List K)
      → h.opts ≡ g.opts
      → h.sessions ≡ g.sessions
      → h.total ≡ g.total
      → Within o g hs
      → Within o h hs
  banned-Within o g h hs eo es et w = record {
    opts_kept = eo ∙ w.opts_kept;
    represented = record {
      counted = λ k. ap (λ (m : List (K × ℕ)). count m k) es ∙ w.represented.counted k;
      summed = et ∙ w.represented.summed;
    };
    all_fit = w.all_fit;
    each_fits = w.each_fits;
  }

  unban-Within :
      (o : Options F) (g : Gate K F) (k : K) (hs : List K)
      → Within o g hs
      → Within o (unban g k).0 hs
  unfolding unban
  unban-Within o g k hs w = banned-Within o g _ hs (ground arith) (ground arith) (ground arith) w

  visit-Within :
      (o : Options F) (g : Gate K F) (hs : List K) (v : ℕ × Visit K)
      → Within o g hs
      → Within o (visit g hs v).0 (visit g hs v).1
  unfolding visit
  visit-Within o g hs (now, enters k) w =
      let s = allow-SameCounts fl g k now in
      let w' = SameCounts-Within o g (allow fl g k now).0 hs s w in
      elim (Bool-cases (is_allowed (allow fl g k now).1)) [
        | inl in_ ↦
            let r = allowed-HasRoom fl g k now (is_allowed-eq (allow fl g k now).1 in_) in
            rw in_ (acquire-Within o (allow fl g k now).0 k hs (room s r) w')
        | inr out ↦ rw out w'
      ]
    where
      room : {h : Gate K F} → SameCounts g h → HasRoom g k → HasRoom h k
      room s r = record {
        room_of_address = ground (arith, s.same_opts, s.same_sessions, r.room_of_address);
        room_in_all = ground (arith, s.same_opts, s.same_total, r.room_in_all);
        not_banned = rw s.same_banned r.not_banned;
      }
  visit-Within o g hs (now, tries k) w = SameCounts-Within o g _ hs (allow-SameCounts fl g k now) w
  visit-Within o g hs (now, leaves k) w = elim (Bool-cases (ltb 0 (held k hs))) [
    | inl some_ ↦ rw some_ (release-Within o g k hs (ground arith) w)
    | inr none_ ↦ rw none_ w
  ]
  visit-Within o g hs (now, bans k) w = unfold ban in (banned-Within o g _ hs refl refl refl w)
  visit-Within o g hs (now, unbans k) w = unban-Within o g k hs w

  visits-Within :
      (o : Options F) (g : Gate K F) (hs : List K) (vs : List (ℕ × Visit K))
      → Within o g hs
      → Within o (visits g hs vs).0 (visits g hs vs).1
  unfolding visits
  visits-Within o g hs [] w = w
  visits-Within o g hs (v ∷ vs) w =
      visits-Within o (visit g hs v).0 (visit g hs v).1 vs (visit-Within o g hs v w)

  -- From a new gate on, whatever visits come: the counts are the sessions held, the total is their
  -- number, no more sessions are held than the limit for all, and by no address more than the limit
  -- for one.
  pub visits-new_gate :
      (o : Options F) (parsed : List (Option K)) (start : ℕ) (vs : List (ℕ × Visit K))
      → Within o
          (visits (new_gate o parsed start) [] vs).0
          (visits (new_gate o parsed start) [] vs).1
  visits-new_gate o parsed start vs = visits-Within o (new_gate o parsed start) [] vs (record {
    opts_kept = unfold new_gate in refl;
    represented = new_gate-Represents o parsed start;
    all_fit = inr (omega arith);
    each_fits = inr (λ k. unfold held in omega arith);
  })
