-- ===== src/Proxy/Accounts.antt =====
-- The gate's counts and the backends' players of internal/proxy/proxy.go are those of the open
-- sessions: what each part of a handler does to them.
use scpxy.Base.{
  ℕ, zero, suc, ◌+◌, ◌-◌, ◌<◌, ◌≡◌, ◌≢◌, refl, sym, ◌∙◌, Bool, true, false, Option, none, some,
  List, [], ◌∷◌, length, if◌then◌else◌, ◌==◌, arith, inl, inr, Option-cases,
}
use scpxy.Base.Int.{pos, negsuc}
use scpxy.Base.Assoc.{lookup, insert, nat_key, bytes_key, bytes_beq_iff, lookup-insert_ne}
use scpxy.Gate.{Gate, acquire, release}
use scpxy.Gate.Counts.{
  Represents, held, give_back, held-give_back, length-give_back, acquire-Represents,
  release-Represents,
}
use scpxy.Backend.{Backend, update, add_player, moved_players}
use scpxy.Session.{Session, is_closed}
use scpxy.Proxy.Open.{
  open_ips, on_backend, open_ips-insert, on_backend-insert, open_ips-update, on_backend-update,
  open_ips-close, on_backend-close,
}

-- The players that a backend of the pool counts.
unfoldable pub players_at : List Backend → ℕ → Option ℕ
players_at [] b = none
players_at (c ∷ cs) zero = some c.players
players_at (c ∷ cs) (suc b) = players_at cs b

update-cons :
    (c : Backend) (cs : List Backend) (i : ℕ) (f : Backend → Backend)
    → update (c ∷ cs) (suc i) f ≡ c ∷ update cs i f
unfolding update
update-cons c cs i f = ground arith

abbrev mapped : (ℕ → ℕ) → Option ℕ → Option ℕ
mapped g none = none
mapped g (some n) = some (g n)

pub players_at-update :
    (pool : List Backend) (i b : ℕ) (f : Backend → Backend) (g : ℕ → ℕ)
    → ((c : Backend) → (f c).players ≡ g c.players)
    → players_at (update pool i f) b
      ≡ (if i == b then mapped g (players_at pool b) else players_at pool b)
unfolding players_at update
players_at-update [] i b f g h = ground arith
players_at-update (c ∷ cs) zero zero f g h = ground (arith, h c)
players_at-update (c ∷ cs) zero (suc b) f g h = ground arith
players_at-update (c ∷ cs) (suc i) zero f g h = rw (update-cons c cs i f) (ground arith)
players_at-update (c ∷ cs) (suc i) (suc b) f g h =
    rw (update-cons c cs i f) (ground (arith, players_at-update cs i b f g h))

pub players_at-same :
    (pool : List Backend) (i b : ℕ) (f : Backend → Backend)
    → ((c : Backend) → (f c).players ≡ c.players)
    → players_at (update pool i f) b ≡ players_at pool b
players_at-same pool i b f h =
    players_at-update pool i b f (λ n. n) h ∙ same (i == b) (players_at pool b)
  where
    same : (test : Bool) (o : Option ℕ) → (if test then mapped (λ n. n) o else o) ≡ o
    same true none = refl
    same true (some n) = refl
    same false o = refl

module _ {F : Type 0} where
  -- The counts are those of the open sessions, and no id is in use beyond the last one given.
  pub record Accounts (gate : Gate (List ℕ) F) (pool : List Backend) (store : List (ℕ × Session))
      (last : ℕ) : Type 0 where
    pub represents : Represents gate (open_ips store)
    pub players_are : (b : ℕ) (n : ℕ) → players_at pool b ≡ some n → n ≡ on_backend b store
    pub fresh : (j : ℕ) → last < j → lookup j store ≡ none

  Represents-same :
      (g : Gate (List ℕ) F) (hs is : List (List ℕ))
      → Represents g hs
      → ((k : List ℕ) → held k hs ≡ held k is)
      → length hs ≡ length is
      → Represents g is
  Represents-same g hs is r h l = record { counted = λ k. r.counted k ∙ h k; summed = r.summed ∙ l }

  -- A session that changes and stays open, or stays closed.
  pub changed-Accounts :
      (g : Gate (List ℕ) F) (pool : List Backend) (store : List (ℕ × Session)) (last id : ℕ)
      (s s' : Session)
      → Accounts g pool store last
      → lookup id store ≡ some s
      → s'.real_ip ≡ s.real_ip
      → s'.backend ≡ s.backend
      → is_closed s'.state ≡ is_closed s.state
      → Accounts g pool (insert id s' store) last
  changed-Accounts g pool store last id s s' a there ip backend state = record {
    represents = rw (open_ips-update id s s' ip backend store there state) a.represents;
    players_are = λ b n h.
        a.players_are b n h ∙ sym (on_backend-update id s s' ip backend store b there state);
    fresh = λ j h.
        let ne : id ≢ j = λ e. absurd (cc (a.fresh j h, rw e at there)) in
        lookup-insert_ne id j s' store ne ∙ a.fresh j h;
  }

  -- A new session, counted.
  pub counted-Accounts :
      (g : Gate (List ℕ) F) (pool : List Backend) (store : List (ℕ × Session)) (last : ℕ)
      (s : Session)
      → Accounts g pool store last
      → is_closed s.state ≡ false
      → Accounts
          (acquire g s.real_ip)
          (add_player pool s.backend (pos 1))
          (insert (last + 1) s store)
          (last + 1)
  unfolding add_player moved_players held
  counted-Accounts g pool store last s a open_ =
      let new = a.fresh (last + 1) (omega arith) in
      record {
        represents =
            Represents-same _ (s.real_ip ∷ open_ips store) _
              (acquire-Represents g s.real_ip (open_ips store) a.represents)
              (λ k. sym (open_ips-insert (last + 1) s store k new open_).0)
              (omega (arith, (open_ips-insert (last + 1) s store [] new open_).1));
        players_are = λ b n h. arrived b n (
            sym (
              players_at-update pool s.backend b (λ c. moved_players c (pos 1)) (λ k. k + 1)
                (λ c. refl))
            ∙ h);
        fresh = λ j h.
            lookup-insert_ne (last + 1) j s store (λ e. absurd (omega arith))
            ∙ a.fresh j (omega arith);
      }
    where
      arrived :
          (b n : ℕ)
          → (if s.backend == b then mapped (λ k. k + 1) (players_at pool b) else players_at pool b)
            ≡ some n
          → n ≡ on_backend b (insert (last + 1) s store)
      arrived b n h = elim (Option-cases (players_at pool b)) [
        | inl e ↦ ground (arith, h, e)
        | inr (k, e) ↦ ground (
          arith,
          h,
          e,
          a.players_are b k e,
          on_backend-insert (last + 1) s store b (a.fresh (last + 1) (omega arith)) open_,
        )
      ]

  -- An open session that is closed.
  pub closed-Accounts :
      (g : Gate (List ℕ) F) (pool : List Backend) (store : List (ℕ × Session)) (last id : ℕ)
      (s s' : Session)
      → Accounts g pool store last
      → lookup id store ≡ some s
      → s'.real_ip ≡ s.real_ip
      → s'.backend ≡ s.backend
      → is_closed s.state ≡ false
      → is_closed s'.state ≡ true
      → Accounts
          (release g s.real_ip)
          (add_player pool s.backend (negsuc 0))
          (insert id s' store)
          last
  unfolding add_player moved_players
  closed-Accounts g pool store last id s s' a there ip backend open_ shut =
      let after = λ (k : List ℕ). open_ips-close id s s' ip backend store k there open_ shut in
      let some_held : 0 < held s.real_ip (open_ips store) =
        ground (arith, (bytes_beq_iff s.real_ip s.real_ip).1 refl, (after s.real_ip).0) in
      record {
        represents =
            Represents-same _ (give_back s.real_ip (open_ips store)) _
              (release-Represents g s.real_ip (open_ips store) a.represents some_held)
              (λ k.
                ground (arith, held-give_back s.real_ip k (open_ips store) some_held, (after k).0))
              (omega (arith, length-give_back s.real_ip (open_ips store) some_held, (after []).1));
        players_are = λ b n h. left b n (
            sym (
              players_at-update pool s.backend b (λ c. moved_players c (negsuc 0)) (λ k. k - 1)
                (λ c. refl))
            ∙ h);
        fresh = λ j h.
            let ne : id ≢ j = λ e. absurd (cc (a.fresh j h, rw e at there)) in
            lookup-insert_ne id j s' store ne ∙ a.fresh j h;
      }
    where
      left :
          (b n : ℕ)
          → (if s.backend == b then mapped (λ k. k - 1) (players_at pool b) else players_at pool b)
            ≡ some n
          → n ≡ on_backend b (insert id s' store)
      left b n h = elim (Option-cases (players_at pool b)) [
        | inl e ↦ ground (arith, h, e)
        | inr (k, e) ↦ ground (
          arith,
          h,
          e,
          a.players_are b k e,
          on_backend-close id s s' ip backend store b there open_ shut,
        )
      ]
