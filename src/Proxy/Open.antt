-- ===== src/Proxy/Open.antt =====
-- The open sessions of the store of internal/proxy/proxy.go, counted by address and by backend.
use scpxy.Base.{
  ℕ, suc, ◌+◌, ◌≡◌, true, false, none, some, List, [], ◌∷◌, length, if◌then◌else◌, ◌==◌, arith,
}
use scpxy.Base.Assoc.{lookup, insert, nat_key, bytes_key, bytes_beq}
use scpxy.Gate.Counts.{held}
use scpxy.Session.{Session, is_closed}

-- The addresses that hold a session, one for each open session.
unfoldable pub open_ips : List (ℕ × Session) → List (List ℕ)
open_ips [] = []
open_ips ((id, s) ∷ m) =
    let rest = open_ips m in if is_closed s.state then rest else s.real_ip ∷ rest

-- The open sessions of a backend.
unfoldable pub on_backend : ℕ → List (ℕ × Session) → ℕ
on_backend b [] = 0
on_backend b ((id, s) ∷ m) =
    let rest = on_backend b m in
    if is_closed s.state then rest else if s.backend == b then suc rest else rest

module _ (id : ℕ) (s : Session) where
  -- A new session.
  pub open_ips-insert :
      (m : List (ℕ × Session)) (ip : List ℕ)
      → lookup id m ≡ none
      → is_closed s.state ≡ false
      → (held ip (open_ips (insert id s m))
          ≡ (if bytes_beq s.real_ip ip then suc (held ip (open_ips m)) else held ip (open_ips m)))
        × (length (open_ips (insert id s m)) ≡ length (open_ips m) + 1)
  unfolding open_ips insert lookup held
  open_ips-insert [] ip h o = ground (arith, o)
  open_ips-insert ((j, t) ∷ m) ip h o = ground (arith, o, h, open_ips-insert m ip)

  pub on_backend-insert :
      (m : List (ℕ × Session)) (b : ℕ)
      → lookup id m ≡ none
      → is_closed s.state ≡ false
      → on_backend b (insert id s m)
        ≡ (if s.backend == b then suc (on_backend b m) else on_backend b m)
  unfolding on_backend insert lookup
  on_backend-insert [] b h o = ground (arith, o)
  on_backend-insert ((j, t) ∷ m) b h o = ground (arith, o, h, on_backend-insert m b)

module _ (id : ℕ) (s s' : Session) (same_ip : s'.real_ip ≡ s.real_ip)
    (same_backend : s'.backend ≡ s.backend) where
  -- A session that changes and stays as open as it was.
  pub open_ips-update :
      (m : List (ℕ × Session))
      → lookup id m ≡ some s
      → is_closed s'.state ≡ is_closed s.state
      → open_ips (insert id s' m) ≡ open_ips m
  unfolding open_ips insert lookup
  open_ips-update [] h o = absurd (cc h)
  open_ips-update ((j, t) ∷ m) h o = ground (arith, o, h, same_ip, open_ips-update m)

  pub on_backend-update :
      (m : List (ℕ × Session)) (b : ℕ)
      → lookup id m ≡ some s
      → is_closed s'.state ≡ is_closed s.state
      → on_backend b (insert id s' m) ≡ on_backend b m
  unfolding on_backend insert lookup
  on_backend-update [] b h o = absurd (cc h)
  on_backend-update ((j, t) ∷ m) b h o = ground (arith, o, h, same_backend, on_backend-update m b)

  -- A session that is closed.
  pub open_ips-close :
      (m : List (ℕ × Session)) (ip : List ℕ)
      → lookup id m ≡ some s
      → is_closed s.state ≡ false
      → is_closed s'.state ≡ true
      → (held ip (open_ips m) ≡ (
          if bytes_beq s.real_ip ip
          then suc (held ip (open_ips (insert id s' m)))
          else held ip (open_ips (insert id s' m))))
        × (length (open_ips m) ≡ length (open_ips (insert id s' m)) + 1)
  unfolding open_ips insert lookup held
  open_ips-close [] ip h o c = absurd (cc h)
  open_ips-close ((j, t) ∷ m) ip h o c = ground (arith, o, c, h, open_ips-close m ip)

  pub on_backend-close :
      (m : List (ℕ × Session)) (b : ℕ)
      → lookup id m ≡ some s
      → is_closed s.state ≡ false
      → is_closed s'.state ≡ true
      → on_backend b m ≡ (
          if s.backend == b
          then suc (on_backend b (insert id s' m))
          else on_backend b (insert id s' m))
  unfolding on_backend insert lookup
  on_backend-close [] b h o c = absurd (cc h)
  on_backend-close ((j, t) ∷ m) b h o c = ground (arith, o, c, h, on_backend-close m b)
