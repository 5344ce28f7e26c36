-- ===== src/Proxy/Admit.antt =====
-- Admission in internal/proxy/proxy.go keeps the accounts: what `onConnectionRequest` does to them.
use scpxy.Base.{
  ℕ, ◌+◌, ◌≡◌, refl, sym, Bool, false, not, ◌||◌, Option, some, List, arith, inl, inr, Bool-cases,
  Option-cases,
}
use scpxy.Base.Int.{pos}
use scpxy.Base.Assoc.{lookup, insert, nat_key, bytes_key}
use scpxy.Gate.{Floats, allow, acquire}
use scpxy.Gate.Frame.{allow-SameCounts}
use scpxy.Backend.{Backend, add_player, pick}
use scpxy.Link.{Links, acquire_link}
use scpxy.Session.{Session, is_closed, new_session}
use scpxy.Proxy.{
  Proxy, Incoming, register, counted, described, link_session, admit, choose, on_connection_request,
  is_allowed, take_redirect,
}
use scpxy.Proxy.Accounts.{Accounts, counted-Accounts}
use scpxy.Proxy.Life.{Balanced, gate-Balanced, put-Balanced, drop_session-Balanced}

-- The pre-authentication data changes nothing that is counted.
pub described-Same :
    (s : Session) (payload : List ℕ)
    → ((described s payload).real_ip ≡ s.real_ip)
      × ((described s payload).backend ≡ s.backend)
      × ((described s payload).state ≡ s.state)
unfolding described
described-Same s payload = (ground arith, ground arith, ground arith)

module _ {F : Type 0} where
  counted_as :
      (p : Proxy F) (s : Session) (ip : List ℕ) (target : ℕ)
      → Balanced p
      → s.real_ip ≡ ip
      → s.backend ≡ target
      → is_closed s.state ≡ false
      → Accounts
          (acquire p.gate ip)
          (add_player p.pool target (pos 1))
          (insert (p.next_id + 1) s p.store)
          (p.next_id + 1)
  counted_as p s ip target a e₁ e₂ open_ =
      rw (sym e₁, sym e₂) (counted-Accounts p.gate p.pool p.store p.next_id s a open_)

  -- A session that has entered the maps and been counted.
  pub entered-Balanced :
      (p : Proxy F) (r : Incoming) (target : ℕ) (b : Backend) (now : ℕ)
      → Balanced p
      → let entered : Proxy F × ℕ = register p r target b now in
        Balanced (counted entered.0 entered.1 target r.ip)
  unfolding register counted new_session
  entered-Balanced p r target b now a =
      let s : Session =
        new_session (p.next_id + 1) r.ip r.address target b.cfg.name r.request now in
      let same = described-Same s r.payload in
      counted_as p (described s r.payload) r.ip target a same.0 same.1 (rw same.2 refl)

  link_session-Balanced : (p : Proxy F) (id n : ℕ) → Balanced p → Balanced (link_session p id n)
  link_session-Balanced p id n a = elim (Option-cases (lookup id p.store)) [
    | inl e ↦ rw (e, link_session) a
    | inr (s, e) ↦
        rw (e, link_session)
          (put-Balanced p id s (record s { link = some n; upstream = some n }) a e refl refl refl)
  ]

  pub admit-Balanced :
      (p : Proxy F) (id : ℕ) (r : Incoming) (target : ℕ) (addr connect_data : List ℕ) (now : ℕ)
      (opens : Bool)
      → Balanced (counted p id target r.ip)
      → Balanced (admit p id r target addr connect_data now opens).0
  unfolding admit counted
  admit-Balanced p id r target addr connect_data now opens a =
      let p₁ : Proxy F = counted p id target r.ip in
      let got : Links × Option ℕ × List ℕ = acquire_link p₁.links r.address now opens in
      let p₂ : Proxy F = record p₁ { links = got.0 } in
      elim (Option-cases (acquire_link p.links r.address now opens).1) [
        | inl e ↦ rw (e, admit) (drop_session-Balanced p₂ id now a)
        | inr (n, e) ↦ rw (e, admit) (link_session-Balanced p₂ id n a)
      ]

  take_redirect-Balanced :
      (p : Proxy F) (ip : List ℕ) → Balanced p → Balanced (take_redirect p ip).0
  unfolding take_redirect
  take_redirect-Balanced p ip a = elim (Option-cases (lookup ip p.redirects)) [
    | inl e ↦ rw (e, take_redirect) a
    | inr (target, e) ↦ rw (e, take_redirect) a
  ]

module _ (fl : Floats) where
  open fl use {F}

  choose-Balanced :
      (p : Proxy F) (r : Incoming) (now : ℕ) → Balanced p → Balanced (choose fl p r now).0
  unfolding choose
  choose-Balanced p r now a =
      let same = allow-SameCounts fl p.gate r.ip now in
      let p₁ : Proxy F = record p { gate = (allow fl p.gate r.ip now).0 } in
      let a₁ : Balanced p₁ = gate-Balanced p _ same.same_sessions same.same_total a in
      elim (Bool-cases (not (is_allowed fl (allow fl p.gate r.ip now).1))) [
        | inl e ↦ rw (e, choose) a₁
        | inr e ↦ elim (Bool-cases (p.maintenance || p.stopped)) [
          | inl m ↦ rw (e, m, choose) a₁
          | inr m ↦
              elim (Option-cases
                (pick (take_redirect p₁ r.ip).0.pool (take_redirect p₁ r.ip).1 now)) [
                  | inl x ↦ rw (e, m, x, choose) (take_redirect-Balanced p₁ r.ip a₁)
                  | inr (b, x) ↦ rw (e, m, x, choose) (take_redirect-Balanced p₁ r.ip a₁)
                ]
        ]
      ]

  pub on_connection_request-Balanced :
      (passthrough : Bool) (p : Proxy F) (r : Incoming) (now : ℕ) (opens : Bool)
      → Balanced p
      → Balanced (on_connection_request fl passthrough p r now opens).0
  unfolding on_connection_request
  on_connection_request-Balanced passthrough p r now opens a =
      elim (Option-cases (choose fl p r now).1) [
        | inl e ↦ rw (e, on_connection_request) (choose-Balanced p r now a)
        | inr ((target, b), e) ↦
            rw (e, on_connection_request)
              (admit-Balanced _ _ r target _ _ now opens
                (entered-Balanced (choose fl p r now).0 r target b now (choose-Balanced p r now a)))
      ]
