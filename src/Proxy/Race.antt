-- ===== src/Proxy/Race.antt =====
-- The gap in `onConnectionRequest` of internal/proxy/proxy.go between a session's entry into the maps
-- and its count at the gate.
use scpxy.Base.{
  ℕ, ◌+◌, ◌≡◌, refl, ap, ◌∙◌, Bool, true, false, Option, none, some, List, arith, inl, inr,
  Option-cases,
}
use scpxy.Base.Assoc.{
  lookup, insert, nat_key, bytes_key, bytes_beq_iff, lookup-insert_self, lookup-insert,
  lookup-erase,
}
use scpxy.Gate.{Gate, count, acquire, release}
use scpxy.Gate.Counts.{held}
use scpxy.Backend.{Backend}
use scpxy.Link.{acquire_link}
use scpxy.Session.{Session, closed, is_closed, new_session}
use scpxy.Proxy.{
  Proxy, Incoming, Notice, drop_session, close_session, register, counted, described, admit,
  link_session,
}
use scpxy.Proxy.Console.{kick}
use scpxy.Proxy.Open.{open_ips, open_ips-insert, open_ips-close, open_ips-update}
use scpxy.Proxy.Life.{Balanced}
use scpxy.Proxy.Admit.{described-Same}

-- A session that is new and closed again.
gone :
    (id : ℕ) (s : Session) (m : List (ℕ × Session)) (ip : List ℕ)
    → lookup id m ≡ none
    → is_closed s.state ≡ false
    → held ip (open_ips m) ≡ 0
    → held ip (open_ips (insert id (record s { state = closed }) (insert id s m))) ≡ 0
gone id s m ip new open_ nothing = ground (
  arith,
  nothing,
  (open_ips-insert id s m ip new open_).0,
  (open_ips-close id s (record s { state = closed }) refl refl (insert id s m) ip
      (lookup-insert_self id s m) open_ refl).0,
)

module _ {F : Type 0} where
  -- `Release` of an address that holds nothing, then `Acquire`.
  acquire-release :
      (g : Gate (List ℕ) F) (ip : List ℕ)
      → count g.sessions ip ≡ 0
      → count (acquire (release g ip) ip).sessions ip ≡ 1
  unfolding acquire release count
  acquire-release g ip none_held = ground (
    arith,
    none_held,
    (bytes_beq_iff ip ip).1 refl,
    lookup-erase ip ip g.sessions,
    lookup-insert ip ip (count (release g ip).sessions ip + 1) (release g ip).sessions,
  )

  link_session-Same :
      (p : Proxy F) (id n : ℕ)
      → ((link_session p id n).gate ≡ p.gate)
        × (open_ips (link_session p id n).store ≡ open_ips p.store)
  link_session-Same p id n = elim (Option-cases (lookup id p.store)) [
    | inl e ↦ rw (e, link_session) (refl, refl)
    | inr (s, e) ↦
        rw (e, link_session)
          (
            refl,
            open_ips-update id s (record s { link = some n; upstream = some n }) refl refl p.store e
                refl,
          )
  ]

  -- The last part of a request on a session that is closed by then counts it all the same.
  admit_closed :
      (p : Proxy F) (id : ℕ) (s : Session) (r : Incoming) (target : ℕ) (addr to_send : List ℕ)
      (now : ℕ) (opens : Bool)
      → lookup id p.store ≡ some s
      → is_closed s.state ≡ true
      → let q : Proxy F = (admit p id r target addr to_send now opens).0 in
        (q.gate ≡ acquire p.gate r.ip) × (open_ips q.store ≡ open_ips p.store)
  unfolding admit counted drop_session
  admit_closed p id s r target addr to_send now opens there shut =
      elim (Option-cases (acquire_link p.links r.address now opens).1) [
        | inl e ↦ rw (e, admit, drop_session, there, shut) (refl, refl)
        | inr (n, e) ↦ rw (e, admit) (link_session-Same _ id n)
      ]

  -- A call of `Kick` that finds an open session.
  kick_open :
      (p : Proxy F) (id : ℕ) (s : Session) (reason : Option Notice) (now : ℕ)
      → lookup id p.by_id ≡ some id
      → lookup id p.store ≡ some s
      → is_closed s.state ≡ false
      → let q : Proxy F = (kick p id reason now).0 in
        (q.gate ≡ release p.gate s.real_ip)
        × (q.store ≡ insert id (record s { state = closed }) p.store)
  unfolding kick close_session drop_session
  kick_open p id s reason now known there open_ =
      rw (kick, known, close_session, there, open_) (rw (drop_session, there, open_) (refl, refl))

  -- A session that enters the maps and is kicked before its request has counted it, of an address that
  -- has no open session: once the request has ended, the gate counts one session of the address, and
  -- none is open.
  pub kicked_before_counted :
      (p : Proxy F) (r : Incoming) (target : ℕ) (b : Backend) (reason : Option Notice)
      (addr to_send : List ℕ) (now later : ℕ) (opens : Bool)
      → Balanced p
      → held r.ip (open_ips p.store) ≡ 0
      → let entered : Proxy F × ℕ = register p r target b now in
        let kicked : Proxy F = (kick entered.0 entered.1 reason later).0 in
        let q : Proxy F = (admit kicked entered.1 r target addr to_send later opens).0 in
        (count q.gate.sessions r.ip ≡ 1) × (held r.ip (open_ips q.store) ≡ 0)
  unfolding register new_session
  kicked_before_counted p r target b reason addr to_send now later opens a nothing =
      let id : ℕ = p.next_id + 1 in
      let s : Session =
        described (new_session id r.ip r.address target b.cfg.name r.request now) r.payload in
      let same =
        described-Same (new_session id r.ip r.address target b.cfg.name r.request now) r.payload in
      let o : is_closed s.state ≡ false = rw same.2 refl in
      let e : Proxy F = (register p r target b now).0 in
      let k =
        kick_open e id s reason later (lookup-insert_self id id p.by_id)
          (lookup-insert_self id s p.store) o in
      let q =
        admit_closed (kick e id reason later).0 id (record s { state = closed }) r target addr
          to_send later opens (rw k.1 (lookup-insert_self id (record s { state = closed }) e.store))
          refl in
      (
        rw (q.0, k.0, same.0) (acquire-release p.gate r.ip (a.represents.counted r.ip ∙ nothing)),
        ap (λ l. held r.ip l) q.1
            ∙ rw k.1 (gone id s p.store r.ip (a.fresh id (omega arith)) o nothing),
      )
