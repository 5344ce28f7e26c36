-- ===== src/Proxy/Once.antt =====
-- A session of internal/proxy/proxy.go ends once.
use scpxy.Base.{ℕ, ◌≡◌, refl, true, none, some, [], inl, inr, ◌⊎◌, Bool-cases, Option-cases}
use scpxy.Base.Assoc.{lookup, nat_key, lookup-insert_self}
use scpxy.Session.{Session, closed, is_closed}
use scpxy.Proxy.{Proxy, Notice, drop_session, close_session}

module _ {F : Type 0} where
  -- There is no open session of the id.
  abbrev HasEnded : Proxy F → ℕ → Type 0
  HasEnded p id =
      (lookup id p.store ≡ none)
      ⊎ ((s : Session) × (lookup id p.store ≡ some s) × (is_closed s.state ≡ true))

  ended-same :
      (p : Proxy F) (id : ℕ) (notice : Notice) (now : ℕ)
      → HasEnded p id
      → (close_session p id notice now ≡ (p, [])) × (drop_session p id now ≡ p)
  unfolding close_session drop_session
  ended-same p id notice now (inl e) = (rw (close_session, e) refl, rw (drop_session, e) refl)
  ended-same p id notice now (inr (s, e, c)) =
      (rw (close_session, e, c) refl, rw (drop_session, e, c) refl)

  drop_session-HasEnded : (p : Proxy F) (id now : ℕ) → HasEnded (drop_session p id now) id
  unfolding drop_session
  drop_session-HasEnded p id now = elim (Option-cases (lookup id p.store)) [
    | inl e ↦ rw (drop_session, e) (inl e)
    | inr (s, e) ↦ elim (Bool-cases (is_closed s.state)) [
      | inl c ↦ rw (drop_session, e, c) (inr (s, e, c))
      | inr o ↦
          rw (drop_session, e, o)
            (inr (
              record s { state = closed },
              lookup-insert_self id (record s { state = closed }) p.store,
              refl,
            ))
    ]
  ]

  close_session-drop_session :
      (p : Proxy F) (id : ℕ) (notice : Notice) (now : ℕ)
      → (close_session p id notice now).0 ≡ drop_session p id now
  unfolding close_session drop_session
  close_session-drop_session p id notice now = elim (Option-cases (lookup id p.store)) [
    | inl e ↦ rw (close_session, drop_session, e) refl
    | inr (s, e) ↦ elim (Bool-cases (is_closed s.state)) [
      | inl c ↦ rw (close_session, drop_session, e, c) refl
      | inr o ↦ rw (close_session, e, o) refl
    ]
  ]

  -- `closeSession` leaves the proxy as `dropSession` does. A session that it has ended is not ended
  -- again: both change nothing then, and nobody is told a second time.
  pub close_session_once :
      (p : Proxy F) (id : ℕ) (notice again : Notice) (now later : ℕ)
      → let q : Proxy F = (close_session p id notice now).0 in
        (q ≡ drop_session p id now)
        × (close_session q id again later ≡ (q, []))
        × (drop_session q id later ≡ q)
  close_session_once p id notice again now later =
      let same = close_session-drop_session p id notice now in
      let ended =
        ended-same (drop_session p id now) id again later (drop_session-HasEnded p id now) in
      rw same (refl, ended.0, ended.1)
