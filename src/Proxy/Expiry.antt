-- ===== src/Proxy/Expiry.antt =====
-- The gap in `expireHandshake` of internal/proxy/proxy.go between its look at the session's state and
-- the end of the session.
use scpxy.Base.{ℕ, ◌≡◌, refl, true, false, some, List, [], ◌∷◌}
use scpxy.Base.Assoc.{lookup, insert, nat_key, lookup-insert_self}
use scpxy.Backend.{mark_success, mark_failure}
use scpxy.Session.{Session, pending, active, closed, is_closed, mark_backend_ready}
use scpxy.Proxy.{
  Proxy, Notice, Action, accepts, rejects, backend_down_message, drop_session, close_session,
  fail_pending, on_upstream_connected,
}

module _ {F : Type 0} where
  connected_lem :
      (p : Proxy F) (id peer : ℕ) (s : Session)
      → lookup id p.store ≡ some s
      → s.state ≡ pending
      → on_upstream_connected p id peer ≡ (
        record p {
          store = insert id (mark_backend_ready (record s { state = active }) peer) p.store;
          pool = mark_success p.pool s.backend;
        },
        accepts s.request ∷ [],
      )
  unfolding on_upstream_connected
  connected_lem p id peer s there waits = rw (on_upstream_connected, there, waits) refl

  -- A session that is open is closed, and all else of it stays.
  dropped_lem :
      (p : Proxy F) (id now : ℕ) (s : Session)
      → lookup id p.store ≡ some s
      → is_closed s.state ≡ false
      → (drop_session p id now).store ≡ insert id (record s { state = closed }) p.store
  unfolding drop_session
  dropped_lem p id now s there open_ = rw (drop_session, there, open_) refl

  closed_lem :
      (p : Proxy F) (id : ℕ) (s : Session) (notice : Notice) (now : ℕ)
      → lookup id p.store ≡ some s
      → is_closed s.state ≡ true
      → close_session p id notice now ≡ (p, [])
  unfolding close_session
  closed_lem p id s notice now there shut = rw (close_session, there, shut) refl

  -- A session that waits for its backend, whose backend answers after `expireHandshake` has seen it
  -- waiting: the request is accepted, then rejected. The session is closed with the backend's peer in it,
  -- which has not been disconnected, and no later `closeSession` disconnects it.
  pub expired_while_connected :
      (p : Proxy F) (id peer : ℕ) (s : Session) (reason : List ℕ) (now later : ℕ) (notice : Notice)
      → lookup id p.store ≡ some s
      → s.state ≡ pending
      → let first : Proxy F × List Action = on_upstream_connected p id peer in
        let last : Proxy F × List Action = fail_pending first.0 id s reason now in
        (first.1 ≡ accepts s.request ∷ [])
        × (last.1 ≡ rejects s.request backend_down_message ∷ [])
        × (s' : Session) × (lookup id last.0.store ≡ some s')
        × (s'.upstream_peer ≡ some peer)
        × (is_closed s'.state ≡ true)
        × (close_session last.0 id notice later ≡ (last.0, []))
  unfolding fail_pending mark_backend_ready
  expired_while_connected p id peer s reason now later notice there waits =
      let ready : Session = mark_backend_ready (record s { state = active }) peer in
      let ended : Session = record ready { state = closed } in
      let store = insert id ready p.store in
      let p₁ : Proxy F = record p { store = store; pool = mark_success p.pool s.backend } in
      let p₂ : Proxy F = record p₁ { pool = (mark_failure p₁.pool s.backend reason now).0 } in
      let found : lookup id (drop_session p₂ id now).store ≡ some ended =
        rw (dropped_lem p₂ id now ready (lookup-insert_self id ready p.store) refl)
          (lookup-insert_self id ended store) in
      rw (connected_lem p id peer s there waits) (
        refl,
        refl,
        ended,
        found,
        refl,
        refl,
        closed_lem (drop_session p₂ id now) id ended notice later found refl,
      )
