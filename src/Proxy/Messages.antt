-- ===== src/Proxy/Messages.antt =====
-- The relay of internal/proxy/proxy.go keeps the accounts.
use scpxy.Base.{
  ℕ, ◌≡◌, refl, Bool, not, ◌||◌, ◌&&◌, Option, none, some, List, [], ◌∷◌, inl, inr, Bool-cases,
  Option-cases,
}
use scpxy.Base.Assoc.{lookup, nat_key, bytes_key}
use scpxy.Peer.{Peer}
use scpxy.Session.{Session, RelayMsg, enqueue, mark_client_ready, is_closed}
use scpxy.Proxy.{Proxy, put_session, session_by_addr}
use scpxy.Proxy.Relay.{
  Forward, relayable, add_traffic, on_client_connected, queue_to_backend, queue_to_client,
  on_client_receive, on_upstream_receive, pump_message, pump_upstream, pump_downstream,
  pump_to_backend, pump_to_client,
}
use scpxy.Proxy.Life.{Balanced, put-Balanced, close_session-Balanced}

module _ {F : Type 0} where
  pub on_client_connected-Balanced :
      (p : Proxy F) (address : List ℕ) (peer : ℕ)
      → Balanced p
      → Balanced (on_client_connected p address peer).0
  unfolding on_client_connected mark_client_ready
  on_client_connected-Balanced p address peer a = elim (Option-cases (session_by_addr p address)) [
    | inl e ↦ rw (e, on_client_connected) a
    | inr (id, e) ↦ elim (Option-cases (lookup id p.store)) [
      | inl l ↦ rw (e, on_client_connected, l) a
      | inr (s, l) ↦
          rw (e, on_client_connected, l)
            (put-Balanced p id s (mark_client_ready s peer) a l refl refl refl)
    ]
  ]

  queue_to_backend-Balanced :
      (p : Proxy F) (id : ℕ) (s : Session) (takes_closed : Bool) (m : RelayMsg) (now : ℕ)
      → Balanced p
      → lookup id p.store ≡ some s
      → Balanced (queue_to_backend p id s takes_closed m now).0
  unfolding queue_to_backend
  queue_to_backend-Balanced p id s takes_closed m now a there =
      let r = enqueue (is_closed s.state) takes_closed s.to_backend m in
      elim (Bool-cases (enqueue (is_closed s.state) takes_closed s.to_backend m).1) [
        | inl e ↦
            rw (e, queue_to_backend)
              (put-Balanced p id s (record s { to_backend = r.0 }) a there refl refl refl)
        | inr e ↦ rw (e, queue_to_backend) (close_session-Balanced p id _ now a)
      ]

  queue_to_client-Balanced :
      (p : Proxy F) (id : ℕ) (s : Session) (takes_closed : Bool) (m : RelayMsg) (now : ℕ)
      → Balanced p
      → lookup id p.store ≡ some s
      → Balanced (queue_to_client p id s takes_closed m now).0
  unfolding queue_to_client
  queue_to_client-Balanced p id s takes_closed m now a there =
      let r = enqueue (is_closed s.state) takes_closed s.to_client m in
      elim (Bool-cases (enqueue (is_closed s.state) takes_closed s.to_client m).1) [
        | inl e ↦
            rw (e, queue_to_client)
              (put-Balanced p id s (record s { to_client = r.0 }) a there refl refl refl)
        | inr e ↦ rw (e, queue_to_client) (close_session-Balanced p id _ now a)
      ]

  pub on_client_receive-Balanced :
      (p : Proxy F) (address : List ℕ) (peer : ℕ) (takes_closed : Bool) (m : RelayMsg) (now : ℕ)
      → Balanced p
      → Balanced (on_client_receive p address peer takes_closed m now).0
  unfolding on_client_receive
  on_client_receive-Balanced p address peer takes_closed m now a =
      elim (Option-cases (session_by_addr p address)) [
        | inl e ↦ rw (e, on_client_receive) a
        | inr (id, e) ↦ elim (Option-cases (lookup id p.store)) [
          | inl l ↦ rw (e, on_client_receive, l) a
          | inr (s, l) ↦
              rw (e, on_client_receive, l) (queue_to_backend-Balanced p id s takes_closed m now a l)
        ]
      ]

  pub on_upstream_receive-Balanced :
      (p : Proxy F) (id : ℕ) (takes_closed : Bool) (m : RelayMsg) (now : ℕ)
      → Balanced p
      → Balanced (on_upstream_receive p id takes_closed m now).0
  unfolding on_upstream_receive
  on_upstream_receive-Balanced p id takes_closed m now a = elim (Option-cases (lookup id p.store)) [
    | inl l ↦ rw (on_upstream_receive, l) a
    | inr (s, l) ↦
        rw (on_upstream_receive, l) (queue_to_client-Balanced p id s takes_closed m now a l)
  ]

  pump_message-Balanced :
      (p : Proxy F) (id : ℕ) (s s' : Session) (peer : Peer) (m : RelayMsg) (f : Forward)
      (n k now : ℕ)
      → Balanced p
      → lookup id p.store ≡ some s
      → s'.real_ip ≡ s.real_ip
      → s'.backend ≡ s.backend
      → s'.state ≡ s.state
      → Balanced (pump_message p id s' peer m f (n, k) now).0
  unfolding pump_message add_traffic
  pump_message-Balanced p id s s' peer m f n k now a there ip backend state =
      let b = put-Balanced p id s s' a there ip backend (rw state refl) in
      elim (Bool-cases (relayable peer m.message m.delivery)) [
        | inl e ↦ rw (e, pump_message) b
        | inr e ↦ rw (e, pump_message) (close_session-Balanced (put_session p id s') id _ now b)
      ]

  pump_upstream-Balanced :
      (p : Proxy F) (id : ℕ) (s : Session) (peer : Peer) (ms : List RelayMsg) (link to : Option ℕ)
      (now : ℕ)
      → Balanced p
      → lookup id p.store ≡ some s
      → Balanced (pump_upstream p id s peer ms link to now).0
  unfolding pump_upstream
  pump_upstream-Balanced p id s peer (m ∷ ms) (some link) (some to) now a there =
      pump_message-Balanced p id s (record s { to_backend = ms }) peer m _ _ _ now a there refl refl
        refl
  pump_upstream-Balanced p id s peer (m ∷ ms) (some link) none now a there = a
  pump_upstream-Balanced p id s peer (m ∷ ms) none to now a there = a
  pump_upstream-Balanced p id s peer [] link to now a there = a

  pump_downstream-Balanced :
      (p : Proxy F) (id : ℕ) (s : Session) (peer : Peer) (ms : List RelayMsg) (to : Option ℕ)
      (now : ℕ)
      → Balanced p
      → lookup id p.store ≡ some s
      → Balanced (pump_downstream p id s peer ms to now).0
  unfolding pump_downstream
  pump_downstream-Balanced p id s peer (m ∷ ms) (some to) now a there =
      pump_message-Balanced p id s (record s { to_client = ms }) peer m _ _ _ now a there refl refl
        refl
  pump_downstream-Balanced p id s peer (m ∷ ms) none now a there = a
  pump_downstream-Balanced p id s peer [] to now a there = a

  pub pump_to_backend-Balanced :
      (p : Proxy F) (id : ℕ) (peer : Peer) (sees_closed : Bool) (now : ℕ)
      → Balanced p
      → Balanced (pump_to_backend p id peer sees_closed now).0
  unfolding pump_to_backend
  pump_to_backend-Balanced p id peer sees_closed now a = elim (Option-cases (lookup id p.store)) [
    | inl l ↦ rw (pump_to_backend, l) a
    | inr (s, l) ↦ elim (Bool-cases (is_closed s.state && sees_closed || not s.backend_ready)) [
      | inl e ↦ rw (pump_to_backend, l, e) a
      | inr e ↦
          rw (pump_to_backend, l, e)
            (pump_upstream-Balanced p id s peer s.to_backend s.upstream s.upstream_peer now a l)
    ]
  ]

  pub pump_to_client-Balanced :
      (p : Proxy F) (id : ℕ) (peer : Peer) (sees_closed : Bool) (now : ℕ)
      → Balanced p
      → Balanced (pump_to_client p id peer sees_closed now).0
  unfolding pump_to_client
  pump_to_client-Balanced p id peer sees_closed now a = elim (Option-cases (lookup id p.store)) [
    | inl l ↦ rw (pump_to_client, l) a
    | inr (s, l) ↦ elim (Bool-cases (is_closed s.state && sees_closed || not s.client_ready)) [
      | inl e ↦ rw (pump_to_client, l, e) a
      | inr e ↦
          rw (pump_to_client, l, e)
            (pump_downstream-Balanced p id s peer s.to_client s.client_peer now a l)
    ]
  ]
