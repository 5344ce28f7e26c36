-- ===== src/Proxy/Traces.antt =====
-- Runs of the handlers and the console's calls of internal/proxy/proxy.go, one after the other, from
-- `New` on: each is one step, `onConnectionRequest` too.
use scpxy.Base.{
  ℕ, refl, Bool, true, Option, none, some, List, [], ◌∷◌, arith, inl, inr, Bool-cases, Option-cases,
}
use scpxy.Base.Assoc.{lookup, insert, nat_key, bytes_key}
use scpxy.Gate.{Floats, ban, unban}
use scpxy.Backend.{set_enabled, by_name}
use scpxy.Peer.{Peer}
use scpxy.Session.{RelayMsg}
use scpxy.Proxy.{
  Proxy, Incoming, Notice, says, on_connection_request, expire_handshake, on_upstream_connected,
  on_upstream_disconnected, on_client_disconnected,
}
use scpxy.Proxy.Console.{
  kick, move, ban_ip, unban_ip, set_backend_enabled, set_maintenance, sweep_round, close_proxy,
  is_none, real_ip_of, session_ids,
}
use scpxy.Proxy.Relay.{
  on_client_connected, on_client_receive, on_upstream_receive, pump_to_backend, pump_to_client,
}
use scpxy.Proxy.Accounts.{players_at-same}
use scpxy.Proxy.Life.{
  Balanced, gate-Balanced, pool-Balanced, close_session-Balanced, close_all-Balanced,
  expire_handshake-Balanced, on_upstream_connected-Balanced, on_upstream_disconnected-Balanced,
  on_client_disconnected-Balanced,
}
use scpxy.Proxy.Admit.{on_connection_request-Balanced}
use scpxy.Proxy.Messages.{
  on_client_connected-Balanced, on_client_receive-Balanced, on_upstream_receive-Balanced,
  pump_to_backend-Balanced, pump_to_client-Balanced,
}

-- A call of a handler or of the console, at a time.
pub data Call : Type 0 where
  connection_requested : Bool → Incoming → Bool → Call
  handshake_expired : ℕ → List ℕ → Call
  upstream_connected : ℕ → ℕ → Call
  upstream_disconnected : ℕ → Bool → List ℕ → List ℕ → Call
  client_connected : List ℕ → ℕ → Call
  client_disconnected : List ℕ → List ℕ → Call
  client_received : List ℕ → ℕ → Bool → RelayMsg → Call
  upstream_received : ℕ → Bool → RelayMsg → Call
  pumped_to_backend pumped_to_client : ℕ → Peer → Bool → Call
  kicked : ℕ → Option Notice → Call
  moved : ℕ → List ℕ → Call
  banned unbanned : Option (List ℕ) → Call
  backend_enabled : List ℕ → Bool → Call
  maintained : Bool → Call
  swept shut_down : Call

module _ {F : Type 0} where
  kick-Balanced :
      (p : Proxy F) (id : ℕ) (reason : Option Notice) (now : ℕ)
      → Balanced p
      → Balanced (kick p id reason now).0
  unfolding kick
  kick-Balanced p id reason now a = elim (Option-cases (lookup id p.by_id)) [
    | inl e ↦ rw (e, kick) a
    | inr (found, e) ↦ rw (e, kick) (close_session-Balanced p found _ now a)
  ]

  move-Balanced :
      (p : Proxy F) (id : ℕ) (name : List ℕ) (now : ℕ)
      → Balanced p
      → Balanced (move p id name now).0
  unfolding move
  move-Balanced p id name now a = elim (Bool-cases (is_none (by_name p.pool name))) [
    | inl e ↦ rw (e, move) a
    | inr e ↦ elim (Option-cases (lookup id p.by_id)) [
      | inl l ↦ rw (e, move, l) a
      | inr (found, l) ↦
          rw (e, move, l)
            (close_session-Balanced
              (record p { redirects = insert (real_ip_of p found) name p.redirects }) found _ now a)
    ]
  ]

  ban_ip-Balanced :
      (p : Proxy F) (ip : Option (List ℕ)) (now : ℕ) → Balanced p → Balanced (ban_ip p ip now).0
  unfolding ban_ip ban
  ban_ip-Balanced p none now a = a
  ban_ip-Balanced p (some ip) now a =
      close_all-Balanced _ _ _ now (gate-Balanced p (ban p.gate ip) refl refl a)

  unban_ip-Balanced : (p : Proxy F) (ip : Option (List ℕ)) → Balanced p → Balanced (unban_ip p ip).0
  unfolding unban_ip unban
  unban_ip-Balanced p none a = a
  unban_ip-Balanced p (some ip) a =
      gate-Balanced p (unban p.gate ip).0 (ground arith) (ground arith) a

  set_backend_enabled-Balanced :
      (p : Proxy F) (name : List ℕ) (on : Bool)
      → Balanced p
      → Balanced (set_backend_enabled p name on).0
  unfolding set_backend_enabled set_enabled
  set_backend_enabled-Balanced p name on a = elim (Option-cases (by_name p.pool name)) [
    | inl e ↦ rw (e, set_enabled) a
    | inr (found, e) ↦
        rw (e, set_enabled)
          (pool-Balanced p _
            (λ b. players_at-same p.pool found.0 b (λ c. record c { enabled = on }) (λ c. refl)) a)
  ]

  close_proxy-Balanced : (p : Proxy F) (now : ℕ) → Balanced p → Balanced (close_proxy p now).0
  unfolding close_proxy
  close_proxy-Balanced p now a = elim (Bool-cases p.stopped) [
    | inl e ↦ rw (e, close_proxy) a
    | inr e ↦
        rw (e, close_proxy)
          (close_all-Balanced (record p { stopped = true }) (session_ids p.sessions)
            (says "The proxy is shutting down.") now a)
  ]

module _ (fl : Floats) where
  open fl use {F}

  -- One call.
  unfoldable pub call : Proxy F → Call → ℕ → Proxy F
  call p (connection_requested passthrough r opens) now =
      (on_connection_request fl passthrough p r now opens).0
  call p (handshake_expired id text) now = (expire_handshake p id text now).0
  call p (upstream_connected id peer) now = (on_upstream_connected p id peer).0
  call p (upstream_disconnected id rejected reason message) now =
      (on_upstream_disconnected p id rejected reason message now).0
  call p (client_connected address peer) now = (on_client_connected p address peer).0
  call p (client_disconnected address message) now =
      (on_client_disconnected p address message now).0
  call p (client_received address peer takes_closed m) now =
      (on_client_receive p address peer takes_closed m now).0
  call p (upstream_received id takes_closed m) now = (on_upstream_receive p id takes_closed m now).0
  call p (pumped_to_backend id peer sees_closed) now = (pump_to_backend p id peer sees_closed now).0
  call p (pumped_to_client id peer sees_closed) now = (pump_to_client p id peer sees_closed now).0
  call p (kicked id reason) now = (kick p id reason now).0
  call p (moved id name) now = (move p id name now).0
  call p (banned ip) now = (ban_ip p ip now).0
  call p (unbanned ip) now = (unban_ip p ip).0
  call p (backend_enabled name on) now = (set_backend_enabled p name on).0
  call p (maintained on) now = set_maintenance p on
  call p swept now = (sweep_round p now).0
  call p shut_down now = (close_proxy p now).0

  -- Several, each at its time.
  unfoldable pub run : Proxy F → List (Call × ℕ) → Proxy F
  run p [] = p
  run p ((c, now) ∷ cs) = run (call p c now) cs

  pub call-Balanced : (p : Proxy F) (c : Call) (now : ℕ) → Balanced p → Balanced (call p c now)
  unfolding call set_maintenance sweep_round
  call-Balanced p (connection_requested passthrough r opens) now a =
      on_connection_request-Balanced fl passthrough p r now opens a
  call-Balanced p (handshake_expired id text) now a = expire_handshake-Balanced p id text now a
  call-Balanced p (upstream_connected id peer) now a = on_upstream_connected-Balanced p id peer a
  call-Balanced p (upstream_disconnected id rejected reason message) now a =
      on_upstream_disconnected-Balanced p id rejected reason message now a
  call-Balanced p (client_connected address peer) now a =
      on_client_connected-Balanced p address peer a
  call-Balanced p (client_disconnected address message) now a =
      on_client_disconnected-Balanced p address message now a
  call-Balanced p (client_received address peer takes_closed m) now a =
      on_client_receive-Balanced p address peer takes_closed m now a
  call-Balanced p (upstream_received id takes_closed m) now a =
      on_upstream_receive-Balanced p id takes_closed m now a
  call-Balanced p (pumped_to_backend id peer sees_closed) now a =
      pump_to_backend-Balanced p id peer sees_closed now a
  call-Balanced p (pumped_to_client id peer sees_closed) now a =
      pump_to_client-Balanced p id peer sees_closed now a
  call-Balanced p (kicked id reason) now a = kick-Balanced p id reason now a
  call-Balanced p (moved id name) now a = move-Balanced p id name now a
  call-Balanced p (banned ip) now a = ban_ip-Balanced p ip now a
  call-Balanced p (unbanned ip) now a = unban_ip-Balanced p ip a
  call-Balanced p (backend_enabled name on) now a = set_backend_enabled-Balanced p name on a
  call-Balanced p (maintained on) now a = a
  call-Balanced p swept now a = a
  call-Balanced p shut_down now a = close_proxy-Balanced p now a

  pub run-Balanced : (p : Proxy F) (cs : List (Call × ℕ)) → Balanced p → Balanced (run p cs)
  unfolding run
  run-Balanced p [] a = a
  run-Balanced p ((c, now) ∷ cs) a = run-Balanced (call p c now) cs (call-Balanced p c now a)
