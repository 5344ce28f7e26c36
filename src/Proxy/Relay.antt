-- ===== src/Proxy/Relay.antt =====
-- The relay of internal/proxy/proxy.go: a message of one side waits in the session's queue until the
-- other side is there, and goes on in its order.
use scpxy.Base.{
  ℕ, ◌+◌, ◌%◌, ◌^◌, Bool, true, not, ◌&&◌, ◌||◌, Option, none, some, List, [], ◌∷◌, length, leb,
  if◌then◌else◌,
}
use scpxy.Base.Assoc.{lookup, nat_key, bytes_key}
use scpxy.Wire.{Delivery}
use scpxy.Peer.{Peer}
use scpxy.Peer.Update.{max_single_packet_size, may_fragment}
use scpxy.Session.{Session, RelayMsg, enqueue, mark_client_ready, is_closed}
use scpxy.Proxy.{
  Proxy, Notice, says, Action, disconnects_client, put_session, session_by_addr, close_session,
}

abbrev pub relay_broken_message : Notice
relay_broken_message = says "Connection lost."

-- `relayable`
unfoldable pub relayable : Peer → List ℕ → Delivery → Bool
relayable peer message d =
    if leb (length message) (max_single_packet_size peer d) then true else may_fragment d

-- A message that the relay passes on: to a client's peer, or to a link's.
pub data Forward : Type 0 where
  to_client_peer : ℕ → RelayMsg → Forward
  to_upstream_peer : ℕ → ℕ → RelayMsg → Forward

module _ {F : Type 0} where
  -- `onClientConnected`
  unfoldable pub on_client_connected : Proxy F → List ℕ → ℕ → Proxy F × List Action
  on_client_connected p address peer = elim (session_by_addr p address) [
    | none ↦ (p, disconnects_client peer relay_broken_message ∷ [])
    | some id ↦ elim (lookup id p.store) [
      | none ↦ (p, [])
      | some s ↦ (put_session p id (mark_client_ready s peer), [])
    ]
  ]

  -- A message in a session's queue; a full queue ends the session, which Go does on a goroutine of its
  -- own and the model at once.
  unfoldable pub queue_to_backend :
      Proxy F → ℕ → Session → Bool → RelayMsg → ℕ → Proxy F × List Action
  queue_to_backend p id s takes_closed m now =
      let r : List RelayMsg × Bool = enqueue (is_closed s.state) takes_closed s.to_backend m in
      if r.1
      then (put_session p id (record s { to_backend = r.0 }), [])
      else close_session p id relay_broken_message now

  unfoldable pub queue_to_client :
      Proxy F → ℕ → Session → Bool → RelayMsg → ℕ → Proxy F × List Action
  queue_to_client p id s takes_closed m now =
      let r : List RelayMsg × Bool = enqueue (is_closed s.state) takes_closed s.to_client m in
      if r.1
      then (put_session p id (record s { to_client = r.0 }), [])
      else close_session p id relay_broken_message now

  -- `onClientReceive`
  unfoldable pub on_client_receive :
      Proxy F → List ℕ → ℕ → Bool → RelayMsg → ℕ → Proxy F × List Action
  on_client_receive p address peer takes_closed m now = elim (session_by_addr p address) [
    | none ↦ (p, disconnects_client peer relay_broken_message ∷ [])
    | some id ↦ elim (lookup id p.store) [
      | none ↦ (p, [])
      | some s ↦ queue_to_backend p id s takes_closed m now
    ]
  ]

  -- `onUpstreamReceive`
  unfoldable pub on_upstream_receive : Proxy F → ℕ → Bool → RelayMsg → ℕ → Proxy F × List Action
  on_upstream_receive p id takes_closed m now = elim (lookup id p.store) [
    | none ↦ (p, [])
    | some s ↦ queue_to_client p id s takes_closed m now
  ]

  -- `addTraffic`, of `uint64` sums.
  unfoldable pub add_traffic : Proxy F → ℕ → ℕ → Proxy F
  add_traffic p to_server to_client = record p {
    upstream_sent = (p.upstream_sent + to_server) % 2 ^ 64;
    upstream_recv = (p.upstream_recv + to_client) % 2 ^ 64;
  }

  -- The first message of a queue goes on, or ends the session.
  unfoldable pub pump_message :
      Proxy F
      → ℕ
      → Session
      → Peer
      → RelayMsg
      → Forward
      → ℕ × ℕ
      → ℕ
      → Proxy F × List Forward × List Action
  pump_message p id s peer m forward (to_server, to_client) now =
      let p₁ : Proxy F = put_session p id s in
      let r : Proxy F × List Action = close_session p₁ id relay_broken_message now in
      if relayable peer m.message m.delivery
      then (add_traffic p₁ to_server to_client, forward ∷ [], [])
      else (r.0, [], r.1)

  unfoldable pub pump_upstream :
      Proxy F
      → ℕ
      → Session
      → Peer
      → List RelayMsg
      → Option ℕ
      → Option ℕ
      → ℕ
      → Proxy F × List Forward × List Action
  pump_upstream p id s peer (m ∷ ms) (some link) (some to) now =
      pump_message p id (record s { to_backend = ms }) peer m (to_upstream_peer link to m)
        (length m.message, 0) now
  pump_upstream p id s peer _ _ _ now = (p, [], [])

  unfoldable pub pump_downstream :
      Proxy F
      → ℕ
      → Session
      → Peer
      → List RelayMsg
      → Option ℕ
      → ℕ
      → Proxy F × List Forward × List Action
  pump_downstream p id s peer (m ∷ ms) (some to) now =
      pump_message p id (record s { to_client = ms }) peer m (to_client_peer to m)
        (0, length m.message) now
  pump_downstream p id s peer _ _ now = (p, [], [])

  -- One round of `pumpToBackend`, once the backend is ready; `sees_closed` is the choice of Go's
  -- `select` where the session is closed and a message waits.
  unfoldable pub pump_to_backend :
      Proxy F → ℕ → Peer → Bool → ℕ → Proxy F × List Forward × List Action
  pump_to_backend p id peer sees_closed now = elim (lookup id p.store) [
    | none ↦ (p, [], [])
    | some s ↦
        if is_closed s.state && sees_closed || not s.backend_ready
        then (p, [], [])
        else pump_upstream p id s peer s.to_backend s.upstream s.upstream_peer now
  ]

  -- One round of `pumpToClient`, once the client is ready.
  unfoldable pub pump_to_client :
      Proxy F → ℕ → Peer → Bool → ℕ → Proxy F × List Forward × List Action
  pump_to_client p id peer sees_closed now = elim (lookup id p.store) [
    | none ↦ (p, [], [])
    | some s ↦
        if is_closed s.state && sees_closed || not s.client_ready
        then (p, [], [])
        else pump_downstream p id s peer s.to_client s.client_peer now
  ]
