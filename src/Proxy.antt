-- ===== src/Proxy.antt =====
-- internal/proxy/proxy.go: the proxy's state, and how a session begins and ends. A handler is a step,
-- but for `onConnectionRequest`, which lets go of the lock between the session's entry into the maps
-- and its count at the gate, and is two; `fail_pending` is also the part of `expireHandshake` behind its
-- look at the session. What a handler asks of the managers is a list of actions.
-- The lines that it logs are left out; texts of the code are `says`.
pub mod Console
pub mod Relay
pub mod Open
pub mod Accounts
pub mod Life
pub mod Admit
pub mod Messages
pub mod Traces
pub mod Ledger
pub mod Pumps
pub mod Order
pub mod Once
pub mod Expiry
pub mod Race
mod Tests
use Prim.Native.String.{String}
use scpxy.Base.{
  ℕ, ◌+◌, ◌-◌, ◌*◌, Bool, true, false, not, ◌&&◌, ◌||◌, Option, none, some, List, [], ◌∷◌, ◌++◌,
  map, get_elem?, length, ltb, leb, if◌then◌else◌,
}
use scpxy.Base.Int.{pos, negsuc}
use scpxy.Base.Assoc.{lookup, insert, erase, nat_key, bytes_key}
use scpxy.Stream.{ok, err}
use scpxy.Preauth.{PreAuth, parse, masked_user_id, version, append_real_ip}
use scpxy.Gate.{Floats, Gate, Decision, allowed, decision_message, allow, acquire, release}
use scpxy.Backend.{Backend, pick, mark_success, mark_failure, add_player}
use scpxy.Link.{Link, Links, bind, acquire_link}
use scpxy.Link as Link
use scpxy.Session.{
  Session, SessionState, pending, active, closed, new_session, mark_backend_ready, is_closed,
  is_pending,
}

-- What a peer is told: a text of the code, the text of a move to a backend, or bytes of the other side.
pub data Notice : Type 0 where
  says : String → Notice
  moved_to : List ℕ → Notice
  raw : List ℕ → Notice

abbrev pub backend_down_message : Notice
backend_down_message = says "No server available right now. Try again later."

pub data Action : Type 0 where
  rejects : ℕ → Notice → Action
  accepts : ℕ → Action
  disconnects_client : ℕ → Notice → Action
  disconnects_upstream : ℕ → ℕ → Notice → Action
  connects : ℕ → List ℕ → List ℕ → Action
  stops_link : ℕ → Action
  sends_client : ℕ → List ℕ → Action
  sends_upstream : ℕ → ℕ → List ℕ → Action

pub record Proxy (F : Type 0) : Type 0 where
  pub gate : Gate (List ℕ) F
  pub pool : List Backend
  pub store : List (ℕ × Session)
  pub sessions : List (List ℕ × ℕ)
  pub by_id : List (ℕ × ℕ)
  pub redirects : List (List ℕ × List ℕ)
  pub links : Links
  pub maintenance : Bool
  pub stopped : Bool
  pub next_id : ℕ
  pub upstream_sent : ℕ
  pub upstream_recv : ℕ

-- A request of a client, with the texts of its address and of its IP.
pub record Incoming : Type 0 where
  pub request : ℕ
  pub address : List ℕ
  pub ip : List ℕ
  pub payload : List ℕ

-- `New` behind its managers.
unfoldable pub new_proxy : {F : Type 0} → Gate (List ℕ) F → List Backend → Proxy F
new_proxy gate pool = record {
  gate = gate;
  pool = pool;
  store = [];
  sessions = [];
  by_id = [];
  redirects = [];
  links = record { by_address = []; store = []; count = 0 };
  maintenance = false;
  stopped = false;
  next_id = 0;
  upstream_sent = 0;
  upstream_recv = 0;
}

-- The link of a session that ends is free for its client's next one.
unfoldable pub release_link : Links → Option ℕ → ℕ → Links
release_link ls none now = ls
release_link ls (some n) now = elim (lookup n ls.store) [
  | none ↦ ls
  | some l ↦ record ls { store = insert n (Link.release l now) ls.store }
]

abbrev pub farewell : Session → Notice → List Action
farewell s notice = client s.client_peer ++ upstream s.upstream s.upstream_peer
  where
    client : Option ℕ → List Action
    client none = []
    client (some peer) = disconnects_client peer notice ∷ []

    upstream : Option ℕ → Option ℕ → List Action
    upstream (some link) (some peer) = disconnects_upstream link peer notice ∷ []
    upstream _ _ = []

-- What the pre-authentication data tells of a session.
unfoldable pub described : Session → List ℕ → Session
described s payload = elim (parse payload) [
  | err e ↦ s
  | ok a ↦ record s { user_id = a.user_id; masked = masked_user_id a; version = version a }
]

abbrev pub bind_link : Links → ℕ → ℕ → Links
bind_link ls n id = elim (lookup n ls.store) [
  | none ↦ ls
  | some l ↦ record ls { store = insert n (bind l id) ls.store }
]

abbrev pub stopped_links : List ℕ → List Action
stopped_links ns = map (λ n. stops_link n) ns

-- What the session's client sends to the backend first.
abbrev pub connect_data_of : Bool → Incoming → List ℕ
connect_data_of passthrough r = if passthrough then append_real_ip r.payload r.ip else r.payload

module _ {F : Type 0} where
  abbrev pub put_session : Proxy F → ℕ → Session → Proxy F
  put_session p id s = record p { store = insert id s p.store }

  -- `takeRedirect`
  unfoldable pub take_redirect : Proxy F → List ℕ → Proxy F × List ℕ
  take_redirect p ip = elim (lookup ip p.redirects) [
    | none ↦ (p, [])
    | some target ↦ (record p { redirects = erase ip p.redirects }, target)
  ]

  -- `dropSession`: the first call only, which closes the session.
  unfoldable pub drop_session : Proxy F → ℕ → ℕ → Proxy F
  drop_session p id now = elim (lookup id p.store) [
    | none ↦ p
    | some s ↦ if is_closed s.state then p else record p {
      store = insert id (record s { state = closed }) p.store;
      links = release_link p.links s.link now;
      sessions = erase s.client_at p.sessions;
      by_id = erase id p.by_id;
      gate = release p.gate s.real_ip;
      pool = add_player p.pool s.backend (negsuc 0);
    }
  ]

  -- `closeSession`
  unfoldable pub close_session : Proxy F → ℕ → Notice → ℕ → Proxy F × List Action
  close_session p id notice now = elim (lookup id p.store) [
    | none ↦ (p, [])
    | some s ↦ if is_closed s.state then (p, []) else (drop_session p id now, farewell s notice)
  ]

  -- The session of a request enters the maps: the locked part of `onConnectionRequest`.
  unfoldable pub register : Proxy F → Incoming → ℕ → Backend → ℕ → Proxy F × ℕ
  register p r target b now =
      let id : ℕ = p.next_id + 1 in
      let s : Session = new_session id r.ip r.address target b.cfg.name r.request now in
      (
        record p {
          next_id = id;
          store = insert id (described s r.payload) p.store;
          sessions = insert r.address id p.sessions;
          by_id = insert id id p.by_id;
        },
        id,
      )

  -- The rest of it: the session is counted, and its link opened.
  unfoldable pub counted : Proxy F → ℕ → ℕ → List ℕ → Proxy F
  counted p id target ip = record p {
    gate = acquire p.gate ip;
    pool = add_player p.pool target (pos 1);
  }

  abbrev pub link_session : Proxy F → ℕ → ℕ → Proxy F
  link_session p id n = elim (lookup id p.store) [
    | none ↦ p
    | some s ↦ record p {
      links = bind_link p.links n id;
      store = insert id (record s { link = some n; upstream = some n }) p.store;
    }
  ]

  -- `opens` says whether the system gives a socket.
  unfoldable pub admit :
      Proxy F → ℕ → Incoming → ℕ → List ℕ → List ℕ → ℕ → Bool → Proxy F × List Action
  admit p id r target addr connect_data now opens =
      let p₁ : Proxy F = counted p id target r.ip in
      let got : Links × Option ℕ × List ℕ = acquire_link p₁.links r.address now opens in
      let p₂ : Proxy F = record p₁ { links = got.0 } in
      elim got.1 [
        | none ↦ (
          drop_session p₂ id now,
          stopped_links got.2 ++ (rejects r.request backend_down_message ∷ []),
        )
        | some n ↦
            (link_session p₂ id n, stopped_links got.2 ++ (connects n addr connect_data ∷ []))
      ]

abbrev pub address_of : Backend → List ℕ
address_of b = elim b.cfg.resolved [ none ↦ [] | some a ↦ a ]

module _ (fl : Floats) where
  open fl use {F}

  abbrev pub is_allowed : Decision → Bool
  is_allowed allowed = true
  is_allowed _ = false

  -- `onConnectionRequest` up to the choice of a backend: the proxy, and the backend or the refusal.
  unfoldable pub choose : Proxy F → Incoming → ℕ → Proxy F × Option (ℕ × Backend) × List Action
  choose p r now =
      let asked : Gate (List ℕ) F × Decision = allow fl p.gate r.ip now in
      let p₁ : Proxy F = record p { gate = asked.0 } in
      let taken : Proxy F × List ℕ = take_redirect p₁ r.ip in
      let found : Option (ℕ × Backend) = pick taken.0.pool taken.1 now in
      if not (is_allowed asked.1)
      then (p₁, none, rejects r.request (says (decision_message asked.1)) ∷ [])
      else if p.maintenance || p.stopped
      then (
        p₁,
        none,
        rejects r.request (says "The proxy is under maintenance. Try again later.") ∷ [],
      )
      else elim found [
        | none ↦ (taken.0, none, rejects r.request backend_down_message ∷ [])
        | some b ↦ (taken.0, some b, [])
      ]

  -- `onConnectionRequest` with nothing between its two parts.
  unfoldable pub on_connection_request :
      Bool → Proxy F → Incoming → ℕ → Bool → Proxy F × List Action
  on_connection_request passthrough p r now opens =
      let chosen : Proxy F × Option (ℕ × Backend) × List Action = choose p r now in
      elim chosen.1 [
        | none ↦ (chosen.0, chosen.2)
        | some (target, b) ↦
            let registered : Proxy F × ℕ = register chosen.0 r target b now in
            admit registered.0 registered.1 r target (address_of b) (connect_data_of passthrough r)
              now opens
      ]

module _ {F : Type 0} where
  -- A failure of a session's backend, and the end of the session.
  unfoldable pub fail_pending : Proxy F → ℕ → Session → List ℕ → ℕ → Proxy F × List Action
  fail_pending p id s reason now = (
    drop_session (record p { pool = (mark_failure p.pool s.backend reason now).0 }) id now,
    rejects s.request backend_down_message ∷ [],
  )

  -- `expireHandshake`, whose reason is a text.
  unfoldable pub expire_handshake : Proxy F → ℕ → List ℕ → ℕ → Proxy F × List Action
  expire_handshake p id handshake_timeout now = elim (lookup id p.store) [
    | none ↦ (p, [])
    | some s ↦ if is_pending s.state then fail_pending p id s handshake_timeout now else (p, [])
  ]

  -- `onUpstreamConnected`
  unfoldable pub on_upstream_connected : Proxy F → ℕ → ℕ → Proxy F × List Action
  on_upstream_connected p id peer = elim (lookup id p.store) [
    | none ↦ (p, [])
    | some s ↦
        if is_pending s.state
        then (
          record p {
            store = insert id (mark_backend_ready (record s { state = active }) peer) p.store;
            pool = mark_success p.pool s.backend;
          },
          accepts s.request ∷ [],
        )
        else (p, [])
  ]

  -- `onUpstreamDisconnected`; `rejected` says that the reason is a rejection, `reason` is its text.
  unfoldable pub on_upstream_disconnected :
      Proxy F → ℕ → Bool → List ℕ → List ℕ → ℕ → Proxy F × List Action
  on_upstream_disconnected p id rejected reason message now = elim (lookup id p.store) [
    | none ↦ (p, [])
    | some s ↦
        if is_pending s.state
        then (if rejected
            then (drop_session p id now, rejects s.request (raw message) ∷ [])
            else fail_pending p id s reason now)
        else close_session p id (raw message) now
  ]

  -- `sessionByAddr`
  unfoldable pub session_by_addr : Proxy F → List ℕ → Option ℕ
  session_by_addr p address = lookup address p.sessions

  -- `onClientDisconnected`
  unfoldable pub on_client_disconnected : Proxy F → List ℕ → List ℕ → ℕ → Proxy F × List Action
  on_client_disconnected p address message now = elim (session_by_addr p address) [
    | none ↦ (p, [])
    | some id ↦ close_session p id (raw message) now
  ]

  -- `closeSession` of several sessions.
  unfoldable pub close_all : Proxy F → List ℕ → Notice → ℕ → Proxy F × List Action
  close_all p [] notice now = (p, [])
  close_all p (id ∷ ids) notice now =
      let first : Proxy F × List Action = close_session p id notice now in
      let rest : Proxy F × List Action = close_all first.0 ids notice now in
      (rest.0, first.1 ++ rest.1)
