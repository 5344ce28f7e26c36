-- ===== src/Session.antt =====
-- internal/proxy/session.go: one client's session. Its peers and its request go by numbers; a channel
-- that is closed to tell others is a flag.
use scpxy.Base.{
  ℕ, ◌-◌, Bool, true, false, Option, none, some, List, [], ◌∷◌, ◌++◌, length, ltb, ◌==◌,
  if◌then◌else◌,
}
use scpxy.Wire.{Delivery}

abbrev pub relay_queue_size : ℕ
relay_queue_size = 8192

pub data SessionState : Type 0 where
  pending active closed : SessionState

pub record RelayMsg : Type 0 where
  pub message : List ℕ
  pub channel : ℕ
  pub delivery : Delivery

pub record Session : Type 0 where
  pub id : ℕ
  pub real_ip : List ℕ
  pub client_at : List ℕ
  pub user_id : List ℕ
  pub masked : List ℕ
  pub version : List ℕ
  pub backend : ℕ
  pub backend_name : List ℕ
  pub link : Option ℕ
  pub request : ℕ
  pub client_peer : Option ℕ
  pub upstream : Option ℕ
  pub upstream_peer : Option ℕ
  pub state : SessionState
  pub started : ℕ
  pub to_client : List RelayMsg
  pub to_backend : List RelayMsg
  pub client_ready : Bool
  pub backend_ready : Bool

unfoldable pub new_session : ℕ → List ℕ → List ℕ → ℕ → List ℕ → ℕ → ℕ → Session
new_session id ip client_at backend backend_name request now = record {
  id = id;
  real_ip = ip;
  client_at = client_at;
  user_id = [];
  masked = [];
  version = [];
  backend = backend;
  backend_name = backend_name;
  link = none;
  request = request;
  client_peer = none;
  upstream = none;
  upstream_peer = none;
  state = pending;
  started = now;
  to_client = [];
  to_backend = [];
  client_ready = false;
  backend_ready = false;
}

unfoldable pub mark_client_ready : Session → ℕ → Session
mark_client_ready s peer = record s { client_peer = some peer; client_ready = true }

unfoldable pub mark_backend_ready : Session → ℕ → Session
mark_backend_ready s peer = record s { upstream_peer = some peer; backend_ready = true }

abbrev pub is_closed : SessionState → Bool
is_closed closed = true
is_closed _ = false

abbrev pub is_pending : SessionState → Bool
is_pending pending = true
is_pending _ = false

abbrev pub is_active : SessionState → Bool
is_active active = true
is_active _ = false

-- `enqueue`. Go's `select` picks one of the cases that are ready; `takes_closed` is its choice where
-- the session is closed and the queue has room. The message is lost where it takes that case.
unfoldable pub enqueue : Bool → Bool → List RelayMsg → RelayMsg → List RelayMsg × Bool
enqueue is_shut takes_closed queue m =
    if ltb (length queue) relay_queue_size
    then (if is_shut
        then (if takes_closed then (queue, true) else (queue ++ (m ∷ []), true))
        else (queue ++ (m ∷ []), true))
    else if is_shut
    then (queue, true)
    else (queue, false)

pub record PlayerState : Type 0 where
  pub id : ℕ
  pub user_id : List ℕ
  pub masked : List ℕ
  pub version : List ℕ
  pub real_ip : List ℕ
  pub backend : List ℕ
  pub latency : ℕ
  pub connected : ℕ
  pub active : Bool

-- `snapshot`; `round_trip` is a peer's `RoundTripTime`.
unfoldable pub snapshot : Session → (ℕ → ℕ) → ℕ → PlayerState
snapshot s round_trip now = record {
  id = s.id;
  user_id = s.user_id;
  masked = s.masked;
  version = s.version;
  real_ip = s.real_ip;
  backend = s.backend_name;
  latency = elim s.client_peer [ none ↦ 0 | some p ↦ round_trip p ];
  connected = now - s.started;
  active = is_active s.state;
}

unfoldable pub display_name : Session → List ℕ
display_name s = if length s.masked == 0 then s.real_ip else s.masked
