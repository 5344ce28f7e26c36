-- ===== src/Proxy/Console.antt =====
-- What the console does to internal/proxy/proxy.go: `Kick`, `Move`, `Ban`, `Unban`, `Close`, the
-- switches, and the numbers that it shows.
use scpxy.Base.{
  ℕ, ◌+◌, Bool, true, false, Option, none, some, List, [], ◌∷◌, ◌++◌, map, if◌then◌else◌,
}
use scpxy.Base.Assoc.{lookup, insert, nat_key, bytes_key, bytes_beq}
use scpxy.Gate.{Gate, ban, unban, banned_list}
use scpxy.Backend.{Backend, by_name, set_enabled}
use scpxy.Link.{Links, sweep_links, stop_all_links}
use scpxy.Session.{Session, PlayerState, snapshot, is_pending, is_active}
use scpxy.Proxy.{Proxy, Notice, says, moved_to, Action, stopped_links, close_session, close_all}

pub data ConsoleError : Type 0 where
  player_not_found backend_not_found invalid_ip not_banned : ConsoleError

abbrev pub is_none {ℓ} : {A : Type ℓ} → Option A → Bool
is_none none = true
is_none (some a) = false

-- The ids of the sessions in the map, in the map's order.
abbrev pub session_ids : List (List ℕ × ℕ) → List ℕ
session_ids m = map (λ e. e.1) m

-- Those of one IP, and how many are in a state.
unfoldable pub ids_for_ip : List (ℕ × Session) → List ℕ → List ℕ → List ℕ
ids_for_ip store ip [] = []
ids_for_ip store ip (id ∷ ids) =
    let rest = ids_for_ip store ip ids in
    elim (lookup id store) [
      | none ↦ rest
      | some s ↦ if bytes_beq s.real_ip ip then id ∷ rest else rest
    ]

unfoldable pub count_sessions : (Session → Bool) → List (ℕ × Session) → List ℕ → ℕ
count_sessions test store [] = 0
count_sessions test store (id ∷ ids) =
    let rest = count_sessions test store ids in
    elim (lookup id store) [ none ↦ rest | some s ↦ if test s then rest + 1 else rest ]

pub record Stats : Type 0 where
  pub players : ℕ
  pub pending : ℕ
  pub bytes_to_client : ℕ
  pub bytes_to_server : ℕ
  pub maintenance : Bool

module _ {F : Type 0} where
  -- `Kick`; `reason` is none for an empty text.
  unfoldable pub kick :
      Proxy F → ℕ → Option Notice → ℕ → Proxy F × List Action × Option ConsoleError
  kick p id reason now = elim (lookup id p.by_id) [
    | none ↦ (p, [], some player_not_found)
    | some found ↦
        let told : Notice = elim reason [
          | none ↦ says "Kicked by an administrator."
          | some r ↦ r
        ] in
        let r : Proxy F × List Action = close_session p found told now in (r.0, r.1, none)
  ]

  abbrev pub real_ip_of : Proxy F → ℕ → List ℕ
  real_ip_of p id = elim (lookup id p.store) [ none ↦ [] | some s ↦ s.real_ip ]

  -- `Move`
  unfoldable pub move : Proxy F → ℕ → List ℕ → ℕ → Proxy F × List Action × Option ConsoleError
  move p id name now =
      if is_none (by_name p.pool name)
      then (p, [], some backend_not_found)
      else elim (lookup id p.by_id) [
        | none ↦ (p, [], some player_not_found)
        | some found ↦
            let p₁ : Proxy F = record p {
              redirects = insert (real_ip_of p found) name p.redirects;
            } in
            let r : Proxy F × List Action = close_session p₁ found (moved_to name) now in
            (r.0, r.1, none)
      ]

  -- `SetBackendEnabled`
  unfoldable pub set_backend_enabled : Proxy F → List ℕ → Bool → Proxy F × Option ConsoleError
  set_backend_enabled p name on =
      let r : List Backend × Bool = set_enabled p.pool name on in
      (record p { pool = r.0 }, if r.1 then none else some backend_not_found)

  -- `SetMaintenance`
  unfoldable pub set_maintenance : Proxy F → Bool → Proxy F
  set_maintenance p on = record p { maintenance = on }

  -- `sessionsForIP`
  unfoldable pub sessions_for_ip : Proxy F → List ℕ → List ℕ
  sessions_for_ip p ip = ids_for_ip p.store ip (session_ids p.sessions)

  -- `Ban`, of the text of an IP that the parser accepts.
  unfoldable pub ban_ip :
      Proxy F → Option (List ℕ) → ℕ → Proxy F × List Action × Option ConsoleError
  ban_ip p none now = (p, [], some invalid_ip)
  ban_ip p (some ip) now =
      let p₁ : Proxy F = record p { gate = ban p.gate ip } in
      let r : Proxy F × List Action =
        close_all p₁ (sessions_for_ip p₁ ip) (says "You have been banned from this proxy.") now in
      (r.0, r.1, none)

  -- `Unban`
  unfoldable pub unban_ip : Proxy F → Option (List ℕ) → Proxy F × Option ConsoleError
  unban_ip p none = (p, some invalid_ip)
  unban_ip p (some ip) =
      let r : Gate (List ℕ) F × Bool = unban p.gate ip in
      (record p { gate = r.0 }, if r.1 then none else some not_banned)

  -- `BannedList`
  unfoldable pub banned_ips : Proxy F → List (List ℕ)
  banned_ips p = banned_list p.gate

  -- `Close`: once, each session of the map, then the links.
  unfoldable pub close_proxy : Proxy F → ℕ → Proxy F × List Action
  close_proxy p now =
      let p₁ : Proxy F = record p { stopped = true } in
      let r : Proxy F × List Action =
        close_all p₁ (session_ids p.sessions) (says "The proxy is shutting down.") now in
      let last : Links × List ℕ = stop_all_links r.0.links in
      if p.stopped then (p, []) else (record r.0 { links = last.0 }, r.1 ++ stopped_links last.1)

  -- One round of the loop that frees links.
  unfoldable pub sweep_round : Proxy F → ℕ → Proxy F × List Action
  sweep_round p now =
      let r : Links × List ℕ = sweep_links p.links now in
      (record p { links = r.0 }, stopped_links r.1)

  -- `Stats`, but for the clock and the gate's own.
  unfoldable pub stats : Proxy F → Stats
  stats p = record {
    players = count_sessions (λ s. is_active s.state) p.store (session_ids p.sessions);
    pending = count_sessions (λ s. is_pending s.state) p.store (session_ids p.sessions);
    bytes_to_client = p.upstream_recv;
    bytes_to_server = p.upstream_sent;
    maintenance = p.maintenance;
  }

  -- `Players`
  unfoldable pub players : Proxy F → (ℕ → ℕ) → ℕ → List ℕ → List PlayerState
  players p round_trip now [] = []
  players p round_trip now (id ∷ ids) =
      let rest = players p round_trip now ids in
      elim (lookup id p.store) [ none ↦ rest | some s ↦ snapshot s round_trip now ∷ rest ]
