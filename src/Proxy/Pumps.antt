-- ===== src/Proxy/Pumps.antt =====
-- One step of the relay of internal/proxy/proxy.go on an open session: a message waits, or goes on.
use scpxy.Base.{
  ℕ, ◌+◌, ◌≤◌, ◌<◌, ◌≡◌, refl, sym, Bool, true, false, ◌&&◌, some, List, [], ◌∷◌, ◌++◌, append-nil,
  length, All, lt→ltb, ◌==◌, if◌then◌else◌, arith, ==_iff,
}
use scpxy.Base.Assoc.{lookup, nat_key, bytes_key, lookup-insert_self}
use scpxy.Peer.{Peer}
use scpxy.Session.{Session, RelayMsg, relay_queue_size, enqueue, is_closed}
use scpxy.Proxy.{Proxy, put_session, session_by_addr}
use scpxy.Proxy.Relay.{
  Forward, to_client_peer, to_upstream_peer, relayable, add_traffic, on_client_receive,
  on_upstream_receive, queue_to_backend, queue_to_client, pump_message, pump_upstream,
  pump_downstream, pump_to_backend, pump_to_client,
}

-- What happens to the relay of a session, with Go's choice in a `select` whose session is closed.
pub data RelayStep : Type 0 where
  client_sends backend_sends : Bool → RelayMsg → RelayStep
  pumps_up pumps_down : Bool → RelayStep

-- The messages that each side has sent.
unfoldable pub sent_up : List RelayStep → List RelayMsg
sent_up [] = []
sent_up (client_sends takes_closed m ∷ es) = m ∷ sent_up es
sent_up (_ ∷ es) = sent_up es

unfoldable pub sent_down : List RelayStep → List RelayMsg
sent_down [] = []
sent_down (backend_sends takes_closed m ∷ es) = m ∷ sent_down es
sent_down (_ ∷ es) = sent_down es

-- The messages that went on to a peer of a link, and to a client's peer.
unfoldable pub got_up : ℕ → ℕ → List Forward → List RelayMsg
got_up link to [] = []
got_up link to (to_upstream_peer l t m ∷ fs) =
    let rest = got_up link to fs in if l == link && t == to then m ∷ rest else rest
got_up link to (_ ∷ fs) = got_up link to fs

unfoldable pub got_down : ℕ → List Forward → List RelayMsg
got_down client [] = []
got_down client (to_client_peer c m ∷ fs) =
    let rest = got_down client fs in if c == client then m ∷ rest else rest
got_down client (_ ∷ fs) = got_down client fs

abbrev pub Passes : Peer → RelayMsg → Type 0
Passes peer m = relayable peer m.message m.delivery ≡ true

module _ {F : Type 0} (id : ℕ) (address : List ℕ) (link to client now : ℕ) (up down : Peer) where
  -- An open session with both its peers, whose client's address is known.
  pub record Ready (p : Proxy F) (s : Session) : Type 0 where
    pub there : lookup id p.store ≡ some s
    pub known : lookup address p.sessions ≡ some id
    pub open_is : is_closed s.state ≡ false
    pub backend_is : s.backend_ready ≡ true
    pub client_ready_is : s.client_ready ≡ true
    pub link_is : s.upstream ≡ some link
    pub to_is : s.upstream_peer ≡ some to
    pub client_is : s.client_peer ≡ some client

  unfoldable pub relay_step : Proxy F → RelayStep → Proxy F × List Forward
  relay_step p (client_sends takes_closed m) =
      ((on_client_receive p address client takes_closed m now).0, [])
  relay_step p (backend_sends takes_closed m) =
      ((on_upstream_receive p id takes_closed m now).0, [])
  relay_step p (pumps_up sees_closed) =
      let r = pump_to_backend p id up sees_closed now in (r.0, r.1)
  relay_step p (pumps_down sees_closed) =
      let r = pump_to_client p id down sees_closed now in (r.0, r.1)

  unfoldable pub relay : Proxy F → List RelayStep → Proxy F × List Forward
  relay p [] = (p, [])
  relay p (e ∷ es) =
      let first : Proxy F × List Forward = relay_step p e in
      let rest : Proxy F × List Forward = relay first.0 es in (rest.0, first.1 ++ rest.1)

  put-Ready :
      (p : Proxy F) (s : Session) (a b : List RelayMsg)
      → Ready p s
      → Ready
          (put_session p id (record s { to_backend = a; to_client = b }))
          (record s { to_backend = a; to_client = b })
  put-Ready p s a b r = record {
    there = lookup-insert_self id (record s { to_backend = a; to_client = b }) p.store;
    known = r.known;
    open_is = r.open_is;
    backend_is = r.backend_is;
    client_ready_is = r.client_ready_is;
    link_is = r.link_is;
    to_is = r.to_is;
    client_is = r.client_is;
  }

  client_sends-queues :
      (p : Proxy F) (s : Session) (takes_closed : Bool) (m : RelayMsg)
      → Ready p s
      → length s.to_backend < relay_queue_size
      → on_client_receive p address client takes_closed m now
        ≡ (put_session p id (record s { to_backend = s.to_backend ++ (m ∷ []) }), [])
  unfolding on_client_receive queue_to_backend enqueue session_by_addr
  client_sends-queues p s takes_closed m r room =
      rw
        (
          on_client_receive,
          session_by_addr,
          r.known,
          r.there,
          queue_to_backend,
          enqueue,
          r.open_is,
          lt→ltb (length s.to_backend) relay_queue_size room,
        )
        refl

  backend_sends-queues :
      (p : Proxy F) (s : Session) (takes_closed : Bool) (m : RelayMsg)
      → Ready p s
      → length s.to_client < relay_queue_size
      → on_upstream_receive p id takes_closed m now
        ≡ (put_session p id (record s { to_client = s.to_client ++ (m ∷ []) }), [])
  unfolding on_upstream_receive queue_to_client enqueue
  backend_sends-queues p s takes_closed m r room =
      rw
        (
          on_upstream_receive,
          r.there,
          queue_to_client,
          enqueue,
          r.open_is,
          lt→ltb (length s.to_client) relay_queue_size room,
        )
        refl

  -- What a round of a pump does to an open session.
  pump_to_backend-open :
      (p : Proxy F) (s : Session) (sees_closed : Bool)
      → Ready p s
      → pump_to_backend p id up sees_closed now
        ≡ pump_upstream p id s up s.to_backend (some link) (some to) now
  unfolding pump_to_backend
  pump_to_backend-open p s sees_closed r =
      rw (pump_to_backend, r.there, r.open_is, r.backend_is, r.link_is, r.to_is) refl

  pump_to_client-open :
      (p : Proxy F) (s : Session) (sees_closed : Bool)
      → Ready p s
      → pump_to_client p id down sees_closed now
        ≡ pump_downstream p id s down s.to_client (some client) now
  unfolding pump_to_client
  pump_to_client-open p s sees_closed r =
      rw (pump_to_client, r.there, r.open_is, r.client_ready_is, r.client_is) refl

  pump_message-Passes :
      (p : Proxy F) (s' : Session) (peer : Peer) (m : RelayMsg) (f : Forward) (n k : ℕ)
      → Passes peer m
      → pump_message p id s' peer m f (n, k) now
        ≡ (add_traffic (put_session p id s') n k, f ∷ [], [])
  unfolding pump_message
  pump_message-Passes p s' peer m f n k h = rw (pump_message, h) refl

  -- From a session to what has become of it: each side's messages have gone on or wait, in their order.
  pub record Relayed (s : Session) (result : Proxy F × List Forward) (ups downs : List RelayMsg)
      : Type 0 where
    pub next : Session
    pub ready : Ready result.0 next
    pub up_is : got_up link to result.1 ++ next.to_backend ≡ s.to_backend ++ ups
    pub down_is : got_down client result.1 ++ next.to_client ≡ s.to_client ++ downs

  add_traffic-Ready :
      (p : Proxy F) (s : Session) (n k : ℕ) → Ready p s → Ready (add_traffic p n k) s
  unfolding add_traffic
  add_traffic-Ready p s n k r = record {
    there = r.there;
    known = r.known;
    open_is = r.open_is;
    backend_is = r.backend_is;
    client_ready_is = r.client_ready_is;
    link_is = r.link_is;
    to_is = r.to_is;
    client_is = r.client_is;
  }

  pumped_up :
      (p : Proxy F) (s : Session) (q : List RelayMsg)
      → Ready p s
      → s.to_backend ≡ q
      → All (Passes up) q
      → let r = pump_upstream p id s up q (some link) (some to) now in Relayed s (r.0, r.1) [] []
  unfolding pump_upstream got_up got_down
  pumped_up p s [] r e h = record {
    next = s;
    ready = r;
    up_is = sym (append-nil s.to_backend);
    down_is = sym (append-nil s.to_client);
  }
  pumped_up p s (m ∷ ms) r e (h, hs) =
      rw
        (pump_message-Passes p (record s { to_backend = ms }) up m (to_upstream_peer link to m)
          (length m.message) 0 h)
        (record {
          next = record s { to_backend = ms };
          ready = add_traffic-Ready _ _ _ _ (put-Ready p s ms s.to_client r);
          up_is =
              rw ((==_iff link link).1 refl, (==_iff to to).1 refl, e) (sym (append-nil (m ∷ ms)));
          down_is = sym (append-nil s.to_client);
        })

  pumped_down :
      (p : Proxy F) (s : Session) (q : List RelayMsg)
      → Ready p s
      → s.to_client ≡ q
      → All (Passes down) q
      → let r = pump_downstream p id s down q (some client) now in Relayed s (r.0, r.1) [] []
  unfolding pump_downstream got_up got_down
  pumped_down p s [] r e h = record {
    next = s;
    ready = r;
    up_is = sym (append-nil s.to_backend);
    down_is = sym (append-nil s.to_client);
  }
  pumped_down p s (m ∷ ms) r e (h, hs) =
      rw
        (pump_message-Passes p (record s { to_client = ms }) down m (to_client_peer client m) 0
          (length m.message) h)
        (record {
          next = record s { to_client = ms };
          ready = add_traffic-Ready _ _ _ _ (put-Ready p s s.to_backend ms r);
          up_is = sym (append-nil s.to_backend);
          down_is = rw ((==_iff client client).1 refl, e) (sym (append-nil (m ∷ ms)));
        })

  pub step-Relayed :
      (p : Proxy F) (s : Session) (e : RelayStep)
      → Ready p s
      → length s.to_backend + length (sent_up (e ∷ [])) ≤ relay_queue_size
      → length s.to_client + length (sent_down (e ∷ [])) ≤ relay_queue_size
      → All (Passes up) s.to_backend
      → All (Passes down) s.to_client
      → Relayed s (relay_step p e) (sent_up (e ∷ [])) (sent_down (e ∷ []))
  unfolding relay_step sent_up sent_down got_up got_down
  step-Relayed p s (client_sends takes_closed m) r room_up room_down pass_up pass_down = record {
    next = record s { to_backend = s.to_backend ++ (m ∷ []) };
    ready =
        rw (client_sends-queues p s takes_closed m r (omega arith))
          (put-Ready p s (s.to_backend ++ (m ∷ [])) s.to_client r);
    up_is = refl;
    down_is = sym (append-nil s.to_client);
  }
  step-Relayed p s (backend_sends takes_closed m) r room_up room_down pass_up pass_down = record {
    next = record s { to_client = s.to_client ++ (m ∷ []) };
    ready =
        rw (backend_sends-queues p s takes_closed m r (omega arith))
          (put-Ready p s s.to_backend (s.to_client ++ (m ∷ [])) r);
    up_is = sym (append-nil s.to_backend);
    down_is = refl;
  }
  step-Relayed p s (pumps_up sees_closed) r room_up room_down pass_up pass_down =
      rw (pump_to_backend-open p s sees_closed r) (pumped_up p s s.to_backend r refl pass_up)
  step-Relayed p s (pumps_down sees_closed) r room_up room_down pass_up pass_down =
      rw (pump_to_client-open p s sees_closed r) (pumped_down p s s.to_client r refl pass_down)
