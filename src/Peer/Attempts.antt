-- ===== src/Peer/Attempts.antt =====
-- A peer of peer.go that connects and hears nothing: how often it asks, and when it gives up.
use scpxy.Base.{
  ℕ, zero, suc, ◌+◌, ◌≤◌, ◌<◌, ◌≡◌, refl, ap, Option, some, List, [], ◌∷◌, ◌++◌, length, replicate,
  All, ◌>>=◌, arith,
}
use scpxy.Wire.{connection_failed}
use scpxy.Packet.{Packet}
use scpxy.Peer.{Peer, outgoing, Settings, Call, send_raw, disconnect_force}
use scpxy.Peer.Update.{Tick, update, update_in, update_outgoing}

-- Updates, one after the other.
unfoldable pub updates : List Tick → Peer → Option (Peer × List Call)
updates [] p = some (p, [])
updates (t ∷ ts) p = update t p >>= λ r. updates ts r.0 >>= λ rest. some (rest.0, r.1 ++ rest.1)

module _ (s : Settings) (request : Packet) where
  -- An update that comes after the reconnect delay.
  abbrev pub IsLate : Tick → Type 0
  IsLate t = (t.settings ≡ s) × (s.reconnect_delay < t.delta)

  -- A peer that has asked so often.
  pub record HasAsked (p : Peer) (attempts : ℕ) : Type 0 where
    pub state_is : p.state ≡ outgoing
    pub request_is : p.connect_request_packet ≡ some request
    pub attempts_are : p.connect_attempts ≡ attempts

  pub record Asked (result : Option (Peer × List Call)) (attempts : ℕ) (calls : List Call)
      : Type 0 where
    pub next : Peer
    pub returns : result ≡ some (next, calls)
    pub has_asked : HasAsked next attempts

  ask_again :
      (t : Tick) (p : Peer) (a : ℕ)
      → HasAsked p a
      → IsLate t
      → a < s.max_connect_attempts
      → Asked (update t p) (a + 1) (send_raw request.bytes ∷ [])
  unfolding update update_in update_outgoing
  ask_again t p a h (same, late) few = record {
    next = record p {
      since_last_packet = p.since_last_packet + t.delta;
      connect_timer = 0;
      connect_attempts = p.connect_attempts + 1;
    };
    returns = ground (arith, h.state_is, h.request_is, h.attempts_are, same, late, few);
    has_asked = record {
      state_is = h.state_is;
      request_is = h.request_is;
      attempts_are = ap (λ (n : ℕ). n + 1) h.attempts_are;
    };
  }

  give_up :
      (t : Tick) (p : Peer) (a : ℕ)
      → HasAsked p a
      → IsLate t
      → s.max_connect_attempts ≤ a
      → Asked (update t p) (a + 1) (disconnect_force connection_failed ∷ [])
  unfolding update update_in update_outgoing
  give_up t p a h (same, late) many = record {
    next = record p {
      since_last_packet = p.since_last_packet + t.delta;
      connect_timer = 0;
      connect_attempts = p.connect_attempts + 1;
    };
    returns = ground (arith, h.state_is, h.request_is, h.attempts_are, same, late, many);
    has_asked = record {
      state_is = h.state_is;
      request_is = h.request_is;
      attempts_are = ap (λ (n : ℕ). n + 1) h.attempts_are;
    };
  }

  -- A peer that has asked `a` times and hears nothing, over updates that each come after the reconnect
  -- delay, one more than the attempts that it has left: it sends its request in each of them but the
  -- last, and then ends the connection as failed. It sends nothing else.
  pub updates-Asked :
      (n : ℕ) (ts : List Tick) (p : Peer) (a : ℕ)
      → HasAsked p a
      → All IsLate ts
      → length ts ≡ n + 1
      → a + n ≡ s.max_connect_attempts
      → Asked
          (updates ts p)
          (a + n + 1)
          (replicate n (send_raw request.bytes) ++ (disconnect_force connection_failed ∷ []))
  unfolding updates
  updates-Asked n [] p a h late few left = absurd (omega arith)
  updates-Asked zero (t ∷ (u ∷ ts)) p a h late few left = absurd (omega arith)
  updates-Asked zero (t ∷ []) p a h (late, rest) few left =
      let r = give_up t p a h late (omega arith) in
      let e : a + 1 ≡ a + 0 + 1 = omega arith in
      record {
        next = r.next;
        returns = rw (r.returns, ◌>>=◌) refl;
        has_asked = rw (← e) r.has_asked;
      }
  updates-Asked (suc n) (t ∷ ts) p a h (late, rest) few left =
      let r = ask_again t p a h late (omega arith) in
      let later = updates-Asked n ts r.next (a + 1) r.has_asked rest (omega arith) (omega arith) in
      let e : a + 1 + n + 1 ≡ a + suc n + 1 = omega arith in
      record {
        next = later.next;
        returns = rw (r.returns, ◌>>=◌, later.returns) refl;
        has_asked = rw (← e) later.has_asked;
      }
