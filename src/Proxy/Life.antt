-- ===== src/Proxy/Life.antt =====
-- The life of the sessions of internal/proxy/proxy.go: each handler, run with no other between its
-- parts, keeps the accounts.
use scpxy.Base.{
  ℕ, ◌≡◌, refl, sym, ◌∙◌, Bool, true, false, some, List, [], ◌∷◌, arith, inl, inr, Bool-cases,
  Option-cases,
}
use scpxy.Base.Assoc.{lookup, nat_key, bytes_key}
use scpxy.Gate.{Gate, count}
use scpxy.Backend.{Backend, success, failure, mark_success, mark_failure}
use scpxy.Session.{
  Session, SessionState, pending, active, closed, is_closed, is_pending, mark_backend_ready,
}
use scpxy.Proxy.{
  Proxy, Notice, drop_session, close_session, close_all, put_session, fail_pending,
  expire_handshake, on_upstream_connected, on_upstream_disconnected, session_by_addr,
  on_client_disconnected,
}
use scpxy.Proxy.Accounts.{Accounts, players_at, players_at-same, changed-Accounts, closed-Accounts}

pending-open : (s : SessionState) → is_pending s ≡ true → is_closed s ≡ false
pending-open pending h = refl
pending-open active h = refl
pending-open closed h = absurd (cc h)

module _ {F : Type 0} where
  abbrev pub Balanced : Proxy F → Type 0
  Balanced p = Accounts p.gate p.pool p.store p.next_id

  -- Another pool, with the same players.
  pub pool-Balanced :
      (p : Proxy F) (pool : List Backend)
      → ((b : ℕ) → players_at pool b ≡ players_at p.pool b)
      → Balanced p
      → Balanced (record p { pool = pool })
  pool-Balanced p pool same a = record {
    represents = a.represents;
    players_are = λ b n h. a.players_are b n (sym (same b) ∙ h);
    fresh = a.fresh;
  }

  -- Another gate, with the same counts.
  pub gate-Balanced :
      (p : Proxy F) (g : Gate (List ℕ) F)
      → g.sessions ≡ p.gate.sessions
      → g.total ≡ p.gate.total
      → Balanced p
      → Balanced (record p { gate = g })
  unfolding count
  gate-Balanced p g sessions total a = record {
    represents = record {
      counted = λ k. rw sessions (a.represents.counted k);
      summed = total ∙ a.represents.summed;
    };
    players_are = a.players_are;
    fresh = a.fresh;
  }

  -- A session that changes in what is not counted.
  pub put-Balanced :
      (p : Proxy F) (id : ℕ) (s s' : Session)
      → Balanced p
      → lookup id p.store ≡ some s
      → s'.real_ip ≡ s.real_ip
      → s'.backend ≡ s.backend
      → is_closed s'.state ≡ is_closed s.state
      → Balanced (put_session p id s')
  put-Balanced p id s s' a there ip backend state =
      changed-Accounts p.gate p.pool p.store p.next_id id s s' a there ip backend state

  pub drop_session-Balanced :
      (p : Proxy F) (id now : ℕ) → Balanced p → Balanced (drop_session p id now)
  unfolding drop_session
  drop_session-Balanced p id now a = elim (Option-cases (lookup id p.store)) [
    | inl e ↦ rw (e, drop_session) a
    | inr (s, e) ↦ elim (Bool-cases (is_closed s.state)) [
      | inl c ↦ rw (e, drop_session, c) a
      | inr o ↦
          rw (e, drop_session, o)
            (closed-Accounts p.gate p.pool p.store p.next_id id s (record s { state = closed }) a e
              refl refl o refl)
    ]
  ]

  pub close_session-Balanced :
      (p : Proxy F) (id : ℕ) (notice : Notice) (now : ℕ)
      → Balanced p
      → Balanced (close_session p id notice now).0
  unfolding close_session
  close_session-Balanced p id notice now a = elim (Option-cases (lookup id p.store)) [
    | inl e ↦ rw (e, close_session) a
    | inr (s, e) ↦ elim (Bool-cases (is_closed s.state)) [
      | inl c ↦ rw (e, close_session, c) a
      | inr o ↦ rw (e, close_session, o) (drop_session-Balanced p id now a)
    ]
  ]

  pub close_all-Balanced :
      (p : Proxy F) (ids : List ℕ) (notice : Notice) (now : ℕ)
      → Balanced p
      → Balanced (close_all p ids notice now).0
  unfolding close_all
  close_all-Balanced p [] notice now a = a
  close_all-Balanced p (id ∷ ids) notice now a =
      close_all-Balanced (close_session p id notice now).0 ids notice now
        (close_session-Balanced p id notice now a)

  mark_failure-Balanced :
      (p : Proxy F) (i : ℕ) (reason : List ℕ) (now : ℕ)
      → Balanced p
      → Balanced (record p { pool = (mark_failure p.pool i reason now).0 })
  unfolding mark_failure failure
  mark_failure-Balanced p i reason now a =
      pool-Balanced p _
        (λ b. players_at-same p.pool i b (λ c. (failure c reason now).0) (λ c. ground arith)) a

  fail_pending-Balanced :
      (p : Proxy F) (id : ℕ) (s : Session) (reason : List ℕ) (now : ℕ)
      → Balanced p
      → Balanced (fail_pending p id s reason now).0
  unfolding fail_pending
  fail_pending-Balanced p id s reason now a =
      drop_session-Balanced _ id now (mark_failure-Balanced p s.backend reason now a)

  pub expire_handshake-Balanced :
      (p : Proxy F) (id : ℕ) (text : List ℕ) (now : ℕ)
      → Balanced p
      → Balanced (expire_handshake p id text now).0
  unfolding expire_handshake
  expire_handshake-Balanced p id text now a = elim (Option-cases (lookup id p.store)) [
    | inl e ↦ rw (e, expire_handshake) a
    | inr (s, e) ↦ elim (Bool-cases (is_pending s.state)) [
      | inl c ↦ rw (e, expire_handshake, c) (fail_pending-Balanced p id s text now a)
      | inr o ↦ rw (e, expire_handshake, o) a
    ]
  ]

  pub on_upstream_connected-Balanced :
      (p : Proxy F) (id peer : ℕ) → Balanced p → Balanced (on_upstream_connected p id peer).0
  unfolding on_upstream_connected mark_success success mark_backend_ready
  on_upstream_connected-Balanced p id peer a = elim (Option-cases (lookup id p.store)) [
    | inl e ↦ rw (e, on_upstream_connected) a
    | inr (s, e) ↦ elim (Bool-cases (is_pending s.state)) [
      | inl c ↦
          rw (e, on_upstream_connected, c)
            (pool-Balanced
              (put_session p id (mark_backend_ready (record s { state = active }) peer)) _
              (λ b. players_at-same p.pool s.backend b success (λ c. refl))
              (put-Balanced p id s (mark_backend_ready (record s { state = active }) peer) a e refl
                refl (sym (pending-open s.state c))))
      | inr o ↦ rw (e, on_upstream_connected, o) a
    ]
  ]

  pub on_upstream_disconnected-Balanced :
      (p : Proxy F) (id : ℕ) (rejected : Bool) (reason message : List ℕ) (now : ℕ)
      → Balanced p
      → Balanced (on_upstream_disconnected p id rejected reason message now).0
  unfolding on_upstream_disconnected
  on_upstream_disconnected-Balanced p id rejected reason message now a =
      elim (Option-cases (lookup id p.store)) [
        | inl e ↦ rw (e, on_upstream_disconnected) a
        | inr (s, e) ↦ elim (Bool-cases (is_pending s.state)) [
          | inl c ↦ elim (Bool-cases rejected) [
            | inl r ↦ rw (e, on_upstream_disconnected, c, r) (drop_session-Balanced p id now a)
            | inr r ↦
                rw (e, on_upstream_disconnected, c, r) (fail_pending-Balanced p id s reason now a)
          ]
          | inr o ↦ rw (e, on_upstream_disconnected, o) (close_session-Balanced p id _ now a)
        ]
      ]

  pub on_client_disconnected-Balanced :
      (p : Proxy F) (address message : List ℕ) (now : ℕ)
      → Balanced p
      → Balanced (on_client_disconnected p address message now).0
  unfolding on_client_disconnected
  on_client_disconnected-Balanced p address message now a =
      elim (Option-cases (session_by_addr p address)) [
        | inl e ↦ rw (e, on_client_disconnected) a
        | inr (id, e) ↦ rw (e, on_client_disconnected) (close_session-Balanced p id _ now a)
      ]
