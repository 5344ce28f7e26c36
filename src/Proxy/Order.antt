-- ===== src/Proxy/Order.antt =====
-- The relay of internal/proxy/proxy.go over a run: each side gets what the other sent, in its order.
use scpxy.Base.{
  ℕ, ◌+◌, ◌≤◌, ◌≡◌, refl, ap, sym, ◌∙◌, List, [], ◌∷◌, ◌++◌, append_assoc, append-nil, length,
  length-append, All, arith,
}
use scpxy.Peer.{Peer}
use scpxy.Session.{Session, RelayMsg, relay_queue_size}
use scpxy.Proxy.{Proxy}
use scpxy.Proxy.Relay.{Forward, to_client_peer, to_upstream_peer}
use scpxy.Proxy.Pumps.{
  RelayStep, client_sends, backend_sends, pumps_up, pumps_down, sent_up, sent_down, got_up,
  got_down, Passes, Ready, relay_step, relay, Relayed, step-Relayed,
}

got_up-append :
    (link to : ℕ) (fs gs : List Forward)
    → got_up link to (fs ++ gs) ≡ got_up link to fs ++ got_up link to gs
unfolding got_up
got_up-append link to [] gs = refl
got_up-append link to (to_upstream_peer l t m ∷ fs) gs = ground (arith, got_up-append link to fs gs)
got_up-append link to (to_client_peer c m ∷ fs) gs = got_up-append link to fs gs

got_down-append :
    (client : ℕ) (fs gs : List Forward)
    → got_down client (fs ++ gs) ≡ got_down client fs ++ got_down client gs
unfolding got_down
got_down-append client [] gs = refl
got_down-append client (to_client_peer c m ∷ fs) gs = ground (arith, got_down-append client fs gs)
got_down-append client (to_upstream_peer l t m ∷ fs) gs = got_down-append client fs gs

sent_up-cons :
    (e : RelayStep) (es : List RelayStep) → sent_up (e ∷ es) ≡ sent_up (e ∷ []) ++ sent_up es
unfolding sent_up
sent_up-cons (client_sends c m) es = refl
sent_up-cons (backend_sends c m) es = refl
sent_up-cons (pumps_up c) es = refl
sent_up-cons (pumps_down c) es = refl

sent_down-cons :
    (e : RelayStep) (es : List RelayStep) → sent_down (e ∷ es) ≡ sent_down (e ∷ []) ++ sent_down es
unfolding sent_down
sent_down-cons (client_sends c m) es = refl
sent_down-cons (backend_sends c m) es = refl
sent_down-cons (pumps_up c) es = refl
sent_down-cons (pumps_down c) es = refl

-- What has gone on, what waits, and what is still to come, put together.
joined :
    (got later waiting left start first rest : List RelayMsg)
    → got ++ waiting ≡ start ++ first
    → later ++ left ≡ waiting ++ rest
    → (got ++ later) ++ left ≡ start ++ (first ++ rest)
joined got later waiting left start first rest e f =
    append_assoc got later left
    ∙ ap (λ (t : List RelayMsg). got ++ t) f
    ∙ sym (append_assoc got waiting rest)
    ∙ ap (λ (t : List RelayMsg). t ++ rest) e
    ∙ append_assoc start first rest

module _ (peer : Peer) where
  All-front : (xs ys : List RelayMsg) → All (Passes peer) (xs ++ ys) → All (Passes peer) xs
  All-front [] ys h = tt
  All-front (x ∷ xs) ys (h, hs) = (h, All-front xs ys hs)

  All-back : (xs ys : List RelayMsg) → All (Passes peer) (xs ++ ys) → All (Passes peer) ys
  All-back [] ys h = h
  All-back (x ∷ xs) ys (h, hs) = All-back xs ys hs

  -- What waits after a step and what is still to come are relayable too.
  Passes-later :
      (got waiting start first rest : List RelayMsg)
      → got ++ waiting ≡ start ++ first
      → All (Passes peer) (start ++ (first ++ rest))
      → All (Passes peer) (waiting ++ rest)
  Passes-later got waiting start first rest e h =
      All-back got (waiting ++ rest)
        (rw (sym (append_assoc got waiting rest), e, append_assoc start first rest) h)

fits_later :
    (got waiting start first rest : List RelayMsg)
    → got ++ waiting ≡ start ++ first
    → length start + length (first ++ rest) ≤ relay_queue_size
    → length waiting + length rest ≤ relay_queue_size
fits_later got waiting start first rest e h =
    let len = ap length e in
    omega
      (arith, len, length-append got waiting, length-append start first, length-append first rest)

module _ {F : Type 0} (id : ℕ) (address : List ℕ) (link to client now : ℕ) (up down : Peer) where
  -- An open session with both its peers, whose two queues and all that its sides send hold 8192 messages
  -- each way at most, every one of which the other side's peer can take. Whatever the order of the
  -- messages and of the rounds of the two pumps: the session stays open. The backend's peer has got the
  -- first of the client's messages, and the others wait in the session's queue, all in their order; and
  -- so the other way.
  pub relay-Relayed :
      (p : Proxy F) (s : Session) (es : List RelayStep)
      → Ready id address link to client now up down p s
      → length s.to_backend + length (sent_up es) ≤ relay_queue_size
      → length s.to_client + length (sent_down es) ≤ relay_queue_size
      → All (Passes up) (s.to_backend ++ sent_up es)
      → All (Passes down) (s.to_client ++ sent_down es)
      → Relayed id address link to client now up down s
          (relay id address link to client now up down p es)
          (sent_up es)
          (sent_down es)
  unfolding relay sent_up sent_down got_up got_down
  relay-Relayed p s [] r room_up room_down pass_up pass_down = record {
    next = s;
    ready = r;
    up_is = sym (append-nil s.to_backend);
    down_is = sym (append-nil s.to_client);
  }
  relay-Relayed p s (e ∷ es) r room_up room_down pass_up pass_down =
      let u = sent_up (e ∷ []) in
      let d = sent_down (e ∷ []) in
      let us = sent_up es in
      let ds = sent_down es in
      let fits_up : length s.to_backend + length (u ++ us) ≤ relay_queue_size =
        rw (sent_up-cons e es) at room_up in
      let fits_down : length s.to_client + length (d ++ ds) ≤ relay_queue_size =
        rw (sent_down-cons e es) at room_down in
      let ok_up : All (Passes up) (s.to_backend ++ (u ++ us)) = rw (sent_up-cons e es) at pass_up in
      let ok_down : All (Passes down) (s.to_client ++ (d ++ ds)) =
        rw (sent_down-cons e es) at pass_down in
      let a =
        step-Relayed id address link to client now up down p s e r
          (omega (arith, fits_up, length-append u us))
          (omega (arith, fits_down, length-append d ds)) (All-front up s.to_backend (u ++ us) ok_up)
          (All-front down s.to_client (d ++ ds) ok_down) in
      let first = relay_step id address link to client now up down p e in
      let b =
        relay-Relayed first.0 a.next es a.ready
          (fits_later (got_up link to first.1) a.next.to_backend s.to_backend u us a.up_is fits_up)
          (fits_later (got_down client first.1) a.next.to_client s.to_client d ds a.down_is
            fits_down)
          (Passes-later up (got_up link to first.1) a.next.to_backend s.to_backend u us a.up_is
            ok_up)
          (Passes-later down (got_down client first.1) a.next.to_client s.to_client d ds a.down_is
            ok_down) in
      let later = (relay id address link to client now up down first.0 es).1 in
      rw (sent_up-cons e es, sent_down-cons e es)
        (record {
          next = b.next;
          ready = b.ready;
          up_is = rw (got_up-append link to first.1 later) (
              joined (got_up link to first.1) (got_up link to later) a.next.to_backend
                b.next.to_backend s.to_backend u us a.up_is b.up_is);
          down_is = rw (got_down-append client first.1 later) (
              joined (got_down client first.1) (got_down client later) a.next.to_client
                b.next.to_client s.to_client d ds a.down_is b.down_is);
        })
