-- ===== src/Manager/Strangers.antt =====
-- What `receive` of internal/litenetlib/manager.go does with a datagram of an address that has no peer.
use scpxy.Base.{
  ℕ, ◌≡◌, ◌≢◌, ◌⊎◌, refl, ap, ◌∙◌, true, false, ◌||◌, Option, none, some, List, [], ◌∷◌, ◌==◌,
  ◌>>=◌, arith, inl, inr, Bool-cases, Option-cases,
}
use scpxy.Base.Slice.{write}
use scpxy.Packet.{
  packet, property, verify, new_packet, set_property, property_header_size, prop_connect_request,
  prop_connect_accept, prop_disconnect, prop_invalid_protocol, prop_peer_not_found,
  prop_unconnected_message, prop_broadcast, prop_nat_message, prop_shutdown_ok,
}
use scpxy.Peer.{UdpAddr}
use scpxy.Peer.Process.{Now}
use scpxy.Manager.{Manager, Event, sends}
use scpxy.Manager.Route.{peer_of, receive, on_connect_accept, on_disconnect, on_refusal, on_other}

-- Nothing, or one datagram of one byte for a datagram that the header's checks accept.
abbrev pub IsShort : UdpAddr → List ℕ → List Event → Type 0
IsShort addr bytes es =
    (es ≡ []) ⊎ ((c : ℕ) × (es ≡ sends addr (c ∷ []) ∷ []) × (verify (packet bytes) ≡ true))

abbrev Harmless : Manager → UdpAddr → List ℕ → Option (Manager × List Event) → Type 0
Harmless m addr bytes result = (es : List Event) × (result ≡ some (m, es)) × IsShort addr bytes es

not_found : new_packet prop_peer_not_found 0 ≡ some (packet (prop_peer_not_found ∷ []))
unfolding new_packet set_property property_header_size write
not_found = refl

shut_down : new_packet prop_shutdown_ok 0 ≡ some (packet (prop_shutdown_ok ∷ []))
unfolding new_packet set_property property_header_size write
shut_down = refl

-- The header's checks refuse a datagram without a byte.
no_first : (bytes : List ℕ) → property (packet bytes) ≡ none → verify (packet bytes) ≡ true → ⊥
unfolding property verify
no_first [] missing good = cc good
no_first (b ∷ rest) missing good = cc missing

module _ (t : Now) (m : Manager) (bytes : List ℕ) (addr : UdpAddr) where
  kind-Harmless :
      (kind : ℕ)
      → peer_of m addr ≡ none
      → verify (packet bytes) ≡ true
      → property (packet bytes) ≡ some kind
      → kind ≢ prop_connect_request
      → Harmless m addr bytes (receive t m bytes addr)
  unfolding receive on_connect_accept on_disconnect on_refusal on_other
  kind-Harmless kind stranger good first ne =
      let other : (kind == prop_connect_request) ≡ false = ground arith in
      elim (Bool-cases (kind == prop_connect_accept)) [
        | inl e ↦ ([], rw (receive, stranger, good, first, ◌>>=◌, other, e) refl, inl refl)
        | inr a ↦ elim (Bool-cases (kind == prop_disconnect)) [
          | inl e ↦ (
            sends addr (prop_shutdown_ok ∷ []) ∷ [],
            rw (receive, stranger, good, first, ◌>>=◌, other, a, e, shut_down) refl,
            inr (prop_shutdown_ok, refl, good),
          )
          | inr d ↦ elim (Bool-cases (kind == prop_invalid_protocol)) [
            | inl e ↦
                ([], rw (receive, stranger, good, first, ◌>>=◌, other, a, d, e) refl, inl refl)
            | inr i ↦ elim (Bool-cases (kind == prop_peer_not_found)) [
              | inl e ↦
                  ([], rw (receive, stranger, good, first, ◌>>=◌, other, a, d, i, e) refl, inl refl)
              | inr n ↦
                  elim (Bool-cases (
                    kind == prop_unconnected_message
                    || (kind == prop_broadcast || kind == prop_nat_message))) [
                      | inl e ↦ (
                        [],
                        rw (receive, stranger, good, first, ◌>>=◌, other, a, d, i, n, e) refl,
                        inl refl,
                      )
                      | inr u ↦ (
                        sends addr (prop_peer_not_found ∷ []) ∷ [],
                        rw (receive, stranger, good, first, ◌>>=◌, other, a, d, i, n, u, not_found)
                            refl,
                        inr (prop_peer_not_found, refl, good),
                      )
                    ]
            ]
          ]
        ]
      ]

  -- A datagram of an address that has no peer and that is no connect request, whatever is in it: no call
  -- panics and nothing changes. It is answered only when the header's checks accept it, and then with one
  -- datagram of one byte.
  pub receive-Harmless :
      peer_of m addr ≡ none
      → property (packet bytes) ≢ some prop_connect_request
      → (es : List Event) × (receive t m bytes addr ≡ some (m, es)) × IsShort addr bytes es
  unfolding receive
  receive-Harmless stranger ne = elim (Bool-cases (verify (packet bytes))) [
    | inr bad ↦ ([], rw (receive, bad) refl, inl refl)
    | inl good ↦ elim (Option-cases (property (packet bytes))) [
      | inl missing ↦ absurd (no_first bytes missing good)
      | inr (kind, first) ↦ kind-Harmless kind stranger good first (λ e. ne (first ∙ ap some e))
    ]
  ]
