-- ===== src/Manager/Numbered.antt =====
-- A new peer of internal/litenetlib/peer.go and its connection number, and the length of an address.
use scpxy.Base.{
  ℕ, ◌*◌, ◌%◌, ◌≡◌, ◌⊎◌, inl, inr, refl, ◌∙◌, some, List, ◌∷◌, length, replicate, bit_and, bit_or,
  Option-cases,
}
use scpxy.Base.Slice.{put, write, length-write}
use scpxy.Packet.{
  packet, new_packet, set_property, property_header_size, set_connection_number, set_sequence,
}
use scpxy.Peer.{Peer, Settings, UdpAddr, new_peer, set_connection_num, reset_mtu, set_mtu}
use scpxy.Peer.Connect.{serialize_socket_address, to4}

-- A peer whose packets have a first byte.
pub record Numberable (p : Peer) : Type 0 where
  pub merge_rest : List ℕ
  pub ping_rest : List ℕ
  pub pong_rest : List ℕ
  pub merge_first : ℕ
  pub ping_first : ℕ
  pub pong_first : ℕ
  pub merge_is : p.merging.merge_data.bytes ≡ merge_first ∷ merge_rest
  pub ping_is : p.ping.ping_packet.bytes ≡ ping_first ∷ ping_rest
  pub pong_is : p.ping.pong_packet.bytes ≡ pong_first ∷ pong_rest

pub record Fresh (s : Settings) (addr : UdpAddr) (id : ℕ) : Type 0 where
  pub peer : Peer
  pub returns : new_peer s addr id ≡ some peer
  pub numberable : Numberable peer

pub new_peer-Fresh : (s : Settings) (addr : UdpAddr) (id : ℕ) → Fresh s addr id
unfolding new_peer reset_mtu set_mtu new_packet set_property property_header_size set_sequence put
    write
new_peer-Fresh s addr id = record {
  peer = _;
  returns = refl;
  numberable = record {
    merge_rest = _;
    ping_rest = _;
    pong_rest = _;
    merge_first = _;
    ping_first = _;
    pong_first = _;
    merge_is = refl;
    ping_is = refl;
    pong_is = refl;
  };
}

-- `setConnectionNum` on such a peer.
abbrev pub first_with : ℕ → ℕ → ℕ
first_with b v = bit_or (bit_and b 0x9f) (v * 32 % 256)

abbrev pub renumbered : (p : Peer) → Numberable p → ℕ → Peer
renumbered p n v = record p {
  connect_num = v;
  merging = record p.merging { merge_data = packet (first_with n.merge_first v ∷ n.merge_rest) };
  ping = record p.ping {
    ping_packet = packet (first_with n.ping_first v ∷ n.ping_rest);
    pong_packet = packet (first_with n.pong_first v ∷ n.pong_rest);
  };
}

pub set_connection_num-renumbered :
    (p : Peer) (n : Numberable p) (v : ℕ) → set_connection_num p v ≡ some (renumbered p n v)
unfolding set_connection_num set_connection_number
set_connection_num-renumbered p n v = rw (n.merge_is, n.ping_is, n.pong_is) refl

renumbered-Numberable : (p : Peer) (n : Numberable p) (v : ℕ) → Numberable (renumbered p n v)
renumbered-Numberable p n v = record {
  merge_rest = _;
  ping_rest = _;
  pong_rest = _;
  merge_first = _;
  ping_first = _;
  pong_first = _;
  merge_is = refl;
  ping_is = refl;
  pong_is = refl;
}

length-write_3 :
    (bs us vs ws : List ℕ) (i j k : ℕ)
    → length (write (write (write bs i us) j vs) k ws) ≡ length bs
length-write_3 bs us vs ws i j k =
    length-write (write (write bs i us) j vs) k ws
    ∙ length-write (write bs i us) j vs
    ∙ length-write bs i us

pub serialize-length :
    (a : UdpAddr)
    → (length (serialize_socket_address a) ≡ 16) ⊎ (length (serialize_socket_address a) ≡ 28)
unfolding serialize_socket_address
serialize-length a = elim (Option-cases (to4 a.ip)) [
  | inl v6 ↦ inr (rw (v6, serialize_socket_address) (length-write_3 (replicate 28 0) _ _ _ 0 2 8))
  | inr (ip4, v4) ↦
      inl (rw (v4, serialize_socket_address) (length-write_3 (replicate 16 0) _ _ _ 0 2 4))
]
