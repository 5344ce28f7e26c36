-- ===== src/Peer/Sizes.antt =====
-- A probe of the MTU discovery of peer.go, to the other side and back: the MTU grows a step.
use scpxy.Base.{ℕ, ◌+◌, ◌≡◌, true, false, some, [], ◌∷◌, ◌==◌}
use scpxy.Packet.{Packet}
use scpxy.Peer.{Mtu, send_raw}
use scpxy.Peer.Discovery.{process_mtu_packet, update_mtu_logic}
use scpxy.Peer.Probe.{IsMtu}

module _ (m other : Mtu) (delta n : ℕ) where
  pub record RoundTrip : Type 0 where
    pub asked : Mtu
    pub probe : Packet
    pub answer : Packet
    pub raised : Mtu
    pub tries : update_mtu_logic false true delta m ≡ some (asked, send_raw probe.bytes ∷ [])
    pub answers :
        process_mtu_packet false other probe
        ≡ some (record other { mtu_attempts = 0 }, send_raw answer.bytes ∷ [])
    pub returns : process_mtu_packet false asked answer ≡ some (raised, [])
    pub mtu_is : raised.mtu ≡ n
    pub idx_is : raised.mtu_idx ≡ m.mtu_idx + 1
    pub finish_is : raised.finish_mtu ≡ (m.mtu_idx + 1 == 5)
    pub is_mtu : IsMtu raised
