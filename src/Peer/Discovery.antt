-- ===== src/Peer/Discovery.antt =====
-- The MTU of peer.go: `processMtuPacket` and `updateMtuLogic`.
use scpxy.Base.{
  ℕ, ◌+◌, ◌-◌, ◌^◌, Bool, true, not, ◌||◌, Option, none, some, List, [], ◌∷◌, length, get_elem?,
  ltb, leb, ◌==◌, if◌then◌else◌, ◌>>=◌,
}
use scpxy.Wire.{possible_mtu, max_packet_size, mtu_check_delay, max_mtu_check_attempts}
use scpxy.Packet.{Packet, size, property, set_property, new_raw_packet, prop_mtu_check, prop_mtu_ok}
use scpxy.Peer.{Mtu, Call, send_raw, set_mtu}
use scpxy.Peer.Connect.{put_uint, uint_at}

-- The answer to the packet that the table's next entry was tried with.
unfoldable pub raise_mtu : Mtu → ℕ → Option Mtu
raise_mtu m received =
    if leb received m.mtu || m.finish_mtu
    then some m
    else elim (get_elem? possible_mtu (m.mtu_idx + 1)) [
      | none ↦ some m
      | some next ↦
          if not (received == next)
          then some m
          else (set_mtu m (m.mtu_idx + 1) >>= λ m'. some (
              if m'.mtu_idx == length possible_mtu - 1
              then record m' { finish_mtu = true }
              else m'))
    ]

-- `processMtuPacket`. The sizes in the packet are signed and of 32 bits: one from 2^31 on is no size.
unfoldable pub process_mtu_packet : Bool → Mtu → Packet → Option (Mtu × List Call)
process_mtu_packet disable_mtu m p =
    if ltb (size p) 1024
    then some (m, [])
    else (uint_at p 4 1 >>= λ received. uint_at p 4 (size p - 4) >>= λ end_check.
        if leb (2 ^ 31) received
          || (not (received == size p)
              || (not (received == end_check) || ltb max_packet_size received))
        then some (m, [])
        else if disable_mtu
        then some (m, [])
        else (property p >>= λ kind.
            if kind == prop_mtu_check
            then (set_property p prop_mtu_ok >>= λ answer.
                some (record m { mtu_attempts = 0 }, send_raw answer.bytes ∷ []))
            else (raise_mtu m received >>= λ m'. some (m', []))))

-- The packet that tries a size.
unfoldable pub mtu_probe : ℕ → Option Packet
mtu_probe n = do
  p ← set_property (new_raw_packet n) prop_mtu_check
  p₁ ← put_uint p 4 1 n
  put_uint p₁ 4 (n - 4) n

-- `updateMtuLogic`; `accepted` says whether the socket takes the packet.
unfoldable pub update_mtu_logic : Bool → Bool → ℕ → Mtu → Option (Mtu × List Call)
update_mtu_logic disable_mtu accepted delta m =
    let m₁ : Mtu = record m { mtu_timer = m.mtu_timer + delta } in
    let m₂ : Mtu = record m { mtu_timer = 0; mtu_attempts = m.mtu_attempts + 1 } in
    if disable_mtu
    then some (record m { finish_mtu = true }, [])
    else if m.finish_mtu
    then some (m, [])
    else if ltb m₁.mtu_timer mtu_check_delay
    then some (m₁, [])
    else if leb max_mtu_check_attempts m₂.mtu_attempts
    then some (record m₂ { finish_mtu = true }, [])
    else elim (get_elem? possible_mtu (m.mtu_idx + 1)) [
      | none ↦ some (m₂, [])
      | some next ↦ mtu_probe next >>= λ p.
          some (if accepted then m₂ else record m₂ { finish_mtu = true }, send_raw p.bytes ∷ [])
    ]
