-- ===== src/Peer/Merge.antt =====
-- Small packets of one datagram in peer.go: `sendUserData` and `sendMerged`, and the loop of
-- `processPacket` that takes a merged packet apart.
use scpxy.Base.{
  ℕ, zero, suc, ◌+◌, true, false, Option, none, some, List, [], ◌∷◌, ◌++◌, ltb, leb, ◌==◌,
  if◌then◌else◌, ◌>>=◌,
}
use scpxy.Base.LittleEndian.{le_bytes, le_value}
use scpxy.Base.Slice.{read, put}
use scpxy.Wire.{header_size, merge_size_threshold}
use scpxy.Packet.{Packet, packet, size, property, set_connection_number, verify, prop_merged}
use scpxy.Peer.{Merging, Call, send_raw, slice, copy_at}

-- `sendMerged`: a lone packet goes without the merged header.
unfoldable pub send_merged : Merging → Option (Merging × List Call)
send_merged m =
    let sent : Merging = record m { merge_pos = 0; merge_count = 0 } in
    if m.merge_count == 0
    then some (m, [])
    else if ltb 1 m.merge_count
    then (slice m.merge_data.bytes 0 (header_size + m.merge_pos) >>= λ bs.
        some (sent, send_raw bs ∷ []))
    else (slice m.merge_data.bytes (header_size + 2) (header_size + m.merge_pos) >>= λ bs.
        some (sent, send_raw bs ∷ []))

-- A packet behind those that wait in the datagram.
unfoldable pub append_packet : Merging → Packet → Option Merging
append_packet m p =
    put m.merge_data.bytes (m.merge_pos + header_size) (le_bytes 2 (size p)) >>= λ bs.
    copy_at bs (m.merge_pos + header_size + 2) p.bytes >>= λ bs'. some (record {
      merge_data = packet bs';
      merge_pos = m.merge_pos + size p + 2;
      merge_count = m.merge_count + 1;
    })

-- `sendUserData`, with the connection's number and the MTU.
unfoldable pub send_user_data : ℕ → ℕ → Merging → Packet → Option (Merging × List Call)
send_user_data num mtu m p = set_connection_number p num >>= λ q.
    let merged_size : ℕ = header_size + size q + 2 in
    if leb mtu (merged_size + merge_size_threshold)
    then some (m, send_raw q.bytes ∷ [])
    else ((if ltb mtu (m.merge_pos + merged_size) then send_merged m else some (m, [])) >>= λ r.
        append_packet r.0 q >>= λ m'. some (m', r.1))

-- The packets that the loop finds from an offset on, with the packet's bytes as fuel: it ends at the
-- end, at a length beyond it, and at a packet that is not valid.
unfoldable pub merged_parts : ℕ → Packet → ℕ → Option (List Packet)
merged_parts zero p pos = none
merged_parts (suc fuel) p pos =
    if ltb (size p) (pos + 2)
    then some []
    else (read 2 p.bytes pos >>= λ bs. elim (ltb (size p) (pos + 2 + le_value bs)) [
      | true ↦ some []
      | false ↦ slice p.bytes (pos + 2) (pos + 2 + le_value bs) >>= λ inner.
          elim (verify (packet inner)) [
            | false ↦ some []
            | true ↦
                merged_parts fuel p (pos + 2 + le_value bs) >>= λ rest. some (packet inner ∷ rest)
          ]
    ])

-- The packets of one datagram.
unfoldable pub unpack : Packet → Option (List Packet)
unpack p = property p >>= λ kind.
    if kind == prop_merged then merged_parts (size p) p header_size else some (p ∷ [])

-- The end of `update`: the packets that wait for no channel, then what was merged.
unfoldable pub send_each : ℕ → ℕ → Merging → List Packet → Option (Merging × List Call)
send_each num mtu m [] = some (m, [])
send_each num mtu m (p ∷ ps) = send_user_data num mtu m p >>= λ r.
    send_each num mtu r.0 ps >>= λ rest. some (rest.0, r.1 ++ rest.1)

unfoldable pub flush_unreliable : ℕ → ℕ → Merging → List Packet → Option (Merging × List Call)
flush_unreliable num mtu m ps =
    send_each num mtu m ps >>= λ r. send_merged r.0 >>= λ last. some (last.0, r.1 ++ last.1)
