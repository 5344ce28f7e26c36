-- ===== src/Manager/Packets.antt =====
-- The bytes of the packets by which peer.go connects, accepts and refuses, and what is read of them.
use scpxy.Base.{
  ℕ, suc, ◌+◌, ◌*◌, ◌%◌, ◌^◌, ◌<◌, ◌≡◌, ◌⊎◌, refl, ap, ◌∙◌, some, List, [], ◌∷◌, ◌++◌, append_assoc,
  append-nil, length, length-drop, drop, replicate, replicate-append, length-replicate,
  length-append, drop-append_self, drop_all, arith,
}
use scpxy.Base.Bits.{or_number, and_number}
use scpxy.Base.LittleEndian.{le_bytes, le_value}
use scpxy.Base.Slice.{put, read, write, length-write, write-append, write-write-append}
use scpxy.Packet.{
  packet, new_packet, set_property, property_header_size, set_connection_number, connection_number,
}
use scpxy.Peer.{UdpAddr, slice_from}
use scpxy.Peer.Connect.{connect_request, connect_accept, uint_at, disconnect_header, Request}
use scpxy.Manager.{parse_connect_request, reject_packet}

pub le_value-le_bytes_4 : (v : ℕ) → v < 2 ^ 32 → le_value (le_bytes 4 v) ≡ v
le_value-le_bytes_4 v h = omega arith

pub le_value-le_bytes_8 : (v : ℕ) → v < 2 ^ 64 → le_value (le_bytes 8 v) ≡ v
le_value-le_bytes_8 v h = omega arith

-- A request's eighteen bytes: its kind and number, the protocol, the time, the id, a length.
abbrev pub request_header : ℕ → ℕ → ℕ → ℕ → List ℕ
request_header time id num len =
    (5 + num * 32) ∷ (le_bytes 4 13 ++ (le_bytes 8 time ++ (le_bytes 4 id ++ (len ∷ []))))

pub connect_request-bytes :
    (time id num : ℕ) (target told : List ℕ)
    → num < 4
    → length target < 256
    → connect_request time id num target told
      ≡ some (packet (request_header time id num (length target) ++ (target ++ told)))
unfolding connect_request new_packet set_property property_header_size set_connection_number put
    write
connect_request-bytes time id num target told hn hl =
    let n = length told + length target in
    let old : List ℕ = replicate n 0 in
    let pre = request_header time id 0 (length target) in
    let len : length target % 256 ≡ length target = omega arith in
    let filled =
      write-write-append pre old target told (omega (arith, length-replicate {A = ℕ} n 0)) in
    let nothing_left : drop (length told) (drop (length target) old) ≡ [] =
      drop_all (length told) (drop (length target) old)
        (omega (arith, length-drop (length target) old, length-replicate {A = ℕ} n 0)) in
    let written : write (write (pre ++ old) 18 target) (18 + length target) told
        ≡ pre ++ (target ++ told) =
      filled ∙ (rw nothing_left (append-nil (pre ++ (target ++ told)))) in
    rw (replicate-append {A = ℕ} 18 n 0, len)
      (ground (
        arith,
        written,
        length-replicate {A = ℕ} n 0,
        length-write (pre ++ old) 18 target,
        or_number 5 num,
      ))

abbrev pub accept_bytes : ℕ → ℕ → ℕ → List ℕ
accept_bytes time num id = 6 ∷ (le_bytes 8 time ++ (num ∷ 0 ∷ le_bytes 4 id))

pub connect_accept-bytes :
    (time num id : ℕ) → connect_accept time num id ≡ some (packet (accept_bytes time num id))
unfolding connect_accept new_packet set_property property_header_size put write
connect_accept-bytes time num id = refl

-- The parser reads the request back.
module _ (time id num : ℕ) (target told : List ℕ) (hn : num < 4) (ht : time < 2 ^ 64)
    (hi : id < 2 ^ 32) (sized : (length target ≡ 16) ⊎ (length target ≡ 28)) where
  rest_is :
      drop (18 + length target) (request_header time id num (length target) ++ (target ++ told))
      ≡ told
  rest_is =
      let header = request_header time id num (length target) in
      let l : length (header ++ target) ≡ 18 + length target = length-append header target in
      rw (← append_assoc header target told, ← l) (drop-append_self (header ++ target) told)

  pub parse_connect_request-bytes :
      (from : UdpAddr)
      → parse_connect_request
          (packet (request_header time id num (length target) ++ (target ++ told)))
          from
        ≡ some (
            some (record {
              addr = from;
              connection_time = time;
              connection_number = num;
              peer_id = id;
              payload = told;
            }))
  unfolding parse_connect_request connection_number read
  parse_connect_request-bytes from = ground (
    arith,
    rest_is,
    and_number (5 + num * 32) (omega arith),
    length-append target told,
    le_value-le_bytes_8 time ht,
    le_value-le_bytes_4 id hi,
  )

-- The answer that refuses, with what it tells.
abbrev pub refusal_bytes : ℕ → ℕ → List ℕ → List ℕ
refusal_bytes time num message = (7 + num * 32) ∷ (le_bytes 8 time ++ message)

pub reject_packet-bytes :
    (req : Request) (message : List ℕ)
    → req.connection_number < 4
    → reject_packet req message
      ≡ some (packet (refusal_bytes req.connection_time req.connection_number message))
unfolding reject_packet disconnect_header new_packet set_property property_header_size
    set_connection_number put write
reject_packet-bytes req [] hn = ground (arith, or_number 7 req.connection_number)
reject_packet-bytes req (b ∷ message) hn =
    let n = suc (length message) in
    let pre = refusal_bytes req.connection_time req.connection_number [] in
    let filled = write-append pre (replicate n 0) [] (b ∷ message) (length-replicate {A = ℕ} n 0) in
    rw (replicate-append {A = ℕ} 9 n 0) (
      ground (
        arith,
        filled,
        append-nil (replicate {A = ℕ} n 0),
        append-nil (b ∷ message),
        length-replicate {A = ℕ} n 0,
        or_number 7 req.connection_number,
      ))

pub refusal-reads :
    (time num : ℕ) (message : List ℕ)
    → num < 4
    → time < 2 ^ 64
    → (uint_at (packet (refusal_bytes time num message)) 8 1 ≡ some time)
      × (connection_number (packet (refusal_bytes time num message)) ≡ some num)
      × (slice_from (refusal_bytes time num message) 9 ≡ some message)
unfolding connection_number read
refusal-reads time num message hn ht = (
  ap some (le_value-le_bytes_8 time ht),
  ap some (ground (arith, and_number (7 + num * 32) (omega arith))),
  ground arith,
)
