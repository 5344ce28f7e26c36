-- ===== src/Peer/Merged.antt =====
-- Packets that peer.go merges into datagrams come out of them again.
use scpxy.Base.{
  ℕ, suc, ◌+◌, ◌≤◌, ◌<◌, ◌≡◌, ◌≢◌, refl, ap, sym, ◌∙◌, Option, some, List, [], ◌∷◌, ◌++◌,
  append_assoc, append-nil, length, drop, All, All-append, All-map, length-append, le→leb, bit_and,
  ◌>>=◌, arith, ==_ne,
}
use scpxy.Base.LittleEndian.{le_bytes}
use scpxy.Base.Slice.{write, put-some, write-write-append, length-write}
use scpxy.Packet.{Packet, packet, size, property, prop_merged}
use scpxy.Peer.{Merging, Call, send_raw, dispatch_receive, disconnect_force, slice}
use scpxy.Peer.Merge.{send_merged, append_packet, unpack}
use scpxy.Peer.Unpack.{encode, IsPiece, slice-append, merged_parts-encode}

-- What the other side finds in the datagrams that were sent.
unfoldable pub unpack_all : List Call → Option (List Packet)
unpack_all [] = some []
unpack_all (send_raw bs ∷ cs) = unpack (packet bs) >>= λ ps. unpack_all cs >>= λ qs. some (ps ++ qs)
unpack_all (_ ∷ cs) = unpack_all cs

encode-append :
    (ps : List Packet) (p : Packet)
    → encode (ps ++ (p ∷ [])) ≡ encode ps ++ (le_bytes 2 (size p) ++ p.bytes)
unfolding encode
encode-append [] p = rw (append-nil p.bytes) refl
encode-append (q ∷ ps) p =
    ap (λ (t : List ℕ). le_bytes 2 (size q) ++ t)
      (ap (λ (t : List ℕ). q.bytes ++ t) (encode-append ps p)
        ∙ sym (append_assoc q.bytes (encode ps) (le_bytes 2 (size p) ++ p.bytes)))

-- A packet that may be sent: a valid one, and no merged packet itself.
pub record IsSendable (p : Packet) : Type 0 where
  pub piece : IsPiece p
  pub kind : ℕ
  pub kind_is : property p ≡ some kind
  pub kind_ne : kind ≢ prop_merged

-- A datagram of at most so many bytes.
abbrev pub FitsIn : ℕ → Call → Type 0
FitsIn mtu (send_raw bs) = length bs ≤ mtu
FitsIn mtu (dispatch_receive bs channel d) = Unit {0}
FitsIn mtu (disconnect_force r) = Unit {0}

module _ (first mtu : ℕ) (merged_kind : bit_and first 0x1f ≡ prop_merged) (room : mtu ≤ 1432) where
  -- The datagram that is being filled.
  pub record Carries (m : Merging) (ps : List Packet) : Type 0 where
    pub junk : List ℕ
    pub bytes_are : m.merge_data.bytes ≡ first ∷ (encode ps ++ junk)
    pub size_is : size m.merge_data ≡ 1433
    pub pos_is : m.merge_pos ≡ length (encode ps)
    pub count_is : m.merge_count ≡ length ps
    pub within : length (encode ps) + 1 ≤ mtu
    pub sendable : All IsSendable ps

  pub record Appended (m : Merging) (ps : List Packet) (p : Packet) : Type 0 where
    pub next : Merging
    pub returns : append_packet m p ≡ some next
    pub carries : Carries next (ps ++ (p ∷ []))

  pub append_packet-Appended :
      (m : Merging) (ps : List Packet) (p : Packet)
      → Carries m ps
      → IsSendable p
      → m.merge_pos + (size p + 3) ≤ mtu
      → Appended m ps p
  unfolding append_packet
  append_packet-Appended m ps p c s fits =
      let n = size p in
      let len = le_bytes 2 n in
      let at = m.merge_pos + 1 in
      let bs = m.merge_data.bytes in
      let pre : List ℕ = first ∷ encode ps in
      let whole : length pre + length c.junk ≡ 1433 =
        omega (arith, c.size_is, ap length c.bytes_are, length-append (encode ps) c.junk) in
      let start : at ≡ length pre = omega (arith, c.pos_is) in
      let longer : length (encode (ps ++ (p ∷ []))) ≡ length (encode ps) + (2 + n) =
        omega (arith, ap length (encode-append ps p), length-append (encode ps) (len ++ p.bytes)) in
      let written : write (write bs at len) (at + 2) p.bytes
          ≡ first ∷ (encode (ps ++ (p ∷ [])) ++ drop n (drop 2 c.junk)) =
        rw (c.bytes_are, start, encode-append ps p)
          (write-write-append pre c.junk len p.bytes (omega (arith, c.pos_is))) in
      let same_length : length (write (write bs at len) (at + 2) p.bytes) ≡ 1433 =
        length-write (write bs at len) (at + 2) p.bytes ∙ length-write bs at len ∙ c.size_is in
      record {
        next = record {
          merge_data = packet (write (write bs at len) (at + 2) p.bytes);
          merge_pos = m.merge_pos + n + 2;
          merge_count = m.merge_count + 1;
        };
        returns =
            rw
              (
                put-some bs at len (omega (arith, c.size_is)),
                le→leb (at + 2) (length (write bs at len))
                    (omega (arith, c.size_is, length-write bs at len)),
              )
              refl;
        carries = record {
          junk = drop n (drop 2 c.junk);
          bytes_are = written;
          size_is = same_length;
          pos_is = omega (arith, c.pos_is, longer);
          count_is = omega (arith, c.count_is, length-append ps (p ∷ []));
          within = omega (arith, c.pos_is, longer);
          sendable = All-append _ ps (p ∷ []) c.sendable (s, tt);
        };
      }

  flushed : Merging → Merging
  flushed m = record m { merge_pos = 0; merge_count = 0 }

  flushed-Carries : (m : Merging) (ps : List Packet) → Carries m ps → Carries (flushed m) []
  unfolding flushed encode
  flushed-Carries m ps c = record {
    junk = encode ps ++ c.junk;
    bytes_are = c.bytes_are;
    size_is = c.size_is;
    pos_is = refl;
    count_is = refl;
    within = omega (arith, c.within);
    sendable = tt;
  }

  send_merged_none : (m : Merging) → m.merge_count ≡ 0 → send_merged m ≡ some (m, [])
  unfolding send_merged
  send_merged_none m h = ground arith

  send_merged_lone :
      (m : Merging) (bs : List ℕ)
      → m.merge_count ≡ 1
      → slice m.merge_data.bytes 3 (1 + m.merge_pos) ≡ some bs
      → send_merged m ≡ some (flushed m, send_raw bs ∷ [])
  unfolding send_merged flushed
  send_merged_lone m bs h e = ground (arith, e)

  send_merged_many :
      (m : Merging) (bs : List ℕ)
      → 1 < m.merge_count
      → slice m.merge_data.bytes 0 (1 + m.merge_pos) ≡ some bs
      → send_merged m ≡ some (flushed m, send_raw bs ∷ [])
  unfolding send_merged flushed
  send_merged_many m bs h e = ground (arith, e)

  pub unpack_lone : (p : Packet) → IsSendable p → unpack_all (send_raw p.bytes ∷ []) ≡ some (p ∷ [])
  unfolding unpack_all unpack
  unpack_lone p s = rw (s.kind_is, ==_ne s.kind prop_merged s.kind_ne) refl

  unpack_many :
      (ps : List Packet)
      → All IsSendable ps
      → unpack_all (send_raw (first ∷ encode ps) ∷ []) ≡ some ps
  unfolding unpack_all unpack property
  unpack_many ps s =
      rw
        (
          merged_kind,
          merged_parts-encode (suc (length (encode ps))) (first ∷ []) ps
              (All-map IsSendable IsPiece ps (λ p h. h.piece) s) (omega arith),
          append-nil ps,
        )
        refl

  -- What a send of the datagram does, and what the other side finds in it.
  pub record Flushed (m : Merging) (ps : List Packet) : Type 0 where
    pub next : Merging
    pub calls : List Call
    pub returns : send_merged m ≡ some (next, calls)
    pub carries : Carries next []
    pub found : unpack_all calls ≡ some ps
    pub small : All (FitsIn mtu) calls

  pub send_merged-Flushed : (m : Merging) (ps : List Packet) → Carries m ps → Flushed m ps
  unfolding unpack_all encode
  send_merged-Flushed m [] c = record {
    next = m;
    calls = [];
    returns = send_merged_none m c.count_is;
    carries = c;
    found = refl;
    small = tt;
  }
  send_merged-Flushed m (p ∷ []) c =
      let pre : List ℕ = first ∷ le_bytes 2 (size p) in
      let bytes_are : m.merge_data.bytes ≡ pre ++ (p.bytes ++ c.junk) =
        c.bytes_are ∙ ap (λ (t : List ℕ). pre ++ (t ++ c.junk)) (append-nil p.bytes) in
      let end : 1 + m.merge_pos ≡ 3 + size p = omega (arith, c.pos_is, length-append p.bytes []) in
      record {
        next = flushed m;
        calls = send_raw p.bytes ∷ [];
        returns =
            send_merged_lone m p.bytes c.count_is
              (rw (end, bytes_are) (slice-append pre p.bytes c.junk));
        carries = flushed-Carries m (p ∷ []) c;
        found = unpack_lone p c.sendable.0;
        small = (omega (arith, c.within, length-append p.bytes []), tt);
      }
  send_merged-Flushed m (p ∷ q ∷ ps) c =
      let all : List Packet = p ∷ q ∷ ps in
      let whole : List ℕ = first ∷ encode all in
      let end : 1 + m.merge_pos ≡ 0 + length whole = omega (arith, c.pos_is) in
      record {
        next = flushed m;
        calls = send_raw whole ∷ [];
        returns =
            send_merged_many m whole (omega (arith, c.count_is))
              (rw (end, c.bytes_are) (slice-append [] whole c.junk));
        carries = flushed-Carries m all c;
        found = unpack_many all c.sendable;
        small = (omega (arith, c.within), tt);
      }
