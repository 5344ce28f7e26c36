-- ===== src/Peer/Datagrams.antt =====
-- What `sendUserData` of peer.go is given comes out of the datagrams on the other side, each packet
-- once, and no datagram is larger than the MTU if no packet is.
use mathlib.Core.List.Perm
use mathlib.Core.List.{Perm, perm_append_comm, perm-append_left_iff, perm-append_right_iff}
use scpxy.Base.{
  ℕ, suc, ◌+◌, ◌≤◌, ◌<◌, ◌≡◌, refl, ap, ◌∙◌, true, false, some, List, [], ◌∷◌, ◌++◌, append_assoc,
  append-nil, length, All, All-append, ltb, leb, if◌then◌else◌, ◌>>=◌, >>=-eq-some, arith, inl, inr,
  Bool-cases, bit_and,
}
use scpxy.Base.Bits.{IsByte}
use scpxy.Packet.{
  Packet, packet, size, property, is_fragmented, set_connection_number, verify, verify_first,
  fragment_bit, prop_merged,
}
use scpxy.Packet.Header.{fields, getters-fields, set_connection_number-Stores}
use scpxy.Peer.{Merging, Call, send_raw, dispatch_receive, disconnect_force}
use scpxy.Peer.Merge.{
  send_merged, append_packet, send_user_data, send_each, flush_unreliable, unpack,
}
use scpxy.Peer.Unpack.{encode}
use scpxy.Peer.Merged.{
  unpack_all, IsSendable, FitsIn, Carries, append_packet-Appended, send_merged-Flushed, unpack_lone,
}

-- A packet with the connection's number in it.
pub record Numbered (num : ℕ) (p : Packet) : Type 0 where
  pub number_set : Packet
  pub returns : set_connection_number p num ≡ some number_set
  pub sendable : IsSendable number_set
  pub same_size : size number_set ≡ size p

same_verify :
    (b c len : ℕ)
    → bit_and c 0x1f ≡ bit_and b 0x1f
    → fragment_bit c ≡ fragment_bit b
    → verify_first c len ≡ verify_first b len
same_verify b c len h k = rw (h, k) refl

number_bytes :
    (num : ℕ) (bs : List ℕ)
    → num < 4
    → All IsByte bs
    → IsSendable (packet bs)
    → Numbered num (packet bs)
unfolding verify fields property is_fragmented
number_bytes num [] hn h s = absurd (cc s.piece.0)
number_bytes num (b ∷ rest) hn h s =
    let (c, made, byte, (kind_is, number_is, fragmented_is)) =
      set_connection_number-Stores b rest h.0 num hn in
    let (old_kind, old_number, old_fragmented) = getters-fields b rest h.0 in
    let same_kind : bit_and c 0x1f ≡ bit_and b 0x1f = cc (kind_is, old_kind) in
    let same_bit : fragment_bit c ≡ fragment_bit b = cc (fragmented_is, old_fragmented) in
    record {
      number_set = packet (c ∷ rest);
      returns = made;
      sendable = record {
        piece = (same_verify b c (suc (length rest)) same_kind same_bit ∙ s.piece.0, s.piece.1);
        kind = s.kind;
        kind_is = ap some same_kind ∙ s.kind_is;
        kind_ne = s.kind_ne;
      };
      same_size = refl;
    }

module _ (num first mtu : ℕ) (hn : num < 4) (merged_kind : bit_and first 0x1f ≡ prop_merged)
    (room : mtu ≤ 1432) where
  abbrev Carries' : Merging → List Packet → Type 0
  Carries' = Carries first mtu merged_kind room

  -- A send of one packet: what the other side finds, and what waits in the datagram.
  pub record Sent (m : Merging) (ps : List Packet) (p q : Packet) : Type 0 where
    pub next : Merging
    pub calls : List Call
    pub waiting : List Packet
    pub sent : List Packet
    pub returns : send_user_data num mtu m p ≡ some (next, calls)
    pub carries : Carries' next waiting
    pub found : unpack_all calls ≡ some sent
    pub none_lost : Perm (sent ++ waiting) (ps ++ (q ∷ []))
    pub small : All (FitsIn mtu) calls

  send_alone :
      (m : Merging) (p q : Packet)
      → set_connection_number p num ≡ some q
      → leb mtu (1 + size q + 2 + 20) ≡ true
      → send_user_data num mtu m p ≡ some (m, send_raw q.bytes ∷ [])
  unfolding send_user_data
  send_alone m p q made large = rw (made, send_user_data, large) refl

  send_behind :
      (m m' m'' : Merging) (p q : Packet) (calls : List Call)
      → set_connection_number p num ≡ some q
      → leb mtu (1 + size q + 2 + 20) ≡ false
      → (if ltb mtu (m.merge_pos + (1 + size q + 2)) then send_merged m else some (m, []))
        ≡ some (m', calls)
      → append_packet m' q ≡ some m''
      → send_user_data num mtu m p ≡ some (m'', calls)
  unfolding send_user_data
  send_behind m m' m'' p q calls made small flush appended =
      rw (made, send_user_data, small, flush, ◌>>=◌, appended) refl

  pub send_user_data-Sent :
      (m : Merging) (ps : List Packet) (p : Packet) (q : Numbered num p)
      → Carries' m ps
      → size p ≤ mtu
      → Sent m ps p q.number_set
  unfolding unpack_all encode
  send_user_data-Sent m ps p q c h = elim (Bool-cases (leb mtu (1 + size q.number_set + 2 + 20))) [
    | inl large ↦ record {
      next = m;
      calls = send_raw q.number_set.bytes ∷ [];
      waiting = ps;
      sent = q.number_set ∷ [];
      returns = send_alone m p q.number_set q.returns large;
      carries = c;
      found = unpack_lone first mtu merged_kind room q.number_set q.sendable;
      none_lost = perm_append_comm (q.number_set ∷ []) ps;
      small = (omega (arith, q.same_size), tt);
    }
    | inr small ↦ elim (Bool-cases (ltb mtu (m.merge_pos + (1 + size q.number_set + 2)))) [
      | inl full ↦
          let f = send_merged-Flushed first mtu merged_kind room m ps c in
          let a =
            append_packet-Appended first mtu merged_kind room f.next [] q.number_set f.carries
              q.sendable (ground (arith, small, f.carries.pos_is)) in
          record {
            next = a.next;
            calls = f.calls;
            waiting = q.number_set ∷ [];
            sent = ps;
            returns =
                send_behind m f.next a.next p q.number_set f.calls q.returns small
                  (rw full f.returns) a.returns;
            carries = a.carries;
            found = f.found;
            none_lost = Perm.refl (ps ++ (q.number_set ∷ []));
            small = f.small;
          }
      | inr fits ↦
          let a =
            append_packet-Appended first mtu merged_kind room m ps q.number_set c q.sendable
              (ground (arith, fits)) in
          record {
            next = a.next;
            calls = [];
            waiting = ps ++ (q.number_set ∷ []);
            sent = [];
            returns =
                send_behind m m a.next p q.number_set [] q.returns small (rw fits refl) a.returns;
            carries = a.carries;
            found = refl;
            none_lost = Perm.refl (ps ++ (q.number_set ∷ []));
            small = tt;
          }
    ]
  ]

  -- The packets with the connection's number in them.
  pub AllNumbered : List Packet → List Packet → Type 0
  AllNumbered [] [] = Unit {0}
  AllNumbered [] (q ∷ qs) = ⊥
  AllNumbered (p ∷ ps) [] = ⊥
  AllNumbered (p ∷ ps) (q ∷ qs) = (set_connection_number p num ≡ some q) × AllNumbered ps qs

  abbrev pub IsOutgoing : Packet → Type 0
  IsOutgoing p = IsSendable p × All IsByte p.bytes × (size p ≤ mtu)

  record Emitted (m : Merging) (held ps : List Packet) : Type 0 where
    next : Merging
    calls : List Call
    waiting : List Packet
    sent : List Packet
    numbers : List Packet
    returns : send_each num mtu m ps ≡ some (next, calls)
    carries : Carries' next waiting
    found : unpack_all calls ≡ some sent
    numbers_are : AllNumbered ps numbers
    none_lost : Perm (sent ++ waiting) (held ++ numbers)
    small : All (FitsIn mtu) calls

  unpack_all-append :
      (cs ds : List Call) (ps qs : List Packet)
      → unpack_all cs ≡ some ps
      → unpack_all ds ≡ some qs
      → unpack_all (cs ++ ds) ≡ some (ps ++ qs)
  unfolding unpack_all
  unpack_all-append [] ds ps qs h k = let empty : [] ≡ ps = cc h in rw (← empty) k
  unpack_all-append (send_raw bs ∷ cs) ds ps qs h k =
      let (first, e₁, rest) = >>=-eq-some (unpack (packet bs)) _ h in
      let (others, e₂, last) = >>=-eq-some (unpack_all cs) _ rest in
      let whole : first ++ others ≡ ps = cc last in
      rw (e₁, unpack_all-append cs ds others qs e₂ k, ← append_assoc first others qs)
        (ap (λ (all : List Packet). some (all ++ qs)) whole)
  unpack_all-append (dispatch_receive bs c d ∷ cs) ds ps qs h k = unpack_all-append cs ds ps qs h k
  unpack_all-append (disconnect_force r ∷ cs) ds ps qs h k = unpack_all-append cs ds ps qs h k

  perm_step :
      (s₁ s₂ w₁ w₂ held qs : List Packet) (q : Packet)
      → Perm (s₁ ++ w₁) (held ++ (q ∷ []))
      → Perm (s₂ ++ w₂) (w₁ ++ qs)
      → Perm ((s₁ ++ s₂) ++ w₂) (held ++ (q ∷ qs))
  perm_step s₁ s₂ w₁ w₂ held qs q h k =
      let a : Perm (s₁ ++ (s₂ ++ w₂)) (s₁ ++ (w₁ ++ qs)) = (perm-append_left_iff s₁).1 k in
      let b : Perm ((s₁ ++ w₁) ++ qs) ((held ++ (q ∷ [])) ++ qs) = (perm-append_right_iff qs).1 h in
      rw (append_assoc s₁ s₂ w₂)
        (Perm.trans a (rw (append_assoc s₁ w₁ qs, append_assoc held (q ∷ []) qs) at b))

  send_each-Emitted :
      (m : Merging) (held ps : List Packet)
      → Carries' m held
      → All IsOutgoing ps
      → Emitted m held ps
  unfolding send_each AllNumbered unpack_all
  send_each-Emitted m held [] c h = record {
    next = m;
    calls = [];
    waiting = held;
    sent = [];
    numbers = [];
    returns = refl;
    carries = c;
    found = refl;
    numbers_are = tt;
    none_lost = rw (append-nil held) (Perm.refl held);
    small = tt;
  }
  send_each-Emitted m held (p ∷ ps) c ((s, hb, fits), h) =
      let q = number_bytes num p.bytes hn hb s in
      let one = send_user_data-Sent m held p q c fits in
      let r = send_each-Emitted one.next one.waiting ps one.carries h in
      record {
        next = r.next;
        calls = one.calls ++ r.calls;
        waiting = r.waiting;
        sent = one.sent ++ r.sent;
        numbers = q.number_set ∷ r.numbers;
        returns = rw (one.returns, r.returns) refl;
        carries = r.carries;
        found = unpack_all-append one.calls r.calls one.sent r.sent one.found r.found;
        numbers_are = (q.returns, r.numbers_are);
        none_lost =
            perm_step one.sent r.sent one.waiting r.waiting held r.numbers q.number_set
              one.none_lost r.none_lost;
        small = All-append (FitsIn mtu) one.calls r.calls one.small r.small;
      }

  -- The result of the end of `update`.
  pub record Emptied (m : Merging) (held ps : List Packet) : Type 0 where
    pub next : Merging
    pub calls : List Call
    pub sent : List Packet
    pub numbers : List Packet
    pub returns : flush_unreliable num mtu m ps ≡ some (next, calls)
    pub carries : Carries' next []
    pub numbers_are : AllNumbered ps numbers
    pub found : unpack_all calls ≡ some sent
    pub none_lost : Perm sent (held ++ numbers)
    pub small : All (FitsIn mtu) calls

  -- The packets that no channel has, valid ones that are no merged packets and not larger than the
  -- MTU, are sent at the end of `update` behind those that wait in the datagram: nothing waits then.
  -- The other side's loop finds in the datagrams all of these packets, with the connection's number in
  -- them, each once, and nothing else. No datagram is larger than the MTU.
  pub flush_unreliable-Emptied :
      (m : Merging) (held ps : List Packet)
      → Carries' m held
      → All IsOutgoing ps
      → Emptied m held ps
  unfolding flush_unreliable
  flush_unreliable-Emptied m held ps c h =
      let r = send_each-Emitted m held ps c h in
      let f = send_merged-Flushed first mtu merged_kind room r.next r.waiting r.carries in
      record {
        next = f.next;
        calls = r.calls ++ f.calls;
        sent = r.sent ++ r.waiting;
        numbers = r.numbers;
        returns = rw (r.returns, f.returns) refl;
        carries = f.carries;
        numbers_are = r.numbers_are;
        found = unpack_all-append r.calls f.calls r.sent r.waiting r.found f.found;
        none_lost = r.none_lost;
        small = All-append (FitsIn mtu) r.calls f.calls r.small f.small;
      }
