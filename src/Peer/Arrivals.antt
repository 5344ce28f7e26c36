-- ===== src/Peer/Arrivals.antt =====
-- Fragments of one message arrive at `addReliablePacket` of peer.go, in any order and repeated.
use scpxy.Base.{
  ℕ, zero, suc, ◌+◌, ◌*◌, ◌/◌, ◌≤◌, ◌<◌, ◌≡◌, inl, inr, refl, ap, sym, ◌∙◌, Bool, true, false, not,
  ◌||◌, Option, none, some, List, [], ◌∷◌, ◌++◌, length, get_elem?, set, replicate, length-set,
  length-replicate, get_elem?-set_self, get_elem?-set_ne, ◌==◌, if◌then◌else◌, ◌>>=◌, >>=-eq-some,
  append-nil, append_assoc, arith, Bool-cases, ==_iff,
}
use scpxy.Base.Assoc.{insert, erase, nat_key}
use scpxy.Wire.{Delivery, channel_type_count}
use scpxy.Packet.{Packet, is_fragmented, fragment_id, fragment_part, channel_id}
use scpxy.Peer.{IncomingFragments, Call, dispatch_receive}
use scpxy.Peer.Fragments.{
  Held, is_missing, is_refused, with_fragment, entry, complete, add_fragment, add_reliable_packet,
}
use scpxy.Peer.Reassembly.{
  chunks, chunks_lem, come, carry, come-set, come-replicate, IsPart, IsPart-Reads, Parts,
  Parts-replicate, Parts-set, join-Parts,
}

unfoldable pub member : ℕ → List ℕ → Bool
member i [] = false
member i (j ∷ js) = i == j || member i js

-- The packets reach `addReliablePacket` one after the other.
unfoldable pub arrive : Held → Delivery → List Packet → Option (Held × List Call)
arrive held method [] = some (held, [])
arrive held method (p ∷ ps) = add_reliable_packet held method p >>= λ r.
    arrive r.0 method ps >>= λ rest. some (rest.0, r.1 ++ rest.1)

pub arrive-append :
    (held held' held'' : Held) (method : Delivery) (ps : List Packet) (p : Packet)
    (es fs : List Call)
    → arrive held method ps ≡ some (held', es)
    → add_reliable_packet held' method p ≡ some (held'', fs)
    → arrive held method (ps ++ (p ∷ [])) ≡ some (held'', es ++ fs)
unfolding arrive
arrive-append held held' held'' method [] p es fs h k =
    let same : held ≡ held' = cc h in
    let none_yet : [] ≡ es = cc h in
    let added : add_reliable_packet held method p ≡ some (held'', fs) =
      ap (λ (before : Held). add_reliable_packet before method p) same ∙ k in
    rw (added, append-nil fs) (ap (λ (before : List Call). some (held'', before ++ fs)) none_yet)
arrive-append held held' held'' method (q ∷ ps) p es fs h k =
    let (r, first, later) = >>=-eq-some (add_reliable_packet held method q) _ h in
    let (rest, second, last) = >>=-eq-some (arrive r.0 method ps) _ later in
    let same : rest.0 ≡ held' = cc last in
    let whole : r.1 ++ rest.1 ≡ es = cc last in
    let ih =
      arrive-append r.0 held' held'' method ps p rest.1 fs
        (second ∙ ap (λ (now : Held). some (now, rest.1)) same) k in
    rw (first, ih, ← append_assoc r.1 rest.1 fs)
      (ap (λ (all : List Call). some (held'', all ++ fs)) whole)

missing-replicate : (n i : ℕ) → i < n → is_missing (get_elem? (replicate n none) i) ≡ true
missing-replicate zero i h = elim h [ ]
missing-replicate (suc n) zero h = refl
missing-replicate (suc n) (suc i) h = missing-replicate n i (omega arith)

pub is_missing→none : (o : Option (Option Packet)) → is_missing o ≡ true → o ≡ some none
is_missing→none none h = absurd (cc h)
is_missing→none (some none) h = refl
is_missing→none (some (some p)) h = absurd (cc h)

not-not : (b : Bool) → not (not b) ≡ b
not-not true = refl
not-not false = refl

module _ (message : List ℕ) (width id channel total : ℕ) (hi : id < 65536)
    (ht : total < 65536) where
  -- An entry that holds the parts `seen`.
  pub record Collecting (e : IncomingFragments) (seen : List ℕ) : Type 0 where
    pub length_is : length e.fragments ≡ total
    pub received_is : e.received ≡ come e.fragments
    pub size_is : e.total_size ≡ carry e.fragments
    pub channel_is : e.channel_id ≡ channel
    pub parts_are : Parts message width id channel total hi ht 0 e.fragments
    pub places : (i : ℕ) → i < total → is_missing (get_elem? e.fragments i) ≡ not (member i seen)

  abbrev pub new_entry : IncomingFragments
  new_entry = record {
    fragments = replicate total none;
    received = 0;
    total_size = 0;
    channel_id = channel;
  }

  pub new_entry-Collecting : Collecting new_entry []
  unfolding member
  new_entry-Collecting = record {
    length_is = length-replicate total none;
    received_is = sym (come-replicate total).0;
    size_is = sym (come-replicate total).1;
    channel_is = refl;
    parts_are = Parts-replicate message width id channel total hi ht total 0;
    places = missing-replicate total;
  }

  module _ (e : IncomingFragments) (seen : List ℕ) (c : Collecting e seen) (part : ℕ) (p : Packet)
      (hp : part < total) (is_part : IsPart message width id channel total hi ht part p)
      (new : member part seen ≡ false) where
    pub place_empty : get_elem? e.fragments part ≡ some none
    place_empty = is_missing→none (get_elem? e.fragments part) (c.places part hp ∙ ap not new)

    pub with_fragment-Collecting : Collecting (with_fragment e part p) (part ∷ seen)
    unfolding member
    with_fragment-Collecting =
        let (more, larger) = come-set e.fragments part p place_empty in
        record {
          length_is = length-set e.fragments part (some p) ∙ c.length_is;
          received_is = omega (arith, c.received_is);
          size_is = omega (arith, c.size_is);
          channel_is = c.channel_is;
          parts_are =
              Parts-set message width id channel total hi ht e.fragments 0 part p c.parts_are
                (let zero_part : 0 + part ≡ part = omega arith in rw zero_part is_part);
          places = λ i hl. elim (Bool-cases (i == part)) [
            | inl same ↦
                let same' : i ≡ part = (==_iff i part).0 same in
                rw
                  (
                    same,
                    same',
                    get_elem?-set_self e.fragments part (some p) (omega (arith, c.length_is)),
                  )
                  refl
            | inr other ↦
                rw
                  (
                    other,
                    get_elem?-set_ne e.fragments part i (some p)
                        (λ h. absurd (ground (arith, other))),
                  )
                  (c.places i hl)
          ];
        }

  -- An entry that has all parts is delivered.
  complete_lem :
      (held : Held) (method : Delivery) (e : IncomingFragments) (seen : List ℕ)
      → Collecting e seen
      → come e.fragments ≡ total
      → length message ≤ total * width
      → complete held id e method
        ≡ some (erase id held, dispatch_receive message (channel / channel_type_count) method ∷ [])
  unfolding complete
  complete_lem held method e seen c all covers =
      let whole : chunks message width (length e.fragments) 0 ≡ message = rw c.length_is (
        chunks_lem message width total 0 (let e : 0 + total ≡ total = omega arith in rw e covers)
        ∙ (let e : 0 * width ≡ 0 = omega arith in rw e refl)) in
      let joined =
        join-Parts message width id channel total hi ht e.fragments 0 [] c.parts_are
          (omega (arith, c.length_is)) in
      rw (c.size_is, joined, whole, c.channel_is) refl

  module _ (held : Held) (method : Delivery) (e : IncomingFragments) (seen : List ℕ)
      (c : Collecting e seen) (part : ℕ) (p : Packet) (hp : part < total)
      (is_part : IsPart message width id channel total hi ht part p)
      (found : entry held id p ≡ some e) where
    added :
        (out : Option (Held × List Call))
        → (if is_refused e part channel
            then some (insert id e held, [])
            else if e.received + 1 == length (set e.fragments part (some p))
            then complete held id (with_fragment e part p) method
            else some (insert id (with_fragment e part p) held, []))
          ≡ out
        → add_reliable_packet held method p ≡ out
    unfolding add_reliable_packet add_fragment
    added out h =
        let (num, seq, laid, r) =
          IsPart-Reads message width id channel total hi ht part p is_part in
        let fragmented_is : is_fragmented p ≡ some true = rw laid r.fragmented_is in
        let id_is : fragment_id p ≡ some id = rw laid r.id_is in
        let part_is : fragment_part p ≡ some part = rw laid r.part_is in
        let channel_is : channel_id p ≡ some channel = rw laid r.channel_is in
        rw (fragmented_is, id_is, found, part_is, channel_is) h

    refused_if : is_refused e part channel ≡ member part seen
    unfolding is_refused
    refused_if =
        let missing : not (is_missing (get_elem? e.fragments part)) ≡ member part seen =
          rw (c.places part hp) (not-not (member part seen)) in
        rw (c.channel_is, missing) (ground (arith, c.length_is))

    -- A part that has come before changes nothing.
    pub add_again :
        member part seen ≡ true → add_reliable_packet held method p ≡ some (insert id e held, [])
    add_again again = added _ (rw (refused_if, again) refl)

    module _ (new : member part seen ≡ false) where
      count_is :
          (all : Bool)
          → (come (set e.fragments part (some p)) == total) ≡ all
          → (e.received + 1 == length (set e.fragments part (some p))) ≡ all
      count_is all h =
          let (more, larger) =
            come-set e.fragments part p (place_empty e seen c part p hp is_part new) in
          let counted : e.received + 1 ≡ come (set e.fragments part (some p)) =
            omega (arith, c.received_is) in
          rw (counted, length-set e.fragments part (some p), c.length_is) h

      pub add_new :
          come (set e.fragments part (some p)) < total
          → add_reliable_packet held method p ≡ some (insert id (with_fragment e part p) held, [])
      add_new some_left = added _ (rw (refused_if, new, count_is false (ground arith)) refl)

      pub add_last :
          come (set e.fragments part (some p)) ≡ total
          → length message ≤ total * width
          → add_reliable_packet held method p
            ≡ some
                (erase id held, dispatch_receive message (channel / channel_type_count) method ∷ [])
      add_last all covers = added _ (rw (refused_if, new, count_is true (ground arith)) completed)
        where
          completed :
              complete held id (with_fragment e part p) method
              ≡ some (
                erase id held,
                dispatch_receive message (channel / channel_type_count) method ∷ [],
              )
          completed =
              complete_lem held method (with_fragment e part p) (part ∷ seen)
                (with_fragment-Collecting e seen c part p hp is_part new) all covers
