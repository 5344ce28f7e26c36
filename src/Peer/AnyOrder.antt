-- ===== src/Peer/AnyOrder.antt =====
-- A message of peer.go in fragments, whose parts arrive in any order: it is delivered whole, once.
use scpxy.Base.{
  ℕ, ◌*◌, ◌/◌, ◌≤◌, ◌<◌, ◌≡◌, ◌≢◌, ◌⊎◌, inl, inr, refl, ap, ◌∙◌, true, false, not, none, some, List,
  [], ◌∷◌, ◌++◌, map, length, set, All, ◌==◌, length-set, get_elem?-set_ne, arith, Bool-cases,
  ==_iff,
}
use scpxy.Base.Assoc.{
  lookup, insert, erase, nat_key, lookup-insert_self, lookup-insert_ne, lookup-erase_self,
  lookup-erase_ne,
}
use scpxy.Wire.{Delivery, channel_type_count}
use scpxy.Packet.{Packet, fragments_total, channel_id}
use scpxy.Peer.{IncomingFragments, dispatch_receive}
use scpxy.Peer.Fragments.{Held, with_fragment, entry, add_reliable_packet}
use scpxy.Peer.Reassembly.{come, come-lt, come_full, IsPart, IsPart-Reads}
use scpxy.Peer.Arrivals.{
  member, arrive, arrive-append, Collecting, new_entry, new_entry-Collecting,
  with_fragment-Collecting, add_again, add_new, add_last, is_missing→none,
}

module _ (message : List ℕ) (width id channel total : ℕ) (hi : id < 65536)
    (ht : total < 65536) where
  abbrev IsPart' : ℕ → Packet → Type 0
  IsPart' = IsPart message width id channel total hi ht

  abbrev Collecting' : IncomingFragments → List ℕ → Type 0
  Collecting' = Collecting message width id channel total hi ht

  -- The parts `seen` have come, and not all of them.
  pub Holds : Held → List ℕ → Type 0
  Holds held seen =
      ((lookup id held ≡ none) × (seen ≡ []))
      ⊎ ((e : IncomingFragments) × (lookup id held ≡ some e) × Collecting' e seen)

  Holds-entry :
      (held : Held) (seen : List ℕ) (part : ℕ) (p : Packet)
      → Holds held seen
      → IsPart' part p
      → (e : IncomingFragments) × (entry held id p ≡ some e) × Collecting' e seen
  unfolding Holds entry
  Holds-entry held seen part p (inl (missing, none_seen)) is_part =
      let (num, seq, laid, r) = IsPart-Reads message width id channel total hi ht part p is_part in
      let total_is : fragments_total p ≡ some total = rw laid r.total_is in
      let channel_is : channel_id p ≡ some channel = rw laid r.channel_is in
      (
        new_entry message width id channel total hi ht,
        rw (missing, entry, total_is, channel_is) refl,
        rw none_seen (new_entry-Collecting message width id channel total hi ht),
      )
  Holds-entry held seen part p (inr (e, there, c)) is_part = (e, rw (there, entry) refl, c)

  Collecting-again :
      (e : IncomingFragments) (seen : List ℕ) (part : ℕ)
      → member part seen ≡ true
      → Collecting' e seen
      → Collecting' e (part ∷ seen)
  unfolding member
  Collecting-again e seen part again c = record {
    length_is = c.length_is;
    received_is = c.received_is;
    size_is = c.size_is;
    channel_is = c.channel_is;
    parts_are = c.parts_are;
    places = λ i h. elim (Bool-cases (i == part)) [
      | inl same ↦
          let same' : i ≡ part = (==_iff i part).0 same in
          rw (same, same') (c.places part (rw same' at h) ∙ ap not again)
      | inr other ↦ rw other (c.places i h)
    ];
  }

  -- What an arrival before the last does.
  pub record Kept (held : Held) (method : Delivery) (p : Packet) (seen : List ℕ) : Type 0 where
    pub next : Held
    pub returns : add_reliable_packet held method p ≡ some (next, [])
    pub holds : Holds next seen
    pub others : (j : ℕ) → id ≢ j → lookup j next ≡ lookup j held

  module _ (held : Held) (method : Delivery) (seen : List ℕ) (h : Holds held seen) (part : ℕ)
      (p : Packet) (hp : part < total) (is_part : IsPart' part p) where
    arrival-Kept :
        (last : ℕ)
        → last < total
        → part ≢ last
        → member last seen ≡ false
        → Kept held method p (part ∷ seen)
    unfolding Holds
    arrival-Kept last hl other left =
        let (e, found, c) = Holds-entry held seen part p h is_part in
        elim (Bool-cases (member part seen)) [
          | inl again ↦ record {
            next = insert id e held;
            returns =
                add_again message width id channel total hi ht held method e seen c part p hp
                  is_part found again;
            holds = inr (e, lookup-insert_self id e held, Collecting-again e seen part again c);
            others = λ j ne. lookup-insert_ne id j e held ne;
          }
          | inr new ↦
              let e' = with_fragment e part p in
              let c' =
                with_fragment-Collecting message width id channel total hi ht e seen c part p hp
                  is_part new in
              let empty =
                get_elem?-set_ne e.fragments part last (some p) other
                ∙ is_missing→none _ (c.places last hl ∙ ap not left) in
              record {
                next = insert id e' held;
                returns =
                    add_new message width id channel total hi ht held method e seen c part p hp
                      is_part found new
                      (omega (
                        arith,
                        come-lt (set e.fragments part (some p)) last empty,
                        length-set e.fragments part (some p),
                        c.length_is,
                      ));
                holds = inr (e', lookup-insert_self id e' held, c');
                others = λ j ne. lookup-insert_ne id j e' held ne;
              }
        ]

    -- The arrival that makes the parts complete.
    last-Delivers :
        member part seen ≡ false
        → ((i : ℕ) → i < total → i ≢ part → member i seen ≡ true)
        → length message ≤ total * width
        → add_reliable_packet held method p
          ≡ some
              (erase id held, dispatch_receive message (channel / channel_type_count) method ∷ [])
    unfolding member
    last-Delivers new rest covers =
        let (e, found, c) = Holds-entry held seen part p h is_part in
        let c' =
          with_fragment-Collecting message width id channel total hi ht e seen c part p hp is_part
            new in
        let all : come (set e.fragments part (some p)) ≡ total =
          come_full (set e.fragments part (some p)) (λ i hl.
            c'.places i (omega (arith, c'.length_is))
            ∙ ap not {y = true} (elim (Bool-cases (i == part)) [
              | inl same ↦ rw same refl
              | inr other ↦
                  rw other
                    (rest i (omega (arith, c'.length_is)) (λ h. absurd (ground (arith, other))))
            ]))
          ∙ c'.length_is in
        add_last message width id channel total hi ht held method e seen c part p hp is_part found
          new all covers

  -- The parts that have come after these arrivals.
  gather : List (ℕ × Packet) → List ℕ → List ℕ
  gather [] seen = seen
  gather ((part, p) ∷ as_) seen = gather as_ (part ∷ seen)

  gather-keeps :
      (as_ : List (ℕ × Packet)) (seen : List ℕ) (i : ℕ)
      → member i seen ≡ true
      → member i (gather as_ seen) ≡ true
  unfolding gather member
  gather-keeps [] seen i h = h
  gather-keeps ((part, p) ∷ as_) seen i h = gather-keeps as_ (part ∷ seen) i (ground (arith, h))

  gather-has :
      (as_ : List (ℕ × Packet)) (seen : List ℕ) (i : ℕ)
      → member i (map (λ a. a.0) as_) ≡ true
      → member i (gather as_ seen) ≡ true
  unfolding gather member
  gather-has [] seen i h = absurd (cc h)
  gather-has ((part, p) ∷ as_) seen i h = elim (Bool-cases (i == part)) [
    | inl same ↦ gather-keeps as_ (part ∷ seen) i (ground (arith, same))
    | inr other ↦ gather-has as_ (part ∷ seen) i (ground (arith, other))
  ]

  gather-not :
      (as_ : List (ℕ × Packet)) (seen : List ℕ) (i : ℕ)
      → member i (map (λ a. a.0) as_) ≡ false
      → member i seen ≡ false
      → member i (gather as_ seen) ≡ false
  unfolding gather member
  gather-not [] seen i h s = s
  gather-not ((part, p) ∷ as_) seen i h s =
      gather-not as_ (part ∷ seen) i (ground (arith, h)) (ground (arith, h, s))

  -- Parts arrive while another is still missing.
  record Collected (held : Held) (method : Delivery) (as_ : List (ℕ × Packet)) (seen : List ℕ)
      : Type 0 where
    next : Held
    returns : arrive held method (map (λ a. a.1) as_) ≡ some (next, [])
    holds : Holds next (gather as_ seen)
    others : (j : ℕ) → id ≢ j → lookup j next ≡ lookup j held

  arrivals-Collected :
      (held : Held) (method : Delivery) (as_ : List (ℕ × Packet)) (seen : List ℕ) (last : ℕ)
      → Holds held seen
      → All (λ a. (a.0 < total) × IsPart' a.0 a.1) as_
      → last < total
      → member last (map (λ a. a.0) as_) ≡ false
      → member last seen ≡ false
      → Collected held method as_ seen
  unfolding arrive gather member
  arrivals-Collected held method [] seen last h all hl away left = record {
    next = held;
    returns = refl;
    holds = h;
    others = λ j ne. refl;
  }
  arrivals-Collected held method ((part, p) ∷ as_) seen last h all hl away left =
      let ne : part ≢ last = λ e. absurd (ground (arith, away)) in
      let k = arrival-Kept held method seen h part p all.0.0 all.0.1 last hl ne left in
      let r =
        arrivals-Collected k.next method as_ (part ∷ seen) last k.holds all.1 hl
          (ground (arith, away)) (ground (arith, away, left)) in
      record {
        next = r.next;
        returns = rw (k.returns, r.returns) refl;
        holds = r.holds;
        others = λ j hj. r.others j hj ∙ k.others j hj;
      }

  pub record Delivered (held : Held) (method : Delivery) (ps : List Packet) : Type 0 where
    pub next : Held
    pub returns :
        arrive held method ps
        ≡ some (next, dispatch_receive message (channel / channel_type_count) method ∷ [])
    pub forgets : lookup id next ≡ none
    pub others : (j : ℕ) → id ≢ j → lookup j next ≡ lookup j held

  pub parts-Delivered :
      (held : Held) (method : Delivery) (as_ : List (ℕ × Packet)) (last : ℕ) (p : Packet)
      → lookup id held ≡ none
      → All (λ a. (a.0 < total) × IsPart' a.0 a.1) as_
      → last < total
      → IsPart' last p
      → member last (map (λ a. a.0) as_) ≡ false
      → ((i : ℕ) → i < total → i ≢ last → member i (map (λ a. a.0) as_) ≡ true)
      → length message ≤ total * width
      → Delivered held method (map (λ a. a.1) as_ ++ (p ∷ []))
  unfolding Holds member
  parts-Delivered held method as_ last p fresh all hl is_part away rest covers =
      let c = arrivals-Collected held method as_ [] last (inl (fresh, refl)) all hl away refl in
      let done =
        last-Delivers c.next method (gather as_ []) c.holds last p hl is_part
          (gather-not as_ [] last away refl) (λ i hi' ne. gather-has as_ [] i (rest i hi' ne))
          covers in
      record {
        next = erase id c.next;
        returns =
            arrive-append held c.next (erase id c.next) method (map (λ a. a.1) as_) p [] _ c.returns
              done;
        forgets = lookup-erase_self id c.next;
        others = λ j ne. lookup-erase_ne id j c.next ne ∙ c.others j ne;
      }
