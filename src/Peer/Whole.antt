-- ===== src/Peer/Whole.antt =====
-- A large message from `send` to `addReliablePacket` of peer.go: cut, numbered, and put together.
use scpxy.Base.{
  ℕ, zero, suc, ◌+◌, ◌-◌, ◌*◌, ◌≤◌, ◌<◌, ◌≡◌, ◌≢◌, refl, ap, sym, ◌∙◌, none, some, List, [], ◌∷◌,
  ◌++◌, map, length, get_elem?, take, drop, length-drop, take_all, All, All-map, ltb, if◌then◌else◌,
  true, false, arith, inl, inr, Bool-cases,
}
use scpxy.Base.Assoc.{lookup, nat_key}
use scpxy.Wire.{Delivery}
use scpxy.Packet.{Packet}
use scpxy.Peer.Fragments.{Held, fragments_from, total_packets, split_message}
use scpxy.Peer.Split.{laid_out, fragment-laid_out, carried, carried-laid_out, on_wire}
use scpxy.Peer.Reassembly.{chunk, IsPart}
use scpxy.Peer.Arrivals.{member}
use scpxy.Peer.AnyOrder.{Delivered, parts-Delivered}

-- The rounds' bytes are the part's.
piece-chunk :
    (message : List ℕ) (width part remaining : ℕ)
    → remaining ≡ length message - part * width
    → take (if ltb remaining width then remaining else width) (drop (part * width) message)
      ≡ chunk message width part
piece-chunk message width part remaining h = elim (Bool-cases (ltb remaining width)) [
  | inl short ↦
      let xs = drop (part * width) message in
      let l : length xs ≡ remaining = length-drop (part * width) message ∙ sym h in
      rw short (
        take_all remaining xs (omega (arith, l))
        ∙ sym (take_all width xs (ground (arith, short, l))))
  | inr long ↦ rw long refl
]

-- The fragments from a part on, as the code lays them out.
module _ (message : List ℕ) (width id total : ℕ) (ht : total < 65536) where
  abbrev laid : ℕ → Packet
  laid part =
      laid_out (record { first = 129; seq = 0; channel = 0 }) id part total
        (chunk message width part)

  all_laid : ℕ → ℕ → List Packet
  all_laid zero part = []
  all_laid (suc rounds) part = laid part ∷ all_laid rounds (part + 1)

  fragments_from-all_laid :
      (rounds part remaining : ℕ)
      → remaining ≡ length message - part * width
      → part + rounds ≤ total
      → fragments_from rounds part id total width remaining message ≡ some (all_laid rounds part)
  unfolding fragments_from all_laid
  fragments_from-all_laid zero part remaining hr hp = refl
  fragments_from-all_laid (suc rounds) part remaining hr hp =
      let next : (part + 1) * width ≡ part * width + width = grind arith in
      let len : ℕ = if ltb remaining width then remaining else width in
      let less : remaining - len ≡ length message - (part + 1) * width =
        rw next (ground (arith, hr)) in
      rw
        (
          piece-chunk message width part remaining hr,
          fragment-laid_out id part total (chunk message width part) (omega arith) ht,
          fragments_from-all_laid rounds (part + 1) (remaining - len) less (omega arith),
        )
        refl

  length-all_laid : (rounds part : ℕ) → length (all_laid rounds part) ≡ rounds
  unfolding all_laid
  length-all_laid zero part = refl
  length-all_laid (suc rounds) part = ap suc (length-all_laid rounds (part + 1))

  get_elem?-all_laid :
      (rounds part i : ℕ) (p : Packet)
      → get_elem? (all_laid rounds part) i ≡ some p
      → (i < rounds) × (p ≡ laid (part + i))
  unfolding all_laid
  get_elem?-all_laid zero part i p h = absurd (cc h)
  get_elem?-all_laid (suc rounds) part zero p h =
      let e : part + 0 ≡ part = omega arith in (omega arith, rw e (sym (cc h)))
  get_elem?-all_laid (suc rounds) part (suc i) p h =
      let (below, e) = get_elem?-all_laid rounds (part + 1) i p h in
      let far : part + suc i ≡ part + 1 + i = omega arith in (omega arith, rw far e)

some_injective : {A : Type 0} {p q : A} → some p ≡ some q → p ≡ q
some_injective h = cc h

total_packets-covers : (len width : ℕ) → 0 < width → len ≤ total_packets len width * width
total_packets-covers len width h = grind arith

-- A fragment on its way: its part, and what reaches the other side of it.
pub record Arrival (ps : List Packet) (channel : ℕ) (part : ℕ) (q : Packet) : Type 0 where
  pub sent : Packet
  pub seq : ℕ
  pub num : ℕ
  pub num_lt : num < 4
  pub sent_is : get_elem? ps part ≡ some sent
  pub carried_is : carried seq channel num sent ≡ some q

module _ (message : List ℕ) (width id channel : ℕ) (hi : id < 65536)
    (ht : total_packets (length message) width < 65536) where
  abbrev total : ℕ
  total = total_packets (length message) width

  Arrival-IsPart :
      (ps : List Packet) (part : ℕ) (q : Packet)
      → ps ≡ all_laid message width id total ht total 0
      → Arrival ps channel part q
      → (part < total) × IsPart message width id channel total hi ht part q
  unfolding IsPart on_wire
  Arrival-IsPart ps part q laid_out_is a =
      let (below, laid_is) =
        get_elem?-all_laid message width id total ht total 0 part a.sent
          (rw laid_out_is at a.sent_is) in
      let zero_part : 0 + part ≡ part = omega arith in
      (
        below,
        (
          a.num,
          a.seq,
          a.num_lt,
          below,
          some_injective (
              sym a.carried_is
              ∙ ap (carried a.seq channel a.num) (rw zero_part at laid_is)
              ∙ carried-laid_out a.seq channel a.num id part total (chunk message width part)
                  a.num_lt),
        ),
      )

  -- A message that needs less than 65536 fragments is cut into them. They arrive, each with a number
  -- and the connection's bits of the channel's making, in any order and as often as they like, then the
  -- last one that was missing: `addReliablePacket` delivers the message, once and whole, and keeps
  -- nothing of it. What it holds of other messages stays.
  pub split-deliver :
      (ps : List Packet) (held : Held) (method : Delivery) (as_ : List (ℕ × Packet)) (last : ℕ)
      (p : Packet)
      → 0 < width
      → split_message id width message ≡ some ps
      → lookup id held ≡ none
      → All (λ a. Arrival ps channel a.0 a.1) as_
      → Arrival ps channel last p
      → member last (map (λ a. a.0) as_) ≡ false
      → ((i : ℕ) → i < length ps → i ≢ last → member i (map (λ a. a.0) as_) ≡ true)
      → Delivered message width id channel total hi ht held method (map (λ a. a.1) as_ ++ (p ∷ []))
  unfolding split_message
  split-deliver ps held method as_ last p hw split fresh all is_last away rest =
      let cut =
        fragments_from-all_laid message width id total ht total 0 (length message)
          (let e : 0 * width ≡ 0 = omega arith in rw e (omega arith)) (omega arith) in
      let laid_is : ps ≡ all_laid message width id total ht total 0 =
        some_injective (sym split ∙ cut) in
      let length_is : length ps ≡ total =
        ap length laid_is ∙ length-all_laid message width id total ht total 0 in
      let (below, last_part) = Arrival-IsPart ps last p laid_is is_last in
      parts-Delivered message width id channel total hi ht held method as_ last p fresh
        (All-map _ _ as_ (λ a h. Arrival-IsPart ps a.0 a.1 laid_is h) all) below last_part away
        (λ i h ne. rest i (rw (← length_is) at h) ne)
        (total_packets-covers (length message) width hw)
