-- ===== src/Channel/Newest.antt =====
-- What the sequenced channel of channel.go delivers.
use scpxy.Base.{
  ℕ, ◌+◌, ◌-◌, ◌/◌, ◌%◌, ◌<◌, ◌≡◌, refl, ap, sym, ◌∙◌, Bool, true, false, Option, none, some, List,
  [], ◌∷◌, ◌++◌, ltb, ◌==◌, if◌then◌else◌, ◌>>=◌, arith, map, append-nil, inl, inr, Bool-cases,
}
use scpxy.Base.Int.{pos, negsuc}
use scpxy.Wire.{
  max_sequence, half_max_sequence, relative_sequence, channel_type_count, channeled_header_size,
}
use scpxy.Wire.Sequence.{relative_sequence_ahead, relative_sequence_behind}
use scpxy.Packet.{Packet, property, is_fragmented, sequence, channel_id, prop_ack}
use scpxy.Channel.{Effect, deliver, enqueue_channel}
use scpxy.Channel.Window.{wrapped}
use scpxy.Channel.Merged.{deliveries, deliveries-append}
use scpxy.Channel.Sequenced.{
  Sequenced, is_newer, sequenced_delivery, deliver_newer, asks_for_ack, process_sequenced,
}

-- A packet with the number of the count `a`: neither a fragment nor an ack, with a header.
pub record Carries (p : Packet) (a : ℕ) : Type 0 where
  pub kind : ℕ
  pub channel : ℕ
  pub is_whole : is_fragmented p ≡ some false
  pub has_kind : property p ≡ some kind
  pub no_ack : (kind == prop_ack) ≡ false
  pub has_number : sequence p ≡ some (wrapped a)
  pub has_channel : channel_id p ≡ some channel

-- Less than half of the circle lies between the counts.
abbrev pub Near : ℕ → ℕ → Type 0
Near a r = (a < r + half_max_sequence) × (r < a + half_max_sequence)

is_newer_lem : (a r : ℕ) → Near a r → is_newer (wrapped a) (wrapped r) ≡ ltb r a
is_newer_lem a r (up, down) = elim (Bool-cases (ltb r a)) [
  | inl above ↦
      let d : relative_sequence (wrapped a) (wrapped r) ≡ pos (a - r) =
        let e : wrapped a ≡ (wrapped r + (a - r)) % max_sequence = ground arith in
        rw e (relative_sequence_ahead (wrapped r) (a - r) (omega arith) (omega arith)) in
      rw d (ground arith)
  | inr below ↦ elim (Bool-cases (a == r)) [
    | inl same ↦
        let d : relative_sequence (wrapped a) (wrapped r) ≡ pos 0 =
          let e : wrapped a ≡ (wrapped r + 0) % max_sequence = ground arith in
          rw e (relative_sequence_ahead (wrapped r) 0 (omega arith) (omega arith)) in
        rw d (ground arith)
    | inr other ↦
        let d : relative_sequence (wrapped a) (wrapped r) ≡ negsuc (r - a - 1) =
          let e : wrapped r ≡ (wrapped a + (r - a - 1) + 1) % max_sequence = ground arith in
          rw e (relative_sequence_behind (wrapped a) (r - a - 1) (omega arith) (ground arith)) in
        rw d (ground arith)
  ]
]

-- The channel number of a packet, of one that has a header.
or_zero : Option ℕ → ℕ
or_zero none = 0
or_zero (some n) = n

-- The delivery of a packet on a channel like `c`.
pub handed : Sequenced → Packet → Effect
handed c p =
    deliver p (sequenced_delivery c) (or_zero (channel_id p) / channel_type_count)
      channeled_header_size

processed_lem :
    (c : Sequenced) (p : Packet) (kind seq : ℕ) (r : Sequenced × List Effect × Bool)
    → is_fragmented p ≡ some false
    → property p ≡ some kind
    → (kind == prop_ack) ≡ false
    → sequence p ≡ some seq
    → deliver_newer c p seq ≡ some r
    → process_sequenced c p ≡ some (asks_for_ack r)
unfolding process_sequenced
processed_lem c p kind seq r whole has no_ack numbered done =
    rw (whole, has, no_ack, numbered, done) refl

delivered_lem :
    (c : Sequenced) (p : Packet) (seq channel : ℕ)
    → is_newer seq c.remote_seq ≡ true
    → channel_id p ≡ some channel
    → deliver_newer c p seq ≡ some (record c { remote_seq = seq }, handed c p ∷ [], true)
unfolding deliver_newer handed or_zero
delivered_lem c p seq channel newer has = rw (newer, has) refl

not_delivered_lem :
    (c : Sequenced) (p : Packet) (seq : ℕ)
    → is_newer seq c.remote_seq ≡ false
    → deliver_newer c p seq ≡ some (c, [], false)
unfolding deliver_newer
not_delivered_lem c p seq old = rw old refl

-- An arrival of the count `a` at a channel that has delivered up to the count `r`.
record Arrived (c : Sequenced) (r a : ℕ) (p : Packet) : Type 0 where
  after : Sequenced
  effects : List Effect
  returns : process_sequenced c p ≡ some (after, effects, ltb r a)
  delivers : deliveries effects ≡ (if ltb r a then handed c p ∷ [] else [])
  last : after.remote_seq ≡ wrapped (if ltb r a then a else r)
  same_kind : after.reliable ≡ c.reliable

-- The request for an ack touches none of these.
asks_for_ack_lem :
    (x : Sequenced × List Effect × Bool)
    → ((asks_for_ack x).2 ≡ x.2)
      × ((asks_for_ack x).0.remote_seq ≡ x.0.remote_seq)
      × ((asks_for_ack x).0.reliable ≡ x.0.reliable)
      × (deliveries (asks_for_ack x).1 ≡ deliveries x.1)
unfolding deliveries
asks_for_ack_lem (c, es, b) = elim (Bool-cases c.reliable) [
  | inl on ↦
      rw on
        (refl, refl, refl, deliveries-append es (enqueue_channel ∷ []) ∙ append-nil (deliveries es))
  | inr off ↦ rw off (refl, refl, refl, refl)
]

arrived :
    (c c₁ : Sequenced) (r a : ℕ) (p : Packet) (es : List Effect) (b : Bool)
    → process_sequenced c p ≡ some (asks_for_ack (c₁, es, b))
    → b ≡ ltb r a
    → deliveries es ≡ (if ltb r a then handed c p ∷ [] else [])
    → c₁.remote_seq ≡ wrapped (if ltb r a then a else r)
    → c₁.reliable ≡ c.reliable
    → Arrived c r a p
arrived c c₁ r a p es b done is_b gives at same =
    let (flag, last, kind, given) = asks_for_ack_lem (c₁, es, b) in
    let x = asks_for_ack (c₁, es, b) in
    record {
      after = x.0;
      effects = x.1;
      returns = done ∙ ap (λ (t : Bool). some (x.0, x.1, t)) (flag ∙ is_b);
      delivers = given ∙ gives;
      last = last ∙ at;
      same_kind = kind ∙ same;
    }

arrival :
    (c : Sequenced) (r a : ℕ) (p : Packet)
    → c.remote_seq ≡ wrapped r
    → Carries p a
    → Near a r
    → Arrived c r a p
unfolding deliveries handed
arrival c r a p at car near = elim (Bool-cases (ltb r a)) [
  | inl newer ↦
      let e : is_newer (wrapped a) c.remote_seq ≡ true = rw at (is_newer_lem a r near ∙ newer) in
      let done =
        processed_lem c p car.kind (wrapped a) _ car.is_whole car.has_kind car.no_ack car.has_number
          (delivered_lem c p (wrapped a) car.channel e car.has_channel) in
      arrived c (record c { remote_seq = wrapped a }) r a p (handed c p ∷ []) true done (sym newer)
        (rw newer refl) (rw newer refl) refl
  | inr older ↦
      let e : is_newer (wrapped a) c.remote_seq ≡ false = rw at (is_newer_lem a r near ∙ older) in
      let done =
        processed_lem c p car.kind (wrapped a) _ car.is_whole car.has_kind car.no_ack car.has_number
          (not_delivered_lem c p (wrapped a) e) in
      arrived c c r a p [] false done (sym older) (rw older refl) (rw older at) refl
]

-- Arrivals one after the other, and those of them that are newer than all before.
unfoldable pub process_all : Sequenced → List (Packet × ℕ) → Option (Sequenced × List Effect)
process_all c [] = some (c, [])
process_all c ((p, a) ∷ ps) = process_sequenced c p >>= λ first.
    process_all first.0 ps >>= λ rest. some (rest.0, first.1 ++ rest.1)

unfoldable pub newest : ℕ → List (Packet × ℕ) → List Packet
newest r [] = []
newest r ((p, a) ∷ ps) = if ltb r a then p ∷ newest a ps else newest r ps

-- Each arrival carries its count, which is near the highest count before it.
unfoldable pub Arrivals : ℕ → List (Packet × ℕ) → Type 0
Arrivals r [] = Unit {0}
Arrivals r ((p, a) ∷ ps) = Carries p a × Near a r × Arrivals (if ltb r a then a else r) ps

handed_same :
    (c c' : Sequenced) (ps : List Packet)
    → c'.reliable ≡ c.reliable
    → map (handed c') ps ≡ map (handed c) ps
unfolding handed
handed_same c c' [] e = refl
handed_same c c' (p ∷ ps) e = ground (arith, handed_same c c' ps e)

newest_given :
    (c : Sequenced) (r a : ℕ) (p : Packet) (ps : List (Packet × ℕ)) (es fs : List Effect)
    → deliveries es ≡ (if ltb r a then handed c p ∷ [] else [])
    → deliveries fs ≡ map (handed c) (newest (if ltb r a then a else r) ps)
    → deliveries (es ++ fs) ≡ map (handed c) (newest r ((p, a) ∷ ps))
unfolding newest
newest_given c r a p ps es fs now later = elim (Bool-cases (ltb r a)) [
  | inl newer ↦ deliveries-append es fs ∙ (rw (now, later, newer) refl)
  | inr older ↦ deliveries-append es fs ∙ (rw (now, later, older) refl)
]

-- Whole packets with a number that is less than half of the circle away from the highest before
-- them, acks aside, arrive in any order at a sequenced channel of either kind: every call returns,
-- and the channel delivers exactly those packets that are newer than all that came before them.
pub process_all-newest :
    (ps : List (Packet × ℕ)) (c : Sequenced) (r : ℕ)
    → c.remote_seq ≡ wrapped r
    → Arrivals r ps
    → (c' : Sequenced) × (es : List Effect) × (process_all c ps ≡ some (c', es))
      × (deliveries es ≡ map (handed c) (newest r ps))
unfolding process_all newest Arrivals deliveries
process_all-newest [] c r at h = (c, [], refl, refl)
process_all-newest ((p, a) ∷ ps) c r at h =
    let s = arrival c r a p at h.0 h.1 in
    let (c', fs, ran, later) =
      process_all-newest ps s.after (if ltb r a then a else r) s.last h.2 in
    (
      c',
      s.effects ++ fs,
      rw s.returns (rw ran refl),
      newest_given c r a p ps s.effects fs s.delivers (later ∙ handed_same c s.after _ s.same_kind),
    )
