-- ===== src/Channel/Held.antt =====
-- The held packets of channel.go's ordered channel, and their delivery once their turn comes.
-- The state is seen in absolute counts: `w` is the window's start, `r` the count that is waited for.
use scpxy.Base.{
  ℕ, ◌+◌, ◌%◌, ◌≤◌, ◌<◌, ◌≡◌, refl, Bool, true, Option, some, List, [], ◌∷◌, ◌++◌, length,
  get_elem?, ◌>>=◌, All, ◌⊎◌,
}
use scpxy.Wire.{reliable_ordered}
use scpxy.Packet.{Packet, size, sequence}
use scpxy.Channel.{Reliable, Effect, window_size}
use scpxy.Channel.Receive.{process_incoming}
use scpxy.Channel.Bitmap.{IsAcks, Marks}
use scpxy.Channel.Window.{wrapped}
use scpxy.Channel.Merged.{deliveries, deliveries-append}

-- The packets have the sequence numbers of the counts from `r` up to `r'`, one after the other.
unfoldable pub InOrder : ℕ → List Packet → ℕ → Type 0
InOrder r [] r' = r ≡ r'
InOrder r (p ∷ ps) r' = (sequence p ≡ some (wrapped r)) × InOrder (r + 1) ps r'

-- What an ordered channel gives to its peer for packets, one after the other.
unfoldable pub delivered : List Packet → Option (List Effect)
delivered [] = some []
delivered (p ∷ ps) = do es ← process_incoming reliable_ordered p; fs ← delivered ps; some (es ++ fs)

module _ (P : Packet → Type 0) where
  -- A packet in the place `i`: its count is `low` at least and within the window, and is marked.
  pub record Slot (f : ℕ → Bool) (w low i : ℕ) (p : Packet) : Type 0 where
    pub number : ℕ
    pub from_low : low ≤ number
    pub in_window : number < w + window_size
    pub in_place : number % window_size ≡ i
    pub has_number : sequence p ≡ some (wrapped number)
    pub is_marked : f i ≡ true
    pub has_header : 4 ≤ size p
    pub is_known : P p

  abbrev pub Slots : List (Option Packet) → (ℕ → Bool) → ℕ → ℕ → Type 0
  Slots held f w low = (i : ℕ) (p : Packet) → get_elem? held i ≡ some (some p) → Slot f w low i p

  -- A packet is in the place `i`.
  abbrev pub IsHeld : List (Option Packet) → ℕ → Type 0
  IsHeld held i = (p : Packet) × (get_elem? held i ≡ some (some p))

  -- A channel's state. `low` is the least count that may be held: `r + 1`, and `r` while the held
  -- packets are being delivered. All counts of the window below `r` are marked, and what is marked is below `r` or held.
  pub record State (ordered : Bool) (window next : ℕ) (acks : Packet) (held : List (Option Packet))
      (f : ℕ → Bool) (w r low : ℕ) : Type 0 where
    pub is_ordered : ordered ≡ true
    pub window_is : window ≡ wrapped w
    pub next_is : next ≡ wrapped r
    pub window_low : w ≤ low
    pub next_near : r ≤ w + window_size
    pub are_acks : IsAcks acks
    pub are_marks : Marks acks f
    pub are_done : (a : ℕ) → w ≤ a → a < r → f (a % window_size) ≡ true
    pub places : length held ≡ window_size
    pub are_held : Slots held f w low
    pub accounted :
        (a : ℕ)
        → w ≤ a
        → a < w + window_size
        → f (a % window_size) ≡ true
        → (a < r) ⊎ IsHeld held (a % window_size)

  abbrev pub Inv : Reliable → (ℕ → Bool) → ℕ → ℕ → ℕ → Type 0
  Inv c f w r low =
      State c.ordered c.remote_window c.remote_sequence c.outgoing_acks c.received_packets f w r low

  -- What the channel has given out on its way from `r` on: known packets, in order.
  abbrev pub Gives : ℕ → List Packet → ℕ → List Effect → Type 0
  Gives r ps r' es = InOrder r ps r' × All P ps × (delivered ps ≡ some es) × (deliveries es ≡ es)

  pub Gives-first :
      (r r' : ℕ) (p : Packet) (ps : List Packet) (es fs : List Effect)
      → sequence p ≡ some (wrapped r)
      → P p
      → process_incoming reliable_ordered p ≡ some es
      → deliveries es ≡ es
      → Gives (r + 1) ps r' fs
      → Gives r (p ∷ ps) r' (es ++ fs)
  unfolding InOrder delivered
  Gives-first r r' p ps es fs numbered known now whole (order, all, later, rest) = (
    (numbered, order),
    (known, all),
    rw (now, later) refl,
    rw (deliveries-append es fs, whole, rest) refl,
  )
