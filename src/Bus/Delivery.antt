-- ===== src/Bus/Delivery.antt =====
-- Sends of bus.go to the subscribers' channels, and their race with `Unsubscribe`.
use scpxy.Base.{
  ℕ, ◌+◌, ◌≤◌, ◌<◌, ◌≡◌, ◌≢◌, refl, ◌∙◌, true, false, none, some, List, [], ◌∷◌, ◌++◌, length, ltb,
  ◌==◌, if◌then◌else◌, arith, map, inl, inr, Option-cases, Bool-cases, length-append, All, All-map,
  le→ltb,
}
use scpxy.Base.Assoc.{
  lookup, insert, erase, nat_key, lookup-insert, lookup-insert_ne, lookup-insert_self, All-lookup,
  All-insert, All-erase,
}
use scpxy.Bus.{
  Bus, Entry, Channel, Level, rank, channel_size, log_locked, log, send, send_all, subscribe,
  unsubscribe, update_channel, close_channel, new_bus, push_ring,
}

-- A channel that is open, within its capacity.
abbrev pub IsOpen : List (ℕ × Channel) → ℕ → Type 0
IsOpen cs c =
    (ch : Channel) × (lookup c cs ≡ some ch)
    × (ch.closed ≡ false)
    × (length ch.queue ≤ channel_size)

-- A subscriber's channel bears its id, which has been given out, and is open.
abbrev pub IsLive : List (ℕ × Channel) → ℕ → ℕ × ℕ → Type 0
IsLive cs next s = (s.1 ≡ s.0) × (s.0 < next) × IsOpen cs s.1

abbrev pub Inv : Bus → Type 0
Inv b = All (IsLive b.chans b.next) b.subs

pub new_bus-Inv : (l : Level) → Inv (new_bus l)
unfolding new_bus
new_bus-Inv l = tt

IsOpen-insert_ne :
    (cs : List (ℕ × Channel)) (k c : ℕ) (ch : Channel)
    → k ≢ c
    → IsOpen cs c
    → IsOpen (insert k ch cs) c
IsOpen-insert_ne cs k c ch h (d, found, live, fits) =
    (d, rw (lookup-insert_ne k c ch cs h) found, live, fits)

pub subscribe-Inv : (b : Bus) → Inv b → Inv (subscribe b).0
unfolding subscribe
subscribe-Inv b v =
    All-insert (IsLive (insert b.next fresh b.chans) (b.next + 1)) b.next b.next b.subs
      (All-map _ _ b.subs old v)
      (refl, omega arith, (fresh, lookup-insert_self b.next fresh b.chans, refl, omega arith))
  where
    fresh : Channel
    fresh = record { queue = []; closed = false }

    old :
        (s : ℕ × ℕ) → IsLive b.chans b.next s → IsLive (insert b.next fresh b.chans) (b.next + 1) s
    old s (same, lt, live) = (
      same,
      omega arith,
      IsOpen-insert_ne b.chans b.next s.1 fresh (λ e. absurd (omega arith)) live,
    )

-- The operations where they find what they look for.
unsubscribe_found :
    (b : Bus) (id c : ℕ) (ch : Channel)
    → lookup id b.subs ≡ some c
    → lookup c b.chans ≡ some ch
    → unsubscribe b id
      ≡ record b { subs = erase id b.subs; chans = insert c (close_channel ch) b.chans }
unfolding unsubscribe
unsubscribe_found b id c ch found there = rw (found, unsubscribe, there, update_channel) refl

send_found :
    (b : Bus) (e : Entry) (c : ℕ) (ch : Channel)
    → lookup c b.chans ≡ some ch
    → send b e c ≡ (
        if ch.closed
        then none
        else if ltb (length ch.queue) channel_size
        then some
            (record b { chans = insert c (record ch { queue = ch.queue ++ (e ∷ []) }) b.chans })
        else some b)
unfolding send
send_found b e c ch found = rw (found, send) refl

log_low : (b : Bus) (e : Entry) → ltb (rank e.level) (rank b.min_level) ≡ true → log b e ≡ some b
unfolding log
log_low b e low = rw (low, log_locked, log) (rw low refl)

log_kept :
    (b : Bus) (e : Entry)
    → ltb (rank e.level) (rank b.min_level) ≡ false
    → log b e ≡ send_all (record b { ring = push_ring b.ring e }) e (map (λ s. s.1) b.subs)
unfolding log
log_kept b e kept = rw (kept, log_locked, log) (rw kept refl)

pub unsubscribe-Inv : (b : Bus) (id : ℕ) → Inv b → Inv (unsubscribe b id)
unfolding unsubscribe
unsubscribe-Inv b id v = elim (Option-cases (lookup id b.subs)) [
  | inl missing ↦ rw (missing, unsubscribe) v
  | inr (c, found) ↦
      let (same, lt, (ch, there, live, fits)) =
        All-lookup (IsLive b.chans b.next) id c b.subs v found in
      rw (unsubscribe_found b id c ch found there) (
        All-map _ _ (erase id b.subs) (others c same (record ch { closed = true }))
          (All-erase (IsLive b.chans b.next) id b.subs v))
]
  where
    others :
        (c : ℕ)
        → c ≡ id
        → (ch : Channel) (s : ℕ × ℕ) → IsLive b.chans b.next s × ((s.0 == id) ≡ false)
        → IsLive (insert c ch b.chans) b.next s
    others c same ch s ((own, lt, live), other) =
        (own, lt, IsOpen-insert_ne b.chans c s.1 ch (λ e. absurd (ne (ground arith))) live)
      where
        ne : ¬ (s.0 ≡ id)
        ne e = ground arith

-- A send to an open channel keeps every open channel open, and touches nothing but channels.
send-IsOpen :
    (b : Bus) (e : Entry) (c : ℕ)
    → IsOpen b.chans c
    → (cs : List (ℕ × Channel)) × (send b e c ≡ some (record b { chans = cs }))
      × ((d : ℕ) → IsOpen b.chans d → IsOpen cs d)
unfolding send
send-IsOpen b e c (ch, found, live, fits) = elim (Bool-cases (ltb (length ch.queue) channel_size)) [
  | inl room ↦
      (insert c longer b.chans, rw (send_found b e c ch found, live, room) refl, still room)
  | inr full ↦ (b.chans, rw (send_found b e c ch found, live, full) refl, λ d h. h)
]
  where
    longer : Channel
    longer = record ch { queue = ch.queue ++ (e ∷ []) }

    still :
        ltb (length ch.queue) channel_size ≡ true
        → (d : ℕ) → IsOpen b.chans d
        → IsOpen (insert c longer b.chans) d
    still room d h = elim (Bool-cases (c == d)) [
      | inl hit ↦ (
        longer,
        rw (lookup-insert c d longer b.chans, hit) refl,
        live,
        ground (arith, length-append ch.queue (e ∷ [])),
      )
      | inr miss ↦ IsOpen-insert_ne b.chans c d longer (λ same. absurd (ground arith)) h
    ]

send_all-IsOpen :
    (cs : List ℕ) (b : Bus) (e : Entry)
    → All (IsOpen b.chans) cs
    → (m : List (ℕ × Channel)) × (send_all b e cs ≡ some (record b { chans = m }))
      × ((d : ℕ) → IsOpen b.chans d → IsOpen m d)
unfolding send_all
send_all-IsOpen [] b e h = (b.chans, refl, λ d o. o)
send_all-IsOpen (c ∷ cs) b e h =
    let (m₁, e₁, k₁) = send-IsOpen b e c h.0 in
    let (m₂, e₂, k₂) = send_all-IsOpen cs (record b { chans = m₁ }) e (All-map _ _ cs k₁ h.1) in
    (m₂, rw e₁ e₂, λ d o. k₂ d (k₁ d o))

live_targets :
    (m : List (ℕ × Channel)) (n : ℕ) (subs : List (ℕ × ℕ))
    → All (IsLive m n) subs
    → All (IsOpen m) (map (λ s. s.1) subs)
live_targets m n [] h = tt
live_targets m n (s ∷ subs) h = (h.0.2, live_targets m n subs h.1)

-- `Log` with nothing between its two parts never sends on a closed channel: it returns, the ring is
-- the one that its locked part left, and the invariant holds again.
pub log-Inv :
    (b : Bus) (e : Entry)
    → Inv b
    → (b' : Bus) × (log b e ≡ some b') × Inv b' × (b'.ring ≡ (log_locked b e).0.ring)
unfolding log_locked
log-Inv b e v = elim (Bool-cases (ltb (rank e.level) (rank b.min_level))) [
  | inl low ↦ (b, log_low b e low, v, rw low refl)
  | inr kept ↦
      let b₁ = record b { ring = push_ring b.ring e } in
      let (m, sent, k) =
        send_all-IsOpen (map (λ s. s.1) b.subs) b₁ e (live_targets b.chans b.next b.subs v) in
      (
        record b₁ { chans = m },
        log_kept b e kept ∙ sent,
        All-map _ _ b.subs (λ (s : ℕ × ℕ) l. (l.0, l.1, k s.1 l.2)) v,
        rw kept refl,
      )
]

-- The race: an entry that passes the level, a subscriber, and its `Unsubscribe` between the locked
-- part of `Log` and the sends. The channel is among those to be sent to, and the send panics.
pub log_races_unsubscribe :
    (b : Bus) (e : Entry) (id c : ℕ)
    → lookup id b.subs ≡ some c
    → IsOpen b.chans c
    → rank b.min_level ≤ rank e.level
    → ((log_locked b e).1 ≡ some (map (λ s. s.1) b.subs))
      × (send (unsubscribe (log_locked b e).0 id) e c ≡ none)
unfolding log_locked
log_races_unsubscribe b e id c found (ch, there, live, fits) h =
    let kept : ltb (rank e.level) (rank b.min_level) ≡ false = le→ltb _ _ h in
    let b₁ = record b { ring = push_ring b.ring e } in
    let closed = lookup-insert_self c (close_channel ch) b.chans in
    (
      rw kept refl,
      rw (kept, unsubscribe_found b₁ id c ch found there)
          (send_found _ e c (close_channel ch) closed),
    )
