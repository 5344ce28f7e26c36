-- ===== src/Bus.antt =====
-- internal/events/bus.go: the event log with a ring of entries and subscribers' channels.
-- A channel outlives its entry in `subs`: `chans` is the store of channels, by the subscriber's id.
-- `Log` is in two parts, as its lock is: what it does under the lock, and the sends after it.
pub mod Ring
pub mod Delivery
mod Tests
use Prim.Native.String.{String}
use scpxy.Base.{
  ℕ, zero, suc, ◌+◌, ◌-◌, Bool, true, false, Option, none, some, List, [], ◌∷◌, ◌++◌, map, length,
  drop, ltb, ◌==◌, if◌then◌else◌, ◌>>=◌,
}
use scpxy.Base.Assoc.{lookup, insert, erase, nat_key, bytes_key}

pub data Level : Type 0 where
  debug info warn error : Level

abbrev pub rank : Level → ℕ
rank debug = 0
rank info = 1
rank warn = 2
rank error = 3

pub level_name : Level → String
level_name debug = "DEBUG"
level_name info = "INFO"
level_name warn = "WARN"
level_name error = "ERROR"

abbrev pub level_names : List (List ℕ × Level)
level_names =
    ((b'd' ∷ b'e' ∷ b'b' ∷ b'u' ∷ b'g' ∷ []), debug)
    ∷ ((b'i' ∷ b'n' ∷ b'f' ∷ b'o' ∷ []), info)
    ∷ ((b'w' ∷ b'a' ∷ b'r' ∷ b'n' ∷ []), warn)
    ∷ ((b'e' ∷ b'r' ∷ b'r' ∷ b'o' ∷ b'r' ∷ []), error)
    ∷ []

-- `to_lower` is `strings.ToLower` on the text's bytes.
unfoldable pub parse_level : (List ℕ → List ℕ) → List ℕ → Option Level
parse_level to_lower raw = lookup (to_lower raw) level_names

abbrev pub ring_size : ℕ
ring_size = 512

abbrev pub channel_size : ℕ
channel_size = 256

-- `message` is the text that `fmt.Sprintf` made.
pub record Entry : Type 0 where
  pub time : ℕ
  pub level : Level
  pub scope : List ℕ
  pub message : List ℕ

pub record Channel : Type 0 where
  pub queue : List Entry
  pub closed : Bool

pub record Bus : Type 0 where
  pub min_level : Level
  pub ring : List Entry
  pub subs : List (ℕ × ℕ)
  pub chans : List (ℕ × Channel)
  pub next : ℕ

unfoldable pub new_bus : Level → Bus
new_bus l = record { min_level = l; ring = []; subs = []; chans = []; next = 0 }

unfoldable pub set_level : Bus → Level → Bus
set_level b l = record b { min_level = l }

-- The id, which is also the name of the new channel.
unfoldable pub subscribe : Bus → Bus × ℕ
subscribe b = (
  record b {
    next = b.next + 1;
    subs = insert b.next b.next b.subs;
    chans = insert b.next (record { queue = []; closed = false }) b.chans;
  },
  b.next,
)

abbrev pub close_channel : Channel → Channel
close_channel c = record c { closed = true }

unfoldable pub update_channel : List (ℕ × Channel) → ℕ → (Channel → Channel) → List (ℕ × Channel)
update_channel cs c f = elim (lookup c cs) [ none ↦ cs | some ch ↦ insert c (f ch) cs ]

unfoldable pub unsubscribe : Bus → ℕ → Bus
unfolding update_channel
unsubscribe b id = elim (lookup id b.subs) [
  | none ↦ b
  | some c ↦ record b { subs = erase id b.subs; chans = update_channel b.chans c close_channel }
]

abbrev pub tail_of : List Entry → List Entry
tail_of [] = []
tail_of (e ∷ es) = es

-- The two tests of `Log`: at 512 entries the oldest goes, below that the ring grows.
unfoldable pub push_ring : List Entry → Entry → List Entry
push_ring ring e =
    let shifted = if length ring == ring_size then tail_of ring ++ (e ∷ []) else ring in
    if ltb (length shifted) ring_size then shifted ++ (e ∷ []) else shifted

-- Under the lock. `none` means that the entry is below the level; else the channels to send to.
unfoldable pub log_locked : Bus → Entry → Bus × Option (List ℕ)
log_locked b e =
    if ltb (rank e.level) (rank b.min_level)
    then (b, none)
    else (record b { ring = push_ring b.ring e }, some (map (λ s. s.1) b.subs))

-- One `select` with a default on one channel. `none` is Go's panic: a send on a closed channel.
unfoldable pub send : Bus → Entry → ℕ → Option Bus
send b e c = elim (lookup c b.chans) [
  | none ↦ none
  | some ch ↦
      if ch.closed
      then none
      else if ltb (length ch.queue) channel_size
      then some (record b { chans = insert c (record ch { queue = ch.queue ++ (e ∷ []) }) b.chans })
      else some b
]

unfoldable pub send_all : Bus → Entry → List ℕ → Option Bus
send_all b e [] = some b
send_all b e (c ∷ cs) = send b e c >>= λ b'. send_all b' e cs

-- `Log` with nothing between its two parts.
unfoldable pub log : Bus → Entry → Option Bus
unfolding log_locked
log b e =
    let (b', targets) = log_locked b e in
    elim targets [ none ↦ some b' | some cs ↦ send_all b' e cs ]

unfoldable pub history : Bus → List Entry
history b = b.ring
