-- ===== src/Bus/Tests.antt =====
-- Runs of internal/events/bus.go.
use scpxy.Base.{ℕ, ◌≡◌, ◌≤◌, refl, false, some, none, List, [], ◌∷◌, map, arith}
use scpxy.Base.Assoc.{lookup, insert, nat_key}
use scpxy.Bus.{
  Bus, Entry, Level, debug, info, warn, error, parse_level, rank, new_bus, subscribe, unsubscribe,
  log_locked, log, send, history, push_ring,
}
use scpxy.Bus.Ring.{last_n, accepted, log_history, history-log_history}
use scpxy.Bus.Delivery.{Inv, IsOpen, new_bus-Inv, subscribe-Inv, log-Inv, log_races_unsubscribe}

abbrev entry : Level → ℕ → Entry
entry l t = record { time = t; level = l; scope = []; message = [] }

lowered : parse_level (λ raw. raw) (b'w' ∷ b'a' ∷ b'r' ∷ b'n' ∷ []) ≡ some warn
unfolding parse_level lookup
lowered = refl

abbrev logged : List Entry
logged = entry info 1 ∷ entry debug 2 ∷ entry error 3 ∷ []

history-log_history_example :
    history (log_history (new_bus info) logged) ≡ last_n 512 (accepted info logged)
history-log_history_example = history-log_history info logged

two_kept : history (log_history (new_bus info) logged) ≡ (entry info 1 ∷ entry error 3 ∷ [])
unfolding history log_history log_locked push_ring new_bus
two_kept = refl

abbrev one_subscriber : Bus
one_subscriber = (subscribe (new_bus info)).0

one_subscriber-Inv : Inv one_subscriber
one_subscriber-Inv = subscribe-Inv (new_bus info) (new_bus-Inv info)

log-Inv_example :
    (b' : Bus) × (log one_subscriber (entry warn 1) ≡ some b')
    × Inv b'
    × (b'.ring ≡ (log_locked one_subscriber (entry warn 1)).0.ring)
log-Inv_example = log-Inv one_subscriber (entry warn 1) one_subscriber-Inv

first_subscriber : lookup 0 one_subscriber.subs ≡ some 0
unfolding subscribe new_bus lookup insert
first_subscriber = refl

first_channel : IsOpen one_subscriber.chans 0
unfolding subscribe new_bus lookup insert
first_channel = (record { queue = []; closed = false }, refl, refl, omega arith)

warn_passes : rank one_subscriber.min_level ≤ rank warn
unfolding subscribe new_bus
warn_passes = omega arith

log_races_unsubscribe_example :
    ((log_locked one_subscriber (entry warn 1)).1 ≡ some (map (λ s. s.1) one_subscriber.subs))
    × (send (unsubscribe (log_locked one_subscriber (entry warn 1)).0 0) (entry warn 1) 0 ≡ none)
log_races_unsubscribe_example =
    log_races_unsubscribe one_subscriber (entry warn 1) 0 0 first_subscriber first_channel
      warn_passes
