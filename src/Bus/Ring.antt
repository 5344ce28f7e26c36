-- ===== src/Bus/Ring.antt =====
-- The ring of bus.go keeps the latest entries.
use scpxy.Base.{
  ℕ, zero, suc, ◌-◌, ◌≤◌, ◌<◌, ◌≡◌, refl, ap, sym, ◌∙◌, List, [], ◌∷◌, ◌++◌, length, drop, ltb,
  if◌then◌else◌, arith, length-append, length-drop, append_assoc, append-nil, inl, inr, Bool-cases,
}
use scpxy.Bus.{Bus, Entry, Level, rank, ring_size, push_ring, tail_of, log_locked, history, new_bus}

-- The last `n` entries of a list.
unfoldable pub last_n : ℕ → List Entry → List Entry
last_n n xs = drop (length xs - n) xs

drop-append_le : (k : ℕ) (xs ys : List Entry) → k ≤ length xs → drop k (xs ++ ys) ≡ drop k xs ++ ys
drop-append_le zero xs ys h = refl
drop-append_le (suc k) [] ys h = absurd (omega arith)
drop-append_le (suc k) (x ∷ xs) ys h = drop-append_le k xs ys (omega arith)

tail_of-drop : (k : ℕ) (xs : List Entry) → tail_of (drop k xs) ≡ drop (suc k) xs
tail_of-drop zero [] = refl
tail_of-drop zero (x ∷ xs) = refl
tail_of-drop (suc k) [] = refl
tail_of-drop (suc k) (x ∷ xs) = tail_of-drop k xs

-- On a ring that is not full the entry is added, on a full one it takes the oldest entry's place.
push_ring_short :
    (ring : List Entry) (e : Entry) → length ring < ring_size → push_ring ring e ≡ ring ++ (e ∷ [])
unfolding push_ring
push_ring_short ring e h = ground arith

push_ring_full :
    (ring : List Entry) (e : Entry)
    → length ring ≡ ring_size
    → push_ring ring e ≡ tail_of ring ++ (e ∷ [])
unfolding push_ring
push_ring_full [] e h = absurd (omega arith)
push_ring_full (r ∷ rs) e h = ground (arith, length-append rs (e ∷ []))

push_ring-last_n :
    (xs : List Entry) (e : Entry)
    → push_ring (last_n ring_size xs) e ≡ last_n ring_size (xs ++ (e ∷ []))
unfolding last_n
push_ring-last_n xs e = elim (Bool-cases (ltb (length xs) ring_size)) [
  | inl short ↦
      let h : length xs < ring_size = ground arith in
      let z : length xs - ring_size ≡ 0 = omega arith in
      let z' : length (xs ++ (e ∷ [])) - ring_size ≡ 0 = omega (arith, length-append xs (e ∷ [])) in
      rw (z, z') (push_ring_short xs e h)
  | inr full ↦
      let h : ring_size ≤ length xs = ground arith in
      let k = length xs - ring_size in
      let n : length (xs ++ (e ∷ [])) - ring_size ≡ suc k =
        omega (arith, length-append xs (e ∷ [])) in
      rw n (
        push_ring_full (drop k xs) e (omega (arith, length-drop k xs))
        ∙ ap (λ t. t ++ (e ∷ [])) (tail_of-drop k xs)
        ∙ sym (drop-append_le (suc k) xs (e ∷ []) (omega arith)))
]

-- The entries of a history at or above a level.
pub accepted : Level → List Entry → List Entry
accepted l [] = []
accepted l (e ∷ es) = if ltb (rank e.level) (rank l) then accepted l es else e ∷ accepted l es

-- A history of locked parts of `Log`.
unfoldable pub log_history : Bus → List Entry → Bus
log_history b [] = b
log_history b (e ∷ es) = log_history (log_locked b e).0 es

log_history-ring :
    (es xs : List Entry) (b : Bus)
    → b.ring ≡ last_n ring_size xs
    → history (log_history b es) ≡ last_n ring_size (xs ++ accepted b.min_level es)
unfolding log_history accepted history log_locked
log_history-ring [] xs b h = rw append-nil h
log_history-ring (e ∷ es) xs b h = elim (Bool-cases (ltb (rank e.level) (rank b.min_level))) [
  | inl low ↦ rw low (log_history-ring es xs b h)
  | inr kept ↦
      let b' = record b { ring = push_ring b.ring e } in
      rw kept (
        log_history-ring es (xs ++ (e ∷ [])) b' (ap (λ r. push_ring r e) h ∙ push_ring-last_n xs e)
        ∙ ap (last_n ring_size) (append_assoc xs (e ∷ []) (accepted b.min_level es)))
]

-- Whatever is logged on a new bus, the history is the last 512 of the entries at or above the
-- bus's level, oldest first.
pub history-log_history :
    (l : Level) (es : List Entry)
    → history (log_history (new_bus l) es) ≡ last_n ring_size (accepted l es)
unfolding new_bus last_n
history-log_history l es = log_history-ring es [] (new_bus l) refl
