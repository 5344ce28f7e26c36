-- ===== src/Wire/Sequence.antt =====
-- What `relativeSequence` of internal/litenetlib/const.go computes.
use scpxy.Base.{ℕ, ◌+◌, ◌%◌, ◌<◌, ◌≡◌, ◌↔◌, arith}
use scpxy.Base.Int.{ℤ, pos, negsuc}
use scpxy.Wire.{max_sequence, half_max_sequence, relative_sequence}

abbrev pub IsSequence : ℕ → Type 0
IsSequence s = s < max_sequence

-- The distance `k` is the one in -16384 .. 16383 that leads from `expected` to `number`.
abbrev pub LeadsTo : ℕ → ℕ → ℤ → Type 0
LeadsTo e n (pos k) = (k < half_max_sequence) × ((e + k) % max_sequence ≡ n)
LeadsTo e n (negsuc k) = (k < half_max_sequence) × ((n + k + 1) % max_sequence ≡ e)

pub relative_sequence-LeadsTo :
    (n e : ℕ) → IsSequence n → IsSequence e → LeadsTo e n (relative_sequence n e)
unfolding relative_sequence
relative_sequence-LeadsTo n e hn he = ground arith

pub relative_sequence_ahead :
    (e k : ℕ)
    → IsSequence e
    → k < half_max_sequence
    → relative_sequence ((e + k) % max_sequence) e ≡ pos k
unfolding relative_sequence
relative_sequence_ahead e k he hk = ground arith

pub relative_sequence_behind :
    (n k : ℕ)
    → IsSequence n
    → k < half_max_sequence
    → relative_sequence n ((n + k + 1) % max_sequence) ≡ negsuc k
unfolding relative_sequence
relative_sequence_behind n k hn hk = ground arith

-- `relativeSequence` of two sequence numbers is `z` exactly when `z` is a distance in
-- -16384 .. 16383 that leads from `expected` to `number` on the circle of 32768 numbers.
pub relative_sequence_iff :
    (n e : ℕ) (z : ℤ) → IsSequence n → IsSequence e → (relative_sequence n e ≡ z) ↔ LeadsTo e n z
relative_sequence_iff n e (pos k) hn he = (
  λ h. rw h at (relative_sequence-LeadsTo n e hn he),
  λ (l, named). rw named at (relative_sequence_ahead e k he l),
)
relative_sequence_iff n e (negsuc k) hn he = (
  λ h. rw h at (relative_sequence-LeadsTo n e hn he),
  λ (l, named). rw named at (relative_sequence_behind n k hn l),
)
