-- ===== src/Wire/Tests.antt =====
-- Runs of internal/litenetlib/const.go.
use scpxy.Base.{◌≡◌, ◌↔◌, refl, arith}
use scpxy.Base.Int.{pos, negsuc}
use scpxy.Wire.{relative_sequence, max_packet_size}
use scpxy.Wire.Sequence.{LeadsTo, relative_sequence_iff}

around : relative_sequence 2 32767 ≡ pos 3
unfolding relative_sequence
around = refl

behind : relative_sequence 32760 5 ≡ negsuc 12
unfolding relative_sequence
behind = refl

largest : max_packet_size ≡ 1432
largest = refl

relative_sequence_iff_example : (relative_sequence 2 32767 ≡ pos 3) ↔ LeadsTo 32767 2 (pos 3)
relative_sequence_iff_example = relative_sequence_iff 2 32767 (pos 3) (omega arith) (omega arith)
