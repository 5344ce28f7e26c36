-- ===== src/Preauth/Tests.antt =====
-- Runs of internal/preauth/preauth.go.
use scpxy.Base.{ℕ, ◌≡◌, refl, true, List, [], ◌∷◌, ◌++◌, length, get_elem?, some, arith}
use scpxy.Stream.{ok, err}
use scpxy.Stream.RoundTrip.{string_bytes}
use scpxy.Preauth.{
  PreAuth, parse, append_real_ip, mask_tail, last_index, masked_user_id, version, empty,
}
use scpxy.Preauth.Layout.{layout, IsWithin, parse-append_real_ip, parse-layout}
use scpxy.Preauth.Mask.{IsHidden, mask_tail_lem}

-- "765611@steam"
abbrev user : List ℕ
user = b'7' ∷ b'6' ∷ b'5' ∷ b'6' ∷ b'1' ∷ b'1' ∷ b'@' ∷ b's' ∷ b't' ∷ b'e' ∷ b'a' ∷ b'm' ∷ []

abbrev client : PreAuth
client = record {
  client_type = 0;
  major = 14;
  minor = 1;
  revision = 3;
  backward_compat = true;
  backward_rev = 2;
  challenge_id = [];
  user_id = user;
  expiration = 1700000000;
  flags = 1;
  region = b'E' ∷ b'U' ∷ [];
  signature = 1 ∷ 2 ∷ 3 ∷ [];
}

client-IsWithin : IsWithin client
client-IsWithin = record {
  challenge_fits = omega arith;
  user_fits = omega arith;
  region_fits = omega arith;
  signature_fits = omega arith;
  expiration_fits = omega arith;
}

-- "**5611@steam"
shown :
    masked_user_id client
    ≡ (b'*' ∷ b'*' ∷ b'5' ∷ b'6' ∷ b'1' ∷ b'1' ∷ b'@' ∷ b's' ∷ b't' ∷ b'e' ∷ b'a' ∷ b'm' ∷ [])
unfolding masked_user_id last_index mask_tail
shown = refl

-- "14.1.3"
client-version : version client ≡ (b'1' ∷ b'4' ∷ b'.' ∷ b'1' ∷ b'.' ∷ b'3' ∷ [])
unfolding version
client-version = refl

too_short : parse (1 ∷ 2 ∷ 3 ∷ []) ≡ err empty
unfolding parse
too_short = refl

parse-layout_example : parse (layout client ++ (4 ∷ 5 ∷ [])) ≡ ok client
parse-layout_example = parse-layout client (4 ∷ 5 ∷ []) client-IsWithin

-- "1.2.3.4"
abbrev address : List ℕ
address = b'1' ∷ b'.' ∷ b'2' ∷ b'.' ∷ b'3' ∷ b'.' ∷ b'4' ∷ []

abbrev client_data : List ℕ
client_data = layout client ++ []

parse-append_real_ip_example :
    (append_real_ip client_data address ≡ client_data ++ string_bytes address)
    × (parse (append_real_ip client_data address) ≡ ok client)
parse-append_real_ip_example =
    parse-append_real_ip client_data address client (parse-layout client [] client-IsWithin)

mask_tail_lem_example :
    (length (mask_tail user) ≡ length user)
    × (IsHidden (length user) 2 → get_elem? (mask_tail user) 2 ≡ some b'*')
    × (¬ IsHidden (length user) 2 → get_elem? (mask_tail user) 2 ≡ get_elem? user 2)
mask_tail_lem_example = mask_tail_lem user 2 (omega arith)
