-- ===== src/Preauth.antt =====
-- internal/preauth/preauth.go: the connection data of a game client. Text is its bytes, and an IP
-- address is the text that `ip.String()` returns.
pub mod Layout
pub mod Mask
mod Tests
use scpxy.Base.{
  ℕ, zero, suc, ◌+◌, ◌-◌, ◌/◌, ◌%◌, ◌≤◌, Bool, true, false, Option, none, some, List, [], ◌∷◌, ◌++◌,
  length, take, drop, replicate, ltb, leb, ◌==◌, if◌then◌else◌,
}
use scpxy.Stream.{
  Reader, Read, ReadOr, Result, ok, err, StreamError, ◌>>=◌, new_reader, read_byte, read_bool,
  read_int64, read_string, read_bytes_with_length, new_writer_from, put_string,
}

abbrev pub max_user_id_length : ℕ
max_user_id_length = 64

abbrev pub max_challenge_length : ℕ
max_challenge_length = 128

abbrev pub max_region_length : ℕ
max_region_length = 8

abbrev pub max_signature_length : ℕ
max_signature_length = 512

abbrev pub min_raw_pre_auth_length : ℕ
min_raw_pre_auth_length = 8

abbrev pub user_id_mask_keep : ℕ
user_id_mask_keep = 4

pub data PreAuthError : Type 0 where
  empty unsupported : PreAuthError

pub record PreAuth : Type 0 where
  pub client_type : ℕ
  pub major : ℕ
  pub minor : ℕ
  pub revision : ℕ
  pub backward_compat : Bool
  pub backward_rev : ℕ
  pub challenge_id : List ℕ
  pub user_id : List ℕ
  pub expiration : ℕ
  pub flags : ℕ
  pub region : List ℕ
  pub signature : List ℕ

-- The decimal digits of a number below `10 ^ fuel`, as `%d` prints it.
abbrev pub decimal : ℕ → ℕ → List ℕ
decimal zero n = []
decimal (suc fuel) n =
    let rest = decimal fuel (n / 10) in
    if ltb n 10 then (b'0' + n) ∷ [] else rest ++ ((b'0' + n % 10) ∷ [])

-- A byte has three digits at most.
unfoldable pub version : PreAuth → List ℕ
version p = decimal 3 p.major ++ (b'.' ∷ (decimal 3 p.minor ++ (b'.' ∷ decimal 3 p.revision)))

unfoldable pub mask_tail : List ℕ → List ℕ
mask_tail v =
    if leb (length v) user_id_mask_keep
    then replicate (length v) b'*'
    else replicate (length v - user_id_mask_keep) b'*' ++ drop (length v - user_id_mask_keep) v

-- `strings.LastIndex` for one byte; `none` is -1.
unfoldable pub last_index : List ℕ → ℕ → Option ℕ
last_index [] c = none
last_index (b ∷ bs) c = elim (last_index bs c) [
  | some i ↦ some (suc i)
  | none ↦ if b == c then some 0 else none
]

abbrev pub unknown_text : List ℕ
unknown_text = b'u' ∷ b'n' ∷ b'k' ∷ b'n' ∷ b'o' ∷ b'w' ∷ b'n' ∷ []

abbrev pub mask_at : List ℕ → Option ℕ → List ℕ
mask_at id none = mask_tail id
mask_at id (some zero) = mask_tail id
mask_at id (some (suc i)) = mask_tail (take (suc i) id) ++ drop (suc i) id

unfoldable pub masked_user_id : PreAuth → List ℕ
masked_user_id p =
    if length p.user_id == 0 then unknown_text else mask_at p.user_id (last_index p.user_id b'@')

-- `if … err != nil { return nil, ErrUnsupported }`
abbrev pub or_unsupported {ℓ} : {A : Type ℓ} → Read A → ReadOr PreAuthError A
or_unsupported (ok x) = ok x
or_unsupported (err e) = err unsupported

-- A text or slice that was read, refused when it is longer than `most`.
abbrev pub at_most : ℕ → List ℕ → Reader → ReadOr PreAuthError (List ℕ)
at_most most v r = if ltb most (length v) then err unsupported else ok (v, r)

pub parse_fields : Reader → ReadOr PreAuthError PreAuth
parse_fields r₀ = do
  (client_type, r₁) ← or_unsupported (read_byte r₀)
  (major, r₂) ← or_unsupported (read_byte r₁)
  (minor, r₃) ← or_unsupported (read_byte r₂)
  (revision, r₄) ← or_unsupported (read_byte r₃)
  (compat, r₅) ← or_unsupported (read_bool r₄)
  (backward_rev, r₆) ← or_unsupported (read_byte r₅)
  (challenge, r₇) ← or_unsupported (read_string r₆)
  (challenge_id, r₈) ← at_most max_challenge_length challenge r₇
  (user, r₉) ← or_unsupported (read_string r₈)
  (user_id, r₁₀) ← at_most max_user_id_length user r₉
  (expiration, r₁₁) ← or_unsupported (read_int64 r₁₀)
  (flags, r₁₂) ← or_unsupported (read_byte r₁₁)
  (region_text, r₁₃) ← or_unsupported (read_string r₁₂)
  (region, r₁₄) ← at_most max_region_length region_text r₁₃
  (signed, r₁₅) ← or_unsupported (read_bytes_with_length r₁₄)
  (signature, r₁₆) ← at_most max_signature_length signed r₁₅
  ok (
    record {
      client_type = client_type;
      major = major;
      minor = minor;
      revision = revision;
      backward_compat = compat;
      backward_rev = backward_rev;
      challenge_id = challenge_id;
      user_id = user_id;
      expiration = expiration;
      flags = flags;
      region = region;
      signature = signature;
    },
    r₁₆,
  )

abbrev parsed : ReadOr PreAuthError PreAuth → Result PreAuthError PreAuth
parsed (ok (p, r)) = ok p
parsed (err e) = err e

unfoldable pub parse : List ℕ → Result PreAuthError PreAuth
parse raw =
    if ltb (length raw) min_raw_pre_auth_length
    then err empty
    else parsed (parse_fields (new_reader raw))

unfoldable pub append_real_ip : List ℕ → List ℕ → List ℕ
append_real_ip raw ip = (put_string (new_writer_from raw) ip).buf
