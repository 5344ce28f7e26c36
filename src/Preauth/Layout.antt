-- ===== src/Preauth/Layout.antt =====
-- What `Parse` of preauth.go reads: the fields in order, and nothing behind them.
use scpxy.Base.{
  ℕ, ◌+◌, ◌^◌, ◌≤◌, ◌<◌, ◌≡◌, refl, false, List, [], ◌∷◌, ◌++◌, length, ltb, leb, arith,
  length-append, le→ltb, append_assoc,
}
use scpxy.Base.LittleEndian.{le_bytes}
use scpxy.Stream.{
  Reader, Read, ReadOr, ok, err, new_reader, read_byte, read_bool, read_int64, read_string,
  read_bytes_with_length, new_writer_from, put_string, put_uint16, put_raw,
}
use scpxy.Stream.Prefix.{
  IsStable, bind-IsStable, ok-IsStable, read_byte-IsStable, read_bool-IsStable, read_int64-IsStable,
  read_string-IsStable, read_bytes_with_length-IsStable,
}
use scpxy.Stream.RoundTrip.{
  Decodes, bind-Decodes, ok-Decodes, read_byte-Decodes, read_bool-Decodes, read_int64-Decodes,
  read_string-Decodes, read_bytes-Decodes, bool_byte, string_bytes, kept_string, length_prefixed,
}
use scpxy.Preauth.{
  PreAuth, PreAuthError, or_unsupported, at_most, parse_fields, parsed, parse, append_real_ip,
  max_challenge_length, max_user_id_length, max_region_length, max_signature_length,
}

or_unsupported-eq-ok {ℓ} :
    {A : Type ℓ} (o : Read A) (x : A × Reader) → or_unsupported o ≡ ok x → o ≡ ok x
or_unsupported-eq-ok (ok y) x e = cc
or_unsupported-eq-ok (err y) x e = absurd (cc)

module _ {ℓ} {A : Type ℓ} (f : Reader → Read A) where
  or_unsupported-IsStable : IsStable f → IsStable (λ r. or_unsupported (f r))
  or_unsupported-IsStable h r more v r' e =
      rw (h r more v r' (or_unsupported-eq-ok (f r) (v, r') e)) refl

  or_unsupported-Decodes :
      (enc : List ℕ) (v : A) → Decodes f enc v → Decodes (λ r. or_unsupported (f r)) enc v
  or_unsupported-Decodes enc v h = record { run = λ r xs e. rw (h.run r xs e) refl }

byte-IsStable : IsStable (λ r. or_unsupported (read_byte r))
byte-IsStable = or_unsupported-IsStable read_byte read_byte-IsStable

text-IsStable : IsStable (λ r. or_unsupported (read_string r))
text-IsStable = or_unsupported-IsStable read_string read_string-IsStable

at_most-IsStable : (n : ℕ) (v : List ℕ) → IsStable (at_most n v)
at_most-IsStable n v r more w r' e = ground arith

parse_fields-IsStable : IsStable parse_fields
unfolding parse_fields
parse_fields-IsStable = bind-IsStable _ _ byte-IsStable λ client.
    bind-IsStable _ _ byte-IsStable λ major. bind-IsStable _ _ byte-IsStable λ minor.
      bind-IsStable _ _ byte-IsStable λ revision.
        bind-IsStable _ _ (or_unsupported-IsStable read_bool read_bool-IsStable) λ compat.
          bind-IsStable _ _ byte-IsStable λ backward. bind-IsStable _ _ text-IsStable λ challenge.
            bind-IsStable _ _ (at_most-IsStable _ challenge) λ challenge_id.
              bind-IsStable _ _ text-IsStable λ user.
                bind-IsStable _ _ (at_most-IsStable _ user) λ user_id.
                  bind-IsStable _ _ (or_unsupported-IsStable read_int64 read_int64-IsStable)
                    λ expiration. bind-IsStable _ _ byte-IsStable λ flags.
                      bind-IsStable _ _ text-IsStable λ region_text.
                        bind-IsStable _ _ (at_most-IsStable _ region_text) λ region.
                          bind-IsStable _ _
                            (or_unsupported-IsStable read_bytes_with_length
                              read_bytes_with_length-IsStable)
                            λ signed.
                              bind-IsStable _ _ (at_most-IsStable _ signed)
                                λ signature. ok-IsStable _

parsed-eq-ok :
    (o : ReadOr PreAuthError PreAuth) (p : PreAuth)
    → parsed o ≡ ok p
    → (r : Reader) × (o ≡ ok (p, r))
parsed-eq-ok (ok (q, r)) p e = (r, cc)
parsed-eq-ok (err x) p e = absurd (cc)

-- What `Parse` makes of some connection data it also makes of the same data with bytes behind it.
pub parse-append : (raw more : List ℕ) (p : PreAuth) → parse raw ≡ ok p → parse (raw ++ more) ≡ ok p
unfolding parse new_reader
parse-append raw more p e =
    let long : ltb (length raw) 8 ≡ false = ground arith in
    let long' : ltb (length (raw ++ more)) 8 ≡ false = ground (arith, length-append raw more) in
    let (r, h) = parsed-eq-ok (parse_fields (new_reader raw)) p (ground arith) in
    rw (long', parse_fields-IsStable (new_reader raw) more p r h) refl

put_string-append :
    (raw v : List ℕ) → (put_string (new_writer_from raw) v).buf ≡ raw ++ string_bytes v
unfolding put_string put_uint16 put_raw new_writer_from string_bytes
put_string-append raw v = ground (arith, append_assoc raw (le_bytes 2 (length v + 1)) v)

-- `AppendRealIP` keeps the data of the client and adds the address as a text behind it, so
-- that the backend's reading of the client's fields is the proxy's.
pub parse-append_real_ip :
    (raw ip : List ℕ) (p : PreAuth)
    → parse raw ≡ ok p
    → (append_real_ip raw ip ≡ raw ++ string_bytes ip) × (parse (append_real_ip raw ip) ≡ ok p)
unfolding append_real_ip
parse-append_real_ip raw ip p e =
    let same = put_string-append raw ip in (same, rw same (parse-append raw (string_bytes ip) p e))

-- The bytes of a client's data.
pub layout : PreAuth → List ℕ
layout p =
    p.client_type
    ∷ p.major
    ∷ p.minor
    ∷ p.revision
    ∷ bool_byte p.backward_compat
    ∷ p.backward_rev
    ∷ (string_bytes p.challenge_id
        ++ (string_bytes p.user_id
            ++ (le_bytes 8 p.expiration
                ++ (p.flags ∷ (string_bytes p.region ++ (length_prefixed p.signature ++ []))))))

-- The limits of `Parse`, and 64 bits for the expiration.
pub record IsWithin (p : PreAuth) : Type 0 where
  pub challenge_fits : length p.challenge_id ≤ max_challenge_length
  pub user_fits : length p.user_id ≤ max_user_id_length
  pub region_fits : length p.region ≤ max_region_length
  pub signature_fits : length p.signature ≤ max_signature_length
  pub expiration_fits : p.expiration < 2 ^ 64

byte-Decodes : (b : ℕ) → Decodes (λ r. or_unsupported (read_byte r)) (b ∷ []) b
byte-Decodes b = or_unsupported-Decodes read_byte (b ∷ []) b (read_byte-Decodes b)

text-Decodes :
    (v : List ℕ)
    → length v < 65535
    → Decodes (λ r. or_unsupported (read_string r)) (string_bytes v) v
text-Decodes v h = or_unsupported-Decodes read_string (string_bytes v) v (
    unfold kept_string in
    (let short : leb 65535 (length v) ≡ false = ground arith in
      rw short at (read_string-Decodes v)))

at_most-Decodes : (n : ℕ) (v : List ℕ) → length v ≤ n → Decodes (at_most n v) [] v
at_most-Decodes n v h = record {
  run =
      λ r xs e. let t : ltb n (length v) ≡ false = ground arith in rw t ((ok-Decodes v).run r xs e);
}

parse_fields-layout : (p : PreAuth) → IsWithin p → Decodes parse_fields (layout p) p
unfolding parse_fields layout
parse_fields-layout p w = bind-Decodes _ _ (p.client_type ∷ []) _ _ _ (byte-Decodes p.client_type) (
    bind-Decodes _ _ (p.major ∷ []) _ _ _ (byte-Decodes p.major) (
      bind-Decodes _ _ (p.minor ∷ []) _ _ _ (byte-Decodes p.minor) (
        bind-Decodes _ _ (p.revision ∷ []) _ _ _ (byte-Decodes p.revision) (
          bind-Decodes _ _ (bool_byte p.backward_compat ∷ []) _ _ _
            (or_unsupported-Decodes read_bool _ _ (read_bool-Decodes p.backward_compat))
            (bind-Decodes _ _ (p.backward_rev ∷ []) _ _ _ (byte-Decodes p.backward_rev) (
              bind-Decodes _ _ (string_bytes p.challenge_id) _ _ _
                (text-Decodes p.challenge_id (omega arith))
                (bind-Decodes _ _ [] _ _ _
                  (at_most-Decodes max_challenge_length p.challenge_id w.challenge_fits)
                  (bind-Decodes _ _ (string_bytes p.user_id) _ _ _
                    (text-Decodes p.user_id (omega arith))
                    (bind-Decodes _ _ [] _ _ _
                      (at_most-Decodes max_user_id_length p.user_id w.user_fits)
                      (bind-Decodes _ _ (le_bytes 8 p.expiration) _ _ _
                        (or_unsupported-Decodes read_int64 _ _
                          (read_int64-Decodes p.expiration w.expiration_fits))
                        (bind-Decodes _ _ (p.flags ∷ []) _ _ _ (byte-Decodes p.flags) (
                          bind-Decodes _ _ (string_bytes p.region) _ _ _
                            (text-Decodes p.region (omega arith))
                            (bind-Decodes _ _ [] _ _ _
                              (at_most-Decodes max_region_length p.region w.region_fits)
                              (bind-Decodes _ _ (length_prefixed p.signature) _ _ _
                                (or_unsupported-Decodes read_bytes_with_length _ _
                                  (read_bytes-Decodes p.signature (omega arith)))
                                (bind-Decodes _ _ [] _ _ _
                                  (at_most-Decodes max_signature_length p.signature
                                    w.signature_fits)
                                  (ok-Decodes p))))))))))))))))

layout-long : (p : PreAuth) (more : List ℕ) → 8 ≤ length (layout p ++ more)
unfolding layout
layout-long p more =
    let tail = string_bytes p.region ++ (length_prefixed p.signature ++ []) in
    let stamp = le_bytes 8 p.expiration ++ (p.flags ∷ tail) in
    omega (
      arith,
      length-append (layout p) more,
      length-append (string_bytes p.challenge_id) (string_bytes p.user_id ++ stamp),
      length-append (string_bytes p.user_id) stamp,
    )

-- Data in the client's layout, with fields within the limits, is parsed to those fields, whatever
-- bytes follow it.
pub parse-layout : (p : PreAuth) (more : List ℕ) → IsWithin p → parse (layout p ++ more) ≡ ok p
unfolding parse new_reader
parse-layout p more w =
    let long : ltb (length (layout p ++ more)) 8 ≡ false = le→ltb _ _ (layout-long p more) in
    rw (long, (parse_fields-layout p w).run (new_reader (layout p ++ more)) more refl) refl
