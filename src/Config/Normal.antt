-- ===== src/Config/Normal.antt =====
-- What `Normalize` of config.go establishes.
use scpxy.Base.{
  ℕ, ◌+◌, ◌≡◌, refl, sym, ◌∙◌, true, false, Option, none, some, List, [], ◌∷◌, length, ◌==◌, arith,
  All, inl, inr, Bool-cases, Option-cases,
}
use scpxy.Stream.{Result, ok, err, ◌>>=◌}
use scpxy.Config.{
  BackendConfig, ConfigError, unnamed, duplicate, bad_address, has_text, filled, is_zero,
  normalize_backends,
}

-- A backend as the proxy may use it: it has a name and an address that was resolved, and its two
-- numbers are not 0.
pub record Ready (resolve : List ℕ → Option (List ℕ)) (b : BackendConfig) : Type 0 where
  pub named : (length b.name == 0) ≡ false
  pub is_resolved : resolve b.address ≡ b.resolved
  pub has_address : (addr : List ℕ) × (b.resolved ≡ some addr)
  pub checks : is_zero b.health_interval ≡ false
  pub fails : is_zero b.health_failures ≡ false

-- No name comes twice, and none is among those seen.
pub Distinct : List (List ℕ) → List BackendConfig → Type 0
Distinct seen [] = Unit {0}
Distinct seen (b ∷ bs) = (has_text b.name seen ≡ false) × Distinct (b.name ∷ seen) bs

filled-Ready :
    (resolve : List ℕ → Option (List ℕ)) (b : BackendConfig) (addr : List ℕ)
    → (length b.name == 0) ≡ false
    → resolve b.address ≡ some addr
    → Ready resolve (filled b addr)
filled-Ready resolve b addr named found = record {
  named = named;
  is_resolved = found;
  has_address = (addr, refl);
  checks = elim (Bool-cases (is_zero b.health_interval)) [ inl z ↦ rw z refl | inr n ↦ rw n n ];
  fails = elim (Bool-cases (is_zero b.health_failures)) [ inl z ↦ rw z refl | inr n ↦ rw n n ];
}

bind-ok :
    (r : Result ConfigError (List BackendConfig)) (b : BackendConfig) (out : List BackendConfig)
    → (r >>= λ rest. ok (b ∷ rest)) ≡ ok out
    → (rest : List BackendConfig) × (r ≡ ok rest) × (out ≡ b ∷ rest)
bind-ok (ok rest) b out e = (rest, refl, cc e)
bind-ok (err x) b out e = absurd (cc e)

-- The loop where it does not refuse the backend.
loop_next :
    (resolve : List ℕ → Option (List ℕ)) (seen : List (List ℕ)) (i : ℕ) (b : BackendConfig)
    (bs : List BackendConfig) (addr : List ℕ)
    → (length b.name == 0) ≡ false
    → has_text b.name seen ≡ false
    → resolve b.address ≡ some addr
    → normalize_backends resolve seen i (b ∷ bs) ≡ (
        normalize_backends resolve (b.name ∷ seen) (i + 1) bs >>= λ rest. ok (filled b addr ∷ rest))
unfolding normalize_backends
loop_next resolve seen i b bs addr named new found = rw (named, new, found, normalize_backends) refl

loop_unnamed :
    (resolve : List ℕ → Option (List ℕ)) (seen : List (List ℕ)) (i : ℕ) (b : BackendConfig)
    (bs : List BackendConfig)
    → (length b.name == 0) ≡ true
    → normalize_backends resolve seen i (b ∷ bs) ≡ err (unnamed i)
unfolding normalize_backends
loop_unnamed resolve seen i b bs z = rw z refl

loop_duplicate :
    (resolve : List ℕ → Option (List ℕ)) (seen : List (List ℕ)) (i : ℕ) (b : BackendConfig)
    (bs : List BackendConfig)
    → (length b.name == 0) ≡ false
    → has_text b.name seen ≡ true
    → normalize_backends resolve seen i (b ∷ bs) ≡ err (duplicate b.name)
unfolding normalize_backends
loop_duplicate resolve seen i b bs n old = rw (n, old) refl

loop_unresolved :
    (resolve : List ℕ → Option (List ℕ)) (seen : List (List ℕ)) (i : ℕ) (b : BackendConfig)
    (bs : List BackendConfig)
    → (length b.name == 0) ≡ false
    → has_text b.name seen ≡ false
    → resolve b.address ≡ none
    → normalize_backends resolve seen i (b ∷ bs) ≡ err (bad_address b.name)
unfolding normalize_backends
loop_unresolved resolve seen i b bs n new missing = rw (n, new, missing, normalize_backends) refl

-- Where the loop of `Normalize` accepts the backends, each has a name, which no other has and which is
-- not among those seen, an address that the resolver accepts, with its result, and neither its
-- failure limit nor its check interval is 0. None is lost.
pub normalize_backends-Ready :
    (bs : List BackendConfig) (resolve : List ℕ → Option (List ℕ)) (seen : List (List ℕ)) (i : ℕ)
    (out : List BackendConfig)
    → normalize_backends resolve seen i bs ≡ ok out
    → All (Ready resolve) out × Distinct seen out × (length out ≡ length bs)
unfolding normalize_backends Distinct
normalize_backends-Ready [] resolve seen i out e =
    let none_left : [] ≡ out = cc e in rw (← none_left) (tt, tt, refl)
normalize_backends-Ready (b ∷ bs) resolve seen i out e = elim (Bool-cases (length b.name == 0)) [
  | inl z ↦ absurd (cc (loop_unnamed resolve seen i b bs z, e))
  | inr n ↦ elim (Bool-cases (has_text b.name seen)) [
    | inl old ↦ absurd (cc (loop_duplicate resolve seen i b bs n old, e))
    | inr new ↦ elim (Option-cases (resolve b.address)) [
      | inl missing ↦ absurd (cc (loop_unresolved resolve seen i b bs n new missing, e))
      | inr (addr, found) ↦
          let (rest, ran, is_out) =
            bind-ok (normalize_backends resolve (b.name ∷ seen) (i + 1) bs) (filled b addr) out
              (sym (loop_next resolve seen i b bs addr n new found) ∙ e) in
          let (ready, distinct, l) =
            normalize_backends-Ready bs resolve (b.name ∷ seen) (i + 1) rest ran in
          rw is_out
            ((filled-Ready resolve b addr n found, ready), (new, distinct), omega (arith, l))
    ]
  ]
]
