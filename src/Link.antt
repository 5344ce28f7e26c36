-- ===== src/Link.antt =====
-- internal/proxy/link.go: an upstream socket that is kept for a client's next session. Links and
-- sessions go by numbers; `now` is the clock in nanoseconds, and `none` as an expiry Go's zero time.
use scpxy.Base.{ℕ, ◌+◌, ◌*◌, Bool, false, Option, none, some, List, [], ◌∷◌, ltb, if◌then◌else◌}
use scpxy.Base.Assoc.{lookup, insert, erase, nat_key, bytes_key}

abbrev pub link_lease_ttl : ℕ
link_lease_ttl = 45 * 1000000000

pub record Link : Type 0 where
  pub session : Option ℕ
  pub expires : Option ℕ

unfoldable pub bind : Link → ℕ → Link
bind l s = record l { session = some s; expires = none }

unfoldable pub release : Link → ℕ → Link
release l now = record l { session = none; expires = some (now + link_lease_ttl) }

unfoldable pub reusable : Link → ℕ → Bool
reusable l now = elim l.session [
  | some s ↦ false
  | none ↦ elim l.expires [ none ↦ false | some t ↦ ltb now t ]
]

unfoldable pub expired : Link → ℕ → Bool
expired l now = elim l.session [
  | some s ↦ false
  | none ↦ elim l.expires [ none ↦ false | some t ↦ ltb t now ]
]

-- The proxy's links by the client's address, what the links are, and how many there have been.
pub record Links : Type 0 where
  pub by_address : List (List ℕ × ℕ)
  pub store : List (ℕ × Link)
  pub count : ℕ

-- A new socket, where the system gives one.
unfoldable pub open_link : Links → List ℕ → Bool → Links × Option ℕ
open_link ls key opens =
    let n : ℕ = ls.count + 1 in
    if opens
    then (
      record ls {
        by_address = insert key n ls.by_address;
        store = insert n (record { session = none; expires = none }) ls.store;
        count = n;
      },
      some n,
    )
    else (ls, none)

-- `acquireLink`: the link, and the old ones that are stopped.
unfoldable pub acquire_link : Links → List ℕ → ℕ → Bool → Links × Option ℕ × List ℕ
acquire_link ls key now opens = elim (lookup key ls.by_address) [
  | none ↦ let r = open_link ls key opens in (r.0, r.1, [])
  | some n ↦ elim (lookup n ls.store) [
    | none ↦ (ls, none, [])
    | some l ↦
        let r = open_link (record ls { by_address = erase key ls.by_address }) key opens in
        if reusable l now then (ls, some n, []) else (r.0, r.1, n ∷ [])
  ]
]

-- One round of `sweepLinks`: the links that go, and those that stay.
unfoldable pub sweep : List (ℕ × Link) → ℕ → List (List ℕ × ℕ) → List (List ℕ × ℕ) × List ℕ
sweep store now [] = ([], [])
sweep store now ((key, n) ∷ m) =
    let rest = sweep store now m in
    elim (lookup n store) [
      | none ↦ ((key, n) ∷ rest.0, rest.1)
      | some l ↦ if expired l now then (rest.0, n ∷ rest.1) else ((key, n) ∷ rest.0, rest.1)
    ]

unfoldable pub sweep_links : Links → ℕ → Links × List ℕ
sweep_links ls now =
    let r = sweep ls.store now ls.by_address in (record ls { by_address = r.0 }, r.1)

-- `stopAllLinks`
unfoldable pub stop_all_links : Links → Links × List ℕ
stop_all_links ls = (record ls { by_address = [] }, numbers ls.by_address)
  where
    numbers : List (List ℕ × ℕ) → List ℕ
    numbers [] = []
    numbers ((key, n) ∷ m) = n ∷ numbers m
