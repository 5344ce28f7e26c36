-- ===== src/Gate/Counts.antt =====
-- The session counts of gate.go against the list of the addresses that hold a session.
use scpxy.Base.{
  ℕ, suc, ◌+◌, ◌-◌, ◌≤◌, ◌<◌, ◌≡◌, refl, Option, List, [], ◌∷◌, if◌then◌else◌, arith, length,
}
use scpxy.Base.Assoc.{Key, lookup, insert, lookup-insert, lookup-erase}
use scpxy.Gate.{Options, Gate, acquire, release, count, or_zero, new_gate}

module _ {K : Type 0} ⦃e : Key K⦄ where
  -- How many sessions `k` holds, and one of them given back.
  unfoldable pub held : K → List K → ℕ
  held k [] = 0
  held k (h ∷ hs) = if e.beq h k then suc (held k hs) else held k hs

  unfoldable pub give_back : K → List K → List K
  give_back k [] = []
  give_back k (h ∷ hs) = if e.beq h k then hs else h ∷ give_back k hs

  pub held-give_back :
      (k j : K) (hs : List K)
      → 0 < held k hs
      → held j (give_back k hs) ≡ (if e.beq k j then held j hs - 1 else held j hs)
  unfolding held give_back
  held-give_back k j [] h = absurd (omega arith)
  held-give_back k j (i ∷ hs) h =
      ground (arith, e.beq_iff k j, e.beq_iff i k, e.beq_iff i j, held-give_back k j hs)

  pub length-give_back :
      (k : K) (hs : List K) → 0 < held k hs → length (give_back k hs) + 1 ≡ length hs
  unfolding held give_back
  length-give_back k [] h = absurd (omega arith)
  length-give_back k (i ∷ hs) h = ground (arith, length-give_back k hs)

  held-le-length : (k : K) (hs : List K) → held k hs ≤ length hs
  unfolding held
  held-le-length k [] = omega arith
  held-le-length k (i ∷ hs) = ground (arith, held-le-length k hs)

  module _ {F : Type 0} where
    -- The gate counts the holders `hs`: each address's sessions, and all of them.
    pub record Represents (g : Gate K F) (hs : List K) : Type 0 where
      pub counted : (k : K) → count g.sessions k ≡ held k hs
      pub summed : g.total ≡ length hs

    pub new_gate-Represents :
        (o : Options F) (parsed : List (Option K)) (now : ℕ) → Represents (new_gate o parsed now) []
    unfolding new_gate count held lookup
    new_gate-Represents o parsed now = record { counted = λ k. refl; summed = refl }

    -- `Acquire` adds a holder, and every address's count and the total stay right.
    pub acquire-Represents :
        (g : Gate K F) (k : K) (hs : List K) → Represents g hs → Represents (acquire g k) (k ∷ hs)
    unfolding acquire count held
    acquire-Represents g k hs r = record {
      counted = λ j. acquired j (r.counted k) (r.counted j);
      summed = omega (arith, r.summed);
    }
      where
        acquired :
            (j : K)
            → or_zero (lookup k g.sessions) ≡ held k hs
            → or_zero (lookup j g.sessions) ≡ held j hs
            → or_zero (lookup j (insert k (or_zero (lookup k g.sessions) + 1) g.sessions))
              ≡ held j (k ∷ hs)
        acquired j a b =
            ground (
              arith,
              e.beq_iff k j,
              lookup-insert k j (or_zero (lookup k g.sessions) + 1) g.sessions,
            )

    -- `Release` of an address that holds a session takes one of its sessions back, and every
    -- address's count and the total stay right.
    pub release-Represents :
        (g : Gate K F) (k : K) (hs : List K)
        → Represents g hs
        → 0 < held k hs
        → Represents (release g k) (give_back k hs)
    unfolding release count
    release-Represents g k hs r h = record {
      counted = λ j. released j (r.counted k) (r.counted j);
      summed = ground (arith, r.summed, length-give_back k hs h);
    }
      where
        released :
            (j : K)
            → or_zero (lookup k g.sessions) ≡ held k hs
            → or_zero (lookup j g.sessions) ≡ held j hs
            → or_zero (lookup j (release g k).sessions) ≡ held j (give_back k hs)
        released j a b = ground (
          arith,
          e.beq_iff k j,
          held-give_back k j hs h,
          lookup-insert k j (or_zero (lookup k g.sessions) - 1) g.sessions,
          lookup-erase k j g.sessions,
        )
