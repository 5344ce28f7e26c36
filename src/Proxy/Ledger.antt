-- ===== src/Proxy/Ledger.antt =====
-- From `New` of internal/proxy/proxy.go on, the accounts are right.
use scpxy.Base.{ℕ, zero, suc, ◌≡◌, refl, List, [], ◌∷◌, Option, some, arith, Bool-cases, inl, inr}
use scpxy.Base.Assoc.{bytes_key, lookup}
use scpxy.Base.Int.{ltb_ℤ}
use scpxy.Gate.{Floats, Options, new_gate, count}
use scpxy.Gate.Counts.{held}
use scpxy.Config.{BackendConfig}
use scpxy.Backend.{Backend, new_backend, new_backend_pool, slice_stable, insert_by_priority}
use scpxy.Proxy.{Proxy, new_proxy}
use scpxy.Proxy.Open.{open_ips, on_backend}
use scpxy.Proxy.Accounts.{Accounts, players_at}
use scpxy.Proxy.Traces.{Call, run, run-Balanced}

abbrev Empty : List Backend → Type 0
Empty pool = (b n : ℕ) → players_at pool b ≡ some n → n ≡ 0

cons-Empty : (c : Backend) (cs : List Backend) → c.players ≡ 0 → Empty cs → Empty (c ∷ cs)
unfolding players_at
cons-Empty c cs none_yet rest zero n h = ground (arith, h, none_yet)
cons-Empty c cs none_yet rest (suc b) n h = rest b n h

tail-Empty : (c : Backend) (cs : List Backend) → Empty (c ∷ cs) → Empty cs
unfolding players_at
tail-Empty c cs all b n h = all (suc b) n h

insert_by_priority-Empty :
    (b : Backend) (pool : List Backend)
    → b.players ≡ 0
    → Empty pool
    → Empty (insert_by_priority b pool)
unfolding insert_by_priority players_at
insert_by_priority-Empty b [] none_yet all = cons-Empty b [] none_yet all
insert_by_priority-Empty b (c ∷ cs) none_yet all =
    let later =
      cons-Empty c (insert_by_priority b cs) (all 0 c.players refl)
        (insert_by_priority-Empty b cs none_yet (tail-Empty c cs all)) in
    elim (Bool-cases (ltb_ℤ c.cfg.priority b.cfg.priority)) [
      | inl e ↦ rw (e, insert_by_priority) later
      | inr e ↦ rw (e, insert_by_priority) (cons-Empty b (c ∷ cs) none_yet all)
    ]

new_backend_pool-Empty : (cfgs : List BackendConfig) → Empty (new_backend_pool cfgs)
unfolding new_backend_pool slice_stable new_backend players_at
new_backend_pool-Empty [] b n h = absurd (cc h)
new_backend_pool-Empty (c ∷ cs) b n h =
    insert_by_priority-Empty (new_backend c) (new_backend_pool cs) refl (new_backend_pool-Empty cs)
      b n h

module _ (fl : Floats) where
  open fl use {F}

  -- Whatever requests, answers, messages, ends and console calls a new proxy handles, one after the
  -- other: the gate counts for each address the sessions that are open, its total is the number of them
  -- all, and each backend's players are its open sessions.
  pub run-Accounts :
      (o : Options F) (parsed : List (Option (List ℕ))) (start : ℕ) (cfgs : List BackendConfig)
      (cs : List (Call × ℕ))
      → let p : Proxy F = run fl (new_proxy (new_gate o parsed start) (new_backend_pool cfgs)) cs in
        Accounts p.gate p.pool p.store p.next_id
  unfolding new_proxy new_gate open_ips on_backend count held lookup
  run-Accounts o parsed start cfgs cs =
      run-Balanced fl (new_proxy (new_gate o parsed start) (new_backend_pool cfgs)) cs record {
        represents = record { counted = λ k. refl; summed = refl };
        players_are = new_backend_pool-Empty cfgs;
        fresh = λ j h. refl;
      }
