-- ===== src/Peer/Growth.antt =====
-- The MTU of a peer of peer.go over its life: one of the table, and never smaller than before.
use scpxy.Base.{
  ℕ, ◌+◌, ◌-◌, ◌^◌, ◌≤◌, ◌≡◌, refl, true, false, not, ◌||◌, Bool, Option, some, List, [], ◌∷◌, ◌++◌,
  get_elem?, get_elem?-some, set, leb, ltb, ◌==◌, if◌then◌else◌, ◌>>=◌, arith, inl, inr, Bool-cases,
  Option-cases, bit_and, bit_or,
}
use scpxy.Base.LittleEndian.{le_value}
use scpxy.Base.Slice.{read-some}
use scpxy.Wire.{possible_mtu, max_packet_size, mtu_check_delay, max_mtu_check_attempts}
use scpxy.Packet.{Packet, packet, size, property, set_property, prop_mtu_ok, prop_mtu_check}
use scpxy.Peer.{Mtu, Call, send_raw, set_mtu}
use scpxy.Peer.Connect.{uint_at}
use scpxy.Peer.Discovery.{process_mtu_packet, raise_mtu, update_mtu_logic}
use scpxy.Peer.Probe.{IsMtu, probe_bytes, mtu_probe-bytes, table_bounds, table_grows}

-- What happens to a peer's MTU: a packet of either kind, and the clock.
pub data Event : Type 0 where
  arrives : Packet → Event
  ticks : Bool → ℕ → Event

pub event : Bool → Mtu → Event → Option (Mtu × List Call)
event disable_mtu m (arrives p) = process_mtu_packet disable_mtu m p
event disable_mtu m (ticks accepted delta) = update_mtu_logic disable_mtu accepted delta m

pub run : Bool → Mtu → List Event → Option (Mtu × List Call)
run disable_mtu m [] = some (m, [])
run disable_mtu m (e ∷ es) =
    event disable_mtu m e >>= λ r. run disable_mtu r.0 es >>= λ rest. some (rest.0, r.1 ++ rest.1)

-- The MTU stays one of the table and never falls.
pub record Grows (m : Mtu) (result : Option (Mtu × List Call)) : Type 0 where
  pub next : Mtu
  pub calls : List Call
  pub returns : result ≡ some (next, calls)
  pub is_mtu : IsMtu next
  pub not_less : m.mtu ≤ next.mtu

raise_mtu-Grows :
    (m : Mtu) (n : ℕ)
    → IsMtu m
    → (m' : Mtu) × (raise_mtu m n ≡ some m') × IsMtu m' × (m.mtu ≤ m'.mtu)
unfolding raise_mtu set_mtu
raise_mtu-Grows m n h = elim (Bool-cases (leb n m.mtu || m.finish_mtu)) [
  | inl no_more ↦ (m, rw (no_more, raise_mtu) refl, h, omega arith)
  | inr more ↦ elim (Option-cases (get_elem? possible_mtu (m.mtu_idx + 1))) [
    | inl last ↦ (m, rw (more, raise_mtu, last) refl, h, omega arith)
    | inr (next, there) ↦ elim (Bool-cases (n == next)) [
      | inr other ↦ (m, rw (more, raise_mtu, there, other) refl, h, omega arith)
      | inl same ↦
          let grows = table_grows m.mtu_idx m.mtu next h there in
          (
            record m { mtu_idx = m.mtu_idx + 1; mtu = next; finish_mtu = finishes },
            rw (more, raise_mtu, there, same) (ground (arith, there)),
            there,
            omega arith,
          )
    ]
  ]
]
  where
    finishes : Bool
    finishes = if m.mtu_idx + 1 == 5 then true else m.finish_mtu

ticks_same :
    (off accepted : Bool) (delta : ℕ) (m : Mtu)
    → (m' : Mtu) × (calls : List Call) × (update_mtu_logic off accepted delta m ≡ some (m', calls))
      × (m'.mtu_idx ≡ m.mtu_idx)
      × (m'.mtu ≡ m.mtu)
unfolding update_mtu_logic
ticks_same true accepted delta m = (record m { finish_mtu = true }, [], refl, refl, refl)
ticks_same false accepted delta m = elim (Bool-cases m.finish_mtu) [
  | inl done ↦ (m, [], rw (update_mtu_logic, done) refl, refl, refl)
  | inr open_ ↦ elim (Bool-cases (ltb (m.mtu_timer + delta) mtu_check_delay)) [
    | inl early ↦ (record m { mtu_timer = m.mtu_timer + delta }, [], ground arith, refl, refl)
    | inr due ↦ elim (Bool-cases (leb max_mtu_check_attempts (m.mtu_attempts + 1))) [
      | inl enough ↦ (
        record m { mtu_timer = 0; mtu_attempts = m.mtu_attempts + 1; finish_mtu = true },
        [],
        ground arith,
        refl,
        refl,
      )
      | inr more ↦ elim (Option-cases (get_elem? possible_mtu (m.mtu_idx + 1))) [
        | inl last ↦ (
          record m { mtu_timer = 0; mtu_attempts = m.mtu_attempts + 1 },
          [],
          ground (arith, last),
          refl,
          refl,
        )
        | inr (next, there) ↦
            let (large, small, within) = table_bounds (m.mtu_idx + 1) next there in
            let probe = mtu_probe-bytes next large small in
            (
              record m {
                mtu_timer = 0;
                mtu_attempts = m.mtu_attempts + 1;
                finish_mtu = if accepted then m.finish_mtu else true;
              },
              send_raw (probe_bytes next large small) ∷ [],
              ground (arith, there, probe),
              refl,
              refl,
            )
      ]
    ]
  ]
]

stays-Grows :
    (m m' : Mtu) (calls : List Call) (result : Option (Mtu × List Call))
    → IsMtu m
    → result ≡ some (m', calls)
    → m'.mtu_idx ≡ m.mtu_idx
    → m'.mtu ≡ m.mtu
    → Grows m result
stays-Grows m m' calls result h e same_idx same = record {
  next = m';
  calls = calls;
  returns = e;
  is_mtu = rw (same_idx, same) h;
  not_less = omega arith;
}

-- A packet whose sizes and kind are read.
arrival-Grows :
    (off : Bool) (m : Mtu) (p : Packet) (front back kind : ℕ)
    → IsMtu m
    → ltb (size p) 1024 ≡ false
    → uint_at p 4 1 ≡ some front
    → uint_at p 4 (size p - 4) ≡ some back
    → property p ≡ some kind
    → (q : Packet) × (set_property p prop_mtu_ok ≡ some q)
    → Grows m (process_mtu_packet off m p)
unfolding process_mtu_packet
arrival-Grows off m p front back kind h large f b k (q, made) =
    elim (Bool-cases (
      leb (2 ^ 31) front
      || (not (front == size p) || (not (front == back) || ltb max_packet_size front)))) [
        | inl bad ↦
            stays-Grows m m [] _ h (rw (large, process_mtu_packet, f, b, ◌>>=◌, bad) refl) refl refl
        | inr good ↦ elim (Bool-cases off) [
          | inl off_is ↦
              stays-Grows m m [] _ h
                (rw (large, process_mtu_packet, f, b, ◌>>=◌, good, off_is) refl) refl refl
          | inr on ↦ elim (Bool-cases (kind == prop_mtu_check)) [
            | inl check ↦
                stays-Grows m (record m { mtu_attempts = 0 }) (send_raw q.bytes ∷ []) _ h
                  (rw (large, process_mtu_packet, f, b, ◌>>=◌, good, on, k, ◌>>=◌, check, made)
                    refl)
                  refl refl
            | inr ok ↦
                let (m', raised, is_mtu, grows) = raise_mtu-Grows m front h in
                record {
                  next = m';
                  calls = [];
                  returns =
                      rw (large, process_mtu_packet, f, b, ◌>>=◌, good, on, k, ◌>>=◌, ok, raised)
                        refl;
                  is_mtu = is_mtu;
                  not_less = grows;
                }
          ]
        ]
      ]

packet-Grows : (off : Bool) (m : Mtu) (p : Packet) → IsMtu m → Grows m (process_mtu_packet off m p)
unfolding process_mtu_packet property set_property
packet-Grows off m p h = elim (Bool-cases (ltb (size p) 1024)) [
  | inl small ↦ stays-Grows m m [] _ h (rw (small, process_mtu_packet) refl) refl refl
  | inr large ↦
      let (front, f, four) = read-some 4 p.bytes 1 (ground arith) in
      let (back, b, four') = read-some 4 p.bytes (size p - 4) (ground arith) in
      let (first, k) = get_elem?-some p.bytes 0 (ground arith) in
      arrival-Grows off m p (le_value front) (le_value back) (bit_and first 0x1f) h large
        (rw f refl) (rw b refl) (rw k refl)
        (packet (set p.bytes 0 (bit_or (bit_and first 0xe0) prop_mtu_ok)), rw k refl)
]

event-Grows : (off : Bool) (m : Mtu) (e : Event) → IsMtu m → Grows m (event off m e)
unfolding event
event-Grows off m (arrives p) h = packet-Grows off m p h
event-Grows off m (ticks accepted delta) h =
    let (m', calls, returns, same_idx, same) = ticks_same off accepted delta m in
    stays-Grows m m' calls _ h returns same_idx same

run-Grows : (off : Bool) (m : Mtu) (es : List Event) → IsMtu m → Grows m (run off m es)
unfolding run
run-Grows off m [] h = stays-Grows m m [] _ h refl refl refl
run-Grows off m (e ∷ es) h =
    let one = event-Grows off m e h in
    let rest = run-Grows off one.next es one.is_mtu in
    record {
      next = rest.next;
      calls = one.calls ++ rest.calls;
      returns = rw (one.returns, rest.returns) refl;
      is_mtu = rest.is_mtu;
      not_less = omega (arith, one.not_less, rest.not_less);
    }

-- Whatever packets arrive at the discovery of a peer whose MTU is one of the table, and however its
-- clock ticks: no call panics, the MTU is one of the table afterwards, between 1024 and 1432, and not
-- less than before.
pub mtu_bounds :
    (off : Bool) (m : Mtu) (es : List Event)
    → IsMtu m
    → (g : Grows m (run off m es)) × (1024 ≤ g.next.mtu) × (g.next.mtu ≤ 1432)
mtu_bounds off m es h =
    let g = run-Grows off m es h in
    let (large, small, within) = table_bounds g.next.mtu_idx g.next.mtu g.is_mtu in
    (g, large, small)
