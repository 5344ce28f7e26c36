-- ===== src/Channel/Order.antt =====
-- The ordered reliable channel of channel.go over its whole life: what it delivers, and that it never
-- panics.
use scpxy.Base.{
  ℕ, ◌+◌, ◌<◌, ◌≡◌, refl, ap, sym, ◌∙◌, true, Option, some, List, [], ◌∷◌, ◌++◌, ◌>>=◌, >>=-eq-some,
  All, append_assoc,
}
use scpxy.Packet.{Packet}
use scpxy.Wire.{reliable_ordered}
use scpxy.Channel.{Reliable, Effect, new_reliable_channel}
use scpxy.Channel.Receive.{process_incoming}
use scpxy.Channel.Merged.{deliveries, deliveries-append}
use scpxy.Channel.Held.{InOrder, delivered}
use scpxy.Channel.Start.{Ordered, new_reliable_channel-Ordered}
use scpxy.Channel.Step.{Event, event, Fits, Ran, event-Ran}

unfoldable pub run : Reliable → List Event → Option (Reliable × List Effect)
run c [] = some (c, [])
run c (e ∷ es) = event c e >>= λ first. run first.0 es >>= λ rest. some (rest.0, first.1 ++ rest.1)

module _ (P : Packet → Type 0) where
  -- Packets in order, and more behind them.
  InOrder-append :
      (ps qs : List Packet) (r r' r'' : ℕ) (es fs : List Effect)
      → InOrder r ps r'
      → InOrder r' qs r''
      → delivered ps ≡ some es
      → delivered qs ≡ some fs
      → All P ps
      → All P qs
      → InOrder r (ps ++ qs) r'' × (delivered (ps ++ qs) ≡ some (es ++ fs)) × All P (ps ++ qs)
  unfolding InOrder delivered
  InOrder-append [] qs r r' r'' es fs o o' d d' a a' =
      let none_given : es ≡ [] = cc d in (rw o o', rw none_given d', a')
  InOrder-append (p ∷ ps) qs r r' r'' es fs o o' d d' a a' =
      let (es₀, e₀, rest) =
        >>=-eq-some (process_incoming reliable_ordered p)
          (λ now. delivered ps >>= λ later. some (now ++ later)) d in
      let (es₁, e₁, last) = >>=-eq-some (delivered ps) (λ later. some (es₀ ++ later)) rest in
      let (o₂, d₂, a₂) = InOrder-append ps qs (r + 1) r' r'' es₁ fs o.1 o' e₁ d' a.1 a' in
      let whole : es₀ ++ es₁ ≡ es = cc last in
      (
        (o.0, o₂),
        rw (e₀, d₂) (ap some (sym (append_assoc es₀ es₁ fs) ∙ ap (λ t. t ++ fs) whole)),
        (a.0, a₂),
      )

  pub run-Ran :
      (events : List Event) (c : Reliable) (r : ℕ)
      → Ordered P c r
      → All (Fits P) events
      → Ran P r (run c events)
  unfolding run deliveries InOrder delivered
  run-Ran [] c r o fit = record {
    after = c;
    effects = [];
    packets = [];
    next_after = r;
    returns = refl;
    in_order = refl;
    all_known = tt;
    gives = refl;
    holds = o;
  }
  run-Ran (e ∷ events) c r o fit =
      let a = event-Ran P c r e o fit.0 in
      let b = run-Ran events a.after a.next_after a.holds fit.1 in
      let (order, given, known) =
        InOrder-append a.packets b.packets r a.next_after b.next_after (deliveries a.effects)
          (deliveries b.effects) a.in_order b.in_order a.gives b.gives a.all_known b.all_known in
      record {
        after = b.after;
        effects = a.effects ++ b.effects;
        packets = a.packets ++ b.packets;
        next_after = b.next_after;
        returns = rw a.returns (rw b.returns refl);
        in_order = order;
        all_known = known;
        gives = given ∙ ap some (sym (deliveries-append a.effects b.effects));
        holds = b.holds;
      }

  -- A new ordered channel with an id below 256, whatever packets with a channel header arrive (in any
  -- order, repeated, or acks), are queued, and whenever it sends: no call panics or runs out of
  -- fuel. The peer has been given the messages of known packets with the sequence numbers 0, 1, 2
  -- and so on, each once and with no gap. At most 64 packets are in flight, each in its own place.
  pub delivers_in_order :
      (id : ℕ) (events : List Event)
      → id < 256
      → All (Fits P) events
      → (c : Reliable) × (new_reliable_channel true id ≡ some c) × Ran P 0 (run c events)
  delivers_in_order id events small fit =
      let (c, made, o) = new_reliable_channel-Ordered P id small in
      (c, made, run-Ran events c 0 o fit)
