-- ===== src/Worker/Send/Responses.antt =====
-- Whole lives of a client: sequences of uses of its connections from the first one on.
use wheatserver.Common.{ℕ, ◌≡◌, refl, ap, Option, none, some, List, [], ◌∷◌, length, arith}
use wheatserver.Slice.{Bytes, Slice}
use wheatserver.Worker.Send.{Transfer, Release, Client, Conn}
use wheatserver.Worker.Send.Moves.{Network}
use wheatserver.Worker.Send.Order.{Ordered, Ordered-flat}
use wheatserver.Worker.Send.Serve.{AllSized, queues, InOrder}
use wheatserver.Worker.Send.Calls.{Kept, kept, freed, Use, use_step}
use wheatserver.Worker.Send.Pipeline.{
  IsSizedUse, tell, AreSplit, IsOver, KeptInOrder, use_step-KeptInOrder,
}

module _ {S : Type 0} {write : Slice → S → Transfer × S} {send_file : ℕ → ℕ → ℕ → S → Transfer × S}
    {release : Release → S → S} (net : Network S write send_file release) where
  abbrev pub after_use :
      (List Bytes → Client → S → Option (Kept S × List Bytes))
      → List Bytes
      → Option (Kept S)
      → Option (Kept S × List Bytes)
  after_use more rs none = none
  after_use more rs (some (kept c os)) = more rs c os
  after_use more rs (some (freed c os)) = some (freed c os, rs)

  -- A sequence of uses, up to the one that frees the client, with what the connections were given.
  unfoldable pub run_uses : List Use → List Bytes → Client → S → Option (Kept S × List Bytes)
  run_uses [] rs c os = some (kept c os, rs)
  run_uses (u ∷ us) rs c os =
      after_use (run_uses us) (tell net.content (length c.conns) u rs)
        (use_step write send_file release u c os)

  unfoldable pub AreSizedUses : List Use → Type 0
  AreSizedUses [] = Unit
  AreSizedUses (u ∷ us) = IsSizedUse u × AreSizedUses us

  abbrev RunInOrder : Option (Kept S × List Bytes) → Type 0
  RunInOrder none = ⊥
  RunInOrder (some (k, rs)) = KeptInOrder net rs (some k)

  after_use-RunInOrder :
      (more : List Bytes → Client → S → Option (Kept S × List Bytes)) (rs : List Bytes)
      (o : Option (Kept S))
      → KeptInOrder net rs o
      → ((c : Client) (os : S) → InOrder net rs c os → RunInOrder (more rs c os))
      → RunInOrder (after_use more rs o)
  unfolding KeptInOrder
  after_use-RunInOrder more rs none h ih = h
  after_use-RunInOrder more rs (some (kept c os)) h ih = ih c os h
  after_use-RunInOrder more rs (some (freed c os)) h ih = h

  run_uses-RunInOrder :
      (us : List Use) (rs : List Bytes) (c : Client) (os : S)
      → AreSizedUses us
      → InOrder net rs c os
      → RunInOrder (run_uses us rs c os)
  unfolding run_uses AreSizedUses
  run_uses-RunInOrder [] rs c os small h = unfold KeptInOrder in h
  run_uses-RunInOrder (u ∷ us) rs c os small h =
      after_use-RunInOrder (run_uses us) (tell net.content (length c.conns) u rs)
        (use_step write send_file release u c os) (use_step-KeptInOrder net rs u c os small.0 h)
        (λ c₁ os₁ k.
          run_uses-RunInOrder us (tell net.content (length c.conns) u rs) c₁ os₁ small.1 k)

  -- What the socket got, and what waits, or waited when the client was freed; and then why it was.
  pub Delivered : Kept S → List Bytes → Type 0
  Delivered (kept c os) rs = AreSplit net rs c os
  Delivered (freed c os) rs = AreSplit net rs c os × IsOver net c

  delivered : (k : Kept S) (rs : List Bytes) → KeptInOrder net rs (some k) → Delivered k rs
  unfolding KeptInOrder Delivered
  delivered (kept c os) rs h = Ordered-flat h.ordered
  delivered (freed c os) rs h = h

  nothing_yet : (ds : List Conn) (out : Bytes) → ds ≡ [] → out ≡ [] → Ordered [] (queues net ds) out
  nothing_yet [] out e e' = record {
    sent = [];
    part = [];
    given = refl;
    shown = e';
    none_ahead = λ q. refl;
  }
  nothing_yet (d ∷ ds) out e e' = absurd (omega (arith, ap length e))

  none_sized : (ds : List Conn) → ds ≡ [] → AllSized ds
  unfolding AllSized
  none_sized [] e = tt
  none_sized (d ∷ ds) e = absurd (omega (arith, ap length e))

  -- From a client with no connection yet, over a socket that got nothing yet, and with any sequence
  -- of uses whose lengths are `size_t`, whatever the socket takes of what it is offered: every
  -- use ends, and what the socket got, followed by what waits in the queues, is the responses of the
  -- connections, each as the application gave it, one behind the other in the order in which the
  -- connections were made. If the client was freed, that holds of the queues at that moment, which
  -- go with it, and it was invalid, or it was to be closed and its first connection, if it had one,
  -- had an empty queue and was still used.
  pub run_uses-Delivered :
      (us : List Use) (c : Client) (os : S)
      → c.conns ≡ []
      → net.output os ≡ []
      → AreSizedUses us
      → (k : Kept S) × (rs : List Bytes) × (run_uses us [] c os ≡ some (k, rs)) × Delivered k rs
  run_uses-Delivered us c os e e' small = found (run_uses us [] c os) (
      run_uses-RunInOrder us [] c os small (record {
        ordered = nothing_yet c.conns (net.output os) e e';
        sized = none_sized c.conns e;
      }))
    where
      found :
          (o : Option (Kept S × List Bytes))
          → RunInOrder o
          → (k : Kept S) × (rs : List Bytes) × (o ≡ some (k, rs)) × Delivered k rs
      found none h = absurd h
      found (some (k, rs)) h = (k, rs, refl, delivered k rs h)
