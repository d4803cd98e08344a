-- ===== src/Worker/Send/Order.antt =====
-- The order of what a client of src/worker/worker.c gets: the responses of its connections, one
-- behind the other, in the order in which the connections were made.
use wheatserver.Common.{
  ℕ, zero, suc, ◌+◌, ◌-◌, ◌≡◌, refl, sym, ap, ◌∙◌, List, [], ◌∷◌, ◌++◌, append_assoc, append-nil,
  arith, length, length-append,
}
use wheatserver.Slice.{Bytes}
use wheatserver.Worker.Send.{at_place}
use wheatserver.Worker.Send.Moves.{Moves}

abbrev pub flat : List Bytes → Bytes
flat [] = []
flat (b ∷ bs) = b ++ flat bs

flat-append : (xs ys : List Bytes) → flat (xs ++ ys) ≡ flat xs ++ flat ys
flat-append [] ys = refl
flat-append (x ∷ xs) ys =
    ap (λ l. x ++ l) (flat-append xs ys) ∙ sym (append_assoc x (flat xs) (flat ys))

-- What was sent of the first connection stands before what waits in its queue.
abbrev ahead : Bytes → List Bytes → List Bytes
ahead part [] = []
ahead part (q ∷ qs) = (part ++ q) ∷ qs

-- What the socket got, when `responses` lists what each connection was given so far and `queues`
-- what the connections that are left still hold: the responses of the connections that are gone,
-- whole and in order, and then a part of the first one's that is left.
pub record Ordered (responses queues : List Bytes) (out : Bytes) : Type 0 where
  pub sent : List Bytes
  pub part : Bytes
  pub given : responses ≡ sent ++ ahead part queues
  pub shown : out ≡ flat sent ++ part
  pub none_ahead : queues ≡ [] → part ≡ []

flat-ahead :
    (part : Bytes) (qs : List Bytes)
    → (qs ≡ [] → part ≡ [])
    → flat (ahead part qs) ≡ part ++ flat qs
flat-ahead part [] h = sym (append-nil part ∙ h refl)
flat-ahead part (q ∷ qs) h = append_assoc part q (flat qs)

-- Nothing is lost, and nothing is sent twice.
pub Ordered-flat : {rs qs : List Bytes} {out : Bytes} → Ordered rs qs out → out ++ flat qs ≡ flat rs
Ordered-flat {qs = qs} o =
    ap (λ l. l ++ flat qs) o.shown
    ∙ append_assoc (flat o.sent) o.part (flat qs)
    ∙ ap (λ l. flat o.sent ++ l) (sym (flat-ahead o.part qs o.none_ahead))
    ∙ sym (flat-append o.sent (ahead o.part qs))
    ∙ ap flat (sym o.given)

ahead-append :
    (part : Bytes) (qs : List Bytes)
    → (qs ≡ [] → part ≡ [])
    → ahead part qs ++ ([] ∷ []) ≡ ahead part (qs ++ ([] ∷ []))
ahead-append part [] h = ap (λ p. p ∷ []) (sym (append-nil part ∙ h refl))
ahead-append part (q ∷ qs) h = refl

-- A connection is made.
pub Ordered-open :
    {rs qs : List Bytes} {out : Bytes}
    → Ordered rs qs out
    → Ordered (rs ++ ([] ∷ [])) (qs ++ ([] ∷ [])) out
Ordered-open {qs = qs} o = record {
  sent = o.sent;
  part = o.part;
  given =
      ap (λ l. l ++ ([] ∷ [])) o.given
      ∙ append_assoc o.sent (ahead o.part qs) ([] ∷ [])
      ∙ ap (λ l. o.sent ++ l) (ahead-append o.part qs o.none_ahead);
  shown = o.shown;
  none_ahead = λ e. absurd (omega (arith, length-append qs ([] ∷ []), ap length e));
}

length-ahead : (part : Bytes) (qs : List Bytes) → length (ahead part qs) ≡ length qs
length-ahead part [] = refl
length-ahead part (q ∷ qs) = refl

pub length-at_place :
    {A : Type 0} (i : ℕ) (f : A → A) (xs : List A) → length (at_place i f xs) ≡ length xs
length-at_place i f [] = refl
length-at_place zero f (x ∷ xs) = refl
length-at_place (suc i) f (x ∷ xs) = ap suc (length-at_place i f xs)

at_place-append :
    {A : Type 0} (i : ℕ) (f : A → A) (xs ys : List A)
    → at_place (length xs + i) f (xs ++ ys) ≡ xs ++ at_place i f ys
at_place-append i f [] ys = ap (λ j. at_place j f ys) (omega arith)
at_place-append i f (x ∷ xs) ys =
    let e : length (x ∷ xs) + i ≡ suc (length xs + i) = omega arith in
    ap (λ j. at_place j f (x ∷ (xs ++ ys))) e ∙ ap (◌∷◌ x) (at_place-append i f xs ys)

ahead-at_place :
    (i : ℕ) (part more : Bytes) (qs : List Bytes)
    → at_place i (λ b. b ++ more) (ahead part qs) ≡ ahead part (at_place i (λ b. b ++ more) qs)
ahead-at_place i part more [] = refl
ahead-at_place zero part more (q ∷ qs) = ap (λ b. b ∷ qs) (append_assoc part q more)
ahead-at_place (suc i) part more (q ∷ qs) = refl

-- A connection is given more to send, wherever it stands.
pub Ordered-say :
    {rs qs : List Bytes} {out : Bytes} (i : ℕ) (more : Bytes)
    → Ordered rs qs out
    → Ordered
        (at_place (length rs - length qs + i) (λ b. b ++ more) rs)
        (at_place i (λ b. b ++ more) qs)
        out
Ordered-say {rs = rs} {qs = qs} i more o = record {
  sent = o.sent;
  part = o.part;
  given =
      ap (λ j. at_place j (λ b. b ++ more) rs) place
      ∙ ap (at_place (length o.sent + i) (λ b. b ++ more)) o.given
      ∙ at_place-append i (λ b. b ++ more) o.sent (ahead o.part qs)
      ∙ ap (λ l. o.sent ++ l) (ahead-at_place i o.part more qs);
  shown = o.shown;
  none_ahead = λ e. o.none_ahead (none_left qs (length-at_place i (λ b. b ++ more) qs) e);
}
  where
    place : length rs - length qs + i ≡ length o.sent + i
    place =
        omega
          (arith, ap length o.given, length-append o.sent (ahead o.part qs), length-ahead o.part qs)

    none_left :
        (qs : List Bytes)
        → length (at_place i (λ b. b ++ more) qs) ≡ length qs
        → at_place i (λ b. b ++ more) qs ≡ []
        → qs ≡ []
    none_left [] h e = refl
    none_left (q ∷ qs) h e = absurd (omega (arith, h, ap length e))

-- Bytes of the first connection's queue go to the socket.
pub Ordered-sent :
    {rs qs : List Bytes} {q q' out out' : Bytes}
    → Moves q q' out out'
    → Ordered rs (q ∷ qs) out
    → Ordered rs (q' ∷ qs) out'
Ordered-sent {qs = qs} {q' = q'} m o = record {
  sent = o.sent;
  part = o.part ++ m.bytes;
  given =
      o.given
      ∙ ap (λ b. o.sent ++ ((o.part ++ b) ∷ qs)) m.left
      ∙ ap (λ b. o.sent ++ (b ∷ qs)) (sym (append_assoc o.part m.bytes q'));
  shown = m.put ∙ ap (λ l. l ++ m.bytes) o.shown ∙ append_assoc (flat o.sent) o.part m.bytes;
  none_ahead = λ e. absurd (omega (arith, ap length e));
}

pub nothing_ahead : (qs : List Bytes) → qs ≡ ahead [] qs
nothing_ahead [] = refl
nothing_ahead (q ∷ qs) = refl

-- The first connection has nothing left to send, and goes.
pub Ordered-gone : {rs qs : List Bytes} {out : Bytes} → Ordered rs ([] ∷ qs) out → Ordered rs qs out
Ordered-gone {qs = qs} o = record {
  sent = o.sent ++ (o.part ∷ []);
  part = [];
  given =
      o.given
      ∙ ap (λ b. o.sent ++ (b ∷ qs)) (append-nil o.part)
      ∙ sym (append_assoc o.sent (o.part ∷ []) qs)
      ∙ ap (λ l. (o.sent ++ (o.part ∷ [])) ++ l) (nothing_ahead qs);
  shown =
      o.shown
      ∙ ap (λ l. flat o.sent ++ l) (sym (append-nil o.part))
      ∙ sym (flat-append o.sent (o.part ∷ []))
      ∙ sym (append-nil _);
  none_ahead = λ e. refl;
}
