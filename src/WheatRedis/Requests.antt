-- ===== src/WheatRedis/Requests.antt =====
-- What handleClientRequests of src/app/wheatredis/redis.c sends.
use mathlib.Core.Path.{ap₂}
use wheatserver.Common.{
  ℕ, zero, suc, ◌≤◌, ◌≡◌, inl, inr, refl, sym, ap, ◌∙◌, Bool, true, false, Option, none, some, List,
  [], ◌∷◌, ◌++◌, if◌then◌else◌, arith, append_assoc, append-nil,
}
use wheatserver.WheatRedis.Hash.{Tokens, hash_dispatch}
use wheatserver.WheatRedis.Choose.{
  Instance, get_instance, Choice, visit, iterate, target, after_send, send_redis_data, send_to,
  handle_client_requests,
}
use wheatserver.WheatRedis.Picks.{candidates, IsAmong, IsChosen, iterate-Picks, same-Picks, chosen}

module _ {S : Type 0} (send : S → ℕ → Bool × S) (instances : ℕ → Instance) where
  -- One request after the other, to the instances that are alive: those that took it, and the world.
  abbrev noted : ℕ → Bool → List ℕ → List ℕ
  noted x b xs = if b then x ∷ xs else xs

  abbrev pub send_each : List ℕ → S → List ℕ × S
  send_each [] w = ([], w)
  send_each (x ∷ xs) w =
      let one = send w x in
      let all = send_each xs one.1 in
      if (instances x).live then (noted x one.0 all.0, all.1) else send_each xs w

  abbrev result : Choice S → List ℕ × S
  result c = (c.sended, c.world)

  -- The choice among the instances sends nothing.
  read-still :
      (n : ℕ) (tokens : Tokens) (t : ℕ) (c : Choice S)
      → result (iterate send instances n true tokens t c) ≡ result c
  unfolding iterate
  read-still zero tokens t c = refl
  read-still (suc n) tokens t c =
      read-still n tokens (tokens t).next_instance
        (visit send instances true (get_instance instances (tokens t).instance_id) c)
      ∙ elim (instances (tokens t).instance_id).live
          as (λ b.
            result (visit send instances true (if b then some (tokens t).instance_id else none) c)
            ≡ result c) [ true ↦ refl | false ↦ refl ]

  -- What was sent before is kept in front.
  abbrev in_front : List ℕ → List ℕ × S → List ℕ × S
  in_front xs p = (xs ++ p.0, p.1)

  sent-front :
      (x : ℕ) (c : Choice S) (one : Bool × S) (all : List ℕ × S)
      → in_front (after_send send instances x c one).sended all
        ≡ in_front c.sended (noted x one.0 all.0, all.1)
  sent-front x c (true, w) all = ap (λ l. (l, all.1)) (append_assoc c.sended (x ∷ []) all.0)
  sent-front x c (false, w) all = refl

  sent-world :
      (x : ℕ) (c : Choice S) (one : Bool × S) → (after_send send instances x c one).world ≡ one.1
  sent-world x c (true, w) = refl
  sent-world x c (false, w) = refl

  write-each :
      (n : ℕ) (tokens : Tokens) (t : ℕ) (c : Choice S)
      → result (iterate send instances n false tokens t c)
        ≡ in_front c.sended (send_each (candidates n tokens t) c.world)
  unfolding iterate send_redis_data
  write-each zero tokens t c = ap (λ l. (l, c.world)) (sym (append-nil c.sended))
  write-each (suc n) tokens t c =
      let x = (tokens t).instance_id in
      let rest = candidates n tokens (tokens t).next_instance in
      write-each n tokens (tokens t).next_instance
        (visit send instances false (get_instance instances x) c)
      ∙ elim (instances x).live
          as (λ b.
            (let v = visit send instances false (if b then some x else none) c in
              in_front v.sended (send_each rest v.world))
            ≡ in_front c.sended (
                let one = send c.world x in
                let all = send_each rest one.1 in
                if b then (noted x one.0 all.0, all.1) else send_each rest c.world)) [
                  | true ↦
                      let c' = record c { instance = some x } in
                      ap
                        (λ w.
                          in_front (after_send send instances x c' (send c.world x)).sended
                            (send_each rest w))
                        (sent-world x c' (send c.world x))
                      ∙ sent-front x c' (send c.world x) (send_each rest (send c.world x).1)
                  | false ↦ refl
                ]

  -- A request that writes is sent, in the ring's order, to each of the key's instances that is alive.
  pub handle_client_requests-write :
      (instance : Option ℕ) (nbackup : ℕ) (tokens : Tokens) (hash : ℕ) (w : S)
      → handle_client_requests send instances instance nbackup false tokens hash w
        ≡ send_each (candidates nbackup tokens (hash_dispatch hash)) w
  unfolding handle_client_requests
  handle_client_requests-write instance nbackup tokens hash w =
      write-each nbackup tokens (hash_dispatch hash) _

  -- At most one request, to an instance that is chosen.
  abbrev pub send_one : Option ℕ → S → List ℕ × S
  send_one none w = ([], w)
  send_one (some x) w = let one = send w x in (noted x one.0 [], one.1)

  sent-list :
      (x : ℕ) (c : Choice S) (one : Bool × S)
      → c.sended ≡ []
      → (after_send send instances x c one).sended ≡ noted x one.0 []
  sent-list x c (true, w) e = ap (λ l. l ++ (x ∷ [])) e
  sent-list x c (false, w) e = e

  send_to-one :
      (o : Option ℕ) (c : Choice S)
      → c.sended ≡ []
      → result (send_to send instances o c) ≡ send_one o c.world
  unfolding send_redis_data
  send_to-one none c e = ap (λ l. (l, c.world)) e
  send_to-one (some x) c e =
      ap₂ (λ l w. (l, w)) (sent-list x c (send c.world x) e) (sent-world x c (send c.world x))

  -- A request that reads is sent to one of the key's instances that is alive: a clean one if there is,
  -- and else one that none is more reliable than; where none is alive it is not sent.
  pub handle_client_requests-read :
      (instance : Option ℕ) (nbackup : ℕ) (tokens : Tokens) (hash : ℕ) (w : S)
      → 1 ≤ nbackup
      → (o : Option ℕ) × IsChosen send instances (candidates nbackup tokens (hash_dispatch hash)) o
        × (handle_client_requests send instances instance nbackup true tokens hash w ≡ send_one o w)
  unfolding handle_client_requests
  handle_client_requests-read instance zero tokens hash w h = absurd (omega (arith, h))
  handle_client_requests-read instance (suc n) tokens hash w h =
      let t = hash_dispatch hash in
      let start : Choice S = record {
        reliability_instance = none;
        nondirty_instance = none;
        instance = instance;
        sended = [];
        world = w;
      } in
      let xs = candidates (suc n) tokens t in
      let c = iterate send instances (suc n) true tokens t start in
      let p =
        iterate-Picks send instances (suc n) tokens t (λ y. zero ≡ suc zero) start
          (record {
            best = λ y s. absurd (omega (arith, s));
            clean = λ y s. absurd (omega (arith, s));
            last = λ y s. absurd (omega (arith, s));
          }) in
      let q =
        same-Picks send instances _ (λ y. IsAmong y xs) c
          (λ y s. elim s [ inl e ↦ absurd (omega (arith, e)) | inr a ↦ a ]) (λ y s. inr s) p in
      let still = read-still (suc n) tokens t start in
      (
        target send instances c,
        chosen send instances xs (tokens t).instance_id c.nondirty_instance c.reliability_instance
            c.instance (inl refl) q.best q.clean q.last,
        send_to-one (target send instances c) c (ap (λ r. r.0) still)
            ∙ ap (λ v. send_one (target send instances c) v) (ap (λ r. r.1) still),
      )
