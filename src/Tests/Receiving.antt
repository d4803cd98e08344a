-- ===== src/Tests/Receiving.antt =====
-- The receiving loop of src/worker/worker_async.c over a peer that has sent some bytes.
use wheatserver.Common.{
  ℕ, ◌+◌, ◌^◌, ◌<◌, ◌≡◌, refl, sym, Bool, true, [], ◌∷◌, take, drop, arith, length-take,
  take-append-drop,
}
use wheatserver.Slice.{Bytes}
use wheatserver.Mbuf.{Msghdr, msg_create, mbuf_get, msg_put, fill, msg_set_writted, msg_get_size}
use wheatserver.Memory.{write}
use wheatserver.Mbuf.Put.{msg_create-IsValid}
use wheatserver.Worker.{Answer, Outcome, recv_loop, async_recv_data, read_bulk_from}
use wheatserver.Worker.Receive.{IsSafe, Gives, recv_loop-IsSafe}

abbrev zeros : ℕ → ℕ
zeros i = 0

-- What is sent and not yet read; then EAGAIN.
abbrev read : ℕ → Bytes → Answer × Bytes
read n [] = (Answer.again, [])
read n (c ∷ cs) = (Answer.received (take n (c ∷ cs)), drop n (c ∷ cs))

abbrev memory : Bytes → Bool
memory os = true

gives : (n : ℕ) (os : Bytes) → Gives (read n os).0 n os (read n os).1
unfolding Gives
gives n [] = refl
gives n (c ∷ cs) = (omega (arith, length-take n (c ∷ cs)), sym (take-append-drop n (c ∷ cs)))

abbrev sent : Bytes
sent = 1 ∷ 2 ∷ 3 ∷ []

abbrev empty : Msghdr
empty = msg_create zeros 2

total_of : {S : Type 0} → Outcome S → ℕ
total_of (Outcome.finished h total valid os) = total
total_of o = 0

recv_run : total_of (async_recv_data zeros read memory 1000 4 empty sent) ≡ 3
unfolding total_of async_recv_data msg_create mbuf_get read_bulk_from msg_put fill write
    msg_set_writted msg_get_size
recv_run = refl

recv_loop-IsSafe_example : IsSafe sent empty 0 (recv_loop zeros read memory 4 empty 0 sent)
unfolding msg_create
recv_loop-IsSafe_example =
    recv_loop-IsSafe zeros read memory (λ os. os) gives 4 empty 0 sent
      (msg_create-IsValid zeros 2 (omega arith)).0 (msg_create-IsValid zeros 2 (omega arith)).2
      (omega arith) (few empty refl)
  where
    few : (h : Msghdr) → h.mbuf_len ≡ 1 → h.mbuf_len + 4 < 2 ^ 64
    few h e = omega (arith, e)
