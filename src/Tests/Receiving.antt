-- ===== src/Tests/Receiving.antt =====
-- A message that arrives in pieces, and a queue with two workers.
use elliptics.Prelude.{
  ℕ, zero, suc, ◌+◌, refl, inl, true, List, [], ◌∷◌, ◌++◌, arith, replicate, All,
}
use elliptics.Packet.{Cmd, cmd_encode, trans_reply, more}
use elliptics.Packet.Layout.{IsWide}
use elliptics.Receive.{upto, Receiver, IoReq, process_recv_single, io_process_take, unclaimed}
use elliptics.Receive.Framing.{Sound, Progress, recv-Progress}
use elliptics.Receive.Enough.{Given, recv_enough}
use elliptics.Receive.Queue.{Works, take-Works}

abbrev header : (size trans : ℕ) → Cmd
header size trans = record {
  id = record { id = replicate 64 1; group_id = 1 };
  trace_id = 0;
  status = 0;
  cmd = 5;
  flags = more;
  trans = trans;
  size = size;
}

header-IsWide : IsWide (header 2 7)
header-IsWide = record {
  id = refl;
  group_id = omega arith;
  trace_id = omega arith;
  status = omega arith;
  cmd = omega arith;
  flags = omega arith;
  trans = omega arith;
  size = omega arith;
}

abbrev idle : Receiver
idle = record { rcv_header = true; rcv_cmd = header 0 0; got = [] }

-- Two data bytes, and a byte of the next message.
abbrev bytes : List ℕ
bytes = cmd_encode (header 2 7) ++ ((8 ∷ 9 ∷ []) ++ 1 ∷ [])

recv_example :
    Progress
      (header 2 7)
      header-IsWide
      (8 ∷ 9 ∷ [])
      (1 ∷ [])
      refl
      (omega arith)
      (process_recv_single (λ k. true) (upto 3 ∷ upto 200 ∷ []) bytes idle)
recv_example =
    recv-Progress (header 2 7) header-IsWide (8 ∷ 9 ∷ []) (1 ∷ []) refl (omega arith)
      (upto 3 ∷ upto 200 ∷ []) bytes idle (tt, (tt, tt)) (inl (refl, omega arith, refl))

Sound-replicate : (n : ℕ) → All Sound (replicate n (upto 0))
Sound-replicate zero = tt
Sound-replicate (suc n) = (tt, Sound-replicate n)

recv_enough_example :
    Given
      (header 2 7)
      header-IsWide
      (8 ∷ 9 ∷ [])
      (1 ∷ [])
      refl
      (omega arith)
      (process_recv_single (λ k. true) (replicate 106 (upto 0)) bytes idle)
recv_enough_example =
    recv_enough (header 2 7) header-IsWide (8 ∷ 9 ∷ []) (1 ∷ []) refl (omega arith)
      (replicate 106 (upto 0)) idle (Sound-replicate 106) (refl, refl) (omega arith)

abbrev reply : ℕ → IoReq
reply tid = record { header = header 0 (trans_reply + tid); data_ = [] }

-- The other thread has the transaction 4.
worker_example :
    Works
      (4 ∷ unclaimed ∷ [])
      1
      (reply 4 ∷ reply 5 ∷ [])
      (io_process_take (4 ∷ unclaimed ∷ []) 1 (reply 4 ∷ reply 5 ∷ []))
worker_example =
    take-Works (4 ∷ unclaimed ∷ []) 1 (reply 4 ∷ reply 5 ∷ []) (omega arith)
      (omega arith, (omega arith, tt))
