-- ===== src/Tests/Sending.antt =====
-- Connections that send: a socket that takes a few bytes at a time, and one that fails.
use elliptics.Prelude.{arith, ◌≡◌, refl, true, false, some, List, [], ◌∷◌, ◌++◌, econnreset}
use elliptics.Receive.{Outcome, upto, closed}
use elliptics.Send.{
  OutReq, Sender, Sent, process_send_single, io_req_queue, send_request, send_part, send_bytes,
}
use elliptics.Send.Streams.{all_bytes, pending}
use elliptics.Send.Delivered.{process_send_single-delivers}
use elliptics.Send.Fifo.{Turn, queued, run_turn, run_turns, opened, run_turns-Fifo}

abbrev with_file : OutReq
with_file = record { header = 1 ∷ 2 ∷ []; data_ = 3 ∷ []; file = 4 ∷ 5 ∷ [] }

abbrev plain : OutReq
plain = record { header = 6 ∷ []; data_ = []; file = [] }

-- Three bytes of the first request are on their way.
abbrev busy : Sender
busy = record opened { send_list = with_file ∷ plain ∷ []; send_offset = 3; wire = 1 ∷ 2 ∷ 3 ∷ [] }

abbrev six_calls : List Outcome
six_calls = upto 0 ∷ upto 7 ∷ upto 0 ∷ upto 0 ∷ upto 0 ∷ upto 0 ∷ []

delivers_example :
    (r : Sent) × ((process_send_single 3 six_calls busy ≡ some r)
      × ((r.st.send_list ≡ []) × (r.st.wire ≡ busy.wire ++ pending busy)))
delivers_example =
    process_send_single-delivers 3 six_calls busy (record { in_head = omega arith }) (omega arith)
      (tt, (tt, (tt, (tt, (tt, (tt, tt)))))) (omega arith)

abbrev morning : List Turn
morning =
    Turn.queue true with_file
    ∷ Turn.poll (upto 1 ∷ upto 0 ∷ upto 0 ∷ [])
    ∷ Turn.queue false with_file
    ∷ Turn.queue true plain
    ∷ Turn.poll (upto 8 ∷ closed ∷ [])
    ∷ []

on_the_wire : (run_turns morning opened).wire ≡ 1 ∷ 2 ∷ 3 ∷ 4 ∷ 5 ∷ []
unfolding run_turn process_send_single io_req_queue send_request send_part send_bytes
on_the_wire = refl

run_turns-Fifo_example :
    (run_turns morning opened).wire ++ pending (run_turns morning opened)
    ≡ all_bytes (queued morning)
run_turns-Fifo_example = run_turns-Fifo morning

closed_by_peer : (run_turns morning opened).need_exit ≡ some econnreset
unfolding run_turn process_send_single io_req_queue send_request send_part send_bytes
closed_by_peer = refl
