-- ===== src/Send/Fifo.antt =====
-- A connection over its life: replies and requests are queued while the network thread sends.
use elliptics.Prelude.{
  ℕ, suc, ◌≡◌, refl, sym, ◌∙◌, ap, Bool, true, false, Option, none, some, List, [], ◌∷◌, ◌++◌,
  arith, length, drop, drop-append, length-append, ◌≤◌,
}
use mathlib.Core.List.{append_assoc, append-nil}
use elliptics.Receive.{Outcome}
use elliptics.Send.{OutReq, Sender, Sent, process_send_single, io_req_queue}
use elliptics.Send.Bytes.{bytes_of, length-bytes_of}
use elliptics.Send.Streams.{all_bytes, pending, InHead, IsPlaced, process_send_single-Streams}

-- A request to queue, or a socket that has room and takes what `outs` says.
pub data Turn : Type 0 where
  queue : (memory : Bool) → OutReq → Turn
  poll : List Outcome → Turn

abbrev pub left_by : Option Sent → Sender → Sender
left_by none st = st
left_by (some r) st = r.st

unfoldable pub run_turn : Turn → Sender → Sender
run_turn (Turn.queue memory r) st = (io_req_queue memory r st).1
run_turn (Turn.poll outs) st = left_by (process_send_single (suc (length st.send_list)) outs st) st

abbrev pub run_turns : List Turn → Sender → Sender
run_turns [] st = st
run_turns (t ∷ ts) st = run_turns ts (run_turn t st)

-- The requests for which there was memory.
abbrev pub queued : List Turn → List OutReq
queued [] = []
queued (Turn.queue true r ∷ ts) = r ∷ queued ts
queued (Turn.queue false r ∷ ts) = queued ts
queued (Turn.poll outs ∷ ts) = queued ts

all_bytes-append : (rs qs : List OutReq) → all_bytes (rs ++ qs) ≡ all_bytes rs ++ all_bytes qs
all_bytes-append [] qs = refl
all_bytes-append (r ∷ rs) qs =
    rw (all_bytes-append rs qs) (sym (append_assoc (bytes_of r) (all_bytes rs) (all_bytes qs)))

-- The offset lies within the stream, so what is queued comes behind it.
drop-queued :
    (o : ℕ) (rs : List OutReq) (r : OutReq)
    → InHead o rs
    → (drop o (all_bytes (rs ++ r ∷ [])) ≡ drop o (all_bytes rs) ++ bytes_of r)
      × InHead o (rs ++ r ∷ [])
drop-queued o [] r h = (rw (h, append-nil (bytes_of r)) refl, omega (arith, h))
drop-queued o (q ∷ qs) r h =
    let b : o ≤ length (all_bytes (q ∷ qs)) =
      omega (arith, h, length-bytes_of q, length-append (bytes_of q) (all_bytes qs)) in
    (
      ap (drop o) (
            all_bytes-append (q ∷ qs) (r ∷ [])
            ∙ ap (all_bytes (q ∷ qs) ++◌) (append-nil (bytes_of r)))
          ∙ drop-append o (all_bytes (q ∷ qs)) (bytes_of r) b,
      h,
    )

-- A turn leaves what the wire got and is to get, but for what it queues.
turn-Streams :
    (t : Turn) (st : Sender)
    → IsPlaced st
    → ((run_turn t st).wire ++ pending (run_turn t st)
        ≡ (st.wire ++ pending st) ++ all_bytes (queued (t ∷ [])))
      × IsPlaced (run_turn t st)
unfolding run_turn io_req_queue
turn-Streams (Turn.queue true r) st p =
    let (e, h) = drop-queued st.send_offset st.send_list r p.in_head in
    (
      ap (st.wire ++◌) (e ∙ ap (pending st ++◌) (sym (append-nil (bytes_of r))))
          ∙ sym (append_assoc st.wire (pending st) _),
      record { in_head = h },
    )
turn-Streams (Turn.queue false r) st p = (sym (append-nil (st.wire ++ pending st)), p)
turn-Streams (Turn.poll outs) st p =
    let (r, (e, s)) =
      process_send_single-Streams (suc (length st.send_list)) outs st p (omega arith) in
    rw e (s.stream ∙ sym (append-nil (st.wire ++ pending st)), s.placed)

queued-cons :
    (t : Turn) (ts : List Turn)
    → all_bytes (queued (t ∷ ts)) ≡ all_bytes (queued (t ∷ [])) ++ all_bytes (queued ts)
queued-cons (Turn.queue true r) ts = ap (◌++ all_bytes (queued ts)) (sym (append-nil (bytes_of r)))
queued-cons (Turn.queue false r) ts = refl
queued-cons (Turn.poll outs) ts = refl

from_here :
    (ts : List Turn) (st : Sender)
    → IsPlaced st
    → (run_turns ts st).wire ++ pending (run_turns ts st)
      ≡ (st.wire ++ pending st) ++ all_bytes (queued ts)
from_here [] st p = sym (append-nil (st.wire ++ pending st))
from_here (t ∷ ts) st p =
    let (e, q) = turn-Streams t st p in
    from_here ts (run_turn t st) q
    ∙ (ap (◌++ all_bytes (queued ts)) e
        ∙ (append_assoc (st.wire ++ pending st) (all_bytes (queued (t ∷ [])))
              (all_bytes (queued ts))
            ∙ ap ((st.wire ++ pending st) ++◌) (sym (queued-cons t ts))))

-- A new connection.
abbrev pub opened : Sender
opened = record {
  send_list = [];
  send_offset = 0;
  need_exit = none;
  scheduled = false;
  wire = [];
  send_queue_size = 0;
  wakes = 0;
}

-- From a new connection, whatever is queued and however the socket takes it: what the wire got and
-- what is pending are the bytes of the queued requests in the order they were queued in, so that
-- the wire has a prefix of them, no byte twice, none left out and no request inside another one.
pub run_turns-Fifo :
    (ts : List Turn)
    → (run_turns ts opened).wire ++ pending (run_turns ts opened) ≡ all_bytes (queued ts)
run_turns-Fifo ts = from_here ts opened (record { in_head = refl })
