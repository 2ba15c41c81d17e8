-- ===== src/Send.antt =====
-- library/net.c and library/pool.c: from the queue of a connection to its socket. `wire` has the bytes
-- that the socket took, and the header, the data and the part of a file of a request are their bytes.
pub mod Bytes
pub mod Streams
pub mod Fifo
pub mod Delivered
use elliptics.Prelude.{
  ℕ, zero, suc, ◌+◌, ◌-◌, ◌*◌, Bool, true, false, not, ◌&&◌, Option, none, some, List, [], ◌∷◌,
  ◌++◌, ◌==◌, ltb, leb, if◌then◌else◌, length, take, drop, Errno, Status, success, failure, eagain,
  econnreset, enodata, enomem,
}
use elliptics.Receive.{Outcome, upto, fault, closed}

-- `struct dnet_io_req` on its way out.
pub record OutReq : Type 0 where
  pub header : List ℕ
  pub data_ : List ℕ
  pub file : List ℕ

abbrev pub hsize : OutReq → ℕ
hsize r = length r.header

abbrev pub dsize : OutReq → ℕ
dsize r = length r.data_

abbrev pub fsize : OutReq → ℕ
fsize r = length r.file

-- The sending side of `struct dnet_net_state`; `scheduled` while the socket is polled for room, `wakes`
-- counts the broadcasts of `send_wait`.
pub record Sender : Type 0 where
  pub send_list : List OutReq
  pub send_offset : ℕ
  pub need_exit : Option Errno
  pub scheduled : Bool
  pub wire : List ℕ
  pub send_queue_size : ℕ
  pub wakes : ℕ

-- What a call returns, the calls of `send` that are still to come, and the connection.
pub record Sent : Type 0 where
  pub ret : Status
  pub outs : List Outcome
  pub st : Sender

abbrev pub sent : Status → List Outcome → Sender → Sent
sent e outs st = record { ret = e; outs = outs; st = st }

-- How many bytes a call of `send` takes, one at least.
abbrev pub accepted : ℕ → List ℕ → ℕ
accepted n bytes = if leb (n + 1) (length bytes) then n + 1 else length bytes

abbrev pub advance : ℕ → List ℕ → Sender → Sender
advance k bytes st = record st { send_offset = st.send_offset + k; wire = st.wire ++ take k bytes }

-- `dnet_send_nolock` and, where 0 means a truncated file, `dnet_send_fd_nolock`. A socket without a
-- further outcome would block.
unfoldable pub send_bytes : (at_zero : Errno) → List Outcome → List ℕ → Sender → Sent
send_bytes at_zero outs [] st = sent success outs st
send_bytes at_zero [] (b ∷ bs) st = sent (failure eagain) [] st
send_bytes at_zero (fault e ∷ outs) (b ∷ bs) st = sent (failure e) outs st
send_bytes at_zero (closed ∷ outs) (b ∷ bs) st = sent (failure at_zero) outs st
send_bytes at_zero (upto n ∷ outs) (b ∷ bs) st =
    let k = accepted n (b ∷ bs) in send_bytes at_zero outs (drop k (b ∷ bs)) (advance k (b ∷ bs) st)

-- One of the three parts of a request, at its place, if it is not sent yet.
unfoldable pub send_part : (at_zero : Errno) → (start : ℕ) → List ℕ → List Outcome → Sender → Sent
send_part at_zero start bytes outs st =
    if not (length bytes == 0) && ltb st.send_offset (start + length bytes)
    then send_bytes at_zero outs (drop (st.send_offset - start) bytes) st
    else sent success outs st

abbrev pub next_part : (at_zero : Errno) → (start : ℕ) → List ℕ → Sent → Sent
next_part at_zero start bytes s = elim s.ret [
  | success ↦ send_part at_zero start bytes s.outs s.st
  | failure e ↦ s
]

abbrev pub send_parts : OutReq → List Outcome → Sender → Sent
send_parts r outs st =
    next_part enodata (hsize r + dsize r) r.file
      (next_part econnreset (hsize r) r.data_ (send_part econnreset 0 r.header outs st))

abbrev pub is_again : Errno → Bool
is_again eagain = true
is_again _ = false

-- An error but for -EAGAIN ends the connection.
abbrev pub exit_with : Errno → Sender → Sender
exit_with e st = record st { need_exit = (if is_again e then st.need_exit else some e) }

abbrev pub note : Status → Sent → Sent
note success s = s
note (failure e) s = record s { st = exit_with e s.st }

abbrev pub noted : Sent → Sent
noted s = note s.ret s

unfoldable pub send_request : OutReq → List Outcome → Sender → Sent
send_request r outs st = noted (send_parts r outs st)

abbrev pub total_size : OutReq → ℕ
total_size r = hsize r + dsize r + fsize r

abbrev send_watermark_low : ℕ
send_watermark_low = 512 * 100

-- A reply less: at the low watermark those who wait to reply are woken up.
abbrev replied : Sender → Sender
replied st =
    let size = st.send_queue_size - 1 in
    record st {
      send_queue_size = size;
      wakes =
          (if ltb 0 st.send_queue_size && (size == send_watermark_low)
            then st.wakes + 1
            else st.wakes);
    }

-- A request that is sent as a whole leaves the queue.
abbrev pub unqueued : OutReq → List OutReq → Sender → Sender
unqueued r rs st =
    if st.send_offset == total_size r
    then record (replied st) { send_list = rs; send_offset = 0 }
    else st

abbrev pub unless_error :
    (again : List Outcome → Sender → Option Sent) → List Outcome → Sender → Status → Option Sent
unless_error again outs st success = again outs st
unless_error again outs st (failure e) = some (sent (failure e) outs st)

-- One turn of the loop, with the queue that it finds.
abbrev pub send_first :
    (again : List Outcome → Sender → Option Sent)
    → List Outcome
    → Sender
    → List OutReq
    → Option Sent
send_first again outs st [] = some (sent (failure eagain) outs (record st { scheduled = false }))
send_first again outs st (r ∷ rs) =
    let s = send_request r outs st in unless_error again s.outs (unqueued r rs s.st) s.ret

-- `dnet_process_send_single` on fuel.
unfoldable pub process_send_single : (fuel : ℕ) → List Outcome → Sender → Option Sent
process_send_single zero outs st = none
process_send_single (suc fuel) outs st = send_first (process_send_single fuel) outs st st.send_list

-- `dnet_io_req_queue`, `memory` for its `malloc`.
unfoldable pub io_req_queue : (memory : Bool) → OutReq → Sender → Status × Sender
io_req_queue memory r st =
    if memory
    then (
      success,
      record st {
        send_list = st.send_list ++ r ∷ [];
        scheduled = elim st.need_exit [ none ↦ true | some e ↦ st.scheduled ];
      },
    )
    else (failure enomem, st)
