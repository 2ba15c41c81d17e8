-- ===== src/Receive.antt =====
-- library/pool.c: how messages are cut out of the bytes of a connection, and which of the received
-- messages a worker takes.
pub mod Framing
pub mod Enough
pub mod Queue
use elliptics.Prelude.{
  ℕ, ◌+◌, ◌-◌, ◌≤◌, Bool, true, false, Option, none, some, List, [], ◌∷◌, ◌++◌, ltb, ◌==◌,
  if◌then◌else◌, Status, success, failure, eagain, eintr, ◌%◌, enomem, econnreset, Errno, length,
  take, drop, set, get_elem?, ◌^◌, zero, suc,
}
use elliptics.Packet.{Cmd, cmd_size, cmd_decode, has_flag, tid_of, trans_reply, more, nolock}

-- What one call of `recv` meets: at most as many bytes and one more at once, an error, or the end of
-- the connection. Where no byte is there it would block.
pub data Outcome : Type 0 where
  upto : ℕ → Outcome
  fault : Errno → Outcome
  closed : Outcome

-- The receiving side of `struct dnet_net_state`. `rcv_header` is the flag DNET_IO_CMD, and `got` has
-- the bytes before `rcv_offset` of what is being read, a header or the data behind it.
pub record Receiver : Type 0 where
  pub rcv_header : Bool
  pub rcv_cmd : Cmd
  pub got : List ℕ

-- `struct dnet_io_req` as it goes to the workers.
pub record IoReq : Type 0 where
  pub header : Cmd
  pub data_ : List ℕ

-- The outcome of a call: the status, the message if there is one, and what is left.
pub record Received : Type 0 where
  pub status : Status
  pub message : Option IoReq
  pub receiver : Receiver
  pub stream : List ℕ

-- `dnet_schedule_command`
unfoldable pub schedule_command : Receiver → Receiver
schedule_command st = record st { rcv_header = true; got = [] }

-- A `struct dnet_io_req` of 80 bytes, as on a 64-bit machine, and the header stand before the data.
abbrev pub io_room : ℕ
io_room = 80 + cmd_size

-- The fields of 64 bits that say how far the reading is and where it is to end.
abbrev pub rcv_offset : Receiver → ℕ
rcv_offset st = ((if st.rcv_header then 0 else io_room) + length st.got) % 2 ^ 64

abbrev pub rcv_end : Receiver → ℕ
rcv_end st = if st.rcv_header then cmd_size else (io_room + st.rcv_cmd.size) % 2 ^ 64

-- `size`, the difference of the two.
abbrev pub recv_size : Receiver → ℕ
recv_size st = (rcv_end st + 2 ^ 64 - rcv_offset st) % 2 ^ 64

abbrev pub is_read : Receiver → Bool
is_read st = rcv_offset st == rcv_end st

abbrev pub smaller : ℕ → ℕ → ℕ
smaller a b = if ltb a b then a else b

-- What one `recv` of at most `size` bytes puts in place.
abbrev pub recv_step : ℕ → List ℕ → Receiver → Receiver
recv_step n stream st = record st { got = st.got ++ take (smaller (n + 1) (recv_size st)) stream }

abbrev pub recv_left : ℕ → List ℕ → Receiver → List ℕ
recv_left n stream st = drop (smaller (n + 1) (recv_size st)) stream

abbrev pub fails : Errno → Receiver → List ℕ → Received
fails e st stream = record {
  status = failure e;
  message = none;
  receiver = schedule_command st;
  stream = stream;
}

abbrev pub blocks : Receiver → List ℕ → Received
blocks st stream = record {
  status = failure eagain;
  message = none;
  receiver = st;
  stream = stream;
}

-- An error of `recv`: -EAGAIN and -EINTR leave what was read for the next call.
abbrev pub recv_fails : Errno → Receiver → List ℕ → Received
recv_fails eagain st stream = blocks st stream
recv_fails eintr st stream = blocks st stream
recv_fails e st stream = fails e st stream

abbrev pub completes : Receiver → List ℕ → Received
completes st stream = record {
  status = success;
  message = some (record { header = st.rcv_cmd; data_ = st.got });
  receiver = schedule_command st;
  stream = stream;
}

-- The reading of the data behind a header.
unfoldable pub recv_data : List Outcome → List ℕ → Receiver → Received
recv_data [] stream st = blocks st stream
recv_data (fault e ∷ outs) stream st = recv_fails e st stream
recv_data (closed ∷ outs) stream st = fails econnreset st stream
recv_data (upto n ∷ outs) [] st = blocks st []
recv_data (upto n ∷ outs) (b ∷ bs) st =
    let st' = recv_step n (b ∷ bs) st in
    let left = recv_left n (b ∷ bs) st in
    let rest = recv_data outs left st' in if is_read st' then completes st' left else rest

-- The header has come whole: what it says is kept, and the data behind it is read, if there is any.
abbrev pub with_header : Receiver → Receiver
with_header st = record { rcv_header = false; rcv_cmd = cmd_decode st.got; got = [] }

-- `malloc` with a sum of 64 bits. Where the sum wraps, `recv` writes behind the buffer; what that does
-- to other memory is not modelled.
unfoldable pub header_done :
    (memory : (size : ℕ) → Bool) → List Outcome → List ℕ → Receiver → Received
header_done memory outs stream st =
    let st' = with_header st in
    let rest = recv_data outs stream st' in
    if memory ((st'.rcv_cmd.size + io_room) % 2 ^ 64)
    then (if st'.rcv_cmd.size == 0 then completes st' stream else rest)
    else fails enomem st stream

unfoldable pub recv_header :
    (memory : (size : ℕ) → Bool) → List Outcome → List ℕ → Receiver → Received
recv_header memory [] stream st = blocks st stream
recv_header memory (fault e ∷ outs) stream st = recv_fails e st stream
recv_header memory (closed ∷ outs) stream st = fails econnreset st stream
recv_header memory (upto n ∷ outs) [] st = blocks st []
recv_header memory (upto n ∷ outs) (b ∷ bs) st =
    let st' = recv_step n (b ∷ bs) st in
    let left = recv_left n (b ∷ bs) st in
    let rest = recv_header memory outs left st' in
    if is_read st' then header_done memory outs left st' else rest

-- `dnet_process_recv_single`, with the outcome of its one `malloc` by the size asked for.
unfoldable pub process_recv_single :
    (memory : (size : ℕ) → Bool) → List Outcome → List ℕ → Receiver → Received
process_recv_single memory outs stream st =
    if st.rcv_header then recv_header memory outs stream st else recv_data outs stream st

-- The two queues of `struct dnet_io`; a message goes to the end of one of them.
pub record Pools : Type 0 where
  pub recv_pool : List IoReq
  pub recv_pool_nb : List IoReq

unfoldable pub schedule_io : IoReq → Pools → Pools
schedule_io r io =
    if has_flag r.header.flags nolock
    then record io { recv_pool_nb = io.recv_pool_nb ++ r ∷ [] }
    else record io { recv_pool = io.recv_pool ++ r ∷ [] }

-- ~0ULL, the claim of a thread that has none.
abbrev pub unclaimed : ℕ
unclaimed = 2 ^ 64 - 1

abbrev pub is_reply : IoReq → Bool
is_reply r = has_flag r.header.trans trans_reply

abbrev pub req_tid : IoReq → ℕ
req_tid r = tid_of r.header.trans

-- The first thread that claims a transaction, from thread `i` on.
unfoldable pub claimant : List ℕ → (i tid : ℕ) → Option ℕ
claimant [] i tid = none
claimant (c ∷ cs) i tid = if c == tid then some i else claimant cs (i + 1) tid

-- A message that a thread takes: the threads' claims then, and the queue without it.
pub record Job : Type 0 where
  pub request : IoReq
  pub claims : List ℕ
  pub queue : List IoReq

abbrev pub behind : IoReq → Option Job → Option Job
behind r none = none
behind r (some j) = some (record j { queue = r ∷ j.queue })

-- What the claims say of a reply: the claims with which thread `me` takes it, or none.
abbrev pub own_claim : (claims : List ℕ) → (me : ℕ) → IoReq → (i : ℕ) → Option (List ℕ)
own_claim claims me r i =
    if i == me
    then some (if has_flag r.header.flags more then claims else set claims me unclaimed)
    else none

abbrev pub new_claim : (claims : List ℕ) → (me : ℕ) → IoReq → Option ℕ → Option (List ℕ)
new_claim claims me r none = none
new_claim claims me r (some mine) =
    if mine == unclaimed
    then some (if has_flag r.header.flags more then set claims me (req_tid r) else claims)
    else none

abbrev pub found_claim : (claims : List ℕ) → (me : ℕ) → IoReq → Option ℕ → Option (List ℕ)
found_claim claims me r none = new_claim claims me r (get_elem? claims me)
found_claim claims me r (some i) = own_claim claims me r i

unfoldable pub may_take : (claims : List ℕ) → (me : ℕ) → IoReq → Option (List ℕ)
may_take claims me r =
    if is_reply r then found_claim claims me r (claimant claims 0 (req_tid r)) else some claims

abbrev pub take_or : IoReq → List IoReq → Option (List ℕ) → Option Job → Option Job
take_or r rs none later = behind r later
take_or r rs (some claims) later = some (record { request = r; claims = claims; queue = rs })

-- `take_request`, and the removal of what it finds from the queue.
unfoldable pub take_request : (claims : List ℕ) → (me : ℕ) → List IoReq → Option Job
take_request claims me [] = none
take_request claims me (r ∷ rs) = take_or r rs (may_take claims me r) (take_request claims me rs)

-- The part of `dnet_io_process` under the pool's lock, without its wait: the thread drops its claim
-- and looks for a message.
unfoldable pub io_process_take : (claims : List ℕ) → (me : ℕ) → List IoReq → Option Job
io_process_take claims me queue = take_request (set claims me unclaimed) me queue
