-- ===== src/Send/Delivered.antt =====
-- The queue on a socket that goes on taking bytes.
use elliptics.Prelude.{
  ℕ, zero, suc, ◌+◌, ◌-◌, ◌<◌, ◌≤◌, ◌≡◌, refl, sym, ◌∙◌, ap, inl, inr, not, ◌&&◌, Option, none,
  some, List, [], ◌∷◌, ◌++◌, arith, ◌==◌, ltb, length, drop, Errno, Status, success, failure,
  Bool-cases, length-append, length-drop, All, ==_refl, econnreset, enodata, drop_nil,
}
use mathlib.Core.List.{append-nil}
use mathlib.Core.Path.{subst}
use elliptics.Receive.{Outcome, upto, fault, closed}
use elliptics.Receive.Framing.{Sound}
use elliptics.Send.{
  OutReq, Sender, Sent, hsize, dsize, accepted, advance, send_bytes, send_part, next_part,
  send_parts, note, send_request, total_size, unqueued, unless_error, send_first,
  process_send_single,
}
use elliptics.Send.Bytes.{bytes_of, request-Moved, length-bytes_of, part-Through, next-Through}
use elliptics.Send.Streams.{
  all_bytes, pending, InHead, at_start, IsPlaced, process_send_single-Streams,
}

-- From the offset up to `end`, there is a call of `send` that takes something for each byte.
record Enough (end : ℕ) (outs : List Outcome) (st : Sender) : Type 0 where
  sound : All Sound outs
  calls : end ≤ length outs + st.send_offset

-- A call that goes well and leaves enough.
record GoesOn (end : ℕ) (st : Sender) (r : Sent) : Type 0 where
  ret : r.ret ≡ success
  enough : Enough end r.outs r.st
  queue : r.st.send_list ≡ st.send_list

bytes-GoesOn :
    (at_zero : Errno) (end : ℕ) (outs : List Outcome) (bytes : List ℕ) (st : Sender)
    → st.send_offset + length bytes ≤ end
    → Enough end outs st
    → GoesOn end st (send_bytes at_zero outs bytes st)
unfolding send_bytes
bytes-GoesOn at_zero end outs [] st b h = record { ret = refl; enough = h; queue = refl }
bytes-GoesOn at_zero end [] (x ∷ xs) st b h = absurd (omega (arith, b, h.calls))
bytes-GoesOn at_zero end (fault e ∷ outs) (x ∷ xs) st b h = absurd h.sound.0
bytes-GoesOn at_zero end (closed ∷ outs) (x ∷ xs) st b h = absurd h.sound.0
bytes-GoesOn at_zero end (upto n ∷ outs) (x ∷ xs) st b h =
    let bytes = x ∷ xs in
    let k = accepted n bytes in
    let le : k ≤ length bytes = ground arith in
    let one : 1 ≤ k = ground arith in
    let g =
      bytes-GoesOn at_zero end outs (drop k bytes) (advance k bytes st)
        (omega (arith, b, le, length-drop k bytes))
        (record { sound = h.sound.1; calls = omega (arith, h.calls, one) }) in
    record { ret = g.ret; enough = g.enough; queue = g.queue }

part-GoesOn :
    (at_zero : Errno) (end start : ℕ) (bytes : List ℕ) (outs : List Outcome) (st : Sender)
    → start ≤ st.send_offset
    → start + length bytes ≤ end
    → Enough end outs st
    → GoesOn end st (send_part at_zero start bytes outs st)
unfolding send_part
part-GoesOn at_zero end start bytes outs st b l h =
    let o = st.send_offset - start in
    elim (Bool-cases (not (length bytes == 0) && ltb st.send_offset (start + length bytes))) [
      | inl e ↦ rw e (
          bytes-GoesOn at_zero end outs (drop o bytes) st (ground (arith, e, length-drop o bytes))
            h)
      | inr e ↦ rw e (record { ret = refl; enough = h; queue = refl })
    ]

next-GoesOn :
    (at_zero : Errno) (end start : ℕ) (bytes : List ℕ) (st : Sender) (s : Sent)
    → start ≤ s.st.send_offset
    → start + length bytes ≤ end
    → GoesOn end st s
    → GoesOn end st (next_part at_zero start bytes s)
next-GoesOn at_zero end start bytes st s b l g =
    let p = part-GoesOn at_zero end start bytes s.outs s.st b l g.enough in
    rw g.ret (record { ret = p.ret; enough = p.enough; queue = p.queue ∙ g.queue })

note-GoesOn :
    (q : Status) (end : ℕ) (st : Sender) (s : Sent)
    → q ≡ success
    → GoesOn end st s
    → GoesOn end st (note q s)
note-GoesOn success end st s e g = g
note-GoesOn (failure n) end st s e g = absurd (ground (arith, e))

parts-GoesOn :
    (end : ℕ) (r : OutReq) (outs : List Outcome) (st : Sender)
    → st.send_offset ≤ length (bytes_of r)
    → total_size r ≤ end
    → Enough end outs st
    → GoesOn end st (send_parts r outs st)
parts-GoesOn end r outs st b l h =
    let all = bytes_of r in
    let s1 = send_part econnreset 0 r.header outs st in
    let t1 =
      part-Through econnreset all [] r.header (r.data_ ++ r.file) outs st refl (omega arith) b in
    let g1 = part-GoesOn econnreset end 0 r.header outs st (omega arith) (omega (arith, l)) h in
    let s2 = next_part econnreset (hsize r) r.data_ s1 in
    let t2 =
      next-Through econnreset all r.header r.data_ r.file st s1 refl
        (record { moved = t1.moved; through = λ e. omega (arith, t1.through e) }) in
    let g2 =
      next-GoesOn econnreset end (hsize r) r.data_ st s1 (omega (arith, t1.through g1.ret))
        (omega (arith, l)) g1 in
    next-GoesOn enodata end (hsize r + dsize r) r.file st s2 (t2.through g2.ret) (omega (arith, l))
      g2

request-GoesOn :
    (end : ℕ) (r : OutReq) (outs : List Outcome) (st : Sender)
    → st.send_offset ≤ length (bytes_of r)
    → total_size r ≤ end
    → Enough end outs st
    → GoesOn end st (send_request r outs st)
unfolding send_request
request-GoesOn end r outs st b l h =
    let g = parts-GoesOn end r outs st b l h in
    note-GoesOn (send_parts r outs st).ret end st (send_parts r outs st) g.ret g

-- A request that was sent is off the queue, and for the rest there are calls enough.
record Shorter (rs : List OutReq) (outs : List Outcome) (st : Sender) : Type 0 where
  list : st.send_list ≡ rs
  offset : st.send_offset ≡ 0
  enough : Enough (length (all_bytes rs)) outs st

head-Shorter :
    (outs : List Outcome) (st : Sender) (r : OutReq) (rs : List OutReq)
    → st.send_offset ≤ length (bytes_of r)
    → Enough (length (all_bytes (r ∷ rs))) outs st
    → ((send_request r outs st).ret ≡ success)
      × Shorter rs (send_request r outs st).outs (unqueued r rs (send_request r outs st).st)
head-Shorter outs st r rs b h =
    let s = send_request r outs st in
    let sum = length-append (bytes_of r) (all_bytes rs) in
    let g =
      request-GoesOn (length (all_bytes (r ∷ rs))) r outs st b
        (omega (arith, sum, length-bytes_of r)) h in
    let whole : s.st.send_offset ≡ total_size r = (request-Moved r outs st b).1 g.ret in
    let left : length (all_bytes rs) ≤ length s.outs + 0 =
      omega (arith, g.enough.calls, whole, sum, length-bytes_of r) in
    (
      g.ret,
      rw (whole, ==_refl (total_size r))
          (record {
            list = refl;
            offset = refl;
            enough = record { sound = g.enough.sound; calls = left };
          }),
    )

Empties : ℕ → List Outcome → Sender → Type 0
Empties fuel outs st =
    (r : Sent) × ((process_send_single fuel outs st ≡ some r) × (r.st.send_list ≡ []))

empties :
    (fuel : ℕ) (outs : List Outcome) (st : Sender) (q : List OutReq)
    → st.send_list ≡ q
    → InHead st.send_offset q
    → length q < fuel
    → Enough (length (all_bytes q)) outs st
    → Empties fuel outs st
unfolding Empties process_send_single
empties zero outs st q queue placed h n = absurd (omega (arith, h))
empties (suc fuel) outs st [] queue placed h n =
    (_, (ap (send_first (process_send_single fuel) outs st) queue, queue))
empties (suc fuel) outs st (q ∷ qs) queue placed h n =
    let s = send_request q outs st in
    let st1 = unqueued q qs s.st in
    let (e, d) = head-Shorter outs st q qs (omega (arith, placed, length-bytes_of q)) n in
    let start : InHead st1.send_offset qs =
      subst (λ (o : ℕ). InHead o qs) (sym d.offset) (at_start qs) in
    let (r, (run, done)) = empties fuel s.outs st1 qs d.list start (omega (arith, h)) d.enough in
    (
      r,
      (
        ap (send_first (process_send_single fuel) outs st) queue
            ∙ (ap (unless_error (process_send_single fuel) s.outs st1) e ∙ run),
        done,
      ),
    )

emptied-pending : (st : Sender) → st.send_list ≡ [] → pending st ≡ []
emptied-pending st e = rw e (drop_nil st.send_offset)

abbrev value_or : Sent → Option Sent → Sent
value_or s none = s
value_or s (some r) = r

-- With fuel above the length of the queue, an offset inside its first request, and a socket that
-- takes something in as many calls as there are bytes to send and does not fail, the loop ends
-- with an empty queue, and the wire got all the bytes that were pending, in order.
pub process_send_single-delivers :
    (fuel : ℕ) (outs : List Outcome) (st : Sender)
    → IsPlaced st
    → length st.send_list < fuel
    → All Sound outs
    → length (all_bytes st.send_list) ≤ length outs + st.send_offset
    → (r : Sent) × ((process_send_single fuel outs st ≡ some r)
        × ((r.st.send_list ≡ []) × (r.st.wire ≡ st.wire ++ pending st)))
unfolding Empties
process_send_single-delivers fuel outs st placed h sound calls =
    let (r, (run, done)) =
      empties fuel outs st st.send_list refl placed.in_head h
        (record { sound = sound; calls = calls }) in
    let (t, (same, streams)) = process_send_single-Streams fuel outs st placed h in
    let is : t ≡ r = ap (value_or t) (sym same ∙ run) in
    let stream : r.st.wire ++ pending r.st ≡ st.wire ++ pending st =
      subst (λ (u : Sent). u.st.wire ++ pending u.st ≡ st.wire ++ pending st) is streams.stream in
    (
      r,
      (
        run,
        (
          done,
          sym (append-nil r.st.wire)
              ∙ (ap (r.st.wire ++◌) (sym (emptied-pending r.st done)) ∙ stream),
        ),
      ),
    )
