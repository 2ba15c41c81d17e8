-- ===== src/Send/Streams.antt =====
-- The queue of a connection as one stream of bytes.
use elliptics.Prelude.{
  ℕ, zero, suc, ◌<◌, ◌≤◌, ◌≡◌, refl, sym, ◌∙◌, ap, inl, inr, false, some, List, [], ◌∷◌, ◌++◌,
  arith, ◌==◌, length, drop, Status, success, failure, Bool-cases, Status-cases, drop-append,
  length-drop, ==→eq, ==_refl, eagain,
}
use mathlib.Core.List.{append_assoc, append-nil}
use elliptics.Receive.{Outcome}
use elliptics.Send.{
  OutReq, Sender, Sent, sent, send_request, total_size, unqueued, unless_error, send_first,
  process_send_single,
}
use elliptics.Send.Bytes.{bytes_of, request-Moved, length-bytes_of}

abbrev pub all_bytes : List OutReq → List ℕ
all_bytes [] = []
all_bytes (r ∷ rs) = bytes_of r ++ all_bytes rs

-- What the socket has still to take.
abbrev pub pending : Sender → List ℕ
pending st = drop st.send_offset (all_bytes st.send_list)

abbrev pub InHead : ℕ → List OutReq → Type 0
InHead o [] = o ≡ 0
InHead o (r ∷ rs) = o ≤ total_size r

-- The offset lies in the first request of the queue.
pub record IsPlaced (st : Sender) : Type 0 where
  pub in_head : InHead st.send_offset st.send_list

-- A call that leaves the stream as it is: the wire got what was pending, as far as it got.
pub record Streams (st : Sender) (r : Sent) : Type 0 where
  pub stream : r.st.wire ++ pending r.st ≡ st.wire ++ pending st
  pub placed : IsPlaced r.st

-- The stream, apart from the requests behind the first one.
split :
    (t : Sender) (r : OutReq) (rs : List OutReq)
    → t.send_list ≡ r ∷ rs
    → t.send_offset ≤ length (bytes_of r)
    → t.wire ++ pending t ≡ (t.wire ++ drop t.send_offset (bytes_of r)) ++ all_bytes rs
split t r rs queue h = rw queue (
    ap (t.wire ++◌) (drop-append t.send_offset (bytes_of r) (all_bytes rs) h)
    ∙ sym (append_assoc t.wire (drop t.send_offset (bytes_of r)) (all_bytes rs)))

pub at_start : (rs : List OutReq) → InHead 0 rs
at_start [] = refl
at_start (r ∷ rs) = omega arith

none_left : (bytes : List ℕ) → length bytes ≡ 0 → bytes ≡ []
none_left [] h = refl
none_left (b ∷ bs) h = absurd (omega (arith, h))

-- A request that is sent as a whole may leave.
unqueued-Streams :
    (t : Sender) (r : OutReq) (rs : List OutReq) (e : Status) (outs : List Outcome)
    → t.send_list ≡ r ∷ rs
    → t.send_offset ≤ length (bytes_of r)
    → Streams t (sent e outs (unqueued r rs t))
unqueued-Streams t r rs e outs queue h = elim (Bool-cases (t.send_offset == total_size r)) [
  | inl same ↦
      let end : drop t.send_offset (bytes_of r) ≡ [] = none_left (drop t.send_offset (bytes_of r)) (
        omega (
          arith,
          length-drop t.send_offset (bytes_of r),
          length-bytes_of r,
          ==→eq t.send_offset (total_size r) same,
        )) in
      rw same (record {
        stream = sym (split t r rs queue h ∙ ap (◌++ all_bytes rs) (rw end (append-nil t.wire)));
        placed = record { in_head = at_start rs };
      })
  | inr other ↦ rw other (record {
    stream = refl;
    placed = record { in_head = rw queue (omega (arith, h, length-bytes_of r)) };
  })
]

-- One request of the queue, and what the call leaves.
head-Streams :
    (outs : List Outcome) (st : Sender) (r : OutReq) (rs : List OutReq) (e : Status)
    (left : List Outcome)
    → st.send_list ≡ r ∷ rs
    → st.send_offset ≤ length (bytes_of r)
    → Streams st (sent e left (unqueued r rs (send_request r outs st).st))
head-Streams outs st r rs e left queue h =
    let t = (send_request r outs st).st in
    let m = (request-Moved r outs st h).0 in
    let u = unqueued-Streams t r rs e left (m.queue ∙ queue) m.bound in
    record {
      stream =
          u.stream
          ∙ (split t r rs (m.queue ∙ queue) m.bound
              ∙ (ap (◌++ all_bytes rs) m.wire ∙ sym (split st r rs queue h)));
      placed = u.placed;
    }

Streams-trans :
    (a b : Sender) (r : Sent)
    → a.wire ++ pending a ≡ b.wire ++ pending b
    → Streams b r
    → Streams a r
Streams-trans a b r h k = record { stream = k.stream ∙ sym h; placed = k.placed }

-- A request that is sent without an error is sent as a whole.
shorter :
    (outs : List Outcome) (st : Sender) (r : OutReq) (rs : List OutReq)
    → st.send_list ≡ r ∷ rs
    → st.send_offset ≤ length (bytes_of r)
    → (send_request r outs st).ret ≡ success
    → length (unqueued r rs (send_request r outs st).st).send_list ≡ length rs
shorter outs st r rs queue h e =
    let t = (send_request r outs st).st in
    let whole : t.send_offset ≡ total_size r = (request-Moved r outs st h).1 e in
    rw (whole, ==_refl (total_size r)) refl

-- The end of a loop over the queue `q` of `st`.
EndsInOrder : ℕ → List Outcome → Sender → Type 0
EndsInOrder fuel outs st = (r : Sent) × ((process_send_single fuel outs st ≡ some r) × Streams st r)

ends_by :
    (fuel : ℕ) (outs : List Outcome) (st : Sender) (q : List OutReq)
    → ((outs' : List Outcome) (st' : Sender)
        → IsPlaced st'
        → length st'.send_list < fuel
        → EndsInOrder fuel outs' st')
    → st.send_list ≡ q
    → InHead st.send_offset q
    → length q < suc fuel
    → EndsInOrder (suc fuel) outs st
unfolding EndsInOrder process_send_single
ends_by fuel outs st [] again queue placed h =
    let r = sent (failure eagain) outs (record st { scheduled = false }) in
    let run : process_send_single (suc fuel) outs st ≡ some r =
      ap (send_first (process_send_single fuel) outs st) queue in
    (r, (run, record { stream = refl; placed = record { in_head = rw queue placed } }))
ends_by fuel outs st (q ∷ qs) again queue placed h =
    let s = send_request q outs st in
    let st1 = unqueued q qs s.st in
    let p : st.send_offset ≤ length (bytes_of q) = omega (arith, placed, length-bytes_of q) in
    elim (Status-cases s.ret) [
      | inl e ↦
          let first = head-Streams outs st q qs success s.outs queue p in
          let (r, (run, later)) =
            again s.outs st1 first.placed (omega (arith, h, shorter outs st q qs queue p e)) in
          let here : process_send_single (suc fuel) outs st ≡ some r =
            ap (send_first (process_send_single fuel) outs st) queue
            ∙ (ap (unless_error (process_send_single fuel) s.outs st1) e ∙ run) in
          (r, (here, Streams-trans st st1 r (sym first.stream) later))
      | inr (n, e) ↦
          let here : process_send_single (suc fuel) outs st ≡ some (sent (failure n) s.outs st1) =
            ap (send_first (process_send_single fuel) outs st) queue
            ∙ ap (unless_error (process_send_single fuel) s.outs st1) e in
          (_, (here, head-Streams outs st q qs (failure n) s.outs queue p))
    ]

-- With fuel above the length of the queue, the loop ends, and what the wire got and what is pending
-- are together what they were.
pub process_send_single-Streams :
    (fuel : ℕ) (outs : List Outcome) (st : Sender)
    → IsPlaced st
    → length st.send_list < fuel
    → (r : Sent) × ((process_send_single fuel outs st ≡ some r) × Streams st r)
unfolding EndsInOrder
process_send_single-Streams zero outs st placed h = absurd (omega (arith, h))
process_send_single-Streams (suc fuel) outs st placed h =
    ends_by fuel outs st st.send_list (process_send_single-Streams fuel) refl placed.in_head h
