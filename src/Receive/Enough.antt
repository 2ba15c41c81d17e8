-- ===== src/Receive/Enough.antt =====
-- How many reads a message needs.
use elliptics.Prelude.{
  ℕ, ◌+◌, ◌^◌, some, ◌≤◌, ◌<◌, ◌≡◌, refl, ◌∙◌, ap, inl, inr, true, List, [], ◌∷◌, ◌++◌, ◌==◌, arith,
  success, length, take, length-append, All, Bool-cases, zero, suc,
}
use elliptics.Packet.{Cmd, cmd_size, cmd_encode, cmd_decode}
use elliptics.Packet.Layout.{IsWide, length-cmd_encode}
use elliptics.Receive.{
  Outcome, upto, fault, closed, Receiver, Received, recv_size, is_read, io_room, smaller, recv_step,
  recv_left, recv_data, with_header, header_done, recv_header, process_recv_single,
}
use elliptics.Receive.Framing.{
  wanted, IsSized, recv_size_lem, read_whole, read_part, Progress, in_header, in_data, whole,
  recv-Progress, Sound, InHeader, InData, step_moves, step_le, decoded, single_header,
}

-- Every `recv` that finds a byte gives one at least.
step_gains :
    (n : ℕ) (b : ℕ) (bs : List ℕ) (st : Receiver)
    → IsSized st
    → length st.got < wanted st
    → length st.got + 1 ≤ length (recv_step n (b ∷ bs) st).got
step_gains n b bs st f h = ground (
  arith,
  recv_size_lem st f (omega (arith, h)),
  length-append st.got (take (smaller (n + 1) (recv_size st)) (b ∷ bs)),
  takes_one (smaller (n + 1) (recv_size st)),
)
  where
    takes_one : (m : ℕ) → 1 ≤ m → 1 ≤ length (take m (b ∷ bs))
    takes_one zero e = e
    takes_one (suc m) e = omega arith

module _ (c : Cmd) (wide : IsWide c) (body rest : List ℕ) (sized : length body ≡ c.size)
    (fits : c.size + io_room < 2 ^ 64) where
  data_enough :
      (outs : List Outcome) (stream : List ℕ) (st : Receiver)
      → All Sound outs
      → InData c wide body rest sized fits st stream
      → c.size ≤ length st.got + length outs
      → (recv_data outs stream st).status ≡ success
  unfolding recv_data
  data_enough [] stream st sound h f = absurd (omega (arith, h.1))
  data_enough (fault e ∷ outs) stream st sound h f = absurd sound.0
  data_enough (closed ∷ outs) stream st sound h f = absurd sound.0
  data_enough (upto n ∷ outs) [] st sound (mode, short, same, e) f =
      absurd (omega (arith, ap length e, length-append st.got [], length-append body rest, sized))
  data_enough (upto n ∷ outs) (b ∷ bs) st sound (mode, short, same, e) f =
      let st' = recv_step n (b ∷ bs) st in
      let left = recv_left n (b ∷ bs) st in
      let end : wanted st ≡ c.size = ground (arith, same) in
      let sz : IsSized st = omega (arith, fits, end) in
      let moved = step_moves c wide body rest sized fits n (b ∷ bs) st ∙ e in
      let le = step_le c wide body rest sized fits n (b ∷ bs) st sz (omega (arith, short, end)) in
      let more_read = step_gains n b bs st sz (omega (arith, short, end)) in
      elim (Bool-cases (is_read st')) [
        | inl y ↦ rw (y, recv_data) refl
        | inr y ↦
            rw (y, recv_data)
              (data_enough outs left st' sound.1
                (mode, omega (arith, read_part st' sz le y, end), same, moved)
                (omega (arith, f, more_read)))
      ]

  header_done_enough :
      (outs : List Outcome) (stream : List ℕ) (st : Receiver)
      → All Sound outs
      → length st.got ≡ cmd_size
      → st.got ++ stream ≡ cmd_encode c ++ (body ++ rest)
      → c.size ≤ length outs
      → (header_done (λ k. true) outs stream st).status ≡ success
  unfolding header_done
  header_done_enough outs stream st sound full e f =
      let (same, left) = decoded c wide body rest sized fits stream st full e in
      elim (Bool-cases ((cmd_decode st.got).size == 0)) [
        | inl z ↦ rw (z, header_done) refl
        | inr z ↦
            rw (z, header_done)
              (data_enough outs stream (with_header st) sound
                (refl, ground (arith, same), same, left) (omega (arith, f)))
      ]

  header_enough :
      (outs : List Outcome) (stream : List ℕ) (st : Receiver)
      → All Sound outs
      → InHeader c wide body rest sized fits st stream
      → cmd_size + c.size ≤ length st.got + length outs
      → (recv_header (λ k. true) outs stream st).status ≡ success
  unfolding recv_header
  header_enough [] stream st sound h f = absurd (omega (arith, h.1))
  header_enough (fault e ∷ outs) stream st sound h f = absurd sound.0
  header_enough (closed ∷ outs) stream st sound h f = absurd sound.0
  header_enough (upto n ∷ outs) [] st sound (mode, short, e) f = absurd (
      omega (
        arith,
        ap length e,
        length-append st.got [],
        length-append (cmd_encode c) (body ++ rest),
        length-cmd_encode c wide,
      ))
  header_enough (upto n ∷ outs) (b ∷ bs) st sound (mode, short, e) f =
      let st' = recv_step n (b ∷ bs) st in
      let left = recv_left n (b ∷ bs) st in
      let end : wanted st ≡ cmd_size = ground (arith, mode) in
      let sz : IsSized st = omega (arith, end) in
      let moved = step_moves c wide body rest sized fits n (b ∷ bs) st ∙ e in
      let le = step_le c wide body rest sized fits n (b ∷ bs) st sz (omega (arith, short, end)) in
      let more_read = step_gains n b bs st sz (omega (arith, short, end)) in
      elim (Bool-cases (is_read st')) [
        | inl y ↦
            rw (y, recv_header)
              (header_done_enough outs left st' sound.1 (read_whole st' sz le y ∙ end) moved
                (omega (arith, f, short)))
        | inr y ↦
            rw (y, recv_header)
              (header_enough outs left st' sound.1
                (mode, omega (arith, read_part st' sz le y, end), moved)
                (omega (arith, f, more_read)))
      ]

  -- The message is given, the receiver waits for the next header, and the rest is left.
  pub record Given (r : Received) : Type 0 where
    pub status : r.status ≡ success
    pub message : r.message ≡ some (record { header = c; data_ = body })
    pub next : (r.receiver.rcv_header ≡ true) × (r.receiver.got ≡ [])
    pub left : r.stream ≡ rest

  Progress-Given :
      (r : Received) → Progress c wide body rest sized fits r → r.status ≡ success → Given r
  Progress-Given _ (in_header st stream h) e = absurd (ground (arith, e))
  Progress-Given _ (in_data st stream h) e = absurd (ground (arith, e))
  Progress-Given _ (whole st next) e = record {
    status = refl;
    message = refl;
    next = next;
    left = refl;
  }

  -- From the start of a message whose bytes have all arrived, with memory at hand, no error, and a
  -- size that does not wrap when the sizes of the headers are added, one call with as many reads
  -- as the message has bytes gives exactly the message, leaves what follows it, and is ready for
  -- the next one, however many bytes each read gives.
  pub recv_enough :
      (outs : List Outcome) (st : Receiver)
      → All Sound outs
      → (st.rcv_header ≡ true) × (st.got ≡ [])
      → cmd_size + c.size ≤ length outs
      → Given (process_recv_single (λ k. true) outs (cmd_encode c ++ (body ++ rest)) st)
  recv_enough outs st sound (mode, empty) f =
      let stream = cmd_encode c ++ (body ++ rest) in
      let start : InHeader c wide body rest sized fits st stream =
        (mode, rw empty (omega arith), rw empty refl) in
      Progress-Given _ (recv-Progress c wide body rest sized fits outs stream st sound (inl start))
        (rw (single_header outs stream st mode)
          (header_enough outs stream st sound start (omega (arith, f))))
