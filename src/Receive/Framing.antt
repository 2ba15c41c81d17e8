-- ===== src/Receive/Framing.antt =====
-- However the bytes of a connection arrive, the messages that were sent are cut out of them.
use elliptics.Prelude.{
  ℕ, zero, suc, ◌+◌, ◌-◌, ◌%◌, ==→eq, ◌^◌, if◌then◌else◌, Bool, ◌≤◌, ◌<◌, ◌≡◌, refl, ◌∙◌, sym, ap,
  ◌⊎◌, inl, inr, true, false, some, List, [], ◌∷◌, ◌++◌, ◌==◌, arith, success, length, take, drop,
  length-append, All, Bool-cases,
}
use mathlib.Core.List.{append-nil, append_assoc}
use elliptics.Packet.{Cmd, cmd_size, cmd_encode, cmd_decode}
use elliptics.Packet.Layout.{IsWide, decode-encode, length-cmd_encode}
use elliptics.Receive.{
  Outcome, upto, fault, closed, Receiver, Received, schedule_command, rcv_offset, rcv_end,
  recv_size, is_read, io_room, smaller, recv_step, recv_left, blocks, completes, recv_data,
  with_header, header_done, recv_header, process_recv_single,
}

take-drop : (n : ℕ) (xs : List ℕ) → take n xs ++ drop n xs ≡ xs
take-drop zero xs = refl
take-drop (suc n) [] = refl
take-drop (suc n) (x ∷ xs) = ap (◌∷◌ x) (take-drop n xs)

length-take-le : (n : ℕ) (xs : List ℕ) → length (take n xs) ≤ n
length-take-le zero xs = omega arith
length-take-le (suc n) [] = omega arith
length-take-le (suc n) (x ∷ xs) = omega (arith, length-take-le n xs)

-- Two splits of one list at one place are one split.
append_cancel :
    (xs ys us vs : List ℕ) → xs ++ ys ≡ us ++ vs → length xs ≡ length us → (xs ≡ us) × (ys ≡ vs)
append_cancel [] ys [] vs e h = (refl, e)
append_cancel [] ys (u ∷ us) vs e h = absurd (omega arith)
append_cancel (x ∷ xs) ys [] vs e h = absurd (omega arith)
append_cancel (x ∷ xs) ys (u ∷ us) vs e h =
    let r = append_cancel xs ys us vs (ground arith) (omega arith) in (ground (arith, r.0), r.1)

-- How many bytes a receiver reads in all, and that this does not wrap.
abbrev pub wanted : Receiver → ℕ
wanted st = if st.rcv_header then cmd_size else st.rcv_cmd.size

abbrev pub IsSized : Receiver → Type 0
IsSized st = wanted st + io_room < 2 ^ 64

room_lem :
    (g w : ℕ)
    → w + io_room < 2 ^ 64
    → g ≤ w
    → ((io_room + w) % 2 ^ 64 + 2 ^ 64 - (io_room + g) % 2 ^ 64) % 2 ^ 64 ≡ w - g
room_lem g w f h = omega (arith, f, h)

header_room_lem :
    (g : ℕ) → g ≤ cmd_size → (cmd_size + 2 ^ 64 - (0 + g) % 2 ^ 64) % 2 ^ 64 ≡ cmd_size - g
header_room_lem g h = omega (arith, h)

pub recv_size_lem :
    (st : Receiver)
    → IsSized st
    → length st.got ≤ wanted st
    → recv_size st ≡ wanted st - length st.got
recv_size_lem st f h = size_of st.rcv_header f h
  where
    size_of :
        (header : Bool)
        → (if header then cmd_size else st.rcv_cmd.size) + io_room < 2 ^ 64
        → length st.got ≤ (if header then cmd_size else st.rcv_cmd.size)
        → ((if header then cmd_size else (io_room + st.rcv_cmd.size) % 2 ^ 64)
              + 2 ^ 64
              - ((if header then 0 else io_room) + length st.got) % 2 ^ 64)
            % 2 ^ 64
          ≡ (if header then cmd_size else st.rcv_cmd.size) - length st.got
    size_of true f h = header_room_lem (length st.got) h
    size_of false f h = room_lem (length st.got) st.rcv_cmd.size f h

pub read_whole :
    (st : Receiver)
    → IsSized st
    → length st.got ≤ wanted st
    → is_read st ≡ true
    → length st.got ≡ wanted st
read_whole st f h e = elim (Bool-cases st.rcv_header) [
  | inl m ↦ ground (arith, m, ==→eq (rcv_offset st) (rcv_end st) e)
  | inr m ↦ ground (arith, m, ==→eq (rcv_offset st) (rcv_end st) e)
]

pub read_part :
    (st : Receiver)
    → IsSized st
    → length st.got ≤ wanted st
    → is_read st ≡ false
    → length st.got < wanted st
read_part st f h e = elim (Bool-cases st.rcv_header) [
  | inl m ↦ ground (arith, m)
  | inr m ↦ ground (arith, m)
]

module _ (outs : List Outcome) (stream : List ℕ) (st : Receiver) where
  pub single_header :
      st.rcv_header ≡ true
      → process_recv_single (λ k. true) outs stream st ≡ recv_header (λ k. true) outs stream st
  unfolding process_recv_single
  single_header h = ground arith

  pub single_data :
      st.rcv_header ≡ false
      → process_recv_single (λ k. true) outs stream st ≡ recv_data outs stream st
  unfolding process_recv_single
  single_data h = ground arith

-- No call meets an error or the end of the connection.
abbrev pub Sound : Outcome → Type 0
Sound (upto n) = Unit
Sound (fault e) = ⊥
Sound closed = ⊥

module _ (c : Cmd) (wide : IsWide c) (body rest : List ℕ) (sized : length body ≡ c.size)
    (fits : c.size + io_room < 2 ^ 64) where
  -- The header or the data is being read, and what was read and what is left of the stream are the
  -- message's bytes and those behind it.
  abbrev pub InHeader : Receiver → List ℕ → Type 0
  InHeader st stream =
      (st.rcv_header ≡ true)
      × (length st.got < cmd_size)
      × (st.got ++ stream ≡ cmd_encode c ++ (body ++ rest))

  abbrev pub InData : Receiver → List ℕ → Type 0
  InData st stream =
      (st.rcv_header ≡ false)
      × (length st.got < c.size)
      × (st.rcv_cmd ≡ c)
      × (st.got ++ stream ≡ body ++ rest)

  -- A call blocks in the middle of the message, or gives it, with the bytes behind it left.
  pub data Progress : Received → Type 0 where
    in_header : (st : Receiver) (stream : List ℕ) → InHeader st stream → Progress (blocks st stream)
    in_data : (st : Receiver) (stream : List ℕ) → InData st stream → Progress (blocks st stream)
    whole :
        (st : Receiver)
        → (st.rcv_header ≡ true) × (st.got ≡ [])
        → Progress (record {
          status = success;
          message = some (record { header = c; data_ = body });
          receiver = st;
          stream = rest;
        })

  -- One `recv` moves bytes from the stream to what was read, not beyond its end.
  pub step_moves :
      (n : ℕ) (stream : List ℕ) (st : Receiver)
      → (recv_step n stream st).got ++ recv_left n stream st ≡ st.got ++ stream
  step_moves n stream st =
      append_assoc st.got _ _ ∙ ap (◌++◌ st.got) (take-drop (smaller (n + 1) (recv_size st)) stream)

  pub step_le :
      (n : ℕ) (stream : List ℕ) (st : Receiver)
      → IsSized st
      → length st.got < wanted st
      → length (recv_step n stream st).got ≤ wanted st
  step_le n stream st f h = ground (
    arith,
    recv_size_lem st f (omega (arith, h)),
    length-append st.got (take (smaller (n + 1) (recv_size st)) stream),
    length-take-le (smaller (n + 1) (recv_size st)) stream,
  )

  data_whole :
      (st : Receiver) (stream : List ℕ)
      → st.rcv_cmd ≡ c
      → length st.got ≡ c.size
      → st.got ++ stream ≡ body ++ rest
      → Progress (completes st stream)
  unfolding schedule_command
  data_whole st stream same full e =
      let (got, left) = append_cancel st.got stream body rest e (full ∙ sym sized) in
      rw (got, left, same)
        (whole (record { rcv_header = true; rcv_cmd = c; got = [] }) (refl, refl))

  data-Progress :
      (outs : List Outcome) (stream : List ℕ) (st : Receiver)
      → All Sound outs
      → InData st stream
      → Progress (recv_data outs stream st)
  unfolding recv_data
  data-Progress [] stream st sound h = in_data st stream h
  data-Progress (fault e ∷ outs) stream st sound h = absurd sound.0
  data-Progress (closed ∷ outs) stream st sound h = absurd sound.0
  data-Progress (upto n ∷ outs) [] st sound h = in_data st [] h
  data-Progress (upto n ∷ outs) (b ∷ bs) st sound (mode, short, same, e) =
      let st' = recv_step n (b ∷ bs) st in
      let left = recv_left n (b ∷ bs) st in
      let end : wanted st ≡ c.size = ground (arith, same) in
      let f : IsSized st = omega (arith, fits, end) in
      let moved = step_moves n (b ∷ bs) st ∙ e in
      let le = step_le n (b ∷ bs) st f (omega (arith, short, end)) in
      elim (Bool-cases (is_read st')) [
        | inl y ↦ rw (y, recv_data) (data_whole st' left same (read_whole st' f le y ∙ end) moved)
        | inr y ↦
            rw (y, recv_data)
              (data-Progress outs left st' sound.1
                (mode, omega (arith, read_part st' f le y, end), same, moved))
      ]

  -- A whole header is the one that was sent.
  pub decoded :
      (stream : List ℕ) (st : Receiver)
      → length st.got ≡ cmd_size
      → st.got ++ stream ≡ cmd_encode c ++ (body ++ rest)
      → (cmd_decode st.got ≡ c) × (stream ≡ body ++ rest)
  decoded stream st full e =
      let (got, left) =
        append_cancel st.got stream (cmd_encode c) (body ++ rest) e
          (full ∙ sym (length-cmd_encode c wide)) in
      (ap cmd_decode (got ∙ sym (append-nil (cmd_encode c))) ∙ decode-encode c [] wide, left)

  header_done-Progress :
      (outs : List Outcome) (stream : List ℕ) (st : Receiver)
      → All Sound outs
      → length st.got ≡ cmd_size
      → st.got ++ stream ≡ cmd_encode c ++ (body ++ rest)
      → Progress (header_done (λ k. true) outs stream st)
  unfolding header_done
  header_done-Progress outs stream st sound full e =
      let (same, left) = decoded stream st full e in
      elim (Bool-cases ((cmd_decode st.got).size == 0)) [
        | inl z ↦
            rw (z, header_done)
              (data_whole (with_header st) stream same (ground (arith, same)) left)
        | inr z ↦
            rw (z, header_done)
              (data-Progress outs stream (with_header st) sound
                (refl, ground (arith, same), same, left))
      ]

  header-Progress :
      (outs : List Outcome) (stream : List ℕ) (st : Receiver)
      → All Sound outs
      → InHeader st stream
      → Progress (recv_header (λ k. true) outs stream st)
  unfolding recv_header
  header-Progress [] stream st sound h = in_header st stream h
  header-Progress (fault e ∷ outs) stream st sound h = absurd sound.0
  header-Progress (closed ∷ outs) stream st sound h = absurd sound.0
  header-Progress (upto n ∷ outs) [] st sound h = in_header st [] h
  header-Progress (upto n ∷ outs) (b ∷ bs) st sound (mode, short, e) =
      let st' = recv_step n (b ∷ bs) st in
      let left = recv_left n (b ∷ bs) st in
      let end : wanted st ≡ cmd_size = ground (arith, mode) in
      let f : IsSized st = omega (arith, end) in
      let moved = step_moves n (b ∷ bs) st ∙ e in
      let le = step_le n (b ∷ bs) st f (omega (arith, short, end)) in
      elim (Bool-cases (is_read st')) [
        | inl y ↦
            rw (y, recv_header)
              (header_done-Progress outs left st' sound.1 (read_whole st' f le y ∙ end) moved)
        | inr y ↦
            rw (y, recv_header)
              (header-Progress outs left st' sound.1
                (mode, omega (arith, read_part st' f le y, end), moved))
      ]

  -- While the bytes of a message and of what follows it arrive, with memory at hand and no error,
  -- and with a size that does not wrap when the sizes of the headers are added, a call blocks in
  -- the middle of the message, with no byte lost, or gives exactly the message and leaves what
  -- follows; however many bytes each recv gives.
  pub recv-Progress :
      (outs : List Outcome) (stream : List ℕ) (st : Receiver)
      → All Sound outs
      → InHeader st stream ⊎ InData st stream
      → Progress (process_recv_single (λ k. true) outs stream st)
  recv-Progress outs stream st sound (inl h) =
      rw (single_header outs stream st h.0) (header-Progress outs stream st sound h)
  recv-Progress outs stream st sound (inr h) =
      rw (single_data outs stream st h.0) (data-Progress outs stream st sound h)
