-- ===== src/Send/Bytes.antt =====
-- What a call sends of a request: the next bytes, none twice and none left out.
use elliptics.Prelude.{
  ℕ, ◌+◌, ◌-◌, ◌≤◌, ◌≡◌, refl, sym, ◌∙◌, ap, inl, inr, not, ◌&&◌, List, [], ◌∷◌, ◌++◌, arith, ◌==◌,
  ltb, length, take, drop, Errno, Status, success, failure, Bool-cases, Status-cases, length-append,
  length-drop, take-drop, drop-drop, drop-append, drop_past, econnreset, enodata,
}
use mathlib.Core.Path.{subst}
use mathlib.Core.List.{append_assoc, append-nil}
use elliptics.Receive.{Outcome, upto, fault, closed}
use elliptics.Send.{
  OutReq, Sender, Sent, hsize, dsize, accepted, advance, send_bytes, send_part, next_part,
  send_parts, note, send_request, total_size,
}

-- The request's bytes, one after the other.
abbrev pub bytes_of : OutReq → List ℕ
bytes_of r = r.header ++ (r.data_ ++ r.file)

-- The wire gets what it was to get next of `all`, as far as it gets.
pub record Moved (all : List ℕ) (st st' : Sender) : Type 0 where
  pub wire : st'.wire ++ drop st'.send_offset all ≡ st.wire ++ drop st.send_offset all
  pub forward : st.send_offset ≤ st'.send_offset
  pub bound : st'.send_offset ≤ length all
  pub queue : st'.send_list ≡ st.send_list

Moved-trans : (all : List ℕ) (a b c : Sender) → Moved all a b → Moved all b c → Moved all a c
Moved-trans all a b c h k = record {
  wire = k.wire ∙ h.wire;
  forward = omega (arith, h.forward, k.forward);
  bound = k.bound;
  queue = k.queue ∙ h.queue;
}

Moved-same : (all : List ℕ) (st : Sender) → st.send_offset ≤ length all → Moved all st st
Moved-same all st h = record { wire = refl; forward = omega arith; bound = h; queue = refl }

-- One call of `send`: what follows the bytes in the request does not matter.
advance-Moved :
    (all bytes tail : List ℕ) (k : ℕ) (st : Sender)
    → k ≤ length bytes
    → drop st.send_offset all ≡ bytes ++ tail
    → st.send_offset ≤ length all
    → Moved all st (advance k bytes st) × (drop (st.send_offset + k) all ≡ drop k bytes ++ tail)
advance-Moved all bytes tail k st h e b =
    let next : drop (st.send_offset + k) all ≡ drop k bytes ++ tail =
      drop-drop st.send_offset k all ∙ (ap (drop k) e ∙ drop-append k bytes tail h) in
    (
      record {
        wire =
            rw (next, e)
              (append_assoc st.wire (take k bytes) (drop k bytes ++ tail)
                ∙ ap (st.wire ++◌) (
                    sym (append_assoc (take k bytes) (drop k bytes) tail)
                    ∙ ap (◌++ tail) (take-drop k bytes)));
        forward = omega arith;
        bound =
            omega
              (arith, h, b, length-drop st.send_offset all, ap length e, length-append bytes tail);
        queue = refl;
      },
      next,
    )

-- A call that sends `bytes`, which `tail` follows in `all`: after a success all of them are sent.
record Progress (all tail : List ℕ) (st : Sender) (r : Sent) : Type 0 where
  moved : Moved all st r.st
  at_end : r.ret ≡ success → drop r.st.send_offset all ≡ tail

bytes-Progress :
    (at_zero : Errno) (outs : List Outcome) (all bytes tail : List ℕ) (st : Sender)
    → drop st.send_offset all ≡ bytes ++ tail
    → st.send_offset ≤ length all
    → Progress all tail st (send_bytes at_zero outs bytes st)
unfolding send_bytes
bytes-Progress at_zero outs all [] tail st e b = record {
  moved = Moved-same all st b;
  at_end = λ s. e;
}
bytes-Progress at_zero [] all (x ∷ xs) tail st e b = record {
  moved = Moved-same all st b;
  at_end = λ s. absurd (ground (arith, s));
}
bytes-Progress at_zero (fault err ∷ outs) all (x ∷ xs) tail st e b = record {
  moved = Moved-same all st b;
  at_end = λ s. absurd (ground (arith, s));
}
bytes-Progress at_zero (closed ∷ outs) all (x ∷ xs) tail st e b = record {
  moved = Moved-same all st b;
  at_end = λ s. absurd (ground (arith, s));
}
bytes-Progress at_zero (upto n ∷ outs) all (x ∷ xs) tail st e b =
    let bytes = x ∷ xs in
    let k = accepted n bytes in
    let (m, rest) = advance-Moved all bytes tail k st (ground arith) e b in
    let p = bytes-Progress at_zero outs all (drop k bytes) tail (advance k bytes st) rest m.bound in
    record { moved = Moved-trans all st (advance k bytes st) _ m p.moved; at_end = p.at_end }

-- After a success the part up to `end` is sent.
pub record Through (all : List ℕ) (end : ℕ) (st : Sender) (r : Sent) : Type 0 where
  pub moved : Moved all st r.st
  pub through : r.ret ≡ success → end ≤ r.st.send_offset

-- A part of `all` that stands between `before` and `tail`.
pub part-Through :
    (at_zero : Errno) (all before bytes tail : List ℕ) (outs : List Outcome) (st : Sender)
    → all ≡ before ++ (bytes ++ tail)
    → length before ≤ st.send_offset
    → st.send_offset ≤ length all
    → Through all
        (length before + length bytes)
        st
        (send_part at_zero (length before) bytes outs st)
unfolding send_part
part-Through at_zero all before bytes tail outs st whole h b =
    let o = st.send_offset - length before in
    elim (Bool-cases
      (not (length bytes == 0) && ltb st.send_offset (length before + length bytes))) [
        | inl e ↦
            let at_place : drop st.send_offset all ≡ drop o bytes ++ tail =
              ap (drop st.send_offset) whole
              ∙ (drop_past st.send_offset before (bytes ++ tail) h
                  ∙ drop-append o bytes tail (ground (arith, e))) in
            let r = send_bytes at_zero outs (drop o bytes) st in
            let p = bytes-Progress at_zero outs all (drop o bytes) tail st at_place b in
            rw e (record {
              moved = p.moved;
              through = λ s. omega (
                arith,
                ap length (p.at_end s),
                length-drop r.st.send_offset all,
                ap length whole,
                length-append before (bytes ++ tail),
                length-append bytes tail,
                p.moved.bound,
              );
            })
        | inr e ↦ rw e (record { moved = Moved-same all st b; through = λ s. ground (arith, e) })
      ]

pub next-Through :
    (at_zero : Errno) (all before bytes tail : List ℕ) (st : Sender) (s : Sent)
    → all ≡ before ++ (bytes ++ tail)
    → Through all (length before) st s
    → Through all (length before + length bytes) st (next_part at_zero (length before) bytes s)
next-Through at_zero all before bytes tail st s whole t = elim (Status-cases s.ret) [
  | inl e ↦
      let p =
        part-Through at_zero all before bytes tail s.outs s.st whole (t.through e) t.moved.bound in
      rw e (record { moved = Moved-trans all st s.st _ t.moved p.moved; through = p.through })
  | inr (n, e) ↦ rw e (record { moved = t.moved; through = λ k. absurd (ground (arith, e, k)) })
]

parts-Through :
    (r : OutReq) (outs : List Outcome) (st : Sender)
    → st.send_offset ≤ length (bytes_of r)
    → Through (bytes_of r) (total_size r) st (send_parts r outs st)
parts-Through r outs st b =
    let all = bytes_of r in
    let s1 = send_part econnreset 0 r.header outs st in
    let t1 =
      part-Through econnreset all [] r.header (r.data_ ++ r.file) outs st refl (omega arith) b in
    let s2 = next_part econnreset (hsize r) r.data_ s1 in
    let t2 =
      next-Through econnreset all r.header r.data_ r.file st s1 refl
        (record { moved = t1.moved; through = λ e. omega (arith, t1.through e) }) in
    let joined : length (r.header ++ r.data_) ≡ hsize r + dsize r =
      length-append r.header r.data_ in
    let whole : all ≡ (r.header ++ r.data_) ++ (r.file ++ []) =
      sym (append_assoc r.header r.data_ r.file)
      ∙ ap ((r.header ++ r.data_) ++◌) (sym (append-nil r.file)) in
    let t3 =
      next-Through enodata all (r.header ++ r.data_) r.file [] st s2 whole
        (record { moved = t2.moved; through = λ e. omega (arith, t2.through e, joined) }) in
    subst (λ (k : ℕ). Through all (k + length r.file) st (next_part enodata k r.file s2)) joined t3

note-Through :
    (q : Status) (all : List ℕ) (end : ℕ) (st : Sender) (s : Sent)
    → Through all end st s
    → Through all end st (note q s)
note-Through success all end st s t = t
note-Through (failure e) all end st s t =
    let m = t.moved in
    record {
      moved = record { wire = m.wire; forward = m.forward; bound = m.bound; queue = m.queue };
      through = t.through;
    }

pub length-bytes_of : (r : OutReq) → length (bytes_of r) ≡ total_size r
length-bytes_of r =
    omega (arith, length-append r.header (r.data_ ++ r.file), length-append r.data_ r.file)

-- From inside a request or its start, a call sends the next bytes of it, as many as get through, and
-- all that are left where it returns 0.
pub request-Moved :
    (r : OutReq) (outs : List Outcome) (st : Sender)
    → st.send_offset ≤ length (bytes_of r)
    → Moved (bytes_of r) st (send_request r outs st).st
      × ((send_request r outs st).ret ≡ success
          → (send_request r outs st).st.send_offset ≡ total_size r)
unfolding send_request
request-Moved r outs st b =
    let s = send_parts r outs st in
    let t = note-Through s.ret (bytes_of r) (total_size r) st s (parts-Through r outs st b) in
    (t.moved, λ e. omega (arith, t.through e, t.moved.bound, length-bytes_of r))
