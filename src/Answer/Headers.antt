-- ===== src/Answer/Headers.antt =====
-- That the answers to a request reach its transaction, and that the last one ends it.
use elliptics.Prelude.{
  ◌∷◌, [], ◌∙◌, Bool-cases, inl, inr, ℕ, ◌≡◌, refl, Bool, true, false, Option, none, some, List,
  arith, ◌<◌, ◌^◌, length, Status,
}
use elliptics.Packet.{Cmd, has_flag, set_flag, clear_flag, need_ack, more, trans_reply, tid_of}
use elliptics.Answer.{
  ack_header, send_ack, reply_header, send_reply, trans_forward, complete_forward,
  is_trans_destroyed,
}

has-set : (x : ℕ) → has_flag (set_flag x trans_reply) trans_reply ≡ true
has-set x = ground arith

tid_of-set : (x : ℕ) → tid_of (set_flag x trans_reply) ≡ tid_of x
tid_of-set x = ground arith

has_more-clear : (x : ℕ) → has_flag (clear_flag x more) more ≡ false
has_more-clear x = ground arith

has_more-clear_ack : (x : ℕ) → has_flag (clear_flag x need_ack) more ≡ has_flag x more
has_more-clear_ack x = ground arith

has_more-set : (x : ℕ) → has_flag (set_flag x more) more ≡ true
has_more-set x = ground arith

-- The header goes to the transaction of the request, as a reply, and has its key and its command.
pub record Answers (c a : Cmd) : Type 0 where
  pub reply : has_flag a.trans trans_reply ≡ true
  pub tid : tid_of a.trans ≡ tid_of c.trans
  pub id : a.id ≡ c.id
  pub cmd : a.cmd ≡ c.cmd

ack-Answers : (c : Cmd) (err : ℕ) (recursive : Bool) → Answers c (ack_header c err recursive)
unfolding ack_header
ack-Answers c err recursive = record {
  reply = has-set c.trans;
  tid = tid_of-set c.trans;
  id = refl;
  cmd = refl;
}

reply-Answers : (c : Cmd) (size : ℕ) (m : Bool) → Answers c (reply_header c size m)
unfolding reply_header
reply-Answers c size m = record {
  reply = has-set c.trans;
  tid = tid_of-set c.trans;
  id = refl;
  cmd = refl;
}

abbrev pub header_of : Option (Cmd × List ℕ) → Option Cmd
header_of none = none
header_of (some (a, d)) = some a

has_more-ack : (c : Cmd) (err : ℕ) → has_flag (ack_header c err false).flags more ≡ false
unfolding ack_header
has_more-ack c err = has_more-clear (clear_flag c.flags need_ack)

-- Every answer goes to the request's transaction; the last one ends it, and no other does.
abbrev pub EndsOnce : Cmd → List Cmd → Type 0
EndsOnce c [] = ⊥
EndsOnce c (a ∷ []) = Answers c a × (has_flag a.flags more ≡ false)
EndsOnce c (a ∷ b ∷ rest) = (Answers c a × (has_flag a.flags more ≡ true)) × EndsOnce c (b ∷ rest)

abbrev put_before : Option Cmd → List Cmd → List Cmd
put_before none rest = rest
put_before (some a) rest = a ∷ rest

-- The headers that a handler sends which replies with some data, all but the last with more to follow,
-- and is acknowledged.
unfoldable pub exchange :
    Cmd
    → (send : Cmd → List ℕ → Status) → (before : List (List ℕ)) → (last : List ℕ)
    → (send_header : Cmd → ℕ) → (err : ℕ) → List Cmd
exchange c send [] last send_header err =
    put_before (header_of (send_reply false true send c last false).1)
      (put_before (send_ack true send_header c err false).1 [])
exchange c send (d ∷ ds) last send_header err =
    put_before (header_of (send_reply false true send c d true).1)
      (exchange c send ds last send_header err)

module _ (c : Cmd) (send : Cmd → List ℕ → Status) (send_header : Cmd → ℕ) (err : ℕ) where
  more-EndsOnce :
      (a : Cmd) (rest : List Cmd)
      → Answers c a
      → has_flag a.flags more ≡ true
      → EndsOnce c rest
      → EndsOnce c (a ∷ rest)
  more-EndsOnce a [] h m e = absurd e
  more-EndsOnce a (b ∷ bs) h m e = ((h, m), e)

  acked :
      (a : Cmd)
      → Answers c a
      → has_flag a.flags more ≡ has_flag c.flags need_ack
      → EndsOnce c (a ∷ put_before (send_ack true send_header c err false).1 [])
  unfolding send_ack
  acked a h m = elim (Bool-cases (has_flag c.flags need_ack)) [
    | inl e ↦ rw (e, send_ack) ((h, m ∙ e), (ack-Answers c err false, has_more-ack c err))
    | inr e ↦ rw (e, send_ack) (h, m ∙ e)
  ]

  -- For a server with memory at hand, on another node's connection, whose handler sends at least
  -- one reply, all but the last with more to follow, to a command that is not part of another one
  -- and has no DNET_FLAGS_MORE of its own: whether an acknowledgement is asked for or not, every
  -- answer goes to the request's transaction, and the last answer, and no other, says that no more
  -- follow.
  pub replies_end :
      (before : List (List ℕ)) (last : List ℕ)
      → has_flag c.flags more ≡ false
      → EndsOnce c (exchange c send before last send_header err)
  unfolding exchange send_ack send_reply reply_header
  replies_end [] last single =
      acked (reply_header c (length last) false) (reply-Answers c (length last) false)
        (elim (Bool-cases (has_flag c.flags need_ack)) [
          | inl e ↦ ground (arith, has_more-set c.flags, e)
          | inr e ↦ ground (arith, e, single)
        ])
  replies_end (d ∷ ds) last single =
      more-EndsOnce (reply_header c (length d) true) (exchange c send ds last send_header err)
        (reply-Answers c (length d) true) (ground (arith, has_more-set c.flags))
        (replies_end ds last single)

tid_of-set_small : (x : ℕ) → x < 2 ^ 63 → tid_of (set_flag x trans_reply) ≡ x
tid_of-set_small x h = ground arith

-- A request that a node forwards under a number of its own goes on with its other fields as they
-- are; an answer to it that comes before the transaction ends goes back as a reply to the
-- request's own number, with its other fields as they are.
pub forward_back :
    (tid : ℕ) (c a : Cmd) (send : Cmd → Status)
    → c.trans < 2 ^ 63
    → is_trans_destroyed true a ≡ false
    → ((trans_forward tid c).1 ≡ record c { trans = tid })
      × ((b : Cmd) × (complete_forward true send (trans_forward tid c).0 a ≡ (send b, some b))
          × (has_flag b.trans trans_reply ≡ true)
          × (tid_of b.trans ≡ c.trans)
          × (record b { trans = a.trans } ≡ a))
unfolding trans_forward complete_forward
forward_back tid c a send small alive = (
  refl,
  (
    record a { trans = set_flag c.trans trans_reply },
    rw (alive, complete_forward) refl,
    has-set c.trans,
    tid_of-set_small c.trans small,
    refl,
  ),
)
