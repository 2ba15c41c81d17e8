-- ===== src/Answer.antt =====
-- library/dnet.c and library/net.c: what a server sends back for a request, and what a node that
-- forwards a request makes of its header and of the answers. Integers that may be negative are
-- given by their bit patterns.
pub mod Headers
use elliptics.Prelude.{
  ℕ, Bool, true, false, not, ◌&&◌, ◌||◌, Option, none, some, List, [], length, if◌then◌else◌,
  Status, success, failure, enomem, einval,
}
use elliptics.Packet.{Cmd, has_flag, set_flag, clear_flag, need_ack, more, destroy, trans_reply}

-- The header of the acknowledgement of a request.
unfoldable pub ack_header : Cmd → (err : ℕ) → (recursive : Bool) → Cmd
ack_header c err recursive = record c {
  trans = set_flag c.trans trans_reply;
  size = 0;
  flags =
      (if recursive
        then clear_flag c.flags need_ack
        else clear_flag (clear_flag c.flags need_ack) more);
  status = err;
}

-- `dnet_send_ack` with `connected` for both arguments that are not NULL, and `send` for `dnet_send`:
-- the return value, and the header that is sent.
unfoldable pub send_ack :
    (connected : Bool) → (send : Cmd → ℕ) → Cmd → (err : ℕ) → (recursive : Bool) → ℕ × Option Cmd
send_ack connected send c err recursive =
    if connected && has_flag c.flags need_ack
    then (send (ack_header c err recursive), some (ack_header c err recursive))
    else (err, none)

-- The header of a reply with `size` bytes of data.
unfoldable pub reply_header : Cmd → (size : ℕ) → (more_follows : Bool) → Cmd
reply_header c size more_follows = record c {
  flags = if has_flag c.flags need_ack || more_follows then set_flag c.flags more else c.flags;
  size = size;
  trans = set_flag c.trans trans_reply;
}

-- `dnet_send_reply`; `own` where the state is the node's own, `memory` for its `malloc`.
unfoldable pub send_reply :
    (own memory : Bool)
    → (send : Cmd → List ℕ → Status) → Cmd
    → (data_ : List ℕ) → (more_follows : Bool) → Status × Option (Cmd × List ℕ)
send_reply own memory send c data_ more_follows =
    if own then (success, none) else if not memory then (failure enomem, none) else (
      send (reply_header c (length data_) more_follows) data_,
      some (reply_header c (length data_) more_follows, data_),
    )

-- `struct dnet_trans` of a forwarded request: its number here, and its number where it came from.
pub record Forward : Type 0 where
  pub trans : ℕ
  pub rcv_trans : ℕ

-- The header that `dnet_trans_forward` sends on; `tid` is the node's counter after `atomic_inc`.
unfoldable pub trans_forward : (tid : ℕ) → Cmd → Forward × Cmd
trans_forward tid c = (record { trans = tid; rcv_trans = c.trans }, record c { trans = tid })

-- Whether `is_trans_destroyed` gives a true value; `connected` where neither argument is NULL.
abbrev pub is_trans_destroyed : (connected : Bool) → Cmd → Bool
is_trans_destroyed connected c = not connected || has_flag c.flags destroy

-- `dnet_trans_complete_forward` with `send` for `dnet_send_data`: the header that goes to the origin.
unfoldable pub complete_forward :
    (connected : Bool) → (send : Cmd → Status) → Forward → Cmd → Status × Option Cmd
complete_forward connected send t c =
    if is_trans_destroyed connected c then (failure einval, none) else (
      send (record c { trans = set_flag t.rcv_trans trans_reply }),
      some (record c { trans = set_flag t.rcv_trans trans_reply }),
    )
