-- ===== src/Packet.antt =====
-- include/elliptics/packet.h: the header of every message, its flags and its byte layout. A flag is
-- given by its bit's weight; the tests and updates are those of `&`, `|=` and `&= ~` on one bit.
pub mod Layout
use elliptics.Prelude.{
  ℕ, zero, suc, ◌+◌, ◌-◌, ◌*◌, ◌/◌, ◌%◌, ◌^◌, Bool, List, [], ◌∷◌, ◌++◌, ◌==◌, if◌then◌else◌, take,
  drop,
}
use elliptics.Key.{DnetId}

abbrev pub has_flag : ℕ → ℕ → Bool
has_flag x bit = (x / bit) % 2 == 1

abbrev pub set_flag : ℕ → ℕ → ℕ
set_flag x bit = if has_flag x bit then x else x + bit

abbrev pub clear_flag : ℕ → ℕ → ℕ
clear_flag x bit = if has_flag x bit then x - bit else x

-- DNET_FLAGS_NEED_ACK and the flags behind it
abbrev pub need_ack : ℕ
need_ack = 1

abbrev pub more : ℕ
more = 2

abbrev pub destroy : ℕ
destroy = 4

abbrev pub direct : ℕ
direct = 8

abbrev pub nolock : ℕ
nolock = 16

abbrev pub nocache : ℕ
nocache = 64

-- DNET_TRANS_REPLY; `trans & ~DNET_TRANS_REPLY` is `tid_of`.
abbrev pub trans_reply : ℕ
trans_reply = 2 ^ 63

abbrev pub tid_of : ℕ → ℕ
tid_of trans = clear_flag trans trans_reply

-- `struct dnet_cmd`; the `trace_id` of its `struct dnet_id` is a field of its own here.
pub record Cmd : Type 0 where
  pub id : DnetId
  pub trace_id : ℕ
  pub status : ℕ
  pub cmd : ℕ
  pub flags : ℕ
  pub trans : ℕ
  pub size : ℕ

-- The bytes of a number, the lowest first, as a little-endian machine lays it out.
unfoldable pub to_le : ℕ → ℕ → List ℕ
to_le zero x = []
to_le (suc n) x = x % 256 ∷ to_le n (x / 256)

unfoldable pub from_le : List ℕ → ℕ
from_le [] = 0
from_le (b ∷ bs) = b + 256 * from_le bs

-- sizeof(struct dnet_cmd)
abbrev pub cmd_size : ℕ
cmd_size = 104

-- The bytes of the packed `struct dnet_cmd`, as `send` and `recv` see them; on a little-endian machine
-- `dnet_convert_cmd` changes none of them.
unfoldable pub cmd_encode : Cmd → List ℕ
cmd_encode c =
    c.id.id
    ++ (to_le 4 c.id.group_id
        ++ (to_le 4 c.trace_id
            ++ (to_le 4 c.status
                ++ (to_le 4 c.cmd ++ (to_le 8 c.flags ++ (to_le 8 c.trans ++ to_le 8 c.size))))))

unfoldable pub cmd_decode : List ℕ → Cmd
cmd_decode bytes =
    let group_at = drop 64 bytes in
    let trace_at = drop 4 group_at in
    let status_at = drop 4 trace_at in
    let cmd_at = drop 4 status_at in
    let flags_at = drop 4 cmd_at in
    let trans_at = drop 8 flags_at in
    let size_at = drop 8 trans_at in
    record {
      id = record { id = take 64 bytes; group_id = from_le (take 4 group_at) };
      trace_id = from_le (take 4 trace_at);
      status = from_le (take 4 status_at);
      cmd = from_le (take 4 cmd_at);
      flags = from_le (take 8 flags_at);
      trans = from_le (take 8 trans_at);
      size = from_le (take 8 size_at);
    }
