-- ===== src/Process.antt =====
-- library/dnet.c: how a server processes one command. The handlers of the single commands are an
-- interface; an error is the bit pattern of the `int` that a handler returns. On a little-endian
-- machine `dnet_convert_io_attr` changes nothing.
pub mod Commands
pub mod Frame
pub mod Flags
pub mod Released
pub mod Gates
pub mod Bulk
use elliptics.Prelude.{
  ℕ, zero, suc, ◌+◌, ◌-◌, ◌/◌, ◌^◌, Bool, true, false, not, ◌&&◌, ◌||◌, Option, none, some, List,
  ◌==◌, ltb, if◌then◌else◌,
}
use elliptics.Key.{DnetId, RawId, id_cmp_str}
use elliptics.Key.Order.{is_nil}
use elliptics.Packet.{Cmd, has_flag, set_flag, clear_flag, need_ack, nocache}
use elliptics.Answer.{send_ack}
use elliptics.Process.Commands.{
  Command, command_of, cmd_max, IoAttr, io_attr_size, io_nocsum, io_nocache, io_cas,
}

-- The bit pattern of `-e`.
abbrev pub neg : ℕ → ℕ
neg e = 2 ^ 32 - e

abbrev pub eperm : ℕ
eperm = neg 1

abbrev pub enoent_bits : ℕ
enoent_bits = neg 2

abbrev pub einval_bits : ℕ
einval_bits = neg 22

abbrev pub erofs_bits : ℕ
erofs_bits = neg 30

abbrev pub enotsup_bits : ℕ
enotsup_bits = neg 95

abbrev pub ebadfd_bits : ℕ
ebadfd_bits = neg 77

-- The memory from `data` on, by units of a `struct dnet_io_attr`.
abbrev pub Data : Type 0
Data = ℕ → IoAttr

-- What a handler returns, and what it leaves of the command, of `data` and of everything else.
pub record Call {ℓ} (W : Type ℓ) : Type ℓ where
  pub ret : ℕ
  pub cmd : Cmd
  pub data_ : Data
  pub world : W

abbrev pub Handler {ℓ} : Type ℓ → Type ℓ
Handler W = Cmd → Data → W → Call W

-- What `dnet_process_cmd_raw` calls, but for the locks and the acknowledgement's header.
pub record Handlers {ℓ} (W : Type ℓ) : Type ℓ where
  pub auth : Handler W
  pub status : Handler W
  pub reverse_lookup : Handler W
  pub join_client : Handler W
  pub route_list : Handler W
  pub exec : Handler W
  pub iterator : Handler W
  pub process_indexes : Handler W
  pub stat_count : Handler W
  pub notify_add : Handler W
  pub notify_remove : Handler W
  -- `n->cb->command_handler`
  pub command_handler : Handler W
  pub cache_io : Handler W
  pub cache_lookup : Handler W
  -- `n->cb->checksum`, which may be NULL
  pub checksum : Option (DnetId → W → ℕ × RawId)
  pub update_notify : Cmd → Data → W → W
  pub stat_inc : ℕ → ℕ → W → W
  pub counter_inc : ℕ → ℕ → W → W
  pub send : Cmd → W → ℕ × W

-- The fields of the node and of the connection that the processing reads; `joined` where the
-- connection's `__join_state` is DNET_JOIN.
pub record Server : Type 0 where
  pub ro : Bool
  pub no_csum : Bool
  pub joined : Bool

-- DNET_ATTR_DROP_NOTIFICATION
abbrev pub drop_notification : ℕ
drop_notification = 2 ^ 32

abbrev pub cas_result : (ℕ × RawId) → RawId → ℕ
cas_result (e, csum) remote =
    if e == 0 then (if is_nil (id_cmp_str csum remote) then 0 else ebadfd_bits) else e

module _ {ℓ} {W : Type ℓ} where
  abbrev pub returned : ℕ → Cmd → Data → W → Call W
  returned e c d w = record { ret = e; cmd = c; data_ = d; world = w }

  unfoldable pub cas_local : Option (DnetId → W → ℕ × RawId) → DnetId → RawId → W → ℕ
  cas_local none id remote w = enotsup_bits
  cas_local (some f) id remote w = cas_result (f id w) remote

module _ {ℓ} {W : Type ℓ} (ops : Handlers W) (n : Server) where
  -- WRITE and READ: the backend's own reply takes the acknowledgement's place, unless it fails.
  abbrev pub reply_instead : Bool → Cmd → Cmd
  reply_instead io c = if io then record c { flags = clear_flag c.flags need_ack } else c

  abbrev pub ack_error : Bool → Call W → Call W
  ack_error io r =
      if io && not (r.ret == 0)
      then record r { cmd = record r.cmd { flags = set_flag r.cmd.flags need_ack } }
      else r

  abbrev pub notified : Bool → Call W → Call W
  notified written r =
      if written && r.ret == 0
      then record r { world = ops.update_notify r.cmd r.data_ r.world }
      else r

  -- The rest of the `default` case from the flags on; `io` for WRITE and READ.
  unfoldable pub backend : (io written : Bool) → Handler W
  backend io written c d w =
      notified written (ack_error io (ops.command_handler (reply_instead io c) d w))

  -- DNET_CMD_LOOKUP in the `default` case.
  abbrev pub lookup_missed : Call W → Call W
  lookup_missed r = if r.ret == enotsup_bits then backend false false r.cmd r.data_ r.world else r

  unfoldable pub handle_lookup : Handler W
  handle_lookup c d w =
      if has_flag c.flags nocache
      then backend false false c d w
      else lookup_missed (ops.cache_lookup c d w)

  abbrev pub with_nocsum : IoAttr → IoAttr
  with_nocsum io = if n.no_csum then record io { flags = set_flag io.flags io_nocsum } else io

  abbrev pub first : Data → IoAttr → Data
  first d io zero = io
  first d io (suc i) = d (suc i)

  -- From the check of `DNET_IO_FLAGS_COMPARE_AND_SWAP` on.
  unfoldable pub io_compared : (io written : Bool) → Handler W
  io_compared io written c d w =
      let e = cas_local ops.checksum c.id (d 0).parent w in
      if (has_flag (d 0).flags io_cas && written) && not (e == 0 || e == enoent_bits)
      then returned e c d w
      else backend io written c d w

  abbrev pub io_missed : (io written : Bool) → Call W → Call W
  io_missed io written r =
      if r.ret == enotsup_bits then io_compared io written r.cmd r.data_ r.world else r

  unfoldable pub io_cached : (io written : Bool) → Handler W
  io_cached io written c d w =
      if has_flag (d 0).flags io_nocache
      then io_compared io written c d w
      else io_missed io written (ops.cache_io c d w)

  -- The case of READ, WRITE and DEL: `io` but for DEL, `written` for WRITE, `changes` but for READ.
  unfoldable pub handle_io : (io written changes : Bool) → Handler W
  handle_io io written changes c d w =
      if n.ro && changes
      then returned erofs_bits c d w
      else if ltb c.size io_attr_size
      then returned einval_bits c d w
      else io_cached io written c (first d (with_nocsum (d 0))) w

  abbrev pub notify_kept : Call W → Call W
  notify_kept r =
      if r.ret == 0
      then record r { cmd = record r.cmd { flags = clear_flag r.cmd.flags need_ack } }
      else r

  unfoldable pub handle_notify : Handler W
  handle_notify c d w =
      if has_flag c.flags drop_notification
      then ops.notify_remove c d w
      else notify_kept (ops.notify_add c d w)

  -- The `switch`; for BULK_READ, the call of the backend only.
  unfoldable pub handle : Command → Handler W
  handle Command.auth = ops.auth
  handle Command.status = ops.status
  handle Command.reverse_lookup = ops.reverse_lookup
  handle Command.join_network = ops.join_client
  handle Command.route_list = ops.route_list
  handle Command.exec = ops.exec
  handle Command.iterator = ops.iterator
  handle Command.indexes_update = ops.process_indexes
  handle Command.indexes_internal = ops.process_indexes
  handle Command.indexes_find = ops.process_indexes
  handle Command.stat_count = ops.stat_count
  handle Command.notify = handle_notify
  handle Command.bulk_read = ops.command_handler
  handle Command.read = handle_io true false false
  handle Command.write = handle_io true true true
  handle Command.del = handle_io false false true
  handle Command.lookup = handle_lookup
  handle Command.other = backend false false

  -- What follows the `switch`, up to the unlocking: the counters and the acknowledgement.
  abbrev pub counted : Call W → W
  counted r =
      ops.counter_inc (if n.joined then r.cmd.cmd else r.cmd.cmd + cmd_max) r.ret
        (ops.stat_inc r.cmd.cmd r.ret r.world)

  abbrev pub after_send : W → (ℕ × Option Cmd) → W
  after_send w (e, none) = w
  after_send w (e, some h) = (ops.send h w).1

  unfoldable pub acknowledged : (recursive : Bool) → Call W → Call W
  acknowledged recursive r =
      let w = counted r in
      let a = send_ack true (λ h. (ops.send h w).0) r.cmd r.ret recursive in
      record r { ret = a.0; world = after_send w a }
