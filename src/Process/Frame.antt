-- ===== src/Process/Frame.antt =====
-- library/dnet.c: `dnet_process_cmd_raw` as a whole, with the lock on the command's key, and the bulk
-- read, which processes one read for each of its keys.
use elliptics.Prelude.{
  ℕ, zero, suc, ◌/◌, Bool, true, false, ◌&&◌, Option, none, some, ◌==◌, ltb, if◌then◌else◌,
}
use elliptics.Tree.{RbTree}
use elliptics.Packet.{Cmd, has_flag, set_flag, clear_flag, need_ack, more, nolock}
use elliptics.Locks.{Locks, oplock, opunlock}
use elliptics.Process.{
  Data, Call, Handlers, Server, returned, handle, acknowledged, eperm, enotsup_bits,
}
use elliptics.Process.Commands.{Command, command_of, cmd_read, io_attr_size}

-- `err` after a read that returned `ret`.
abbrev pub merge : ℕ → ℕ → ℕ
merge e ret = if ret == 0 then 0 else if e == eperm then ret else e

abbrev pub bulk_count : Data → ℕ
bulk_count d = (d 0).size / io_attr_size

abbrev pub read_of : Cmd → Cmd
read_of c = record c { size = io_attr_size; cmd = cmd_read; flags = set_flag c.flags more }

-- `if (i + 1 == count)`, `left` rounds before the last.
abbrev pub last_acks : (left : ℕ) → Cmd → Cmd
last_acks zero c = record c { flags = set_flag c.flags need_ack }
last_acks (suc left) c = c

abbrev pub is_bulk : Command → Bool
is_bulk Command.bulk_read = true
is_bulk _ = false

pub record Done {ℓ} (W : Type ℓ) : Type ℓ where
  pub call : Call W
  pub locks : Locks

-- The variables of the loop of `dnet_cmd_bulk_read`.
pub record Loop {ℓ} (W : Type ℓ) : Type ℓ where
  pub ret : ℕ
  pub cmd : Cmd
  pub read_cmd : Cmd
  pub world : W
  pub locks : Locks

module _ {ℓ} {W : Type ℓ} (rb : RbTree) (ops : Handlers W) (n : Server) where
  -- `none` where the caller waits for the lock.
  abbrev pub enter : Cmd → Locks → Option Locks
  enter c s = if has_flag c.flags nolock then some s else oplock rb c.id.id s

  abbrev pub leave : Cmd → Locks → Locks
  leave c s = if has_flag c.flags nolock then s else opunlock rb c.id.id s

  unfoldable pub finish : (recursive : Bool) → Done W → Done W
  finish recursive r =
      let a = acknowledged ops n recursive r.call in
      record { call = a; locks = leave a.cmd r.locks }

  abbrev pub one_entered : (recursive : Bool) → Cmd → Data → W → Option Locks → Option (Done W)
  one_entered recursive c d w none = none
  one_entered recursive c d w (some s) =
      some (finish recursive (record { call = handle ops n (command_of c.cmd) c d w; locks = s }))

  -- `dnet_process_cmd_raw` on a command that is no BULK_READ.
  unfoldable pub process_one : (recursive : Bool) → Cmd → Data → W → Locks → Option (Done W)
  process_one recursive c d w s = one_entered recursive c d w (enter c s)

  -- One round, `left` rounds before the last.
  abbrev pub bulk_round : (left : ℕ) → Loop W → Done W → Loop W
  bulk_round left b r = record {
    ret = merge b.ret r.call.ret;
    cmd = last_acks left b.cmd;
    read_cmd = r.call.cmd;
    world = r.call.world;
    locks = r.locks;
  }

  unfoldable pub bulk_loop : (left : ℕ) → (ios : Data) → Loop W → Option (Loop W)
  bulk_loop zero ios b = some b
  bulk_loop (suc left) ios b = elim (process_one true b.read_cmd ios b.world b.locks) [
    | none ↦ none
    | some r ↦ bulk_loop left (λ i. ios (suc i)) (bulk_round left b r)
  ]

  abbrev pub bulk_relock : Data → Loop W → Option Locks → Option (Done W)
  bulk_relock d b none = none
  bulk_relock d b (some s) = some (record { call = returned b.ret b.cmd d b.world; locks = s })

  abbrev pub bulk_end : Data → Option (Loop W) → Option (Done W)
  bulk_end d none = none
  bulk_end d (some b) = bulk_relock d b (enter b.cmd b.locks)

  abbrev pub bulk_start : Cmd → Data → W → Locks → Loop W
  bulk_start c d w s = record {
    ret = eperm;
    cmd = if ltb 0 (bulk_count d) then record c { flags = clear_flag c.flags need_ack } else c;
    read_cmd = read_of c;
    world = w;
    locks = leave c s;
  }

  unfoldable pub cmd_bulk_read : Cmd → Data → W → Locks → Option (Done W)
  cmd_bulk_read c d w s =
      bulk_end d (bulk_loop (bulk_count d) (λ i. d (suc i)) (bulk_start c d w s))

  -- The case of BULK_READ goes on where the backend has no bulk read.
  abbrev pub bulk_case : (bulk : Bool) → Call W → Locks → Option (Done W)
  bulk_case bulk r s =
      if bulk && r.ret == enotsup_bits
      then cmd_bulk_read r.cmd r.data_ r.world s
      else some (record { call = r; locks = s })

  abbrev pub dispatch : Command → Cmd → Data → W → Locks → Option (Done W)
  dispatch q c d w s = bulk_case (is_bulk q) (handle ops n q c d w) s

  abbrev pub finished : (recursive : Bool) → Option (Done W) → Option (Done W)
  finished recursive none = none
  finished recursive (some r) = some (finish recursive r)

  abbrev pub entered : (recursive : Bool) → Cmd → Data → W → Option Locks → Option (Done W)
  entered recursive c d w none = none
  entered recursive c d w (some s) = finished recursive (dispatch (command_of c.cmd) c d w s)

  unfoldable pub process_cmd_raw : (recursive : Bool) → Cmd → Data → W → Locks → Option (Done W)
  process_cmd_raw recursive c d w s = entered recursive c d w (enter c s)
