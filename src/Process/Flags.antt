-- ===== src/Process/Flags.antt =====
-- What processing leaves of a command: its key and its DNET_FLAGS_NOLOCK.
use elliptics.Prelude.{
  ltb, ◌==◌, ◌&&◌, ◌||◌, not, if◌then◌else◌, ℕ, ◌≡◌, refl, ◌∙◌, Bool, true, false, arith,
}
use elliptics.Packet.{Cmd, has_flag, set_flag, clear_flag, need_ack, more, nolock, nocache}
use elliptics.Process.{
  Data, Call, Handler, Handlers, Server, handle, backend, handle_lookup, ack_error, reply_instead,
  first, with_nocsum, io_compared, io_cached, handle_io, handle_notify, notified, lookup_missed,
  io_missed, notify_kept, cas_local, returned, erofs_bits, einval_bits, enotsup_bits, enoent_bits,
  drop_notification,
}
use elliptics.Process.Commands.{Command, io_nocache, io_cas, io_attr_size}

nolock-clear_ack : (x : ℕ) → has_flag (clear_flag x need_ack) nolock ≡ has_flag x nolock
nolock-clear_ack x = ground arith

nolock-set_ack : (x : ℕ) → has_flag (set_flag x need_ack) nolock ≡ has_flag x nolock
nolock-set_ack x = ground arith

pub nolock-set_more : (x : ℕ) → has_flag (set_flag x more) nolock ≡ has_flag x nolock
nolock-set_more x = ground arith

-- A command that still is the same one on the same key, and has no DNET_FLAGS_NOLOCK if it had none.
pub record SameLock (c c' : Cmd) : Type 0 where
  pub id : c'.id.id ≡ c.id.id
  pub flag : has_flag c.flags nolock ≡ false → has_flag c'.flags nolock ≡ false
  pub cmd : c'.cmd ≡ c.cmd

SameLock-trans : (a b c : Cmd) → SameLock a b → SameLock b c → SameLock a c
SameLock-trans a b c h k = record {
  id = k.id ∙ h.id;
  flag = λ e. k.flag (h.flag e);
  cmd = k.cmd ∙ h.cmd;
}

pub SameLock-same : (c : Cmd) → SameLock c c
SameLock-same c = record { id = refl; flag = λ e. e; cmd = refl }

pub clear_ack-SameLock : (c : Cmd) → SameLock c (record c { flags = clear_flag c.flags need_ack })
clear_ack-SameLock c = record { id = refl; flag = λ e. nolock-clear_ack c.flags ∙ e; cmd = refl }

pub set_ack-SameLock : (c : Cmd) → SameLock c (record c { flags = set_flag c.flags need_ack })
set_ack-SameLock c = record { id = refl; flag = λ e. nolock-set_ack c.flags ∙ e; cmd = refl }

module _ {ℓ} {W : Type ℓ} where
  -- A handler that does not change a command's key and number, and does not set DNET_FLAGS_NOLOCK.
  abbrev pub KeepsLock : Handler W → Type ℓ
  KeepsLock h = (c : Cmd) (d : Data) (w : W) → SameLock c (h c d w).cmd

  -- The handlers of one command do so. Not all of the program's do: REVERSE_LOOKUP writes to the key, and
  -- INDEXES_UPDATE sets DNET_FLAGS_NOLOCK to keep the lock for later.
  abbrev pub KeepLocks : Handlers W → Command → Type ℓ
  KeepLocks ops Command.auth = KeepsLock ops.auth
  KeepLocks ops Command.status = KeepsLock ops.status
  KeepLocks ops Command.reverse_lookup = KeepsLock ops.reverse_lookup
  KeepLocks ops Command.join_network = KeepsLock ops.join_client
  KeepLocks ops Command.route_list = KeepsLock ops.route_list
  KeepLocks ops Command.exec = KeepsLock ops.exec
  KeepLocks ops Command.iterator = KeepsLock ops.iterator
  KeepLocks ops Command.indexes_update = KeepsLock ops.process_indexes
  KeepLocks ops Command.indexes_internal = KeepsLock ops.process_indexes
  KeepLocks ops Command.indexes_find = KeepsLock ops.process_indexes
  KeepLocks ops Command.stat_count = KeepsLock ops.stat_count
  KeepLocks ops Command.notify = KeepsLock ops.notify_add × KeepsLock ops.notify_remove
  KeepLocks ops Command.bulk_read = KeepsLock ops.command_handler × KeepsLock ops.cache_io
  KeepLocks ops Command.read = KeepsLock ops.command_handler × KeepsLock ops.cache_io
  KeepLocks ops Command.write = KeepsLock ops.command_handler × KeepsLock ops.cache_io
  KeepLocks ops Command.del = KeepsLock ops.command_handler × KeepsLock ops.cache_io
  KeepLocks ops Command.lookup = KeepsLock ops.command_handler × KeepsLock ops.cache_lookup
  KeepLocks ops Command.other = KeepsLock ops.command_handler

  either :
      (c : Cmd) (t : Bool) (x y : Call W)
      → SameLock c x.cmd
      → SameLock c y.cmd
      → SameLock c (if t then x else y).cmd
  either c true x y h k = h
  either c false x y h k = k

module _ {ℓ} {W : Type ℓ} (ops : Handlers W) (n : Server) where
  ack_error-SameLock : (io : Bool) (r : Call W) → SameLock r.cmd (ack_error ops n io r).cmd
  ack_error-SameLock io r =
      either r.cmd (io && not (r.ret == 0))
        (record r { cmd = record r.cmd { flags = set_flag r.cmd.flags need_ack } }) r
        (set_ack-SameLock r.cmd) (SameLock-same r.cmd)

  reply_instead-SameLock : (io : Bool) (c : Cmd) → SameLock c (reply_instead ops n io c)
  reply_instead-SameLock true c = clear_ack-SameLock c
  reply_instead-SameLock false c = SameLock-same c

  notified-SameLock :
      (written : Bool) (c : Cmd) (r : Call W)
      → SameLock c r.cmd
      → SameLock c (notified ops n written r).cmd
  notified-SameLock written c r h =
      either c (written && r.ret == 0)
        (record r { world = ops.update_notify r.cmd r.data_ r.world }) r h h

  backend-KeepsLock :
      (io written : Bool) → KeepsLock ops.command_handler → KeepsLock (backend ops n io written)
  unfolding backend
  backend-KeepsLock io written keeps c d w =
      let c1 = reply_instead ops n io c in
      let r = ops.command_handler c1 d w in
      notified-SameLock written c (ack_error ops n io r) (
        SameLock-trans c r.cmd (ack_error ops n io r).cmd
          (SameLock-trans c c1 r.cmd (reply_instead-SameLock io c) (keeps c1 d w))
          (ack_error-SameLock io r))

  lookup-KeepsLock :
      KeepsLock ops.command_handler → KeepsLock ops.cache_lookup → KeepsLock (handle_lookup ops n)
  unfolding handle_lookup
  lookup-KeepsLock b k c d w =
      let r = ops.cache_lookup c d w in
      let missed = backend ops n false false r.cmd r.data_ r.world in
      either c (has_flag c.flags nocache) (backend ops n false false c d w) (lookup_missed ops n r)
        (backend-KeepsLock false false b c d w)
        (either c (r.ret == enotsup_bits) missed r
          (SameLock-trans c r.cmd missed.cmd (k c d w)
            (backend-KeepsLock false false b r.cmd r.data_ r.world))
          (k c d w))

  compared-KeepsLock :
      (io written : Bool) → KeepsLock ops.command_handler → KeepsLock (io_compared ops n io written)
  unfolding io_compared
  compared-KeepsLock io written b c d w =
      let e = cas_local ops.checksum c.id (d 0).parent w in
      either c ((has_flag (d 0).flags io_cas && written) && not (e == 0 || e == enoent_bits))
        (returned e c d w) (backend ops n io written c d w) (SameLock-same c)
        (backend-KeepsLock io written b c d w)

  cached-KeepsLock :
      (io written : Bool)
      → KeepsLock ops.command_handler
      → KeepsLock ops.cache_io
      → KeepsLock (io_cached ops n io written)
  unfolding io_cached
  cached-KeepsLock io written b k c d w =
      let r = ops.cache_io c d w in
      let missed = io_compared ops n io written r.cmd r.data_ r.world in
      either c (has_flag (d 0).flags io_nocache) (io_compared ops n io written c d w)
        (io_missed ops n io written r) (compared-KeepsLock io written b c d w)
        (either c (r.ret == enotsup_bits) missed r
          (SameLock-trans c r.cmd missed.cmd (k c d w)
            (compared-KeepsLock io written b r.cmd r.data_ r.world))
          (k c d w))

  io-KeepsLock :
      (io written changes : Bool)
      → KeepsLock ops.command_handler × KeepsLock ops.cache_io
      → KeepsLock (handle_io ops n io written changes)
  unfolding handle_io
  io-KeepsLock io written changes (b, k) c d w =
      let d1 = first ops n d (with_nocsum ops n (d 0)) in
      let short = returned einval_bits c d w in
      let served = io_cached ops n io written c d1 w in
      either c (n.ro && changes) (returned erofs_bits c d w)
        (if ltb c.size io_attr_size then short else served) (SameLock-same c)
        (either c (ltb c.size io_attr_size) short served (SameLock-same c)
          (cached-KeepsLock io written b k c d1 w))

  notify-KeepsLock :
      KeepsLock ops.notify_add × KeepsLock ops.notify_remove → KeepsLock (handle_notify ops n)
  unfolding handle_notify
  notify-KeepsLock (k, l) c d w =
      let r = ops.notify_add c d w in
      let quiet = record r { cmd = record r.cmd { flags = clear_flag r.cmd.flags need_ack } } in
      either c (has_flag c.flags drop_notification) (ops.notify_remove c d w) (notify_kept ops n r)
        (l c d w)
        (either c (r.ret == 0) quiet r
          (SameLock-trans c r.cmd quiet.cmd (k c d w) (clear_ack-SameLock r.cmd)) (k c d w))

  pub handle-KeepsLock : (k : Command) → KeepLocks ops k → KeepsLock (handle ops n k)
  unfolding handle
  handle-KeepsLock Command.auth keeps = keeps
  handle-KeepsLock Command.status keeps = keeps
  handle-KeepsLock Command.reverse_lookup keeps = keeps
  handle-KeepsLock Command.join_network keeps = keeps
  handle-KeepsLock Command.route_list keeps = keeps
  handle-KeepsLock Command.exec keeps = keeps
  handle-KeepsLock Command.iterator keeps = keeps
  handle-KeepsLock Command.indexes_update keeps = keeps
  handle-KeepsLock Command.indexes_internal keeps = keeps
  handle-KeepsLock Command.indexes_find keeps = keeps
  handle-KeepsLock Command.stat_count keeps = keeps
  handle-KeepsLock Command.notify keeps = notify-KeepsLock keeps
  handle-KeepsLock Command.bulk_read keeps = keeps.0
  handle-KeepsLock Command.read keeps = io-KeepsLock true false false keeps
  handle-KeepsLock Command.write keeps = io-KeepsLock true true true keeps
  handle-KeepsLock Command.del keeps = io-KeepsLock false false true keeps
  handle-KeepsLock Command.lookup keeps = lookup-KeepsLock keeps.0 keeps.1
  handle-KeepsLock Command.other keeps = backend-KeepsLock false false keeps
