-- ===== src/Process/Released.antt =====
-- The lock on a command's key: processing takes it and gives it back, in the bulk read too.
use elliptics.Prelude.{
  ltb, if◌then◌else◌, ℕ, zero, suc, ◌≡◌, refl, ◌∙◌, ap, inl, inr, Bool, true, false, Option, none,
  some, List, ◌∷◌, [], ◌++◌, arith, ◌==◌, ◌&&◌, Bool-cases,
}
use elliptics.Key.{RawId}
use elliptics.Tree.{RbTree}
use elliptics.Packet.{Cmd, has_flag, nolock, clear_flag, need_ack}
use elliptics.Locks.{Locks, opunlock, oplock_search_nolock}
use elliptics.Locks.Pool.{IsPool}
use elliptics.Locks.Unlock.{lock_unlock}
use elliptics.Process.{Data, Call, Handlers, Server, handle, acknowledged, enotsup_bits}
use elliptics.Process.Commands.{Command, command_of, cmd_read}
use elliptics.Process.Flags.{
  KeepLocks, handle-KeepsLock, SameLock, SameLock-same, nolock-set_more, clear_ack-SameLock,
  set_ack-SameLock,
}
use elliptics.Process.Frame.{
  Done, Loop, process_one, one_entered, finish, leave, enter, bulk_loop, bulk_round, cmd_bulk_read,
  process_cmd_raw, bulk_start, bulk_count, bulk_end, bulk_relock, bulk_case, is_bulk, dispatch,
  entered, finished,
}

module _ (s0 : Locks) (k : RawId) where
  -- A pool with a free entry whose searches are as in `s0`.
  pub record Ready (s : Locks) : Type 0 where
    pub formed : IsPool s
    pub searches : (j : RawId) → oplock_search_nolock s j ≡ oplock_search_nolock s0 j
    pub free : (p : ℕ) × (rest : List ℕ) × (s.lock_list ≡ p ∷ rest)

  -- A command on the key that asks for the lock.
  abbrev pub OnKey : Cmd → Type 0
  OnKey c = (c.id.id ≡ k) × (has_flag c.flags nolock ≡ false)

  same-OnKey : (c c' : Cmd) → SameLock c c' → OnKey c → OnKey c'
  same-OnKey c c' h o = (h.id ∙ o.0, h.flag o.1)

  not_empty :
      (p : ℕ) (rest xs : List ℕ) → xs ≡ rest ++ p ∷ [] → (q : ℕ) × (qs : List ℕ) × (xs ≡ q ∷ qs)
  not_empty p [] xs e = (_, _, e)
  not_empty p (r ∷ rs) xs e = (_, _, e)

module _ {ℓ} {W : Type ℓ} (ops : Handlers W) where
  -- The bulk read goes on with reads.
  reads_of : (q : Command) → KeepLocks ops q → is_bulk q ≡ true → KeepLocks ops Command.read
  reads_of Command.bulk_read keeps e = keeps
  reads_of Command.auth keeps e = cc
  reads_of Command.status keeps e = cc
  reads_of Command.reverse_lookup keeps e = cc
  reads_of Command.join_network keeps e = cc
  reads_of Command.route_list keeps e = cc
  reads_of Command.exec keeps e = cc
  reads_of Command.iterator keeps e = cc
  reads_of Command.indexes_update keeps e = cc
  reads_of Command.indexes_internal keeps e = cc
  reads_of Command.indexes_find keeps e = cc
  reads_of Command.stat_count keeps e = cc
  reads_of Command.notify keeps e = cc
  reads_of Command.read keeps e = cc
  reads_of Command.write keeps e = cc
  reads_of Command.del keeps e = cc
  reads_of Command.lookup keeps e = cc
  reads_of Command.other keeps e = cc

  as_read :
      (number : ℕ)
      → number ≡ cmd_read
      → KeepLocks ops Command.read
      → KeepLocks ops (command_of number)
  unfolding command_of
  as_read number e keeps = rw e keeps

module _ {ℓ} {W : Type ℓ} (rb : RbTree) (ops : Handlers W) (n : Server) (s0 : Locks) (k : RawId)
    (unused : oplock_search_nolock s0 k ≡ none) where
  -- The lock is there to be taken, and giving it back makes the pool as ready as before.
  pub enter-Ready :
      (c : Cmd) (s : Locks)
      → OnKey s0 k c
      → Ready s0 k s
      → (s1 : Locks) × (enter rb ops n c s ≡ some s1) × Ready s0 k (opunlock rb k s1)
  enter-Ready c s (id, flag) r =
      let (p, rest, list) = r.free in
      let (s1, l, e, back) = lock_unlock rb k s r.formed p rest (r.searches k ∙ unused) list in
      (
        s1,
        rw (flag, id) e,
        record {
          formed = back.formed;
          searches = λ j. back.searches j ∙ r.searches j;
          free = not_empty s0 k p rest _ back.free;
        },
      )

  leave-Ready :
      (c : Cmd) (s : Locks)
      → OnKey s0 k c
      → Ready s0 k (opunlock rb k s)
      → Ready s0 k (leave rb ops n c s)
  leave-Ready c s (id, flag) r = rw (flag, id) r

  -- A command that is done with, the lock on its key given back.
  pub record Released (r : Done W) : Type 0 where
    pub ready : Ready s0 k r.locks
    pub on_key : OnKey s0 k r.call.cmd

  finish-Released :
      (recursive : Bool) (r : Done W)
      → OnKey s0 k r.call.cmd
      → Ready s0 k (opunlock rb k r.locks)
      → Released (finish rb ops n recursive r)
  unfolding finish acknowledged
  finish-Released recursive r o h = record {
    ready = leave-Ready r.call.cmd r.locks o h;
    on_key = o;
  }

  one-Released :
      (recursive : Bool) (c : Cmd) (d : Data) (w : W) (s : Locks)
      → KeepLocks ops (command_of c.cmd)
      → OnKey s0 k c
      → Ready s0 k s
      → (r : Done W) × (process_one rb ops n recursive c d w s ≡ some r)
        × Released r
        × (r.call.cmd.cmd ≡ c.cmd)
  unfolding process_one finish acknowledged
  one-Released recursive c d w s keeps o h =
      let (s1, e, back) = enter-Ready c s o h in
      let r = handle ops n (command_of c.cmd) c d w in
      let kept = handle-KeepsLock ops n (command_of c.cmd) keeps c d w in
      let same = same-OnKey s0 k c r.cmd kept o in
      (
        _,
        ap (one_entered rb ops n recursive c d w) e,
        finish-Released recursive (record { call = r; locks = s1 }) same back,
        kept.cmd,
      )

  -- The loop of the bulk read, between two reads.
  record Rounds (b : Loop W) : Type 0 where
    ready : Ready s0 k b.locks
    outer : OnKey s0 k b.cmd
    reads : OnKey s0 k b.read_cmd
    number : b.read_cmd.cmd ≡ cmd_read

  round-Rounds :
      (left : ℕ) (b : Loop W) (r : Done W)
      → Rounds b
      → Released r
      → r.call.cmd.cmd ≡ b.read_cmd.cmd
      → Rounds (bulk_round rb ops n left b r)
  round-Rounds zero b r h d e = record {
    ready = d.ready;
    outer = same-OnKey s0 k b.cmd _ (set_ack-SameLock b.cmd) h.outer;
    reads = d.on_key;
    number = e ∙ h.number;
  }
  round-Rounds (suc left) b r h d e = record {
    ready = d.ready;
    outer = h.outer;
    reads = d.on_key;
    number = e ∙ h.number;
  }

  loop-Rounds :
      (left : ℕ) (ios : Data) (b : Loop W)
      → KeepLocks ops Command.read
      → Rounds b
      → (b' : Loop W) × (bulk_loop rb ops n left ios b ≡ some b') × Rounds b'
  unfolding bulk_loop
  loop-Rounds zero ios b keeps h = (b, refl, h)
  loop-Rounds (suc left) ios b keeps h =
      let (r, e, d, same) =
        one-Released true b.read_cmd ios b.world b.locks (as_read ops b.read_cmd.cmd h.number keeps)
          h.reads h.ready in
      let (b', e', h') =
        loop-Rounds left (λ i. ios (suc i)) (bulk_round rb ops n left b r) keeps
          (round-Rounds left b r h d same) in
      (b', rw (e, bulk_loop) e', h')

  start-SameLock :
      (c : Cmd) (d : Data)
      → SameLock c
          (if ltb 0 (bulk_count d) then record c { flags = clear_flag c.flags need_ack } else c)
  start-SameLock c d = elim (Bool-cases (ltb 0 (bulk_count d))) [
    | inl e ↦ rw e (clear_ack-SameLock c)
    | inr e ↦ rw e (SameLock-same c)
  ]

  start-Rounds :
      (c : Cmd) (d : Data) (w : W) (s : Locks)
      → OnKey s0 k c
      → Ready s0 k (opunlock rb k s)
      → Rounds (bulk_start rb ops n c d w s)
  start-Rounds c d w s o h = record {
    ready = leave-Ready c s o h;
    outer = same-OnKey s0 k c _ (start-SameLock c d) o;
    reads = (o.0, nolock-set_more c.flags ∙ o.1);
    number = refl;
  }

  -- Inside a command, whose lock is held.
  abbrev pub Within : Option (Done W) → Type ℓ
  Within o =
      (r : Done W) × (o ≡ some r) × OnKey s0 k r.call.cmd × Ready s0 k (opunlock rb k r.locks)

  pub bulk-Within :
      (c : Cmd) (d : Data) (w : W) (s : Locks)
      → KeepLocks ops Command.read
      → OnKey s0 k c
      → Ready s0 k (opunlock rb k s)
      → Within (cmd_bulk_read rb ops n c d w s)
  unfolding cmd_bulk_read
  bulk-Within c d w s keeps o h =
      let (b, e, i) =
        loop-Rounds _ (λ i. d (suc i)) (bulk_start rb ops n c d w s) keeps
          (start-Rounds c d w s o h) in
      let (s1, e1, back) = enter-Ready b.cmd b.locks i.outer i.ready in
      (_, ap (bulk_end rb ops n d) e ∙ ap (bulk_relock rb ops n d b) e1, i.outer, back)

  case-Within :
      (bulk : Bool) (r : Call W) (s : Locks)
      → (bulk ≡ true → KeepLocks ops Command.read)
      → OnKey s0 k r.cmd
      → Ready s0 k (opunlock rb k s)
      → Within (bulk_case rb ops n bulk r s)
  case-Within bulk r s keeps o h = elim (Bool-cases (bulk && r.ret == enotsup_bits)) [
    | inl e ↦ rw e (bulk-Within r.cmd r.data_ r.world s (keeps (ground (arith, e))) o h)
    | inr e ↦ rw e (_, refl, o, h)
  ]

  dispatch-Within :
      (q : Command) (c : Cmd) (d : Data) (w : W) (s : Locks)
      → KeepLocks ops q
      → OnKey s0 k c
      → Ready s0 k (opunlock rb k s)
      → Within (dispatch rb ops n q c d w s)
  dispatch-Within q c d w s keeps o h =
      case-Within (is_bulk q) (handle ops n q c d w) s (reads_of ops q keeps)
        (same-OnKey s0 k c _ (handle-KeepsLock ops n q keeps c d w) o) h

  -- Where no one uses the key of a command that asks for the lock, a lock entry is free and the
  -- handlers that serve this command, and the reads of a bulk read, do not change its key or its
  -- number and do not set DNET_FLAGS_NOLOCK, processing the command ends without waiting for its
  -- own lock, the bulk read included, and leaves the pool well formed, with a free entry, every
  -- search as before and the key unlocked.
  pub process-Released :
      (recursive : Bool) (c : Cmd) (d : Data) (w : W)
      → KeepLocks ops (command_of c.cmd)
      → OnKey s0 k c
      → Ready s0 k s0
      → (r : Done W) × (process_cmd_raw rb ops n recursive c d w s0 ≡ some r) × Released r
  unfolding process_cmd_raw
  process-Released recursive c d w keeps o h =
      let (s1, e, back) = enter-Ready c s0 o h in
      let (r, e', o', back') = dispatch-Within (command_of c.cmd) c d w s1 keeps o back in
      (
        _,
        ap (entered rb ops n recursive c d w) e ∙ ap (finished rb ops n recursive) e',
        finish-Released recursive r o' back',
      )
