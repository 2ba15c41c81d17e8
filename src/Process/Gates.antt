-- ===== src/Process/Gates.antt =====
-- What stands before the backend when a command writes, and what its acknowledgement says.
use elliptics.Prelude.{
  ℕ, ◌≡◌, refl, sym, ◌∙◌, ap, inl, inr, ◌⊎◌, Bool, true, false, Option, none, some, arith, ◌==◌,
  ◌||◌, Bool-cases,
}
use elliptics.Key.{DnetId, RawId}
use elliptics.Key.Order.{id_cmp_str-IsOrder}
use elliptics.Tree.{RbTree}
use elliptics.Packet.{Cmd, has_flag}
use elliptics.Locks.{Locks}
use elliptics.Process.{
  Data, Handler, Handlers, Server, handle, handle_io, io_cached, io_compared, acknowledged,
  cas_local, cas_result, returned, erofs_bits, with_nocsum, first, enoent_bits,
}
use elliptics.Process.Commands.{Command, command_of, io_nocache, io_cas}
use elliptics.Process.Frame.{Done, process_cmd_raw, enter, entered, finish, finished, dispatch}

-- The commands that a read-only node refuses.
pub data Changes : Command → Type 0 where
  by_write : Changes Command.write
  by_del : Changes Command.del

module _ {ℓ} {W : Type ℓ} (rb : RbTree) (n : Server) (ro : n.ro ≡ true) where
  refused :
      (ops : Handlers W) (q : Command)
      → Changes q
      → (c : Cmd) (d : Data) (w : W) (s : Locks)
      → dispatch rb ops n q c d w s ≡ some (record { call = returned erofs_bits c d w; locks = s })
  unfolding handle handle_io
  refused ops q by_write c d w s = rw ro refl
  refused ops q by_del c d w s = rw ro refl

  module _ (ops : Handlers W) (h ci : Handler W) (cs : Option (DnetId → W → ℕ × RawId))
      (u : Cmd → Data → W → W) where
    -- The same server over another disk: backend, cache, checksums and notifications are others.
    abbrev pub other_disk : Handlers W
    other_disk = record ops { command_handler = h; cache_io = ci; checksum = cs; update_notify = u }

    same_finish :
        (recursive : Bool) (r : Done W)
        → finished rb other_disk n recursive (some r) ≡ finished rb ops n recursive (some r)
    unfolding finish acknowledged
    same_finish recursive r = refl

    same_entered :
        (recursive : Bool) (c : Cmd) (d : Data) (w : W) (o : Option Locks)
        → Changes (command_of c.cmd)
        → entered rb other_disk n recursive c d w o ≡ entered rb ops n recursive c d w o
    same_entered recursive c d w none x = refl
    same_entered recursive c d w (some s) x =
        ap (finished rb other_disk n recursive) (refused other_disk _ x c d w s)
        ∙ (same_finish recursive _
            ∙ sym (ap (finished rb ops n recursive) (refused ops _ x c d w s)))

    -- On a read-only node, what processing a WRITE or a DEL returns and leaves does not depend on
    -- the backend, the cache, the checksums or the notifications.
    pub read_only_refuses :
        (recursive : Bool) (c : Cmd) (d : Data) (w : W) (s : Locks)
        → Changes (command_of c.cmd)
        → process_cmd_raw rb other_disk n recursive c d w s
          ≡ process_cmd_raw rb ops n recursive c d w s
    unfolding process_cmd_raw
    read_only_refuses recursive c d w s x = same_entered recursive c d w (enter rb ops n c s) x

module _ {ℓ} {W : Type ℓ} (ops : Handlers W) (n : Server) where
  -- The stored record has the checksum that the client gave, or there is none.
  pub record Unchanged (id : DnetId) (parent : RawId) (w : W) : Type ℓ where
    pub checksum : DnetId → W → ℕ × RawId
    pub given : ops.checksum ≡ some checksum
    pub result : (checksum id w ≡ (0, parent)) ⊎ ((checksum id w).0 ≡ enoent_bits)

  cas_result-cases :
      (r : ℕ × RawId) (parent : RawId)
      → ((cas_result r parent == 0) || (cas_result r parent == enoent_bits)) ≡ true
      → (r ≡ (0, parent)) ⊎ (r.0 ≡ enoent_bits)
  cas_result-cases (e, csum) parent h = elim (Bool-cases (e == 0)) [
    | inl z ↦ inl (ground (arith, id_cmp_str-IsOrder.eq_of_nil csum parent))
    | inr z ↦ inr (ground arith)
  ]

  cas-Unchanged :
      (o : Option (DnetId → W → ℕ × RawId)) (id : DnetId) (parent : RawId) (w : W)
      → ops.checksum ≡ o
      → ((cas_local o id parent w == 0) || (cas_local o id parent w == enoent_bits)) ≡ true
      → Unchanged id parent w
  unfolding cas_local
  cas-Unchanged none id parent w e h = absurd (ground (arith, h))
  cas-Unchanged (some f) id parent w e h = record {
    checksum = f;
    given = e;
    result = cas_result-cases (f id w) parent h;
  }

  -- The check of the checksum stops the write.
  Stopped : DnetId → RawId → W → Type 0
  Stopped id parent w =
      ((cas_local ops.checksum id parent w == 0)
        || (cas_local ops.checksum id parent w == enoent_bits))
      ≡ false

  flags_kept :
      (d : Data) (bit : ℕ)
      → (bit ≡ io_nocache) ⊎ (bit ≡ io_cas)
      → has_flag (with_nocsum ops n (d 0)).flags bit ≡ has_flag (d 0).flags bit
  flags_kept d bit (inl e) =
      rw e (elim (Bool-cases n.no_csum) [ inl k ↦ ground arith | inr k ↦ ground arith ])
  flags_kept d bit (inr e) =
      rw e (elim (Bool-cases n.no_csum) [ inl k ↦ ground arith | inr k ↦ ground arith ])

  parent_kept : (d : Data) → (with_nocsum ops n (d 0)).parent ≡ (d 0).parent
  parent_kept d = ground arith

  module _ (h : Handler W) where
    abbrev pub other_backend : Handlers W
    other_backend = record ops { command_handler = h }

    halted_same :
        (c : Cmd) (d : Data) (w : W)
        → has_flag (d 0).flags io_nocache ≡ true
        → has_flag (d 0).flags io_cas ≡ true
        → Stopped c.id (d 0).parent w
        → io_cached other_backend n true true c d w ≡ io_cached ops n true true c d w
    unfolding io_cached io_compared Stopped
    halted_same c d w nc cas st = rw (nc, cas, st) refl

    -- A WRITE that skips the cache and asks for the comparison does not depend on the backend's
    -- handler, or the node's checksum says that the stored record has the checksum that the client
    -- gave, or that there is no record.
    pub compare_and_swap_guards :
        (c : Cmd) (d : Data) (w : W)
        → has_flag (d 0).flags io_nocache ≡ true
        → has_flag (d 0).flags io_cas ≡ true
        → (handle other_backend n Command.write c d w ≡ handle ops n Command.write c d w)
          ⊎ Unchanged c.id (d 0).parent w
    unfolding handle handle_io Stopped
    compare_and_swap_guards c d w nc cas =
        elim (Bool-cases (
          (cas_local ops.checksum c.id (d 0).parent w == 0)
          || (cas_local ops.checksum c.id (d 0).parent w == enoent_bits))) [
            | inl e ↦ inr (cas-Unchanged ops.checksum c.id (d 0).parent w refl e)
            | inr e ↦
                let d1 = first ops n d (with_nocsum ops n (d 0)) in
                let same =
                  halted_same c d1 w (flags_kept d _ (inl refl) ∙ nc)
                    (flags_kept d _ (inr refl) ∙ cas) (rw (parent_kept d) e) in
                inl (ground (arith, same))
          ]
