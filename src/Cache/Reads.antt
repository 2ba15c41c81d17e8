-- ===== src/Cache/Reads.antt =====
-- cache/cache.cpp: reads, removals and lookups of one cache.
use elliptics.Prelude.{
  ℕ, ◌+◌, Bool, true, false, not, ◌&&◌, ◌||◌, Option, none, some, List, [], ◌==◌, if◌then◌else◌,
}
use elliptics.Key.{RawId}
use elliptics.Packet.{Cmd, has_flag, clear_flag, set_flag, need_ack, nocache, more}
use elliptics.Process.{enoent_bits, enotsup_bits}
use elliptics.Process.Commands.{IoAttr}
use elliptics.Cache.{Cache, Disk, unsync, erase_element, find}
use elliptics.Cache.Requests.{
  Node, Reply, io_cache, io_cache_only, acked, touch, populate_from_disk, sync_after_append,
}

-- What a read gives: the contents, the time and the flags of the object.
pub record Hit : Type 0 where
  pub content : List ℕ
  pub timestamp : ℕ × ℕ
  pub user_flags : ℕ

module _ {ℓ} {W : Type ℓ} (disk : Disk W) (node : Node W) (others : Cache × W → Cache × W) where
  -- The object, last in the list and not to go.
  abbrev pub returned_object : Option ℕ → Cache × W → Option Hit × (Cache × W)
  returned_object none s = (none, s)
  returned_object (some p) (c, w) = (
    some (record {
      content = (c.item p).content;
      timestamp = (c.item p).timestamp;
      user_flags = (c.item p).user_flags;
    }),
    (touch p c, w),
  )

  abbrev pub missed : RawId → IoAttr → Cache × W → Option Hit × (Cache × W)
  missed id io s =
      let (_, it, s1) = populate_from_disk disk node others id false s in
      if has_flag io.flags io_cache && not (has_flag io.flags io_cache_only)
      then returned_object it s1
      else (none, s)

  abbrev pub read_some :
      (append_only : Bool) → ℕ → RawId → IoAttr → Cache × W → Option Hit × (Cache × W)
  read_some true p id io s = missed id io (sync_after_append disk node others p s)
  read_some false p id io s = returned_object (some p) s

  abbrev pub read_at : Option ℕ → RawId → IoAttr → Cache × W → Option Hit × (Cache × W)
  read_at none id io s = missed id io s
  read_at (some p) id io s = read_some (s.0.item p).only_append p id io s

  unfoldable pub read_request : RawId → IoAttr → Cache × W → Option Hit × (Cache × W)
  read_request id io s = read_at (find id s.0) id io s

  -- The object is not written back where it is removed from the disk too.
  abbrev pub dropped : Bool → ℕ → Cache → Cache
  dropped only p c = if not ((c.item p).synctime == 0) && not only then unsync p c else c

  abbrev pub remove_at : Option ℕ → Bool → Cache × W → ℕ × Bool × (Cache × W)
  remove_at none only s = (enoent_bits, not only, s)
  remove_at (some p) only (c, w) =
      (0, not only || (c.item p).remove_from_disk, erase_element disk p (dropped only p c, w))

  unfoldable pub remove_request : RawId → IoAttr → Cache × W → ℕ × (Cache × W)
  remove_request id io s =
      let (e, from_disk, s1) = remove_at (find id s.0) (has_flag io.flags io_cache_only) s in
      let (c2, w2) = others s1 in
      let (e2, w3) = disk.remove_local id w2 in
      if from_disk then ((if e2 == enoent_bits then e else e2), (c2, w3)) else (e, (c2, w2))

  -- `cmd->flags &= DNET_FLAGS_MORE | DNET_FLAGS_NEED_ACK`
  abbrev pub more_or_ack : ℕ → ℕ
  more_or_ack flags =
      (if has_flag flags need_ack then need_ack else 0) + (if has_flag flags more then more else 0)

  abbrev pub with_flags : ℕ → Cmd → Cmd
  with_flags flags c = record c { flags = flags }

  -- The reply to a lookup of an object, with the object's time. A failure of the node's own lookup
  -- is no failure here. The time that goes into the reply's data is not shown.
  abbrev pub looked_up : Cmd → ℕ × ℕ → (ℕ × List ℕ) → ℕ × Cmd
  looked_up cmd timestamp (e, content) =
      let back = with_flags (clear_flag (set_flag cmd.flags nocache) nocache) cmd in
      let short = with_flags (more_or_ack back.flags) back in
      if e == 0
      then (node.send_reply short content, short)
      else (node.send_file_info (acked back) [] timestamp, acked back)

  abbrev pub lookup_at : Option ℕ → Cmd → Cache × W → Reply W
  lookup_at none cmd s = record { ret = enotsup_bits; cmd = cmd; state = s }
  lookup_at (some p) cmd s =
      let (c2, w2) = others s in
      let asked = with_flags (set_flag cmd.flags nocache) cmd in
      let (r, w3) = node.local_lookup asked w2 in
      let (e, cmd1) = looked_up cmd (s.0.item p).timestamp r in
      record { ret = e; cmd = cmd1; state = (c2, w3) }

  unfoldable pub lookup_request : RawId → Cmd → Cache × W → Reply W
  lookup_request id cmd s = lookup_at (find id s.0) cmd s
