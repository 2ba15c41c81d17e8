-- ===== src/Cache/Manager.antt =====
-- cache/cache.cpp: the caches of a node, and what a command does with them.
use elliptics.Prelude.{
  ℕ, ◌-◌, ◌%◌, Bool, Option, none, some, List, ◌==◌, ltb, if◌then◌else◌, length, take, drop, update,
}
use elliptics.Key.{RawId}
use elliptics.Packet.{Cmd, has_flag, from_le}
use elliptics.Process.{enoent_bits, einval_bits, enotsup_bits}
use elliptics.Process.Commands.{Command, IoAttr}
use elliptics.Cache.{Cache, Disk, add64}
use elliptics.Cache.Requests.{Node, io_cache, acked, write_request}
use elliptics.Cache.Reads.{Hit, read_request, remove_request, lookup_request}

-- `cache_manager`: its caches and their number.
pub record Manager : Type 0 where
  pub caches : ℕ → Cache
  pub count : ℕ

-- What the commands leave: the return value, the command, the caches and everything else.
pub record Served {ℓ} (W : Type ℓ) : Type ℓ where
  pub ret : ℕ
  pub cmd : Cmd
  pub manager : Manager
  pub world : W

unfoldable pub idx : RawId → Manager → ℕ
idx id m = from_le (take 4 id) % m.count

abbrev pub at_id {ℓ} : {W : Type ℓ} → RawId → Manager → W → Cache × W
at_id id m w = (m.caches (idx id m), w)

abbrev pub put_cache : RawId → Manager → Cache → Manager
put_cache id m c = record m { caches = update m.caches (idx id m) c }

-- What a cached read sends: the size of the request, or what is left of the object behind the offset
-- where the size is 0.
abbrev pub with_size : IoAttr → Hit → IoAttr
with_size io hit = record io {
  size = (if io.size == 0 then length hit.content - io.offset else io.size);
  tsec = hit.timestamp.0;
  tnsec = hit.timestamp.1;
  user_flags = hit.user_flags;
}

-- `io->offset + io->size > d->size()`
abbrev pub too_long : IoAttr → Hit → Bool
too_long io hit = ltb (length hit.content) (add64 io.offset io.size)

abbrev pub sent_bytes : IoAttr → Hit → List ℕ
sent_bytes io hit = take (with_size io hit).size (drop io.offset hit.content)

module _ {ℓ} {W : Type ℓ} (disk : Disk W) (node : Node W) (others : Cache × W → Cache × W)
    (send_read_data : Cmd → IoAttr → List ℕ → ℕ) where
  unfoldable pub answer_read : Option Hit → Cmd → IoAttr → ℕ × Cmd
  answer_read none cmd io =
      if has_flag io.flags io_cache then (enoent_bits, cmd) else (enotsup_bits, cmd)
  answer_read (some hit) cmd io =
      if too_long io hit
      then (einval_bits, cmd)
      else (send_read_data (acked cmd) (with_size io hit) (sent_bytes io hit), acked cmd)

  -- `dnet_cmd_cache_io` on a node that has a cache, where no exception is thrown.
  unfoldable pub cmd_cache_io : Command → Cmd → IoAttr → (bytes : List ℕ) → Manager → W → Served W
  cmd_cache_io Command.write cmd io bytes m w =
      let r = write_request disk node others io.id cmd io bytes (at_id io.id m w) in
      record { ret = r.ret; cmd = r.cmd; manager = put_cache io.id m r.state.0; world = r.state.1 }
  cmd_cache_io Command.read cmd io bytes m w =
      let r = read_request disk node others io.id io (at_id io.id m w) in
      let a = answer_read r.0 cmd io in
      record { ret = a.0; cmd = a.1; manager = put_cache io.id m r.1.0; world = r.1.1 }
  cmd_cache_io Command.del cmd io bytes m w =
      let r = remove_request disk node others cmd.id.id io (at_id cmd.id.id m w) in
      record { ret = r.0; cmd = cmd; manager = put_cache cmd.id.id m r.1.0; world = r.1.1 }
  cmd_cache_io _ cmd io bytes m w = record { ret = enotsup_bits; cmd = cmd; manager = m; world = w }

  -- `dnet_cmd_cache_lookup`: what the cache returns is not passed on.
  unfoldable pub cmd_cache_lookup : Cmd → Manager → W → Served W
  cmd_cache_lookup cmd m w =
      let r = lookup_request disk node others cmd.id.id cmd (at_id cmd.id.id m w) in
      record {
        ret = enotsup_bits;
        cmd = r.cmd;
        manager = put_cache cmd.id.id m r.state.0;
        world = r.state.1;
      }
