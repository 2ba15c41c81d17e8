-- ===== src/Cache/Requests.antt =====
-- cache/cache.cpp: the requests to one cache. `others` is what other threads do to the cache and to
-- the disk while a request has given up the cache's lock.
use elliptics.Prelude.{
  ℕ, ◌+◌, ◌-◌, ◌*◌, ◌%◌, ◌^◌, Bool, true, false, not, ◌&&◌, ◌||◌, Option, none, some, List, [], ◌∷◌,
  ◌++◌, ◌==◌, ltb, if◌then◌else◌, length, take, drop, replicate,
}
use elliptics.Key.{RawId, id_cmp_str}
use elliptics.Key.Order.{is_nil}
use elliptics.Packet.{Cmd, has_flag, clear_flag, need_ack}
use elliptics.Process.{enoent_bits, enotsup_bits, ebadfd_bits}
use elliptics.Process.Commands.{IoAttr, io_cas}
use elliptics.Cache.{
  Cache, Disk, Item, add64, without, set_item, sync_at, unsync, erase_element, resize, create_data,
  find, insert_by, size_of,
}
use elliptics.Cache.Accounted.{detach, attach}

-- DNET_IO_FLAGS_APPEND, DNET_IO_FLAGS_CACHE, _CACHE_ONLY and _CACHE_REMOVE_FROM_DISK
abbrev pub io_append : ℕ
io_append = 2

abbrev pub io_cache : ℕ
io_cache = 2 ^ 10

abbrev pub io_cache_only : ℕ
io_cache_only = 2 ^ 11

abbrev pub io_remove_from_disk : ℕ
io_remove_from_disk = 2 ^ 12

-- The rest of the node: the backend, the checksum, the reply with the file's information, and the
-- local lookup; `now` is `time(NULL)`, `sync_timeout` is `cache_sync_timeout`.
pub record Node {ℓ} (W : Type ℓ) : Type ℓ where
  pub command_handler : Cmd → IoAttr → W → ℕ × Cmd × W
  pub transform : List ℕ → RawId
  pub send_file_info : Cmd → List ℕ → ℕ × ℕ → ℕ
  pub local_lookup : Cmd → W → (ℕ × List ℕ) × W
  pub send_reply : Cmd → List ℕ → ℕ
  pub now : ℕ
  pub sync_timeout : ℕ

-- What a request returns, and what it leaves of the command, the cache and everything else.
pub record Reply {ℓ} (W : Type ℓ) : Type ℓ where
  pub ret : ℕ
  pub cmd : Cmd
  pub state : Cache × W

-- `std::vector::resize`
abbrev pub resize_to : ℕ → List ℕ → List ℕ
resize_to n xs = take n xs ++ replicate (n - length xs) 0

-- `memcpy` into a vector at an offset.
abbrev pub copy_at : ℕ → List ℕ → List ℕ → List ℕ
copy_at offset bytes xs = take offset xs ++ (bytes ++ drop (offset + length bytes) xs)

abbrev pub acked : Cmd → Cmd
acked c = record c { flags = clear_flag c.flags need_ack }

-- The list's end, and no longer marked as one to go.
abbrev pub touch : ℕ → Cache → Cache
touch p c = record (set_item p (record (c.item p) { remove_from_cache = false }) c) {
  lru = without p c.lru ++ p ∷ [];
}

abbrev pub appended : IoAttr → List ℕ → Item → Item
appended io bytes x = record x {
  content = x.content ++ take io.size bytes;
  timestamp = (io.tsec, io.tnsec);
  user_flags = io.user_flags;
}

abbrev pub new_size_of : IoAttr → ℕ → ℕ
new_size_of io old =
    if has_flag io.flags io_append then add64 old io.size else add64 io.offset io.size

abbrev pub written : IoAttr → List ℕ → Item → Item
written io bytes x = record x {
  remove_from_cache = false;
  content =
      (if has_flag io.flags io_append
        then x.content ++ take io.size bytes
        else copy_at io.offset (take io.size bytes)
            (resize_to (new_size_of io (length x.content)) x.content));
}

abbrev pub out_of_lifeset : ℕ → Cache → Cache
out_of_lifeset p c =
    if (c.item p).lifetime == 0 then c else record c { lifeset = without p c.lifeset }

abbrev pub live_until : ℕ → ℕ → Cache → Cache
live_until p time c =
    let c1 = set_item p (record (c.item p) { lifetime = time }) c in
    record c1 { lifeset = insert_by (λ q. (c1.item q).lifetime) p c1.lifeset }

abbrev pub stamped : IoAttr → ℕ → Cache → Cache
stamped io p c =
    set_item p (record (c.item p) { timestamp = (io.tsec, io.tnsec); user_flags = io.user_flags }) c

module _ {ℓ} {W : Type ℓ} (disk : Disk W) (node : Node W) (others : Cache × W → Cache × W) where
  abbrev pub populated :
      RawId → Bool → (ℕ × List ℕ × ℕ × ℕ × ℕ) → Cache × W → ℕ × Option ℕ × (Cache × W)
  populated id rfd (e, content, user_flags, tsec, tnsec) s =
      if e == 0
      then (let (p, s1) = create_data disk id content rfd s in
          (
            e,
            some p,
            (
              set_item p
                  (record (s1.0.item p) { user_flags = user_flags; timestamp = (tsec, tnsec) })
                  s1.0,
              s1.1,
            ),
          ))
      else (e, none, s)

  unfoldable pub populate_from_disk : RawId → Bool → Cache × W → ℕ × Option ℕ × (Cache × W)
  populate_from_disk id rfd (c, w) =
      let (r, w1) = disk.read id w in populated id rfd r (others (c, w1))

  -- `sync_after_append`; the lock is taken again before the cache is used again.
  unfoldable pub sync_after_append : ℕ → Cache × W → Cache × W
  sync_after_append p (c, w) =
      let x = c.item p in
      let (c1, w1) = erase_element disk p (unsync p c, w) in
      others (c1, (disk.write true x.id x.content x.user_flags x.timestamp w1).1)

  -- Room for an object that is out of the list and gets `new_size` bytes.
  unfoldable pub make_room : (new_size : ℕ) → Cache × W → Cache × W
  make_room new_size (c, w) =
      if ltb c.max_cache_size (add64 c.cache_size new_size)
      then resize disk (new_size * 2 % 2 ^ 64) (c, w)
      else (c, w)

  -- The first part of `write`, on an object that was only appended to.
  unfoldable pub append_to : ℕ → IoAttr → List ℕ → Cache × W → Cache × W
  append_to p io bytes (c, w) =
      let new_size = add64 (size_of c p) io.size in
      let (c1, w1) = make_room new_size (detach p c, w) in
      (attach new_size p (appended io bytes (c1.item p)) c1, w1)

  -- The object of `append_to`, which may be new.
  abbrev pub append_object : Option ℕ → RawId → Cache × W → ℕ × (Cache × W)
  append_object (some p) id s = (p, s)
  append_object none id s =
      let (p, s1) = create_data disk id [] false s in
      (
        p,
        (
          sync_at p (node.now + node.sync_timeout)
              (set_item p (record (s1.0.item p) { only_append = true }) s1.0),
          s1.1,
        ),
      )

  unfoldable pub write_append : Option ℕ → RawId → Cmd → IoAttr → List ℕ → Cache × W → Reply W
  write_append it id cmd io bytes s =
      let (p, s1) = append_object it id s in
      record {
        ret = node.send_file_info (acked cmd) (take io.size bytes) (io.tsec, io.tnsec);
        cmd = acked cmd;
        state = append_to p io bytes s1;
      }

  -- A write that is no append, to an object that was only appended to.
  unfoldable pub write_synced : ℕ → RawId → Cmd → IoAttr → Cache × W → Reply W
  write_synced p id cmd io s =
      let (c, w) = sync_after_append p s in
      let (_, cmd1, w1) = node.command_handler cmd io w in
      let (e, _, s2) = populate_from_disk id false (c, w1) in
      record { ret = e; cmd = acked cmd1; state = s2 }

  abbrev pub dirtied : IoAttr → ℕ → Cache → Cache
  dirtied io p c =
      if (c.item p).synctime == 0 && not (has_flag io.flags io_cache_only)
      then sync_at p (node.now + node.sync_timeout) c
      else c

  abbrev pub relived : IoAttr → ℕ → Cache → Cache
  relived io p c =
      let c1 = out_of_lifeset p c in
      if io.start == 0 then c1 else live_until p (io.start + node.now) c1

  -- The last part of `write`, from the new size on.
  unfoldable pub store : ℕ → IoAttr → List ℕ → Cache × W → Cache × W
  store p io bytes (c, w) =
      let new_size = new_size_of io (size_of c p) in
      let (c1, w1) = make_room new_size (detach p c, w) in
      let c2 = attach new_size p (written io bytes (c1.item p)) c1 in
      (stamped io p (relived io p (dirtied io p c2)), w1)

  -- Compare-and-swap on the object's contents, if it has any.
  abbrev pub cas_fails : ℕ → IoAttr → Cache → Bool
  cas_fails p io c =
      (has_flag io.flags io_cas && not (size_of c p == 0))
      && not (is_nil (id_cmp_str (node.transform (c.item p).content) io.parent))

  unfoldable pub write_object : ℕ → Cmd → IoAttr → List ℕ → Cache × W → Reply W
  write_object p cmd io bytes s =
      let s1 = store p io bytes s in
      if cas_fails p io s.0 then record { ret = ebadfd_bits; cmd = cmd; state = s } else record {
        ret =
            node.send_file_info (acked cmd) (take io.size (drop io.offset (s1.0.item p).content))
              (io.tsec, io.tnsec);
        cmd = acked cmd;
        state = s1;
      }

  -- The object to write, with the object that the disk gave for it.
  abbrev pub ensured : RawId → Bool → Option ℕ → Cache × W → ℕ × (Cache × W)
  ensured id rfd (some p) s = (p, s)
  ensured id rfd none s = create_data disk id [] rfd s

  unfoldable pub write_found : RawId → Cmd → IoAttr → List ℕ → Option ℕ → Cache × W → Reply W
  write_found id cmd io bytes it s =
      let rfd = has_flag io.flags io_remove_from_disk in
      let (p, s1) = ensured id rfd it s in write_object p cmd io bytes s1

  unfoldable pub write_plain : Option ℕ → RawId → Cmd → IoAttr → List ℕ → Cache × W → Reply W
  write_plain (some p) id cmd io bytes s = write_object p cmd io bytes s
  write_plain none id cmd io bytes s =
      let rfd = has_flag io.flags io_remove_from_disk in
      let (e, it, s1) = populate_from_disk id rfd s in
      if has_flag io.flags io_cache_only || io.offset == 0
      then write_found id cmd io bytes none s
      else if e == 0 || e == enoent_bits
      then write_found id cmd io bytes it s1
      else record { ret = e; cmd = cmd; state = s1 }

  abbrev pub write_at : Option ℕ → RawId → Cmd → IoAttr → List ℕ → Cache × W → Reply W
  write_at none id cmd io bytes s =
      if not (has_flag io.flags io_cache)
      then record { ret = enotsup_bits; cmd = cmd; state = s }
      else if not (has_flag io.flags io_cache_only) && has_flag io.flags io_append
      then write_append none id cmd io bytes s
      else write_plain none id cmd io bytes s
  write_at (some p) id cmd io bytes s =
      if not (has_flag io.flags io_cache_only) && (s.0.item p).only_append
      then (if has_flag io.flags io_append
          then write_append (some p) id cmd io bytes s
          else write_synced p id cmd io s)
      else write_plain (some p) id cmd io bytes s

  unfoldable pub write_request : RawId → Cmd → IoAttr → List ℕ → Cache × W → Reply W
  write_request id cmd io bytes s = write_at (find id s.0) id cmd io bytes s
