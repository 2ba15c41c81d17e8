-- ===== src/Cache/Writes.antt =====
-- A write keeps the account of the cache, whatever other threads do that keep it.
use elliptics.Prelude.{
  ℕ, ◌+◌, refl, inl, inr, false, not, ◌&&◌, ◌||◌, Option, none, some, List, [], ◌==◌, Bool-cases,
}
use elliptics.Key.{RawId}
use elliptics.Packet.{Cmd, has_flag}
use elliptics.Process.{enoent_bits}
use elliptics.Process.Commands.{IoAttr}
use elliptics.Cache.{Cache, Disk, create_data, find}
use elliptics.Cache.Accounted.{Accounted, set_item-Unmoved}
use elliptics.Cache.Lengths.{IsWrite}
use elliptics.Cache.Kept.{Has, find-mem, create-Has}
use elliptics.Cache.Requests.{
  Node, populate_from_disk, write_append, write_synced, cas_fails, write_object, write_found,
  write_plain, write_at, write_request, io_append, io_cache, io_cache_only, io_remove_from_disk,
}
use elliptics.Cache.Objects.{
  sync_at-Unmoved, keep_sizes-Has, Got, object-Has, populate-Got, sync_after-Accounted,
  append_to-Has, store-Has,
}

module _ {ℓ} {W : Type ℓ} (disk : Disk W) (node : Node W) (others : Cache × W → Cache × W)
    (rely : (s : Cache × W) → Accounted [] s.0 → Accounted [] (others s).0) where
  object-Accounted :
      (p : ℕ) (cmd : Cmd) (io : IoAttr) (bytes : List ℕ) (s : Cache × W)
      → IsWrite io bytes
      → Has p s.0
      → Accounted [] (write_object disk node others p cmd io bytes s).state.0
  unfolding write_object
  object-Accounted p cmd io bytes s i h = elim (Bool-cases (cas_fails disk node others p io s.0)) [
    | inl e ↦ rw e h.account
    | inr e ↦ rw e (store-Has disk node others rely p io bytes s i h).account
  ]

  found-Accounted :
      (id : RawId) (cmd : Cmd) (io : IoAttr) (bytes : List ℕ) (it : Option ℕ) (s : Cache × W)
      → IsWrite io bytes
      → Got it s.0
      → Accounted [] (write_found disk node others id cmd io bytes it s).state.0
  unfolding write_found
  found-Accounted id cmd io bytes (some p) s i g =
      object-Accounted p cmd io bytes s i (object-Has p s.0 g)
  found-Accounted id cmd io bytes none s i g =
      object-Accounted _ cmd io bytes _ i (create-Has disk id [] _ s g.account)

  plain-Accounted :
      (it : Option ℕ) (id : RawId) (cmd : Cmd) (io : IoAttr) (bytes : List ℕ) (s : Cache × W)
      → IsWrite io bytes
      → Got it s.0
      → Accounted [] (write_plain disk node others it id cmd io bytes s).state.0
  unfolding write_plain
  plain-Accounted (some p) id cmd io bytes s i g =
      object-Accounted p cmd io bytes s i (object-Has p s.0 g)
  plain-Accounted none id cmd io bytes s i g =
      elim (Bool-cases (has_flag io.flags io_cache_only || io.offset == 0)) [
        | inl e ↦ rw e (found-Accounted id cmd io bytes none s i g)
        | inr e ↦
            let rfd = has_flag io.flags io_remove_from_disk in
            let r = populate_from_disk disk node others id rfd s in
            let g1 = populate-Got disk node others rely id rfd s g.account in
            elim (Bool-cases (r.0 == 0 || r.0 == enoent_bits)) [
              | inl k ↦ rw (e, k) (found-Accounted id cmd io bytes r.1 r.2 i g1)
              | inr k ↦ rw (e, k) g1.account
            ]
      ]

  write_append-Accounted :
      (it : Option ℕ) (id : RawId) (cmd : Cmd) (io : IoAttr) (bytes : List ℕ) (s : Cache × W)
      → IsWrite io bytes
      → Got it s.0
      → Accounted [] (write_append disk node others it id cmd io bytes s).state.0
  unfolding write_append
  write_append-Accounted (some p) id cmd io bytes s i g =
      (append_to-Has disk node others rely p io bytes s i (object-Has p s.0 g)).account
  write_append-Accounted none id cmd io bytes s i g =
      let r = create_data disk id [] false s in
      let h = create-Has disk id [] false s g.account in
      let h1 = keep_sizes-Has r.0 r.1.0 _ (set_item-Unmoved r.0 _ r.1.0 refl) h in
      let h2 = keep_sizes-Has r.0 _ _ (sync_at-Unmoved r.0 (node.now + node.sync_timeout) _) h1 in
      (append_to-Has disk node others rely r.0 io bytes _ i h2).account

  synced-Accounted :
      (p : ℕ) (id : RawId) (cmd : Cmd) (io : IoAttr) (s : Cache × W)
      → Has p s.0
      → Accounted [] (write_synced disk node others p id cmd io s).state.0
  unfolding write_synced
  synced-Accounted p id cmd io s h =
      (populate-Got disk node others rely id false _
        (sync_after-Accounted disk node others rely p s h)).account

  at-Accounted :
      (it : Option ℕ) (id : RawId) (cmd : Cmd) (io : IoAttr) (bytes : List ℕ) (s : Cache × W)
      → IsWrite io bytes
      → Got it s.0
      → Accounted [] (write_at disk node others it id cmd io bytes s).state.0
  at-Accounted none id cmd io bytes s i g = elim (Bool-cases (not (has_flag io.flags io_cache))) [
    | inl e ↦ rw e g.account
    | inr e ↦
        elim (Bool-cases (not (has_flag io.flags io_cache_only) && has_flag io.flags io_append)) [
          | inl k ↦ rw (e, k) (write_append-Accounted none id cmd io bytes s i g)
          | inr k ↦ rw (e, k) (plain-Accounted none id cmd io bytes s i g)
        ]
  ]
  at-Accounted (some p) id cmd io bytes s i g =
      elim (Bool-cases (not (has_flag io.flags io_cache_only) && (s.0.item p).only_append)) [
        | inl e ↦ elim (Bool-cases (has_flag io.flags io_append)) [
          | inl k ↦ rw (e, k) (write_append-Accounted (some p) id cmd io bytes s i g)
          | inr k ↦ rw (e, k) (synced-Accounted p id cmd io s (object-Has p s.0 g))
        ]
        | inr e ↦ rw e (plain-Accounted (some p) id cmd io bytes s i g)
      ]

  pub find-Got : (id : RawId) (c : Cache) → Accounted [] c → Got (find id c) c
  find-Got id c a = record { account = a; here = λ p e. find-mem id c p a e }

  -- With the bytes of the request at hand and its end below 2 ^ 64, a write keeps the account of a
  -- cache, whatever its flags and the outcome, if what other threads do in between keeps it.
  pub write-Accounted :
      (id : RawId) (cmd : Cmd) (io : IoAttr) (bytes : List ℕ) (s : Cache × W)
      → IsWrite io bytes
      → Accounted [] s.0
      → Accounted [] (write_request disk node others id cmd io bytes s).state.0
  unfolding write_request
  write-Accounted id cmd io bytes s i a =
      at-Accounted (find id s.0) id cmd io bytes s i (find-Got id s.0 a)
