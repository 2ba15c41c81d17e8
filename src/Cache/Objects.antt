-- ===== src/Cache/Objects.antt =====
-- The steps of a write on one object keep the account of the cache and the object in its list.
use elliptics.Prelude.{
  ℕ, ◌+◌, ◌*◌, ◌%◌, ◌^◌, ◌≡◌, refl, inl, inr, Bool, true, not, ◌&&◌, Option, some, List, [], ◌∷◌,
  arith, ◌==◌, ltb, length, mem, Bool-cases,
}
use elliptics.Key.{RawId}
use elliptics.Packet.{has_flag}
use elliptics.Process.Commands.{IoAttr}
use elliptics.Cache.{Cache, Disk, Item, add64, size_of, sync_at, unsync, create_data}
use elliptics.Cache.Sums.{total-update_same}
use elliptics.Cache.Accounted.{
  Accounted, Unmoved, keep_sizes-Accounted, set_item-Unmoved, detach, detach-Accounted, attach,
  attach-Accounted,
}
use elliptics.Locks.Pool.{mem-append_last}
use elliptics.Cache.Evict.{Resized, resize-Resized, erase-Accounted, stay-Resized}
use elliptics.Cache.Lengths.{IsWrite, length-appended, length-written}
use elliptics.Cache.Kept.{Has, create-Has}
use elliptics.Cache.Requests.{
  Node, populate_from_disk, populated, sync_after_append, make_room, append_to, appended,
  new_size_of, written, dirtied, out_of_lifeset, live_until, relived, store, io_cache_only,
}

pub unsync-Unmoved : (p : ℕ) (c : Cache) → Unmoved c (unsync p c)
unsync-Unmoved p c = record {
  cache_size = refl;
  lru = refl;
  ids = refl;
  next = refl;
  sizes = λ xs. total-update_same c.item p _ xs refl;
}

pub sync_at-Unmoved : (p time : ℕ) (c : Cache) → Unmoved c (sync_at p time c)
sync_at-Unmoved p time c = record {
  cache_size = refl;
  lru = refl;
  ids = refl;
  next = refl;
  sizes = λ xs. total-update_same c.item p _ xs refl;
}

-- A step that moves nothing keeps an object in the list.
pub keep_sizes-Has : (p : ℕ) (c c' : Cache) → Unmoved c c' → Has p c → Has p c'
keep_sizes-Has p c c' u h = record {
  account = keep_sizes-Accounted [] c c' u h.account;
  here = ground (arith, u.lru, h.here);
}

-- What may have been found: an object in the list, or nothing.
pub record Got (it : Option ℕ) (c : Cache) : Type 0 where
  pub account : Accounted [] c
  pub here : (p : ℕ) → it ≡ some p → mem p c.lru ≡ true

pub object-Has : (p : ℕ) (c : Cache) → Got (some p) c → Has p c
object-Has p c g = record { account = g.account; here = g.here p refl }

pub object-Got : (p : ℕ) (c : Cache) → Has p c → Got (some p) c
object-Got p c h = record { account = h.account; here = λ q e. ground (arith, h.here, e) }

module _ {ℓ} {W : Type ℓ} (disk : Disk W) (node : Node W) (others : Cache × W → Cache × W) where
  pub room-Resized :
      (held : List ℕ) (new_size : ℕ) (s : Cache × W)
      → Accounted held s.0
      → Resized disk held s.0 (make_room disk node others new_size s).0
  unfolding make_room
  room-Resized held new_size (c, w) a =
      elim (Bool-cases (ltb c.max_cache_size (add64 c.cache_size new_size))) [
        | inl e ↦ rw e (resize-Resized disk held (new_size * 2 % 2 ^ 64) c w a)
        | inr e ↦ rw e (stay-Resized disk held c a)
      ]

module _ {ℓ} {W : Type ℓ} (disk : Disk W) (node : Node W) (others : Cache × W → Cache × W)
    (rely : (s : Cache × W) → Accounted [] s.0 → Accounted [] (others s).0) where
  populated-Got :
      (id : RawId) (rfd : Bool) (r : ℕ × List ℕ × ℕ × ℕ × ℕ) (s : Cache × W)
      → Accounted [] s.0
      → Got (populated disk node others id rfd r s).1 (populated disk node others id rfd r s).2.0
  populated-Got id rfd (e, content, uf, ts, tn) s a = elim (Bool-cases (e == 0)) [
    | inl z ↦
        let h = create-Has disk id content rfd s a in
        let r = create_data disk id content rfd s in
        rw z (object-Got r.0 _ (keep_sizes-Has r.0 r.1.0 _ (set_item-Unmoved r.0 _ r.1.0 refl) h))
    | inr z ↦ rw z (record { account = a; here = λ p e. absurd (ground (arith, e)) })
  ]

  pub populate-Got :
      (id : RawId) (rfd : Bool) (s : Cache × W)
      → Accounted [] s.0
      → Got
          (populate_from_disk disk node others id rfd s).1
          (populate_from_disk disk node others id rfd s).2.0
  unfolding populate_from_disk
  populate-Got id rfd (c, w) a =
      let r = disk.read id w in populated-Got id rfd r.0 (others (c, r.1)) (rely (c, r.1) a)

  pub sync_after-Accounted :
      (p : ℕ) (s : Cache × W) → Has p s.0 → Accounted [] (sync_after_append disk node others p s).0
  unfolding sync_after_append
  sync_after-Accounted p (c, w) h =
      let h1 = keep_sizes-Has p c (unsync p c) (unsync-Unmoved p c) h in
      rely _ (erase-Accounted disk [] p (unsync p c) w h1.here h1.account)

  -- An object with new contents, put back behind the others.
  replaced-Has :
      (p new_size : ℕ) (change : Item → Item) (s : Cache × W)
      → Has p s.0
      → (new_size % 2 ^ 64 ≡ length (change (s.0.item p)).content % 2 ^ 64)
      → let r = make_room disk node others new_size (detach p s.0, s.1) in
        Has p (attach new_size p (change (r.0.item p)) r.0)
  replaced-Has p new_size change (c, w) h size =
      let a = detach-Accounted [] p c h.here h.account in
      let r = room-Resized disk node others (p ∷ []) new_size (detach p c, w) a in
      let s1 = make_room disk node others new_size (detach p c, w) in
      let same : s1.0.item p ≡ c.item p = r.items p (ground arith) in
      record {
        account = attach-Accounted new_size p (change (s1.0.item p)) s1.0 (rw same size) r.account;
        here = ground (arith, mem-append_last p p s1.0.lru);
      }

  pub append_to-Has :
      (p : ℕ) (io : IoAttr) (bytes : List ℕ) (s : Cache × W)
      → IsWrite io bytes
      → Has p s.0
      → Has p (append_to disk node others p io bytes s).0
  unfolding append_to
  append_to-Has p io bytes (c, w) i h =
      replaced-Has p (add64 (size_of c p) io.size) (appended io bytes) (c, w) h
        (length-appended io bytes (c.item p) i)

  dirtied-Has :
      (io : IoAttr) (p : ℕ) (c : Cache) → Has p c → Has p (dirtied disk node others io p c)
  dirtied-Has io p c h =
      elim (Bool-cases ((c.item p).synctime == 0 && not (has_flag io.flags io_cache_only))) [
        | inl e ↦ rw e (keep_sizes-Has p c _ (sync_at-Unmoved p (node.now + node.sync_timeout) c) h)
        | inr e ↦ rw e h
      ]

  off_lifeset-Has : (p : ℕ) (c : Cache) → Has p c → Has p (out_of_lifeset p c)
  off_lifeset-Has p c h = elim (Bool-cases ((c.item p).lifetime == 0)) [
    | inl e ↦ rw e h
    | inr e ↦ rw e (
        keep_sizes-Has p c _
          (record { cache_size = refl; lru = refl; ids = refl; next = refl; sizes = λ xs. refl }) h)
  ]

  live_until-Has : (p time : ℕ) (c : Cache) → Has p c → Has p (live_until p time c)
  live_until-Has p time c h =
      keep_sizes-Has p c _
        (record {
          cache_size = refl;
          lru = refl;
          ids = refl;
          next = refl;
          sizes = λ xs. total-update_same c.item p _ xs refl;
        })
        h

  relived-Has :
      (io : IoAttr) (p : ℕ) (c : Cache) → Has p c → Has p (relived disk node others io p c)
  relived-Has io p c h =
      let h1 = off_lifeset-Has p c h in
      elim (Bool-cases (io.start == 0)) [
        | inl e ↦ rw e h1
        | inr e ↦ rw e (live_until-Has p (io.start + node.now) (out_of_lifeset p c) h1)
      ]

  pub store-Has :
      (p : ℕ) (io : IoAttr) (bytes : List ℕ) (s : Cache × W)
      → IsWrite io bytes
      → Has p s.0
      → Has p (store disk node others p io bytes s).0
  unfolding store
  store-Has p io bytes (c, w) i h =
      let new_size = new_size_of io (size_of c p) in
      let h1 =
        replaced-Has p new_size (written io bytes) (c, w) h
          (length-written io bytes (c.item p) i) in
      let c1 = (make_room disk node others new_size (detach p c, w)).0 in
      let c2 = attach new_size p (written io bytes (c1.item p)) c1 in
      let h2 = dirtied-Has io p c2 h1 in
      let h3 = relived-Has io p (dirtied disk node others io p c2) h2 in
      keep_sizes-Has p _ _
        (set_item-Unmoved p _ (relived disk node others io p (dirtied disk node others io p c2))
          refl)
        h3
