-- ===== src/Cache/ReadBack.antt =====
-- What is written over an object of the cache is what the next read gives.
use elliptics.Prelude.{
  ℕ, zero, suc, ◌+◌, ◌≤◌, ◌≡◌, refl, ◌∙◌, ap, inl, inr, Bool, true, false, not, ◌&&◌, Option, some,
  List, [], ◌∷◌, arith, ◌==◌, update, length, take, drop, mem, Bool-cases, ==→eq,
}
use mathlib.Core.List.{append-nil}
use elliptics.Key.{RawId}
use elliptics.Packet.{Cmd, has_flag}
use elliptics.Process.Commands.{IoAttr, io_cas}
use elliptics.Cache.{Cache, Disk, Item, add64, without, size_of, sync_at, find}
use elliptics.Cache.Sums.{mem-without}
use elliptics.Cache.Accounted.{Accounted, detach, detach-Accounted, attach}
use elliptics.Cache.Kept.{find-mem}
use elliptics.Cache.Objects.{room-Resized}
use elliptics.Cache.Lengths.{IsWrite, taken_size, length-resize_to}
use elliptics.Cache.Finding.{find_in-same, room_finds}
use elliptics.Cache.Requests.{
  Node, io_append, io_cache_only, resize_to, copy_at, new_size_of, written, dirtied, out_of_lifeset,
  live_until, relived, stamped, make_room, store, write_object, write_plain, write_at,
  write_request,
}
use elliptics.Cache.Reads.{Hit, read_some, read_at, read_request}

-- A step that leaves the ids alone, and the contents of an object.
record SameObject (p : ℕ) (c c' : Cache) : Type 0 where
  ids : c'.ids ≡ c.ids
  id : (q : ℕ) → (c'.item q).id ≡ (c.item q).id
  content : (c'.item p).content ≡ (c.item p).content
  only_append : (c'.item p).only_append ≡ (c.item p).only_append

SameObject-trans : (p : ℕ) (a b c : Cache) → SameObject p a b → SameObject p b c → SameObject p a c
SameObject-trans p a b c h k = record {
  ids = k.ids ∙ h.ids;
  id = λ q. k.id q ∙ h.id q;
  content = k.content ∙ h.content;
  only_append = k.only_append ∙ h.only_append;
}

SameObject-same : (p : ℕ) (c : Cache) → SameObject p c c
SameObject-same p c = record { ids = refl; id = λ q. refl; content = refl; only_append = refl }

same_finds : (id : RawId) (p : ℕ) (c c' : Cache) → SameObject p c c' → find id c' ≡ find id c
unfolding find
same_finds id p c c' s = find_in-same c.item c'.item id c'.ids s.id ∙ rw s.ids refl

drop_all : (n : ℕ) (xs : List ℕ) → length xs ≤ n → drop n xs ≡ []
drop_all zero [] h = refl
drop_all zero (x ∷ xs) h = absurd (omega (arith, h))
drop_all (suc n) [] h = refl
drop_all (suc n) (x ∷ xs) h = drop_all n xs (omega (arith, h))

-- Over the whole of an object.
overwritten :
    (io : IoAttr) (bytes xs : List ℕ)
    → IsWrite io bytes
    → io.offset ≡ 0
    → copy_at io.offset (take io.size bytes) (resize_to (add64 io.offset io.size) xs)
      ≡ take io.size bytes
overwritten io bytes xs i z =
    let b = take io.size bytes in
    let n = add64 0 io.size in
    let short : length (resize_to n xs) ≤ 0 + length b =
      omega (arith, length-resize_to n xs, taken_size io bytes i, i.in_range, z) in
    rw (z, drop_all (0 + length b) (resize_to n xs) short) (append-nil b)

module _ {ℓ} {W : Type ℓ} (disk : Disk W) (node : Node W) (others : Cache × W → Cache × W) where
  sync_at-SameObject : (p time : ℕ) (c : Cache) → SameObject p c (sync_at p time c)
  sync_at-SameObject p time c = record {
    ids = refl;
    id = λ q. ground (arith, ==→eq q p);
    content = ground arith;
    only_append = ground arith;
  }

  dirtied-SameObject :
      (io : IoAttr) (p : ℕ) (c : Cache) → SameObject p c (dirtied disk node others io p c)
  dirtied-SameObject io p c =
      elim (Bool-cases ((c.item p).synctime == 0 && not (has_flag io.flags io_cache_only))) [
        | inl e ↦ rw e (sync_at-SameObject p (node.now + node.sync_timeout) c)
        | inr e ↦ rw e (SameObject-same p c)
      ]

  lifeset-SameObject : (p : ℕ) (c : Cache) → SameObject p c (out_of_lifeset p c)
  lifeset-SameObject p c = record {
    ids = ground arith;
    id = λ q. ground arith;
    content = ground arith;
    only_append = ground arith;
  }

  live_until-SameObject : (p time : ℕ) (c : Cache) → SameObject p c (live_until p time c)
  live_until-SameObject p time c = record {
    ids = refl;
    id = λ q. ground (arith, ==→eq q p);
    content = ground arith;
    only_append = ground arith;
  }

  relived-SameObject :
      (io : IoAttr) (p : ℕ) (c : Cache) → SameObject p c (relived disk node others io p c)
  relived-SameObject io p c = elim (Bool-cases (io.start == 0)) [
    | inl e ↦ rw e (lifeset-SameObject p c)
    | inr e ↦ rw e (
        SameObject-trans p c (out_of_lifeset p c) _ (lifeset-SameObject p c)
          (live_until-SameObject p (io.start + node.now) (out_of_lifeset p c)))
  ]

  stamped-SameObject : (io : IoAttr) (p : ℕ) (c : Cache) → SameObject p c (stamped io p c)
  stamped-SameObject io p c = record {
    ids = refl;
    id = λ q. ground (arith, ==→eq q p);
    content = ground arith;
    only_append = ground arith;
  }

  -- What a read gives of an object.
  abbrev hit_of : Item → Hit
  hit_of x = record { content = x.content; timestamp = x.timestamp; user_flags = x.user_flags }

  abbrev written_hit : IoAttr → List ℕ → Hit
  written_hit io bytes = record {
    content = take io.size bytes;
    timestamp = (io.tsec, io.tnsec);
    user_flags = io.user_flags;
  }

  record Stored (id : RawId) (p : ℕ) (io : IoAttr) (bytes : List ℕ) (c : Cache) : Type 0 where
    found : find id c ≡ some p
    hit : hit_of (c.item p) ≡ written_hit io bytes
    only_append : (c.item p).only_append ≡ false

  module _ (id : RawId) (p : ℕ) (io : IoAttr) (bytes : List ℕ) (i : IsWrite io bytes)
      (start : io.offset ≡ 0) (whole : has_flag io.flags io_append ≡ false) where
    written_item : (x : Item) → (written io bytes x).content ≡ take io.size bytes
    written_item x = ground (arith, whole, overwritten io bytes x.content i start)

    attach_finds :
        (new_size : ℕ) (c : Cache)
        → find id c ≡ some p
        → find id (attach new_size p (written io bytes (c.item p)) c) ≡ some p
    unfolding find
    attach_finds new_size c h =
        find_in-same c.item (update c.item p (written io bytes (c.item p))) id c.ids
          (λ q. ground (arith, ==→eq q p))
        ∙ h

    detach_finds : (c : Cache) → find id c ≡ some p → find id (detach p c) ≡ some p
    unfolding find
    detach_finds c h = h

    store-Stored :
        (c : Cache) (w : W)
        → Accounted [] c
        → find id c ≡ some p
        → (c.item p).only_append ≡ false
        → Stored id p io bytes (store disk node others p io bytes (c, w)).0
    unfolding store
    store-Stored c w a f only =
        let here = find-mem id c p a f in
        let new_size = new_size_of io (size_of c p) in
        let r =
          room-Resized disk node others (p ∷ []) new_size (detach p c, w)
            (detach-Accounted [] p c here a) in
        let c1 = (make_room disk node others new_size (detach p c, w)).0 in
        let c2 = attach new_size p (written io bytes (c1.item p)) c1 in
        let c3 = relived disk node others io p (dirtied disk node others io p c2) in
        let same =
          SameObject-trans p c2 (dirtied disk node others io p c2) c3 (dirtied-SameObject io p c2)
            (relived-SameObject io p (dirtied disk node others io p c2)) in
        let off : mem p (without p c.lru) ≡ false = ground (arith, mem-without p p c.lru) in
        let found2 =
          attach_finds new_size c1
            (room_finds disk node others id p new_size (detach p c, w) off (detach_finds c f)) in
        let at_end : (c2.item p).content ≡ (written io bytes (c1.item p)).content = ground arith in
        let at_only : (c2.item p).only_append ≡ (c1.item p).only_append = ground arith in
        let stamp = stamped-SameObject io p c3 in
        record {
          found = same_finds id p c3 _ stamp ∙ (same_finds id p c2 c3 same ∙ found2);
          hit = ground (arith, stamp.content, same.content, at_end, written_item (c1.item p));
          only_append =
              ground (
                arith,
                stamp.only_append,
                same.only_append,
                at_only,
                only,
                r.items p (ground arith),
              );
        }

    read_some_hit :
        (b : Bool) (io' : IoAttr) (s : Cache × W)
        → b ≡ false
        → (read_some disk node others b p id io' s).0 ≡ some (hit_of (s.0.item p))
    read_some_hit false io' s h = refl
    read_some_hit true io' s h = absurd (ground (arith, h))

    read_hit :
        (io' : IoAttr) (s : Cache × W)
        → Stored id p io bytes s.0
        → (read_request disk node others id io' s).0 ≡ some (written_hit io bytes)
    unfolding read_request
    read_hit io' s h =
        ap (λ (it : Option ℕ). (read_at disk node others it id io' s).0) h.found
        ∙ (read_some_hit (s.0.item p).only_append io' s h.only_append ∙ ap some h.hit)

    whole_write :
        (cmd : Cmd) (s : Cache × W)
        → find id s.0 ≡ some p
        → (s.0.item p).only_append ≡ false
        → has_flag io.flags io_cas ≡ false
        → (write_request disk node others id cmd io bytes s).state
          ≡ store disk node others p io bytes s
    unfolding write_request write_plain write_object
    whole_write cmd s f only cas =
        ap (λ (it : Option ℕ). (write_at disk node others it id cmd io bytes s).state) f
        ∙ ground (arith, only, cas)

    -- After a write over the whole of an object that a cache with a right account finds, with the
    -- bytes at hand, no appending, no comparison and an object that was not only appended to, the
    -- next read of the id, whatever its flags, gives the bytes, the time and the flags of the
    -- write.
    pub write_read :
        (cmd : Cmd) (io' : IoAttr) (c : Cache) (w : W)
        → Accounted [] c
        → find id c ≡ some p
        → (c.item p).only_append ≡ false
        → has_flag io.flags io_cas ≡ false
        → (read_request disk node others id io'
            (write_request disk node others id cmd io bytes (c, w)).state).0
          ≡ some (written_hit io bytes)
    write_read cmd io' c w a f only cas =
        rw (whole_write cmd (c, w) f only cas)
          (read_hit io' (store disk node others p io bytes (c, w)) (store-Stored c w a f only))
