-- ===== src/Cache/Readers.antt =====
-- Reads, removals and lookups keep the account of the cache; what a reply may read of an object.
use elliptics.Prelude.{
  ℕ, refl, inl, inr, Bool, true, false, not, ◌&&◌, Option, none, some, [], ◌∷◌, ◌++◌, arith, ◌==◌,
  Bool-cases,
}
use elliptics.Key.{RawId}
use elliptics.Packet.{Cmd, has_flag}
use elliptics.Process.Commands.{IoAttr}
use elliptics.Locks.Pool.{mem-append_last, append_last-IsDistinct}
use elliptics.Cache.{Cache, Disk, without, unsync, find}
use elliptics.Cache.Sums.{
  mem-without, without-IsDistinct, total-without, total-append_last, total-update_same,
}
use elliptics.Cache.Accounted.{Accounted, keep_sizes-Accounted}
use elliptics.Cache.Evict.{erase-Accounted}
use elliptics.Cache.Kept.{Has}
use elliptics.Cache.Objects.{
  unsync-Unmoved, keep_sizes-Has, Got, object-Has, populate-Got, sync_after-Accounted,
}
use elliptics.Cache.Writes.{find-Got}
use elliptics.Cache.Requests.{Node, io_cache, io_cache_only, touch, populate_from_disk}
use elliptics.Cache.Reads.{
  returned_object, missed, read_some, read_at, read_request, dropped, remove_at, remove_request,
  lookup_at, lookup_request,
}

-- An object moved to the end of the list.
abbrev moved : ℕ → Cache → Cache
moved p c = record c { lru = without p c.lru ++ p ∷ [] }

moved-Accounted : (p : ℕ) (c : Cache) → Has p c → Accounted [] (moved p c)
moved-Accounted p c h =
    let a = h.account in
    record {
      sum = ground (
        arith,
        a.sum,
        total-append_last c.item p (without p c.lru),
        total-without c.item p c.lru a.distinct h.here,
      );
      distinct =
          append_last-IsDistinct p (without p c.lru) (ground (arith, mem-without p p c.lru))
            (without-IsDistinct p c.lru a.distinct);
      outside = λ q k. absurd (ground (arith, k));
      known = λ q k.
          ground (arith, mem-append_last p q (without p c.lru), mem-without p q c.lru, a.known q k);
      below = λ q k. ground (
        arith,
        mem-append_last p q (without p c.lru),
        mem-without p q c.lru,
        a.below q,
        a.below p h.here,
      );
    }

touch-Accounted : (p : ℕ) (c : Cache) → Has p c → Accounted [] (touch p c)
touch-Accounted p c h =
    keep_sizes-Accounted [] (moved p c) (touch p c)
      (record {
        cache_size = refl;
        lru = refl;
        ids = refl;
        next = refl;
        sizes = λ xs. total-update_same c.item p _ xs refl;
      })
      (moved-Accounted p c h)

module _ {ℓ} {W : Type ℓ} (disk : Disk W) (node : Node W) (others : Cache × W → Cache × W)
    (rely : (s : Cache × W) → Accounted [] s.0 → Accounted [] (others s).0) where
  returned-Accounted :
      (it : Option ℕ) (s : Cache × W)
      → Got it s.0
      → Accounted [] (returned_object disk node others it s).1.0
  returned-Accounted none s g = g.account
  returned-Accounted (some p) s g = touch-Accounted p s.0 (object-Has p s.0 g)

  missed-Accounted :
      (id : RawId) (io : IoAttr) (s : Cache × W)
      → Accounted [] s.0
      → Accounted [] (missed disk node others id io s).1.0
  missed-Accounted id io s a =
      let r = populate_from_disk disk node others id false s in
      elim (Bool-cases (has_flag io.flags io_cache && not (has_flag io.flags io_cache_only))) [
        | inl e ↦
            rw e (returned-Accounted r.1 r.2 (populate-Got disk node others rely id false s a))
        | inr e ↦ rw e a
      ]

  read_some-Accounted :
      (append_only : Bool) (p : ℕ) (id : RawId) (io : IoAttr) (s : Cache × W)
      → Has p s.0
      → Accounted [] (read_some disk node others append_only p id io s).1.0
  read_some-Accounted true p id io s h =
      missed-Accounted id io _ (sync_after-Accounted disk node others rely p s h)
  read_some-Accounted false p id io s h = touch-Accounted p s.0 h

  read_at-Accounted :
      (it : Option ℕ) (id : RawId) (io : IoAttr) (s : Cache × W)
      → Got it s.0
      → Accounted [] (read_at disk node others it id io s).1.0
  read_at-Accounted none id io s g = missed-Accounted id io s g.account
  read_at-Accounted (some p) id io s g =
      read_some-Accounted (s.0.item p).only_append p id io s (object-Has p s.0 g)

  dropped-Has :
      (only : Bool) (p : ℕ) (c : Cache) → Has p c → Has p (dropped disk node others only p c)
  dropped-Has only p c h = elim (Bool-cases (not ((c.item p).synctime == 0) && not only)) [
    | inl e ↦ rw e (keep_sizes-Has p c (unsync p c) (unsync-Unmoved p c) h)
    | inr e ↦ rw e h
  ]

  remove_at-Accounted :
      (it : Option ℕ) (only : Bool) (s : Cache × W)
      → Got it s.0
      → Accounted [] (remove_at disk node others it only s).2.0
  remove_at-Accounted none only s g = g.account
  remove_at-Accounted (some p) only (c, w) g =
      let h = dropped-Has only p c (object-Has p c g) in
      erase-Accounted disk [] p (dropped disk node others only p c) w h.here h.account

  remove-Accounted :
      (id : RawId) (io : IoAttr) (s : Cache × W)
      → Accounted [] s.0
      → Accounted [] (remove_request disk node others id io s).1.0
  unfolding remove_request
  remove-Accounted id io s a =
      let r = remove_at disk node others (find id s.0) (has_flag io.flags io_cache_only) s in
      let b = rely r.2 (
        remove_at-Accounted (find id s.0) (has_flag io.flags io_cache_only) s
          (find-Got disk node others rely id s.0 a)) in
      elim (Bool-cases r.1) [ inl e ↦ rw e b | inr e ↦ rw e b ]

  lookup_at-Accounted :
      (it : Option ℕ) (cmd : Cmd) (s : Cache × W)
      → Accounted [] s.0
      → Accounted [] (lookup_at disk node others it cmd s).state.0
  lookup_at-Accounted none cmd s a = a
  lookup_at-Accounted (some p) cmd s a = rely s a

  -- Reads, removals and lookups keep the account of a cache, whatever their flags and the outcome,
  -- if what other threads do in between keeps it.
  pub others-Accounted :
      (id : RawId) (cmd : Cmd) (io : IoAttr) (s : Cache × W)
      → Accounted [] s.0
      → Accounted [] (read_request disk node others id io s).1.0
        × Accounted [] (remove_request disk node others id io s).1.0
        × Accounted [] (lookup_request disk node others id cmd s).state.0
  unfolding read_request lookup_request
  others-Accounted id cmd io s a = (
    read_at-Accounted (find id s.0) id io s (find-Got disk node others rely id s.0 a),
    remove-Accounted id io s a,
    lookup_at-Accounted (find id s.0) cmd s a,
  )
