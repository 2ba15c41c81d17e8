-- ===== src/Cache/Life.antt =====
-- cache/cache.cpp: one round of the thread that drops the objects whose lifetime is over and writes
-- back the dirty ones, unless the cache is stopped; and the end of a cache.
use elliptics.Prelude.{
  ℕ, zero, suc, false, Option, none, some, List, [], ◌∷◌, ◌++◌, ltb, if◌then◌else◌,
}
use elliptics.Key.{RawId}
use elliptics.Cache.{Cache, Disk, Item, unsync, erase_element, resize, find}
use elliptics.Cache.Requests.{Node, sync_after_append}

module _ {ℓ} {W : Type ℓ} (disk : Disk W) (node : Node W) (others : Cache × W → Cache × W) where
  -- `remove` of the source is the list of ids, which grows at its end.
  abbrev pub doomed : Item → List RawId → List RawId
  doomed x ids = if x.remove_from_disk then ids ++ x.id ∷ [] else ids

  -- The loop over the objects whose lifetime is over, on fuel; `now` is the time of each round.
  unfoldable pub life_loop : (fuel now : ℕ) → List RawId → Cache × W → List RawId × (Cache × W)
  life_loop zero now ids s = (ids, s)
  life_loop (suc fuel) now ids s =
      let (c, w) = others s in
      elim c.lifeset [
        | [] ↦ (ids, (c, w))
        | p ∷ ps ↦
            let rest = life_loop fuel now (doomed (c.item p) ids) (erase_element disk p (c, w)) in
            if ltb now (c.item p).lifetime then (ids, (c, w)) else rest
      ]

  abbrev pub gone : Option ℕ → Cache × W → Cache × W
  gone none s = s
  gone (some p) s = if (s.0.item p).remove_from_cache then erase_element disk p s else s

  -- An object that is not only appended to: its contents are written without the cache's lock.
  unfoldable pub write_back : ℕ → Cache × W → Cache × W
  write_back p (c, w) =
      let x = c.item p in
      let (c1, w1) =
        others (unsync p c, (disk.write false x.id x.content x.user_flags x.timestamp w).1) in
      gone (find x.id c1) (c1, w1)

  abbrev pub write_dirty : ℕ → Cache × W → Cache × W
  write_dirty p s =
      if (s.0.item p).only_append then sync_after_append disk node others p s else write_back p s

  -- The loop over the dirty objects that are due.
  unfoldable pub sync_loop : (fuel now : ℕ) → Cache × W → Cache × W
  sync_loop zero now s = s
  sync_loop (suc fuel) now s =
      let (c, w) = others s in
      elim c.syncset [
        | [] ↦ (c, w)
        | p ∷ ps ↦
            let rest = sync_loop fuel now (write_dirty p (c, w)) in
            if ltb now (c.item p).synctime then (c, w) else rest
      ]

  abbrev pub remove_all : List RawId → W → W
  remove_all [] w = w
  remove_all (id ∷ ids) w = remove_all ids (disk.remove_local id w).1

  unfoldable pub life_check : (fuel now : ℕ) → Cache × W → Cache × W
  life_check fuel now s =
      let (ids, s1) = life_loop fuel now [] s in
      let (c, w) = sync_loop fuel now s1 in (c, remove_all ids w)

  -- `while (!s.empty()) erase_element(s.begin())` for one of the two sets, on fuel.
  unfoldable pub erase_all : (fuel : ℕ) → (Cache → List ℕ) → Cache × W → Cache × W
  erase_all zero heads s = s
  erase_all (suc fuel) heads s = elim (heads s.0) [
    | [] ↦ s
    | p ∷ ps ↦ erase_all fuel heads (erase_element disk p s)
  ]

  -- `~cache_t` after the thread has ended.
  unfoldable pub cache_end : (fuel : ℕ) → Cache × W → Cache × W
  cache_end fuel (c, w) =
      let s1 = resize disk 0 (record c { max_cache_size = 0 }, w) in
      erase_all fuel (λ c. c.lifeset) (erase_all fuel (λ c. c.syncset) s1)
