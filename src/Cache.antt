-- ===== src/Cache.antt =====
-- cache/cache.cpp: the objects of one cache, their four containers, and what evicts and writes back.
-- An address names a `data_t`. A container is the list of its addresses, in its order; taking out
-- what is not there, which the source must not do, changes nothing here. A `size_t` wraps at 2 ^ 64.
pub mod Requests
pub mod Reads
pub mod Lengths
pub mod Life
pub mod Manager
pub mod Sums
pub mod Accounted
pub mod Evict
pub mod Kept
pub mod Objects
pub mod Writes
pub mod Readers
pub mod Serving
pub mod Finding
pub mod ReadBack
pub mod Fits
use elliptics.Prelude.{
  ℕ, zero, suc, ◌+◌, ◌-◌, ◌*◌, ◌%◌, ◌^◌, Bool, true, false, not, ◌&&◌, ◌||◌, Option, none, some,
  List, [], ◌∷◌, ◌++◌, ◌==◌, ltb, if◌then◌else◌, update, filter, length, mem,
}
use elliptics.Key.{RawId, id_cmp_str}
use elliptics.Key.Order.{is_nil}

-- `data_t`
pub record Item : Type 0 where
  pub lifetime : ℕ
  pub synctime : ℕ
  pub timestamp : ℕ × ℕ
  pub user_flags : ℕ
  pub remove_from_disk : Bool
  pub remove_from_cache : Bool
  pub only_append : Bool
  pub id : RawId
  pub content : List ℕ

-- `cache_t`; `next` is the address that `new` gives.
pub record Cache : Type 0 where
  pub cache_size : ℕ
  pub max_cache_size : ℕ
  pub item : ℕ → Item
  pub ids : List ℕ
  pub lru : List ℕ
  pub lifeset : List ℕ
  pub syncset : List ℕ
  pub next : ℕ

-- What `local_session` does on the node itself: a write, appending or not, a read, and
-- `dnet_remove_local`. The results are bit patterns of an `int`.
pub record Disk {ℓ} (W : Type ℓ) : Type ℓ where
  pub write : (append : Bool) → RawId → (content : List ℕ) → (user_flags : ℕ) → ℕ × ℕ → W → ℕ × W
  pub read : RawId → W → (ℕ × List ℕ × ℕ × ℕ × ℕ) × W
  pub remove_local : RawId → W → ℕ × W

abbrev pub add64 : ℕ → ℕ → ℕ
add64 a b = (a + b) % 2 ^ 64

abbrev pub sub64 : ℕ → ℕ → ℕ
sub64 a b = (a + (2 ^ 64 - b % 2 ^ 64)) % 2 ^ 64

abbrev pub without : ℕ → List ℕ → List ℕ
without p xs = filter (λ q. not (q == p)) xs

-- `lifetime_less` and `synctime_less`, by the time of an object.
abbrev pub time_less : (ℕ → ℕ) → ℕ → ℕ → Bool
time_less time p q = ltb (time p) (time q) || (time p == time q && ltb p q)

abbrev pub insert_by : (ℕ → ℕ) → ℕ → List ℕ → List ℕ
insert_by time p [] = p ∷ []
insert_by time p (q ∷ qs) =
    let rest = insert_by time p qs in if time_less time p q then p ∷ q ∷ qs else q ∷ rest

abbrev pub size_of : Cache → ℕ → ℕ
size_of c p = length (c.item p).content

abbrev pub find_in : (ℕ → Item) → RawId → List ℕ → Option ℕ
find_in item id [] = none
find_in item id (p ∷ ps) = if is_nil (id_cmp_str (item p).id id) then some p else find_in item id ps

-- `m_set.find`
unfoldable pub find : RawId → Cache → Option ℕ
find id c = find_in c.item id c.ids

abbrev pub set_item : ℕ → Item → Cache → Cache
set_item p x c = record c { item = update c.item p x }

-- `m_syncset.insert` after `set_synctime`.
abbrev pub sync_at : ℕ → ℕ → Cache → Cache
sync_at p time c =
    let c1 = set_item p (record (c.item p) { synctime = time }) c in
    record c1 { syncset = insert_by (λ q. (c1.item q).synctime) p c1.syncset }

-- `m_syncset.erase` and `clear_synctime`.
abbrev pub unsync : ℕ → Cache → Cache
unsync p c = record (set_item p (record (c.item p) { synctime = 0 }) c) {
  syncset = without p c.syncset;
}

-- Out of the least-recently-used list, the set and, if it has a lifetime, the set of lifetimes.
abbrev pub unlinked : ℕ → Cache → Cache
unlinked p c = record c {
  lru = without p c.lru;
  ids = without p c.ids;
  lifeset = (if (c.item p).lifetime == 0 then c.lifeset else without p c.lifeset);
}

-- A dirty object is to go once it is written; it is written next.
abbrev pub to_go : ℕ → Cache → Cache
to_go p c = record (set_item p (record (c.item p) { remove_from_cache = true }) c) {
  syncset = without p c.syncset;
}

abbrev pub mark_unless : Bool → ℕ → Cache → Cache
mark_unless true p c = c
mark_unless false p c = sync_at p 1 (to_go p c)

abbrev pub mark : ℕ → Cache → Cache
mark p c = mark_unless (c.item p).remove_from_cache p c

abbrev pub new_item : RawId → List ℕ → Bool → Item
new_item id content remove_from_disk = record {
  lifetime = 0;
  synctime = 0;
  timestamp = (0, 0);
  user_flags = 0;
  remove_from_disk = remove_from_disk;
  remove_from_cache = false;
  only_append = false;
  id = id;
  content = content;
}

-- `m_set.insert`: the object that has the id already, if there is one.
abbrev pub insert_id : ℕ → Option ℕ → Cache → ℕ × Cache
insert_id p none c = (p, record c { ids = p ∷ c.ids })
insert_id p (some q) c = (q, c)

-- The new object in the list and in the set.
unfoldable pub linked : RawId → List ℕ → Bool → Cache → ℕ × Cache
linked id content remove_from_disk c =
    let p = c.next in
    let c1 = record (set_item p (new_item id content remove_from_disk) c) {
      cache_size = add64 c.cache_size (length content);
      lru = c.lru ++ p ∷ [];
      next = p + 1;
    } in
    insert_id p (find id c) c1

module _ {ℓ} {W : Type ℓ} (disk : Disk W) where
  abbrev pub sync_element : ℕ → Cache → W → W
  sync_element p c w =
      let x = c.item p in (disk.write x.only_append x.id x.content x.user_flags x.timestamp w).1

  unfoldable pub erase_element : ℕ → Cache × W → Cache × W
  erase_element p (c, w) =
      let c1 = unlinked p c in
      let dirty = not ((c.item p).synctime == 0) in
      let c2 = if dirty then unsync p c1 else c1 in
      let w2 = if dirty then sync_element p c w else w in
      (record c2 { cache_size = sub64 c.cache_size (size_of c p) }, w2)

  -- The loop of `resize` over what is left of the list.
  unfoldable pub resize_loop : (reserve removed_size : ℕ) → List ℕ → Cache × W → Cache × W
  resize_loop reserve removed_size [] s = s
  resize_loop reserve removed_size (p ∷ ps) (c, w) =
      let marked = resize_loop reserve (add64 removed_size (size_of c p)) ps (mark p c, w) in
      let erased = resize_loop reserve removed_size ps (erase_element p (c, w)) in
      if ltb (add64 c.cache_size reserve) (add64 c.max_cache_size removed_size)
      then (c, w)
      else if not ((c.item p).synctime == 0) || (c.item p).remove_from_cache
      then marked
      else erased

  unfoldable pub resize : (reserve : ℕ) → Cache × W → Cache × W
  resize reserve (c, w) = resize_loop reserve 0 c.lru (c, w)

  unfoldable pub create_data : RawId → List ℕ → Bool → Cache × W → ℕ × (Cache × W)
  create_data id content remove_from_disk (c, w) =
      let s =
        (if ltb c.max_cache_size (add64 c.cache_size (length content))
          then resize (length content) (c, w)
          else (c, w)) in
      let r = linked id content remove_from_disk s.0 in (r.0, (r.1, s.1))
