-- ===== src/Cache/Kept.antt =====
-- Every request to a cache keeps its account, whatever other threads do that keep it.
use elliptics.Prelude.{
  ℕ, ◌+◌, ◌≡◌, refl, inl, inr, Bool, true, Option, none, some, List, [], ◌∷◌, arith, ltb, length,
  mem, Bool-cases,
}
use elliptics.Key.{RawId, id_cmp_str}
use elliptics.Key.Order.{is_nil}
use elliptics.Cache.{
  Cache, Disk, Item, add64, resize, new_item, insert_id, linked, create_data, find, find_in,
}
use elliptics.Cache.Accounted.{
  Accounted, attach, attach-Accounted, fresh-Accounted, known-Accounted,
}
use elliptics.Locks.Pool.{mem-append_last}
use elliptics.Cache.Evict.{resize-Resized}

find_in-mem :
    (item : ℕ → Item) (id : RawId) (ps : List ℕ) (p : ℕ)
    → find_in item id ps ≡ some p
    → mem p ps ≡ true
find_in-mem item id [] p h = absurd (ground (arith, h))
find_in-mem item id (q ∷ qs) p h = elim (Bool-cases (is_nil (id_cmp_str (item q).id id))) [
  | inl e ↦ ground (arith, h, e)
  | inr e ↦ ground (arith, h, e, find_in-mem item id qs p)
]

-- An object that can be found is in the list.
pub find-mem :
    (id : RawId) (c : Cache) (p : ℕ) → Accounted [] c → find id c ≡ some p → mem p c.lru ≡ true
unfolding find
find-mem id c p a h = a.known p (find_in-mem c.item id c.ids p h)

-- A cache whose account is right, with an object in its list.
pub record Has (p : ℕ) (c : Cache) : Type 0 where
  pub account : Accounted [] c
  pub here : mem p c.lru ≡ true

linked-Has :
    (o : Option ℕ) (p : ℕ) (c : Cache)
    → Has p c
    → ((q : ℕ) → o ≡ some q → mem q c.lru ≡ true)
    → Has (insert_id p o c).0 (insert_id p o c).1
linked-Has none p c h k = record { account = known-Accounted p c h.here h.account; here = h.here }
linked-Has (some q) p c h k = record { account = h.account; here = k q refl }

module _ {ℓ} {W : Type ℓ} (disk : Disk W) where
  pub create-Has :
      (id : RawId) (content : List ℕ) (rfd : Bool) (s : Cache × W)
      → Accounted [] s.0
      → Has (create_data disk id content rfd s).0 (create_data disk id content rfd s).1.0
  unfolding create_data linked
  create-Has id content rfd (c, w) a =
      elim (Bool-cases (ltb c.max_cache_size (add64 c.cache_size (length content)))) [
        | inl e ↦ rw e (
            made (resize disk (length content) (c, w)).0
              (resize-Resized disk [] (length content) c w a).account)
        | inr e ↦ rw e (made c a)
      ]
    where
      made :
          (c : Cache) → Accounted [] c → Has (linked id content rfd c).0 (linked id content rfd c).1
      made c a =
          let p = c.next in
          let x = new_item id content rfd in
          let c1 = attach (length content) p x (record c { next = p + 1 }) in
          linked-Has (find id c) p c1
            (record {
              account =
                  attach-Accounted (length content) p x (record c { next = p + 1 }) refl
                    (fresh-Accounted c a);
              here = ground (arith, mem-append_last p p c.lru);
            })
            (λ q e. ground (arith, mem-append_last p q c.lru, find-mem id c q a e))
