-- ===== src/Cache/Finding.antt =====
-- An object that is out of the list is still found after an eviction.
use elliptics.Prelude.{
  ℕ, ◌*◌, ◌%◌, ◌^◌, ◌≡◌, refl, ◌∙◌, inl, inr, Bool, true, false, not, ◌||◌, some, List, [], ◌∷◌,
  arith, ◌==◌, ltb, mem, Bool-cases, ==→eq,
}
use elliptics.Key.{RawId, id_cmp_str}
use elliptics.Key.Order.{is_nil}
use elliptics.Cache.{
  Cache, Disk, Item, add64, without, size_of, erase_element, mark, mark_unless, resize_loop, resize,
  find, find_in,
}
use elliptics.Cache.Requests.{Node, make_room}

pub find_in-same :
    (item item' : ℕ → Item) (id : RawId) (ps : List ℕ)
    → ((q : ℕ) → (item' q).id ≡ (item q).id)
    → find_in item' id ps ≡ find_in item id ps
find_in-same item item' id [] h = refl
find_in-same item item' id (p ∷ ps) h = ground (arith, h p, find_in-same item item' id ps h)

find_in-without :
    (item : ℕ → Item) (id : RawId) (p q : ℕ) (ps : List ℕ)
    → (q == p) ≡ false
    → find_in item id ps ≡ some p
    → find_in item id (without q ps) ≡ some p
find_in-without item id p q [] n h = h
find_in-without item id p q (x ∷ xs) n h = elim (Bool-cases (is_nil (id_cmp_str (item x).id id))) [
  | inl e ↦ ground (arith, e, n, h, ==→eq x q)
  | inr e ↦ ground (arith, e, n, h, find_in-without item id p q xs n)
]

module _ {ℓ} {W : Type ℓ} (disk : Disk W) where
  erased_id :
      (p q : ℕ) (c : Cache) (w : W) → ((erase_element disk p (c, w)).0.item q).id ≡ (c.item q).id
  unfolding erase_element
  erased_id p q c w = ground (arith, ==→eq q p)

  erased_ids : (p : ℕ) (c : Cache) (w : W) → (erase_element disk p (c, w)).0.ids ≡ without p c.ids
  unfolding erase_element
  erased_ids p c w = ground arith

  erase_finds :
      (id : RawId) (p q : ℕ) (c : Cache) (w : W)
      → (q == p) ≡ false
      → find id c ≡ some p
      → find id (erase_element disk q (c, w)).0 ≡ some p
  unfolding find
  erase_finds id p q c w n h =
      let c1 = (erase_element disk q (c, w)).0 in
      find_in-same c.item c1.item id c1.ids (λ x. erased_id q x c w)
      ∙ rw (erased_ids q c w) (find_in-without c.item id p q c.ids n h)

  mark_id : (b : Bool) (q x : ℕ) (c : Cache) → ((mark_unless b q c).item x).id ≡ (c.item x).id
  mark_id true q x c = refl
  mark_id false q x c = ground (arith, ==→eq x q)

  mark_ids : (b : Bool) (q : ℕ) (c : Cache) → (mark_unless b q c).ids ≡ c.ids
  mark_ids true q c = refl
  mark_ids false q c = refl

  mark_finds : (id : RawId) (p q : ℕ) (c : Cache) → find id c ≡ some p → find id (mark q c) ≡ some p
  unfolding find
  mark_finds id p q c h =
      let b = (c.item q).remove_from_cache in
      find_in-same c.item (mark q c).item id (mark q c).ids (λ x. mark_id b q x c)
      ∙ rw (mark_ids b q c) h

  loop_finds :
      (id : RawId) (p reserve removed : ℕ) (ps : List ℕ) (c : Cache) (w : W)
      → mem p ps ≡ false
      → find id c ≡ some p
      → find id (resize_loop disk reserve removed ps (c, w)).0 ≡ some p
  unfolding resize_loop
  loop_finds id p reserve removed [] c w n h = h
  loop_finds id p reserve removed (q ∷ ps) c w n h =
      let other : (q == p) ≡ false = ground arith in
      let others : mem p ps ≡ false = ground arith in
      elim (Bool-cases (ltb (add64 c.cache_size reserve) (add64 c.max_cache_size removed))) [
        | inl e ↦ rw e h
        | inr e ↦
            elim (Bool-cases (not ((c.item q).synctime == 0) || (c.item q).remove_from_cache)) [
              | inl k ↦
                  rw (e, k)
                    (loop_finds id p reserve (add64 removed (size_of c q)) ps (mark q c) w others
                      (mark_finds id p q c h))
              | inr k ↦
                  rw (e, k)
                    (loop_finds id p reserve removed ps _ _ others (erase_finds id p q c w other h))
            ]
      ]

  pub room_finds :
      (node : Node W) (others : Cache × W → Cache × W) (id : RawId) (p new_size : ℕ) (s : Cache × W)
      → mem p s.0.lru ≡ false
      → find id s.0 ≡ some p
      → find id (make_room disk node others new_size s).0 ≡ some p
  unfolding make_room resize
  room_finds node others id p new_size (c, w) n h =
      elim (Bool-cases (ltb c.max_cache_size (add64 c.cache_size new_size))) [
        | inl e ↦ rw e (loop_finds id p (new_size * 2 % 2 ^ 64) 0 c.lru c w n h)
        | inr e ↦ rw e h
      ]
