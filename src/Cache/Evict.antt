-- ===== src/Cache/Evict.antt =====
-- Eviction keeps the account, and leaves alone the objects that are out of the list for a moment.
use elliptics.Prelude.{
  ℕ, ◌≡◌, refl, ◌∙◌, inl, inr, Bool, true, false, not, ◌||◌, List, [], ◌∷◌, arith, ◌==◌, ltb, mem,
  Bool-cases, ==→eq,
}
use elliptics.Locks.Pool.{IsDistinct}
use elliptics.Cache.{
  Cache, Disk, add64, without, size_of, sync_at, erase_element, mark, mark_unless, to_go,
  resize_loop, resize,
}
use elliptics.Cache.Sums.{total, mem-without, total-update_same}
use elliptics.Cache.Accounted.{
  Accounted, Unmoved, keep_sizes-Accounted, detach, detach-Accounted, forget-Accounted,
}

module _ {ℓ} {W : Type ℓ} (disk : Disk W) where
  pub erase-Accounted :
      (held : List ℕ) (p : ℕ) (c : Cache) (w : W)
      → mem p c.lru ≡ true
      → Accounted held c
      → Accounted held (erase_element disk p (c, w)).0
  unfolding erase_element
  erase-Accounted held p c w h a =
      keep_sizes-Accounted held (record (detach p c) { ids = without p c.ids }) _
        (record {
          cache_size = refl;
          lru = ground arith;
          ids = ground arith;
          next = ground arith;
          sizes = λ xs. elim (Bool-cases (not ((c.item p).synctime == 0))) [
            | inl e ↦ rw e (total-update_same c.item p _ xs refl)
            | inr e ↦ rw e refl
          ];
        })
        (forget-Accounted held p (detach p c) (detach-Accounted held p c h a))

  sync_at-sizes :
      (p time : ℕ) (c : Cache) (xs : List ℕ) → total (sync_at p time c).item xs ≡ total c.item xs
  sync_at-sizes p time c xs = total-update_same c.item p _ xs refl

  mark_unless-Unmoved : (b : Bool) (p : ℕ) (c : Cache) → Unmoved c (mark_unless b p c)
  mark_unless-Unmoved true p c = record {
    cache_size = refl;
    lru = refl;
    ids = refl;
    next = refl;
    sizes = λ xs. refl;
  }
  mark_unless-Unmoved false p c = record {
    cache_size = refl;
    lru = refl;
    ids = refl;
    next = refl;
    sizes = λ xs.
        sync_at-sizes p 1 (to_go p c) xs
        ∙ total-update_same c.item p (record (c.item p) { remove_from_cache = true }) xs refl;
  }

  pub mark-Unmoved : (p : ℕ) (c : Cache) → Unmoved c (mark p c)
  mark-Unmoved p c = mark_unless-Unmoved (c.item p).remove_from_cache p c

  -- What a resizing leaves: the account, the objects that are held, the maximum and the addresses.
  pub record Resized (held : List ℕ) (c c' : Cache) : Type 0 where
    pub account : Accounted held c'
    pub items : (q : ℕ) → mem q held ≡ true → c'.item q ≡ c.item q
    pub max_cache_size : c'.max_cache_size ≡ c.max_cache_size
    pub next : c'.next ≡ c.next
    pub ids : (q : ℕ) → mem q held ≡ true → mem q c'.ids ≡ mem q c.ids

  then-Resized :
      (held : List ℕ) (a b c : Cache) → Resized held a b → Resized held b c → Resized held a c
  then-Resized held a b c h k = record {
    account = k.account;
    items = λ q m. k.items q m ∙ h.items q m;
    max_cache_size = k.max_cache_size ∙ h.max_cache_size;
    next = k.next ∙ h.next;
    ids = λ q m. k.ids q m ∙ h.ids q m;
  }

  apart :
      (p q : ℕ) (held lru : List ℕ)
      → mem p lru ≡ true
      → (mem q held ≡ true → mem q lru ≡ false)
      → mem q held ≡ true
      → (q == p) ≡ false
  apart p q held lru h k m = ground (arith, k m, ==→eq q p)

  erase-Resized :
      (held : List ℕ) (p : ℕ) (c : Cache) (w : W)
      → mem p c.lru ≡ true
      → Accounted held c
      → Resized held c (erase_element disk p (c, w)).0
  unfolding erase_element
  erase-Resized held p c w h a = record {
    account = erase-Accounted held p c w h a;
    items = λ q m. ground (arith, apart p q held c.lru h (a.outside q) m);
    max_cache_size = ground arith;
    next = ground arith;
    ids = λ q m. ground (arith, mem-without p q c.ids, apart p q held c.lru h (a.outside q) m);
  }

  mark-Resized :
      (held : List ℕ) (p : ℕ) (c : Cache)
      → mem p c.lru ≡ true
      → Accounted held c
      → Resized held c (mark p c)
  mark-Resized held p c h a = record {
    account = keep_sizes-Accounted held c (mark p c) (mark-Unmoved p c) a;
    items = λ q m. ground (arith, apart p q held c.lru h (a.outside q) m);
    max_cache_size = ground arith;
    next = ground arith;
    ids = λ q m. ground arith;
  }

  pub stay-Resized : (held : List ℕ) (c : Cache) → Accounted held c → Resized held c c
  stay-Resized held c a = record {
    account = a;
    items = λ q m. refl;
    max_cache_size = refl;
    next = refl;
    ids = λ q m. refl;
  }

  pub erased_lru :
      (p : ℕ) (c : Cache) (w : W) → (erase_element disk p (c, w)).0.lru ≡ without p c.lru
  unfolding erase_element
  erased_lru p c w = ground arith

  loop-Resized :
      (held : List ℕ) (reserve removed : ℕ) (ps : List ℕ) (c : Cache) (w : W)
      → IsDistinct ps
      → ((q : ℕ) → mem q ps ≡ true → mem q c.lru ≡ true)
      → Accounted held c
      → Resized held c (resize_loop disk reserve removed ps (c, w)).0
  unfolding resize_loop
  loop-Resized held reserve removed [] c w d sub a = stay-Resized held c a
  loop-Resized held reserve removed (p ∷ ps) c w d sub a =
      let here : mem p c.lru ≡ true = sub p (ground arith) in
      elim (Bool-cases (ltb (add64 c.cache_size reserve) (add64 c.max_cache_size removed))) [
        | inl e ↦ rw e (stay-Resized held c a)
        | inr e ↦
            elim (Bool-cases (not ((c.item p).synctime == 0) || (c.item p).remove_from_cache)) [
              | inl k ↦
                  let c1 = mark p c in
                  let u = mark-Unmoved p c in
                  let r = mark-Resized held p c here a in
                  rw (e, k)
                    (then-Resized held c c1 _ r (
                      loop-Resized held reserve (add64 removed (size_of c p)) ps c1 w d.1
                        (λ q m. ground (arith, u.lru, sub q)) r.account))
              | inr k ↦
                  let s1 = erase_element disk p (c, w) in
                  let r = erase-Resized held p c w here a in
                  rw (e, k)
                    (then-Resized held c s1.0 _ r (
                      loop-Resized held reserve removed ps s1.0 s1.1 d.1
                        (λ q m. ground (arith, erased_lru p c w, mem-without p q c.lru, sub q, d.0))
                        r.account))
            ]
      ]

  pub resize-Resized :
      (held : List ℕ) (reserve : ℕ) (c : Cache) (w : W)
      → Accounted held c
      → Resized held c (resize disk reserve (c, w)).0
  unfolding resize
  resize-Resized held reserve c w a = loop-Resized held reserve 0 c.lru c w a.distinct (λ q m. m) a
