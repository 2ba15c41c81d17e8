-- ===== src/Cache/Fits.antt =====
-- How far a resizing makes room: what it leaves, but for objects that are to go, and the reserve fit
-- into the cache, or all that is left is to go.
use elliptics.Prelude.{
  ℕ, ◌+◌, ◌^◌, ◌<◌, ◌≤◌, ◌≡◌, refl, ◌⊎◌, inl, inr, Bool, true, false, not, ◌||◌, List, [], ◌∷◌,
  arith, ◌==◌, ltb, if◌then◌else◌, length, mem, Bool-cases, ==→eq,
}
use elliptics.Locks.Pool.{IsDistinct}
use elliptics.Cache.{
  Cache, Disk, Item, add64, without, size_of, erase_element, mark, mark_unless, resize_loop, resize,
}
use elliptics.Cache.Sums.{total, mem-without, without_absent, total-without, total-update_same}
use elliptics.Cache.Accounted.{Accounted, keep_sizes-Accounted}
use elliptics.Cache.Evict.{erase-Accounted, mark-Unmoved, erased_lru}

-- The size of an object that is not to go.
abbrev pub stays : Item → ℕ
stays x = if x.remove_from_cache then 0 else length x.content

abbrev pub staying : (ℕ → Item) → List ℕ → ℕ
staying item [] = 0
staying item (p ∷ ps) = stays (item p) + staying item ps

staying-total : (item : ℕ → Item) (ps : List ℕ) → staying item ps ≤ total item ps
staying-total item [] = omega arith
staying-total item (p ∷ ps) = ground (arith, staying-total item ps)

staying-without :
    (item : ℕ → Item) (p : ℕ) (xs : List ℕ)
    → IsDistinct xs
    → mem p xs ≡ true
    → staying item xs ≡ stays (item p) + staying item (without p xs)
staying-without item p [] d h = absurd (ground (arith, h))
staying-without item p (x ∷ xs) d h = elim (Bool-cases (x == p)) [
  | inl e ↦ ground (arith, e, d.0, without_absent p xs, ==→eq x p e)
  | inr e ↦ ground (arith, e, staying-without item p xs d.1)
]

-- Objects that are not in the list change nothing.
staying-same :
    (item item' : ℕ → Item) (ps : List ℕ)
    → ((q : ℕ) → mem q ps ≡ true → stays (item' q) ≡ stays (item q))
    → staying item' ps ≡ staying item ps
staying-same item item' [] h = refl
staying-same item item' (p ∷ ps) h =
    ground (arith, h p, staying-same item item' ps (λ q m. h q (ground (arith, m))))

module _ {ℓ} {W : Type ℓ} (disk : Disk W) where
  -- The loop's bookkeeping: `ps` is still to be seen, and all other objects of the list are to go.
  record Seen (reserve removed : ℕ) (ps : List ℕ) (c : Cache) : Type 0 where
    account : Accounted [] c
    distinct : IsDistinct ps
    listed : (q : ℕ) → mem q ps ≡ true → mem q c.lru ≡ true
    rest : staying c.item c.lru ≡ staying c.item ps
    counted : total c.item c.lru ≡ removed + total c.item ps
    small : c.max_cache_size + total c.item c.lru + reserve < 2 ^ 64

  -- What is left, but for what is to go, and the reserve are below the maximum, or nothing else is left.
  abbrev pub Fits : ℕ → Cache → Type 0
  Fits reserve c = (staying c.item c.lru + reserve < c.max_cache_size) ⊎ (staying c.item c.lru ≡ 0)

  stop-Fits :
      (reserve removed : ℕ) (ps : List ℕ) (c : Cache)
      → Seen reserve removed ps c
      → ltb (add64 c.cache_size reserve) (add64 c.max_cache_size removed) ≡ true
      → Fits reserve c
  stop-Fits reserve removed ps c s h =
      inl (ground (arith, s.rest, s.counted, s.small, s.account.sum, staying-total c.item ps))

  mark_unless-stays :
      (b : Bool) (p q : ℕ) (c : Cache)
      → b ≡ (c.item p).remove_from_cache
      → stays ((mark_unless b p c).item q) ≡ (if q == p then 0 else stays (c.item q))
  mark_unless-stays true p q c e = ground (arith, e, ==→eq q p)
  mark_unless-stays false p q c e = ground (arith, ==→eq q p)

  erased_stays :
      (p q : ℕ) (c : Cache) (w : W)
      → stays ((erase_element disk p (c, w)).0.item q) ≡ stays (c.item q)
  unfolding erase_element
  erased_stays p q c w = ground (arith, ==→eq q p)

  erased_sizes :
      (p : ℕ) (c : Cache) (w : W) (xs : List ℕ)
      → total (erase_element disk p (c, w)).0.item xs ≡ total c.item xs
  unfolding erase_element
  erased_sizes p c w xs = elim (Bool-cases (not ((c.item p).synctime == 0))) [
    | inl e ↦ rw e (total-update_same c.item p _ xs refl)
    | inr e ↦ rw e refl
  ]

  erased_max :
      (p : ℕ) (c : Cache) (w : W)
      → (erase_element disk p (c, w)).0.max_cache_size ≡ c.max_cache_size
  unfolding erase_element
  erased_max p c w = ground arith

  mark_max : (b : Bool) (p : ℕ) (c : Cache) → (mark_unless b p c).max_cache_size ≡ c.max_cache_size
  mark_max true p c = refl
  mark_max false p c = refl

  module _ (reserve removed p : ℕ) (ps : List ℕ) (c : Cache) (w : W)
      (s : Seen reserve removed (p ∷ ps) c) where
    here : mem p c.lru ≡ true
    here = s.listed p (ground arith)

    -- The others of the list that are not to go.
    others_stay : staying c.item (without p c.lru) ≡ staying c.item ps
    others_stay = ground (arith, s.rest, staying-without c.item p c.lru s.account.distinct here)

    marked_Seen : Seen reserve (add64 removed (size_of c p)) ps (mark p c)
    marked_Seen =
        let u = mark-Unmoved disk p c in
        let c1 = mark p c in
        let gone : stays (c1.item p) ≡ 0 =
          ground (arith, mark_unless-stays (c.item p).remove_from_cache p p c refl) in
        let same_ps : staying c1.item ps ≡ staying c.item ps =
          staying-same c.item c1.item ps (λ q m. ground (
            arith,
            mark_unless-stays (c.item p).remove_from_cache p q c refl,
            s.distinct.0,
            m,
            ==→eq q p,
          )) in
        let same_lru : staying c1.item (without p c.lru) ≡ staying c.item (without p c.lru) =
          staying-same c.item c1.item (without p c.lru) (λ q m. ground (
            arith,
            mark_unless-stays (c.item p).remove_from_cache p q c refl,
            mem-without p q c.lru,
            m,
          )) in
        record {
          account = keep_sizes-Accounted [] c c1 u s.account;
          distinct = s.distinct.1;
          listed = λ q m. ground (arith, u.lru, s.listed q);
          rest = ground (
            arith,
            u.lru,
            gone,
            same_ps,
            same_lru,
            others_stay,
            staying-without c1.item p c.lru s.account.distinct here,
          );
          counted = ground (arith, u.lru, u.sizes c.lru, u.sizes ps, s.counted, s.small);
          small =
              ground
                (arith, u.lru, u.sizes c.lru, s.small, mark_max (c.item p).remove_from_cache p c);
        }

    erased_Seen : Seen reserve removed ps (erase_element disk p (c, w)).0
    erased_Seen =
        let c1 = (erase_element disk p (c, w)).0 in
        record {
          account = erase-Accounted disk [] p c w here s.account;
          distinct = s.distinct.1;
          listed = λ q m. ground (
            arith,
            erased_lru disk p c w,
            mem-without p q c.lru,
            s.listed q,
            s.distinct.0,
            ==→eq q p,
          );
          rest = ground (
            arith,
            erased_lru disk p c w,
            others_stay,
            staying-same c.item c1.item (without p c.lru) (λ q m. erased_stays p q c w),
            staying-same c.item c1.item ps (λ q m. erased_stays p q c w),
          );
          counted = ground (
            arith,
            erased_lru disk p c w,
            erased_sizes p c w (without p c.lru),
            erased_sizes p c w ps,
            s.counted,
            total-without c.item p c.lru s.account.distinct here,
          );
          small = ground (
            arith,
            erased_lru disk p c w,
            erased_sizes p c w (without p c.lru),
            s.small,
            erased_max p c w,
            total-without c.item p c.lru s.account.distinct here,
          );
        }

  loop-Fits :
      (reserve removed : ℕ) (ps : List ℕ) (c : Cache) (w : W)
      → Seen reserve removed ps c
      → Fits reserve (resize_loop disk reserve removed ps (c, w)).0
  unfolding resize_loop
  loop-Fits reserve removed [] c w s = inr s.rest
  loop-Fits reserve removed (p ∷ ps) c w s =
      elim (Bool-cases (ltb (add64 c.cache_size reserve) (add64 c.max_cache_size removed))) [
        | inl e ↦ rw e (stop-Fits reserve removed (p ∷ ps) c s e)
        | inr e ↦
            elim (Bool-cases (not ((c.item p).synctime == 0) || (c.item p).remove_from_cache)) [
              | inl k ↦
                  rw (e, k)
                    (loop-Fits reserve (add64 removed (size_of c p)) ps (mark p c) w
                      (marked_Seen reserve removed p ps c w s))
              | inr k ↦
                  rw (e, k)
                    (loop-Fits reserve removed ps _ _ (erased_Seen reserve removed p ps c w s))
            ]
      ]

  -- Where the account is right and the numbers do not wrap, what a resizing leaves in the list,
  -- but for objects that are to go once they are written, and the reserve are together below the
  -- maximum; or no other object with contents is left.
  pub resize-Fits :
      (reserve : ℕ) (c : Cache) (w : W)
      → Accounted [] c
      → c.max_cache_size + total c.item c.lru + reserve < 2 ^ 64
      → Fits reserve (resize disk reserve (c, w)).0
  unfolding resize
  resize-Fits reserve c w a h = loop-Fits reserve 0 c.lru c w (record {
    account = a;
    distinct = a.distinct;
    listed = λ q m. m;
    rest = refl;
    counted = omega arith;
    small = h;
  })
