-- ===== src/Cache/Accounted.antt =====
-- The accounting of a cache: its size is the sum of the sizes of the objects in its list, which are
-- different ones, and every object that can be found is in the list. The containers' basic steps.
use elliptics.Prelude.{
  ℕ, ◌+◌, ◌%◌, ◌^◌, ◌<◌, ◌≡◌, refl, sym, ◌∙◌, ap, inl, inr, true, false, ◌||◌, List, [], ◌∷◌, ◌++◌,
  arith, update, length, mem, Bool-cases,
}
use elliptics.Locks.Pool.{IsDistinct, append_last-IsDistinct, mem-append_last}
use elliptics.Cache.{Cache, Item, add64, sub64, without, size_of, set_item}
use elliptics.Cache.Sums.{
  total, mem-without, without-IsDistinct, total-without, total-update, total-update_same,
  total-append_last,
}

-- `held` are the objects that are out of the list for a moment.
pub record Accounted (held : List ℕ) (c : Cache) : Type 0 where
  pub sum : c.cache_size ≡ total c.item c.lru % 2 ^ 64
  pub distinct : IsDistinct c.lru
  pub outside : (q : ℕ) → mem q held ≡ true → mem q c.lru ≡ false
  pub known : (q : ℕ) → mem q c.ids ≡ true → (mem q held || mem q c.lru) ≡ true
  pub below : (q : ℕ) → (mem q held || mem q c.lru) ≡ true → q < c.next

-- A step that leaves sizes, the list, the ids and the addresses alone.
pub record Unmoved (c c' : Cache) : Type 0 where
  pub cache_size : c'.cache_size ≡ c.cache_size
  pub lru : c'.lru ≡ c.lru
  pub ids : c'.ids ≡ c.ids
  pub next : c'.next ≡ c.next
  pub sizes : (xs : List ℕ) → total c'.item xs ≡ total c.item xs

pub keep_sizes-Accounted :
    (held : List ℕ) (c c' : Cache) → Unmoved c c' → Accounted held c → Accounted held c'
keep_sizes-Accounted held c c' u a = record {
  sum = ground (arith, u.cache_size, u.lru, u.sizes c.lru, a.sum);
  distinct = rw u.lru a.distinct;
  outside = λ q h. ground (arith, u.lru, a.outside q h);
  known = λ q h. ground (arith, u.lru, u.ids, a.known q);
  below = λ q h. ground (arith, u.lru, u.next, a.below q);
}

pub set_item-Unmoved :
    (p : ℕ) (x : Item) (c : Cache) → length x.content ≡ size_of c p → Unmoved c (set_item p x c)
set_item-Unmoved p x c h = record {
  cache_size = refl;
  lru = refl;
  ids = refl;
  next = refl;
  sizes = λ xs. total-update_same c.item p x xs h;
}

sub64-sum : (a b t : ℕ) → t ≡ a + b → sub64 (t % 2 ^ 64) a ≡ b % 2 ^ 64
sub64-sum a b t h = omega (arith, h)

add64-sum :
    (new_size t length : ℕ)
    → new_size % 2 ^ 64 ≡ length % 2 ^ 64
    → add64 (t % 2 ^ 64) new_size ≡ (t + length) % 2 ^ 64
add64-sum new_size t length h = omega (arith, h)

update_here : (item : ℕ → Item) (p : ℕ) (x : Item) → update item p x p ≡ x
update_here item p x = ground arith

-- Out of the list, with its size off the account.
abbrev pub detach : ℕ → Cache → Cache
detach p c = record c { cache_size = sub64 c.cache_size (size_of c p); lru = without p c.lru }

pub detach-Accounted :
    (held : List ℕ) (p : ℕ) (c : Cache)
    → mem p c.lru ≡ true
    → Accounted held c
    → Accounted (p ∷ held) (detach p c)
detach-Accounted held p c h a = record {
  sum = rw a.sum (
      sub64-sum (size_of c p) (total c.item (without p c.lru)) (total c.item c.lru)
        (total-without c.item p c.lru a.distinct h));
  distinct = without-IsDistinct p c.lru a.distinct;
  outside = λ q k. ground (arith, mem-without p q c.lru, a.outside q);
  known = λ q k. ground (arith, mem-without p q c.lru, a.known q);
  below = λ q k. ground (arith, mem-without p q c.lru, a.below q, a.below p, h);
}

pub forget-Accounted :
    (held : List ℕ) (p : ℕ) (c : Cache)
    → Accounted (p ∷ held) c
    → Accounted held (record c { ids = without p c.ids })
forget-Accounted held p c a = record {
  sum = a.sum;
  distinct = a.distinct;
  outside = λ q k. ground (arith, a.outside q);
  known = λ q k. ground (arith, mem-without p q c.ids, a.known q);
  below = λ q k. ground (arith, a.below q);
}

-- Back at the end of the list, with new contents, and `new_size` on the account.
abbrev pub attach : (new_size : ℕ) → ℕ → Item → Cache → Cache
attach new_size p x c = record (set_item p x c) {
  cache_size = add64 c.cache_size new_size;
  lru = c.lru ++ p ∷ [];
}

pub attach-Accounted :
    (new_size p : ℕ) (x : Item) (c : Cache)
    → new_size % 2 ^ 64 ≡ length x.content % 2 ^ 64
    → Accounted (p ∷ []) c
    → Accounted [] (attach new_size p x c)
attach-Accounted new_size p x c size a =
    let off : mem p c.lru ≡ false = a.outside p (ground arith) in
    record {
      sum =
          rw
            (
              a.sum,
              total-append_last (update c.item p x) p c.lru,
              total-update c.item p x c.lru off,
            )
            (add64-sum new_size (total c.item c.lru) (length x.content) size
              ∙ ap (λ (y : Item). (total c.item c.lru + length y.content) % 2 ^ 64)
                  (sym (update_here c.item p x)));
      distinct = append_last-IsDistinct p c.lru off a.distinct;
      outside = λ q k. absurd (ground (arith, k));
      known = λ q k. ground (arith, mem-append_last p q c.lru, a.known q k);
      below = λ q k. ground (arith, mem-append_last p q c.lru, a.below q);
    }

-- A new object, not in the list yet.
pub fresh-Accounted :
    (c : Cache) → Accounted [] c → Accounted (c.next ∷ []) (record c { next = c.next + 1 })
fresh-Accounted c a = record {
  sum = a.sum;
  distinct = a.distinct;
  outside = λ q k. elim (Bool-cases (mem q c.lru)) [
    | inl m ↦ absurd (ground (arith, a.below q m, k))
    | inr m ↦ m
  ];
  known = λ q k. ground (arith, a.known q k);
  below = λ q k. ground (arith, a.below q);
}

pub known-Accounted :
    (p : ℕ) (c : Cache)
    → mem p c.lru ≡ true
    → Accounted [] c
    → Accounted [] (record c { ids = p ∷ c.ids })
known-Accounted p c h a = record {
  sum = a.sum;
  distinct = a.distinct;
  outside = a.outside;
  known = λ q k. ground (arith, a.known q, h);
  below = a.below;
}
