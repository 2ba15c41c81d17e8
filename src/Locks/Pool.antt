-- ===== src/Locks/Pool.antt =====
-- The pool of lock entries: what taking and giving back an entry's reference does.
use elliptics.Prelude.{
  ℕ, ◌+◌, ◌≡◌, refl, ◌⊎◌, inl, inr, true, false, Option, none, some, List, [], ◌∷◌, ◌++◌, arith,
  ◌==◌, if◌then◌else◌, mem, update, Option-cases,
}
use elliptics.Key.{RawId, id_cmp_str}
use elliptics.Key.Order.{is_nil, id_cmp_str-IsOrder}
use elliptics.Tree
use elliptics.Tree.{RbTree, link}
use elliptics.Tree.Index.{IsIndex, found_marked, marked_found, link_free, update_unmarked}
use elliptics.Locks.{
  Locks, oplock_search_nolock, oplock_insert_nolock, fresh_entry, oplock_ensure, from_pool,
}

-- No address twice.
abbrev pub IsDistinct : List ℕ → Type 0
IsDistinct [] = Unit
IsDistinct (p ∷ ps) = (mem p ps ≡ false) × IsDistinct ps

pub mem-append_last :
    (p q : ℕ) (xs : List ℕ) → mem q (xs ++ p ∷ []) ≡ (if p == q then true else mem q xs)
mem-append_last p q [] = refl
mem-append_last p q (x ∷ xs) = ground (arith, mem-append_last p q xs)

pub append_last-IsDistinct :
    (p : ℕ) (xs : List ℕ) → mem p xs ≡ false → IsDistinct xs → IsDistinct (xs ++ p ∷ [])
append_last-IsDistinct p [] n d = (refl, tt)
append_last-IsDistinct p (x ∷ xs) n d =
    (ground (arith, mem-append_last p x xs, d.0), append_last-IsDistinct p xs (ground arith) d.1)

-- The tree is in order; the free entries are different ones and in no tree.
pub record IsPool (s : Locks) : Type 0 where
  pub index : IsIndex id_cmp_str-IsOrder s.id s.lock_tree s.linked
  pub distinct : IsDistinct s.lock_list
  pub unlinked : (p : ℕ) → mem p s.lock_list ≡ true → s.linked p ≡ false

pub search_linked :
    (s : Locks) (k : RawId) (p : ℕ)
    → IsPool s
    → oplock_search_nolock s k ≡ some p
    → (s.linked p ≡ true) × (s.id p ≡ k)
unfolding oplock_search_nolock
search_linked s k p pool e =
    found_marked id_cmp_str-IsOrder s.id s.lock_tree s.linked pool.index k p e

pub linked_search :
    (s : Locks) (p : ℕ) → IsPool s → s.linked p ≡ true → oplock_search_nolock s (s.id p) ≡ some p
unfolding oplock_search_nolock
linked_search s p pool h = marked_found id_cmp_str-IsOrder s.id s.lock_tree s.linked pool.index p h

module _ (rb : RbTree) (k : RawId) (s : Locks) (pool : IsPool s) where
  -- The key's entry gets one more reference.
  pub record Shared (p : ℕ) (s' : Locks) : Type 0 where
    pub known : oplock_search_nolock s k ≡ some p
    pub was : s.linked p ≡ true
    pub linked : s'.linked ≡ s.linked
    pub locked : s'.locked ≡ s.locked
    pub refcnt : s'.refcnt ≡ update s.refcnt p (s.refcnt p + 1)
    pub id : s'.id ≡ s.id
    pub own : s.id p ≡ k

  -- A free entry becomes the key's, with one reference and not locked.
  pub record Opened (p : ℕ) (s' : Locks) : Type 0 where
    pub unknown : oplock_search_nolock s k ≡ none
    pub was : s.linked p ≡ false
    pub linked : s'.linked ≡ update s.linked p true
    pub locked : s'.locked ≡ update s.locked p false
    pub refcnt : s'.refcnt ≡ update s.refcnt p 1
    pub id : s'.id ≡ update s.id p k
    pub list : s.lock_list ≡ p ∷ s'.lock_list

  -- What `dnet_oplock_ensure` does: it fails on a new key where no entry is free, or it gives the
  -- key's entry, which it shares or opens; searches of other keys are as before.
  abbrev pub Ensured : Option ℕ × Locks → Type 0
  Ensured (none, s') = (oplock_search_nolock s k ≡ none) × (s.lock_list ≡ []) × (s' ≡ s)
  Ensured (some p, s') =
      IsPool s'
      × (Shared p s' ⊎ Opened p s')
      × ((j : RawId)
          → oplock_search_nolock s' j
            ≡ (if is_nil (id_cmp_str k j) then some p else oplock_search_nolock s j))

  shared :
      (p : ℕ)
      → oplock_search_nolock s k ≡ some p
      → Ensured (some p, record s { refcnt = update s.refcnt p (s.refcnt p + 1) })
  unfolding oplock_search_nolock
  shared p e = (
    record { index = pool.index; distinct = pool.distinct; unlinked = pool.unlinked },
    inl record {
      known = e;
      was = (search_linked s k p pool e).0;
      linked = refl;
      locked = refl;
      refcnt = refl;
      id = refl;
      own = (search_linked s k p pool e).1;
    },
    λ j. ground (arith, id_cmp_str-IsOrder.eq_of_nil k j, e),
  )

  module _ (p : ℕ) (rest : List ℕ) (free : oplock_search_nolock s k ≡ none)
      (list : s.lock_list ≡ p ∷ rest) where
    abbrev blank : Locks
    blank = record s {
      lock_list = rest;
      locked = update s.locked p false;
      refcnt = update s.refcnt p 1;
      id = update s.id p k;
    }

    free_unlinked : (s.linked p ≡ false) × (mem p rest ≡ false) × IsDistinct rest
    free_unlinked =
        let d : IsDistinct (p ∷ rest) = rw list at pool.distinct in
        (pool.unlinked p (ground (arith, list)), d.0, d.1)

    blank-IsIndex :
        IsIndex id_cmp_str-IsOrder blank.id s.lock_tree s.linked
        × ((j : RawId)
            → Tree.search id_cmp_str blank.id s.lock_tree j
              ≡ Tree.search id_cmp_str s.id s.lock_tree j)
    blank-IsIndex =
        update_unmarked id_cmp_str-IsOrder s.id p k s.lock_tree s.linked pool.index free_unlinked.0

    own_key : blank.id p ≡ k
    own_key = ground arith

    blank_free : Tree.search id_cmp_str blank.id s.lock_tree (blank.id p) ≡ none
    unfolding oplock_search_nolock
    blank_free = ground (arith, own_key, blank-IsIndex.1 k, free)

    opened : Ensured (some p, (oplock_insert_nolock rb p blank).1)
    unfolding oplock_insert_nolock oplock_search_nolock
    opened =
        let (r, e, g) =
          link_free id_cmp_str-IsOrder blank.id s.lock_tree s.linked blank-IsIndex.0 p rb
            blank_free in
        rw (e, oplock_insert_nolock)
          (
            record {
              index = g.index;
              distinct = free_unlinked.2;
              unlinked = λ q h. ground (arith, pool.unlinked q, list, free_unlinked.1);
            },
            inr record {
              unknown = free;
              was = free_unlinked.0;
              linked = refl;
              locked = refl;
              refcnt = refl;
              id = refl;
              list = list;
            },
            λ j. ground (arith, g.searches j, own_key, blank-IsIndex.1 j),
          )

  from-Ensured :
      (l : List ℕ)
      → oplock_search_nolock s k ≡ none
      → s.lock_list ≡ l
      → Ensured (from_pool rb k l s)
  unfolding fresh_entry
  from-Ensured [] free e = (free, e, refl)
  from-Ensured (p ∷ rest) free e = opened p rest free e

  -- In a pool, dnet_oplock_ensure keeps the pool well formed; it fails only on a new key with no
  -- free entry left, else it gives the key's entry with one more reference, or a free entry that
  -- is then the key's, unlocked, with one reference; searches of other keys are as before.
  pub ensure-Ensured : Ensured (oplock_ensure rb k s)
  unfolding oplock_ensure
  ensure-Ensured = elim (Option-cases (oplock_search_nolock s k)) [
    | inl e ↦ rw (e, oplock_ensure) (from-Ensured s.lock_list e refl)
    | inr (p, e) ↦ rw (e, oplock_ensure) (shared p e)
  ]
