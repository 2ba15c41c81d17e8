-- ===== src/Locks/Take.antt =====
-- What `dnet_oplock_take` does to the pool.
use elliptics.Prelude.{
  ◌≢◌, ℕ, ◌-◌, ◌≡◌, refl, inl, inr, true, false, Option, none, some, [], ◌∷◌, ◌++◌, arith, ◌==◌,
  if◌then◌else◌, mem, update, Bool-cases,
}
use elliptics.Key.{RawId, id_cmp_str}
use elliptics.Key.Order.{is_nil, id_cmp_str-IsOrder}
use elliptics.Tree.{RbTree}
use elliptics.Tree.Index.{erase_marked}
use elliptics.Locks.{Locks, oplock_search_nolock, oplock_remove_nolock, oplock_take, put_back}
use elliptics.Locks.Pool.{IsPool, mem-append_last, append_last-IsDistinct, search_linked}

module _ (rb : RbTree) (k : RawId) (s : Locks) (pool : IsPool s) where
  -- The reference that was not the last one is gone.
  pub record Dropped (p : ℕ) (s' : Locks) : Type 0 where
    pub refcnt : s'.refcnt ≡ update s.refcnt p (s.refcnt p - 1)
    pub id : s'.id ≡ s.id
    pub linked : s'.linked ≡ s.linked
    pub locked : s'.locked ≡ s.locked

  -- The last reference is gone, and the entry is free again, behind the other free ones.
  pub record Closed (p : ℕ) (s' : Locks) : Type 0 where
    pub linked : s'.linked ≡ update s.linked p false
    pub locked : s'.locked ≡ s.locked
    pub refcnt : s'.refcnt ≡ update s.refcnt p (s.refcnt p - 1)
    pub id : s'.id ≡ s.id
    pub list : s'.lock_list ≡ s.lock_list ++ p ∷ []
    pub searches :
        (j : RawId)
        → oplock_search_nolock s' j
          ≡ (if is_nil (id_cmp_str k j) then none else oplock_search_nolock s j)

  -- What `dnet_oplock_take` does with the entry `p` of the key.
  abbrev pub Taken : ℕ → Option ℕ × Locks → Type 0
  Taken p (none, s') = IsPool s' × (s.refcnt p - 1 ≡ 0) × Closed p s'
  Taken p (some q, s') =
      IsPool s'
      × (q ≡ p)
      × (s.refcnt p - 1 ≢ 0)
      × Dropped p s'
      × ((j : RawId) → oplock_search_nolock s' j ≡ oplock_search_nolock s j)

  module _ (p : ℕ) (known : oplock_search_nolock s k ≡ some p) where
    abbrev released : Locks
    released = record s { refcnt = update s.refcnt p (s.refcnt p - 1) }

    known_linked : (s.linked p ≡ true) × (s.id p ≡ k) × (mem p s.lock_list ≡ false)
    known_linked =
        let (l, i) = search_linked s k p pool known in
        (
          l,
          i,
          elim (Bool-cases (mem p s.lock_list)) [
            | inl m ↦ absurd (cc (l, pool.unlinked p m))
            | inr n ↦ n
          ],
        )

    dropped : s.refcnt p - 1 ≢ 0 → Taken p (some p, released)
    unfolding oplock_search_nolock
    dropped h = (
      record { index = pool.index; distinct = pool.distinct; unlinked = pool.unlinked },
      refl,
      h,
      record { refcnt = refl; linked = refl; locked = refl; id = refl },
      λ j. refl,
    )

    closed : s.refcnt p - 1 ≡ 0 → Taken p (none, put_back rb p released)
    unfolding oplock_remove_nolock oplock_search_nolock
    closed h =
        let (l, i, n) = known_linked in
        let g = erase_marked id_cmp_str-IsOrder s.id s.lock_tree s.linked pool.index p rb l in
        rw (l, oplock_remove_nolock)
          (
            record {
              index = g.index;
              distinct = append_last-IsDistinct p s.lock_list n pool.distinct;
              unlinked = λ q m. ground (arith, mem-append_last p q s.lock_list, pool.unlinked q);
            },
            h,
            record {
              linked = refl;
              locked = refl;
              refcnt = refl;
              id = refl;
              list = refl;
              searches = λ j. ground (arith, g.searches j, i);
            },
          )

    -- In a pool, dnet_oplock_take on a key that has an entry keeps the pool well formed and takes
    -- one reference off the entry; where that was the last one, the entry is free again, behind
    -- the other free ones, and no search finds the key; searches of other keys are as before.
    pub take-Taken : Taken p (oplock_take rb k s)
    unfolding oplock_take
    take-Taken = elim (Bool-cases (s.refcnt p - 1 == 0)) [
      | inl z ↦ ground (arith, known, closed)
      | inr z ↦ ground (arith, known, dropped)
    ]
