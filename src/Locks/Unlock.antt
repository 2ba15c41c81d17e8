-- ===== src/Locks/Unlock.antt =====
-- A lock on a key that no one uses, and its unlocking, by one thread.
use elliptics.Prelude.{
  ℕ, ◌≡◌, refl, ◌∙◌, inl, inr, true, Option, none, some, List, [], ◌∷◌, ◌++◌, arith, if◌then◌else◌,
  update,
}
use elliptics.Key.{RawId, id_cmp_str}
use elliptics.Key.Order.{is_nil, id_cmp_str-IsOrder}
use elliptics.Tree.{RbTree}
use elliptics.Locks.{
  Locks, oplock, opunlock, oplock_search_nolock, oplock_ensure, oplock_take, oplock_enter,
  enter_ensured, leave_taken,
}
use elliptics.Locks.Pool.{IsPool, Ensured, ensure-Ensured, Opened}
use elliptics.Locks.Take.{Taken, take-Taken}
use elliptics.Locks.Safety.{at}

module _ (rb : RbTree) (k : RawId) (s : Locks) (pool : IsPool s) (p : ℕ) (rest : List ℕ)
    (unused : oplock_search_nolock s k ≡ none) (list : s.lock_list ≡ p ∷ rest) where
  -- The first free entry is the key's and is locked.
  pub record Locked (s1 : Locks) : Type 0 where
    pub formed : IsPool s1
    pub locked : s1.locked p ≡ true
    pub refcnt : s1.refcnt p ≡ 1
    pub free : s1.lock_list ≡ rest
    pub searches :
        (j : RawId)
        → oplock_search_nolock s1 j
          ≡ (if is_nil (id_cmp_str k j) then some p else oplock_search_nolock s j)

  heads : (q : ℕ) (qs : List ℕ) → s.lock_list ≡ q ∷ qs → (q ≡ p) × (qs ≡ rest)
  heads q qs e = (ground (arith, e, list), ground (arith, e, list))

  -- What `dnet_oplock` makes of an entry that was opened for it.
  own :
      (q : ℕ) (s1 : Locks)
      → IsPool s1
      → Opened rb k s pool q s1
      → ((j : RawId)
          → oplock_search_nolock s1 j
            ≡ (if is_nil (id_cmp_str k j) then some q else oplock_search_nolock s j))
      → Locked (record s1 { locked = update s1.locked q true })
  unfolding oplock_search_nolock
  own q s1 w op search =
      let (same, tail) = heads q s1.lock_list op.list in
      record {
        formed = record { index = w.index; distinct = w.distinct; unlinked = w.unlinked };
        locked = ground arith;
        refcnt = ground (arith, at op.refcnt p);
        free = tail;
        searches = λ j. ground (arith, search j);
      }

  locked :
      (r : Option ℕ × Locks)
      → Ensured rb k s pool r
      → (s1 : Locks) × (enter_ensured r ≡ some s1) × Locked s1
  unfolding oplock_enter
  locked (none, s1) e = absurd (ground (arith, e.1, list))
  locked (some q, s1) (w, inl sh, search) = absurd (ground (arith, sh.known, unused))
  locked (some q, s1) (w, inr op, search) =
      (_, ground (arith, at op.locked q), own q s1 w op search)

  module _ (s1 : Locks) (l : Locked s1) where
    found : oplock_search_nolock s1 k ≡ some p
    found = ground (arith, l.searches k, id_cmp_str-IsOrder.same k)

    -- The pool as it was, with the entry behind the other free ones.
    pub record Restored (s2 : Locks) : Type 0 where
      pub formed : IsPool s2
      pub free : s2.lock_list ≡ rest ++ p ∷ []
      pub searches : (j : RawId) → oplock_search_nolock s2 j ≡ oplock_search_nolock s j

    restored : (r : Option ℕ × Locks) → Taken rb k s1 l.formed p r → Restored (leave_taken r)
    restored (some q, s2) t = absurd (omega (arith, l.refcnt, t.2))
    restored (none, s2) (w, z, c) = record {
      formed = w;
      free = c.list ∙ rw l.free refl;
      searches =
          λ j. ground (arith, c.searches j, l.searches j, id_cmp_str-IsOrder.eq_of_nil k j, unused);
    }

  -- In a pool with a free entry, locking a key that has none succeeds at once, with the first free
  -- entry as the key's, locked, with one reference; unlocking it leaves every search as it was
  -- before, and that entry behind the other free ones.
  pub lock_unlock :
      (s1 : Locks) × (l : Locked s1) × (oplock rb k s ≡ some s1) × Restored s1 l (opunlock rb k s1)
  unfolding oplock opunlock
  lock_unlock =
      let (s1, e, l) = locked (oplock_ensure rb k s) (ensure-Ensured rb k s pool) in
      (s1, l, e, restored s1 l (oplock_take rb k s1) (take-Taken rb k s1 l.formed p (found s1 l)))
