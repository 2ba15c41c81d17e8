-- ===== src/Locks/Exclusion.antt =====
-- Who holds a lock, and what is left of the pool, after any steps of the threads.
use elliptics.Prelude.{
  ℕ, ◌+◌, ◌≤◌, ◌≡◌, refl, inl, inr, true, false, none, some, List, [], ◌∷◌, ◌&&◌, arith, All,
  Option-cases, Bool-cases,
}
use elliptics.Key.{RawId, id_cmp_str}
use elliptics.Key.Order.{is_nil, id_cmp_str-IsOrder}
use elliptics.Tree.{RbTree}
use elliptics.Locks.{Locks, oplock_search_nolock}
use elliptics.Locks.Pool.{IsPool, linked_search, search_linked}
use elliptics.Locks.Threads.{
  Thread, World, Step, arrive, enter, release_last, release_shared, leave, Steps, none_yet,
  then_one, count, waits, holds, is_holding,
}
use elliptics.Locks.Safety.{Bound, IsSafe, arrive-IsSafe, enter-IsSafe}
use elliptics.Locks.Release.{last-IsSafe, shared-IsSafe, leave-IsSafe}

step-IsSafe : (rb : RbTree) (u v : World) → Step rb u v → IsSafe u → IsSafe v
step-IsSafe rb _ _ (arrive w k p s' e) safe = arrive-IsSafe rb k p w.locks s' w.threads safe e
step-IsSafe rb _ _ (enter s s' xs ys p k e) safe = enter-IsSafe s s' xs ys p k safe e
step-IsSafe rb _ _ (release_last s s' xs ys p k e) safe = last-IsSafe rb s s' xs ys p k safe e
step-IsSafe rb _ _ (release_shared s s' xs ys p q k e) safe =
    shared-IsSafe rb s s' xs ys p k safe q e
step-IsSafe rb _ _ (leave s xs ys p k) safe = leave-IsSafe s xs ys p k safe

pub steps-IsSafe : (rb : RbTree) (u v : World) → Steps rb u v → IsSafe u → IsSafe v
steps-IsSafe rb _ _ (none_yet w) safe = safe
steps-IsSafe rb _ _ (then_one u v w before last) safe =
    step-IsSafe rb v w last (steps-IsSafe rb u v before safe)

-- A pool none of whose entries is in use.
pub record IsIdle (s : Locks) : Type 0 where
  pub pool : IsPool s
  pub unlinked : (p : ℕ) → s.linked p ≡ false

-- The pool before any thread comes.
abbrev pub quiet : Locks → World
quiet s = record { locks = s; threads = [] }

pub quiet-IsSafe : (s : Locks) → IsIdle s → IsSafe (quiet s)
quiet-IsSafe s i = record {
  pool = i.pool;
  bound = tt;
  refs = λ p h. absurd (cc (h, i.unlinked p));
  one = λ p h. absurd (cc (h, i.unlinked p));
}

-- How many threads hold the lock of a key.
abbrev pub holders : RawId → List Thread → ℕ
holders k = count (λ t. is_holding t.phase && is_nil (id_cmp_str t.key k))

holders_le :
    (s : Locks) (k : RawId) (p : ℕ) (ts : List Thread)
    → IsPool s
    → All (Bound s) ts
    → oplock_search_nolock s k ≡ some p
    → holders k ts ≤ holds p ts
holders_le s k p [] pool b e = omega arith
holders_le s k p (t ∷ ts) pool b e = ground (
  arith,
  holders_le s k p ts pool b.1 e,
  linked_search s t.entry pool b.0.0,
  b.0.1,
  id_cmp_str-IsOrder.eq_of_nil t.key k,
)

holders-none :
    (s : Locks) (k : RawId) (ts : List Thread)
    → IsPool s
    → All (Bound s) ts
    → oplock_search_nolock s k ≡ none
    → holders k ts ≡ 0
holders-none s k [] pool b e = refl
holders-none s k (t ∷ ts) pool b e = ground (
  arith,
  holders-none s k ts pool b.1 e,
  linked_search s t.entry pool b.0.0,
  b.0.1,
  id_cmp_str-IsOrder.eq_of_nil t.key k,
)

holds_le_one : (w : World) (p : ℕ) → IsSafe w → w.locks.linked p ≡ true → holds p w.threads ≤ 1
holds_le_one w p safe h = ground (arith, safe.one p h)

module _ (rb : RbTree) (s : Locks) (w : World) (idle : IsIdle s)
    (steps : Steps rb (quiet s) w) where
  abbrev safe : IsSafe w
  safe = steps-IsSafe rb (quiet s) w steps (quiet-IsSafe s idle)

  -- Whatever steps threads take from an idle pool, each with an entry, no two of them hold the
  -- lock of one key.
  pub steps_exclude : (k : RawId) → holders k w.threads ≤ 1
  steps_exclude k = elim (Option-cases (oplock_search_nolock w.locks k)) [
    | inl e ↦ omega (arith, holders-none w.locks k w.threads safe.pool safe.bound e)
    | inr (p, e) ↦
        let linked = search_linked w.locks k p safe.pool e in
        omega (
          arith,
          holders_le w.locks k p w.threads safe.pool safe.bound e,
          holds_le_one w p safe linked.0,
        )
  ]

  -- Once all threads of an idle pool are done, the pool is idle again: no entry stays in use.
  pub steps_end-IsIdle : w.threads ≡ [] → IsIdle w.locks
  steps_end-IsIdle e = record {
    pool = safe.pool;
    unlinked = λ p. elim (Bool-cases (w.locks.linked p)) [
      | inl h ↦
          let n : waits p w.threads + holds p w.threads ≡ 0 = rw e refl in
          absurd (omega (arith, safe.refs p h))
      | inr h ↦ h
    ];
  }
