-- ===== src/Locks/Release.antt =====
-- A thread that unlocks its key keeps what threads and entries know of each other.
use elliptics.Prelude.{
  ℕ, ◌+◌, ◌-◌, ◌≡◌, ◌∙◌, ◌≢◌, Option, none, some, List, [], ◌∷◌, ◌++◌, arith, All,
}
use elliptics.Key.{RawId}
use elliptics.Tree.{RbTree}
use elliptics.Locks.{Locks, oplock_search_nolock, oplock_take, opunlock_leave}
use elliptics.Locks.Pool.{linked_search}
use elliptics.Locks.Take.{Taken, take-Taken, Closed}
use elliptics.Locks.Threads.{
  Phase, waiting, holding, leaving, Thread, waits, holds, leaves, is_waiting, is_holding,
  is_leaving,
}
use elliptics.Locks.Safety.{Bound, IsSafe, All-weaken, All-without, All-with, apart, at, stand}

-- Threads of which none is at an entry.
elsewhere :
    (p : ℕ) (ts : List Thread)
    → waits p ts + (holds p ts + leaves p ts) ≡ 0
    → All (λ t. t.entry ≢ p) ts
elsewhere p [] h = tt
elsewhere p (t ∷ ts) h = (not_here t.phase (ground arith), elsewhere p ts (ground arith))
  where
    not_here : (f : Phase) → t.phase ≡ f → t.entry ≢ p
    not_here waiting e i = ground arith
    not_here holding e i = ground arith
    not_here leaving e i = ground arith

module _ (rb : RbTree) (s s' : Locks) (xs ys : List Thread) (p : ℕ) (k : RawId)
    (safe : IsSafe (record { locks = s; threads = xs ++ stand p k holding ∷ ys })) where
  bounds : Bound s (stand p k holding) × All (Bound s) (xs ++ ys)
  bounds = All-without (Bound s) xs (stand p k holding) ys safe.bound

  -- The holder's key leads back to its entry.
  known : oplock_search_nolock s k ≡ some p
  known = rw bounds.0.1 at (linked_search s p safe.pool bounds.0.0)

  taken : (r : Option ℕ × Locks) → oplock_take rb k s ≡ r → Taken rb k s safe.pool p r
  taken r e = rw e at (take-Taken rb k s safe.pool p known)

  -- Where the last reference goes, no other thread is at the entry.
  alone : s.refcnt p - 1 ≡ 0 → All (λ t. t.entry ≢ p) (xs ++ ys)
  alone z = elsewhere p (xs ++ ys) (
      ground (
        arith,
        safe.refs p bounds.0.0,
        safe.one p bounds.0.0,
        apart xs ys p k is_waiting holding p,
        apart xs ys p k is_holding holding p,
        apart xs ys p k is_leaving holding p,
      ))

  pub last-IsSafe :
      oplock_take rb k s ≡ (none, s') → IsSafe (record { locks = s'; threads = xs ++ ys })
  last-IsSafe e =
      let (pool, z, c) = taken (none, s') e in
      record {
        pool = pool;
        bound = gone c (xs ++ ys) (alone z) bounds.1;
        refs = λ q h. ground (
          arith,
          at c.linked q,
          at c.refcnt q,
          safe.refs q,
          apart xs ys p k is_waiting holding q,
          apart xs ys p k is_holding holding q,
        );
        one = λ q h. ground (
          arith,
          at c.linked q,
          at c.locked q,
          safe.one q,
          apart xs ys p k is_leaving holding q,
          apart xs ys p k is_holding holding q,
        );
      }
    where
      gone :
          Closed rb k s safe.pool p s'
          → (ts : List Thread) → All (λ t. t.entry ≢ p) ts
          → All (Bound s) ts
          → All (Bound s') ts
      gone c [] a b = tt
      gone c (t ∷ ts) a b = (
        (ground (arith, at c.linked t.entry, a.0, b.0), at c.id t.entry ∙ b.0.1),
        gone c ts a.1 b.1,
      )

  pub shared-IsSafe :
      (q : ℕ)
      → oplock_take rb k s ≡ (some q, s')
      → IsSafe (record { locks = s'; threads = xs ++ stand q k leaving ∷ ys })
  shared-IsSafe q e =
      let (pool, same, more, d, search) = taken (some q, s') e in
      let safe' : IsSafe (record { locks = s'; threads = xs ++ stand p k leaving ∷ ys }) = record {
        pool = pool;
        bound =
            All-with (Bound s') xs (stand p k leaving) ys
              (at d.linked p ∙ bounds.0.0, at d.id p ∙ bounds.0.1)
              (All-weaken (xs ++ ys) (λ t b. (at d.linked t.entry ∙ b.0, at d.id t.entry ∙ b.1))
                bounds.1);
        refs = λ j h. ground (
          arith,
          at d.linked j,
          at d.refcnt j,
          safe.refs j,
          apart xs ys p k is_waiting holding j,
          apart xs ys p k is_holding holding j,
          apart xs ys p k is_waiting leaving j,
          apart xs ys p k is_holding leaving j,
        );
        one = λ j h. ground (
          arith,
          at d.linked j,
          at d.locked j,
          safe.one j,
          apart xs ys p k is_leaving holding j,
          apart xs ys p k is_holding holding j,
          apart xs ys p k is_leaving leaving j,
          apart xs ys p k is_holding leaving j,
        );
      } in
      rw same safe'

module _ (s : Locks) (xs ys : List Thread) (p : ℕ) (k : RawId)
    (safe : IsSafe (record { locks = s; threads = xs ++ stand p k leaving ∷ ys })) where
  pub leave-IsSafe : IsSafe (record { locks = opunlock_leave p s; threads = xs ++ ys })
  unfolding opunlock_leave
  leave-IsSafe = record {
    pool = record {
      index = safe.pool.index;
      distinct = safe.pool.distinct;
      unlinked = safe.pool.unlinked;
    };
    bound = (All-without (Bound s) xs (stand p k leaving) ys safe.bound).1;
    refs = λ q h. ground (
      arith,
      safe.refs q h,
      apart xs ys p k is_waiting leaving q,
      apart xs ys p k is_holding leaving q,
    );
    one = λ q h. ground (
      arith,
      safe.one q h,
      apart xs ys p k is_leaving leaving q,
      apart xs ys p k is_holding leaving q,
    );
  }
