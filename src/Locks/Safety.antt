-- ===== src/Locks/Safety.antt =====
-- What the threads and the entries know of each other, and that a thread that comes or enters keeps it.
use elliptics.Prelude.{
  ℕ, ◌+◌, ◌≤◌, ◌≡◌, refl, ◌∙◌, inl, inr, Bool, true, false, some, List, [], ◌∷◌, ◌++◌, ◌==◌, ◌&&◌,
  arith, if◌then◌else◌, All, update, Bool-cases,
}
use elliptics.Key.{RawId}
use elliptics.Tree.{RbTree}
use elliptics.Locks.{Locks, oplock_ensure, oplock_enter}
use elliptics.Locks.Pool.{IsPool, Ensured, ensure-Ensured, Shared, Opened}
use elliptics.Locks.Threads.{
  Phase, waiting, holding, Thread, World, count, at_entry, waits, holds, leaves, is_waiting,
  is_holding, is_leaving,
}

pub count-append :
    (f : Thread → Bool) (xs ys : List Thread) → count f (xs ++ ys) ≡ count f xs + count f ys
count-append f [] ys = omega arith
count-append f (x ∷ xs) ys = ground (arith, count-append f xs ys)

pub count_middle :
    (f : Thread → Bool) (xs : List Thread) (t : Thread) (ys : List Thread)
    → count f (xs ++ t ∷ ys) ≡ (if f t then 1 else 0) + count f (xs ++ ys)
count_middle f xs t ys = omega (arith, count-append f xs (t ∷ ys), count-append f xs ys)

module _ {P Q : Thread → Type 0} where
  pub All-weaken : (ts : List Thread) → ((t : Thread) → P t → Q t) → All P ts → All Q ts
  All-weaken [] h a = tt
  All-weaken (t ∷ ts) h a = (h t a.0, All-weaken ts h a.1)

pub All-without :
    (P : Thread → Type 0) (xs : List Thread) (t : Thread) (ys : List Thread)
    → All P (xs ++ t ∷ ys)
    → P t × All P (xs ++ ys)
All-without P [] t ys a = a
All-without P (x ∷ xs) t ys a = let r = All-without P xs t ys a.1 in (r.0, (a.0, r.1))

pub All-with :
    (P : Thread → Type 0) (xs : List Thread) (t : Thread) (ys : List Thread)
    → P t
    → All P (xs ++ ys)
    → All P (xs ++ t ∷ ys)
All-with P [] t ys p a = (p, a)
All-with P (x ∷ xs) t ys p a = (a.0, All-with P xs t ys p a.1)

-- A thread's entry is in use, and has the thread's key.
abbrev pub Bound : Locks → Thread → Type 0
Bound s t = (s.linked t.entry ≡ true) × (s.id t.entry ≡ t.key)

-- Every reference on an entry is that of one thread that waits for it or holds it, and an entry is
-- locked just while one thread holds it or is about to unlock it.
pub record IsSafe (w : World) : Type 0 where
  pub pool : IsPool w.locks
  pub bound : All (Bound w.locks) w.threads
  pub refs :
      (p : ℕ)
      → w.locks.linked p ≡ true
      → (w.locks.refcnt p ≡ waits p w.threads + holds p w.threads) × (1 ≤ w.locks.refcnt p)
  pub one :
      (p : ℕ)
      → w.locks.linked p ≡ true
      → holds p w.threads + leaves p w.threads ≡ (if w.locks.locked p then 1 else 0)

-- No thread is at an entry that is not in use.
pub unlinked_count :
    (f : Phase → Bool) (s : Locks) (p : ℕ) (ts : List Thread)
    → All (Bound s) ts
    → s.linked p ≡ false
    → count (at_entry f p) ts ≡ 0
unlinked_count f s p [] b h = refl
unlinked_count f s p (t ∷ ts) b h = ground (arith, unlinked_count f s p ts b.1 h, b.0)

pub at {ℓ} : {A : Type ℓ} {f g : ℕ → A} → f ≡ g → (q : ℕ) → f q ≡ g q
at h q = λ i. h i q

module _ (rb : RbTree) (k : RawId) (p : ℕ) (s s' : Locks) (ts : List Thread)
    (safe : IsSafe (record { locks = s; threads = ts })) where
  abbrev pub newcomer : Thread
  newcomer = record { entry = p; key = k; phase = waiting }

  abbrev pub joined : World
  joined = record { locks = s'; threads = newcomer ∷ ts }

  arrive_shared : IsPool s' → Shared rb k s safe.pool p s' → IsSafe joined
  arrive_shared pool sh = record {
    pool = pool;
    bound = (
      (at sh.linked p ∙ sh.was, at sh.id p ∙ sh.own),
      All-weaken ts (λ t b. (at sh.linked t.entry ∙ b.0, at sh.id t.entry ∙ b.1)) safe.bound,
    );
    refs = λ q h. ground (arith, at sh.refcnt q, at sh.linked q, safe.refs q);
    one = λ q h. ground (arith, at sh.locked q, at sh.linked q, safe.one q);
  }

  arrive_opened : IsPool s' → Opened rb k s safe.pool p s' → IsSafe joined
  arrive_opened pool op =
      let none_waits = unlinked_count is_waiting s p ts safe.bound op.was in
      let none_holds = unlinked_count is_holding s p ts safe.bound op.was in
      let none_leaves = unlinked_count is_leaving s p ts safe.bound op.was in
      record {
        pool = pool;
        bound = (
          (ground (arith, at op.linked p), ground (arith, at op.id p)),
          All-weaken ts
              (λ t b. (
                ground (arith, at op.linked t.entry, b.0),
                ground (arith, at op.id t.entry, b.0, b.1, op.was),
              ))
              safe.bound,
        );
        refs = λ q h.
            ground (arith, at op.refcnt q, at op.linked q, safe.refs q, none_waits, none_holds);
        one = λ q h.
            ground (arith, at op.locked q, at op.linked q, safe.one q, none_leaves, none_holds);
      }

  pub arrive-IsSafe : oplock_ensure rb k s ≡ (some p, s') → IsSafe joined
  arrive-IsSafe e =
      let r : Ensured rb k s safe.pool (some p, s') = rw e at (ensure-Ensured rb k s safe.pool) in
      elim r.1 [ inl sh ↦ arrive_shared r.0 sh | inr op ↦ arrive_opened r.0 op ]

abbrev pub stand : ℕ → RawId → Phase → Thread
stand p k f = record { entry = p; key = k; phase = f }

-- The counts at an entry, with one thread apart.
pub apart :
    (xs ys : List Thread) (p : ℕ) (k : RawId) (f : Phase → Bool) (h : Phase) (q : ℕ)
    → count (at_entry f q) (xs ++ stand p k h ∷ ys)
      ≡ (if f h && (p == q) then 1 else 0) + count (at_entry f q) (xs ++ ys)
apart xs ys p k f h q = count_middle (at_entry f q) xs (stand p k h) ys

module _ (s s' : Locks) (xs ys : List Thread) (p : ℕ) (k : RawId)
    (safe : IsSafe (record { locks = s; threads = xs ++ stand p k waiting ∷ ys })) where
  pub enter-IsSafe :
      oplock_enter p s ≡ some s'
      → IsSafe (record { locks = s'; threads = xs ++ stand p k holding ∷ ys })
  unfolding oplock_enter
  enter-IsSafe e = elim (Bool-cases (s.locked p)) [
    | inl l ↦ absurd (ground arith)
    | inr l ↦
        let is : s' ≡ record s { locked = update s.locked p true } = ground arith in
        rw is (record {
          pool = record {
            index = safe.pool.index;
            distinct = safe.pool.distinct;
            unlinked = safe.pool.unlinked;
          };
          bound =
              (let b = All-without (Bound s) xs (stand p k waiting) ys safe.bound in
                All-with (Bound s) xs (stand p k holding) ys b.0 b.1);
          refs = λ q h. ground (
            arith,
            safe.refs q h,
            apart xs ys p k is_waiting waiting q,
            apart xs ys p k is_holding waiting q,
            apart xs ys p k is_waiting holding q,
            apart xs ys p k is_holding holding q,
          );
          one = λ q h. ground (
            arith,
            l,
            safe.one q h,
            apart xs ys p k is_leaving waiting q,
            apart xs ys p k is_holding waiting q,
            apart xs ys p k is_leaving holding q,
            apart xs ys p k is_holding holding q,
          );
        })
  ]
