-- ===== src/Locks/Threads.antt =====
-- Threads that lock and unlock keys of one pool, in any order: each step is one section of
-- library/locks.c under the pool's lock or under an entry's.
use elliptics.Prelude.{
  ℕ, ◌+◌, ◌≡◌, Bool, true, false, none, some, List, [], ◌∷◌, ◌++◌, ◌==◌, ◌&&◌, if◌then◌else◌,
}
use elliptics.Key.{RawId}
use elliptics.Tree.{RbTree}
use elliptics.Locks.{Locks, oplock_ensure, oplock_take, oplock_enter, opunlock_leave}

-- In `dnet_oplock` before its entry is free, between `dnet_oplock` and `dnet_opunlock`, and in
-- `dnet_opunlock` after its reference is gone.
pub data Phase : Type 0 where
  waiting holding leaving : Phase

pub record Thread : Type 0 where
  pub entry : ℕ
  pub key : RawId
  pub phase : Phase

pub record World : Type 0 where
  pub locks : Locks
  pub threads : List Thread

module _ (rb : RbTree) where
  -- A thread that gets an entry for its key, one that finds its entry free, one that gives the last
  -- reference back, one that leaves its entry to others, and one that is done with that.
  pub data Step : World → World → Type 0 where
    arrive :
        (w : World) (k : RawId) (p : ℕ) (s' : Locks)
        → oplock_ensure rb k w.locks ≡ (some p, s')
        → Step w (record {
          locks = s';
          threads = record { entry = p; key = k; phase = waiting } ∷ w.threads;
        })
    enter :
        (s s' : Locks) (xs ys : List Thread) (p : ℕ) (k : RawId)
        → oplock_enter p s ≡ some s'
        → Step
            (record {
              locks = s;
              threads = xs ++ record { entry = p; key = k; phase = waiting } ∷ ys;
            })
            (record {
              locks = s';
              threads = xs ++ record { entry = p; key = k; phase = holding } ∷ ys;
            })
    release_last :
        (s s' : Locks) (xs ys : List Thread) (p : ℕ) (k : RawId)
        → oplock_take rb k s ≡ (none, s')
        → Step
            (record {
              locks = s;
              threads = xs ++ record { entry = p; key = k; phase = holding } ∷ ys;
            })
            (record { locks = s'; threads = xs ++ ys })
    release_shared :
        (s s' : Locks) (xs ys : List Thread) (p q : ℕ) (k : RawId)
        → oplock_take rb k s ≡ (some q, s')
        → Step
            (record {
              locks = s;
              threads = xs ++ record { entry = p; key = k; phase = holding } ∷ ys;
            })
            (record {
              locks = s';
              threads = xs ++ record { entry = q; key = k; phase = leaving } ∷ ys;
            })
    leave :
        (s : Locks) (xs ys : List Thread) (p : ℕ) (k : RawId)
        → Step
            (record {
              locks = s;
              threads = xs ++ record { entry = p; key = k; phase = leaving } ∷ ys;
            })
            (record { locks = opunlock_leave p s; threads = xs ++ ys })

  pub data Steps : World → World → Type 0 where
    none_yet : (w : World) → Steps w w
    then_one : (u v w : World) → Steps u v → Step v w → Steps u w

abbrev pub is_waiting : Phase → Bool
is_waiting waiting = true
is_waiting _ = false

abbrev pub is_holding : Phase → Bool
is_holding holding = true
is_holding _ = false

abbrev pub is_leaving : Phase → Bool
is_leaving leaving = true
is_leaving _ = false

abbrev pub count : (Thread → Bool) → List Thread → ℕ
count f [] = 0
count f (t ∷ ts) = (if f t then 1 else 0) + count f ts

-- How many threads are in each phase at an entry.
abbrev pub at_entry : (Phase → Bool) → ℕ → Thread → Bool
at_entry f p t = f t.phase && (t.entry == p)

abbrev pub waits : ℕ → List Thread → ℕ
waits p = count (at_entry is_waiting p)

abbrev pub holds : ℕ → List Thread → ℕ
holds p = count (at_entry is_holding p)

abbrev pub leaves : ℕ → List Thread → ℕ
leaves p = count (at_entry is_leaving p)
