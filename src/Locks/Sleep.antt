-- ===== src/Locks/Sleep.antt =====
-- The condition variable of an entry of library/locks.c: threads that wait sleep, and a thread that
-- unlocks the entry wakes one of them. Threads that wait at one entry are alike, so how many of them
-- sleep is kept.
use elliptics.Prelude.{ℕ, ◌+◌, ◌-◌, ◌<◌, ◌≤◌, ◌≡◌, true, ◌++◌, ◌∷◌, update}
use elliptics.Tree.{RbTree}
use elliptics.Locks.Threads.{
  World, Step, arrive, enter, release_last, release_shared, leave, waits, waiting,
}

-- By entry, the threads in `pthread_cond_wait`.
abbrev pub Asleep : Type 0
Asleep = ℕ → ℕ

-- A thread more in `pthread_cond_wait`.
unfoldable pub cond_wait : ℕ → Asleep → Asleep
cond_wait p a = update a p (a p + 1)

-- `pthread_cond_signal`: one thread that sleeps wakes up, if there is one.
unfoldable pub cond_signal : ℕ → Asleep → Asleep
cond_signal p a = update a p (a p - 1)

module _ (rb : RbTree) where
  -- A thread enters only while it is awake.
  unfoldable pub May : {w w' : World} → Step rb w w' → Asleep → Type 0
  May (arrive w k p s' e) a = Unit
  May (enter s s' xs ys p k e) a =
      a p < waits p (xs ++ record { entry = p; key = k; phase = waiting } ∷ ys)
  May (release_last s s' xs ys p k e) a = Unit
  May (release_shared s s' xs ys p q k e) a = Unit
  May (leave s xs ys p k) a = Unit

  -- A thread that leaves its entry to others wakes one of them.
  unfoldable pub then_asleep : {w w' : World} → Step rb w w' → Asleep → Asleep
  then_asleep (arrive w k p s' e) a = a
  then_asleep (enter s s' xs ys p k e) a = a
  then_asleep (release_last s s' xs ys p k e) a = a
  then_asleep (release_shared s s' xs ys p q k e) a = a
  then_asleep (leave s xs ys p k) a = cond_signal p a

  -- What happens: a step of a thread that is awake; a thread that is awake finds its entry locked, and
  -- falls asleep; one that sleeps wakes up though no one has called it.
  pub data Turns : World → Asleep → World → Asleep → Type 0 where
    still : (w : World) (a : Asleep) → Turns w a w a
    moves :
        (u v w : World) (a b : Asleep) (t : Step rb v w)
        → Turns u a v b
        → May t b
        → Turns u a w (then_asleep t b)
    sleeps :
        (u w : World) (a b : Asleep) (p : ℕ)
        → Turns u a w b
        → w.locks.locked p ≡ true
        → b p < waits p w.threads
        → Turns u a w (cond_wait p b)
    wakes :
        (u w : World) (a b : Asleep) (p : ℕ)
        → Turns u a w b
        → 1 ≤ b p
        → Turns u a w (update b p (b p - 1))
