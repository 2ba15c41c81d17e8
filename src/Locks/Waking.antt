-- ===== src/Locks/Waking.antt =====
-- Who is awake while an entry is free.
use elliptics.Prelude.{ℕ, ◌<◌, ◌≤◌, ◌≡◌, false, Bool, List}
use elliptics.Locks.{Locks}
use elliptics.Locks.Threads.{Thread, waits}
use elliptics.Locks.Sleep.{Asleep}

-- Only threads that wait sleep, and where an entry is not locked one of those that wait is awake.
record IsAwake (locked : ℕ → Bool) (ts : List Thread) (a : Asleep) : Type 0 where
  sleepers : (p : ℕ) → a p ≤ waits p ts
  called : (p : ℕ) → locked p ≡ false → 1 ≤ a p → a p < waits p ts
