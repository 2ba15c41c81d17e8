-- ===== src/Tests/Locking.antt =====
-- Locks at work: a pool of two entries.
use elliptics.Prelude.{true, update, ◌≤◌, ◌≡◌, refl, false, none, some, List, [], ◌∷◌, success}
use elliptics.Key.{RawId, id_cmp_str}
use elliptics.Tree
use elliptics.Tree.{leaf, link, RbTree}
use elliptics.Locks.{
  Locks, Slot, oplock_search_nolock, oplock_insert_nolock, fresh_entry, oplock_ensure, oplock_take,
  oplock_enter, optrylock, oplock, opunlock,
}
use elliptics.Locks.Pool.{IsPool, Ensured, ensure-Ensured}
use elliptics.Locks.Take.{Taken, take-Taken}
use elliptics.Locks.Threads.{
  World, arrive, Steps, none_yet, then_one, waiting, holding, enter, release_last,
}
use elliptics.Locks.Exclusion.{IsIdle, quiet, holders, steps_exclude, steps_end-IsIdle}
use elliptics.Locks.Calls.{Tried, trylock-Tried}
use elliptics.Locks.Unlock.{Locked, Restored, lock_unlock}
use elliptics.Tests.Transactions.{unbalanced}

abbrev slots : List Slot
slots =
    record { address = 1; mutex = success; cond = success }
    ∷ record { address = 2; mutex = success; cond = success }
    ∷ []

abbrev memory : Locks
memory = record {
  lock_list = [];
  lock_tree = leaf;
  id = λ p. [];
  locked = λ p. false;
  refcnt = λ p. 9;
  linked = λ p. false;
}

abbrev pub free_two : Locks
free_two = record memory { lock_list = 1 ∷ 2 ∷ [] }

pub free_two-IsIdle : IsIdle free_two
free_two-IsIdle = record {
  pool = record {
    index = record { falling = tt; marks = λ p. refl };
    distinct = (refl, (refl, tt));
    unlinked = λ p h. refl;
  };
  unlinked = λ p. refl;
}

abbrev pub seven : RawId
seven = 7 ∷ []

-- A thread that comes for the key 7.
abbrev came : Locks
came = (oplock_ensure unbalanced seven free_two).1

came_with : oplock_ensure unbalanced seven free_two ≡ (some 1, came)
unfolding oplock_ensure oplock_search_nolock Tree.search
came_with = refl

abbrev visited : World
visited = record { locks = came; threads = record { entry = 1; key = seven; phase = waiting } ∷ [] }

visit : Steps unbalanced (quiet free_two) visited
visit =
    then_one (quiet free_two) (quiet free_two) visited (none_yet (quiet free_two))
      (arrive (quiet free_two) seven 1 came came_with)

exclude_example : holders seven visited.threads ≤ 1
exclude_example = steps_exclude unbalanced free_two visited free_two-IsIdle visit seven

-- It enters, and gives its last reference back.
abbrev inside : Locks
inside = record came { locked = update came.locked 1 true }

enters : oplock_enter 1 came ≡ some inside
unfolding oplock_enter oplock_ensure oplock_search_nolock oplock_insert_nolock fresh_entry link
    Tree.search
enters = refl

abbrev held_by_one : World
held_by_one = record {
  locks = inside;
  threads = record { entry = 1; key = seven; phase = holding } ∷ [];
}

abbrev shared : Locks
shared = (oplock_ensure unbalanced seven inside).1

abbrev crowded : World
crowded = record {
  locks = shared;
  threads = record { entry = 1; key = seven; phase = waiting } ∷ held_by_one.threads;
}

abbrev gone : Locks
gone = (oplock_take unbalanced seven inside).1

gives_back : oplock_take unbalanced seven inside ≡ (none, gone)
unfolding oplock_take oplock_ensure oplock_search_nolock oplock_insert_nolock fresh_entry link
    Tree.search id_cmp_str
gives_back = refl

whole_visit : Steps unbalanced (quiet free_two) (record { locks = gone; threads = [] })
whole_visit =
    then_one (quiet free_two) _ _
      (then_one (quiet free_two) visited _ visit (enter came inside [] [] 1 seven enters))
      (release_last inside gone [] [] 1 seven gives_back)

end_example : IsIdle gone
end_example =
    steps_end-IsIdle unbalanced free_two (record { locks = gone; threads = [] }) free_two-IsIdle
      whole_visit refl

no_seven : oplock_search_nolock free_two seven ≡ none
unfolding oplock_search_nolock Tree.search
no_seven = refl

trylock_example :
    Tried unbalanced seven free_two free_two-IsIdle.pool (optrylock unbalanced seven free_two)
trylock_example = trylock-Tried unbalanced seven free_two free_two-IsIdle.pool

lock_unlock_example :
    (s1 : Locks) × (l : Locked unbalanced seven free_two free_two-IsIdle.pool 1
      (2 ∷ [])
      no_seven
      refl
      s1)
    × (oplock unbalanced seven free_two ≡ some s1)
    × Restored unbalanced seven free_two free_two-IsIdle.pool 1
        (2 ∷ [])
        no_seven
        refl
        s1
        l
        (opunlock unbalanced seven s1)
lock_unlock_example =
    lock_unlock unbalanced seven free_two free_two-IsIdle.pool 1 (2 ∷ []) no_seven refl

came-IsPool : IsPool came
came-IsPool =
    let r : Ensured unbalanced seven free_two free_two-IsIdle.pool (some 1, came) =
      rw came_with at (ensure-Ensured unbalanced seven free_two free_two-IsIdle.pool) in
    r.0

came_known : oplock_search_nolock came seven ≡ some 1
unfolding oplock_search_nolock oplock_ensure oplock_insert_nolock fresh_entry link Tree.search
    id_cmp_str
came_known = refl

take_example : Taken unbalanced seven came came-IsPool 1 (oplock_take unbalanced seven came)
take_example = take-Taken unbalanced seven came came-IsPool 1 came_known
