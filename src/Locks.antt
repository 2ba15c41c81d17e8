-- ===== src/Locks.antt =====
-- library/locks.c: a lock on each key that is in use, its entry taken from a pool. An address names a
-- `struct dnet_locks_entry`, and each field of that struct is a function of the address.
pub mod Pool
pub mod Take
pub mod Threads
pub mod Safety
pub mod Release
pub mod Exclusion
pub mod Progress
pub mod Sleep
pub mod Waking
pub mod Calls
pub mod Unlock
use elliptics.Prelude.{
  ℕ, ◌+◌, ◌-◌, Bool, true, false, Option, none, some, List, [], ◌∷◌, ◌++◌, ◌==◌, if◌then◌else◌,
  update, Status, success, failure, enoent, eexist, ebusy, enomem, Result, ok, err,
}
use elliptics.Key.{RawId, id_cmp_str}
use elliptics.Tree
use elliptics.Tree.{Tree, RbTree, link, leaf}

-- `linked` is `lock_tree_entry.rb_parent_color`.
pub record Locks : Type 0 where
  pub lock_list : List ℕ
  pub lock_tree : Tree
  pub id : ℕ → RawId
  pub locked : ℕ → Bool
  pub refcnt : ℕ → ℕ
  pub linked : ℕ → Bool

-- `memcmp` on keys is `id_cmp_str`.
unfoldable pub oplock_search_nolock : Locks → RawId → Option ℕ
oplock_search_nolock s k = Tree.search id_cmp_str s.id s.lock_tree k

module _ (rb : RbTree) where
  unfoldable pub oplock_insert_nolock : ℕ → Locks → Status × Locks
  oplock_insert_nolock p s = elim (link id_cmp_str s.id s.lock_tree p) [
    | none ↦ (failure eexist, s)
    | some t ↦
        (success, record s { lock_tree = rb.insert_color t; linked = update s.linked p true })
  ]

  unfoldable pub oplock_remove_nolock : ℕ → Locks → Locks
  oplock_remove_nolock p s =
      if s.linked p
      then record s { lock_tree = rb.erase p s.lock_tree; linked = update s.linked p false }
      else s

  -- The entry as it comes from the pool, before it is linked.
  unfoldable pub fresh_entry : RawId → ℕ → List ℕ → Locks → Locks
  fresh_entry k p rest s = record s {
    lock_list = rest;
    locked = update s.locked p false;
    refcnt = update s.refcnt p 1;
    id = update s.id p k;
  }

  abbrev pub from_pool : RawId → List ℕ → Locks → Option ℕ × Locks
  from_pool k [] s = (none, s)
  from_pool k (p ∷ rest) s = (some p, (oplock_insert_nolock p (fresh_entry k p rest s)).1)

  abbrev pub ensure_found : RawId → Option ℕ → Locks → Option ℕ × Locks
  ensure_found k none s = from_pool k s.lock_list s
  ensure_found k (some p) s = (some p, record s { refcnt = update s.refcnt p (s.refcnt p + 1) })

  unfoldable pub oplock_ensure : RawId → Locks → Option ℕ × Locks
  oplock_ensure k s = ensure_found k (oplock_search_nolock s k) s

  abbrev pub put_back : ℕ → Locks → Locks
  put_back p s = record (oplock_remove_nolock p s) { lock_list = s.lock_list ++ p ∷ [] }

  abbrev pub take_found : Option ℕ → Locks → Option ℕ × Locks
  take_found none s = (none, s)
  take_found (some p) s =
      let s' = record s { refcnt = update s.refcnt p (s.refcnt p - 1) } in
      if s'.refcnt p == 0 then (none, put_back p s') else (some p, s')

  unfoldable pub oplock_take : RawId → Locks → Option ℕ × Locks
  oplock_take k s = take_found (oplock_search_nolock s k) s

-- The part of `dnet_oplock` and of `dnet_optrylock` under the entry's own lock: none where the entry
-- is locked, and the thread gives up, or waits until it is woken (Locks/Sleep).
unfoldable pub oplock_enter : ℕ → Locks → Option Locks
oplock_enter p s = if s.locked p then none else some (record s { locked = update s.locked p true })

-- The part of `dnet_opunlock` under the entry's own lock, but for the signal, `cond_signal` of Locks/Sleep.
unfoldable pub opunlock_leave : ℕ → Locks → Locks
opunlock_leave p s = record s { locked = update s.locked p false }

abbrev pub leave_taken : Option ℕ × Locks → Locks
leave_taken (none, s) = s
leave_taken (some p, s) = opunlock_leave p s

-- `dnet_oplock` where it does not have to wait; none where it has to.
abbrev pub enter_ensured : Option ℕ × Locks → Option Locks
enter_ensured (none, s) = some s
enter_ensured (some p, s) = oplock_enter p s

abbrev pub try_entered : Option Locks → Locks → Status × Locks
try_entered none s = (failure ebusy, s)
try_entered (some s') s = (success, s')

abbrev pub try_ensured : Option ℕ × Locks → Status × Locks
try_ensured (none, s) = (failure enoent, s)
try_ensured (some p, s) = try_entered (oplock_enter p s) s

module _ (rb : RbTree) where
  unfoldable pub opunlock : RawId → Locks → Locks
  opunlock k s = leave_taken (oplock_take rb k s)

  unfoldable pub oplock : RawId → Locks → Option Locks
  oplock k s = enter_ensured (oplock_ensure rb k s)

  unfoldable pub optrylock : RawId → Locks → Status × Locks
  optrylock k s = try_ensured (oplock_ensure rb k s)

-- An entry of the array behind `struct dnet_locks`: its address, and what the initialisations of its
-- lock and of its condition return.
pub record Slot : Type 0 where
  pub address : ℕ
  pub mutex : Status
  pub cond : Status

abbrev pub both : Status → Status → Status
both success s = s
both (failure e) s = failure e

abbrev pub add_entry : ℕ → Locks → Locks
add_entry p s = record s {
  lock_list = s.lock_list ++ p ∷ [];
  locked = update s.locked p false;
  linked = update s.linked p false;
}

-- The loop of `dnet_locks_init`. A failure gives the memory back and leaves no pool.
unfoldable pub init_entries : List Slot → Locks → Result Locks
init_entries [] s = ok s
init_entries (x ∷ xs) s = elim (both x.mutex x.cond) [
  | failure e ↦ err e
  | success ↦ init_entries xs (add_entry x.address s)
]

-- `memory` is what `malloc` returns: none, or the contents that the fields of the entries have then.
-- `mutex` is the outcome of the initialisation of the pool's lock.
unfoldable pub locks_init : (memory : Option Locks) → (mutex : Status) → List Slot → Result Locks
locks_init none mutex slots = err enomem
locks_init (some s) (failure e) slots = err e
locks_init (some s) success slots =
    init_entries slots (record s { lock_list = []; lock_tree = leaf })
