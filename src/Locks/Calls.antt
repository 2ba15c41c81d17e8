-- ===== src/Locks/Calls.antt =====
-- Whole calls on a pool: its set-up, locking and unlocking, and the attempt to lock.
use elliptics.Prelude.{
  ◌⊎◌, ℕ, ◌+◌, ◌≡◌, refl, ◌∙◌, sym, inl, inr, true, false, Option, none, some, List, [], ◌∷◌, ◌++◌,
  arith, if◌then◌else◌, mem, map, Status, success, failure, Result, ok, err, Bool-cases, enoent,
  ebusy, Status-cases,
}
use mathlib.Core.List.{append-nil, append_assoc}
use elliptics.Key.{RawId}
use elliptics.Key.Order.{id_cmp_str-IsOrder}
use elliptics.Tree.{RbTree, leaf}
use elliptics.Locks.{
  Locks, Slot, both, add_entry, init_entries, locks_init, optrylock, oplock_search_nolock,
  oplock_ensure, oplock_enter, try_ensured, try_entered,
}
use elliptics.Locks.Pool.{IsPool, IsDistinct, Ensured, ensure-Ensured}
use elliptics.Locks.Exclusion.{IsIdle}
use elliptics.Locks.Safety.{at}

abbrev pub addresses : List Slot → List ℕ
addresses = map λ (x : Slot). x.address

-- A set-up that does not fail.
abbrev pub WhenOk : (Locks → Type 0) → Result Locks → Type 0
WhenOk P (ok s) = P s
WhenOk P (err e) = Unit

-- What the loop makes of the entries of the array.
record Made (slots : List Slot) (s s' : Locks) : Type 0 where
  list : s'.lock_list ≡ s.lock_list ++ addresses slots
  tree : s'.lock_tree ≡ s.lock_tree
  linked : (p : ℕ) → s'.linked p ≡ (if mem p (addresses slots) then false else s.linked p)

entries-Made : (slots : List Slot) (s : Locks) → WhenOk (Made slots s) (init_entries slots s)
unfolding init_entries
entries-Made [] s = record { list = sym (append-nil s.lock_list); tree = refl; linked = λ p. refl }
entries-Made (x ∷ xs) s = elim (Status-cases (both x.mutex x.cond)) [
  | inl e ↦
      rw (e, init_entries)
        (weaken (init_entries xs (add_entry x.address s)) (entries-Made xs (add_entry x.address s)))
  | inr (n, e) ↦ rw (e, init_entries) tt
]
  where
    weaken :
        (r : Result Locks) → WhenOk (Made xs (add_entry x.address s)) r → WhenOk (Made (x ∷ xs) s) r
    weaken (err e) m = tt
    weaken (ok s') m = record {
      list = m.list ∙ append_assoc s.lock_list (x.address ∷ []) (addresses xs);
      tree = m.tree;
      linked = λ p. ground (arith, m.linked p);
    }

-- A pool over entries at different addresses, of which memory says nothing elsewhere, is idle once
-- it is set up, with all the entries free, in their order; unless the set-up fails.
pub init-IsIdle :
    (s : Locks) (mutex : Status) (slots : List Slot)
    → IsDistinct (addresses slots)
    → ((p : ℕ) → mem p (addresses slots) ≡ false → s.linked p ≡ false)
    → WhenOk (λ s'. IsIdle s' × (s'.lock_list ≡ addresses slots)) (locks_init (some s) mutex slots)
unfolding locks_init
init-IsIdle s (failure e) slots d out = tt
init-IsIdle s success slots d out = idle (init_entries slots blank) (entries-Made slots blank)
  where
    blank : Locks
    blank = record s { lock_list = []; lock_tree = leaf }

    off : (s' : Locks) → Made slots blank s' → (p : ℕ) → s'.linked p ≡ false
    off s' m p = ground (arith, m.linked p, out p)

    idle :
        (r : Result Locks)
        → WhenOk (Made slots blank) r
        → WhenOk (λ s'. IsIdle s' × (s'.lock_list ≡ addresses slots)) r
    idle (err e) m = tt
    idle (ok s') m = (
      record {
        pool = record {
          index = record { falling = rw m.tree tt; marks = λ p. off s' m p ∙ rw m.tree refl };
          distinct = rw m.list d;
          unlinked = λ p h. off s' m p;
        };
        unlinked = off s' m;
      },
      m.list,
    )

module _ (rb : RbTree) (k : RawId) (s : Locks) (pool : IsPool s) where
  -- The outcomes of an attempt to lock: no entry was free, the lock is taken, or the caller has it.
  -- In the second case too the entry has one more reference; in the third one the key had no entry, or
  -- one that was not locked.
  pub data Tried : Status × Locks → Type 0 where
    no_entry :
        (s' : Locks)
        → s' ≡ s
        → oplock_search_nolock s k ≡ none
        → s.lock_list ≡ []
        → Tried (failure enoent, s')
    taken :
        (p : ℕ) (s' : Locks)
        → oplock_search_nolock s' k ≡ some p
        → (s.locked p ≡ true) × (s'.locked p ≡ true)
        → s'.refcnt p ≡ s.refcnt p + 1
        → Tried (failure ebusy, s')
    granted :
        (p : ℕ) (s' : Locks)
        → oplock_search_nolock s' k ≡ some p
        → s'.locked p ≡ true
        → (oplock_search_nolock s k ≡ none)
          ⊎ ((oplock_search_nolock s k ≡ some p) × (s.locked p ≡ false))
        → Tried (success, s')

  module _ (p : ℕ) (s1 : Locks) (r : Ensured rb k s pool (some p, s1)) where
    here : oplock_search_nolock s1 k ≡ some p
    here = ground (arith, r.2 k, id_cmp_str-IsOrder.same k)

    busy : s1.locked p ≡ true → (s.locked p ≡ true) × (s1.refcnt p ≡ s.refcnt p + 1)
    busy l = elim r.1 [
      | inl sh ↦ (sym (at sh.locked p) ∙ l, ground (arith, at sh.refcnt p))
      | inr op ↦ absurd (ground (arith, at op.locked p))
    ]

    unlocked :
        s1.locked p ≡ false
        → (oplock_search_nolock s k ≡ none)
          ⊎ ((oplock_search_nolock s k ≡ some p) × (s.locked p ≡ false))
    unlocked l = elim r.1 [
      | inl sh ↦ inr (sh.known, sym (at sh.locked p) ∙ l)
      | inr op ↦ inl op.unknown
    ]

    entered : Tried (try_entered (oplock_enter p s1) s1)
    unfolding oplock_enter oplock_search_nolock
    entered = elim (Bool-cases (s1.locked p)) [
      | inl l ↦ rw (l, oplock_enter) (taken p s1 here ((busy l).0, l) (busy l).1)
      | inr l ↦ rw (l, oplock_enter) (granted p _ here (ground arith) (unlocked l))
    ]

  tried : (r : Option ℕ × Locks) → Ensured rb k s pool r → Tried (try_ensured r)
  tried (none, s') e = no_entry s' e.2 e.0 e.1
  tried (some p, s') e = entered p s' e

  -- In a pool, an attempt to lock a key fails with -ENOENT where the key has no entry and none is
  -- free, and changes nothing; it fails with -EBUSY where the key's entry is locked, and leaves it
  -- with one more reference; it succeeds where the key has no entry, or one that is not locked,
  -- and then the key's entry is locked.
  pub trylock-Tried : Tried (optrylock rb k s)
  unfolding optrylock
  trylock-Tried = tried (oplock_ensure rb k s) (ensure-Ensured rb k s pool)
