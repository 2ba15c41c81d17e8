-- ===== src/Iterator/Registry.antt =====
-- The registry of iterators as a map from numbers, and the choice of a new number.
use elliptics.Prelude.{
  ℕ, zero, suc, ◌+◌, ◌≤◌, ◌<◌, ◌≡◌, refl, ◌≢◌, inl, inr, true, false, none, some, [], ◌∷◌, arith,
  ◌==◌, if◌then◌else◌, success, failure, length, Option-cases, Bool-cases, enoent,
}
use elliptics.Iterator.{
  Iterator, Iterators, start, list_lookup_nolock, unlink, next_id_from, list_next_id_nolock, no_id,
  iterator_create, list_insert_nolock, iterator_destroy, list_remove,
}

pub lookup-unlink_ne :
    (its : Iterators) (id j : ℕ)
    → (id == j) ≡ false
    → list_lookup_nolock (unlink its id) j ≡ list_lookup_nolock its j
unfolding list_lookup_nolock unlink
lookup-unlink_ne [] id j h = refl
lookup-unlink_ne (it ∷ its) id j h = ground (arith, lookup-unlink_ne its id j)

length-unlink :
    (its : Iterators) (id : ℕ)
    → list_lookup_nolock its id ≢ none
    → length its ≡ suc (length (unlink its id))
unfolding list_lookup_nolock unlink
length-unlink [] id h = absurd (h refl)
length-unlink (it ∷ its) id h = ground (arith, length-unlink its id)

-- Every number below `n` is taken.
abbrev pub Full : Iterators → ℕ → Type 0
Full its n = (i : ℕ) → i < n → list_lookup_nolock its i ≢ none

Full-le-length : (n : ℕ) (its : Iterators) → Full its n → n ≤ length its
Full-le-length zero its full = omega arith
Full-le-length (suc n) its full =
    let here = full n (omega arith) in
    omega (
      arith,
      length-unlink its n here,
      Full-le-length n (unlink its n)
          λ i h e. full i (omega arith) (ground (arith, lookup-unlink_ne its n i)),
    )

-- The number that is chosen is free, and every smaller one is taken.
pub record IsNext (its : Iterators) (id : ℕ) : Type 0 where
  pub unused : list_lookup_nolock its id ≡ none
  pub least : Full its id
  pub bound : id ≤ length its

Full-suc :
    (its : Iterators) (n : ℕ) → Full its n → list_lookup_nolock its n ≢ none → Full its (n + 1)
Full-suc its n full h i lt = elim (Bool-cases (i == n)) [
  | inl e ↦ ground (arith, h)
  | inr e ↦ full i (ground arith)
]

next_id_from-IsNext :
    (fuel : ℕ) (its : Iterators) (next : ℕ)
    → length its < no_id
    → length its < next + fuel
    → Full its next
    → (id : ℕ) × (next_id_from fuel its next ≡ some id) × IsNext its id
unfolding next_id_from
next_id_from-IsNext zero its next small fuel full =
    absurd (omega (arith, Full-le-length next its full))
next_id_from-IsNext (suc f) its next small fuel full =
    let below = Full-le-length next its full in
    elim (Option-cases (list_lookup_nolock its next)) [
      | inl e ↦ (next, ground arith, record { unused = e; least = full; bound = below })
      | inr (it, e) ↦
          let (id, r, n) =
            next_id_from-IsNext f its (next + 1) small (omega arith)
              (Full-suc its next full (λ h. cc)) in
          (id, ground arith, n)
    ]

-- With fewer than 2 ^ 64 - 1 iterators the search for a number ends, and it gives the least number
-- that no iterator has.
pub list_next_id_nolock-IsNext :
    (its : Iterators)
    → length its < no_id
    → (id : ℕ) × (list_next_id_nolock its ≡ some id) × IsNext its id
unfolding list_next_id_nolock
list_next_id_nolock-IsNext its small =
    next_id_from-IsNext (length its + 1) its 0 small (omega arith) (λ i h. absurd (omega arith))

-- No two iterators have one number.
abbrev pub IsDistinct : Iterators → Type 0
IsDistinct [] = Unit
IsDistinct (it ∷ its) = (list_lookup_nolock its it.id ≡ none) × IsDistinct its

-- In a registry of fewer than 2 ^ 64 - 1 iterators with distinct numbers, with memory at hand, a
-- new iterator is running, has a number of its own and stands in front of the others; destroying
-- it gives the registry back.
pub create-destroy :
    (its : Iterators)
    → length its < no_id
    → IsDistinct its
    → (it : Iterator) × (iterator_create true its ≡ (some it, it ∷ its))
      × (it.state ≡ start)
      × IsDistinct (it ∷ its)
      × (iterator_destroy (it ∷ its) it ≡ its)
unfolding iterator_create iterator_destroy list_insert_nolock
create-destroy its small d =
    let (id, e, n) = list_next_id_nolock-IsNext its small in
    (
      record { id = id; state = start },
      ground (arith, e, n.unused, n.bound, small),
      refl,
      (n.unused, d),
      ground arith,
    )

unlink-none :
    (its : Iterators) (id : ℕ) → IsDistinct its → list_lookup_nolock (unlink its id) id ≡ none
unfolding list_lookup_nolock unlink
unlink-none [] id d = refl
unlink-none (it ∷ its) id d = ground (arith, unlink-none its id d.1)

-- In a registry of distinct numbers, removing a number leaves no iterator with it and every other
-- one as it was, and fails just where there is none.
pub remove_lookup :
    (its : Iterators) (id j : ℕ)
    → IsDistinct its
    → (list_lookup_nolock (list_remove its id).1 j
        ≡ (if id == j then none else list_lookup_nolock its j))
      × ((list_remove its id).0
          ≡ elim (list_lookup_nolock its id) [ none ↦ failure enoent | some _ ↦ success ])
unfolding list_remove
remove_lookup its id j d =
    (ground (arith, unlink-none its id d, lookup-unlink_ne its id j), ground arith)
