-- ===== src/Tree/Removal.antt =====
-- What is left of a falling list of entries when one is taken out.
use elliptics.Prelude.{
  ℕ, ◌≡◌, refl, none, some, List, [], ◌∷◌, arith, ◌==◌, if◌then◌else◌, true, false, mem,
}
use elliptics.Key.{Sign}
use elliptics.Key.Order.{IsOrder, is_nil}
use elliptics.Tree.{remove, find}
use elliptics.Tree.Laws.{Under, IsFalling, find-Under}

module _ {K : Type 0} {cmp : K → K → Sign} (o : IsOrder cmp) (key : ℕ → K) where
  Under-remove : (p : ℕ) (xs : List ℕ) (k : K) → Under o key k xs → Under o key k (remove p xs)
  unfolding remove
  Under-remove p [] k h = tt
  Under-remove p (x ∷ xs) k h = ground (arith, Under-remove p xs k h.1)

  pub remove-IsFalling : (p : ℕ) (xs : List ℕ) → IsFalling o key xs → IsFalling o key (remove p xs)
  unfolding remove
  remove-IsFalling p [] h = tt
  remove-IsFalling p (x ∷ xs) h =
      ground (arith, Under-remove p xs (key x) h.0, remove-IsFalling p xs h.1)

  -- Taking out the entry of a key leaves no entry with it, and every other search as it was.
  pub find-remove :
      (p : ℕ) (xs : List ℕ) (k : K)
      → IsFalling o key xs
      → find cmp key xs (key p) ≡ some p
      → find cmp key (remove p xs) k ≡ (if is_nil (cmp (key p) k) then none else find cmp key xs k)
  unfolding remove find
  find-remove p [] k h m = cc
  find-remove p (x ∷ xs) k h m = ground (
    arith,
    find-remove p xs k h.1,
    o.same (key p),
    o.eq_of_nil (key p) k,
    find-Under o key xs (key x) h.0,
  )

  pub find-mem :
      (p : ℕ) (xs : List ℕ)
      → IsFalling o key xs
      → mem p xs ≡ true
      → find cmp key xs (key p) ≡ some p
  unfolding find
  find-mem p [] h m = cc
  find-mem p (x ∷ xs) h m = ground (
    arith,
    find-mem p xs h.1,
    o.same (key p),
    o.eq_of_nil (key x) (key p),
    find-Under o key xs (key x) h.0,
  )

  pub mem-find :
      (p : ℕ) (xs : List ℕ) (k : K) → find cmp key xs k ≡ some p → (mem p xs ≡ true) × (key p ≡ k)
  unfolding find
  mem-find p [] k h = cc
  mem-find p (x ∷ xs) k h = ground (arith, mem-find p xs k, o.eq_of_nil (key x) k)

  Under-not_mem : (p : ℕ) (xs : List ℕ) → Under o key (key p) xs → mem p xs ≡ false
  Under-not_mem p [] h = refl
  Under-not_mem p (x ∷ xs) h = ground (arith, Under-not_mem p xs h.1, o.same (key p))

  pub mem-remove :
      (p : ℕ) (xs : List ℕ) (q : ℕ)
      → IsFalling o key xs
      → mem q (remove p xs) ≡ (if p == q then false else mem q xs)
  unfolding remove
  mem-remove p [] q h = ground arith
  mem-remove p (x ∷ xs) q h = ground (arith, mem-remove p xs q h.1, Under-not_mem x xs h.0)
