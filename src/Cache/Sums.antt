-- ===== src/Cache/Sums.antt =====
-- Sums of sizes over lists of different addresses.
use elliptics.Prelude.{
  ℕ, ◌+◌, ◌≡◌, refl, true, false, List, [], ◌∷◌, ◌++◌, ◌==◌, if◌then◌else◌, update, arith, length,
  mem, inl, inr, Bool-cases, ==→eq,
}
use elliptics.Locks.Pool.{IsDistinct}
use elliptics.Cache.{Item, without}

abbrev pub total : (ℕ → Item) → List ℕ → ℕ
total item [] = 0
total item (p ∷ ps) = length (item p).content + total item ps

pub mem-without :
    (p q : ℕ) (xs : List ℕ) → mem q (without p xs) ≡ (if q == p then false else mem q xs)
mem-without p q [] = ground arith
mem-without p q (x ∷ xs) = ground (arith, mem-without p q xs)

pub without-IsDistinct : (p : ℕ) (xs : List ℕ) → IsDistinct xs → IsDistinct (without p xs)
without-IsDistinct p [] d = tt
without-IsDistinct p (x ∷ xs) d = elim (Bool-cases (x == p)) [
  | inl e ↦ rw e (without-IsDistinct p xs d.1)
  | inr e ↦ rw e (ground (arith, mem-without p x xs, d.0), without-IsDistinct p xs d.1)
]

pub without_absent : (p : ℕ) (xs : List ℕ) → mem p xs ≡ false → without p xs ≡ xs
without_absent p [] h = refl
without_absent p (x ∷ xs) h = ground (arith, without_absent p xs)

pub total-without :
    (item : ℕ → Item) (p : ℕ) (xs : List ℕ)
    → IsDistinct xs
    → mem p xs ≡ true
    → total item xs ≡ length (item p).content + total item (without p xs)
total-without item p [] d h = absurd (ground (arith, h))
total-without item p (x ∷ xs) d h = elim (Bool-cases (x == p)) [
  | inl e ↦ ground (arith, e, d.0, without_absent p xs, ==→eq x p e)
  | inr e ↦ ground (arith, e, total-without item p xs d.1)
]

pub total-update :
    (item : ℕ → Item) (p : ℕ) (x : Item) (xs : List ℕ)
    → mem p xs ≡ false
    → total (update item p x) xs ≡ total item xs
total-update item p x [] h = refl
total-update item p x (q ∷ qs) h = ground (arith, total-update item p x qs)

-- A change that keeps the object's size.
pub total-update_same :
    (item : ℕ → Item) (p : ℕ) (x : Item) (xs : List ℕ)
    → length x.content ≡ length (item p).content
    → total (update item p x) xs ≡ total item xs
total-update_same item p x [] h = refl
total-update_same item p x (q ∷ qs) h = ground (arith, total-update_same item p x qs h)

pub total-append_last :
    (item : ℕ → Item) (p : ℕ) (xs : List ℕ)
    → total item (xs ++ p ∷ []) ≡ total item xs + length (item p).content
total-append_last item p [] = omega arith
total-append_last item p (q ∷ qs) = omega (arith, total-append_last item p qs)
