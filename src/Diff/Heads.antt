-- ===== src/Diff/Heads.antt =====
-- What a difference is made of: the first entry of each key of a container whose keys rise, and what
-- is skipped.
use mathlib.Core.Path.{subst}
use elliptics.Prelude.{
  sym, ◌≤◌, ◌≡◌, refl, ◌≢◌, inl, inr, Bool, true, false, Option, none, some, List, [], ◌∷◌, arith,
  if◌then◌else◌, length, All, Bool-cases, filter,
}
use elliptics.Key.{negative, positive, RawId, id_cmp_str}
use elliptics.Key.Order.{is_nil, id_cmp_str-IsOrder}
use elliptics.Tree.Laws.{Sign-cases}
use elliptics.Iterate.{is_positive}
use elliptics.Diff.{Entry, response_cmp, skip_equal_keys}

-- Keys rise along the container: what sorting by `dnet_iterator_response_cmp` gives.
abbrev pub AtLeast : RawId → List Entry → Type 0
AtLeast k = All (λ x. id_cmp_str k x.key ≢ positive)

abbrev pub IsRising : List Entry → Type 0
IsRising [] = Unit
IsRising (x ∷ xs) = AtLeast x.key xs × IsRising xs

-- The first entry of a key, which sorting makes its newest one.
unfoldable pub first_of_key : List Entry → RawId → Option Entry
first_of_key [] k = none
first_of_key (x ∷ xs) k = if is_nil (id_cmp_str x.key k) then some x else first_of_key xs k

-- The first entry of each key, the newest one.
unfoldable pub heads_after : RawId → List Entry → List Entry
heads_after k [] = []
heads_after k (x ∷ xs) =
    if is_nil (id_cmp_str k x.key) then heads_after k xs else x ∷ heads_after x.key xs

unfoldable pub heads : List Entry → List Entry
unfolding heads_after
heads [] = []
heads (x ∷ xs) = x ∷ heads_after x.key xs

-- The left container has no entry of the key, or its newest one is older, or as old and smaller.
abbrev pub wanted : List Entry → Entry → Bool
wanted left r = elim (first_of_key left r.key) [
  | none ↦ true
  | some l ↦ is_positive (response_cmp l r)
]

-- Every key of the list is larger than `k`.
abbrev pub Above : RawId → List Entry → Type 0
Above k = All (λ x. id_cmp_str k x.key ≡ negative)

open id_cmp_str-IsOrder use {same, eq_of_nil, turn, trans}

pub length-skip : (x : Entry) (xs : List Entry) → length (skip_equal_keys (x ∷ xs)) ≤ length xs
unfolding skip_equal_keys
length-skip x [] = omega arith
length-skip x (y ∷ rest) = ground (arith, length-skip y rest)

module _ (P : Entry → Type 0) where
  All-skip : (xs : List Entry) → All P xs → All P (skip_equal_keys xs)
  unfolding skip_equal_keys
  All-skip [] h = tt
  All-skip (x ∷ []) h = tt
  All-skip (x ∷ y ∷ rest) h = elim (Bool-cases (is_nil (id_cmp_str x.key y.key))) [
    | inl e ↦ rw (e, skip_equal_keys) (All-skip (y ∷ rest) h.1)
    | inr e ↦ rw (e, skip_equal_keys) h.1
  ]

  All-heads_after : (k : RawId) (xs : List Entry) → All P xs → All P (heads_after k xs)
  unfolding heads_after
  All-heads_after k [] h = tt
  All-heads_after k (x ∷ xs) h = elim (Bool-cases (is_nil (id_cmp_str k x.key))) [
    | inl e ↦ rw (e, heads_after) (All-heads_after k xs h.1)
    | inr e ↦ rw (e, heads_after) (h.0, All-heads_after x.key xs h.1)
  ]

  pub All-heads : (xs : List Entry) → All P xs → All P (heads xs)
  unfolding heads
  All-heads [] h = tt
  All-heads (x ∷ xs) h = (h.0, All-heads_after x.key xs h.1)

pub Rising-skip : (xs : List Entry) → IsRising xs → IsRising (skip_equal_keys xs)
unfolding skip_equal_keys
Rising-skip [] h = tt
Rising-skip (x ∷ []) h = tt
Rising-skip (x ∷ y ∷ rest) h = elim (Bool-cases (is_nil (id_cmp_str x.key y.key))) [
  | inl e ↦ rw (e, skip_equal_keys) (Rising-skip (y ∷ rest) h.1)
  | inr e ↦ rw (e, skip_equal_keys) h.1
]

pub heads-skip :
    (x : Entry) (xs : List Entry) → heads (x ∷ xs) ≡ x ∷ heads (skip_equal_keys (x ∷ xs))
unfolding heads skip_equal_keys
heads-skip x [] = refl
heads-skip x (y ∷ rest) = ground (arith, heads-skip y rest, eq_of_nil x.key y.key)

pub Above-trans :
    (j k : RawId) (xs : List Entry) → id_cmp_str j k ≡ negative → AtLeast k xs → Above j xs
Above-trans j k [] h a = tt
Above-trans j k (x ∷ xs) h a = (
  ground (arith, a.0, trans j k x.key, eq_of_nil k x.key, Sign-cases (id_cmp_str k x.key)),
  Above-trans j k xs h a.1,
)

pub Above-skip :
    (x : Entry) (xs : List Entry) → IsRising (x ∷ xs) → Above x.key (skip_equal_keys (x ∷ xs))
unfolding skip_equal_keys
Above-skip x [] h = tt
Above-skip x (y ∷ rest) h = elim (Sign-cases (id_cmp_str x.key y.key)) [
  | inl e ↦ rw (e, skip_equal_keys) (e, Above-trans x.key y.key rest e h.1.0)
  | inr (inl e) ↦
      rw (e, skip_equal_keys)
        (subst (λ (k : RawId). Above k (skip_equal_keys (y ∷ rest))) (sym (eq_of_nil x.key y.key e))
          (Above-skip y rest h.1))
  | inr (inr e) ↦ absurd (h.0.0 e)
]

pub first-skip :
    (x : Entry) (xs : List Entry) (k : RawId)
    → is_nil (id_cmp_str x.key k) ≡ false
    → first_of_key (skip_equal_keys (x ∷ xs)) k ≡ first_of_key (x ∷ xs) k
unfolding skip_equal_keys first_of_key
first-skip x [] k h = ground arith
first-skip x (y ∷ rest) k h = ground (arith, first-skip y rest k, eq_of_nil x.key y.key)

pub first_none : (k : RawId) (xs : List Entry) → Above k xs → first_of_key xs k ≡ none
unfolding first_of_key
first_none k [] h = refl
first_none k (x ∷ xs) h = ground (arith, first_none k xs h.1, turn k x.key)

-- For keys above that of the left head, the left entries of that key do not matter.
pub filter-skip :
    (l : Entry) (ls rs : List Entry)
    → Above l.key rs
    → filter (wanted (skip_equal_keys (l ∷ ls))) rs ≡ filter (wanted (l ∷ ls)) rs
filter-skip l ls [] h = refl
filter-skip l ls (r ∷ rs) h = ground (arith, filter-skip l ls rs h.1, first-skip l ls r.key)
