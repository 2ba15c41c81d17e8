-- ===== src/Route/Search.antt =====
-- The binary search finds the owner of a key.
use elliptics.Prelude.{
  ℕ, zero, suc, ◌+◌, ◌-◌, ◌/◌, ◌≤◌, ◌<◌, ◌≡◌, refl, ◌≢◌, inl, inr, Option, some, List, [], ◌∷◌,
  arith, length, get_elem?,
}
use elliptics.Key.{negative, nil, positive, RawId, id_cmp_str}
use native.Mathlib.Decide.{dec_lt}
use elliptics.Key.Order.{id_cmp_str-IsOrder}
use elliptics.Tree.Laws.{Sign-cases}
use elliptics.Route.{StateId, idc_search_loop}
open id_cmp_str-IsOrder use {same, eq_of_nil, turn, trans}

-- Keys rise strictly along the list.
abbrev pub IsSorted : List StateId → Type 0
IsSorted ids =
    (i j : ℕ) (a b : StateId)
    → i < j
    → get_elem? ids i ≡ some a
    → get_elem? ids j ≡ some b
    → id_cmp_str a.raw b.raw ≡ negative

-- Every key before index `n` is at most `id`; every key from `n` on is larger.
abbrev pub Before : List StateId → RawId → ℕ → Type 0
Before ids id n =
    (i : ℕ) (a : StateId) → i < n → get_elem? ids i ≡ some a → id_cmp_str a.raw id ≢ positive

abbrev pub Behind : List StateId → RawId → ℕ → Type 0
Behind ids id n =
    (i : ℕ) (a : StateId) → n ≤ i → get_elem? ids i ≡ some a → id_cmp_str a.raw id ≡ positive

pub get_elem?-some {ℓ} :
    {A : Type ℓ} (xs : List A) (i : ℕ) → i < length xs → (a : A) × (get_elem? xs i ≡ some a)
get_elem?-some [] i h = elim h [ ]
get_elem?-some (x ∷ xs) zero h = (x, refl)
get_elem?-some (x ∷ xs) (suc i) h = get_elem?-some xs i (omega arith)

pub not_past {ℓ} :
    {A : Type ℓ} (xs : List A) (i : ℕ) (a : A) → length xs ≤ i → get_elem? xs i ≢ some a
not_past [] i a le e = cc
not_past (x ∷ xs) zero a le e = absurd (omega arith)
not_past (x ∷ xs) (suc i) a le e = not_past xs i a (omega arith) e

module _ (ids : List StateId) (id : RawId) (sorted : IsSorted ids) where
  pub record Found (n : ℕ) : Type 0 where
    pub before : Before ids id n
    pub behind : Behind ids id n
    pub bound : n ≤ length ids

  -- What a comparison at index `i` says of the keys on either side of it.
  module _ (i : ℕ) (sid : StateId) (here : get_elem? ids i ≡ some sid) where
    Before-small : id_cmp_str sid.raw id ≡ negative → Before ids id (i + 1)
    Before-small e j a lt at = elim (dec_lt j i) [
      | yes p ↦ ground (arith, sorted j i a sid p at here, trans a.raw sid.raw id)
      | no p ↦ let same_index : j ≡ i = omega arith in ground arith
    ]

    Behind-large : id_cmp_str sid.raw id ≡ positive → Behind ids id i
    Behind-large e j a le at = elim (dec_lt i j) [
      | yes p ↦ ground (
        arith,
        sorted i j sid a p here at,
        turn sid.raw id,
        turn id a.raw,
        trans id sid.raw a.raw,
      )
      | no p ↦ let same_index : j ≡ i = omega arith in ground arith
    ]

    Before-equal : id_cmp_str sid.raw id ≡ nil → Before ids id (i + 1)
    Before-equal e j a lt at = elim (dec_lt j i) [
      | yes p ↦ ground (arith, sorted j i a sid p at here, eq_of_nil sid.raw id)
      | no p ↦ let same_index : j ≡ i = omega arith in ground arith
    ]

    Behind-equal : id_cmp_str sid.raw id ≡ nil → Behind ids id (i + 1)
    Behind-equal e j a le at =
        ground (arith, sorted i j sid a (omega arith) here at, eq_of_nil sid.raw id, turn id a.raw)

  abbrev middle : ℕ → ℕ → ℕ
  middle lo high = lo + (high + 1 - lo) / 2 - 1

  middle_bounds : (lo high : ℕ) → lo < high → (lo ≤ middle lo high) × (middle lo high < high)
  middle_bounds lo high h = omega arith

  abbrev pub Done : Option ℕ → Type 0
  Done r = (n : ℕ) × (r ≡ some n) × Found n

  pub loop-Found :
      (fuel lo high : ℕ)
      → high + 1 - lo ≤ fuel
      → lo ≤ high
      → high ≤ length ids
      → Before ids id lo
      → Behind ids id high
      → Done (idc_search_loop fuel ids id lo high)
  unfolding idc_search_loop
  loop-Found zero lo high f h b before behind = absurd (omega arith)
  loop-Found (suc f) lo high h le bound before behind = elim (dec_lt lo high) [
    | no stop ↦ (
      high,
      ground arith,
      record { before = λ i a lt e. before i a (omega arith) e; behind = behind; bound = bound },
    )
    | yes go ↦
        let i = middle lo high in
        let (l, u) = middle_bounds lo high go in
        let (sid, here) = get_elem?-some ids i (omega (arith, u)) in
        elim (Sign-cases (id_cmp_str sid.raw id)) [
          | inl e ↦
              let (n, r, found) =
                loop-Found f (i + 1) high (omega (arith, l)) (omega (arith, u)) bound
                  (Before-small i sid here e) behind in
              (n, ground arith, found)
          | inr (inl e) ↦ (
            i + 1,
            ground arith,
            record {
              before = Before-equal i sid here e;
              behind = Behind-equal i sid here e;
              bound = omega (arith, u);
            },
          )
          | inr (inr e) ↦
              let (n, r, found) =
                loop-Found f lo i (omega (arith, u)) l (omega (arith, u)) before
                  (Behind-large i sid here e) in
              (n, ground arith, found)
        ]
  ]
