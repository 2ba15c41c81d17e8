-- ===== src/Diff.antt =====
-- library/dnet_common.c: the difference of two sorted containers of iterator responses, which says
-- what a recovery has to copy. A container is a list, an offset into it the list of what is left;
-- the files behind the containers are whole and aligned, as the sizes' checks ask for.
pub mod Heads
pub mod Newest
use elliptics.Prelude.{
  ℕ, zero, suc, ◌+◌, Bool, true, false, not, Option, none, some, List, [], ◌∷◌, ltb, if◌then◌else◌,
  Status, success, failure, Result, ok, err, length,
}
use elliptics.Key.{Sign, negative, nil, positive, RawId, id_cmp_str}
use elliptics.Key.Order.{is_nil}
use elliptics.Iterate.{Time, time_cmp, is_positive}

pub record Entry : Type 0 where
  pub key : RawId
  pub timestamp : Time
  pub size : ℕ

-- `dnet_iterator_response_cmp` where the keys are equal: the later time first, then the larger size.
unfoldable pub newer_cmp : Entry → Entry → Sign
newer_cmp a b = elim (time_cmp b.timestamp a.timestamp) [
  | nil ↦ if ltb b.size a.size then negative else if ltb a.size b.size then positive else nil
  | sign ↦ sign
]

unfoldable pub response_cmp : Entry → Entry → Sign
response_cmp a b = elim (id_cmp_str a.key b.key) [ nil ↦ newer_cmp a b | sign ↦ sign ]

-- From an entry to the first entry behind it with another key.
unfoldable pub skip_equal_keys : List Entry → List Entry
skip_equal_keys [] = []
skip_equal_keys (x ∷ []) = []
skip_equal_keys (x ∷ y ∷ rest) =
    let skipped = skip_equal_keys (y ∷ rest) in
    if is_nil (id_cmp_str x.key y.key) then skipped else y ∷ rest

-- Entries to copy, with the outcome of each write: `write n` is that of the n-th append.
abbrev keep : Entry → Result (List Entry) → Result (List Entry)
keep x (err e) = err e
keep x (ok xs) = ok (x ∷ xs)

abbrev same_key : Entry → Entry → Bool
same_key a b = is_nil (id_cmp_str a.key b.key)

-- The loop on fuel; `none` where the fuel ran out.
unfoldable pub diff_loop :
    (write : ℕ → Status)
    → ℕ
    → (written : ℕ) → (left right : List Entry) → Option (Result (List Entry))
diff_loop write zero n left right = none
diff_loop write (suc fuel) n left [] = some (ok [])
diff_loop write (suc fuel) n [] (r ∷ rs) = elim (write n) [
  | failure e ↦ some (err e)
  | success ↦ elim (diff_loop write fuel (n + 1) [] (skip_equal_keys (r ∷ rs))) [
    | none ↦ none
    | some rest ↦ some (keep r rest)
  ]
]
diff_loop write (suc fuel) n (l ∷ ls) (r ∷ rs) =
    let matched = same_key l r in
    let left' = skip_equal_keys (l ∷ ls) in
    let right' = skip_equal_keys (r ∷ rs) in
    elim (is_positive (response_cmp l r)) [
      | false ↦ diff_loop write fuel n left' (if matched then right' else r ∷ rs)
      | true ↦ elim (write n) [
        | failure e ↦ some (err e)
        | success ↦ elim (diff_loop write fuel (n + 1) (if matched then left' else l ∷ ls) right') [
          | none ↦ none
          | some rest ↦ some (keep r rest)
        ]
      ]
    ]

unfoldable pub container_diff :
    (write : ℕ → Status) → (left right : List Entry) → Option (Result (List Entry))
unfolding diff_loop
container_diff write left right = diff_loop write (length left + length right + 1) 0 left right
