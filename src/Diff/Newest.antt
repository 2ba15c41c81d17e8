-- ===== src/Diff/Newest.antt =====
-- What a difference holds: for each key of the right container its newest entry, unless the left
-- container's newest entry of that key is as new.
use elliptics.Prelude.{ℕ, suc, ◌≡◌, Option, some, List, ◌∷◌, Status, success, Result, ok, filter}
use elliptics.Key.Order.{id_cmp_str-IsOrder}
use elliptics.Diff.{Entry, skip_equal_keys, diff_loop}
use elliptics.Diff.Heads.{IsRising, heads, wanted}
open id_cmp_str-IsOrder use {same, eq_of_nil, turn, trans}

-- One round of the loop, by the order of the two heads.
module _ (l : Entry) (ls : List Entry) (r : Entry) (rs : List Entry) (hl : IsRising (l ∷ ls))
    (hr : IsRising (r ∷ rs)) where
  abbrev left' : List Entry
  left' = skip_equal_keys (l ∷ ls)

  abbrev right' : List Entry
  right' = skip_equal_keys (r ∷ rs)

module _ (write : ℕ → Status) (works : (n : ℕ) → write n ≡ success) where
  abbrev Spec : List Entry → List Entry → Option (Result (List Entry)) → Type 0
  Spec l r out = out ≡ some (ok (filter (wanted l) (heads r)))

  -- One round, given what the rest of the loop gives.
  module _ (f n : ℕ) (l : Entry) (ls : List Entry) (r : Entry) (rs : List Entry)
      (hl : IsRising (l ∷ ls)) (hr : IsRising (r ∷ rs)) where
    abbrev left : List Entry
    left = skip_equal_keys (l ∷ ls)

    abbrev right : List Entry
    right = skip_equal_keys (r ∷ rs)

    abbrev Round : Type 0
    Round = Spec (l ∷ ls) (r ∷ rs) (diff_loop write (suc f) n (l ∷ ls) (r ∷ rs))
