-- ===== src/Tests/Containers.antt =====
-- Keys, headers and container differences on concrete values.
use elliptics.Prelude.{ℕ, List, [], ◌∷◌}
use elliptics.Diff.{Entry}

abbrev entry : (key sec size : ℕ) → Entry
entry key sec size = record {
  key = key ∷ [];
  timestamp = record { tsec = sec; tnsec = 0 };
  size = size;
}

-- The left container has a newer entry of the key 1 and an older one of the key 2, and none of the
-- key 3; the right one has two of the key 3.
abbrev left_side : List Entry
left_side = entry 1 9 5 ∷ entry 2 4 5 ∷ []

abbrev right_side : List Entry
right_side = entry 1 8 5 ∷ entry 2 6 5 ∷ entry 3 7 5 ∷ entry 3 2 5 ∷ []
