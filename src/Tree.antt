-- ===== src/Tree.antt =====
-- The searches and insertions that library/trans.c and library/locks.c write over `struct rb_root`.
-- A tree holds addresses of entries, and `key` reads an entry's key. The larger keys go left. The
-- balancing of library/rbtree.c (`rb_insert_color`, `rb_erase`) is the parameter `RbTree`.
pub mod Laws
pub mod Insertion
pub mod Removal
pub mod Index
use elliptics.Prelude.{ℕ, ◌≡◌, Option, none, some, List, [], ◌∷◌, ◌++◌, ◌==◌, if◌then◌else◌}
use elliptics.Key.{Sign, negative, nil, positive}
use mathlib.Core.Option

pub data Tree : Type 0 where
  leaf : Tree
  node : Tree → ℕ → Tree → Tree

abbrev pub inorder : Tree → List ℕ
inorder leaf = []
inorder (node l p r) = inorder l ++ p ∷ inorder r

-- The list without the first `p`.
unfoldable pub remove : ℕ → List ℕ → List ℕ
remove p [] = []
remove p (q ∷ qs) = if q == p then qs else q ∷ remove p qs

-- What the code relies on: balancing keeps the order of the entries, and erasing takes one out.
pub record RbTree : Type 0 where
  pub insert_color : Tree → Tree
  pub erase : ℕ → Tree → Tree
  pub inorder-insert_color : (t : Tree) → inorder (insert_color t) ≡ inorder t
  pub inorder-erase : (p : ℕ) (t : Tree) → inorder (erase p t) ≡ remove p (inorder t)

module _ {K : Type 0} (cmp : K → K → Sign) (key : ℕ → K) where
  -- The loop of `dnet_trans_search` and `dnet_oplock_search_nolock`.
  unfoldable pub search : Tree → K → Option ℕ
  search leaf k = none
  search (node l p r) k = elim (cmp (key p) k) [
    | negative ↦ search l k
    | positive ↦ search r k
    | nil ↦ some p
  ]

  -- The loop of the insertions and `rb_link_node`; `none` where the key is taken.
  unfoldable pub link : Tree → ℕ → Option Tree
  link leaf p = some (node leaf p leaf)
  link (node l q r) p = elim (cmp (key q) (key p)) [
    | negative ↦ Option.map (λ l'. node l' q r) (link l p)
    | positive ↦ Option.map (λ r'. node l q r') (link r p)
    | nil ↦ none
  ]

  -- The first entry of a list with the key: what a search has to find.
  unfoldable pub find : List ℕ → K → Option ℕ
  find [] k = none
  find (p ∷ ps) k = elim (cmp (key p) k) [ nil ↦ some p | _ ↦ find ps k ]
