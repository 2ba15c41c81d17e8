-- ===== src/Trans/Table.antt =====
-- The tree of a connection's transactions as a map from transaction numbers.
use elliptics.Prelude.{
  refl, Option-cases, update, ℕ, ◌≡◌, ◌⊎◌, inl, inr, true, Option, none, some, arith, ◌==◌,
  if◌then◌else◌, Bool-cases, ◌&&◌, Result, ok, err, eexist,
}
use elliptics.Key.Order.{IsOrder, is_nil}
use elliptics.Tree
use elliptics.Tree.{Tree, RbTree, inorder, find, remove}
use elliptics.Tree.Index.{IsIndex, found_marked, link_free, link_taken, erase_marked, Shrunk}
use elliptics.Trans.{Net, trans_cmp, trans_insert_nolock, trans_remove_nolock}

pub trans_cmp-IsOrder : IsOrder trans_cmp
unfolding trans_cmp
trans_cmp-IsOrder = record {
  same = λ a. ground arith;
  eq_of_nil = λ a b h. ground arith;
  turn = λ a b. ground arith;
  trans = λ a b c h k. ground arith;
}

is_nil-trans_cmp : (a b : ℕ) → is_nil (trans_cmp a b) ≡ (a == b)
unfolding trans_cmp
is_nil-trans_cmp a b = ground arith

-- The tree is in order, and an entry is marked as linked just when it is in the tree.
abbrev pub IsTable : Net → Type 0
IsTable s = IsIndex trans_cmp-IsOrder s.trans s.trans_root s.linked

abbrev pub lookup : Net → ℕ → Option ℕ
lookup s tid = Tree.search trans_cmp s.trans s.trans_root tid

-- Only three fields of a connection make its table.
module _ (s s' : Net) (e : s'.trans_root ≡ s.trans_root) (f : s'.trans ≡ s.trans) where
  pub same-IsTable : s'.linked ≡ s.linked → IsTable s → IsTable s'
  same-IsTable g t = rw (e, f, g) t

  pub same-lookup : (k : ℕ) → lookup s' k ≡ lookup s k
  same-lookup k = rw (e, f)

module _ (s : Net) (t : IsTable s) where
  -- What a search finds is linked, and has the number that was looked for.
  pub linked-lookup : (k p : ℕ) → lookup s k ≡ some p → (s.linked p ≡ true) × (s.trans p ≡ k)
  linked-lookup k p h = found_marked trans_cmp-IsOrder s.trans s.trans_root s.linked t k p h

module _ (rb : RbTree) (p : ℕ) (s : Net) (t : IsTable s) where
  -- The outcomes of an insertion: a number that is taken, or a new table.
  abbrev pub Inserted : Result Net → Type 0
  Inserted r =
      ((q : ℕ) × (lookup s (s.trans p) ≡ some q) × (r ≡ err eexist))
      ⊎ ((s' : Net) × (lookup s (s.trans p) ≡ none)
          × (r ≡ ok s')
          × (s' ≡ record s { trans_root = s'.trans_root; linked = update s.linked p true })
          × IsTable s'
          × ((k : ℕ) → lookup s' k ≡ (if s.trans p == k then some p else lookup s k)))

  -- An insertion into a table in order fails with -EEXIST just where the number is taken;
  -- otherwise the new tree is in order, a search for the number finds the entry, and any other
  -- search is as before.
  pub insert-Inserted : Inserted (trans_insert_nolock rb p s)
  unfolding trans_insert_nolock
  insert-Inserted = elim (Option-cases (lookup s (s.trans p))) [
    | inr (q, e) ↦ inl (
      q,
      e,
      rw (link_taken trans_cmp-IsOrder s.trans s.trans_root s.linked t p q e, trans_insert_nolock),
    )
    | inl e ↦
        let (r, l, g) = link_free trans_cmp-IsOrder s.trans s.trans_root s.linked t p rb e in
        inr (
          record s { trans_root = rb.insert_color r; linked = update s.linked p true },
          e,
          rw (l, trans_insert_nolock),
          refl,
          g.index,
          λ k. ground (arith, g.searches k, is_nil-trans_cmp (s.trans p) k),
        )
  ]

  gone :
      s.linked p ≡ true
      → Shrunk trans_cmp-IsOrder s.trans s.trans_root s.linked t p (rb.erase p s.trans_root)
  gone h = erase_marked trans_cmp-IsOrder s.trans s.trans_root s.linked t p rb h

  pub remove-IsTable : IsTable (trans_remove_nolock rb p s)
  unfolding trans_remove_nolock
  remove-IsTable = elim (Bool-cases (s.linked p)) [
    | inl h ↦ rw (h, trans_remove_nolock) (gone h).index
    | inr h ↦ rw (h, trans_remove_nolock) t
  ]

  -- In a table in order, after a removal no search finds the number of the entry if the entry was
  -- in the tree; any other search, and every search if it was not, is as before.
  pub lookup-remove :
      (k : ℕ)
      → lookup (trans_remove_nolock rb p s) k
        ≡ (if s.linked p && (s.trans p == k) then none else lookup s k)
  unfolding trans_remove_nolock
  lookup-remove k = elim (Bool-cases (s.linked p)) [
    | inl h ↦ ground (arith, h, (gone h).searches k, is_nil-trans_cmp (s.trans p) k)
    | inr h ↦ ground arith
  ]
