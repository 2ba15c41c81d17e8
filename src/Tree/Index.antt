-- ===== src/Tree/Index.antt =====
-- A tree with its entries' keys and marks as a map from keys: what `rb_root` with one `rb_node` in
-- each entry is used for.
use elliptics.Prelude.{
  ℕ, ◌≡◌, refl, ◌∙◌, sym, inl, inr, Bool, true, false, none, some, List, [], ◌∷◌, arith, mem,
  update, if◌then◌else◌,
}
use elliptics.Key.{Sign}
use elliptics.Key.Order.{IsOrder, is_nil}
use elliptics.Tree
use elliptics.Tree.{Tree, RbTree, inorder, find, link}
use elliptics.Tree.Laws.{IsFalling, Under, search-find}
use elliptics.Tree.Insertion.{place, link-Linked, find-place, place-IsFalling, mem-place}
use elliptics.Tree.Removal.{find-remove, remove-IsFalling, find-mem, mem-find, mem-remove}

module _ {K : Type 0} {cmp : K → K → Sign} (o : IsOrder cmp) where
  -- Keys fall along the tree, and an entry is marked just when it is in the tree.
  pub record IsIndex (key : ℕ → K) (root : Tree) (linked : ℕ → Bool) : Type 0 where
    pub falling : IsFalling o key (inorder root)
    pub marks : (p : ℕ) → linked p ≡ mem p (inorder root)

  module _ (key : ℕ → K) (root : Tree) (linked : ℕ → Bool) (t : IsIndex key root linked) where
    search_as_find : (k : K) → Tree.search cmp key root k ≡ find cmp key (inorder root) k
    search_as_find k = search-find o key root k t.falling

    -- What a search finds is marked and has the key that was looked for.
    pub found_marked :
        (k : K) (p : ℕ) → Tree.search cmp key root k ≡ some p → (linked p ≡ true) × (key p ≡ k)
    found_marked k p h =
        ground (arith, search_as_find k, mem-find o key p (inorder root) k, t.marks p)

    -- A marked entry is found under its key.
    pub marked_found : (p : ℕ) → linked p ≡ true → Tree.search cmp key root (key p) ≡ some p
    marked_found p h =
        search_as_find (key p) ∙ find-mem o key p (inorder root) t.falling (sym (t.marks p) ∙ h)

    module _ (p : ℕ) where
      -- A new tree with its marks that finds `p` under its key, and else what the old one does.
      pub record Grown (root' : Tree) : Type 0 where
        pub index : IsIndex key root' (update linked p true)
        pub searches :
            (k : K)
            → Tree.search cmp key root' k
              ≡ (if is_nil (cmp (key p) k) then some p else Tree.search cmp key root k)

      grown :
          (root' : Tree)
          → find cmp key (inorder root) (key p) ≡ none
          → inorder root' ≡ place o key p (inorder root)
          → Grown root'
      grown root' free e = record { index = index; searches = searches }
        where
          index : IsIndex key root' (update linked p true)
          index = record {
            falling = rw e (place-IsFalling o key p (inorder root) free t.falling);
            marks = λ q. ground (arith, e, mem-place o key p (inorder root) q, t.marks q);
          }

          searches :
              (k : K)
              → Tree.search cmp key root' k
                ≡ (if is_nil (cmp (key p) k) then some p else Tree.search cmp key root k)
          searches k = ground (
            arith,
            search-find o key root' k index.falling,
            e,
            find-place o key p (inorder root) k,
            search_as_find k,
          )

      -- An entry with a key that is not in the tree is linked.
      pub link_free :
          (rb : RbTree)
          → Tree.search cmp key root (key p) ≡ none
          → (r : Tree) × (link cmp key root p ≡ some r) × Grown (rb.insert_color r)
      link_free rb free = elim (link-Linked o key root p t.falling) [
        | inl (q, f, n) ↦ absurd (cc (free, search_as_find (key p), f))
        | inr (r, f, n, i) ↦ (r, n, grown (rb.insert_color r) f (rb.inorder-insert_color r ∙ i))
      ]

      -- An entry with a key that is in the tree is not.
      pub link_taken :
          (q : ℕ) → Tree.search cmp key root (key p) ≡ some q → link cmp key root p ≡ none
      link_taken q h = elim (link-Linked o key root p t.falling) [
        | inl (x, f, n) ↦ n
        | inr (r, f, n, i) ↦ absurd (cc (h, search_as_find (key p), f))
      ]

      -- The same without `p`.
      pub record Shrunk (root' : Tree) : Type 0 where
        pub index : IsIndex key root' (update linked p false)
        pub searches :
            (k : K)
            → Tree.search cmp key root' k
              ≡ (if is_nil (cmp (key p) k) then none else Tree.search cmp key root k)

      pub erase_marked : (rb : RbTree) → linked p ≡ true → Shrunk (rb.erase p root)
      erase_marked rb h = record { index = index; searches = searches }
        where
          index : IsIndex key (rb.erase p root) (update linked p false)
          index = record {
            falling =
                rw (rb.inorder-erase p root) (remove-IsFalling o key p (inorder root) t.falling);
            marks = λ q. ground (
              arith,
              rb.inorder-erase p root,
              mem-remove o key p (inorder root) q t.falling,
              t.marks q,
            );
          }

          searches :
              (k : K)
              → Tree.search cmp key (rb.erase p root) k
                ≡ (if is_nil (cmp (key p) k) then none else Tree.search cmp key root k)
          searches k = ground (
            arith,
            search-find o key (rb.erase p root) k index.falling,
            rb.inorder-erase p root,
            find-remove o key p (inorder root) k t.falling,
            find-mem o key p (inorder root) t.falling,
            t.marks p,
            search_as_find k,
          )

  -- A new key for an entry that is not in the tree changes nothing.
  module _ (key : ℕ → K) (p : ℕ) (v : K) where
    Under-update :
        (ps : List ℕ) (k : K) → mem p ps ≡ false → Under o key k ps → Under o (update key p v) k ps
    Under-update [] k n h = tt
    Under-update (q ∷ qs) k n h = (ground arith, Under-update qs k (ground arith) h.1)

    falling-update :
        (ps : List ℕ) → mem p ps ≡ false → IsFalling o key ps → IsFalling o (update key p v) ps
    falling-update [] n h = tt
    falling-update (q ∷ qs) n h = (
      ground (arith, Under-update qs (key q) (ground arith) h.0),
      falling-update qs (ground arith) h.1,
    )

    find-update :
        (ps : List ℕ) (k : K)
        → mem p ps ≡ false
        → find cmp (update key p v) ps k ≡ find cmp key ps k
    unfolding find
    find-update [] k n = refl
    find-update (q ∷ qs) k n = ground (arith, find-update qs k)

    pub update_unmarked :
        (root : Tree) (linked : ℕ → Bool)
        → IsIndex key root linked
        → linked p ≡ false
        → IsIndex (update key p v) root linked
          × ((k : K) → Tree.search cmp (update key p v) root k ≡ Tree.search cmp key root k)
    update_unmarked root linked t h =
        let out : mem p (inorder root) ≡ false = sym (t.marks p) ∙ h in
        let f = falling-update (inorder root) out t.falling in
        (
          record { falling = f; marks = t.marks },
          λ k.
              search-find o (update key p v) root k f
              ∙ find-update (inorder root) k out
              ∙ sym (search-find o key root k t.falling),
        )
