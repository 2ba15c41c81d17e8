-- ===== src/Trans/Clean.antt =====
-- `dnet_state_clean`: a connection that is given up ends all of its transactions.
use mathlib.Core.List.{reverse_aux}
use elliptics.Prelude.{
  ℕ, zero, suc, ◌≡◌, refl, ◌∙◌, ap, ◌≤◌, true, false, List, [], ◌∷◌, arith, ◌==◌, length, mem,
  update,
}
use elliptics.Tree.{RbTree, inorder, remove}
use elliptics.Trans.{
  Net, trans_get, trans_remove_nolock, list_del, trans_put, trans_destroy, state_clean,
}
use elliptics.Trans.Table.{IsTable, remove-IsTable, same-IsTable}
use elliptics.Trans.Lifetime.{put_shared, put_last, Gone, destroy-Gone, dropped}

module _ (rb : RbTree) (p : ℕ) (s : Net) where
  abbrev unlinked : Net
  unlinked = list_del p (trans_remove_nolock rb p (trans_get p s))

  abbrev pub ended : Net
  ended = trans_put rb p (trans_put rb p unlinked)

  -- What the end of one transaction that only the tree holds leaves behind.
  pub record Ended (s' : Net) : Type 0 where
    table : IsTable s'
    tree : inorder s'.trans_root ≡ remove p (inorder s.trans_root)
    marks : (q : ℕ) → s'.linked q ≡ update s.linked p false q
    refs : (q : ℕ) → (p == q) ≡ false → s'.refcnt q ≡ s.refcnt q
    freed : s'.freed ≡ p ∷ s.freed

  module _ (t : IsTable s) (linked : s.linked p ≡ true) (only : s.refcnt p ≡ 1) where
    counted :
        (unlinked.refcnt p ≡ 2) × ((dropped p unlinked).refcnt p ≡ 1) × (unlinked.linked p ≡ false)
    unfolding list_del trans_remove_nolock trans_get
    counted = (ground arith, ground arith, ground arith)

    last : Net
    last = dropped p (dropped p unlinked)

    ends : ended ≡ trans_destroy rb p last
    unfolding last
    ends =
        ap (trans_put rb p) (put_shared rb p unlinked (omega (arith, counted.0)))
        ∙ put_last rb p (dropped p unlinked) counted.1

    gone : Gone rb p last (trans_destroy rb p last)
    unfolding last
    gone = destroy-Gone rb p last counted.2

    ended-Ended : Ended ended
    unfolding list_del trans_remove_nolock trans_get last
    ended-Ended = rw ends record {
      table =
          same-IsTable (trans_remove_nolock rb p s) (trans_destroy rb p last)
            (gone.root ∙ ground arith) (gone.trans ∙ ground arith) (gone.linked ∙ ground arith)
            (remove-IsTable rb p s t);
      tree = ap inorder gone.root ∙ ground (arith, rb.inorder-erase p s.trans_root);
      marks = λ q. ground (arith, gone.linked);
      refs = λ q n. ground (arith, gone.refcnt);
      freed = gone.freed ∙ ground arith;
    }

-- Every open transaction is held by the tree only.
abbrev pub HeldOnce : Net → Type 0
HeldOnce s = (q : ℕ) → s.linked q ≡ true → s.refcnt q ≡ 1

-- The tree is empty, and the transactions were freed, in the tree's order.
abbrev pub Cleaned : List ℕ → List ℕ → Net → Type 0
Cleaned ps before s' = (inorder s'.trans_root ≡ []) × (s'.freed ≡ reverse_aux ps before)

remove_front : (p : ℕ) (ps : List ℕ) → remove p (p ∷ ps) ≡ ps
unfolding remove
remove_front p ps = ground arith

module _ (rb : RbTree) where
  Ended-HeldOnce : (p : ℕ) (s s' : Net) → Ended rb p s s' → HeldOnce s → HeldOnce s'
  Ended-HeldOnce p s s' e h q l = ground (arith, e.marks q, e.refs q, h q)

  loop-Cleaned :
      (fuel : ℕ) (s : Net) (ps : List ℕ)
      → IsTable s
      → HeldOnce s
      → inorder s.trans_root ≡ ps
      → length ps ≤ fuel
      → Cleaned ps s.freed (state_clean rb fuel s)
  unfolding state_clean
  loop-Cleaned zero s [] t h e n = (e, refl)
  loop-Cleaned zero s (p ∷ ps) t h e n = absurd (omega arith)
  loop-Cleaned (suc f) s [] t h e n = rw (e, state_clean) (e, refl)
  loop-Cleaned (suc f) s (p ∷ ps) t h e n =
      let l : s.linked p ≡ true = t.marks p ∙ ap (mem p) e ∙ mem_front p ps in
      let d = ended-Ended rb p s t l (h p l) in
      let r =
        loop-Cleaned f (ended rb p s) ps d.table (Ended-HeldOnce p s (ended rb p s) d h)
          (d.tree ∙ ap (remove p) e ∙ remove_front p ps) (omega arith) in
      rw (e, state_clean) (r.0, r.1 ∙ ap (reverse_aux ps) d.freed)
    where
      mem_front : (x : ℕ) (xs : List ℕ) → mem x (x ∷ xs) ≡ true
      mem_front x xs = ground arith

  -- Where only the tree holds the open transactions of a connection, whose tree is in order,
  -- cleaning the connection ends with an empty tree, each transaction freed once, in the tree's
  -- order; as many rounds as there are transactions are enough.
  pub clean-Cleaned :
      (fuel : ℕ) (s : Net)
      → IsTable s
      → HeldOnce s
      → length (inorder s.trans_root) ≤ fuel
      → Cleaned (inorder s.trans_root) s.freed (state_clean rb fuel s)
  clean-Cleaned fuel s t h n = loop-Cleaned fuel s (inorder s.trans_root) t h refl n
