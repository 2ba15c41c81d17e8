-- ===== src/Trans/Timeout.antt =====
-- The stall check: which transactions it moves out of the connection's table.
use mathlib.Core.List.{reverse_aux}
use mathlib.Core.Path.{fun_ext}
use elliptics.Prelude.{
  update, ℕ, ◌≡◌, refl, ap, ◌∙◌, inl, inr, Bool, false, not, ◌&&◌, Option, none, List, [], ◌∷◌,
  arith, ◌==◌, leb, if◌then◌else◌, any, Bool-cases,
}
use elliptics.Tree.{RbTree, remove}
use elliptics.Trans.{
  Net, iterate_move, trans_iterate_move_transaction, trans_remove_nolock, list_del,
}
use elliptics.Trans.Table.{IsTable, lookup, lookup-remove, remove-IsTable, same-IsTable}

-- The transactions at the front of the list that the check takes: it stops at the first whose
-- deadline has not passed, unless the connection is to be closed.
abbrev pub stalled : (now : ℕ) → (need_exit : Bool) → (ℕ → ℕ) → List ℕ → List ℕ
stalled now need_exit time [] = []
stalled now need_exit time (p ∷ ps) =
    let rest = stalled now need_exit time ps in
    if leb now (time p) && not need_exit then [] else p ∷ rest

-- What it leaves.
abbrev pub awake : (now : ℕ) → (need_exit : Bool) → (ℕ → ℕ) → List ℕ → List ℕ
awake now need_exit time [] = []
awake now need_exit time (p ∷ ps) =
    let rest = awake now need_exit time ps in
    if leb now (time p) && not need_exit then p ∷ ps else rest

-- Some entry of the list is in the tree under the number `k`.
abbrev pub holds : (ℕ → Bool) → (ℕ → ℕ) → ℕ → List ℕ → Bool
holds linked trans k = any (λ p. linked p && (trans p == k))

holds-unlink :
    (linked : ℕ → Bool) (trans : ℕ → ℕ) (k p : ℕ) (ps : List ℕ)
    → (linked p && (trans p == k)) ≡ false
    → holds (update linked p false) trans k ps ≡ holds linked trans k ps
holds-unlink linked trans k p [] h = refl
holds-unlink linked trans k p (q ∷ qs) h = ground (arith, holds-unlink linked trans k p qs h)

module _ (rb : RbTree) (now : ℕ) where
  abbrev move_step : ℕ → Net → Net
  move_step p s = list_del p (trans_remove_nolock rb p s)

  record Same (s s' : Net) : Type 0 where
    time : s'.time ≡ s.time
    need_exit : s'.need_exit ≡ s.need_exit
    trans : s'.trans ≡ s.trans
    list : s'.trans_list ≡ s.trans_list

  remove-Same : (p : ℕ) (s : Net) → Same s (trans_remove_nolock rb p s)
  unfolding trans_remove_nolock
  remove-Same p s = ground arith

  move_step-IsTable : (p : ℕ) (s : Net) → IsTable s → IsTable (move_step p s)
  unfolding list_del
  move_step-IsTable p s t =
      same-IsTable (trans_remove_nolock rb p s) (move_step p s) refl refl refl
        (remove-IsTable rb p s t)

  lookup-move_step :
      (p : ℕ) (s : Net) (k : ℕ)
      → IsTable s
      → lookup (move_step p s) k ≡ (if s.linked p && (s.trans p == k) then none else lookup s k)
  unfolding list_del
  lookup-move_step p s k t = lookup-remove rb p s t k

  linked-move_step_at :
      (p : ℕ) (s : Net) (q : ℕ) → (move_step p s).linked q ≡ update s.linked p false q
  unfolding list_del trans_remove_nolock
  linked-move_step_at p s q = ground arith

  linked-move_step : (p : ℕ) (s : Net) → (move_step p s).linked ≡ update s.linked p false
  linked-move_step p s = fun_ext (linked-move_step_at p s)

  move_step-Same : (p : ℕ) (s : Net) → Same s (record (move_step p s) { trans_list = s.trans_list })
  unfolding list_del trans_remove_nolock
  move_step-Same p s = ground arith

  -- The outcome of the loop over `ps`, the list of the connection.
  pub record Moved (head ps : List ℕ) (s : Net) (r : List ℕ × Net) : Type 0 where
    pub moved : r.0 ≡ reverse_aux (stalled now s.need_exit s.time ps) head
    pub left : r.1.trans_list ≡ awake now s.need_exit s.time ps
    pub table : IsTable r.1
    pub searches :
        (k : ℕ)
        → lookup r.1 k ≡ (
            if holds s.linked s.trans k (stalled now s.need_exit s.time ps)
            then none
            else lookup s k)

  module _ (head : List ℕ) (p : ℕ) (ps : List ℕ) (s : Net) (t : IsTable s)
      (go : (leb now (s.time p) && not s.need_exit) ≡ false) where
    searches_step :
        (qs : List ℕ) (k : ℕ) (found v : Option ℕ)
        → found ≡ (if holds (move_step p s).linked (move_step p s).trans k qs then none else v)
        → v ≡ (if s.linked p && (s.trans p == k) then none else lookup s k)
        → found ≡ (if holds s.linked s.trans k (p ∷ qs) then none else lookup s k)
    searches_step qs k found v h e =
        let h' : found ≡ (if holds (update s.linked p false) s.trans k qs then none else v) =
          rw (linked-move_step p s, (move_step-Same p s).trans) at h in
        ground (arith, h', e, holds-unlink s.linked s.trans k p qs)

    Moved-step :
        (r : List ℕ × Net) → Moved (p ∷ head) ps (move_step p s) r → Moved head (p ∷ ps) s r
    Moved-step r m =
        let same = move_step-Same p s in
        record {
          moved = rw go (rw (same.time, same.need_exit) at m.moved);
          left = rw go (rw (same.time, same.need_exit) at m.left);
          table = m.table;
          searches = λ k. rw go (
              searches_step (stalled now s.need_exit s.time ps) k (lookup r.1 k)
                (lookup (move_step p s) k) (rw (same.time, same.need_exit) at (m.searches k))
                (lookup-move_step p s k t));
        }

  remove_head : (p : ℕ) (ps : List ℕ) → remove p (p ∷ ps) ≡ ps
  unfolding remove
  remove_head p ps = ground arith

  list-move_step :
      (p : ℕ) (ps : List ℕ) (s : Net) → s.trans_list ≡ p ∷ ps → (move_step p s).trans_list ≡ ps
  unfolding list_del
  list-move_step p ps s e = ap (remove p) ((remove-Same p s).list ∙ e) ∙ remove_head p ps

  iterate_move-Moved :
      (head ps : List ℕ) (s : Net)
      → IsTable s
      → s.trans_list ≡ ps
      → Moved head ps s (iterate_move rb now head ps s)
  unfolding iterate_move
  iterate_move-Moved head [] s t e = record {
    moved = refl;
    left = e;
    table = t;
    searches = λ k. refl;
  }
  iterate_move-Moved head (p ∷ ps) s t e =
      elim (Bool-cases (leb now (s.time p) && not s.need_exit)) [
        | inl stop ↦
            rw (stop, iterate_move)
              (record { moved = rw stop; left = rw stop e; table = t; searches = λ k. rw stop })
        | inr go ↦
            rw (go, iterate_move)
              (Moved-step head p ps s t go _ (
                iterate_move-Moved (p ∷ head) ps (move_step p s) (move_step-IsTable p s t)
                  (list-move_step p ps s e)))
      ]

  -- From a table whose tree is in order, the stall check moves the transactions of the list up to
  -- the first that is not due, or all of them where the connection is to be closed, the latest
  -- first; the rest stays in the list, the tree stays in order and loses exactly the numbers of
  -- what was moved.
  pub iterate_move_transaction-Moved :
      (head : List ℕ) (s : Net)
      → IsTable s
      → Moved head s.trans_list s (trans_iterate_move_transaction rb now head s)
  unfolding trans_iterate_move_transaction
  iterate_move_transaction-Moved head s t = iterate_move-Moved head s.trans_list s t refl
