-- ===== src/Trans/Send.antt =====
-- `dnet_trans_send`: a transaction is open once it is sent, and a failure leaves no trace of it.
use mathlib.Core.Path.{subst}
use elliptics.Prelude.{
  ℕ, ◌+◌, ◌≤◌, ◌≡◌, refl, ◌∙◌, sym, ap, inl, inr, true, false, none, some, List, [], ◌∷◌, ◌++◌,
  arith, ◌==◌, if◌then◌else◌, ◌&&◌, mem, update, Status, success, failure, ok, Errno, eexist,
}
use elliptics.Tree.{Tree, RbTree}
use elliptics.Trans.{
  Net, trans_get, trans_send, trans_timestamp, trans_put, trans_remove, trans_remove_nolock,
  list_del,
}
use elliptics.Trans.Table.{IsTable, lookup, insert-Inserted, lookup-remove, remove-IsTable}
use elliptics.Trans.Lifetime.{put_shared, dropped}
use elliptics.Trans.Reply.{remove_absent, remove_last}

module _ (rb : RbTree) (now node_wait : ℕ) (p : ℕ) (s : Net) where
  -- Nothing of the transaction is left.
  pub record Unsent (s' : Net) : Type 0 where
    pub table : IsTable s'
    pub searches : (k : ℕ) → lookup s' k ≡ lookup s k
    pub refs : (q : ℕ) → s'.refcnt q ≡ s.refcnt q
    pub list : s'.trans_list ≡ s.trans_list
    pub freed : s'.freed ≡ s.freed

  -- The transaction is found under its number, and is the last that may time out.
  pub record Open (s' : Net) : Type 0 where
    pub table : IsTable s'
    pub searches : (k : ℕ) → lookup s' k ≡ (if s.trans p == k then some p else lookup s k)
    pub refs : (q : ℕ) → s'.refcnt q ≡ s.refcnt q
    pub list : s'.trans_list ≡ s.trans_list ++ p ∷ []
    pub deadline : s'.time p ≡ now + (if s.wait_ts p == 0 then node_wait else s.wait_ts p)
    pub freed : s'.freed ≡ s.freed

  pub data Sends : (queued : Status) → Status × Net → Type 0 where
    taken :
        (queued : Status) (q : ℕ) (s' : Net)
        → lookup s (s.trans p) ≡ some q
        → Unsent s'
        → Sends queued (failure eexist, s')
    unqueued :
        (e : Errno) (s' : Net)
        → lookup s (s.trans p) ≡ none
        → Unsent s'
        → Sends (failure e) (failure e, s')
    sent : (s' : Net) → lookup s (s.trans p) ≡ none → Open s' → Sends success (success, s')

  module _ (t : IsTable s) (live : 1 ≤ s.refcnt p) (out : mem p s.trans_list ≡ false) where
    got-IsTable : IsTable (trans_get p s)
    unfolding trans_get
    got-IsTable = t

    got_refcnt : (trans_get p s).refcnt p ≡ s.refcnt p + 1
    unfolding trans_get
    got_refcnt = ground arith

    taken-Unsent : Unsent (trans_put rb p (trans_get p s))
    unfolding trans_get
    taken-Unsent = rw (put_shared rb p (trans_get p s) (omega (arith, got_refcnt))) record {
      table = t;
      searches = λ k. refl;
      refs = λ q. ground arith;
      list = refl;
      freed = refl;
    }

    abbrev opened_at : Tree → Net
    opened_at r = record (trans_get p s) { trans_root = r; linked = update s.linked p true }

    module _ (r : Tree) (free : lookup s (s.trans p) ≡ none) where
      abbrev opened : Net
      opened = opened_at r

      abbrev stamped : Net
      stamped = trans_timestamp now node_wait p opened

      module _ (t1 : IsTable opened)
          (look : (k : ℕ) → lookup opened k ≡ (if s.trans p == k then some p else lookup s k)) where
        stamped-IsTable : IsTable stamped
        unfolding trans_timestamp trans_get
        stamped-IsTable = t1

        stamped_refcnt : stamped.refcnt p ≡ s.refcnt p + 1
        unfolding trans_timestamp trans_get
        stamped_refcnt = ground arith

        sent-Open : Open (trans_put rb p stamped)
        unfolding trans_timestamp trans_get
        sent-Open = rw (put_shared rb p stamped (omega (arith, stamped_refcnt))) record {
          table = t1;
          searches = look;
          refs = λ q. ground arith;
          list = ap (λ (l : List ℕ). l ++ p ∷ []) (remove_absent p s.trans_list out);
          deadline = ground arith;
          freed = refl;
        }

        abbrev removed : Net
        removed = trans_remove rb p stamped

        removed_refcnt : removed.refcnt p ≡ s.refcnt p + 1
        unfolding trans_remove trans_remove_nolock list_del trans_timestamp trans_get
        removed_refcnt = ground arith

        removed_back :
            (k : ℕ)
            → (if stamped.linked p && (stamped.trans p == k) then none else lookup stamped k)
              ≡ lookup s k
        unfolding trans_timestamp trans_get
        removed_back k = ground (arith, look k, free)

        removed_refs : (q : ℕ) → (dropped p removed).refcnt q ≡ s.refcnt q
        unfolding trans_remove list_del trans_remove_nolock trans_timestamp trans_get
        removed_refs q = ground arith

        removed_list : (dropped p removed).trans_list ≡ s.trans_list
        unfolding trans_remove list_del trans_remove_nolock trans_timestamp trans_get
        removed_list =
            ground (arith, remove_absent p s.trans_list out, remove_last p s.trans_list out)

        removed_freed : (dropped p removed).freed ≡ s.freed
        unfolding trans_remove list_del trans_remove_nolock trans_timestamp trans_get
        removed_freed = ground arith

        removed-Unsent : Unsent (trans_put rb p removed)
        unfolding trans_remove list_del
        removed-Unsent = rw (put_shared rb p removed (omega (arith, removed_refcnt))) record {
          table = remove-IsTable rb p stamped stamped-IsTable;
          searches = λ k. lookup-remove rb p stamped stamped-IsTable k ∙ removed_back k;
          refs = removed_refs;
          list = removed_list;
          freed = removed_freed;
        }

        queued-Sends :
            (queued : Status)
            → Sends queued (elim queued [
              | failure e ↦ (failure e, trans_put rb p (trans_remove rb p stamped))
              | success ↦ (success, trans_put rb p stamped)
            ])
        queued-Sends success = sent _ free sent-Open
        queued-Sends (failure e) = unqueued e _ free removed-Unsent

    -- What an insertion that works gives.
    inserted-Sends :
        (queued : Status) (s1 : Net)
        → lookup (trans_get p s) ((trans_get p s).trans p) ≡ none
        → s1 ≡ opened_at s1.trans_root
        → IsTable s1
        → ((k : ℕ)
            → lookup s1 k
              ≡ (if (trans_get p s).trans p == k then some p else lookup (trans_get p s) k))
        → Sends queued (elim queued [
          | failure e ↦ (
            failure e,
            trans_put rb p
                (trans_remove rb p (trans_timestamp now node_wait p (opened_at s1.trans_root))),
          )
          | success ↦
              (success, trans_put rb p (trans_timestamp now node_wait p (opened_at s1.trans_root)))
        ])
    unfolding trans_get
    inserted-Sends queued s1 e i t1 look =
        queued-Sends s1.trans_root e (subst IsTable i t1)
          (λ k. sym (ap (λ x. lookup x k) i) ∙ look k) queued

    -- From a table in order, for a transaction that is held and not in the list: sending it fails
    -- with -EEXIST just where its number is taken, and with the error of the queue where that
    -- fails; then the tree is in order, every search, every reference and the list are as before
    -- and nothing is freed; else a search for the number finds it, other searches and all
    -- references are as before, and it stands last in the list with a new deadline.
    pub send-Sends : (queued : Status) → Sends queued (trans_send rb now node_wait queued p s)
    unfolding trans_send
    send-Sends queued = elim (insert-Inserted rb p (trans_get p s) got-IsTable) [
      | inl (q, e, r) ↦ rw (r, trans_send) (taken queued q _ e taken-Unsent)
      | inr (s1, e, r, i, t1, look) ↦
          rw (r ∙ ap ok i, trans_send) (inserted-Sends queued s1 e i t1 look)
    ]
