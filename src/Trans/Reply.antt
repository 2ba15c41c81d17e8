-- ===== src/Trans/Reply.antt =====
-- What a reply does to the table: `dnet_process_recv` on a header with DNET_TRANS_REPLY.
use elliptics.Prelude.{
  update, ℕ, ◌+◌, ◌≡◌, refl, ◌∙◌, ◌≤◌, true, false, none, some, List, [], ◌∷◌, ◌++◌, arith, ◌==◌,
  if◌then◌else◌, mem,
}
use elliptics.Packet.{Cmd, has_flag, set_flag, tid_of, more, destroy}
use elliptics.Tree.{RbTree, remove}
use elliptics.Trans.{
  Net, process_reply, trans_search, trans_get, reply_more, reply_last, list_del, trans_timestamp,
  complete_call, trans_remove_nolock, trans_destroy,
}
use elliptics.Trans.Table.{
  IsTable, lookup, lookup-remove, remove-IsTable, linked-lookup, same-IsTable, same-lookup,
}
use elliptics.Trans.Lifetime.{put_shared, put_last, Gone, destroy-Gone, dropped}

pub remove_absent : (p : ℕ) (xs : List ℕ) → mem p xs ≡ false → remove p xs ≡ xs
unfolding remove
remove_absent p [] h = refl
remove_absent p (x ∷ xs) h = ground (arith, remove_absent p xs)

pub remove_last : (p : ℕ) (xs : List ℕ) → mem p xs ≡ false → remove p (xs ++ p ∷ []) ≡ xs
unfolding remove
remove_last p [] h = ground arith
remove_last p (x ∷ xs) h = ground (arith, remove_last p xs)

module _ (rb : RbTree) (now node_wait : ℕ) (c : Cmd) (s : Net) where
  module _ (p : ℕ) (found : lookup s (tid_of c.trans) ≡ some p)
      (once : mem p (remove p s.trans_list) ≡ false) where
    pub record Kept (s' : Net) : Type 0 where
      pub root : s'.trans_root ≡ s.trans_root
      pub list : s'.trans_list ≡ remove p s.trans_list ++ p ∷ []
      pub deadline : s'.time p ≡ now + (if s.wait_ts p == 0 then node_wait else s.wait_ts p)
      pub refs : (q : ℕ) → s'.refcnt q ≡ s.refcnt q
      pub calls :
          s'.calls ≡ (if s.complete p then record { who = p; cmd = c } ∷ s.calls else s.calls)
      pub freed : s'.freed ≡ s.freed

    taken : process_reply rb now node_wait c s ≡ (
        if has_flag c.flags more
        then reply_more rb now node_wait c p (trans_get p s)
        else reply_last rb now node_wait c p (trans_get p s))
    unfolding process_reply trans_search
    taken = ground arith

    abbrev touched : Net
    touched = complete_call p c (list_del p (trans_timestamp now node_wait p (trans_get p s)))

    touched_refcnt : 1 ≤ s.refcnt p → 2 ≤ touched.refcnt p
    unfolding list_del trans_timestamp trans_get
    touched_refcnt h = ground arith

    more-Kept : 1 ≤ s.refcnt p → Kept (trans_timestamp now node_wait p (dropped p touched))
    unfolding list_del trans_timestamp trans_get
    more-Kept live = record {
      root = ground arith;
      list = ground (
        arith,
        remove_last p (remove p s.trans_list) once,
        remove_absent p (remove p s.trans_list) once,
      );
      deadline = ground arith;
      refs = λ q. ground arith;
      calls = ground arith;
      freed = ground arith;
    }

    -- A reply with DNET_FLAGS_MORE to a transaction that is held and stands at most once in the
    -- list keeps the tree and every reference, puts the transaction at the end of the list with a
    -- new deadline, runs its callback once, and frees nothing.
    pub reply_more-Kept :
        1 ≤ s.refcnt p → has_flag c.flags more ≡ true → Kept (process_reply rb now node_wait c s)
    unfolding reply_more
    reply_more-Kept live h =
        rw (taken, h, put_shared rb p touched (touched_refcnt live)) (more-Kept live)

    -- What a last reply leaves behind when only the tree held the transaction.
    pub record Finished (s' : Net) : Type 0 where
      pub table : IsTable s'
      pub others : (k : ℕ) → lookup s' k ≡ (if s.trans p == k then none else lookup s k)
      pub list : s'.trans_list ≡ remove p s.trans_list
      pub freed : s'.freed ≡ p ∷ s.freed
      pub calls : s'.calls ≡ (
          if s.complete p
          then record { who = p; cmd = record c { flags = set_flag c.flags destroy } }
            ∷ record { who = p; cmd = c }
            ∷ s.calls
          else s.calls)

    module _ (table : IsTable s) (only : s.refcnt p ≡ 1) where
      abbrev unlinked : Net
      unlinked = complete_call p c (list_del p (trans_remove_nolock rb p (trans_get p s)))

      abbrev last_held : Net
      last_held = record (dropped p unlinked) { cmd = update unlinked.cmd p c }

      counted : (unlinked.refcnt p ≡ 2) × (last_held.refcnt p ≡ 1) × (unlinked.linked p ≡ false)
      unfolding list_del trans_remove_nolock trans_get
      counted = (ground arith, ground arith, ground arith)

      get-IsTable : IsTable (trans_get p s)
      unfolding trans_get
      get-IsTable = table

      finished : Gone rb p (dropped p last_held) (trans_destroy rb p (dropped p last_held))
      finished = destroy-Gone rb p (dropped p last_held) counted.2

      last-Finished : Finished (trans_destroy rb p (dropped p last_held))
      unfolding list_del trans_remove_nolock trans_get
      last-Finished = record {
        table =
            same-IsTable removed after (root ∙ ground arith) (trans ∙ ground arith)
              (linked ∙ ground arith) (remove-IsTable rb p (trans_get p s) get-IsTable);
        others = λ k.
            same-lookup removed after (root ∙ ground arith) (trans ∙ ground arith) k
            ∙ lookup-remove rb p (trans_get p s) get-IsTable k
            ∙ ground (arith, linked-lookup s table (tid_of c.trans) p found);
        list = list ∙ ground (arith, remove_absent p (remove p s.trans_list) once);
        freed = freed ∙ ground arith;
        calls = calls ∙ ground arith;
      }
        where
          open finished use {root, trans, linked, list, freed, calls}

          after : Net
          after = trans_destroy rb p (dropped p last_held)

          removed : Net
          removed = trans_remove_nolock rb p (trans_get p s)

      -- In a table whose tree is in order, a reply without DNET_FLAGS_MORE to a transaction that
      -- only the tree holds and that stands once in the list takes it out of the tree and the
      -- list, leaves every other search as it was, runs its callback once on the reply and once
      -- more with DNET_FLAGS_DESTROY, and frees it.
      pub reply_last-Finished :
          has_flag c.flags more ≡ false → Finished (process_reply rb now node_wait c s)
      unfolding reply_last
      reply_last-Finished h =
          rw
            (
              taken,
              h,
              put_shared rb p unlinked (omega (arith, counted)),
              put_last rb p last_held counted.1,
            )
            last-Finished
