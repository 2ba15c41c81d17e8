-- ===== src/Trans.antt =====
-- library/trans.c and the transactions of library/net.c: what one connection (`struct
-- dnet_net_state`) knows of its open transactions. An address names a `struct dnet_trans`, and each
-- field of that struct is a function of the address.
pub mod Table
pub mod Lifetime
pub mod Reply
pub mod Timeout
pub mod Clean
pub mod Send
use elliptics.Prelude.{
  ℕ, zero, suc, ◌+◌, ◌-◌, ◌%◌, ◌^◌, Bool, true, false, not, ◌&&◌, Option, none, some, List, [], ◌∷◌,
  ◌++◌, ltb, leb, ◌==◌, if◌then◌else◌, update, Status, success, failure, Result, ok, err, enomem,
  eexist, etimedout,
}
use elliptics.Key.{Sign, negative, nil, positive}
use elliptics.Packet.{Cmd, has_flag, set_flag, tid_of, more, destroy}
use elliptics.Tree
use elliptics.Tree.{Tree, RbTree, inorder, link, remove}

unfoldable pub trans_cmp : ℕ → ℕ → Sign
trans_cmp old new = if ltb new old then positive else if ltb old new then negative else nil

-- One call of a transaction's `complete`, with the header that it is handed.
pub record Call : Type 0 where
  pub who : ℕ
  pub cmd : Cmd

-- `linked` is `trans_entry.rb_parent_color`, `time` the deadline's seconds; `calls` holds the calls
-- of `complete` so far, the latest first, `null_calls` counts those with no state and no header,
-- and `freed` holds the addresses handed to `free`.
pub record Net : Type 0 where
  pub trans_root : Tree
  pub trans_list : List ℕ
  pub trans : ℕ → ℕ
  pub refcnt : ℕ → ℕ
  pub linked : ℕ → Bool
  pub time : ℕ → ℕ
  pub wait_ts : ℕ → ℕ
  pub complete : ℕ → Bool
  pub cmd : ℕ → Cmd
  pub calls : List Call
  pub freed : List ℕ
  pub need_exit : Bool
  pub stall : ℕ
  pub null_calls : ℕ

-- `list_del_init`
unfoldable pub list_del : ℕ → Net → Net
list_del p s = record s { trans_list = remove p s.trans_list }

unfoldable pub trans_get : ℕ → Net → Net
trans_get p s = record s { refcnt = update s.refcnt p (s.refcnt p + 1) }

-- The caller gets its own reference on what is found.
unfoldable pub trans_search : ℕ → Net → Option ℕ × Net
unfolding trans_get
trans_search tid s = elim (Tree.search trans_cmp s.trans s.trans_root tid) [
  | none ↦ (none, s)
  | some p ↦ (some p, trans_get p s)
]

abbrev pub complete_call : ℕ → Cmd → Net → Net
complete_call p c s =
    if s.complete p then record s { calls = record { who = p; cmd = c } ∷ s.calls } else s

module _ (rb : RbTree) where
  unfoldable pub trans_insert_nolock : ℕ → Net → Result Net
  trans_insert_nolock p s = elim (link trans_cmp s.trans s.trans_root p) [
    | none ↦ err eexist
    | some t ↦ ok (record s { trans_root = rb.insert_color t; linked = update s.linked p true })
  ]

  unfoldable pub trans_remove_nolock : ℕ → Net → Net
  trans_remove_nolock p s =
      if s.linked p
      then record s { trans_root = rb.erase p s.trans_root; linked = update s.linked p false }
      else s

  unfoldable pub trans_remove : ℕ → Net → Net
  unfolding trans_remove_nolock list_del
  trans_remove p s = list_del p (trans_remove_nolock p s)

  -- A destroyed transaction leaves both the list and the tree, has its last call, which carries
  -- DNET_FLAGS_DESTROY, and is freed.
  unfoldable pub trans_destroy : ℕ → Net → Net
  unfolding trans_remove list_del
  trans_destroy p s =
      let s1 = list_del p s in
      let s2 = if s1.linked p then trans_remove p s1 else s1 in
      let c = record (s2.cmd p) { flags = set_flag (s2.cmd p).flags destroy } in
      let s3 =
        if s2.complete p then complete_call p c (record s2 { cmd = update s2.cmd p c }) else s2 in
      record s3 { freed = p ∷ s3.freed }

  unfoldable pub trans_put : ℕ → Net → Net
  unfolding trans_destroy
  trans_put p s =
      let s' = record s { refcnt = update s.refcnt p (s.refcnt p - 1) } in
      if s'.refcnt p == 0 then trans_destroy p s' else s'

-- The deadline is `now` and the wait of the transaction, or of the node where that is 0; the
-- transaction goes to the end of the list.
unfoldable pub trans_timestamp : (now node_wait : ℕ) → ℕ → Net → Net
trans_timestamp now node_wait p s =
    let wait = if s.wait_ts p == 0 then node_wait else s.wait_ts p in
    record s { time = update s.time p (now + wait); trans_list = remove p s.trans_list ++ p ∷ [] }

module _ (rb : RbTree) (now node_wait : ℕ) where
  -- `queued` is what `dnet_io_req_queue` returns.
  unfoldable pub trans_send : (queued : Status) → ℕ → Net → Status × Net
  unfolding trans_get trans_insert_nolock trans_timestamp trans_remove trans_put
  trans_send queued p s0 =
      let s = trans_get p s0 in
      elim (trans_insert_nolock rb p s) [
        | err e ↦ (failure e, trans_put rb p s)
        | ok s1 ↦
            let s2 = trans_timestamp now node_wait p s1 in
            elim queued [
              | failure e ↦ (failure e, trans_put rb p (trans_remove rb p s2))
              | success ↦ (success, trans_put rb p s2)
            ]
      ]

  -- What `dnet_trans_alloc_send_state` hands over: `struct dnet_trans_control`.
  unfoldable pub trans_alloc : ℕ → (tid wait : ℕ) → Bool → Cmd → Net → Net
  trans_alloc p tid wait has_complete c s = record s {
    trans = update s.trans p tid;
    refcnt = update s.refcnt p 1;
    linked = update s.linked p false;
    time = update s.time p 0;
    wait_ts = update s.wait_ts p wait;
    complete = update s.complete p has_complete;
    cmd = update s.cmd p (record c { trans = tid });
  }

  -- `fresh` is what `malloc` returns, `tid` the node's counter after `atomic_inc`. Where there is
  -- no memory, `complete` is called with no state and no header.
  unfoldable pub trans_alloc_send_state :
      (fresh : Option ℕ) (queued : Status) (tid wait : ℕ) → Bool → Cmd → Net → Status × Net
  unfolding trans_alloc trans_send trans_put
  trans_alloc_send_state none queued tid wait has_complete c s =
      (failure enomem, if has_complete then record s { null_calls = s.null_calls + 1 } else s)
  trans_alloc_send_state (some p) queued tid wait has_complete c s =
      let r = trans_send queued p (trans_alloc p tid wait has_complete c s) in
      elim r.0 [ success ↦ r | failure e ↦ (failure e, trans_put rb p r.1) ]

  -- The reply branch of `dnet_process_recv`, with its two tests of DNET_FLAGS_MORE made one. A last
  -- reply takes the transaction out of the tree and drops the tree's reference.
  unfoldable pub reply_last : Cmd → ℕ → Net → Net
  reply_last c p s =
      let s1 = complete_call p c (list_del p (trans_remove_nolock rb p s)) in
      let s2 = trans_put rb p s1 in trans_put rb p (record s2 { cmd = update s2.cmd p c })

  -- A reply that others follow puts the transaction back at the end of the list.
  unfoldable pub reply_more : Cmd → ℕ → Net → Net
  reply_more c p s =
      let s1 = list_del p (trans_timestamp now node_wait p s) in
      let s2 = trans_put rb p (complete_call p c s1) in trans_timestamp now node_wait p s2

  abbrev reply_found : Cmd → Option ℕ → Net → Net
  reply_found c none s = s
  reply_found c (some p) s = if has_flag c.flags more then reply_more c p s else reply_last c p s

  unfoldable pub process_reply : Cmd → Net → Net
  process_reply c s = let (found, s') = trans_search (tid_of c.trans) s in reply_found c found s'

module _ (rb : RbTree) (now : ℕ) where
  -- The loop of `dnet_trans_iterate_move_transaction` over what is left of the list. A transaction
  -- that is moved goes to the front of the caller's list `head`.
  unfoldable pub iterate_move : (head : List ℕ) → List ℕ → Net → List ℕ × Net
  unfolding trans_remove_nolock list_del
  iterate_move head [] s = (head, s)
  iterate_move head (p ∷ ps) s =
      let rest = iterate_move (p ∷ head) ps (list_del p (trans_remove_nolock rb p s)) in
      if leb now (s.time p) && not s.need_exit then (head, s) else rest

  unfoldable pub trans_iterate_move_transaction : (head : List ℕ) → Net → List ℕ × Net
  unfolding iterate_move
  trans_iterate_move_transaction head s = iterate_move head s.trans_list s

-- The header that a timed out transaction's callback is handed.
abbrev pub timed_out : (etimedout_status : ℕ) → Cmd → Cmd
timed_out status c = record c { size = 0; flags = 0; status = status }

module _ (rb : RbTree) where
  -- `status` is -ETIMEDOUT as an `int`'s bit pattern.
  unfoldable pub trans_clean_list : (status : ℕ) → List ℕ → Net → Net
  unfolding trans_put
  trans_clean_list status [] s = s
  trans_clean_list status (p ∷ ps) s =
      let s1 = record s { cmd = update s.cmd p (timed_out status (s.cmd p)) } in
      trans_clean_list status ps (trans_put rb p (complete_call p (s1.cmd p) s1))

  -- The loop of `dnet_state_clean`, on fuel: the first of the tree, until it is empty. Each
  -- transaction is put twice, for the reference just taken and for the tree's.
  unfoldable pub state_clean : ℕ → Net → Net
  unfolding trans_get trans_remove_nolock list_del trans_put
  state_clean zero s = s
  state_clean (suc fuel) s = elim (inorder s.trans_root) [
    | [] ↦ s
    | p ∷ _ ↦
        let s1 = list_del p (trans_remove_nolock rb p (trans_get p s)) in
        state_clean fuel (trans_put rb p (trans_put rb p s1))
  ]
