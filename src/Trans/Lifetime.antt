-- ===== src/Trans/Lifetime.antt =====
-- References on transactions: `dnet_trans_put` and `dnet_trans_destroy`.
use elliptics.Prelude.{update, ℕ, ◌-◌, ◌≡◌, ◌≤◌, false, ◌∷◌, arith, if◌then◌else◌}
use elliptics.Packet.{Cmd, set_flag, destroy}
use elliptics.Tree.{RbTree, remove}
use elliptics.Trans.{Net, trans_put, trans_destroy}

abbrev pub dropped : ℕ → Net → Net
dropped p s = record s { refcnt = update s.refcnt p (s.refcnt p - 1) }

module _ (rb : RbTree) (p : ℕ) (s : Net) where
  pub put_shared : 2 ≤ s.refcnt p → trans_put rb p s ≡ dropped p s
  unfolding trans_put
  put_shared h = ground arith

  pub put_last : s.refcnt p ≡ 1 → trans_put rb p s ≡ trans_destroy rb p (dropped p s)
  unfolding trans_put
  put_last h = ground arith

  -- The header of the last call of a destroyed transaction.
  abbrev pub farewell : Cmd
  farewell = record (s.cmd p) { flags = set_flag (s.cmd p).flags destroy }

  -- What a transaction outside the tree leaves behind when it is destroyed.
  pub record Gone (s' : Net) : Type 0 where
    pub root : s'.trans_root ≡ s.trans_root
    pub list : s'.trans_list ≡ remove p s.trans_list
    pub freed : s'.freed ≡ p ∷ s.freed
    pub linked : s'.linked ≡ s.linked
    pub trans : s'.trans ≡ s.trans
    pub refcnt : s'.refcnt ≡ s.refcnt
    pub calls :
        s'.calls ≡ (if s.complete p then record { who = p; cmd = farewell } ∷ s.calls else s.calls)

  pub destroy-Gone : s.linked p ≡ false → Gone (trans_destroy rb p s)
  unfolding trans_destroy
  destroy-Gone h = ground arith
