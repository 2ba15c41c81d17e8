-- ===== src/Tests/Transactions.antt =====
-- Transactions at work: a connection with two of them.
use elliptics.Prelude.{
  failure, enomem, ℕ, ◌+◌, ◌≡◌, refl, ap, true, false, ◌||◌, some, List, [], ◌∷◌, arith, ◌==◌,
  if◌then◌else◌, mem, replicate,
}
use elliptics.Packet.{Cmd, more, trans_reply}
use elliptics.Tree
use elliptics.Tree.{Tree, leaf, node, inorder, remove, RbTree}
use elliptics.Trans.{
  Net, trans_cmp, process_reply, trans_insert_nolock, trans_iterate_move_transaction, state_clean,
  trans_send,
}
use elliptics.Trans.Table.{IsTable, lookup, Inserted, insert-Inserted}
use elliptics.Trans.Reply.{reply_more-Kept, reply_last-Finished}
use elliptics.Trans.Clean.{Cleaned, clean-Cleaned}
use elliptics.Trans.Send.{Sends, send-Sends}
use elliptics.Trans.Timeout.{iterate_move_transaction-Moved}

abbrev pub spine : List ℕ → Tree
spine [] = leaf
spine (x ∷ xs) = node leaf x (spine xs)

pub inorder-spine : (xs : List ℕ) → inorder (spine xs) ≡ xs
inorder-spine [] = refl
inorder-spine (x ∷ xs) = ap (◌∷◌ x) (inorder-spine xs)

-- A tree that is never balanced.
abbrev pub unbalanced : RbTree
unbalanced = record {
  insert_color = λ t. t;
  erase = λ p t. spine (remove p (inorder t));
  inorder-insert_color = λ t. refl;
  inorder-erase = λ p t. inorder-spine (remove p (inorder t));
}

abbrev header : (flags trans : ℕ) → Cmd
header flags trans = record {
  id = record { id = replicate 64 0; group_id = 1 };
  trace_id = 0;
  status = 0;
  cmd = 5;
  flags = flags;
  trans = trans;
  size = 0;
}

-- The transactions 10 and 20 at the addresses 1 and 2; the third address is not in use.
abbrev numbers : ℕ → ℕ
numbers p = if p == 1 then 10 else if p == 2 then 20 else 30

abbrev two : Net
two = record {
  trans_root = node (node leaf 2 leaf) 1 leaf;
  trans_list = 1 ∷ 2 ∷ [];
  trans = numbers;
  refcnt = λ p. 1;
  linked = λ p. p == 1 || p == 2;
  time = λ p. if p == 1 then 50 else 150;
  wait_ts = λ p. 7;
  complete = λ p. true;
  cmd = λ p. header 1 (numbers p);
  calls = [];
  freed = [];
  need_exit = false;
  stall = 0;
  null_calls = 0;
}

two-IsTable : IsTable two
unfolding trans_cmp
two-IsTable = record { falling = ((refl, tt), (tt, tt)); marks = λ p. ground arith }

found_10 : lookup two 10 ≡ some 1
unfolding Tree.search trans_cmp
found_10 = refl

once : mem 1 (remove 1 two.trans_list) ≡ false
unfolding remove
once = refl

reply_last_example :
    (process_reply unbalanced 100 5 (header 0 (trans_reply + 10)) two).freed ≡ 1 ∷ []
reply_last_example =
    (reply_last-Finished unbalanced 100 5 (header 0 (trans_reply + 10)) two 1 found_10 once
      two-IsTable refl refl).freed

reply_more_example :
    (process_reply unbalanced 100 5 (header more (trans_reply + 10)) two).time 1 ≡ 107
reply_more_example =
    (reply_more-Kept unbalanced 100 5 (header more (trans_reply + 10)) two 1 found_10 once
      (omega arith) refl).deadline

insert_example : Inserted unbalanced 3 two two-IsTable (trans_insert_nolock unbalanced 3 two)
insert_example = insert-Inserted unbalanced 3 two two-IsTable

iterate_move_example : (trans_iterate_move_transaction unbalanced 100 [] two).0 ≡ 1 ∷ []
iterate_move_example = (iterate_move_transaction-Moved unbalanced 100 [] two two-IsTable).moved

state_clean_example : Cleaned (2 ∷ 1 ∷ []) [] (state_clean unbalanced 2 two)
state_clean_example = clean-Cleaned unbalanced 2 two two-IsTable (λ q l. refl) (omega arith)

trans_send_example :
    Sends unbalanced 100 5 3 two
      (failure enomem)
      (trans_send unbalanced 100 5 (failure enomem) 3 two)
trans_send_example =
    send-Sends unbalanced 100 5 3 two two-IsTable (omega arith) refl (failure enomem)
