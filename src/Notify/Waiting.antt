-- ===== src/Notify/Waiting.antt =====
-- The table of waiting clients against one list of them, in the order in which they came.
use elliptics.Prelude.{
  ℕ, ◌≡◌, refl, sym, ◌∙◌, ap, inl, inr, true, false, Option, none, some, List, [], ◌∷◌, ◌++◌, arith,
  filter, Bool-cases,
}
use elliptics.Key.{DnetId, id_cmp}
use elliptics.Key.Order.{is_nil, id_cmp-IsOrder}
use elliptics.Notify.{NotifyEntry, NotifyTable, notify_hash, same_id, take_first}

-- The clients that wait for anything, the first to come first.
pub record Waiting : Type 0 where
  pub clients : List NotifyEntry
  pub refcnt : ℕ → ℕ

abbrev pub waiting_for : DnetId → List NotifyEntry → List NotifyEntry
waiting_for id = filter (same_id id)

-- For each key the table and the list have the same clients, in the same order.
pub record Agrees (t : NotifyTable) (s : Waiting) : Type 0 where
  pub clients :
      (id : DnetId)
      → waiting_for id (t.buckets (notify_hash id t.hash_size)) ≡ waiting_for id s.clients
  pub refcnt : (st : ℕ) → t.refcnt st ≡ s.refcnt st

pub same_id-hash :
    (id : DnetId) (e : NotifyEntry) (size : ℕ)
    → same_id id e ≡ true
    → notify_hash id size ≡ notify_hash e.cmd.id size
same_id-hash id e size h =
    ap (λ (i : DnetId). notify_hash i size)
      (id_cmp-IsOrder.eq_of_nil id e.cmd.id (ground (arith, h)))

pub filter-append :
    (id : DnetId) (xs ys : List NotifyEntry)
    → waiting_for id (xs ++ ys) ≡ waiting_for id xs ++ waiting_for id ys
filter-append id [] ys = refl
filter-append id (x ∷ xs) ys = ground (arith, filter-append id xs ys)

same_id_turn : (id : DnetId) (e : NotifyEntry) → is_nil (id_cmp e.cmd.id id) ≡ same_id id e
same_id_turn id e = ground (arith, id_cmp-IsOrder.turn id e.cmd.id)

-- What `take_first` finds and leaves.
pub record Found (id : DnetId) (es : List NotifyEntry) (e : NotifyEntry) (rest : List NotifyEntry)
    : Type 0 where
  pub same : same_id id e ≡ true
  pub here : waiting_for id es ≡ e ∷ waiting_for id rest
  pub others : (j : DnetId) → same_id j e ≡ false → waiting_for j es ≡ waiting_for j rest

abbrev pub First : DnetId → List NotifyEntry → Option (NotifyEntry × List NotifyEntry) → Type 0
First id es none = waiting_for id es ≡ []
First id es (some (e, rest)) = Found id es e rest

pub take_first-First : (id : DnetId) (es : List NotifyEntry) → First id es (take_first id es)
unfolding take_first
take_first-First id [] = refl
take_first-First id (e ∷ es) = elim (Bool-cases (is_nil (id_cmp e.cmd.id id))) [
  | inl h ↦
      rw (h, take_first)
        (record {
          same = sym (same_id_turn id e) ∙ h;
          here = ground (arith, same_id_turn id e);
          others = λ j k. ground arith;
        })
  | inr h ↦
      rw (h, take_first)
        (later (sym (same_id_turn id e) ∙ h) (take_first id es) (take_first-First id es))
]
  where
    later :
        same_id id e ≡ false
        → (o : Option (NotifyEntry × List NotifyEntry)) → First id es o
        → First id (e ∷ es) (elim o [ none ↦ none | some (x, xs) ↦ some (x, e ∷ xs) ])
    later other none f = ground (arith, other, f)
    later other (some (x, xs)) f = record {
      same = f.same;
      here = ground (arith, other, f.here);
      others = λ j k. ground (arith, f.others j k);
    }
