-- ===== src/Notify/Refines.antt =====
-- Any use of the table of waiting clients does what the same use of one list of them does.
use elliptics.Prelude.{
  ℕ, ◌+◌, ◌≡◌, refl, sym, ◌∙◌, ap, inl, inr, ◌⊎◌, Bool, true, false, Option, none, some, List, [],
  ◌∷◌, ◌++◌, arith, ◌==◌, update, Status, success, failure, enxio, enomem, Bool-cases, ==→eq,
}
use mathlib.Core.Path.{subst}
use mathlib.Core.List.{append-nil}
use elliptics.Key.{DnetId}
use elliptics.Key.Order.{id_cmp-IsOrder}
use elliptics.Packet.{Cmd}
use elliptics.Notify.{
  NotifyEntry, NotifyTable, Message, Outcome, notify_hash, same_id, notify_each, update_notify,
  take_first, notify_remove, remove_found, notify_add, message_to, last_reply, state_put,
}
use elliptics.Notify.Waiting.{
  Waiting, waiting_for, Agrees, Found, First, take_first-First, filter-append, same_id-hash,
}

-- What a client or a server does to the table.
pub data Op : Type 0 where
  add : Bool → ℕ → Cmd → Op
  remove : Cmd → Op
  news : Cmd → List ℕ → Op

-- What one of them returns and sends.
pub record Answer : Type 0 where
  pub ret : Status
  pub messages : List Message

module _ (own : ℕ → Bool) (memory : Bool) (send : ℕ → Cmd → List ℕ → Status) where
  abbrev pub outcome_answer : Outcome → Answer
  outcome_answer o = record { ret = o.ret; messages = o.messages }

  unfoldable pub step : Op → NotifyTable → Answer × NotifyTable
  step (add mem st c) t =
      let r = notify_add mem st c t in (record { ret = r.0; messages = [] }, r.1)
  step (remove c) t = let o = notify_remove own memory send c t in (outcome_answer o, o.table)
  step (news c notice) t =
      (record { ret = success; messages = update_notify own memory send c notice t }, t)

  abbrev remove_client : Waiting → Option (NotifyEntry × List NotifyEntry) → Answer × Waiting
  remove_client s none = (record { ret = failure enxio; messages = [] }, s)
  remove_client s (some (e, rest)) = (
    record {
      ret = (last_reply own memory send e).0;
      messages = message_to e.state (last_reply own memory send e).1;
    },
    record { clients = rest; refcnt = state_put e.state s.refcnt },
  )

  -- The same on the list.
  unfoldable pub list_step : Op → Waiting → Answer × Waiting
  list_step (add true st c) s = (
    record { ret = success; messages = [] },
    record {
      clients = s.clients ++ record { cmd = c; state = st } ∷ [];
      refcnt = update s.refcnt st (s.refcnt st + 1);
    },
  )
  list_step (add false st c) s = (record { ret = failure enomem; messages = [] }, s)
  list_step (remove c) s = remove_client s (take_first c.id s.clients)
  list_step (news c notice) s =
      (record { ret = success; messages = notify_each own memory send c.id notice s.clients }, s)

  notify_each_waiting :
      (id : DnetId) (notice : List ℕ) (es : List NotifyEntry)
      → notify_each own memory send id notice es
        ≡ notify_each own memory send id notice (waiting_for id es)
  unfolding notify_each
  notify_each_waiting id notice [] = refl
  notify_each_waiting id notice (e ∷ es) = elim (Bool-cases (same_id id e)) [
    | inl h ↦ ground (arith, notify_each_waiting id notice es)
    | inr h ↦ ground (arith, notify_each_waiting id notice es)
  ]

  add-Agrees :
      (st : ℕ) (c : Cmd) (t : NotifyTable) (s : Waiting)
      → Agrees t s
      → Agrees (step (add true st c) t).1 (list_step (add true st c) s).1
  unfolding step list_step notify_add
  add-Agrees st c t s h = record {
    clients = λ id.
        added id (Bool-cases (same_id id (record { cmd = c; state = st })))
          (Bool-cases (notify_hash id t.hash_size == notify_hash c.id t.hash_size));
    refcnt = λ p. ground (arith, h.refcnt p, h.refcnt st);
  }
    where
      e : NotifyEntry
      e = record { cmd = c; state = st }

      here : ℕ
      here = notify_hash c.id t.hash_size

      added :
          (id : DnetId)
          → ((same_id id e ≡ true) ⊎ (same_id id e ≡ false))
          → (((notify_hash id t.hash_size == here) ≡ true)
              ⊎ ((notify_hash id t.hash_size == here) ≡ false))
          → waiting_for id
              (update t.buckets here (t.buckets here ++ e ∷ []) (notify_hash id t.hash_size))
            ≡ waiting_for id (s.clients ++ e ∷ [])
      added id x (inl k) = ground (
        arith,
        k,
        h.clients id,
        filter-append id (t.buckets here) (e ∷ []),
        filter-append id s.clients (e ∷ []),
        ==→eq (notify_hash id t.hash_size) here k,
      )
      added id (inl x) (inr k) = absurd (ground (arith, same_id-hash id e t.hash_size x))
      added id (inr x) (inr k) = ground (
        arith,
        k,
        x,
        h.clients id,
        filter-append id s.clients (e ∷ []),
        append-nil (waiting_for id s.clients),
      )

  module _ (c : Cmd) (t : NotifyTable) (s : Waiting) (h : Agrees t s) (e e' : NotifyEntry)
      (rest rest' : List NotifyEntry)
      (f : Found c.id (t.buckets (notify_hash c.id t.hash_size)) e rest)
      (f' : Found c.id s.clients e' rest') where
    abbrev here : ℕ
    here = notify_hash c.id t.hash_size

    same_client : e ≡ e'
    same_client = ground (arith, h.clients c.id, f.here, f'.here)

    same_rest : waiting_for c.id rest ≡ waiting_for c.id rest'
    same_rest = ground (arith, h.clients c.id, f.here, f'.here)

    for_key : (id : DnetId) → same_id id e ≡ true → id ≡ c.id
    for_key id k =
        id_cmp-IsOrder.eq_of_nil id e.cmd.id (ground (arith, k))
        ∙ sym (id_cmp-IsOrder.eq_of_nil c.id e.cmd.id (ground (arith, f.same)))

    removed :
        (id : DnetId)
        → ((same_id id e ≡ true) ⊎ (same_id id e ≡ false))
        → (((notify_hash id t.hash_size == here) ≡ true)
            ⊎ ((notify_hash id t.hash_size == here) ≡ false))
        → waiting_for id (update t.buckets here rest (notify_hash id t.hash_size))
          ≡ waiting_for id rest'
    removed id (inl x) (inl k) = rw k (
        subst (λ (i : DnetId). waiting_for i rest ≡ waiting_for i rest') (sym (for_key id x))
          same_rest)
    removed id (inl x) (inr k) =
        absurd (ground (arith, k, ap (λ (i : DnetId). notify_hash i t.hash_size) (for_key id x)))
    removed id (inr x) (inl k) = ground (
      arith,
      k,
      h.clients id,
      f.others id x,
      f'.others id (subst (λ (a : NotifyEntry). same_id id a ≡ false) same_client x),
      ==→eq (notify_hash id t.hash_size) here k,
    )
    removed id (inr x) (inr k) = ground (
      arith,
      k,
      h.clients id,
      f'.others id (subst (λ (a : NotifyEntry). same_id id a ≡ false) same_client x),
    )

    removed-Agrees :
        Agrees
          (remove_found own memory send here t (some (e, rest))).table
          (remove_client s (some (e', rest'))).1
    removed-Agrees = record {
      clients = λ id.
          removed id (Bool-cases (same_id id e)) (Bool-cases (notify_hash id t.hash_size == here));
      refcnt = λ p. ground (arith, h.refcnt p, h.refcnt e.state, same_client);
    }

  found-Same :
      (c : Cmd) (t : NotifyTable) (s : Waiting)
      → Agrees t s
      → (o o' : Option (NotifyEntry × List NotifyEntry))
      → First c.id (t.buckets (notify_hash c.id t.hash_size)) o
      → First c.id s.clients o'
      → let r = remove_found own memory send (notify_hash c.id t.hash_size) t o in
        (outcome_answer r ≡ (remove_client s o').0) × Agrees r.table (remove_client s o').1
  found-Same c t s h none none f f' = (refl, h)
  found-Same c t s h none (some (e, rest)) f f' =
      absurd (ground (arith, h.clients c.id, f, f'.here))
  found-Same c t s h (some (e, rest)) none f f' =
      absurd (ground (arith, h.clients c.id, f', f.here))
  found-Same c t s h (some (e, rest)) (some (e', rest')) f f' = (
    ap
        (λ (x : NotifyEntry). record {
          ret = (last_reply own memory send x).0;
          messages = message_to x.state (last_reply own memory send x).1;
        })
        (same_client c t s h e e' rest rest' f f'),
    removed-Agrees c t s h e e' rest rest' f f',
  )

  step-Same :
      (op : Op) (t : NotifyTable) (s : Waiting)
      → Agrees t s
      → ((step op t).0 ≡ (list_step op s).0) × Agrees (step op t).1 (list_step op s).1
  unfolding step list_step notify_add notify_remove update_notify
  step-Same (add true st c) t s h = (refl, add-Agrees st c t s h)
  step-Same (add false st c) t s h = (refl, h)
  step-Same (remove c) t s h =
      found-Same c t s h (take_first c.id (t.buckets (notify_hash c.id t.hash_size)))
        (take_first c.id s.clients) (take_first-First c.id _) (take_first-First c.id s.clients)
  step-Same (news c notice) t s h = (
    ap (λ (m : List Message). record { ret = success; messages = m })
        (notify_each_waiting c.id notice (t.buckets (notify_hash c.id t.hash_size))
          ∙ (ap (notify_each own memory send c.id notice) (h.clients c.id)
              ∙ sym (notify_each_waiting c.id notice s.clients))),
    h,
  )

  unfoldable pub run : List Op → NotifyTable → List Answer × NotifyTable
  run [] t = ([], t)
  run (op ∷ ops) t = let (a, t1) = step op t in let (rest, t2) = run ops t1 in (a ∷ rest, t2)

  unfoldable pub list_run : List Op → Waiting → List Answer × Waiting
  list_run [] s = ([], s)
  list_run (op ∷ ops) s =
      let (a, s1) = list_step op s in let (rest, s2) = list_run ops s1 in (a ∷ rest, s2)

  -- Whatever is added, removed and notified, in whatever order, a hash table of waiting clients
  -- that agrees with a list of clients returns and sends just what the list does, in its order,
  -- and agrees with the list afterwards, references included.
  pub run_refines :
      (ops : List Op) (t : NotifyTable) (s : Waiting)
      → Agrees t s
      → ((run ops t).0 ≡ (list_run ops s).0) × Agrees (run ops t).1 (list_run ops s).1
  unfolding run list_run
  run_refines [] t s h = (refl, h)
  run_refines (op ∷ ops) t s h =
      let (same, h1) = step-Same op t s h in
      let (same_rest, h2) = run_refines ops _ _ h1 in (ground (arith, same, same_rest), h2)
