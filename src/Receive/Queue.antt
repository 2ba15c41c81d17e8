-- ===== src/Receive/Queue.antt =====
-- Which message a worker takes: the replies of one transaction are taken in their order, and by one
-- thread at a time.
use elliptics.Prelude.{
  ℕ, zero, suc, ◌+◌, ◌-◌, ◌^◌, ◌≤◌, ◌<◌, ◌≡◌, refl, ◌∙◌, ap, ◌≢◌, ◌⊎◌, inl, inr, true, false,
  Option, none, some, List, [], ◌∷◌, ◌++◌, ◌==◌, ◌&&◌, arith, if◌then◌else◌, length, set, get_elem?,
  All, Option-cases, Bool-cases,
}
use elliptics.Packet.{has_flag, tid_of, more}
use elliptics.Receive.{
  IoReq, Job, behind, unclaimed, is_reply, req_tid, claimant, may_take, take_request,
  io_process_take,
}

-- A reply of a transaction that some thread claims.
abbrev pub Blocked : List ℕ → IoReq → Type 0
Blocked claims r = (is_reply r ≡ true) × (claimant claims 0 (req_tid r) ≢ none)

get-set : (xs : List ℕ) (i v : ℕ) → i < length xs → get_elem? (set xs i v) i ≡ some v
get-set [] i v h = absurd (omega arith)
get-set (x ∷ xs) zero v h = refl
get-set (x ∷ xs) (suc i) v h = get-set xs i v (omega arith)

-- A claimant has the claim.
claimant_at :
    (cs : List ℕ) (i tid j : ℕ)
    → claimant cs i tid ≡ some j
    → (i ≤ j) × (get_elem? cs (j - i) ≡ some tid)
unfolding claimant
claimant_at [] i tid j h = cc
claimant_at (c ∷ cs) i tid j h = elim (Bool-cases (c == tid)) [
  | inl e ↦ let same : i ≡ j = ground arith in (omega arith, ground arith)
  | inr e ↦
      (let (le, at) = claimant_at cs (i + 1) tid j (ground arith) in
        let step : j - i ≡ suc (j - (i + 1)) = omega arith in (omega arith, rw step at))
]

-- A transaction's number is no free claim.
tid_bound : (x : ℕ) → x < 2 ^ 64 → tid_of x ≢ unclaimed
tid_bound x h = ground arith

-- Every message's header has a transaction number of 64 bits.
abbrev pub IsNarrow : List IoReq → Type 0
IsNarrow = All λ r. r.header.trans < 2 ^ 64

module _ (claims : List ℕ) (me : ℕ) (mine : get_elem? claims me ≡ some unclaimed) where
  -- The claims once the thread has the message.
  abbrev pub claims_with : IoReq → List ℕ
  claims_with r =
      if is_reply r && has_flag r.header.flags more then set claims me (req_tid r) else claims

  -- A thread without a claim takes a message that is no reply, or whose transaction no one claims.
  abbrev Decided : IoReq → Type 0
  Decided r =
      ((may_take claims me r ≡ none) × Blocked claims r)
      ⊎ ((may_take claims me r ≡ some (claims_with r))
          × (is_reply r ≡ true → claimant claims 0 (req_tid r) ≡ none))

  not_own :
      (r : IoReq) (j : ℕ)
      → r.header.trans < 2 ^ 64
      → claimant claims 0 (req_tid r) ≡ some j
      → (j == me) ≡ false
  not_own r j w h = elim (Bool-cases (j == me)) [
    | inl e ↦
        (let (le, at) = claimant_at claims 0 (req_tid r) j h in
          let same : j - 0 ≡ me = ground arith in
          absurd (tid_bound r.header.trans w (ground (arith, rw same at at, mine))))
    | inr e ↦ e
  ]

  decided : (r : IoReq) → r.header.trans < 2 ^ 64 → Decided r
  unfolding may_take
  decided r w = elim (Bool-cases (is_reply r)) [
    | inr n ↦ inr (ground arith, λ e. cc)
    | inl y ↦ elim (Option-cases (claimant claims 0 (req_tid r))) [
      | inl free ↦ inr (ground (arith, mine), λ e. free)
      | inr (j, e) ↦ inl (ground (arith, not_own r j w e), (y, λ n. cc))
    ]
  ]

  -- What a thread takes: the first message that is not blocked.
  pub record IsJob (queue : List IoReq) (j : Job) : Type 0 where
    pub before : List IoReq
    pub after : List IoReq
    pub split : queue ≡ before ++ j.request ∷ after
    pub rest : j.queue ≡ before ++ after
    pub blocked : All (Blocked claims) before
    pub free : is_reply j.request ≡ true → claimant claims 0 (req_tid j.request) ≡ none
    pub claimed : j.claims ≡ claims_with j.request

  abbrev pub Takes : List IoReq → Option Job → Type 0
  Takes queue none = All (Blocked claims) queue
  Takes queue (some j) = IsJob queue j

  Takes-behind :
      (r : IoReq) (rs : List IoReq) (o : Option Job)
      → Blocked claims r
      → Takes rs o
      → Takes (r ∷ rs) (behind r o)
  Takes-behind r rs none b t = (b, t)
  Takes-behind r rs (some j) b t = record {
    before = r ∷ t.before;
    after = t.after;
    split = ap (◌∷◌ r) t.split;
    rest = ap (◌∷◌ r) t.rest;
    blocked = (b, t.blocked);
    free = t.free;
    claimed = t.claimed;
  }

  request-Takes : (queue : List IoReq) → IsNarrow queue → Takes queue (take_request claims me queue)
  unfolding take_request
  request-Takes [] w = tt
  request-Takes (r ∷ rs) w = elim (decided r w.0) [
    | inl (e, b) ↦ rw (e, take_request) (Takes-behind r rs _ b (request-Takes rs w.1))
    | inr (e, f) ↦
        rw (e, take_request)
          record {
            before = [];
            after = rs;
            split = refl;
            rest = refl;
            blocked = tt;
            free = f;
            claimed = refl;
          }
  ]

  -- An earlier reply of the same transaction does not stay behind.
  in_order :
      (r : IoReq) (before : List IoReq)
      → claimant claims 0 (req_tid r) ≡ none
      → All (Blocked claims) before
      → All (λ q. req_tid q ≢ req_tid r) before
  in_order r [] f b = tt
  in_order r (q ∷ qs) f b = ((λ e. b.0.1 (ap (claimant claims 0) e ∙ f)), in_order r qs f b.1)

-- What a worker does with its queue: none of the messages is for it, each a reply of a transaction that
-- another thread claims; or it takes the first one that is not. Then a reply has no earlier one of
-- its transaction in the queue, no thread claims its transaction, and the worker claims it if more
-- replies follow.
pub data Works (claims : List ℕ) (me : ℕ) (queue : List IoReq) : Option Job → Type 0 where
  idles : All (Blocked (set claims me unclaimed)) queue → Works claims me queue none
  works :
      (before after : List IoReq) (j : Job)
      → queue ≡ before ++ j.request ∷ after
      → j.queue ≡ before ++ after
      → All (Blocked (set claims me unclaimed)) before
      → (is_reply j.request ≡ true
          → (claimant (set claims me unclaimed) 0 (req_tid j.request) ≡ none)
            × All (λ q. req_tid q ≢ req_tid j.request) before)
      → j.claims ≡ (
          if is_reply j.request && has_flag j.request.header.flags more
          then set (set claims me unclaimed) me (req_tid j.request)
          else set claims me unclaimed)
      → Works claims me queue (some j)

module _ (claims : List ℕ) (me : ℕ) (queue : List IoReq) (known : me < length claims) where
  abbrev mine : get_elem? (set claims me unclaimed) me ≡ some unclaimed
  mine = get-set claims me unclaimed known

  as_work :
      (o : Option Job) → Takes (set claims me unclaimed) me mine queue o → Works claims me queue o
  as_work none b = idles b
  as_work (some j) t =
      works t.before t.after j t.split t.rest t.blocked
        (λ y. (
          t.free y,
          in_order (set claims me unclaimed) me mine j.request t.before (t.free y) t.blocked,
        ))
        t.claimed

  -- A worker of the pool that looks for a message takes the first of the queue that is no reply of
  -- a transaction that another thread claims, or none if there is no such message; it takes a
  -- transaction's replies in their order, no other thread claims the transaction then, and it
  -- claims the transaction if more replies follow.
  pub take-Works : IsNarrow queue → Works claims me queue (io_process_take claims me queue)
  unfolding io_process_take
  take-Works w = as_work _ (request-Takes (set claims me unclaimed) me mine queue w)
