-- ===== src/Process/Bulk.antt =====
-- What the bulk read returns for what its reads return.
use elliptics.Prelude.{
  ℕ, zero, suc, ◌≡◌, refl, Bool, true, false, Option, none, some, List, [], ◌∷◌, arith, ◌==◌,
  if◌then◌else◌, any, Option-cases, inl, inr,
}
use mathlib.Core.Path.{subst}
use elliptics.Tree.{RbTree}
use elliptics.Process.{Data, Handlers, Server, eperm}
use elliptics.Key.{RawId}
use elliptics.Packet.{Cmd}
use elliptics.Locks.{Locks, opunlock, oplock_search_nolock}
use elliptics.Process.Commands.{Command}
use elliptics.Process.Flags.{KeepLocks}
use elliptics.Process.Released.{OnKey, Ready, bulk-Within}
use elliptics.Process.Frame.{
  Done, Loop, process_one, bulk_loop, bulk_round, merge, bulk_start, bulk_count, bulk_end,
  bulk_relock, enter, cmd_bulk_read,
}

abbrev is_zero : ℕ → Bool
is_zero x = x == 0

-- The first of the values that is not -1, or -1.
abbrev pub first_error : List ℕ → ℕ
first_error [] = eperm
first_error (e ∷ es) = if e == eperm then first_error es else e

-- 0 where one of the values is, else the first of them that is not -1.
abbrev pub merged : List ℕ → ℕ
merged es = if any is_zero es then 0 else first_error es

abbrev fold : ℕ → List ℕ → ℕ
fold e [] = e
fold e (r ∷ rs) = fold (merge e r) rs

fold_zero : (rs : List ℕ) → fold 0 rs ≡ 0
fold_zero [] = refl
fold_zero (r ∷ rs) = ground (arith, fold_zero rs)

fold_error :
    (e : ℕ) (rs : List ℕ)
    → (e == 0) ≡ false
    → (e == eperm) ≡ false
    → fold e rs ≡ (if any is_zero rs then 0 else e)
fold_error e [] z p = refl
fold_error e (r ∷ rs) z p = ground (arith, fold_error e rs z p, fold_zero rs)

fold_start : (rs : List ℕ) → fold eperm rs ≡ merged rs
fold_start [] = refl
fold_start (r ∷ rs) = ground (arith, fold_start rs, fold_zero rs, fold_error r rs)

module _ {ℓ} {W : Type ℓ} (rb : RbTree) (ops : Handlers W) (n : Server) where
  abbrev after_read : (Done W → List ℕ) → Option (Done W) → List ℕ
  after_read f none = []
  after_read f (some r) = r.call.ret ∷ f r

  -- What the reads of the loop return, in their order.
  unfoldable pub read_results : (left : ℕ) → (ios : Data) → Loop W → List ℕ
  read_results zero ios b = []
  read_results (suc left) ios b =
      after_read (λ r. read_results left (λ i. ios (suc i)) (bulk_round rb ops n left b r))
        (process_one rb ops n true b.read_cmd ios b.world b.locks)

  -- What a bulk read's reads return.
  abbrev pub bulk_results : Cmd → Data → W → Locks → List ℕ
  bulk_results c d w s = read_results (bulk_count d) (λ i. d (suc i)) (bulk_start rb ops n c d w s)

  abbrev EndsWith : ℕ → Option (Loop W) → Type 0
  EndsWith e none = Unit
  EndsWith e (some b) = b.ret ≡ e

  loop-EndsWith :
      (left : ℕ) (ios : Data) (b : Loop W)
      → EndsWith (fold b.ret (read_results left ios b)) (bulk_loop rb ops n left ios b)
  unfolding bulk_loop read_results
  loop-EndsWith zero ios b = refl
  loop-EndsWith (suc left) ios b =
      elim (Option-cases (process_one rb ops n true b.read_cmd ios b.world b.locks)) [
        | inl e ↦ rw (e, bulk_loop, read_results) tt
        | inr (r, e) ↦
            rw (e, bulk_loop, read_results)
              (loop-EndsWith left (λ i. ios (suc i)) (bulk_round rb ops n left b r))
      ]

module _ {ℓ} {W : Type ℓ} (rb : RbTree) (ops : Handlers W) (n : Server) (s0 : Locks) (k : RawId)
    (unused : oplock_search_nolock s0 k ≡ none) where
  abbrev DoneWith : ℕ → Option (Done W) → Type 0
  DoneWith e none = Unit
  DoneWith e (some r) = r.call.ret ≡ e

  relock-DoneWith :
      (e : ℕ) (d : Data) (b : Loop W) (o : Option Locks)
      → b.ret ≡ e
      → DoneWith e (bulk_relock rb ops n d b o)
  relock-DoneWith e d b none h = tt
  relock-DoneWith e d b (some s) h = h

  end-DoneWith :
      (e : ℕ) (d : Data) (o : Option (Loop W))
      → EndsWith rb ops n e o
      → DoneWith e (bulk_end rb ops n d o)
  end-DoneWith e d none h = tt
  end-DoneWith e d (some b) h = relock-DoneWith e d b (enter rb ops n b.cmd b.locks) h

  bulk-DoneWith :
      (c : Cmd) (d : Data) (w : W) (s : Locks)
      → DoneWith (merged (bulk_results rb ops n c d w s)) (cmd_bulk_read rb ops n c d w s)
  unfolding cmd_bulk_read
  bulk-DoneWith c d w s =
      let b = bulk_start rb ops n c d w s in
      rw (← fold_start (bulk_results rb ops n c d w s))
        (end-DoneWith _ d _ (loop-EndsWith rb ops n (bulk_count d) (λ i. d (suc i)) b))

  -- Where a bulk read holds the only lock of its key, a lock entry is free and the backend and the
  -- cache do not change the key or the number of a command and do not set DNET_FLAGS_NOLOCK, it
  -- comes to an end, and returns 0 if one of its reads does, else the first value of a read that
  -- is not -1, else -1.
  pub bulk_read-merged :
      (c : Cmd) (d : Data) (w : W) (s : Locks)
      → KeepLocks ops Command.read
      → OnKey s0 k c
      → Ready s0 k (opunlock rb k s)
      → (r : Done W) × (cmd_bulk_read rb ops n c d w s ≡ some r)
        × (r.call.ret ≡ merged (bulk_results rb ops n c d w s))
  bulk_read-merged c d w s keeps o h =
      let (r, e, _, _) = bulk-Within rb ops n s0 k unused c d w s keeps o h in
      (r, e, subst (DoneWith (merged (bulk_results rb ops n c d w s))) e (bulk-DoneWith c d w s))
