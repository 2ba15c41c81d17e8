-- ===== src/Locks/Progress.antt =====
-- Which thread has a step, sleeping aside.
use elliptics.Prelude.{
  ℕ, zero, suc, ◌+◌, ◌≤◌, ◌≡◌, refl, ◌∙◌, ap, ◌≢◌, ◌⊎◌, inl, inr, Bool, true, false, Option, none,
  some, List, [], ◌∷◌, ◌++◌, arith, if◌then◌else◌, update, Bool-cases,
}
use elliptics.Key.{RawId}
use elliptics.Tree.{RbTree}
use elliptics.Locks.{Locks, oplock_take, oplock_enter}
use elliptics.Locks.Threads.{
  Phase, waiting, holding, leaving, Thread, World, Step, enter, release_last, release_shared, leave,
  count, at_entry, is_waiting, is_holding, is_leaving, Steps,
}
use elliptics.Locks.Safety.{IsSafe, stand}
use elliptics.Locks.Exclusion.{IsIdle, quiet, quiet-IsSafe, steps-IsSafe}

-- Some thread of a list is at an entry in a phase, as the list shows.
pub record Picked (f : Phase → Bool) (p : ℕ) (ts : List Thread) : Type 0 where
  pub before : List Thread
  pub key : RawId
  pub phase : Phase
  pub after : List Thread
  pub here : f phase ≡ true
  pub all : ts ≡ before ++ stand p key phase ∷ after

pick : (f : Phase → Bool) (p : ℕ) (ts : List Thread) → 1 ≤ count (at_entry f p) ts → Picked f p ts
pick f p [] h = absurd (omega arith)
pick f p (t ∷ ts) h = elim (Bool-cases (at_entry f p t)) [
  | inl e ↦ record {
    before = [];
    key = t.key;
    phase = t.phase;
    after = ts;
    here = ground arith;
    all = ap (λ (x : ℕ). record { entry = x; key = t.key; phase = t.phase } ∷ ts) (ground arith);
  }
  | inr e ↦
      (let r = pick f p ts (ground arith) in
        record {
          before = t ∷ r.before;
          key = r.key;
          phase = r.phase;
          after = r.after;
          here = r.here;
          all = ap (◌∷◌ t) r.all;
        })
]

one_of : (a b : ℕ) → a + b ≡ 1 → (1 ≤ a) ⊎ (1 ≤ b)
one_of zero b h = inr (omega arith)
one_of (suc a) b h = inl (omega arith)

holding_moves : (h : Phase) → is_holding h ≡ true → is_waiting h ≡ false
holding_moves waiting e = cc
holding_moves holding e = refl
holding_moves leaving e = refl

leaving_moves : (h : Phase) → is_leaving h ≡ true → is_waiting h ≡ false
leaving_moves waiting e = cc
leaving_moves holding e = refl
leaving_moves leaving e = refl

module _ (rb : RbTree) where
  abbrev pub HasStep : World → Type 0
  HasStep w = (w' : World) × Step rb w w'

  release :
      (s : Locks) (xs ys : List Thread) (p : ℕ) (k : RawId) (r : Option ℕ × Locks)
      → oplock_take rb k s ≡ r
      → HasStep (record { locks = s; threads = xs ++ stand p k holding ∷ ys })
  release s xs ys p k (none, s') e = (_, release_last s s' xs ys p k e)
  release s xs ys p k (some q, s') e = (_, release_shared s s' xs ys p q k e)

  -- A thread that does not wait has a step.
  unheld_step :
      (s : Locks) (xs ys : List Thread) (p : ℕ) (k : RawId) (f : Phase)
      → is_waiting f ≡ false
      → HasStep (record { locks = s; threads = xs ++ stand p k f ∷ ys })
  unheld_step s xs ys p k waiting n = cc
  unheld_step s xs ys p k holding n = release s xs ys p k (oplock_take rb k s) refl
  unheld_step s xs ys p k leaving n = (_, leave s xs ys p k)

  Picked-step :
      (s : Locks) (ts : List Thread) (f : Phase → Bool) (p : ℕ)
      → ((h : Phase) → f h ≡ true → is_waiting h ≡ false)
      → Picked f p ts
      → HasStep (record { locks = s; threads = ts })
  Picked-step s ts f p out r =
      rw r.all (unheld_step s r.before r.after p r.key r.phase (out r.phase r.here))

  module _ (s : Locks) (p : ℕ) (k : RawId) (ts : List Thread) where
    -- A thread that waits enters, or the thread that it waits for has a step.
    waiting_step :
        IsSafe (record { locks = s; threads = stand p k waiting ∷ ts })
        → HasStep (record { locks = s; threads = stand p k waiting ∷ ts })
    unfolding oplock_enter
    waiting_step safe = elim (Bool-cases (s.locked p)) [
      | inr l ↦ (_, enter s (record s { locked = update s.locked p true }) [] ts p k (ground arith))
      | inl l ↦
          elim (one_of _ _ (safe.one p safe.bound.0.0 ∙ ap (λ (b : Bool). if b then 1 else 0) l)) [
            | inl h ↦ Picked-step s _ is_holding p holding_moves (pick is_holding p _ h)
            | inr h ↦ Picked-step s _ is_leaving p leaving_moves (pick is_leaving p _ h)
          ]
    ]

    first_step :
        (f : Phase)
        → IsSafe (record { locks = s; threads = stand p k f ∷ ts })
        → HasStep (record { locks = s; threads = stand p k f ∷ ts })
    first_step waiting safe = waiting_step safe
    first_step holding safe = unheld_step s [] ts p k holding refl
    first_step leaving safe = unheld_step s [] ts p k leaving refl

  safe_step :
      (s : Locks) (ts : List Thread)
      → IsSafe (record { locks = s; threads = ts })
      → ts ≢ []
      → HasStep (record { locks = s; threads = ts })
  safe_step s [] safe n = absurd (n refl)
  safe_step s (t ∷ ts) safe n = first_step s t.entry t.key ts t.phase safe

  -- Whatever steps threads took from an idle pool, each with an entry: while there are threads,
  -- one of them has a step.
  pub threads_progress :
      (s : Locks) (w : World) → IsIdle s → Steps rb (quiet s) w → w.threads ≢ [] → HasStep w
  threads_progress s w idle steps n =
      safe_step w.locks w.threads (steps-IsSafe rb (quiet s) w steps (quiet-IsSafe s idle)) n
