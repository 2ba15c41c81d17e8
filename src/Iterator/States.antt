-- ===== src/Iterator/States.antt =====
-- The states of iterators: which changes are allowed, and that a cancelled iterator stays so.
use elliptics.Prelude.{
  ℕ, ◌≡◌, refl, inl, inr, Bool, false, none, some, [], ◌∷◌, arith, ◌==◌, if◌then◌else◌, Status,
  success, failure, any, Option-cases, Bool-cases,
}
use mathlib.Core.Option
use elliptics.Iterator.{
  Iterator, Iterators, Action, first, start, pause, continue, cancel, last, iterator_verify_state,
  list_lookup_nolock, assign, set_state_nolock, set_state, one_name, to_state, commit, allowed,
  cancel_loop, iterator_cancel_all,
}

-- The states that an iterator of the registry can be in.
pub data IsState : Action → Type 0 where
  running : IsState start
  paused : IsState pause
  cancelled : IsState cancel

-- The changes of state that the registry allows.
pub data Step : Action → Action → Type 0 where
  pauses : Step start pause
  resumes : Step pause start
  cancels_running : Step start cancel
  cancels_paused : Step pause cancel

pub verify-Step : (from to : Action) → iterator_verify_state from to ≡ success → Step from to
unfolding iterator_verify_state
verify-Step start pause h = pauses
verify-Step start cancel h = cancels_running
verify-Step pause start h = resumes
verify-Step pause cancel h = cancels_paused
verify-Step first _ h = cc
verify-Step start _ h = cc
verify-Step pause _ h = cc
verify-Step continue _ h = cc
verify-Step cancel _ h = cc
verify-Step last _ h = cc

lookup-assign :
    (its : Iterators) (id j : ℕ) (a : Action)
    → list_lookup_nolock (assign its id a) j ≡ (
        if id == j
        then Option.map (to_state a) (list_lookup_nolock its j)
        else list_lookup_nolock its j)
unfolding list_lookup_nolock assign
lookup-assign [] id j a = ground arith
lookup-assign (it ∷ its) id j a = ground (arith, lookup-assign its id j a)

-- The state that a request asks for.
pub data Asks : Action → Action → Type 0 where
  to_start : Asks start start
  to_pause : Asks pause pause
  to_go_on : Asks continue start
  to_cancel : Asks cancel cancel

-- What `dnet_iterator_set_state` does, on every outcome: it fails and changes nothing, or it takes
-- the iterator of that number to the state asked for, by an allowed step, and leaves every other
-- one as it was.
abbrev pub Outcome : Iterators → Action → ℕ → Status × Iterators → Type 0
Outcome its a id (failure e, its') = its' ≡ its
Outcome its a id (success, its') =
    (it : Iterator) × (to : Action) × (list_lookup_nolock its id ≡ some it)
    × Asks a to
    × Step it.state to
    × ((j : ℕ)
        → list_lookup_nolock its' j
          ≡ (if id == j then some (to_state to it) else list_lookup_nolock its j))

commit-Outcome :
    (broadcast : Status) (its : Iterators) (a : Action) (id : ℕ) (it : Iterator) (to : Action)
    (s : Status)
    → Asks a to
    → list_lookup_nolock its id ≡ some it
    → allowed broadcast it.state to ≡ s
    → Outcome its a id (commit s its (assign its id to))
commit-Outcome broadcast its a id it to (failure e) asks h s = refl
commit-Outcome broadcast its a id it to success asks h s = (
  it,
  to,
  h,
  asks,
  verify-Step it.state to (ground arith),
  λ j. ground (arith, lookup-assign its id j to),
)

nolock-Outcome :
    (broadcast : Status) (its : Iterators) (a : Action) (id : ℕ)
    → Asks a (one_name a)
    → Outcome its a id (set_state_nolock broadcast its a id)
unfolding set_state_nolock
nolock-Outcome broadcast its a id asks = elim (Option-cases (list_lookup_nolock its id)) [
  | inl e ↦ rw (e, set_state_nolock) refl
  | inr (it, e) ↦
      rw (e, set_state_nolock) (commit-Outcome broadcast its a id it (one_name a) _ asks e refl)
]

-- A request to change an iterator's state fails and changes nothing, or takes the iterator of that
-- number to the state asked for, by one of the four allowed steps, and leaves every other iterator
-- as it was.
pub set_state-Outcome :
    (broadcast : Status) (its : Iterators) (a : Action) (id : ℕ)
    → Outcome its a id (set_state broadcast its a id)
unfolding set_state
set_state-Outcome broadcast its first id = refl
set_state-Outcome broadcast its last id = refl
set_state-Outcome broadcast its start id = nolock-Outcome broadcast its start id to_start
set_state-Outcome broadcast its pause id = nolock-Outcome broadcast its pause id to_pause
set_state-Outcome broadcast its continue id = nolock-Outcome broadcast its continue id to_go_on
set_state-Outcome broadcast its cancel id = nolock-Outcome broadcast its cancel id to_cancel

-- Every iterator of the registry is in one of the three states.
abbrev pub HasStates : Iterators → Type 0
HasStates its = (j : ℕ) (it : Iterator) → list_lookup_nolock its j ≡ some it → IsState it.state

cancel_found :
    (its : Iterators) (i j : ℕ) (it : Iterator) {a : Action}
    → it.state ≡ a
    → IsState a
    → list_lookup_nolock its i ≡ some it
    → list_lookup_nolock (set_state_nolock success its cancel i).1 j ≡ (
        if i == j
        then Option.map (to_state cancel) (list_lookup_nolock its j)
        else list_lookup_nolock its j)
unfolding set_state_nolock iterator_verify_state
cancel_found its i j it e running h = ground (arith, lookup-assign its i j cancel)
cancel_found its i j it e paused h = ground (arith, lookup-assign its i j cancel)
cancel_found its i j it e cancelled h = ground arith

cancel_one :
    (its : Iterators) (i j : ℕ)
    → HasStates its
    → list_lookup_nolock (set_state_nolock success its cancel i).1 j ≡ (
        if i == j
        then Option.map (to_state cancel) (list_lookup_nolock its j)
        else list_lookup_nolock its j)
cancel_one its i j h = elim (Option-cases (list_lookup_nolock its i)) [
  | inl e ↦ unfold set_state_nolock in ground arith
  | inr (it, e) ↦ cancel_found its i j it refl (h i it e) e
]

cancel_one-HasStates :
    (its : Iterators) (i : ℕ) → HasStates its → HasStates (set_state_nolock success its cancel i).1
cancel_one-HasStates its i h j it e = elim (Bool-cases (i == j)) [
  | inl same ↦ elim (Option-cases (list_lookup_nolock its j)) [
    | inl n ↦ ground (arith, cancel_one its i j h)
    | inr (old, o) ↦
        let is : it.state ≡ cancel = ground (arith, cancel_one its i j h) in rw is cancelled
  ]
  | inr other ↦ h j it (ground (arith, cancel_one its i j h))
]

-- The number of some iterator of the list.
abbrev pub listed : Iterators → ℕ → Bool
listed its j = any (λ (it : Iterator). it.id == j) its

cancel_loop-cancelled :
    (todo its : Iterators) (j : ℕ)
    → HasStates its
    → list_lookup_nolock (cancel_loop success todo its) j ≡ (
        if listed todo j
        then Option.map (to_state cancel) (list_lookup_nolock its j)
        else list_lookup_nolock its j)
unfolding cancel_loop
cancel_loop-cancelled [] its j h = refl
cancel_loop-cancelled (it ∷ todo) its j h = ground (
  arith,
  cancel_loop-cancelled todo (set_state_nolock success its cancel it.id).1 j
      (cancel_one-HasStates its it.id h),
  cancel_one its it.id j h,
)

lookup-not_listed :
    (its : Iterators) (j : ℕ) → listed its j ≡ false → list_lookup_nolock its j ≡ none
unfolding list_lookup_nolock
lookup-not_listed [] j h = refl
lookup-not_listed (it ∷ its) j h = ground (arith, lookup-not_listed its j)

-- Where every iterator is in one of the three states and waking up paused iterators works,
-- cancelling all of them leaves each in place, cancelled.
pub cancel_all-cancelled :
    (its : Iterators) (j : ℕ)
    → HasStates its
    → list_lookup_nolock (iterator_cancel_all success its) j
      ≡ Option.map (to_state cancel) (list_lookup_nolock its j)
unfolding iterator_cancel_all
cancel_all-cancelled its j h =
    ground (arith, cancel_loop-cancelled its its j h, lookup-not_listed its j)
