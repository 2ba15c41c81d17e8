-- ===== src/Tests/Iteration.antt =====
-- Iterations and their registry on concrete values.
use elliptics.Prelude.{
  ℕ, ◌≡◌, refl, ◌↔◌, some, List, [], ◌∷◌, arith, true, success, ok, Bool-cases, inl, inr, ◌==◌,
}
use elliptics.Key.{id_cmp_str}
use elliptics.Iterator.{
  Iterator, Iterators, start, pause, list_lookup_nolock, set_state, list_next_id_nolock,
  iterator_create, iterator_destroy,
}
use elliptics.Iterator.Registry.{IsNext, IsDistinct, list_next_id_nolock-IsNext, create-destroy}
use elliptics.Iterator.States.{Outcome, IsState, running, paused, set_state-Outcome}
use elliptics.Iterate.{
  Range, Request, Record, Time, network, response, callback_common, check_key_range, iterator_start,
  some_key, some_inverted, time_cmp,
}
use elliptics.Iterate.Callback.{Selected, callback-Selected}
use elliptics.Iterate.Command.{start-registry}

-- A running iterator and a paused one.
abbrev pair : Iterators
pair = record { id = 0; state = start } ∷ record { id = 2; state = pause } ∷ []

pair-IsDistinct : IsDistinct pair
unfolding list_lookup_nolock
pair-IsDistinct = (refl, (refl, tt))

pair_states : (j : ℕ) (it : Iterator) → list_lookup_nolock pair j ≡ some it → IsState it.state
unfolding list_lookup_nolock
pair_states j it h = elim (Bool-cases (0 == j)) [
  | inl a ↦ (let e : it.state ≡ start = ground arith in rw e running)
  | inr a ↦ elim (Bool-cases (2 == j)) [
    | inl b ↦ (let e : it.state ≡ pause = ground arith in rw e paused)
    | inr b ↦ ground arith
  ]
]

set_state_example : Outcome pair start 2 (set_state success pair start 2)
set_state_example = set_state-Outcome success pair start 2

new_number_example : (id : ℕ) × (list_next_id_nolock pair ≡ some id) × IsNext pair id
new_number_example = list_next_id_nolock-IsNext pair (omega arith)

create-destroy_example :
    (it : Iterator) × (iterator_create true pair ≡ (some it, it ∷ pair))
    × (it.state ≡ start)
    × IsDistinct (it ∷ pair)
    × (iterator_destroy (it ∷ pair) it ≡ pair)
create-destroy_example = create-destroy pair (omega arith) pair-IsDistinct

abbrev seconds : ℕ → Time
seconds n = record { tsec = n; tnsec = 0 }

-- The keys from 10 to 20 and the times from 5 to 9.
abbrev asked : Request
asked = record {
  id = 0;
  action = start;
  time_begin = seconds 5;
  time_end = seconds 9;
  itype = network;
  flags = 6;
}

abbrev tens : List Range
tens = record { key_begin = 10 ∷ []; key_end = 20 ∷ [] } ∷ []

abbrev kept : Record
kept = record { key = 15 ∷ []; contents = 1 ∷ 2 ∷ []; timestamp = seconds 9; user_flags = 0 }

abbrev late : Record
late = record { key = 15 ∷ []; contents = []; timestamp = seconds 10; user_flags = 0 }

callback_example :
    ((callback_common tens asked (some kept) true (λ r. success) (start ∷ [])).0
      ≡ some (response asked kept))
    ↔ Selected tens asked kept
callback_example = callback-Selected tens asked kept (λ r. success) (start ∷ [])

late_not_Selected : ¬ Selected tens asked late
unfolding time_cmp
late_not_Selected s = (s.time refl).1 refl

asked_passes : check_key_range tens asked ≡ ok asked
unfolding check_key_range some_key some_inverted id_cmp_str
asked_passes = refl

start_example : (iterator_start true (λ l. l) (λ r. success) tens asked pair).1 ≡ pair
start_example = start-registry (λ r. success) tens asked pair (omega arith) pair-IsDistinct
