-- ===== src/Route/Mix.antt =====
-- library/dnet_common.c: dnet_mix_states, the order in which a session's groups are asked.
use elliptics.Prelude.{
  ℕ, zero, suc, ◌+◌, ◌-◌, Bool, not, Option, none, some, List, [], ◌∷◌, map, leb, if◌then◌else◌,
  length, take, get_elem?, Result, ok, err, enxio, enomem,
}
use elliptics.Key.{DnetId}
use elliptics.Route.{Node, state_get_first}

-- `struct dnet_weight`; no weight is below 0.
pub record Weight : Type 0 where
  pub weight : ℕ
  pub group_id : ℕ

abbrev pub weight_sum : List Weight → ℕ
weight_sum [] = 0
weight_sum (w ∷ ws) = w.weight + weight_sum ws

-- The loop of `dnet_weight_get_winner` from the position i on, which falls back on the last one.
unfoldable pub winner_from : (i pos : ℕ) → List Weight → ℕ
winner_from i pos [] = i - 1
winner_from i pos (w ∷ ws) = if leb pos w.weight then i else winner_from (i + 1) (pos - w.weight) ws

-- `dnet_weight_get_winner`, `draw` for the random part of the sum.
unfoldable pub weight_get_winner : (draw : ℕ → ℕ) → List Weight → (num : ℕ) → ℕ
weight_get_winner draw ws num = winner_from 0 (draw (weight_sum (take num ws))) (take num ws)

-- `memmove` from behind a position to it: the last weight stays where it is.
unfoldable pub shift : (pos : ℕ) → List Weight → List Weight
shift pos [] = []
shift zero (w ∷ []) = w ∷ []
shift zero (w ∷ v ∷ ws) = v ∷ shift zero (v ∷ ws)
shift (suc pos) (w ∷ ws) = w ∷ shift pos ws

-- Winner after winner; `num` weights are left, and `draws` is by how many.
unfoldable pub winners : (draws : ℕ → ℕ → ℕ) → (num : ℕ) → List Weight → List Weight
winners draws zero ws = []
winners draws (suc num) ws =
    let pos = weight_get_winner (draws (suc num)) ws (suc num) in
    let rest = winners draws num (shift pos ws) in
    elim (get_elem? ws pos) [ none ↦ rest | some w ↦ w ∷ rest ]

abbrev pub group_id_of : Weight → ℕ
group_id_of w = w.group_id

abbrev pub drawn :
    (qsort : List Weight → List Weight) → (draws : ℕ → ℕ → ℕ) → List Weight → Result (List ℕ)
drawn qsort draws [] = err enxio
drawn qsort draws (w ∷ ws) = ok (map group_id_of (winners draws (length (w ∷ ws)) (qsort (w ∷ ws))))

-- `rand` by the index of the group.
abbrev pub random_weights : (rand : ℕ → ℕ) → (i : ℕ) → List ℕ → List Weight
random_weights rand i [] = []
random_weights rand i (g ∷ gs) =
    record { weight = rand i; group_id = g } ∷ random_weights rand (i + 1) gs

abbrev pub weigh : (weight : ℕ → ℕ) → Option ℕ → ℕ → List Weight → List Weight
weigh weight none g ws = ws
weigh weight (some st) g ws = record { weight = weight st; group_id = g } ∷ ws

-- The groups that have another server than this node for the key.
abbrev pub state_weights : Node → (weight : ℕ → ℕ) → DnetId → List ℕ → List Weight
state_weights n weight id [] = []
state_weights n weight id (g ∷ gs) =
    weigh weight (state_get_first n (record id { group_id = g })) g (state_weights n weight id gs)

pub record Mixing : Type 0 where
  pub randomize_states : Bool
  pub mix_states : Bool
  pub memory : Bool
  pub rand : ℕ → ℕ
  pub weight : ℕ → ℕ
  pub draws : ℕ → ℕ → ℕ
  pub qsort : List Weight → List Weight

abbrev pub mix_by : Mixing → Node → Option DnetId → List ℕ → Result (List ℕ)
mix_by m n none groups = ok groups
mix_by m n (some id) groups =
    if not m.mix_states
    then ok groups
    else drawn m.qsort m.draws (state_weights n m.weight id groups)

-- `dnet_mix_states`: the groups of a session, in an order, or an error.
unfoldable pub mix : Mixing → Node → Option DnetId → List ℕ → Result (List ℕ)
mix m n id [] = err enxio
mix m n id (g ∷ gs) =
    if not m.memory
    then err enomem
    else if m.randomize_states
    then drawn m.qsort m.draws (random_weights m.rand 0 (g ∷ gs))
    else mix_by m n id (g ∷ gs)
