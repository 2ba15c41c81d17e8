-- ===== src/Tests/Mixing.antt =====
-- A session with three groups, and a sort of weights by insertion.
use elliptics.Prelude.{
  ◌+◌, ◌≡◌, refl, true, false, some, none, List, [], ◌∷◌, inl, inr, leb, if◌then◌else◌, Bool-cases,
  ok,
}
use mathlib.Core.List.{Perm}
use mathlib.Core.List.Perm
use elliptics.Route.Mix.{Weight, Mixing, mix, winners, weight_get_winner, winner_from, shift}
use elliptics.Route.Winners.{IsSort, IsMixOf, candidates, mix-IsMixOf}
use elliptics.Tests.Routing.{server, wanted_key}

abbrev put_in : Weight → List Weight → List Weight
put_in w [] = w ∷ []
put_in w (v ∷ vs) = let rest = put_in w vs in if leb v.weight w.weight then w ∷ v ∷ vs else v ∷ rest

abbrev by_weight : List Weight → List Weight
by_weight [] = []
by_weight (w ∷ ws) = put_in w (by_weight ws)

put_in-perm : (w : Weight) (ws : List Weight) → Perm (put_in w ws) (w ∷ ws)
put_in-perm w [] = Perm.refl (w ∷ [])
put_in-perm w (v ∷ vs) = elim (Bool-cases (leb v.weight w.weight)) [
  | inl e ↦ rw e (Perm.refl (w ∷ v ∷ vs))
  | inr e ↦ rw e (Perm.trans (Perm.cons v (put_in-perm w vs)) (Perm.swap w v vs))
]

by_weight-IsSort : IsSort by_weight
unfolding IsSort
by_weight-IsSort [] = Perm.refl []
by_weight-IsSort (w ∷ ws) =
    Perm.trans (put_in-perm w (by_weight ws)) (Perm.cons w (by_weight-IsSort ws))

abbrev randomly : Mixing
randomly = record {
  randomize_states = true;
  mix_states = false;
  memory = true;
  rand = λ i. 3 + i;
  weight = λ st. 1;
  draws = λ num sum. 5;
  qsort = by_weight;
}

mix_example :
    IsMixOf
      (candidates randomly server (some wanted_key) (1 ∷ 2 ∷ 7 ∷ []))
      (mix randomly server (some wanted_key) (1 ∷ 2 ∷ 7 ∷ []))
mix_example = mix-IsMixOf randomly server (some wanted_key) (1 ∷ 2 ∷ 7 ∷ []) by_weight-IsSort refl

by_chance : mix randomly server none (1 ∷ 2 ∷ 7 ∷ []) ≡ ok (7 ∷ 1 ∷ 2 ∷ [])
unfolding mix winners weight_get_winner winner_from shift
by_chance = refl
