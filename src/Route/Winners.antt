-- ===== src/Route/Winners.antt =====
-- What dnet_mix_states gives: each group once.
use elliptics.Prelude.{
  ℕ, zero, suc, ◌+◌, ◌-◌, ◌<◌, ◌≤◌, ◌≡◌, refl, sym, ◌∙◌, ap, arith, inl, inr, Bool, true, false,
  Option, none, some, List, [], ◌∷◌, map, length, take, get_elem?, Result, ok, err, enxio,
  length-take, Bool-cases,
}
use mathlib.Core.List.{Perm, foldr}
use mathlib.Core.Path.{subst}
use native.Mathlib.Nat.{ℕ_set}
use mathlib.Core.List.Perm
use elliptics.Key.{DnetId}
use elliptics.Route.{Node, state_get_first}
use elliptics.Route.Mix.{
  Weight, weight_sum, winner_from, weight_get_winner, shift, winners, group_id_of, drawn,
  random_weights, weigh, state_weights, Mixing, mix_by, mix,
}

winner_from-bound : (i pos : ℕ) (ws : List Weight) → winner_from i pos ws ≤ i + length ws - 1
unfolding winner_from
winner_from-bound i pos [] = omega arith
winner_from-bound i pos (w ∷ ws) = ground (arith, winner_from-bound (i + 1) (pos - w.weight) ws)

shifted_down :
    (m : ℕ) (w : Weight) (ws : List Weight)
    → m ≤ length ws
    → take m (shift zero (w ∷ ws)) ≡ take m ws
unfolding shift
shifted_down zero w [] h = refl
shifted_down zero w (v ∷ ws) h = refl
shifted_down (suc m) w [] h = absurd (omega (arith, h))
shifted_down (suc m) w (v ∷ ws) h = ap (v ∷◌) (shifted_down m v ws (omega (arith, h)))

-- The weight at a position, and what is left without it.
TakenOut : ℕ → ℕ → List Weight → Type 0
TakenOut pos m ws =
    (w : Weight) × ((get_elem? ws pos ≡ some w)
      × Perm (w ∷ take m (shift pos ws)) (take (suc m) ws))

take_out : (pos m : ℕ) (ws : List Weight) → pos ≤ m → m < length ws → TakenOut pos m ws
unfolding TakenOut shift
take_out pos m [] h k = absurd (omega (arith, k))
take_out zero m (w ∷ ws) h k =
    (w, (refl, rw (shifted_down m w ws (omega (arith, k))) (Perm.refl (w ∷ take m ws))))
take_out (suc pos) zero (w ∷ ws) h k = absurd (omega (arith, h))
take_out (suc pos) (suc m) (w ∷ ws) h k =
    let (v, (e, p)) = take_out pos m ws (omega (arith, h)) (omega (arith, k)) in
    (v, (e, Perm.trans (Perm.swap w v (take m (shift pos ws))) (Perm.cons w p)))

length-shift : (pos : ℕ) (ws : List Weight) → length (shift pos ws) ≡ length ws
unfolding shift
length-shift pos [] = refl
length-shift zero (w ∷ []) = refl
length-shift zero (w ∷ v ∷ ws) = ap suc (length-shift zero (v ∷ ws))
length-shift (suc pos) (w ∷ ws) = ap suc (length-shift pos ws)

winners-perm :
    (draws : ℕ → ℕ → ℕ) (num : ℕ) (ws : List Weight)
    → num ≤ length ws
    → Perm (winners draws num ws) (take num ws)
unfolding winners TakenOut weight_get_winner
winners-perm draws zero ws h = Perm.refl []
winners-perm draws (suc num) ws h =
    let front = take (suc num) ws in
    let pos = weight_get_winner (draws (suc num)) ws (suc num) in
    let bound : pos ≤ num = ground (
      arith,
      winner_from-bound 0 (draws (suc num) (weight_sum front)) front,
      length-take (suc num) ws,
      h,
    ) in
    let (w, (e, p)) = take_out pos num ws bound (omega (arith, h)) in
    rw (winners, e)
      (Perm.trans
        (Perm.cons w
          (winners-perm draws num (shift pos ws) (omega (arith, h, length-shift pos ws))))
        p)

-- The standard's `qsort`.
unfoldable pub IsSort : (List Weight → List Weight) → Type 0
IsSort qsort = (ws : List Weight) → Perm (qsort ws) ws

length-foldr : (ws : List Weight) → foldr (λ (w : Weight) (n : ℕ). suc n) 0 ws ≡ length ws
length-foldr [] = refl
length-foldr (w ∷ ws) = ap suc (length-foldr ws)

length-perm : (ws vs : List Weight) → Perm ws vs → length ws ≡ length vs
length-perm ws vs p =
    sym (length-foldr ws)
    ∙ (Perm.foldr-eq ℕ_set (λ (w : Weight) (n : ℕ). suc n) (λ a b n. refl) p 0 ∙ length-foldr vs)

take_all : (ws : List Weight) → take (length ws) ws ≡ ws
take_all [] = refl
take_all (w ∷ ws) = ap (w ∷◌) (take_all ws)

-- What a mix of some groups gives.
pub IsMixOf : List ℕ → Result (List ℕ) → Type 0
IsMixOf groups (ok gs) = Perm gs groups × (0 < length groups)
IsMixOf groups (err e) = (e ≡ enxio) × (groups ≡ [])

drawn-IsMixOf :
    (qsort : List Weight → List Weight) (draws : ℕ → ℕ → ℕ) (ws : List Weight)
    → IsSort qsort
    → IsMixOf (map group_id_of ws) (drawn qsort draws ws)
unfolding IsSort IsMixOf Perm.map
drawn-IsMixOf qsort draws [] s = (refl, refl)
drawn-IsMixOf qsort draws (w ∷ ws) s =
    let l = w ∷ ws in
    let same : length (qsort l) ≡ length l = length-perm (qsort l) l (s l) in
    let p : Perm (winners draws (length l) (qsort l)) (qsort l) =
      subst (λ (k : ℕ). Perm (winners draws k (qsort l)) (qsort l)) same
        (subst (Perm (winners draws (length (qsort l)) (qsort l))) (take_all (qsort l))
          (winners-perm draws (length (qsort l)) (qsort l) (omega arith))) in
    (Perm.map group_id_of (Perm.trans p (s l)), omega arith)

kept : Option ℕ → ℕ → List ℕ → List ℕ
kept none g gs = gs
kept (some st) g gs = g ∷ gs

-- The groups that have another server than this node for the key, in their order.
pub reachable : Node → DnetId → List ℕ → List ℕ
reachable n id [] = []
reachable n id (g ∷ gs) =
    kept (state_get_first n (record id { group_id = g })) g (reachable n id gs)

group_id_of-weigh :
    (weight : ℕ → ℕ) (st : Option ℕ) (g : ℕ) (ws : List Weight)
    → map group_id_of (weigh weight st g ws) ≡ kept st g (map group_id_of ws)
unfolding kept
group_id_of-weigh weight none g ws = refl
group_id_of-weigh weight (some st) g ws = refl

group_id_of-state_weights :
    (n : Node) (weight : ℕ → ℕ) (id : DnetId) (gs : List ℕ)
    → map group_id_of (state_weights n weight id gs) ≡ reachable n id gs
unfolding reachable
group_id_of-state_weights n weight id [] = refl
group_id_of-state_weights n weight id (g ∷ gs) =
    let st = state_get_first n (record id { group_id = g }) in
    group_id_of-weigh weight st g (state_weights n weight id gs)
    ∙ ap (kept st g) (group_id_of-state_weights n weight id gs)

group_id_of-random_weights :
    (rand : ℕ → ℕ) (i : ℕ) (gs : List ℕ) → map group_id_of (random_weights rand i gs) ≡ gs
group_id_of-random_weights rand i [] = refl
group_id_of-random_weights rand i (g ∷ gs) = ap (g ∷◌) (group_id_of-random_weights rand (i + 1) gs)

reachable_by : Node → List ℕ → (randomize states : Bool) → Option DnetId → List ℕ
reachable_by n groups true states id = groups
reachable_by n groups false false id = groups
reachable_by n groups false true none = groups
reachable_by n groups false true (some id) = reachable n id groups

-- Whom a session may ask: all of its groups, if it does not look at their servers.
pub candidates : Mixing → Node → Option DnetId → List ℕ → List ℕ
candidates m n id groups = reachable_by n groups m.randomize_states m.mix_states id

no_candidates :
    (n : Node) (id : Option DnetId) (randomize states : Bool)
    → reachable_by n [] randomize states id ≡ []
unfolding reachable_by reachable
no_candidates n id true states = refl
no_candidates n id false false = refl
no_candidates n none false true = refl
no_candidates n (some id) false true = refl

as_it_is : (g : ℕ) (gs : List ℕ) → IsMixOf (g ∷ gs) (ok (g ∷ gs))
unfolding IsMixOf
as_it_is g gs = (Perm.refl (g ∷ gs), omega arith)

by_states :
    (m : Mixing) (n : Node) (id : Option DnetId) (g : ℕ) (gs : List ℕ)
    → IsSort m.qsort
    → IsMixOf (reachable_by n (g ∷ gs) false m.mix_states id) (mix_by m n id (g ∷ gs))
unfolding reachable_by
by_states m n none g gs s = elim (Bool-cases m.mix_states) [
  | inl x ↦ rw x (as_it_is g gs)
  | inr x ↦ rw x (as_it_is g gs)
]
by_states m n (some id) g gs s = elim (Bool-cases m.mix_states) [
  | inl x ↦ rw x (
      rw (group_id_of-state_weights n m.weight id (g ∷ gs)) at
        (drawn-IsMixOf m.qsort m.draws (state_weights n m.weight id (g ∷ gs)) s))
  | inr x ↦ rw x (as_it_is g gs)
]

-- With memory and a `qsort` that only reorders, a session asks each of the groups that it may ask
-- once, whatever the weights and the random numbers, and fails with -ENXIO if there is none.
pub mix-IsMixOf :
    (m : Mixing) (n : Node) (id : Option DnetId) (groups : List ℕ)
    → IsSort m.qsort
    → m.memory ≡ true
    → IsMixOf (candidates m n id groups) (mix m n id groups)
unfolding mix candidates IsMixOf reachable_by
mix-IsMixOf m n id [] s h = (refl, no_candidates n id m.randomize_states m.mix_states)
mix-IsMixOf m n id (g ∷ gs) s h =
    let groups = g ∷ gs in
    elim (Bool-cases m.randomize_states) [
      | inl r ↦
          let weights = random_weights m.rand 0 groups in
          rw (h, r)
            (subst (λ (l : List ℕ). IsMixOf l (drawn m.qsort m.draws weights))
              (group_id_of-random_weights m.rand 0 groups)
              (drawn-IsMixOf m.qsort m.draws weights s))
      | inr r ↦ rw (h, r) (by_states m n id g gs s)
    ]
