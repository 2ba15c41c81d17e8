-- ===== src/Route/Table.antt =====
-- The keys of a group stay sorted, and a connection's keys come and go with it.
use elliptics.Prelude.{
  ℕ, ◌≡◌, refl, ◌∙◌, ◌≢◌, ◌||◌, ◌&&◌, inl, inr, Bool, false, not, some, List, [], ◌∷◌, ◌++◌, arith,
  ◌==◌, All, All-append, filter, any, zero, suc, get_elem?, Bool-cases,
}
use elliptics.Key.{negative, nil, RawId, id_cmp_str}
use elliptics.Key.Order.{id_cmp_str-IsOrder}
use elliptics.Tree.Laws.{Sign-cases}
use elliptics.Route.{StateId, insert_sorted, sort, bsearch, new_ids, remove_ids, Group, joined}
use elliptics.Route.Search.{IsSorted}
open id_cmp_str-IsOrder use {same, eq_of_nil, turn, trans}

-- The order of the keys, along the list.
abbrev pub Larger : RawId → List StateId → Type 0
Larger k = All (λ s. id_cmp_str k s.raw ≡ negative)

abbrev pub IsRising : List StateId → Type 0
IsRising [] = Unit
IsRising (x ∷ xs) = Larger x.raw xs × IsRising xs

-- No entry of the list has the key.
abbrev pub Lacks : RawId → List StateId → Type 0
Lacks k = All (λ s. id_cmp_str k s.raw ≢ nil)

abbrev pub AllDiffer : List StateId → Type 0
AllDiffer [] = Unit
AllDiffer (x ∷ xs) = Lacks x.raw xs × AllDiffer xs

Larger-trans :
    (j k : RawId) (xs : List StateId) → id_cmp_str j k ≡ negative → Larger k xs → Larger j xs
Larger-trans j k [] h a = tt
Larger-trans j k (x ∷ xs) h a = (trans j k x.raw h a.0, Larger-trans j k xs h a.1)

module _ (P : StateId → Type 0) where
  All-insert : (x : StateId) (xs : List StateId) → P x → All P xs → All P (insert_sorted x xs)
  unfolding insert_sorted
  All-insert x [] p h = (p, tt)
  All-insert x (y ∷ ys) p h = elim (Sign-cases (id_cmp_str x.raw y.raw)) [
    | inl e ↦ rw (e, insert_sorted) (p, h)
    | inr (inl e) ↦ rw (e, insert_sorted) (p, h)
    | inr (inr e) ↦ rw (e, insert_sorted) (h.0, All-insert x ys p h.1)
  ]

  All-sort : (xs : List StateId) → All P xs → All P (sort xs)
  unfolding sort
  All-sort [] h = tt
  All-sort (x ∷ xs) h = All-insert x (sort xs) h.0 (All-sort xs h.1)

  All-filter : (p : StateId → Bool) (xs : List StateId) → All P xs → All P (filter p xs)
  All-filter p [] h = tt
  All-filter p (x ∷ xs) h = elim (Bool-cases (p x)) [
    | inl e ↦ rw e (h.0, All-filter p xs h.1)
    | inr e ↦ rw e (All-filter p xs h.1)
  ]

insert-IsRising :
    (x : StateId) (xs : List StateId) → Lacks x.raw xs → IsRising xs → IsRising (insert_sorted x xs)
unfolding insert_sorted
insert-IsRising x [] l h = (tt, tt)
insert-IsRising x (y ∷ ys) l h = elim (Sign-cases (id_cmp_str x.raw y.raw)) [
  | inl e ↦ rw (e, insert_sorted) ((e, Larger-trans x.raw y.raw ys e h.0), h)
  | inr (inl e) ↦ absurd (l.0 e)
  | inr (inr e) ↦
      rw (e, insert_sorted)
        (
          All-insert (λ s. id_cmp_str y.raw s.raw ≡ negative) x ys
              (ground (arith, turn x.raw y.raw)) h.0,
          insert-IsRising x ys l.1 h.1,
        )
]

pub sort-IsRising : (xs : List StateId) → AllDiffer xs → IsRising (sort xs)
unfolding sort
sort-IsRising [] d = tt
sort-IsRising (x ∷ xs) d =
    insert-IsRising x (sort xs) (All-sort (λ s. id_cmp_str x.raw s.raw ≢ nil) xs d.0)
      (sort-IsRising xs d.1)

get-Larger :
    (k : RawId) (xs : List StateId) (i : ℕ) (a : StateId)
    → Larger k xs
    → get_elem? xs i ≡ some a
    → id_cmp_str k a.raw ≡ negative
get-Larger k [] i a h e = cc
get-Larger k (x ∷ xs) zero a h e = ground (arith, h.0)
get-Larger k (x ∷ xs) (suc i) a h e = get-Larger k xs i a h.1 e

-- Keys that rise from entry to entry rise over any distance.
pub IsRising-IsSorted : (xs : List StateId) → IsRising xs → IsSorted xs
IsRising-IsSorted [] h i j a b lt ei ej = cc
IsRising-IsSorted (x ∷ xs) h zero zero a b lt ei ej = absurd (omega arith)
IsRising-IsSorted (x ∷ xs) h zero (suc j) a b lt ei ej =
    ground (arith, get-Larger x.raw xs j b h.0 ej, ei)
IsRising-IsSorted (x ∷ xs) h (suc i) zero a b lt ei ej = absurd (omega arith)
IsRising-IsSorted (x ∷ xs) h (suc i) (suc j) a b lt ei ej =
    IsRising-IsSorted xs h.1 i j a b (omega arith) ei ej

Rising-AllDiffer : (xs : List StateId) → IsRising xs → AllDiffer xs
Rising-AllDiffer [] h = tt
Rising-AllDiffer (x ∷ xs) h = (lacks xs h.0, Rising-AllDiffer xs h.1)
  where
    lacks : (ys : List StateId) → Larger x.raw ys → Lacks x.raw ys
    lacks [] l = tt
    lacks (y ∷ ys) l = (λ e. cc (l.0), lacks ys l.1)

-- Every entry of the second list has a key that the first lacks.
abbrev Apart : List StateId → List StateId → Type 0
Apart xs ys = All (λ x. Lacks x.raw ys) xs

AllDiffer-append :
    (xs ys : List StateId) → AllDiffer xs → AllDiffer ys → Apart xs ys → AllDiffer (xs ++ ys)
AllDiffer-append [] ys dx dy a = dy
AllDiffer-append (x ∷ xs) ys dx dy a = (
  All-append (λ s. id_cmp_str x.raw s.raw ≢ nil) xs ys dx.0 a.0,
  AllDiffer-append xs ys dx.1 dy a.1,
)

AllDiffer-filter : (p : StateId → Bool) (xs : List StateId) → AllDiffer xs → AllDiffer (filter p xs)
AllDiffer-filter p [] d = tt
AllDiffer-filter p (x ∷ xs) d = elim (Bool-cases (p x)) [
  | inl e ↦
      rw e (All-filter (λ s. id_cmp_str x.raw s.raw ≢ nil) p xs d.0, AllDiffer-filter p xs d.1)
  | inr e ↦ rw e (AllDiffer-filter p xs d.1)
]

bsearch-Lacks : (k : RawId) (xs : List StateId) → bsearch k xs ≡ false → Lacks k xs
unfolding bsearch
bsearch-Lacks k [] h = tt
bsearch-Lacks k (x ∷ xs) h = (ground arith, bsearch-Lacks k xs (ground arith))

any-insert :
    (p : StateId → Bool) (x : StateId) (xs : List StateId)
    → any p (insert_sorted x xs) ≡ (p x || any p xs)
unfolding insert_sorted
any-insert p x [] = ground arith
any-insert p x (y ∷ ys) = ground (arith, any-insert p x ys)

any-sort : (p : StateId → Bool) (xs : List StateId) → any p (sort xs) ≡ any p xs
unfolding sort
any-sort p [] = refl
any-sort p (x ∷ xs) = ground (arith, any-insert p x (sort xs), any-sort p xs)

any-append : (p : StateId → Bool) (xs ys : List StateId) → any p (xs ++ ys) ≡ (any p xs || any p ys)
any-append p [] ys = refl
any-append p (x ∷ xs) ys = ground (arith, any-append p xs ys)

any-filter :
    (p q : StateId → Bool) (xs : List StateId) → any p (filter q xs) ≡ any (λ s. q s && p s) xs
any-filter p q [] = refl
any-filter p q (x ∷ xs) = ground (arith, any-filter p q xs)

-- Taking out the keys of an idc leaves a group's sorted keys sorted, and leaves exactly the
-- entries of other idcs.
pub remove_ids-IsRising :
    (idc : ℕ) (ids : List StateId)
    → IsRising ids
    → IsRising (remove_ids idc ids)
      × ((p : StateId → Bool)
          → any p (remove_ids idc ids) ≡ any (λ s. not (s.idc == idc) && p s) ids)
unfolding remove_ids
remove_ids-IsRising idc ids h = (
  sort-IsRising _ (AllDiffer-filter (λ s. not (s.idc == idc)) ids (Rising-AllDiffer ids h)),
  λ p.
      any-sort p (filter (λ s. not (s.idc == idc)) ids)
      ∙ any-filter p (λ s. not (s.idc == idc)) ids,
)

new-Lacks : (xs old : List StateId) → All (λ y. Lacks y.raw old) (new_ids xs old)
unfolding new_ids
new-Lacks [] old = tt
new-Lacks (x ∷ xs) old = elim (Bool-cases (bsearch x.raw old)) [
  | inl e ↦ rw (e, new_ids) (new-Lacks xs old)
  | inr e ↦ rw (e, new_ids) (bsearch-Lacks x.raw old e, new-Lacks xs old)
]

Lacks-turn :
    (x : StateId) (xs ys : List StateId)
    → All (λ y. Lacks y.raw (x ∷ xs)) ys
    → Lacks x.raw ys × All (λ y. Lacks y.raw xs) ys
Lacks-turn x xs [] h = (tt, tt)
Lacks-turn x xs (y ∷ ys) h =
    let (l, r) = Lacks-turn x xs ys h.1 in
    ((λ e. h.0.0 (ground (arith, turn x.raw y.raw)), l), (h.0.1, r))

Apart-turn : (xs ys : List StateId) → All (λ y. Lacks y.raw xs) ys → Apart xs ys
Apart-turn [] ys h = tt
Apart-turn (x ∷ xs) ys h = let (l, r) = Lacks-turn x xs ys h in (l, Apart-turn xs ys r)

-- Adding to a group's sorted keys the new ones of a request whose keys differ leaves the keys
-- sorted and adds exactly those.
pub joined-IsRising :
    (st : ℕ) (request : List StateId) (g : Group)
    → IsRising g.ids
    → AllDiffer request
    → let new = new_ids request g.ids in
      IsRising (joined st new g).ids
      × ((p : StateId → Bool) → any p (joined st new g).ids ≡ (any p g.ids || any p new))
unfolding new_ids
joined-IsRising st request g h d =
    let new = new_ids request g.ids in
    let apart = Apart-turn g.ids new (new-Lacks request g.ids) in
    (
      sort-IsRising (g.ids ++ new) (
          AllDiffer-append g.ids new (Rising-AllDiffer g.ids h)
            (AllDiffer-filter (λ s. not (bsearch s.raw g.ids)) request d) apart),
      λ p. any-sort p (g.ids ++ new) ∙ any-append p g.ids new,
    )
