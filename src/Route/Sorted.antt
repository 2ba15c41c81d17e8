-- ===== src/Route/Sorted.antt =====
-- Every group of a node stays sorted, whichever connections come and go.
use mathlib.Core.Path.{subst}
use elliptics.Prelude.{
  ℕ, ◌≡◌, refl, inl, inr, Bool, Option, none, some, List, [], ◌∷◌, arith, ◌==◌, All, All-append,
  Bool-cases, Option-cases, map, Status, success, failure, eexist,
}
use elliptics.Key.{RawId}
use elliptics.Route.{
  StateId, Group, Node, Env, put_group, group_put, group_of, group_search, idc_ids, idc_add,
  idc_join, idc_create, idc_destroy_nolock, state_remove_nolock, without_state, joined, new_ids,
  remove_ids, empty_group,
}
use elliptics.Route.Table.{IsRising, AllDiffer, remove_ids-IsRising, joined-IsRising}

abbrev pub Sorted : Group → Type 0
Sorted g = IsRising g.ids

abbrev pub AllSorted : Node → Type 0
AllSorted n = All Sorted n.group_list

put-AllSorted :
    (g : Group) (gs : List Group) → Sorted g → All Sorted gs → All Sorted (put_group g gs)
unfolding put_group
put-AllSorted g [] s h = tt
put-AllSorted g (x ∷ xs) s h = elim (Bool-cases (x.group_id == g.group_id)) [
  | inl e ↦ elim (Bool-cases (g.refcnt == 0)) [
    | inl z ↦ rw (e, put_group) (rw z h.1)
    | inr z ↦ rw (e, put_group) (rw z (s, h.1))
  ]
  | inr e ↦ rw (e, put_group) (h.0, put-AllSorted g xs s h.1)
]

search-Sorted :
    (gs : List Group) (id : ℕ) (g : Group) → All Sorted gs → group_search gs id ≡ some g → Sorted g
unfolding group_search
search-Sorted [] id g h e = cc
search-Sorted (x ∷ xs) id g h e = elim (Bool-cases (x.group_id == id)) [
  | inl y ↦ let is : x ≡ g = ground arith in subst Sorted is h.0
  | inr y ↦ search-Sorted xs id g h.1 (ground arith)
]

abbrev OptSorted : Option (Group × List Group) → Type 0
OptSorted none = Unit
OptSorted (some (g, gs)) = Sorted g × All Sorted gs

of-OptSorted :
    (alloc : Bool) (gs : List Group) (id : ℕ) → All Sorted gs → OptSorted (group_of alloc gs id)
unfolding group_of
of-OptSorted alloc gs id h = elim (Option-cases (group_search gs id)) [
  | inl e ↦ elim (Bool-cases alloc) [
    | inl a ↦ rw (e, group_of) (rw a (tt, All-append Sorted gs (empty_group id ∷ []) h (tt, tt)))
    | inr a ↦ rw (e, group_of) (rw a tt)
  ]
  | inr (g, e) ↦ rw (e, group_of) (let s = search-Sorted gs id g h e in (s, put-AllSorted _ gs s h))
]

module _ (env : Env) (idc st : ℕ) (raws : List RawId) (d : AllDiffer (idc_ids idc st raws)) where
  join-AllSorted :
      (setup : Status) (g : Group) (n : Node)
      → Sorted g
      → AllSorted n
      → AllSorted (idc_join setup idc st (new_ids (idc_ids idc st raws) g.ids) g n).1
  unfolding idc_join
  join-AllSorted success g n s h =
      put-AllSorted _ n.group_list (joined-IsRising st (idc_ids idc st raws) g s d).0 h
  join-AllSorted (failure e) g n s h =
      put-AllSorted _ n.group_list
        (remove_ids-IsRising idc _ (joined-IsRising st (idc_ids idc st raws) g s d).0).0 h

  add-AllSorted :
      (g : Group) (n : Node) → Sorted g → AllSorted n → AllSorted (idc_add env idc st raws g n).1
  unfolding idc_add
  add-AllSorted g n s h = elim (Bool-cases env.realloc) [
    | inr e ↦ rw (e, idc_add) (put-AllSorted _ n.group_list tt h)
    | inl e ↦ rw (e, idc_add) (go (new_ids (idc_ids idc st raws) g.ids) refl)
  ]
    where
      go :
          (new : List StateId)
          → new_ids (idc_ids idc st raws) g.ids ≡ new
          → AllSorted
              (elim new as (λ (x : List StateId). Status × Node) [
                | [] ↦ (failure eexist, record n { group_list = group_put g n.group_list })
                | x ∷ xs ↦ idc_join env.setup idc st (x ∷ xs) g n
              ]).1
      go [] e = put-AllSorted _ n.group_list s h
      go (x ∷ xs) e = rw e at (join-AllSorted env.setup g n s h)

  with-AllSorted :
      (n : Node) (o : Option (Group × List Group))
      → AllSorted n
      → OptSorted o
      → AllSorted (elliptics.Route.with_group env idc st raws n o).1
  with-AllSorted n none h s = h
  with-AllSorted n (some (g, gs)) h s = add-AllSorted g _ s.0 s.1

-- Whatever a new connection's keys are, as long as they differ from each other, and whatever fails
-- on the way, the keys of every group stay strictly sorted.
pub create-AllSorted :
    (env : Env) (st group_id : ℕ) (raws : List RawId) (n : Node)
    → ((idc : ℕ) → AllDiffer (idc_ids idc st raws))
    → AllSorted n
    → AllSorted (idc_create env st group_id raws n).1
unfolding idc_create
create-AllSorted env st group_id raws n d h = elim (Option-cases env.idc) [
  | inl e ↦ rw (e, idc_create) h
  | inr (idc, e) ↦
      rw (e, idc_create)
        (with-AllSorted env idc st raws (d idc) n _ h
          (of-OptSorted env.group_alloc n.group_list group_id h))
]

without-AllSorted :
    (st : ℕ) (gs : List Group) → All Sorted gs → All Sorted (map (without_state st) gs)
without-AllSorted st [] h = tt
without-AllSorted st (g ∷ gs) h = (h.0, without-AllSorted st gs h.1)

destroy-AllSorted :
    (st group_id : ℕ) (n : Node) → AllSorted n → AllSorted (idc_destroy_nolock st group_id n)
unfolding idc_destroy_nolock
destroy-AllSorted st group_id n h = elim (Option-cases (n.idc_of st)) [
  | inl e ↦ rw (e, idc_destroy_nolock) h
  | inr (idc, e) ↦ elim (Option-cases (group_search n.group_list group_id)) [
    | inl f ↦ rw (e, idc_destroy_nolock) (rw (f, idc_destroy_nolock) h)
    | inr (g, f) ↦
        rw (e, f, idc_destroy_nolock)
          (put-AllSorted _ n.group_list
            (remove_ids-IsRising idc g.ids (search-Sorted n.group_list group_id g h f)).0 h)
  ]
]

-- A connection that goes leaves the keys of every group strictly sorted.
pub remove-AllSorted :
    (st group_id : ℕ) (n : Node) → AllSorted n → AllSorted (state_remove_nolock st group_id n)
unfolding state_remove_nolock
remove-AllSorted st group_id n h =
    destroy-AllSorted st group_id _ (without-AllSorted st n.group_list h)
