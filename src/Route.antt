-- ===== src/Route.antt =====
-- library/node.c: the route table. A group has the keys of all its nodes, sorted; a key is owned by
-- the node with the largest key that is not larger, the keys in a circle.
pub mod Search
pub mod Ring
pub mod Table
pub mod Sorted
pub mod Mix
pub mod Winners
use elliptics.Prelude.{
  ℕ, zero, suc, ◌+◌, ◌-◌, ◌/◌, Bool, true, false, not, ◌&&◌, ◌||◌, Option, none, some, List, [],
  ◌∷◌, ◌++◌, ltb, leb, ◌==◌, if◌then◌else◌, Status, success, failure, Result, ok, err, enomem,
  eexist, enxio, length, any, filter, get_elem?, map,
}
use mathlib.Core.Option
use elliptics.Key.{Sign, negative, nil, positive, RawId, DnetId, id_cmp_str}
use elliptics.Key.Order.{is_nil}

-- `struct dnet_state_id`. An idc is named by its address; `st` is `idc->st`.
pub record StateId : Type 0 where
  pub raw : RawId
  pub idc : ℕ
  pub st : ℕ

-- `state_list` holds the addresses of the connections of the group.
pub record Group : Type 0 where
  pub group_id : ℕ
  pub refcnt : ℕ
  pub state_list : List ℕ
  pub ids : List StateId

-- The groups of a node, the idc of each connection, and the node's own connection.
pub record Node : Type 0 where
  pub group_list : List Group
  pub storage_state_list : List ℕ
  pub idc_of : ℕ → Option ℕ
  pub st : ℕ

-- `qsort` by `dnet_idc_compare`; equal keys keep their order here.
unfoldable pub insert_sorted : StateId → List StateId → List StateId
insert_sorted x [] = x ∷ []
insert_sorted x (y ∷ ys) = elim (id_cmp_str x.raw y.raw) [
  | positive ↦ y ∷ insert_sorted x ys
  | _ ↦ x ∷ y ∷ ys
]

unfoldable pub sort : List StateId → List StateId
unfolding insert_sorted
sort [] = []
sort (x ∷ xs) = insert_sorted x (sort xs)

-- `bsearch` in a sorted array: whether some element has the key.
unfoldable pub bsearch : RawId → List StateId → Bool
bsearch key = any λ s. is_nil (id_cmp_str key s.raw)

-- The loop of `__dnet_idc_search` on fuel. `lo` is the source's `low + 1`, so that it starts at 0.
-- The result is the index before `high`, plus 1, or the place of an equal key, plus 1.
unfoldable pub idc_search_loop : ℕ → List StateId → RawId → (lo high : ℕ) → Option ℕ
idc_search_loop zero ids id lo high = none
idc_search_loop (suc fuel) ids id lo high =
    let i = lo + (high + 1 - lo) / 2 - 1 in
    let above = idc_search_loop fuel ids id (i + 1) high in
    let below = idc_search_loop fuel ids id lo i in
    if ltb lo high
    then elim (get_elem? ids i) [
      | none ↦ none
      | some sid ↦ elim (id_cmp_str sid.raw id) [
        | negative ↦ above
        | positive ↦ below
        | nil ↦ some (i + 1)
      ]
    ]
    else some high

-- -1 turns into the last index; `none` where there are no keys and the source's index stays -1.
unfoldable pub idc_search : List StateId → RawId → Option ℕ
unfolding idc_search_loop
idc_search ids id = elim (idc_search_loop (length ids + 1) ids id 0 (length ids)) [
  | none ↦ none
  | some found ↦
      if found == 0
      then (if length ids == 0 then none else some (length ids - 1))
      else some (found - 1)
]

unfoldable pub group_search : List Group → ℕ → Option Group
group_search [] group_id = none
group_search (g ∷ gs) group_id = if g.group_id == group_id then some g else group_search gs group_id

abbrev pub state_id_at : List StateId → Option ℕ → Option StateId
state_id_at ids none = none
state_id_at ids (some i) = get_elem? ids i

-- Where a known group has no keys, the source gives an address outside of its array; none stands
-- for that here.
unfoldable pub state_search_id : Node → DnetId → Option StateId
state_search_id n id = elim (group_search n.group_list id.group_id) [
  | none ↦ none
  | some g ↦ state_id_at g.ids (idc_search g.ids id.id)
]

-- `dnet_state_search_nolock`: its second search for the group has found one only if the first did.
unfoldable pub state_search_nolock : Node → DnetId → Option ℕ
unfolding state_search_id
state_search_nolock n id = Option.map (λ (s : StateId). s.st) (state_search_id n id)

-- The node's own connection counts as none.
unfoldable pub state_get_first : Node → DnetId → Option ℕ
unfolding state_search_nolock
state_get_first n id = elim (state_search_nolock n id) [
  | none ↦ none
  | some st ↦ if st == n.st then none else some st
]

-- The key that starts the range of `id`, and the next one. Where a known group has no keys,
-- the source reads outside of its array; -ENXIO stands for that here.
unfoldable pub search_range_nolock : Node → DnetId → Result (RawId × RawId)
search_range_nolock n id = elim (group_search n.group_list id.group_id) [
  | none ↦ err enxio
  | some g ↦ elim (idc_search g.ids id.id) [
    | none ↦ err enxio
    | some pos ↦
        let next = if leb (length g.ids) (pos + 1) then 0 else pos + 1 in
        elim (get_elem? g.ids pos) [
          | none ↦ err enxio
          | some start ↦ elim (get_elem? g.ids next) [
            | none ↦ err enxio
            | some end ↦ ok (start.raw, end.raw)
          ]
        ]
  ]
]

-- The keys of one idc taken out; the rest is sorted again.
unfoldable pub remove_ids : (idc : ℕ) → List StateId → List StateId
unfolding sort
remove_ids idc ids = sort (filter (λ s. not (s.idc == idc)) ids)

-- The keys of a new idc that the group does not have yet, in the order of the request.
unfoldable pub new_ids : List StateId → List StateId → List StateId
unfolding bsearch
new_ids ids old = filter (λ s. not (bsearch s.raw old)) ids

-- The group of a number replaced, or taken off the list where nothing refers to it any more.
unfoldable pub put_group : Group → List Group → List Group
put_group g [] = []
put_group g (h ∷ hs) =
    if h.group_id == g.group_id then (if g.refcnt == 0 then hs else g ∷ hs) else h ∷ put_group g hs

-- `dnet_group_put`, on the group as it is now.
abbrev pub group_put : Group → List Group → List Group
group_put g = put_group (record g { refcnt = g.refcnt - 1 })

abbrev pub empty_group : ℕ → Group
empty_group id = record { group_id = id; refcnt = 1; state_list = []; ids = [] }

-- The group of a new idc, with its reference: an old one, or a new one at the end of the list.
unfoldable pub group_of : (group_alloc : Bool) → List Group → ℕ → Option (Group × List Group)
group_of group_alloc gs id = elim (group_search gs id) [
  | some g ↦ (let g' = record g { refcnt = g.refcnt + 1 } in some (g', put_group g' gs))
  | none ↦ if group_alloc then some (empty_group id, gs ++ empty_group id ∷ []) else none
]

-- What the environment gives to `dnet_idc_create`: the address of the idc's memory, whether a group
-- and its array have memory, and what `dnet_setup_control_nolock` returns.
pub record Env : Type 0 where
  pub idc : Option ℕ
  pub group_alloc : Bool
  pub realloc : Bool
  pub setup : Status

abbrev pub set_idc : (ℕ → Option ℕ) → ℕ → Option ℕ → ℕ → Option ℕ
set_idc f st v q = if q == st then v else f q

abbrev pub delete : ℕ → List ℕ → List ℕ
delete st = filter (λ q. not (q == st))

-- The keys that `dnet_idc_create` adds to a group, with their idc.
abbrev pub idc_ids : (idc st : ℕ) → List RawId → List StateId
idc_ids idc st = map λ raw. record { raw = raw; idc = idc; st = st }

-- The group with new keys and a new connection.
abbrev pub joined : (st : ℕ) → (new : List StateId) → Group → Group
joined st new g = record g { ids = sort (g.ids ++ new); state_list = g.state_list ++ st ∷ [] }

-- What follows once there are keys to add. On a failed setup the keys, the connection's places in
-- both lists and the reference on the group are taken back.
unfoldable pub idc_join : Status → (idc st : ℕ) → List StateId → Group → Node → Status × Node
idc_join success idc st new g n = (
  success,
  record n {
    group_list = put_group (joined st new g) n.group_list;
    storage_state_list = n.storage_state_list ++ st ∷ [];
    idc_of = set_idc n.idc_of st (some idc);
  },
)
idc_join (failure e) idc st new g n = (
  failure e,
  record n {
    group_list = group_put (record g { ids = remove_ids idc (joined st new g).ids }) n.group_list;
    idc_of = set_idc n.idc_of st none;
  },
)

-- The part under the lock once the group is known.
unfoldable pub idc_add : Env → (idc st : ℕ) → List RawId → Group → Node → Status × Node
unfolding idc_join
idc_add env idc st raws g n =
    if not env.realloc
    then (failure enomem, record n { group_list = group_put (record g { ids = [] }) n.group_list })
    else elim (new_ids (idc_ids idc st raws) g.ids) [
      | [] ↦ (failure eexist, record n { group_list = group_put g n.group_list })
      | x ∷ xs ↦ idc_join env.setup idc st (x ∷ xs) g n
    ]

abbrev pub with_group :
    Env → (idc st : ℕ) → List RawId → Node → Option (Group × List Group) → Status × Node
with_group env idc st raws n none = (failure enomem, n)
with_group env idc st raws n (some (g, gs)) =
    idc_add env idc st raws g (record n { group_list = gs })

unfoldable pub idc_create : Env → (st group_id : ℕ) → List RawId → Node → Status × Node
idc_create env st group_id raws n = elim env.idc [
  | none ↦ (failure enomem, n)
  | some idc ↦ with_group env idc st raws n (group_of env.group_alloc n.group_list group_id)
]

-- `group_id` is the number of `idc->group`.
unfoldable pub idc_destroy_nolock : (st group_id : ℕ) → Node → Node
idc_destroy_nolock st group_id n = elim (n.idc_of st) [
  | none ↦ n
  | some idc ↦ elim (group_search n.group_list group_id) [
    | none ↦ n
    | some g ↦ record n {
      group_list = group_put (record g { ids = remove_ids idc g.ids }) n.group_list;
      idc_of = set_idc n.idc_of st none;
    }
  ]
]

abbrev pub without_state : ℕ → Group → Group
without_state st g = record g { state_list = delete st g.state_list }

-- `dnet_state_remove_nolock`: the connection leaves the group's list, the node's list and the route
-- table.
unfoldable pub state_remove_nolock : (st group_id : ℕ) → Node → Node
state_remove_nolock st group_id n = idc_destroy_nolock st group_id (record n {
  group_list = map (without_state st) n.group_list;
  storage_state_list = delete st n.storage_state_list;
})
