-- ===== src/Tests/Routing.antt =====
-- The route table of a node with one group of three keys.
use elliptics.Prelude.{
  ℕ, ◌≡◌, refl, true, Option, none, some, List, [], ◌∷◌, arith, ◌==◌, success, if◌then◌else◌, ok,
}
use elliptics.Key.{DnetId, RawId, id_cmp_str}
use elliptics.Route.{
  StateId, Group, Node, Env, group_search, state_search_nolock, search_range_nolock, idc_ids,
  idc_create,
}
use elliptics.Route.Ring.{IsOwner, Encloses, state_search-IsOwner, search_range-Encloses}
use elliptics.Route.Table.{IsRising, AllDiffer, IsRising-IsSorted}
use elliptics.Route.Sorted.{AllSorted, create-AllSorted}

abbrev key : ℕ → RawId
key b = b ∷ []

abbrev entry : (b idc st : ℕ) → StateId
entry b idc st = record { raw = key b; idc = idc; st = st }

-- The idc 100 of the connection 1 has the keys 10 and 30, the idc 200 of the connection 2 the key
-- 20.
abbrev three : List StateId
three = entry 10 100 1 ∷ entry 20 200 2 ∷ entry 30 100 1 ∷ []

abbrev group : Group
group = record { group_id = 7; refcnt = 2; state_list = 1 ∷ 2 ∷ []; ids = three }

abbrev idc_of : ℕ → Option ℕ
idc_of st = if st == 1 then some 100 else if st == 2 then some 200 else none

abbrev pub server : Node
server = record {
  group_list = group ∷ [];
  storage_state_list = 1 ∷ 2 ∷ [];
  idc_of = idc_of;
  st = 0;
}

three-IsRising : IsRising three
unfolding id_cmp_str
three-IsRising = ((refl, (refl, tt)), ((refl, tt), (tt, tt)))

known : group_search server.group_list 7 ≡ some group
unfolding group_search
known = refl

abbrev pub wanted_key : DnetId
wanted_key = record { id = key 25; group_id = 7 }

state_search_example :
    (i : ℕ) × (sid : StateId) × (state_search_nolock server wanted_key ≡ some sid.st)
    × IsOwner three (key 25) i sid
state_search_example =
    state_search-IsOwner server wanted_key group known (IsRising-IsSorted three three-IsRising)
      (omega arith)

search_range_example :
    (start next : RawId) × (search_range_nolock server wanted_key ≡ ok (start, next))
    × Encloses three (key 25) start next
search_range_example =
    search_range-Encloses server wanted_key group known (IsRising-IsSorted three three-IsRising)
      (omega arith)

-- A third connection brings the keys 15 and 20, of which 20 is taken.
abbrev request : List RawId
request = key 15 ∷ key 20 ∷ []

request-AllDiffer : (idc : ℕ) → AllDiffer (idc_ids idc 3 request)
unfolding id_cmp_str
request-AllDiffer idc = (((λ e. cc), tt), (tt, tt))

abbrev env : Env
env = record { idc = some 300; group_alloc = true; realloc = true; setup = success }

create_example : AllSorted (idc_create env 3 7 request server).1
create_example = create-AllSorted env 3 7 request server request-AllDiffer (three-IsRising, tt)
