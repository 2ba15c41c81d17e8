-- ===== src/Iterator.antt =====
-- Server-side iterators: the registry of library/dnet_common.c.
pub mod Registry
pub mod States
use elliptics.Prelude.{
  ℕ, zero, suc, ◌+◌, ◌-◌, ◌^◌, Bool, true, false, not, ◌&&◌, ◌||◌, Option, none, some, List, [],
  ◌∷◌, ltb, leb, ◌==◌, if◌then◌else◌, Status, success, failure, Result, ok, err, einval, enoent,
  eexist, enomem, erange, enotsup, enoexec, eintr, positive_one, length, any,
}
use elliptics.Key.{Sign, negative, nil, positive, RawId, id_cmp_str}
use elliptics.Packet.{has_flag, clear_flag}

-- enum dnet_iterator_action. A value beyond the enumeration stands for `last`.
pub data Action : Type 0 where
  first start pause continue cancel last : Action

pub record Iterator : Type 0 where
  pub id : ℕ
  pub state : Action

-- The list `n->iterator_list`, its front first.
abbrev pub Iterators : Type 0
Iterators = List Iterator

unfoldable pub iterator_verify_state : (from to : Action) → Status
iterator_verify_state start pause = success
iterator_verify_state start cancel = success
iterator_verify_state pause start = success
iterator_verify_state pause cancel = success
iterator_verify_state _ _ = failure positive_one

unfoldable pub list_lookup_nolock : Iterators → ℕ → Option Iterator
list_lookup_nolock [] id = none
list_lookup_nolock (it ∷ its) id = if it.id == id then some it else list_lookup_nolock its id

-- `it->state = action` on the iterator that the lookup gives.
unfoldable pub assign : Iterators → ℕ → Action → Iterators
assign [] id a = []
assign (it ∷ its) id a = if it.id == id then record it { state = a } ∷ its else it ∷ assign its id a

abbrev pub one_name : Action → Action
one_name continue = start
one_name a = a

abbrev pub is_pause : Action → Bool
is_pause pause = true
is_pause _ = false

abbrev pub to_state : Action → Iterator → Iterator
to_state a it = record it { state = a }

-- The first of two calls that fails decides.
abbrev pub then_status : Status → Status → Status
then_status success s = s
then_status (failure e) s = failure e

-- The new value where all went well, the old one otherwise.
abbrev pub commit : Status → Iterators → Iterators → Status × Iterators
commit success old new = (success, new)
commit (failure e) old new = (failure e, old)

-- `broadcast` is what `pthread_cond_broadcast` returns; it is called for a paused iterator only.
abbrev pub allowed : (broadcast : Status) → (from to : Action) → Status
allowed broadcast from to =
    then_status (iterator_verify_state from to) (if is_pause from then broadcast else success)

unfoldable pub set_state_nolock : (broadcast : Status) → Iterators → Action → ℕ → Status × Iterators
set_state_nolock broadcast its action id = elim (list_lookup_nolock its id) [
  | none ↦ (failure enoent, its)
  | some it ↦
      commit (allowed broadcast it.state (one_name action)) its (assign its id (one_name action))
]

unfoldable pub set_state : (broadcast : Status) → Iterators → Action → ℕ → Status × Iterators
set_state broadcast its first id = (failure einval, its)
set_state broadcast its last id = (failure einval, its)
set_state broadcast its action id = set_state_nolock broadcast its action id

unfoldable pub list_insert_nolock : Iterators → Iterator → Status × Iterators
unfolding list_lookup_nolock
list_insert_nolock its it = elim (list_lookup_nolock its it.id) [
  | some _ ↦ (failure eexist, its)
  | none ↦ (success, it ∷ its)
]

-- The list without the first iterator of a number: `list_del_init` on what the lookup gives.
unfoldable pub unlink : Iterators → ℕ → Iterators
unlink [] id = []
unlink (it ∷ its) id = if it.id == id then its else it ∷ unlink its id

unfoldable pub list_remove : Iterators → ℕ → Status × Iterators
unfolding list_lookup_nolock unlink
list_remove its id = elim (list_lookup_nolock its id) [
  | some _ ↦ (success, unlink its id)
  | none ↦ (failure enoent, its)
]

-- -1ULL
abbrev pub no_id : ℕ
no_id = 2 ^ 64 - 1

-- The loop from `next` on, on fuel; `none` where the fuel ran out.
unfoldable pub next_id_from : ℕ → Iterators → ℕ → Option ℕ
unfolding list_lookup_nolock
next_id_from zero its next = none
next_id_from (suc fuel) its next =
    let rest = next_id_from fuel its (next + 1) in
    if next == no_id
    then some no_id
    else elim (list_lookup_nolock its next) [ none ↦ some next | some _ ↦ rest ]

-- One round for each iterator and one more are enough.
unfoldable pub list_next_id_nolock : Iterators → Option ℕ
unfolding next_id_from
list_next_id_nolock its = next_id_from (length its + 1) its 0

-- `allocated` says whether `dnet_iterator_alloc` had its memory, mutex and condition.
unfoldable pub iterator_create : (allocated : Bool) → Iterators → Option Iterator × Iterators
iterator_create allocated its = elim (list_next_id_nolock its) [
  | none ↦ (none, its)
  | some id ↦
      if id == no_id || not allocated
      then (none, its)
      else (let it : Iterator = record { id = id; state = start } in
          let (status, its') = list_insert_nolock its it in
          elim status [ success ↦ (some it, its') | failure _ ↦ (none, its') ])
]

unfoldable pub iterator_destroy : Iterators → Iterator → Iterators
unfolding list_remove
iterator_destroy its it = (list_remove its it.id).1

-- The loop over the list `todo` while the registry is `its`.
unfoldable pub cancel_loop : (broadcast : Status) → (todo its : Iterators) → Iterators
cancel_loop broadcast [] its = its
cancel_loop broadcast (it ∷ todo) its =
    cancel_loop broadcast todo (set_state_nolock broadcast its cancel it.id).1

unfoldable pub iterator_cancel_all : (broadcast : Status) → Iterators → Iterators
unfolding cancel_loop
iterator_cancel_all broadcast its = cancel_loop broadcast its its
