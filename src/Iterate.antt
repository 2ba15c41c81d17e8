-- ===== src/Iterate.antt =====
-- library/dnet.c: iteration over the keys of a node. The checks of a request, the callback that the
-- backend runs on each record, and the command that starts, pauses, continues and cancels.
pub mod Ranges
pub mod Callback
pub mod Command
use elliptics.Prelude.{
  ℕ, zero, suc, ◌+◌, ◌*◌, Bool, true, false, not, ◌&&◌, ◌||◌, Option, none, some, List, [], ◌∷◌,
  ◌++◌, ltb, leb, ◌==◌, if◌then◌else◌, Status, success, failure, Result, ok, err, einval, enomem,
  erange, enotsup, enoexec, eintr, length, any, replicate,
}
use elliptics.Key.{Sign, negative, nil, positive, RawId, id_cmp_str, id_size}
use elliptics.Packet.{has_flag, clear_flag}
use elliptics.Iterator.{
  Action, first, start, pause, continue, cancel, last, Iterators, iterator_create, iterator_destroy,
  set_state,
}

pub record Time : Type 0 where
  pub tsec : ℕ
  pub tnsec : ℕ

unfoldable pub time_cmp : Time → Time → Sign
time_cmp a b =
    if ltb a.tsec b.tsec
    then negative
    else if ltb b.tsec a.tsec
    then positive
    else if ltb a.tnsec b.tnsec
    then negative
    else if ltb b.tnsec a.tnsec
    then positive
    else nil

-- DNET_IFLAGS_DATA and the flags behind it
abbrev pub iflag_data : ℕ
iflag_data = 1

abbrev pub iflag_key_range : ℕ
iflag_key_range = 2

abbrev pub iflag_ts_range : ℕ
iflag_ts_range = 4

-- enum dnet_iterator_types. A value beyond the enumeration stands for `itype_last`.
pub data IType : Type 0 where
  itype_first disk network itype_last : IType

pub record Range : Type 0 where
  pub key_begin : RawId
  pub key_end : RawId

-- The ranges that follow the request stand beside it; `range_num` is their number.
pub record Request : Type 0 where
  pub id : ℕ
  pub action : Action
  pub time_begin : Time
  pub time_end : Time
  pub itype : IType
  pub flags : ℕ

abbrev pub is_negative : Sign → Bool
is_negative negative = true
is_negative _ = false

abbrev pub is_positive : Sign → Bool
is_positive positive = true
is_positive _ = false

-- A key of zeros.
abbrev pub empty_key : RawId
empty_key = replicate id_size 0

abbrev pub is_zero_key : RawId → Bool
is_zero_key k = elim (id_cmp_str empty_key k) [ nil ↦ true | _ ↦ false ]

unfoldable pub some_key : List Range → Bool
some_key = any λ r. not (is_zero_key r.key_begin) || not (is_zero_key r.key_end)

unfoldable pub some_inverted : List Range → Bool
some_inverted = any λ r. is_positive (id_cmp_str r.key_begin r.key_end)

unfoldable pub check_key_range : List Range → Request → Result Request
unfolding some_key some_inverted
check_key_range ranges req =
    if has_flag req.flags iflag_key_range
    then (let req' =
          if some_key ranges
          then req
          else record req { flags = clear_flag req.flags iflag_key_range } in
        if some_inverted ranges then err erange else ok req')
    else ok req

-- `memcmp` of a `struct dnet_time` of zeros with another one, over the first `bytes` bytes. The
-- struct has 16 of them, and no bytes are always equal.
abbrev pub differs_from_empty : (bytes : ℕ) → Time → Bool
differs_from_empty bytes t = if bytes == 0 then false else not (t.tsec == 0 && t.tnsec == 0)

-- The second call of `memcmp` has the comparison inside its last argument, which is 0 as
-- `sizeof(struct dnet_time) == 0` is false; its result is taken for a truth value.
unfoldable pub check_ts_range : Request → Result Request
check_ts_range req =
    if has_flag req.flags iflag_ts_range
    then (let both_empty =
          not (differs_from_empty 16 req.time_begin) && differs_from_empty 0 req.time_end in
        let req' =
          if both_empty then record req { flags = clear_flag req.flags iflag_ts_range } else req in
        if is_positive (time_cmp req.time_begin req.time_end) then err erange else ok req')
    else ok req

-- What the backend hands to the callback for one record.
pub record Record : Type 0 where
  pub key : RawId
  pub contents : List ℕ
  pub timestamp : Time
  pub user_flags : ℕ

-- What goes to the next callback: `struct dnet_iterator_response` and the record's data, if asked
-- for.
pub record Response : Type 0 where
  pub key : RawId
  pub timestamp : Time
  pub user_flags : ℕ
  pub size : ℕ
  pub payload : List ℕ

-- The loop over the ranges.
unfoldable pub in_ranges : List Range → RawId → Bool
in_ranges ranges key =
    any
      (λ r.
        not (is_negative (id_cmp_str key r.key_begin)) && is_negative (id_cmp_str key r.key_end))
      ranges

unfoldable pub skips : List Range → Request → Record → Bool
unfolding in_ranges
skips ranges req r =
    (has_flag req.flags iflag_key_range && not (in_ranges ranges r.key))
    || (has_flag req.flags iflag_ts_range
        && (is_negative (time_cmp r.timestamp req.time_begin)
            || is_positive (time_cmp r.timestamp req.time_end)))

unfoldable pub response : Request → Record → Response
response req r = record {
  key = r.key;
  timestamp = r.timestamp;
  user_flags = r.user_flags;
  size = length r.contents;
  payload = if has_flag req.flags iflag_data then r.contents else [];
}

-- The states that the flow control reads: at first, and after each time it was woken up. `none`
-- where it still waits.
unfoldable pub flow_control : List Action → Option Status
flow_control [] = none
flow_control (pause ∷ later) = flow_control later
flow_control (cancel ∷ later) = some (failure enoexec)
flow_control (_ ∷ later) = some success

-- `record` is none where an argument is NULL, `allocated` the outcome of `malloc`, `next` that of
-- the next callback. The result has what was handed to the next callback.
unfoldable pub callback_common :
    List Range
    → Request
    → (item : Option Record) → (allocated : Bool) → (next : Response → Status)
    → (states : List Action) → Option Response × Option Status
unfolding skips response flow_control
callback_common ranges req none allocated next states = (none, some (failure einval))
callback_common ranges req (some r) allocated next states =
    if skips ranges req r
    then (none, some success)
    else if not allocated
    then (none, some (failure enomem))
    else (
      some (response req r),
      elim (next (response req r)) [ failure e ↦ some (failure e) | success ↦ flow_control states ],
    )

abbrev pub is_edge : IType → Bool
is_edge itype_first = true
is_edge itype_last = true
is_edge _ = false

-- The request as both checks leave it.
unfoldable pub check_request : List Range → Request → Result Request
check_request ranges req = elim (check_key_range ranges req) [
  | err e ↦ err e
  | ok req' ↦ check_ts_range req'
]

-- `during` is what other threads make of the registry while the backend iterates, and `backend` what
-- the backend returns for the checked request. Flags above DNET_IFLAGS_ALL are refused.
unfoldable pub iterator_start :
    (allocated : Bool)
    → (during : Iterators → Iterators) → (backend : Request → Status) → List Range
    → Request
    → Iterators
    → Status × Iterators
iterator_start allocated during backend ranges req its =
    if leb 8 req.flags || is_edge req.itype
    then (failure enotsup, its)
    else elim (check_request ranges req) [
      | err e ↦ (failure e, its)
      | ok req' ↦ elim req'.itype [
        | network ↦ elim (iterator_create allocated its).0 [
          | none ↦ (failure enomem, (iterator_create allocated its).1)
          | some it ↦ (backend req', iterator_destroy (during (iterator_create allocated its).1) it)
        ]
        | disk ↦ (failure enotsup, its)
        | _ ↦ (failure einval, its)
      ]
    ]

-- `request` is none where an argument is NULL.
unfoldable pub cmd_iterator :
    (broadcast : Status)
    → (allocated : Bool) → (during : Iterators → Iterators) → (backend : Request → Status)
    → List Range
    → (request : Option Request) → Iterators
    → Status × Iterators
cmd_iterator broadcast allocated during backend ranges none its = (failure einval, its)
cmd_iterator broadcast allocated during backend ranges (some req) its = elim req.action [
  | start ↦ iterator_start allocated during backend ranges req its
  | pause ↦ set_state broadcast its pause req.id
  | continue ↦ set_state broadcast its continue req.id
  | cancel ↦ set_state broadcast its cancel req.id
  | _ ↦ (failure einval, its)
]
