-- ===== src/Route/Ring.antt =====
-- The owner of a key and the range around it, as the searches give them.
use elliptics.Prelude.{
  ℕ, ◌+◌, ◌-◌, ◌<◌, ◌≡◌, refl, ◌≢◌, ◌⊎◌, inl, inr, some, List, arith, length, get_elem?, ok,
}
use native.Mathlib.Decide.{dec_lt, ℕ_discrete}
use elliptics.Key.{positive, RawId, DnetId, id_cmp_str}
use elliptics.Route.{
  StateId, Group, Node, idc_search_loop, idc_search, group_search, search_range_nolock,
  state_search_id, state_search_nolock,
}
use elliptics.Route.Search.{IsSorted, Found, Behind, loop-Found, get_elem?-some, not_past}

-- The entry at index `i` owns the key: it has the largest key that is not larger, or no key is
-- small enough and it is the last.
pub record IsOwner (ids : List StateId) (id : RawId) (i : ℕ) (sid : StateId) : Type 0 where
  pub at : get_elem? ids i ≡ some sid
  pub later :
      (j : ℕ) (a : StateId) → i < j → get_elem? ids j ≡ some a → id_cmp_str a.raw id ≡ positive
  pub side : (id_cmp_str sid.raw id ≢ positive) ⊎ ((i + 1 ≡ length ids) × Behind ids id 0)

module _ (ids : List StateId) (id : RawId) (sorted : IsSorted ids) where
  start_Found :
      (n : ℕ) × (idc_search_loop (length ids + 1) ids id 0 (length ids) ≡ some n)
      × Found ids id sorted n
  start_Found =
      loop-Found ids id sorted (length ids + 1) 0 (length ids) (omega arith) (omega arith)
        (omega arith) (λ i a lt e. absurd (omega arith))
        (λ i a le e. absurd (not_past ids i a le e))

  -- The search of a group with keys ends, and gives the owner of the key.
  pub search-IsOwner :
      0 < length ids
      → (i : ℕ) × (sid : StateId) × (idc_search ids id ≡ some i) × IsOwner ids id i sid
  unfolding idc_search
  search-IsOwner some_key =
      let (n, r, f) = start_Found in
      elim (ℕ_discrete n 0) [
        | yes z ↦
            let (sid, at) = get_elem?-some ids (length ids - 1) (omega arith) in
            (
              length ids - 1,
              sid,
              ground (arith, r),
              record {
                at = at;
                later = λ j a lt e. absurd (not_past ids j a (omega arith) e);
                side = inr (omega arith, λ j a le e. f.behind j a (omega arith) e);
              },
            )
        | no nz ↦
            let (sid, at) = get_elem?-some ids (n - 1) (omega (arith, f.bound)) in
            (
              n - 1,
              sid,
              ground (arith, r),
              record {
                at = at;
                later = λ j a lt e. f.behind j a (omega arith) e;
                side = inl (f.before (n - 1) sid (omega arith) at);
              },
            )
      ]

-- `id` lies between `start` and `next`: in order, or over the end of the circle, where `start` is
-- the largest key of the group and `next` the smallest.
abbrev pub Encloses : List StateId → RawId → RawId → RawId → Type 0
Encloses ids id start next =
    ((id_cmp_str start id ≢ positive) × (id_cmp_str next id ≡ positive))
    ⊎ ((a b : StateId) × (get_elem? ids 0 ≡ some a)
        × (get_elem? ids (length ids - 1) ≡ some b)
        × (next ≡ a.raw)
        × (start ≡ b.raw)
        × ((id_cmp_str start id ≢ positive) ⊎ (id_cmp_str next id ≡ positive)))

module _ (n : Node) (id : DnetId) (g : Group)
    (known : group_search n.group_list id.group_id ≡ some g) (sorted : IsSorted g.ids)
    (some_key : 0 < length g.ids) where
  -- In a known group whose keys are sorted and not empty, the range that is found for a key
  -- encloses it, over the end of the circle of keys if need be.
  pub search_range-Encloses :
      (start next : RawId) × (search_range_nolock n id ≡ ok (start, next))
      × Encloses g.ids id.id start next
  unfolding search_range_nolock
  search_range-Encloses =
      let (i, sid, r, o) = search-IsOwner g.ids id.id sorted some_key in
      let (a, front) = get_elem?-some g.ids 0 some_key in
      elim (dec_lt (i + 1) (length g.ids)) [
        | yes inside ↦
            let (b, at) = get_elem?-some g.ids (i + 1) inside in
            let low : id_cmp_str sid.raw id.id ≢ positive = inner i sid o.side inside in
            (
              sid.raw,
              b.raw,
              ground (arith, known, r, o.at, at),
              inl (low, o.later (i + 1) b (omega arith) at),
            )
        | no outside ↦ (
          sid.raw,
          a.raw,
          ground (arith, known, r, o.at, front),
          inr (a, sid, front, last_at i sid o.at outside, refl, refl, over i sid a front o.side),
        )
      ]
    where
      inner :
          (i : ℕ) (s : StateId)
          → ((id_cmp_str s.raw id.id ≢ positive) ⊎ ((i + 1 ≡ length g.ids) × Behind g.ids id.id 0))
          → i + 1 < length g.ids
          → id_cmp_str s.raw id.id ≢ positive
      inner i s (inl low) h = low
      inner i s (inr wrap) h = absurd (omega arith)

      over :
          (i : ℕ) (s a : StateId)
          → get_elem? g.ids 0 ≡ some a
          → ((id_cmp_str s.raw id.id ≢ positive) ⊎ ((i + 1 ≡ length g.ids) × Behind g.ids id.id 0))
          → (id_cmp_str s.raw id.id ≢ positive) ⊎ (id_cmp_str a.raw id.id ≡ positive)
      over i s a e (inl low) = inl low
      over i s a e (inr wrap) = inr (wrap.1 0 a (omega arith) e)

      last_at :
          (i : ℕ) (s : StateId)
          → get_elem? g.ids i ≡ some s
          → ¬ (i + 1 < length g.ids)
          → get_elem? g.ids (length g.ids - 1) ≡ some s
      last_at i s e h = elim (dec_lt i (length g.ids)) [
        | yes lt ↦ let at_end : length g.ids - 1 ≡ i = omega arith in rw at_end e
        | no nlt ↦ absurd (not_past g.ids i s (omega arith) e)
      ]

  -- In a known group whose keys are sorted and not empty, the search of a key gives the connection
  -- of its owner: the last key that is not larger, or the last key of all where every key is
  -- larger.
  pub state_search-IsOwner :
      (i : ℕ) × (sid : StateId) × (state_search_nolock n id ≡ some sid.st)
      × IsOwner g.ids id.id i sid
  unfolding state_search_nolock state_search_id
  state_search-IsOwner =
      let (i, sid, r, o) = search-IsOwner g.ids id.id sorted some_key in
      (i, sid, ground (arith, known, r, o.at), o)
