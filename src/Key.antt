-- ===== src/Key.antt =====
-- include/elliptics/interface.h: keys of the storage and their order. A key is its list of bytes;
-- the source's keys all have `id_size` of them.
pub mod Order
use elliptics.Prelude.{ℕ, Bool, true, false, List, [], ◌∷◌, ltb, if◌then◌else◌}

-- The sign of an `int` that a comparison returns.
pub data Sign : Type 0 where
  negative nil positive : Sign

-- DNET_ID_SIZE
abbrev pub id_size : ℕ
id_size = 64

abbrev pub RawId : Type 0
RawId = List ℕ

pub record DnetId : Type 0 where
  pub id : RawId
  pub group_id : ℕ

-- The loop of `dnet_id_cmp_str`, one byte of each key a round. `memcmp` over two keys is the same.
-- The second and third clause do not arise: no key is shorter than another.
unfoldable pub id_cmp_str : RawId → RawId → Sign
id_cmp_str [] [] = nil
id_cmp_str [] (b ∷ bs) = negative
id_cmp_str (a ∷ as') [] = positive
id_cmp_str (a ∷ as') (b ∷ bs) =
    let rest = id_cmp_str as' bs in if ltb a b then negative else if ltb b a then positive else rest

unfoldable pub id_cmp : DnetId → DnetId → Sign
id_cmp x y =
    if ltb x.group_id y.group_id
    then negative
    else if ltb y.group_id x.group_id
    then positive
    else id_cmp_str x.id y.id
