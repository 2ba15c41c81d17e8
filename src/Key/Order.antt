-- ===== src/Key/Order.antt =====
-- What a comparison has to satisfy for searches and sorting, and that the comparisons of
-- include/elliptics/interface.h satisfy it.
use elliptics.Prelude.{◌≡◌, refl, Bool, true, false, [], ◌∷◌, arith}
use elliptics.Key.{Sign, negative, nil, positive, DnetId, RawId, id_cmp_str, id_cmp}

abbrev pub flip : Sign → Sign
flip negative = positive
flip nil = nil
flip positive = negative

abbrev pub is_nil : Sign → Bool
is_nil nil = true
is_nil _ = false

-- A total order, given by the sign of a comparison.
pub record IsOrder {ℓ} {K : Type ℓ} (cmp : K → K → Sign) : Type ℓ where
  pub same : (a : K) → cmp a a ≡ nil
  pub eq_of_nil : (a b : K) → cmp a b ≡ nil → a ≡ b
  pub turn : (a b : K) → cmp b a ≡ flip (cmp a b)
  pub trans : (a b c : K) → cmp a b ≡ negative → cmp b c ≡ negative → cmp a c ≡ negative

id_cmp_str_refl : (a : RawId) → id_cmp_str a a ≡ nil
unfolding id_cmp_str
id_cmp_str_refl [] = refl
id_cmp_str_refl (x ∷ xs) = ground (arith, id_cmp_str_refl xs)

id_cmp_str_eq : (a b : RawId) → id_cmp_str a b ≡ nil → a ≡ b
unfolding id_cmp_str
id_cmp_str_eq [] [] h = refl
id_cmp_str_eq [] (y ∷ ys) h = cc
id_cmp_str_eq (x ∷ xs) [] h = cc
id_cmp_str_eq (x ∷ xs) (y ∷ ys) h = ground (arith, id_cmp_str_eq xs ys)

id_cmp_str-flip : (a b : RawId) → id_cmp_str b a ≡ flip (id_cmp_str a b)
unfolding id_cmp_str
id_cmp_str-flip [] [] = refl
id_cmp_str-flip [] (y ∷ ys) = refl
id_cmp_str-flip (x ∷ xs) [] = refl
id_cmp_str-flip (x ∷ xs) (y ∷ ys) = ground (arith, id_cmp_str-flip xs ys)

id_cmp_str_trans :
    (a b c : RawId)
    → id_cmp_str a b ≡ negative
    → id_cmp_str b c ≡ negative
    → id_cmp_str a c ≡ negative
unfolding id_cmp_str
id_cmp_str_trans [] [] c h k = cc
id_cmp_str_trans [] (y ∷ ys) [] h k = cc
id_cmp_str_trans [] (y ∷ ys) (z ∷ zs) h k = refl
id_cmp_str_trans (x ∷ xs) [] c h k = cc
id_cmp_str_trans (x ∷ xs) (y ∷ ys) [] h k = cc
id_cmp_str_trans (x ∷ xs) (y ∷ ys) (z ∷ zs) h k =
    ground (arith, id_cmp_str_trans xs ys zs, id_cmp_str_eq xs ys, id_cmp_str_eq ys zs)

-- The order of keys is a total order: a comparison gives 0 for equal keys only, changes its sign
-- when the keys change places, and is transitive.
pub id_cmp_str-IsOrder : IsOrder id_cmp_str
id_cmp_str-IsOrder = record {
  same = id_cmp_str_refl;
  eq_of_nil = id_cmp_str_eq;
  turn = id_cmp_str-flip;
  trans = id_cmp_str_trans;
}

id_eq : (a b : DnetId) → a.group_id ≡ b.group_id → a.id ≡ b.id → a ≡ b
id_eq a b g h = λ i. record { id = h i; group_id = g i }

-- The comparison of keys with their group is a total order: it gives 0 for equal ones only,
-- changes its sign when they change places, and is transitive.
pub id_cmp-IsOrder : IsOrder id_cmp
unfolding id_cmp
id_cmp-IsOrder = record {
  same = λ a. ground (arith, id_cmp_str_refl a.id);
  eq_of_nil = λ a b h. ground (arith, id_cmp_str_eq a.id b.id, id_eq a b);
  turn = λ a b. ground (arith, id_cmp_str-flip a.id b.id);
  trans = λ a b c h k. ground (arith, id_cmp_str_trans a.id b.id c.id);
}
