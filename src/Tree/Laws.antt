-- ===== src/Tree/Laws.antt =====
-- A search in a tree whose entries fall is a search in the list of its entries.
use elliptics.Prelude.{ℕ, ◌≡◌, refl, ◌⊎◌, inl, inr, none, List, [], ◌∷◌, ◌++◌, arith, All}
use elliptics.Key.{Sign, negative, nil, positive}
use elliptics.Key.Order.{IsOrder}
use elliptics.Tree.{Tree, leaf, node, inorder, search, find}

pub Sign-cases : (s : Sign) → (s ≡ negative) ⊎ ((s ≡ nil) ⊎ (s ≡ positive))
Sign-cases negative = inl refl
Sign-cases nil = inr (inl refl)
Sign-cases positive = inr (inr refl)

module _ {K : Type 0} {cmp : K → K → Sign} (o : IsOrder cmp) (key : ℕ → K) where
  -- Every entry of the list has a smaller key than `k`, or a larger one.
  abbrev pub Under : K → List ℕ → Type 0
  Under k = All (λ p. cmp (key p) k ≡ negative)

  abbrev pub Over : K → List ℕ → Type 0
  Over k = All (λ p. cmp (key p) k ≡ positive)

  -- Keys fall along the list.
  abbrev pub IsFalling : List ℕ → Type 0
  IsFalling [] = Unit
  IsFalling (p ∷ ps) = Under (key p) ps × IsFalling ps

  pub find-append_none :
      (xs ys : List ℕ) (k : K)
      → find cmp key xs k ≡ none
      → find cmp key (xs ++ ys) k ≡ find cmp key ys k
  unfolding find
  find-append_none [] ys k h = refl
  find-append_none (x ∷ xs) ys k h = ground (arith, find-append_none xs ys k)

  pub find-append-none :
      (xs ys : List ℕ) (k : K)
      → find cmp key ys k ≡ none
      → find cmp key (xs ++ ys) k ≡ find cmp key xs k
  unfolding find
  find-append-none [] ys k h = h
  find-append-none (x ∷ xs) ys k h = ground (arith, find-append-none xs ys k h)

  pub find-Under : (xs : List ℕ) (k : K) → Under k xs → find cmp key xs k ≡ none
  unfolding find
  find-Under [] k h = refl
  find-Under (x ∷ xs) k h = ground (arith, find-Under xs k h.1)

  pub find-Over : (xs : List ℕ) (k : K) → Over k xs → find cmp key xs k ≡ none
  unfolding find
  find-Over [] k h = refl
  find-Over (x ∷ xs) k h = ground (arith, find-Over xs k h.1)

  pub Under-trans : (xs : List ℕ) (k j : K) → Under k xs → cmp k j ≡ negative → Under j xs
  Under-trans [] k j h e = tt
  Under-trans (x ∷ xs) k j h e = (o.trans (key x) k j h.0 e, Under-trans xs k j h.1 e)

  positive_trans : (a b c : K) → cmp a b ≡ positive → cmp b c ≡ positive → cmp a c ≡ positive
  positive_trans a b c h e = ground (arith, o.turn a b, o.turn b c, o.turn c a, o.trans c b a)

  pub Over-trans : (xs : List ℕ) (k j : K) → Over k xs → cmp k j ≡ positive → Over j xs
  Over-trans [] k j h e = tt
  Over-trans (x ∷ xs) k j h e = (positive_trans (key x) k j h.0 e, Over-trans xs k j h.1 e)

  Under-append_middle :
      (xs : List ℕ) (p : ℕ) (ys : List ℕ) (k : K)
      → Under k (xs ++ p ∷ ys)
      → cmp (key p) k ≡ negative
  Under-append_middle [] p ys k h = h.0
  Under-append_middle (x ∷ xs) p ys k h = Under-append_middle xs p ys k h.1

  Under-append_left : (xs ys : List ℕ) (k : K) → Under k (xs ++ ys) → Under k xs
  Under-append_left [] ys k h = tt
  Under-append_left (x ∷ xs) ys k h = (h.0, Under-append_left xs ys k h.1)

  Falling-left : (xs ys : List ℕ) → IsFalling (xs ++ ys) → IsFalling xs
  Falling-left [] ys h = tt
  Falling-left (x ∷ xs) ys h = (Under-append_left xs ys (key x) h.0, Falling-left xs ys h.1)

  Falling-right : (xs ys : List ℕ) → IsFalling (xs ++ ys) → IsFalling ys
  Falling-right [] ys h = h
  Falling-right (x ∷ xs) ys h = Falling-right xs ys h.1

  Falling-Over : (xs : List ℕ) (p : ℕ) (ys : List ℕ) → IsFalling (xs ++ p ∷ ys) → Over (key p) xs
  Falling-Over [] p ys h = tt
  Falling-Over (x ∷ xs) p ys h = (
    ground (arith, o.turn (key p) (key x), Under-append_middle xs p ys (key x) h.0),
    Falling-Over xs p ys h.1,
  )

  -- What a node's parts know of each other.
  pub record Parts (l : List ℕ) (p : ℕ) (r : List ℕ) : Type 0 where
    pub left : IsFalling l
    pub right : IsFalling r
    pub above : Over (key p) l
    pub below : Under (key p) r

  pub parts : (l : List ℕ) (p : ℕ) (r : List ℕ) → IsFalling (l ++ p ∷ r) → Parts l p r
  parts l p r h =
      let t = Falling-right l (p ∷ r) h in
      record {
        left = Falling-left l (p ∷ r) h;
        right = t.1;
        above = Falling-Over l p r h;
        below = t.0;
      }

  pub search-find :
      (t : Tree) (k : K) → IsFalling (inorder t) → search cmp key t k ≡ find cmp key (inorder t) k
  unfolding search find
  search-find leaf k h = refl
  search-find (node l p r) k h =
      let q = parts (inorder l) p (inorder r) h in
      elim (Sign-cases (cmp (key p) k)) [
        | inl e ↦ ground (
          arith,
          search-find l k q.left,
          find-append-none (inorder l) (p ∷ inorder r) k,
          find-Under (inorder r) k (Under-trans (inorder r) (key p) k q.below e),
        )
        | inr (inl e) ↦ ground (
          arith,
          find-append_none (inorder l) (p ∷ inorder r) k,
          o.eq_of_nil (key p) k e,
          find-Over (inorder l) (key p) q.above,
        )
        | inr (inr e) ↦ ground (
          arith,
          search-find r k q.right,
          find-append_none (inorder l) (p ∷ inorder r) k,
          find-Over (inorder l) k (Over-trans (inorder l) (key p) k q.above e),
        )
      ]
