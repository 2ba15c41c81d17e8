-- ===== src/Tree/Insertion.antt =====
-- An insertion into a tree whose entries fall places one entry into the list of its entries.
use elliptics.Prelude.{
  ℕ, ◌≡◌, refl, ap, ◌⊎◌, inl, inr, Option, none, some, List, [], ◌∷◌, ◌++◌, ◌∙◌, arith, ◌==◌,
  if◌then◌else◌, true, mem,
}
use elliptics.Key.{Sign, negative, nil, positive}
use elliptics.Key.Order.{IsOrder, is_nil}
use elliptics.Tree.{Tree, leaf, node, inorder, link, find}
use elliptics.Tree.Laws.{
  Sign-cases, Under, Over, IsFalling, find-append_none, find-append-none, find-Under, find-Over,
  Under-trans, Over-trans, parts,
}

module _ {K : Type 0} {cmp : K → K → Sign} (o : IsOrder cmp) (key : ℕ → K) where
  -- Where an entry goes in a falling list.
  abbrev pub place : ℕ → List ℕ → List ℕ
  place p [] = p ∷ []
  place p (q ∷ qs) = elim (cmp (key q) (key p)) [ positive ↦ q ∷ place p qs | _ ↦ p ∷ q ∷ qs ]

  place-append_left :
      (xs : List ℕ) (p q : ℕ) (ys : List ℕ)
      → cmp (key q) (key p) ≡ negative
      → place p (xs ++ q ∷ ys) ≡ place p xs ++ q ∷ ys
  place-append_left [] p q ys h = rw h
  place-append_left (x ∷ xs) p q ys h = ground (arith, place-append_left xs p q ys h)

  place-append_right :
      (xs : List ℕ) (p : ℕ) (ys : List ℕ)
      → Over o key (key p) xs
      → place p (xs ++ ys) ≡ xs ++ place p ys
  place-append_right [] p ys h = refl
  place-append_right (x ∷ xs) p ys h = rw h.0 (ap (◌∷◌ x) (place-append_right xs p ys h.1))

  -- `link` fails on a taken key, and places the entry otherwise.
  abbrev pub Linked : ℕ → List ℕ → Option Tree → Type 0
  Linked p xs r =
      ((q : ℕ) × (find cmp key xs (key p) ≡ some q) × (r ≡ none))
      ⊎ ((t : Tree) × (find cmp key xs (key p) ≡ none) × (r ≡ some t) × (inorder t ≡ place p xs))

  place_here :
      (p x : ℕ) (xs : List ℕ) → cmp (key x) (key p) ≡ negative → place p (x ∷ xs) ≡ p ∷ x ∷ xs
  place_here p x xs e = ground arith

  place_later :
      (p x : ℕ) (xs : List ℕ) → cmp (key x) (key p) ≡ positive → place p (x ∷ xs) ≡ x ∷ place p xs
  place_later p x xs e = ground arith

  pub find-place :
      (p : ℕ) (xs : List ℕ) (k : K)
      → find cmp key (place p xs) k ≡ (if is_nil (cmp (key p) k) then some p else find cmp key xs k)
  unfolding find
  find-place p [] k = ground arith
  find-place p (x ∷ xs) k = ground (arith, find-place p xs k, o.eq_of_nil (key p) k)

  Under-place :
      (p : ℕ) (xs : List ℕ) (k : K)
      → Under o key k xs
      → cmp (key p) k ≡ negative
      → Under o key k (place p xs)
  Under-place p [] k h e = (e, tt)
  Under-place p (x ∷ xs) k h e = ground (arith, Under-place p xs k h.1 e)

  pub place-IsFalling :
      (p : ℕ) (xs : List ℕ)
      → find cmp key xs (key p) ≡ none
      → IsFalling o key xs
      → IsFalling o key (place p xs)
  unfolding find
  place-IsFalling p [] n h = (tt, tt)
  place-IsFalling p (x ∷ xs) n h = elim (Sign-cases (cmp (key x) (key p))) [
    | inl e ↦
        rw (place_here p x xs e) (
          (ground (arith, o.turn (key p) (key x), e), Under-trans o key xs (key x) (key p) h.0 e),
          h,
        )
    | inr (inl e) ↦ ground arith
    | inr (inr e) ↦ rw (place_later p x xs e) (
      Under-place p xs (key x) h.0 (ground (arith, o.turn (key x) (key p))),
      place-IsFalling p xs (ground arith) h.1,
    )
  ]

  find-append_some :
      (xs ys : List ℕ) (k : K) (q : ℕ)
      → find cmp key xs k ≡ some q
      → find cmp key (xs ++ ys) k ≡ some q
  unfolding find
  find-append_some [] ys k q h = cc
  find-append_some (x ∷ xs) ys k q h = ground (arith, find-append_some xs ys k q)

  module _ (l : List ℕ) (q : ℕ) (r : List ℕ) (p : ℕ) (h : IsFalling o key (l ++ q ∷ r)) where
    find_left :
        cmp (key q) (key p) ≡ negative → find cmp key (l ++ q ∷ r) (key p) ≡ find cmp key l (key p)
    find_left e =
        let b = (parts o key l q r h).below in
        find-append-none o key l (q ∷ r) (key p)
          (find-Under o key (q ∷ r) (key p) (e, Under-trans o key r (key q) (key p) b e))

    find_right :
        cmp (key q) (key p) ≡ positive → find cmp key (l ++ q ∷ r) (key p) ≡ find cmp key r (key p)
    unfolding find
    find_right e =
        let a = (parts o key l q r h).above in
        find-append_none o key l (q ∷ r) (key p)
          (find-Over o key l (key p) (Over-trans o key l (key q) (key p) a e))
        ∙ ground arith

    find_middle : cmp (key q) (key p) ≡ nil → find cmp key (l ++ q ∷ r) (key p) ≡ some q
    unfolding find
    find_middle e =
        let a = (parts o key l q r h).above in
        find-append_none o key l (q ∷ r) (key p)
          (find-Over o key l (key p) (ground (arith, o.eq_of_nil (key q) (key p) e, a)))
        ∙ ground arith

    place_right : cmp (key q) (key p) ≡ positive → place p (l ++ q ∷ r) ≡ l ++ q ∷ place p r
    place_right e =
        let a = (parts o key l q r h).above in
        place-append_right l p (q ∷ r) (Over-trans o key l (key q) (key p) a e)
        ∙ ap (◌++◌ l) (place_later p q r e)

  pub link-Linked :
      (t : Tree) (p : ℕ) → IsFalling o key (inorder t) → Linked p (inorder t) (link cmp key t p)
  unfolding link find
  link-Linked leaf p h = inr (node leaf p leaf, refl, refl, refl)
  link-Linked (node l q r) p h = elim (Sign-cases (cmp (key q) (key p))) [
    | inl e ↦ elim (link-Linked l p (parts o key (inorder l) q (inorder r) h).left) [
      | inl (x, f, n) ↦ inl (x, find_left (inorder l) q (inorder r) p h e ∙ f, ground arith)
      | inr (t, f, s, i) ↦ inr (
        node t q r,
        find_left (inorder l) q (inorder r) p h e ∙ f,
        ground arith,
        ground (arith, place-append_left (inorder l) p q (inorder r) e),
      )
    ]
    | inr (inl e) ↦ inl (q, find_middle (inorder l) q (inorder r) p h e, ground arith)
    | inr (inr e) ↦ elim (link-Linked r p (parts o key (inorder l) q (inorder r) h).right) [
      | inl (x, f, n) ↦ inl (x, find_right (inorder l) q (inorder r) p h e ∙ f, ground arith)
      | inr (t, f, s, i) ↦ inr (
        node l q t,
        find_right (inorder l) q (inorder r) p h e ∙ f,
        ground arith,
        ground (arith, place_right (inorder l) q (inorder r) p h e),
      )
    ]
  ]

  pub mem-place :
      (p : ℕ) (xs : List ℕ) (q : ℕ) → mem q (place p xs) ≡ (if p == q then true else mem q xs)
  mem-place p [] q = refl
  mem-place p (x ∷ xs) q = ground (arith, mem-place p xs q)
