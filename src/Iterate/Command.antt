-- ===== src/Iterate/Command.antt =====
-- The iterator command and the registry.
use elliptics.Prelude.{◌<◌, ◌≡◌, true, Option, some, List, ◌∷◌, arith, Status, length, ap}
use elliptics.Iterator.{Iterators, Iterator, no_id, iterator_create, iterator_destroy}
use elliptics.Iterator.Registry.{IsDistinct, create-destroy}
use elliptics.Iterate.{Range, Request, iterator_start}

module _ (backend : Request → Status) (ranges : List Range) (req : Request) (its : Iterators)
    (small : length its < no_id) (distinct : IsDistinct its) where
  network_start :
      (req' : Request)
      → let made = iterator_create true its in
        (it : Iterator) × (made ≡ (some it, it ∷ its)) × (iterator_destroy made.1 it ≡ its)
  network_start req' =
      let (it, e, run, d, back) = create-destroy its small distinct in (it, e, rw e back)

  -- With memory at hand, an iteration that no other thread interferes with leaves a registry of
  -- distinct numbers, fewer than 2 ^ 64 - 1, as it was, whatever the request and the outcome.
  pub start-registry : (iterator_start true (λ l. l) backend ranges req its).1 ≡ its
  unfolding iterator_start
  start-registry =
      let (it, e, back) = network_start req in
      ground (arith, ap (λ (p : Option Iterator × Iterators). p.0) e, back)
