-- ===== src/Notify/Setup.antt =====
-- The set-up of the table of waiting clients.
use elliptics.Prelude.{
  ℕ, suc, ◌+◌, ◌<◌, ◌≡◌, refl, true, List, [], ◌∷◌, arith, ◌&&◌, ltb, leb, length, if◌then◌else◌,
  update, Status, success, failure,
}
use native.Mathlib.Nat.{mod-lt}
use elliptics.Key.{DnetId}
use elliptics.Notify.{NotifyTable, notify_hash, notify_init, init_buckets}
use elliptics.Notify.Waiting.{Agrees}

-- Buckets `i` up to `i + n` are empty, and nothing else is changed; unless the set-up failed.
abbrev Emptied : (i n : ℕ) → NotifyTable → (Status × NotifyTable) → Type 0
Emptied i n t (failure e, t') = Unit
Emptied i n t (success, t') =
    ((j : ℕ) → t'.buckets j ≡ (if leb i j && ltb j (i + n) then [] else t.buckets j))
    × (t'.hash_size ≡ t.hash_size)
    × (t'.refcnt ≡ t.refcnt)

buckets-Emptied :
    (locks : List Status) (i : ℕ) (t : NotifyTable)
    → Emptied i (length locks) t (init_buckets i locks t)
unfolding init_buckets
buckets-Emptied [] i t = (λ j. ground arith, refl, refl)
buckets-Emptied (failure e ∷ locks) i t = tt
buckets-Emptied (success ∷ locks) i t =
    more (init_buckets (i + 1) locks t1) (buckets-Emptied locks (i + 1) t1)
  where
    t1 : NotifyTable
    t1 = record t { buckets = update t.buckets i [] }

    more :
        (r : Status × NotifyTable)
        → Emptied (i + 1) (length locks) t1 r
        → Emptied i (suc (length locks)) t r
    more (failure e, t') h = tt
    more (success, t') (b, n, r) = (λ j. ground (arith, b j), n, r)

hash_bound : (id : DnetId) (size : ℕ) → 0 < size → notify_hash id size < size
unfolding notify_hash
hash_bound id size h = mod-lt _ h

abbrev pub WhenSuccess : (NotifyTable → Type 0) → (Status × NotifyTable) → Type 0
WhenSuccess P (success, t) = P t
WhenSuccess P (failure e, t) = Unit

-- A table with a bucket at least and a lock for each bucket is set up without clients and with the
-- references as they were, unless the set-up fails.
pub init-Agrees :
    (locks : List Status) (t : NotifyTable)
    → t.hash_size ≡ length locks
    → 0 < length locks
    → WhenSuccess
        (λ t'. Agrees t' (record { clients = []; refcnt = t.refcnt }))
        (notify_init true locks t)
unfolding notify_init
init-Agrees locks t size some_bucket = start (init_buckets 0 locks t) (buckets-Emptied locks 0 t)
  where
    start :
        (r : Status × NotifyTable)
        → Emptied 0 (length locks) t r
        → WhenSuccess (λ t'. Agrees t' (record { clients = []; refcnt = t.refcnt })) r
    start (failure e, t') h = tt
    start (success, t') (b, n, r) = record {
      clients = λ id.
          ground (arith, b (notify_hash id t'.hash_size), n, size, hash_bound id t'.hash_size);
      refcnt = λ p. rw r refl;
    }
