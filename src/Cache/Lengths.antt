-- ===== src/Cache/Lengths.antt =====
-- The sizes of contents that a write makes.
use elliptics.Prelude.{
  ℕ, zero, suc, ◌+◌, ◌-◌, ◌%◌, ◌^◌, ◌<◌, ◌≤◌, ◌≡◌, refl, ◌∙◌, inl, inr, List, ◌++◌, arith, length,
  take, drop, replicate, Bool-cases, length-append, length-take, length-drop,
}
use elliptics.Packet.{has_flag}
use elliptics.Process.Commands.{IoAttr}
use elliptics.Cache.{Item, add64}
use elliptics.Cache.Requests.{io_append, resize_to, copy_at, new_size_of, written}

length-replicate : (n a : ℕ) → length (replicate n a) ≡ n
length-replicate zero a = refl
length-replicate (suc n) a = omega (arith, length-replicate n a)

pub length-resize_to : (n : ℕ) (xs : List ℕ) → length (resize_to n xs) ≡ n
length-resize_to n xs = ground (
  arith,
  length-append (take n xs) (replicate (n - length xs) 0),
  length-take n xs,
  length-replicate (n - length xs) 0,
)

length-copy_at :
    (offset : ℕ) (bytes xs : List ℕ)
    → offset + length bytes ≤ length xs
    → length (copy_at offset bytes xs) ≡ length xs
length-copy_at offset bytes xs h = ground (
  arith,
  length-append (take offset xs) (bytes ++ drop (offset + length bytes) xs),
  length-append bytes (drop (offset + length bytes) xs),
  length-take offset xs,
  length-drop (offset + length bytes) xs,
)

-- The bytes of a write are there, and its end is no more than a `size_t` can hold.
pub record IsWrite (io : IoAttr) (bytes : List ℕ) : Type 0 where
  pub bytes_there : io.size ≤ length bytes
  pub in_range : io.offset + io.size < 2 ^ 64

pub taken_size :
    (io : IoAttr) (bytes : List ℕ) → IsWrite io bytes → length (take io.size bytes) ≡ io.size
taken_size io bytes h = ground (arith, length-take io.size bytes, h.bytes_there)

pub length-appended :
    (io : IoAttr) (bytes : List ℕ) (x : Item)
    → IsWrite io bytes
    → add64 (length x.content) io.size % 2 ^ 64 ≡ length (x.content ++ take io.size bytes) % 2 ^ 64
length-appended io bytes x h =
    ground (arith, length-append x.content (take io.size bytes), taken_size io bytes h)

overwritten_size :
    (io : IoAttr) (bytes xs : List ℕ)
    → IsWrite io bytes
    → length (copy_at io.offset (take io.size bytes) (resize_to (add64 io.offset io.size) xs))
      ≡ add64 io.offset io.size
overwritten_size io bytes xs h =
    let n = add64 io.offset io.size in
    let fits : io.offset + length (take io.size bytes) ≤ length (resize_to n xs) =
      omega (arith, taken_size io bytes h, length-resize_to n xs, h.in_range) in
    length-copy_at io.offset (take io.size bytes) (resize_to n xs) fits ∙ length-resize_to n xs

pub length-written :
    (io : IoAttr) (bytes : List ℕ) (x : Item)
    → IsWrite io bytes
    → new_size_of io (length x.content) % 2 ^ 64 ≡ length (written io bytes x).content % 2 ^ 64
length-written io bytes x h = elim (Bool-cases (has_flag io.flags io_append)) [
  | inl e ↦ ground (arith, e, length-appended io bytes x h)
  | inr e ↦ ground (arith, e, overwritten_size io bytes x.content h)
]
