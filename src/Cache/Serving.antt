-- ===== src/Cache/Serving.antt =====
-- Commands on the caches of a node: the accounts of all of them, and the bounds of what a read sends.
use elliptics.Prelude.{ℕ, ◌+◌, ◌≤◌, ◌≡◌, inl, inr, List, [], ◌==◌, length, Bool-cases}
use elliptics.Key.{RawId}
use elliptics.Packet.{Cmd}
use elliptics.Process.Commands.{Command, IoAttr}
use elliptics.Cache.{Cache, Disk}
use elliptics.Cache.Accounted.{Accounted}
use elliptics.Cache.Requests.{Node}
use elliptics.Cache.Reads.{Hit}
use elliptics.Cache.Lengths.{IsWrite}
use elliptics.Cache.Writes.{write-Accounted}
use elliptics.Cache.Readers.{others-Accounted}
use elliptics.Cache.Manager.{Manager, idx, at_id, put_cache, with_size, sent_bytes, cmd_cache_io}

-- The account of every cache is right.
abbrev pub AllAccounted : Manager → Type 0
AllAccounted m = (i : ℕ) → Accounted [] (m.caches i)

put-AllAccounted :
    (id : RawId) (m : Manager) (c : Cache)
    → AllAccounted m
    → Accounted [] c
    → AllAccounted (put_cache id m c)
put-AllAccounted id m c h a i = elim (Bool-cases (i == idx id m)) [
  | inl e ↦ rw e a
  | inr e ↦ rw e (h i)
]

-- The bytes that a read of an object sends.
pub record Within (io : IoAttr) (hit : Hit) : Type 0 where
  pub in_object : io.offset + (with_size io hit).size ≤ length hit.content
  pub all_sent : length (sent_bytes io hit) ≡ (with_size io hit).size

module _ {ℓ} {W : Type ℓ} (disk : Disk W) (node : Node W) (others : Cache × W → Cache × W)
    (send_read_data : Cmd → IoAttr → List ℕ → ℕ) where
  module _ (rely : (s : Cache × W) → Accounted [] s.0 → Accounted [] (others s).0) where
    -- With the bytes of the request at hand and its end below 2 ^ 64, a command on the caches of a
    -- node leaves the account of each of them right, whatever the command, its flags and the
    -- outcome, if what other threads do in between does: the size of a cache is the sum of its
    -- objects' sizes modulo 2 ^ 64, the objects of its list are different ones, and every object
    -- that can be found is in the list.
    pub cache_io-AllAccounted :
        (k : Command) (cmd : Cmd) (io : IoAttr) (bytes : List ℕ) (m : Manager) (w : W)
        → IsWrite io bytes
        → AllAccounted m
        → AllAccounted (cmd_cache_io disk node others send_read_data k cmd io bytes m w).manager
    unfolding cmd_cache_io
    cache_io-AllAccounted Command.write cmd io bytes m w i h = put-AllAccounted io.id m _ h (
        write-Accounted disk node others rely io.id cmd io bytes (at_id io.id m w) i
          (h (idx io.id m)))
    cache_io-AllAccounted Command.read cmd io bytes m w i h =
        put-AllAccounted io.id m _ h
          (others-Accounted disk node others rely io.id cmd io (at_id io.id m w)
            (h (idx io.id m))).0
    cache_io-AllAccounted Command.del cmd io bytes m w i h =
        put-AllAccounted cmd.id.id m _ h
          (others-Accounted disk node others rely cmd.id.id cmd io (at_id cmd.id.id m w)
            (h (idx cmd.id.id m))).1
    cache_io-AllAccounted _ cmd io bytes m w i h = h
