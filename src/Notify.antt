-- ===== src/Notify.antt =====
-- library/notify.c: clients that wait for news of a key, in a hash table of buckets. An address names
-- a connection; its references are counted here as far as the entries hold them.
pub mod Waiting
pub mod Refines
pub mod Setup
use Prim.Native.Nat.{bit_xor}
use elliptics.Prelude.{
  ℕ, zero, suc, ◌+◌, ◌-◌, ◌%◌, Bool, true, false, Option, none, some, List, [], ◌∷◌, ◌++◌, ◌==◌,
  if◌then◌else◌, update, take, drop, Status, success, failure, enomem, enxio,
}
use elliptics.Key.{DnetId, id_cmp}
use elliptics.Key.Order.{is_nil}
use elliptics.Packet.{Cmd, from_le}
use elliptics.Answer.{send_reply}

-- `struct dnet_notify_entry`
pub record NotifyEntry : Type 0 where
  pub cmd : Cmd
  pub state : ℕ

-- `notify_hash` and `notify_hash_size` of the node, and the references of the connections.
pub record NotifyTable : Type 0 where
  pub buckets : ℕ → List NotifyEntry
  pub hash_size : ℕ
  pub refcnt : ℕ → ℕ

-- A message on its way to a connection.
pub record Message : Type 0 where
  pub state : ℕ
  pub header : Cmd
  pub body : List ℕ

-- The key read as an array of `n` numbers of four bytes.
abbrev pub int_id : (n : ℕ) → List ℕ → List ℕ
int_id zero bytes = []
int_id (suc n) bytes = from_le (take 4 bytes) ∷ int_id n (drop 4 bytes)

abbrev pub xor_all : ℕ → List ℕ → ℕ
xor_all hash [] = hash
xor_all hash (x ∷ xs) = xor_all (bit_xor hash x) xs

-- 0xbb40e64d
abbrev pub hash_start : ℕ
hash_start = 3141592653

unfoldable pub notify_hash : DnetId → (hash_size : ℕ) → ℕ
notify_hash id hash_size = xor_all hash_start (int_id 16 id.id) % hash_size

abbrev pub same_id : DnetId → NotifyEntry → Bool
same_id id e = is_nil (id_cmp id e.cmd.id)

-- What a call returns, what it sends, and the table it leaves.
pub record Outcome : Type 0 where
  pub ret : Status
  pub messages : List Message
  pub table : NotifyTable

abbrev pub unflagged : NotifyEntry → NotifyEntry
unflagged e = record e { cmd = record e.cmd { flags = 0 } }

-- The first entry of the key in a bucket, and the bucket without it.
unfoldable pub take_first : DnetId → List NotifyEntry → Option (NotifyEntry × List NotifyEntry)
take_first id [] = none
take_first id (e ∷ es) =
    let rest = take_first id es in
    if is_nil (id_cmp e.cmd.id id)
    then some (e, es)
    else elim rest [ none ↦ none | some (x, xs) ↦ some (x, e ∷ xs) ]

abbrev pub state_put : ℕ → (ℕ → ℕ) → ℕ → ℕ
state_put st refcnt = update refcnt st (refcnt st - 1)

abbrev pub message_to : ℕ → Option (Cmd × List ℕ) → List Message
message_to st none = []
message_to st (some (c, body)) = record { state = st; header = c; body = body } ∷ []

-- Whether a connection is the node's own, whether there is memory for a reply, and `dnet_send`.
module _ (own : ℕ → Bool) (memory : Bool) (send : ℕ → Cmd → List ℕ → Status) where
  abbrev pub reply_to : NotifyEntry → List ℕ → Bool → Status × Option (Cmd × List ℕ)
  reply_to e body follows = send_reply (own e.state) memory (send e.state) e.cmd body follows

  -- The loop of `dnet_update_notify` over a bucket.
  unfoldable pub notify_each : DnetId → (notice : List ℕ) → List NotifyEntry → List Message
  notify_each id notice [] = []
  notify_each id notice (e ∷ es) =
      if same_id id e
      then message_to e.state (reply_to e notice true).1 ++ notify_each id notice es
      else notify_each id notice es

  -- `dnet_update_notify`, `notice` for the bytes of the `struct dnet_io_notification`.
  unfoldable pub update_notify : Cmd → (notice : List ℕ) → NotifyTable → List Message
  update_notify c notice t = notify_each c.id notice (t.buckets (notify_hash c.id t.hash_size))

  abbrev pub last_reply : NotifyEntry → Status × Option (Cmd × List ℕ)
  last_reply e = reply_to (unflagged e) [] false

  abbrev pub remove_found : ℕ → NotifyTable → Option (NotifyEntry × List NotifyEntry) → Outcome
  remove_found h t none = record { ret = failure enxio; messages = []; table = t }
  remove_found h t (some (e, rest)) = record {
    ret = (last_reply e).0;
    messages = message_to e.state (last_reply e).1;
    table = record t { buckets = update t.buckets h rest; refcnt = state_put e.state t.refcnt };
  }

  unfoldable pub notify_remove : Cmd → NotifyTable → Outcome
  notify_remove c t =
      let h = notify_hash c.id t.hash_size in remove_found h t (take_first c.id (t.buckets h))

-- `dnet_notify_add`, `memory` for its `malloc`.
unfoldable pub notify_add : (memory : Bool) → ℕ → Cmd → NotifyTable → Status × NotifyTable
notify_add memory st c t =
    let h = notify_hash c.id t.hash_size in
    if memory
    then (
      success,
      record t {
        buckets = update t.buckets h (t.buckets h ++ record { cmd = c; state = st } ∷ []);
        refcnt = update t.refcnt st (t.refcnt st + 1);
      },
    )
    else (failure enomem, t)

-- The loop of `dnet_notify_init` over the results of `pthread_rwlock_init`, from bucket `i` on; a
-- failure leaves the number of the locks that are to be destroyed as the table's size.
unfoldable pub init_buckets : (i : ℕ) → List Status → NotifyTable → Status × NotifyTable
init_buckets i [] t = (success, t)
init_buckets i (success ∷ locks) t =
    init_buckets (i + 1) locks (record t { buckets = update t.buckets i [] })
init_buckets i (failure e ∷ locks) t = (failure e, record t { hash_size = i })

-- `dnet_notify_init`, with the results of as many `pthread_rwlock_init` as the table has buckets.
unfoldable pub notify_init : (memory : Bool) → List Status → NotifyTable → Status × NotifyTable
notify_init memory locks t = if memory then init_buckets 0 locks t else (failure enomem, t)

abbrev pub put_all : List NotifyEntry → (ℕ → ℕ) → ℕ → ℕ
put_all [] refcnt = refcnt
put_all (e ∷ es) refcnt = put_all es (update refcnt e.state (refcnt e.state - 1))

-- The loop of `dnet_notify_exit` over `left` buckets, from bucket `i` on.
unfoldable pub exit_buckets : (left i : ℕ) → NotifyTable → NotifyTable
exit_buckets zero i t = t
exit_buckets (suc left) i t =
    exit_buckets left (i + 1)
      (record t { buckets = update t.buckets i []; refcnt = put_all (t.buckets i) t.refcnt })

unfoldable pub notify_exit : NotifyTable → NotifyTable
notify_exit t = exit_buckets t.hash_size 0 t
