-- ===== src/Tests/Caching.antt =====
-- A cache at work: one clean object of three bytes.
use elliptics.Prelude.{ℕ, ◌^◌, ◌≡◌, refl, false, some, List, [], ◌∷◌, arith}
use elliptics.Key.{RawId, id_cmp_str}
use elliptics.Process.{enoent_bits}
use elliptics.Process.Commands.{Command, IoAttr}
use elliptics.Cache.{Cache, Disk, Item, find, resize}
use elliptics.Cache.Accounted.{Accounted}
use elliptics.Cache.Fits.{Fits, resize-Fits}
use elliptics.Cache.Lengths.{IsWrite}
use elliptics.Cache.Requests.{Node, write_request}
use elliptics.Cache.Reads.{Hit, read_request}
use elliptics.Cache.ReadBack.{write_read}
use elliptics.Cache.Manager.{Manager, cmd_cache_io}
use elliptics.Cache.Serving.{AllAccounted, cache_io-AllAccounted}
use elliptics.Tests.Locking.{seven}
use elliptics.Tests.Processing.{on_seven}

-- The world is the list of the ids that were written to the disk, the last first.
abbrev paper : Disk (List RawId)
paper = record {
  write = λ append id content flags time w. (0, id ∷ w);
  read = λ id w. ((enoent_bits, [], 0, 0, 0), w);
  remove_local = λ id w. (0, w);
}

abbrev this_node : Node (List RawId)
this_node = record {
  command_handler = λ cmd io w. (0, cmd, w);
  transform = λ bytes. seven;
  send_file_info = λ cmd bytes time. 0;
  local_lookup = λ cmd w. ((0, []), w);
  send_reply = λ cmd bytes. 0;
  now = 1000;
  sync_timeout = 30;
}

abbrev alone : Cache × List RawId → Cache × List RawId
alone s = s

abbrev three_bytes : Item
three_bytes = record {
  lifetime = 0;
  synctime = 0;
  timestamp = (1, 2);
  user_flags = 0;
  remove_from_disk = false;
  remove_from_cache = false;
  only_append = false;
  id = seven;
  content = 1 ∷ 2 ∷ 3 ∷ [];
}

abbrev one_object : Cache
one_object = record {
  cache_size = 3;
  max_cache_size = 8;
  item = λ p. three_bytes;
  ids = 0 ∷ [];
  lru = 0 ∷ [];
  lifeset = [];
  syncset = [];
  next = 1;
}

one_object-Accounted : Accounted [] one_object
one_object-Accounted = record {
  sum = refl;
  distinct = (refl, tt);
  outside = λ q k. absurd (ground (arith, k));
  known = λ q k. k;
  below = λ q k. ground (arith, k);
}

abbrev five_bytes : IoAttr
five_bytes = record {
  parent = seven;
  id = seven;
  start = 0;
  num = 0;
  tsec = 5;
  tnsec = 6;
  user_flags = 9;
  flags = 2 ^ 10;
  offset = 0;
  size = 5;
}

abbrev five : List ℕ
five = 1 ∷ 1 ∷ 2 ∷ 3 ∷ 5 ∷ []

five-IsWrite : IsWrite five_bytes five
five-IsWrite = record { bytes_there = omega arith; in_range = omega arith }

resize_example : Fits paper 7 (resize paper 7 (one_object, [])).0
resize_example = resize-Fits paper 7 one_object [] one_object-Accounted (omega arith)

abbrev two_caches : Manager
two_caches = record { caches = λ i. one_object; count = 2 }

cache_io_example :
    AllAccounted
      (cmd_cache_io paper this_node alone
        (λ cmd io bytes. 0)
        Command.write
        (on_seven 4)
        five_bytes
        five
        two_caches
        []).manager
cache_io_example =
    cache_io-AllAccounted paper this_node alone (λ cmd io bytes. 0) (λ s a. a) Command.write
      (on_seven 4) five_bytes five two_caches [] five-IsWrite (λ i. one_object-Accounted)

abbrev cached : Hit
cached = record { content = 1 ∷ 2 ∷ 3 ∷ []; timestamp = (1, 2); user_flags = 0 }

is_found : find seven one_object ≡ some 0
unfolding find id_cmp_str
is_found = refl

write_read_example :
    (read_request paper this_node alone seven five_bytes
      (write_request paper this_node alone seven
        (on_seven 4)
        five_bytes
        five
        (one_object, [])).state).0
    ≡ some (record { content = five; timestamp = (5, 6); user_flags = 9 })
write_read_example =
    write_read paper this_node alone seven 0 five_bytes five five-IsWrite refl refl (on_seven 4)
      five_bytes one_object [] one_object-Accounted is_found refl refl
