-- ===== src/Tests/Processing.antt =====
-- A server at work: commands on the key 7 over a pool of two lock entries.
use elliptics.Prelude.{
  ℕ, zero, suc, ◌+◌, ◌≡◌, refl, ◌⊎◌, true, false, none, some, List, [], ◌∷◌, ◌==◌, if◌then◌else◌,
}
use elliptics.Packet.{Cmd}
use elliptics.Tree
use elliptics.Locks.{Locks, opunlock, oplock_search_nolock}
use elliptics.Process.{Data, Handler, Handlers, Server, returned, handle, enoent_bits, enotsup_bits}
use elliptics.Process.Commands.{
  Command, command_of, IoAttr, cmd_bulk_read_number, cmd_write, io_nocache, io_cas,
}
use elliptics.Process.Flags.{KeepLocks, SameLock-same}
use elliptics.Process.Frame.{Done, enter, process_cmd_raw, cmd_bulk_read}
use elliptics.Process.Released.{Ready, Released, process-Released, enter-Ready}
use elliptics.Process.Bulk.{merged, bulk_results, bulk_read-merged}
use elliptics.Process.Gates.{
  Changes, other_disk, read_only_refuses, other_backend, Unchanged, compare_and_swap_guards,
}
use elliptics.Tests.Transactions.{unbalanced}
use elliptics.Tests.Locking.{free_two, free_two-IsIdle, seven}

-- The world is the list of the commands that came to the backend, the last first.
abbrev done : Handler (List ℕ)
done c d w = returned 0 c d w

-- No bulk read of its own; a read at offset 1 finds nothing.
abbrev disk : Handler (List ℕ)
disk c d w =
    returned
      (if c.cmd == cmd_bulk_read_number
        then enotsup_bits
        else if (d 0).offset == 1
        then enoent_bits
        else 0)
      c d (c.cmd ∷ w)

abbrev missing : Handler (List ℕ)
missing c d w = returned enotsup_bits c d w

abbrev small_server : Handlers (List ℕ)
small_server = record {
  auth = done;
  status = done;
  reverse_lookup = λ c d w. returned 0 (record c { id = record c.id { id = 0 ∷ [] } }) d w;
  join_client = done;
  route_list = done;
  exec = done;
  iterator = done;
  process_indexes = done;
  stat_count = done;
  notify_add = done;
  notify_remove = done;
  command_handler = disk;
  cache_io = missing;
  cache_lookup = missing;
  checksum = some (λ id w. (0, seven));
  update_notify = λ c d w. w;
  stat_inc = λ m e w. w;
  counter_inc = λ m e w. w;
  send = λ c w. (0, w);
}

disk_keeps : KeepLocks small_server Command.read
disk_keeps = ((λ c d w. SameLock-same c), (λ c d w. SameLock-same c))

bulk_keeps : KeepLocks small_server (command_of cmd_bulk_read_number)
unfolding command_of
bulk_keeps = disk_keeps

abbrev writable : Server
writable = record { ro = false; no_csum = false; joined = true }

abbrev pub on_seven : ℕ → Cmd
on_seven m = record {
  id = record { id = seven; group_id = 1 };
  trace_id = 0;
  status = 0;
  cmd = m;
  flags = 1;
  trans = 5;
  size = 624;
}

abbrev attr : ℕ → ℕ → IoAttr
attr offset size = record {
  parent = seven;
  id = seven;
  start = 0;
  num = 0;
  tsec = 0;
  tnsec = 0;
  user_flags = 0;
  flags = io_nocache + io_cas;
  offset = offset;
  size = size;
}

-- The attributes of a bulk read of two records, the first of which is missing.
abbrev two_reads : Data
two_reads zero = attr 0 416
two_reads (suc zero) = attr 1 0
two_reads (suc (suc i)) = attr 0 0

free_two-Ready : Ready free_two seven free_two
free_two-Ready = record { formed = free_two-IsIdle.pool; searches = λ j. refl; free = (_, _, refl) }

seven_unused : oplock_search_nolock free_two seven ≡ none
unfolding oplock_search_nolock Tree.search
seven_unused = refl

process_example :
    (r : Done (List ℕ)) × (process_cmd_raw unbalanced small_server writable false
        (on_seven cmd_bulk_read_number)
        two_reads
        []
        free_two
      ≡ some r)
    × Released unbalanced small_server writable free_two seven seven_unused r
process_example =
    process-Released unbalanced small_server writable free_two seven seven_unused false
      (on_seven cmd_bulk_read_number) two_reads [] bulk_keeps (refl, refl) free_two-Ready

read_only_example :
    process_cmd_raw unbalanced
      (other_disk unbalanced
        (record writable { ro = true })
        refl
        small_server
        done
        done
        none
        (λ c d w. w))
      (record writable { ro = true })
      false
      (on_seven cmd_write)
      two_reads
      []
      free_two
    ≡ process_cmd_raw unbalanced small_server
        (record writable { ro = true })
        false
        (on_seven cmd_write)
        two_reads
        []
        free_two
unfolding command_of
read_only_example =
    read_only_refuses unbalanced (record writable { ro = true }) refl small_server done done none
      (λ c d w. w) false (on_seven cmd_write) two_reads [] free_two Changes.by_write

-- The pool while the lock on the key is held.
abbrev held :
    (s : Locks) × (enter unbalanced small_server writable (on_seven cmd_bulk_read_number) free_two
      ≡ some s)
    × Ready free_two seven (opunlock unbalanced seven s)
held =
    enter-Ready unbalanced small_server writable free_two seven seven_unused
      (on_seven cmd_bulk_read_number) free_two (refl, refl) free_two-Ready

bulk_read_example :
    (r : Done (List ℕ)) × (cmd_bulk_read unbalanced small_server writable
        (on_seven cmd_bulk_read_number)
        two_reads
        []
        held.0
      ≡ some r)
    × (r.call.ret
        ≡ merged (
            bulk_results unbalanced small_server writable
              (on_seven cmd_bulk_read_number)
              two_reads
              []
              held.0))
bulk_read_example =
    bulk_read-merged unbalanced small_server writable free_two seven seven_unused
      (on_seven cmd_bulk_read_number) two_reads [] held.0 disk_keeps (refl, refl) held.2

compare_and_swap_example :
    (handle
        (other_backend small_server writable missing)
        writable
        Command.write
        (on_seven cmd_write)
        two_reads
        []
      ≡ handle small_server writable Command.write (on_seven cmd_write) two_reads [])
    ⊎ Unchanged small_server writable (on_seven cmd_write).id seven []
compare_and_swap_example =
    compare_and_swap_guards small_server writable missing (on_seven cmd_write) two_reads [] refl
      refl
