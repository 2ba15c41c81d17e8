-- ===== src/Lib.antt =====
-- Elliptics: a distributed hash table storage. This library models the core of the C library under
-- library/, the headers under include/elliptics/, and the cache of a node, cache/cache.cpp.
--
-- The parts. A node (struct dnet_node) knows the groups of the storage and, for each group, the
-- keys of the connected servers: the route table (library/node.c). A request goes to the connection
-- (struct dnet_net_state) that owns its key, as a transaction that stays open until its last reply
-- or its timeout (library/trans.c, library/net.c). A server answers commands (library/dnet.c) that
-- its workers take from the received messages (library/pool.c), each under a lock on its key
-- (library/locks.c). READ, WRITE, DEL and LOOKUP go to the cache (cache/cache.cpp) before the
-- backend, and a WRITE that succeeds is told to the clients that wait for news of its key
-- (library/notify.c). One command iterates over its keys (library/dnet.c), under a registry of
-- running iterators (library/dnet_common.c). What two servers' iterations give is compared for
-- recovery (library/dnet_common.c).
--
-- The files.
-- - Prelude: names shared by all files, Boolean tests, lists over the native numbers, error
--   numbers.
-- - Key: keys and dnet_id_cmp_str, dnet_id_cmp. A key is the list of its bytes.
-- - Packet: struct dnet_cmd, its flags and its bytes.
-- - Tree: the search and insertion loops that trans.c and locks.c write over struct rb_root. The
--   balancing of rbtree.c, a copy of another project's code, is the parameter RbTree: it keeps the
--   order of the entries, and erasing takes one entry out.
-- - Trans: struct dnet_trans and the transaction side of struct dnet_net_state as the record Net,
--   with dnet_trans_search, _insert_nolock, _remove, _destroy, _put, _send, _alloc_send_state,
--   dnet_process_recv on replies, the stall check and dnet_state_clean. An address names a
--   transaction, and each field of the struct is a function of the address. The children hold the
--   theorems: Table on the tree as a map, Lifetime on references, Send, Reply, Timeout, and Clean
--   on a connection that is given up.
-- - Locks: the pool of lock entries of locks.c. Pool and Take are on taking and giving back
--   references, Calls on the set-up and dnet_optrylock, Unlock on one thread's lock and unlock.
--   Threads has the steps that threads take, one for each section under the pool's lock or an
--   entry's; Safety and Release keep the invariant, Exclusion and Progress draw from it. Sleep adds
--   the condition variable of an entry, with threads that fall asleep, are woken by a signal or
--   wake up by themselves, and Waking is on them. A thread that gets no entry, as the pool is
--   exhausted, goes on without a lock; it is none of those threads.
-- - Receive: pool.c, from the bytes of a connection to a worker. Framing and Enough are on
--   dnet_process_recv_single: each recv gives as many bytes as an Outcome says, at least one where
--   there is one. The fields rcv_offset and rcv_end have 64 bits; where the sum of sizes for malloc
--   wraps, the writes behind its buffer are not modelled. Queue is on take_request.
-- - Send: the queue of a connection, from dnet_io_req_queue of net.c to dnet_send_request and
--   dnet_process_send_single of pool.c. A call of send or sendfile takes what an Outcome says, and
--   the field `wire` has the bytes taken so far. Bytes is on one request, Streams on the loop over
--   the queue, Fifo on a connection's life, Delivered on a socket that goes on taking bytes.
-- - Answer: dnet_send_ack of dnet.c, dnet_send_reply and the forwarding of net.c, by the headers
--   that they send; Headers has the theorems.
-- - Iterator: the registry of dnet_common.c; Registry on numbers, States on the state machine.
-- - Iterate: the request checks, the common callback, flow control and the command of dnet.c.
-- - Diff: dnet_iterator_response_container_diff.
-- - Route: groups, dnet_idc_create, dnet_idc_destroy_nolock and the searches of node.c; Search and
--   Ring on searches, Table on one group's keys, Sorted on a whole node. Mix is dnet_mix_states of
--   dnet_common.c, which puts the groups of a session in an order by the weights of their servers,
--   and Winners is on what it gives; `rand` and `qsort` are fields of the record Mixing.
-- - Process: dnet_process_cmd_raw of dnet.c. The handlers of the single commands are the record
--   Handlers, and all that they change is its parameter W; Frame has the lock on the key, the
--   counters, the acknowledgement and dnet_cmd_bulk_read. A handler may change the command and the
--   data that it is given. Flags is on the handlers that leave its key and its lock alone, Released
--   on the lock, Bulk on the bulk read, Gates on what stands before the backend.
-- - Notify: the table of notify.c; Waiting and Refines compare it with one list of clients, Setup
--   is on dnet_notify_init.
-- - Cache: cache_t of cache/cache.cpp, its objects by their addresses and its containers as lists.
--   Requests has the write, Reads the other requests, Life the thread that drops and writes back
--   and the end of a cache, Manager dnet_cmd_cache_io and dnet_cmd_cache_lookup. The local session
--   is the record Disk, the rest of the node the record Node, and what other threads do while a
--   request has given up the lock is the function `others`. Accounted, Evict, Kept, Objects,
--   Writes, Readers and Serving are on the size of a cache, Fits on eviction, Finding and ReadBack
--   on a read after a write.
-- - Tests: runs on concrete values.
--
-- State. Stateful code takes its state and gives the new one. Locks that guard one whole operation
-- do not show; what other threads do between two locked parts is a parameter where it matters.
-- Allocations, system calls and the backend are parameters, with both outcomes.
--
-- Bounds. The binary search runs on as much fuel as there are keys and one more, the choice of an
-- iterator's number on as much as there are iterators and one more, the difference of two
-- containers on both lengths and one more, the sending loop on the requests of the queue and one
-- more. The cleaning of a connection and the loops of the cache's thread take their fuel as an
-- argument. A size of a cache wraps at 2 ^ 64, and the rest of its arithmetic with it. Numbers that
-- the source counts up, like references, are natural numbers.
--
-- Not modelled: the opening of sockets, the threads' set-up, logging, sessions, exceptions, the
-- other C++ parts (indexes, scripts), the bindings and the tools.
pub mod Prelude
pub mod Process
pub mod Notify
pub mod Cache
pub mod Send
pub mod Key
pub mod Tree
pub mod Packet
pub mod Trans
pub mod Locks
pub mod Answer
pub mod Receive
pub mod Iterator
pub mod Iterate
pub mod Diff
pub mod Route
pub mod Tests
