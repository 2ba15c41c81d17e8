-- ===== src/Process/Commands.antt =====
-- include/elliptics/packet.h: the numbers of the commands and the attributes of an I/O request.
use elliptics.Prelude.{ℕ, ◌^◌, List, [], ◌∷◌, Option, none, some, get_elem?}
use elliptics.Key.{RawId}

-- The commands that the server's `switch` names.
pub data Command : Type 0 where
  lookup reverse_lookup join_network write read exec route_list notify del stat_count status auth :
      Command
  bulk_read iterator indexes_update indexes_internal indexes_find other : Command

-- The members of `enum dnet_commands` from DNET_CMD_LOOKUP (1) on.
abbrev pub commands : List Command
commands =
    Command.lookup ∷ Command.reverse_lookup ∷ Command.join_network ∷ Command.write ∷ Command.read
    ∷ Command.other ∷ Command.exec ∷ Command.route_list ∷ Command.other ∷ Command.notify
    ∷ Command.del ∷ Command.stat_count ∷ Command.status ∷ Command.other ∷ Command.other
    ∷ Command.auth ∷ Command.bulk_read ∷ Command.other ∷ Command.iterator ∷ Command.indexes_update
    ∷ Command.indexes_internal ∷ Command.indexes_find ∷ []

abbrev command_or_other : Option Command → Command
command_or_other none = Command.other
command_or_other (some k) = k

unfoldable pub command_of : ℕ → Command
command_of n = command_or_other (get_elem? (Command.other ∷ commands) n)

abbrev pub cmd_write : ℕ
cmd_write = 4

abbrev pub cmd_read : ℕ
cmd_read = 5

abbrev pub cmd_notify : ℕ
cmd_notify = 10

abbrev pub cmd_del : ℕ
cmd_del = 11

abbrev pub cmd_bulk_read_number : ℕ
cmd_bulk_read_number = 17

abbrev pub cmd_max : ℕ
cmd_max = 24

-- `struct dnet_io_attr` without its reserved fields.
pub record IoAttr : Type 0 where
  pub parent : RawId
  pub id : RawId
  pub start : ℕ
  pub num : ℕ
  pub tsec : ℕ
  pub tnsec : ℕ
  pub user_flags : ℕ
  pub flags : ℕ
  pub offset : ℕ
  pub size : ℕ

-- sizeof(struct dnet_io_attr)
abbrev pub io_attr_size : ℕ
io_attr_size = 208

-- DNET_IO_FLAGS_NOCSUM, DNET_IO_FLAGS_NOCACHE, DNET_IO_FLAGS_COMPARE_AND_SWAP
abbrev pub io_nocsum : ℕ
io_nocsum = 2 ^ 8

abbrev pub io_nocache : ℕ
io_nocache = 2 ^ 28

abbrev pub io_cas : ℕ
io_cas = 2 ^ 13
