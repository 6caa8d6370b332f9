-- ===== src/TransPb/Table.antt =====
-- block/trans_pb, `proto_command_parse`: what a series of commands is to do, on a table of statuses.
use c3qo.Base.{ℕ, Bool, true, false, ◌&&◌, List, String, ℤ, eq_ℤ, int_eq, string_eq, if◌then◌else◌}
use c3qo.UnorderedMap
use c3qo.Command.{Command, add, start, stop, del, bind, hook_zmq, term, not_set}
use c3qo.Blocks.Status.{Status, is_known, is_stopped, after_start, after_stop, after_del}
use c3qo.Blocks.Adding.{is_added, after_add}

-- The abstract state: the status of each identifier.
abbrev pub Table : Type 0
Table = ℤ → Status

abbrev pub put : ℤ → Status → Table → Table
put id s m j = if eq_ℤ j id then s else m j

-- What a command is answered, and where it leads, by the table and the types that have a factory.
module _ (types : List (String × ℕ)) where
  unfoldable pub answer : Command String → Table → Bool
  answer (add id t) m = is_added (m id) (UnorderedMap.find t types)
  answer (start id) m = is_known (m id)
  answer (stop id) m = is_known (m id)
  answer (del id) m = is_stopped (m id)
  answer (bind a port b) m = is_known (m a) && is_known (m b)
  answer (hook_zmq id client socket_type name addr) m = is_known (m id)
  answer (term b) m = true
  answer not_set m = false

  unfoldable pub after : Command String → Table → Table
  after (add id t) m = put id (after_add (m id) (UnorderedMap.find t types)) m
  after (start id) m = put id (after_start (m id)) m
  after (stop id) m = put id (after_stop (m id)) m
  after (del id) m = put id (after_del (m id)) m
  after _ m = m
