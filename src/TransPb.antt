-- ===== src/TransPb.antt =====
-- block/trans_pb: a block that runs the configuration commands it receives, and replies.
pub mod Topic
pub mod Table
pub mod Session
pub mod Series
pub mod Outcomes
pub mod Commands
pub mod Invariant
use c3qo.Base.{
  ℕ, zero, suc, ◌+◌, Bool, true, false, Option, none, some, List, [], ◌∷◌, ◌++◌, String, ℤ, Ptr,
  length, take, codes, leb, ◌==◌, if◌then◌else◌,
}
use c3qo.Buffer.{Buffer, BufferPart, no_parts, push_back}
use c3qo.World.{
  Block, Message, World, Vtable, M, pure, fail, out_of_range, or_false, deref, ◌>>=◌, ◌>>◌,
}
use c3qo.Command.{
  Command, add, start, stop, del, bind, hook_zmq, term, not_set, memcmp_eq, topic_command,
}
use c3qo.Classes.{Class, HookZmq, hook_at, set_self}
use c3qo.Blocks.{block_get, block_add, block_start, block_stop, block_del, block_bind, manager_stop}
use c3qo.Flow.{process_data}
use c3qo.HookZmq.{append}

module _ {E : Type 0} where
  -- `n` bounds the hops of the reply.
  unfoldable pub configure_hook : ℕ → Bool → ℤ → String → String → M Class E Bool
  configure_hook p client socket_type name addr = do
    h ← hook_at p
    set_self p (
        Class.hook_zmq
          (record h { client = client; socket_type = socket_type; name = name; addr = addr }))
    pure true

  unfoldable pub run_command : Vtable Class E → Command String → M Class E Bool
  run_command v (add id type_name) = block_add v id type_name
  run_command v (start id) = block_start v id
  run_command v (stop id) = block_stop v id
  run_command v (del id) = block_del v id
  run_command v (bind id port dest) = block_bind v id port dest
  run_command v (hook_zmq id client socket_type name addr) = do
    hook ← block_get id
    or_false hook (λ p. configure_hook p client socket_type name addr)
  run_command v (term _) = do manager_stop; pure true
  run_command v not_set = pure false

  -- `unpack` is `command__unpack`, which the build generates.
  unfoldable pub proto_command_parse :
      Vtable Class E → (List ℕ → Option (Command String)) → List ℕ → M Class E Bool
  proto_command_parse v unpack bytes = elim (unpack bytes) [
    | none ↦ pure false
    | some cmd ↦ run_command v cmd
  ]

  unfoldable pub proto_command_reply : ℕ → Vtable Class E → ℕ → Bool → M Class E (Unit {0})
  proto_command_reply n v p is_ok = do
    buf ← append no_parts (codes "PROTO.CMD.REP") 13
    buf' ← append buf (if is_ok then codes "OK" else codes "KO") 2
    process_data n v (some buf') p

  -- `data_` on a message of two parts
  unfoldable pub trans_two :
      ℕ
      → Vtable Class E
      → (List ℕ → Option (Command String))
      → ℕ
      → BufferPart
      → BufferPart
      → M Class E Bool
  trans_two n v unpack p topic body = elim (memcmp_eq topic.len topic_command topic.bytes) [
    | none ↦ fail out_of_range
    | some same ↦ elim same [
      | false ↦ pure false
      | true ↦ do
        is_ok ← proto_command_parse v unpack (take body.len body.bytes)
        proto_command_reply n v p is_ok
        pure false
    ]
  ]

  unfoldable pub trans_parts :
      ℕ → Vtable Class E → (List ℕ → Option (Command String)) → ℕ → List BufferPart → M Class E Bool
  trans_parts n v unpack p (topic ∷ body ∷ []) = trans_two n v unpack p topic body
  trans_parts n v unpack p _ = pure false

  unfoldable pub trans_data :
      ℕ → Vtable Class E → (List ℕ → Option (Command String)) → ℕ → Message → M Class E Bool
  trans_data n v unpack p none = pure false
  trans_data n v unpack p (some buf) = trans_parts n v unpack p buf.parts
