-- ===== src/TransPb/Invariant.antt =====
-- The methods of block/trans_pb keep the invariant of the engine.
use c3qo.Base.{
  ℕ, Bool, true, false, Option, none, some, List, [], ◌∷◌, String, ℤ, take, Option-cases, inl, inr,
  int_eq, string_eq,
}
use c3qo.UnorderedMap
use c3qo.Buffer.{BufferPart, no_parts}
use c3qo.World.{Vtable, Message}
use c3qo.World.Keeps.{Keeps, Keeps-bind, Post-or_false}
use c3qo.Classes.{Class, hook_at, set_self}
use c3qo.HookZmq.{append}
use c3qo.Command.{Command, memcmp_eq, topic_command}
use c3qo.TransPb.{
  configure_hook, trans_two, trans_parts, run_command, proto_command_parse, proto_command_reply,
  trans_data,
}
use c3qo.Blocks.{manager_stop, block_get}
use c3qo.Blocks.Invariant.{
  block_add-Inv, block_start-Inv, block_stop-Inv, block_del-Inv, block_bind-Inv,
}
use c3qo.Invariant.{Inv, Respects}
use c3qo.Invariant.Calls.{process_data-Inv}
use c3qo.Invariant.Rules.{Keeps-pure, Keeps-set_self, Keeps-hook_at}
use c3qo.HookZmq.Invariant.{append-Inv}

module _ {E : Type 0} where
  module _ (n : ℕ) (v : Vtable Class E) (r : Respects v) where
    configure_hook-Inv :
        (p : ℕ) (client : Bool) (socket_type : ℤ) (name addr : String)
        → Keeps {S = Class} {E = E} Inv (configure_hook p client socket_type name addr)
    unfolding configure_hook
    configure_hook-Inv p client socket_type name addr =
        Keeps-bind Inv (hook_at p) _ (Keeps-hook_at p)
          λ h. Keeps-bind Inv (set_self p _) _ (Keeps-set_self p _) λ _. Keeps-pure true

    run_command-Inv : (c : Command String) → Keeps Inv (run_command v c)
    unfolding run_command block_get manager_stop
    run_command-Inv (Command.add id type_name) = block_add-Inv v r id type_name
    run_command-Inv (Command.start id) = block_start-Inv v r id
    run_command-Inv (Command.stop id) = block_stop-Inv v r id
    run_command-Inv (Command.del id) = block_del-Inv v r id
    run_command-Inv (Command.bind id port dest) = block_bind-Inv v r id port dest
    run_command-Inv (Command.hook_zmq id client socket_type name addr) = λ w i.
        Post-or_false w (λ _ w'. Inv w') (UnorderedMap.find id w.mgr.bk_map) _ i
          λ p there. configure_hook-Inv p client socket_type name addr w i
    run_command-Inv (Command.term b) = λ w i. record {
      registered = i.registered;
      unused = i.unused;
      timers = i.timers;
      table = i.table;
    }
    run_command-Inv Command.not_set = Keeps-pure false

    parse-Inv :
        (unpack : List ℕ → Option (Command String)) (bytes : List ℕ)
        → Keeps Inv (proto_command_parse v unpack bytes)
    unfolding proto_command_parse
    parse-Inv unpack bytes w i = elim (Option-cases (unpack bytes)) [
      | inl bad ↦ rw (bad, proto_command_parse) i
      | inr (c, good) ↦ rw (good, proto_command_parse) (run_command-Inv c w i)
    ]

    reply-Inv : (p : ℕ) (is_ok : Bool) → Keeps Inv (proto_command_reply n v p is_ok)
    unfolding proto_command_reply
    reply-Inv p is_ok = Keeps-bind Inv (append no_parts _ 13) _ (append-Inv no_parts _ 13) λ buf.
        Keeps-bind Inv (append buf _ 2) _ (append-Inv buf _ 2)
          λ buf'. process_data-Inv v r n (some buf') p

    trans_two-Inv :
        (unpack : List ℕ → Option (Command String)) (p : ℕ) (topic body : BufferPart)
        → Keeps Inv (trans_two n v unpack p topic body)
    unfolding trans_two
    trans_two-Inv unpack p topic body w i =
        elim (Option-cases (memcmp_eq topic.len topic_command topic.bytes)) [
          | inl over ↦ rw (over, trans_two) tt
          | inr (true, e) ↦
              rw (e, trans_two)
                (Keeps-bind Inv (proto_command_parse v unpack (take body.len body.bytes)) _
                  (parse-Inv unpack (take body.len body.bytes))
                  (λ is_ok.
                    Keeps-bind Inv (proto_command_reply n v p is_ok) _ (reply-Inv p is_ok)
                      λ _. Keeps-pure false)
                  w i)
          | inr (false, e) ↦ rw (e, trans_two) i
        ]

    trans_parts-Inv :
        (unpack : List ℕ → Option (Command String)) (p : ℕ) (l : List BufferPart)
        → Keeps Inv (trans_parts n v unpack p l)
    unfolding trans_parts
    trans_parts-Inv unpack p (topic ∷ body ∷ []) = trans_two-Inv unpack p topic body
    trans_parts-Inv unpack p _ = Keeps-pure false

    pub trans_data-Inv :
        (unpack : List ℕ → Option (Command String)) (p : ℕ) (m : Message)
        → Keeps Inv (trans_data n v unpack p m)
    unfolding trans_data
    trans_data-Inv unpack p none = Keeps-pure false
    trans_data-Inv unpack p (some buf) = trans_parts-Inv unpack p buf.parts
