-- ===== src/Program/Tests.antt =====
-- Examples of the whole: the program on a system where nothing happens, and the topic of a command.
use c3qo.Base.{
  ◌≡◌, ◌≢◌, ◌⊎◌, refl, true, false, some, [], ◌∷◌, ℕ, arith, Bool, leb, take, int_eq, string_eq,
}
use c3qo.UnorderedMap
use c3qo.Buffer.{BufferPart, push_back, part_of}
use c3qo.World.{Result, deref, alloc, modify_block, ok, fault, pure, ◌>>=◌, ◌>>◌}
use c3qo.World.Keeps.{Post}
use c3qo.World.Idle.{idle, quiet_system}
use c3qo.Classes.{hook_at}
use c3qo.Invariant.{Inv}
use c3qo.Blocks.{
  build_block, enter_block, start_block, bind_block, block_add, block_start, block_get, block_bind,
  find_factory, manager_start, block_factory_register,
}
use c3qo.Command.{not_set, topic_command}
use c3qo.TransPb.{trans_data, proto_command_parse, proto_command_reply}
use c3qo.TransPb.Topic.{trans_data-topic}
use c3qo.Dispatch.{start_of, built_by, Platform, vtable, methods, construct}
use c3qo.Program.{
  new_world, register_factories, add_monitor, add_transcoder, set_up, main_loop, main,
}
use c3qo.HookZmq.{
  hook_start, with_context, with_socket, open_socket, connect_socket, register_socket, send_dummy,
  send, send_parts,
}
use c3qo.Poll.{register, fd_find, find_from, store_entry, fd_add, fd_poll}
use c3qo.Timer.{timer_check_exp, check_loop}
use c3qo.Program.Invariant.{main-Inv}
use c3qo.Program.BlockTests.{one_block}

-- A signal comes after three polls.
abbrev pub quiet_platform : Platform ℕ
quiet_platform = record {
  sys = quiet_system;
  unpack = λ bytes. some not_set;
  pack = λ cmd. [];
  end_signal = λ e. leb 3 e;
}

main-Inv_example : Post (λ _ w. Inv w) (main 5 4 quiet_platform (some "client") (new_world 0))
main-Inv_example = main-Inv 4 quiet_platform 5 (some "client") 0

abbrev returned : {A : Type 0} → Result A → Bool
returned (ok a) = true
returned (fault e) = false

-- The program returns when the signal comes: its blocks start, and none of its calls is refused.
main_returns : returned (main 5 4 quiet_platform (some "client") (new_world 0)) ≡ true
unfolding main set_up register fd_find find_from store_entry part_of build_block enter_block
    start_block bind_block start_of built_by vtable register_factories add_monitor add_transcoder
    manager_start block_factory_register block_add block_get block_start block_bind find_factory
    methods construct alloc hook_at deref modify_block hook_start with_context with_socket
    open_socket connect_socket register_socket send_dummy send send_parts fd_add main_loop fd_poll
    timer_check_exp check_loop UnorderedMap.find UnorderedMap.insert push_back
main_returns = refl

-- A topic of no byte but its null byte.
abbrev topic : BufferPart
topic = record { bytes = 0 ∷ []; len = 0 }

trans_data-topic_example :
    ((take {A = ℕ} 0 (0 ∷ []) ≡ take 0 topic_command)
      × (trans_data 2 idle quiet_platform.unpack 0
            (some (record { parts = topic ∷ topic ∷ [] }))
            one_block
          ≡ (do
            is_ok ← proto_command_parse idle quiet_platform.unpack []
            proto_command_reply 2 idle 0 is_ok
            pure false)
              one_block))
    ⊎ ((take {A = ℕ} 0 (0 ∷ []) ≢ take 0 topic_command)
        × (trans_data 2 idle quiet_platform.unpack 0
              (some (record { parts = topic ∷ topic ∷ [] }))
              one_block
            ≡ ok (false, one_block)))
trans_data-topic_example =
    trans_data-topic 2 idle quiet_platform.unpack 0 topic topic one_block (omega arith)
      (omega arith)
