-- ===== src/Program/ClientTests.antt =====
-- Examples of the command lines of the two programs, and of a client that gets no answer.
use c3qo.Base.{
  ◌+ℤ◌, quot_ℤ, rem_ℤ, Option, ℤ, int_eq, string_eq, ℕ, ◌≡◌, ◌⊎◌, refl, true, false, none, some,
  List, [], ◌∷◌, String, All, pos, arith,
}
use c3qo.UnorderedMap
use c3qo.World.{World, Result, fault, deref, alloc, free, modify_block, Timer, ok, pure, ◌>>◌}
use c3qo.World.Keeps.{Post}
use c3qo.World.Idle.{quiet_system}
use c3qo.Classes.{Class, Ncli, hook_at, ncli_at, edit_ncli}
use c3qo.Timer.{
  lt_timespec, lt_timer, eq_timer, insert, sort, remove, schedule, expiry_date, timer_add,
  timer_del, timer_check_exp, check_loop,
}
use c3qo.Buffer.{push_back, part_of}
use c3qo.Poll.{
  register, unregister, erase_at, fd_find, find_from, store_entry, fd_add, fd_remove, fd_poll,
}
use c3qo.Blocks.{
  build_block, enter_block, start_block, stop_block, delete_block, destroy_block, bind_block,
  block_add, block_get, block_start, block_stop, block_bind, block_del, find_factory,
  block_factory_register, block_factory_unregister,
}
use c3qo.HookZmq.{
  hook_start, hook_stop, hook_data, with_context, with_socket, open_socket, connect_socket,
  register_socket, send_dummy, send, send_parts,
}
use c3qo.Flow.{process_data}
use c3qo.Dispatch.{
  start_of, stop_of, on_timer_of, data_of, built_by, vtable, methods, construct, destruct,
  same_class,
}
use c3qo.Invariant.{Inv}
use c3qo.Ncli.{answer_timer, ncli_start, ncli_stop, ncli_on_timer, ncli_data}
use c3qo.Ncli.Options.{
  options_parse, parse_client, parse_by_type, parse_add, parse_command, option_loop, take_client,
  take_add,
}
use c3qo.Ncli.Scan.{Opt, Yields, ends, gives}
use c3qo.Ncli.Fields.{last_text}
use c3qo.Ncli.Samples.{small_shell, argv, client_block, base_world, starting}
use c3qo.Program.{new_world, main, run}
use c3qo.Program.Identity.{IsIdentity, run-IsIdentity}
use c3qo.Program.Client.{
  wait_loop, return_status, client_main, create_blocks, configure_blocks, start_blocks, is_waiting,
  destroy_blocks,
}
use c3qo.Program.Client.Waiting.{Lapses, expires, goes_on, waiting, wait_loop-expires}
use c3qo.Program.Client.Invariant.{client_main-Inv}
use c3qo.Program.Tests.{quiet_platform}

client_main-Inv_example :
    Post (λ _ w. Inv w) (client_main 3 small_shell quiet_platform 5 argv (new_world 1))
client_main-Inv_example = client_main-Inv 3 quiet_platform small_shell 5 argv 1

-- A client in its loop, whose answer is due at second 9; the clock shows the polls that are done.
abbrev in_loop : Ncli
in_loop = record starting { received_answer = some false; timeout_expired = some false }

abbrev due : Timer
due = record (answer_timer 0) { time = record { tv_sec = pos 9; tv_nsec = pos 0 } }

-- The polls at 7 and 8 find the date not passed; the one at 9 does.
lapses : Lapses quiet_system [] due.time 3 7 10
unfolding lt_timespec
lapses =
    goes_on (pos 0) [] _ refl refl refl refl
      (goes_on (pos 0) [] _ refl refl refl refl (expires (pos 0) [] _ refl refl refl refl))

wait_loop-expires_example :
    (wait_loop 2 quiet_platform 4 0
        (waiting 0 quiet_platform 0 client_block base_world (due ∷ []) in_loop 7)
      ≡ ok (
        tt,
        waiting 0 quiet_platform 0 client_block base_world []
            (record in_loop { timeout_expired = some true })
            10,
      ))
    × (return_status 0 (
          waiting 0 quiet_platform 0 client_block base_world []
            (record in_loop { timeout_expired = some true })
            10)
        ≡ ok (
          pos 1,
          waiting 0 quiet_platform 0 client_block base_world []
              (record in_loop { timeout_expired = some true })
              10,
        ))
wait_loop-expires_example =
    wait_loop-expires 0 quiet_platform 0 client_block base_world due in_loop 3 4 refl refl refl
      lapses (omega arith)

-- `c3qo -i probe`
abbrev program_options : List Opt
program_options = (pos b'i', some "probe") ∷ []

abbrev program_argv : List String
program_argv = "c3qo" ∷ "-i" ∷ "probe" ∷ []

program_options-Yields : Yields small_shell program_argv "hi:" 1 program_options 3
program_options-Yields = gives _ _ refl refl (ends none refl)

run-IsIdentity_example :
    (All IsIdentity program_options
      × (run 5 4 small_shell quiet_platform program_argv base_world
          ≡ (do main 5 4 quiet_platform (some "probe"); pure (pos 0))
              (record base_world { env = 3 })))
    ⊎ ((¬ All IsIdentity program_options)
        × ((e1 : ℕ) × (run 5 4 small_shell quiet_platform program_argv base_world
              ≡ ok (pos 1, record base_world { env = e1 }))))
unfolding last_text
run-IsIdentity_example =
    run-IsIdentity small_shell program_argv 5 4 quiet_platform base_world program_options-Yields
      (omega arith)

abbrev exit_status : Result (ℤ × World Class ℕ) → Option ℤ
exit_status (ok (n, w)) = some n
exit_status (fault e) = none

-- A client that gets no answer returns 1 after two rounds: none of its calls is refused.
client_returns :
    exit_status (client_main 5 small_shell quiet_platform 3 argv (new_world 1)) ≡ some (pos 1)
unfolding client_main create_blocks configure_blocks start_blocks is_waiting wait_loop return_status
    destroy_blocks options_parse parse_client parse_by_type parse_add parse_command option_loop
    take_client take_add ncli_at edit_ncli ncli_start ncli_stop ncli_on_timer ncli_data hook_start
    with_context with_socket open_socket connect_socket register_socket send_dummy send send_parts
    hook_stop hook_data fd_add register unregister erase_at fd_find find_from store_entry fd_remove
    fd_poll timer_check_exp check_loop timer_add timer_del schedule expiry_date lt_timespec lt_timer
    eq_timer insert sort remove part_of push_back build_block enter_block start_block stop_block
    delete_block destroy_block bind_block block_add block_get block_start block_stop block_bind
    block_del find_factory block_factory_register block_factory_unregister start_of stop_of
    on_timer_of data_of built_by vtable methods construct destruct same_class alloc free hook_at
    deref modify_block process_data UnorderedMap.find UnorderedMap.insert UnorderedMap.erase ◌+ℤ◌
    quot_ℤ rem_ℤ
client_returns = refl
