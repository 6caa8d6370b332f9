-- ===== src/Program/Client.antt =====
-- app/src/ncli.cpp, `main`: the command line client.
pub mod Invariant
pub mod Waiting
pub mod Answered
use c3qo.Base.{ℕ, zero, suc, Bool, true, false, none, some, List, String, ℤ, pos}
use c3qo.World.{World, M, fault, pure, fail, out_of_fuel, exited, ◌>>=◌, ◌>>◌}
use c3qo.Classes.{Class, hook_zmq, hook_at, ncli_at, edit_ncli, set_self, written}
use c3qo.Timer.{timer_check_exp}
use c3qo.Poll.{fd_poll}
use c3qo.Blocks.{
  block_get, block_add, block_start, block_stop, block_del, block_bind, block_factory_register,
  block_factory_unregister,
}
use c3qo.Dispatch.{Platform, vtable, hook_zmq_factory, ncli_factory}
use c3qo.Ncli.Options.{Shell, asserted, options_parse}

-- The identifiers of the two blocks.
abbrev pub hook_id : ℤ
hook_id = pos 1

abbrev pub cli_id : ℤ
cli_id = pos 2

module _ {E : Type 0} where
  -- The test of the loop: whether to go on.
  unfoldable pub is_waiting : ℕ → M Class E Bool
  is_waiting cli = do
    c ← ncli_at cli
    answered ← written c.received_answer
    elim answered [
      | true ↦ pure false
      | false ↦ do
        expired ← written c.timeout_expired
        elim expired [ true ↦ pure false | false ↦ pure true ]
    ]

  unfoldable pub return_status : ℕ → M Class E ℤ
  return_status cli = do
    c ← ncli_at cli
    answered ← written c.received_answer
    elim answered [ true ↦ pure (pos 0) | false ↦ pure (pos 1) ]

module _ {E : Type 0} (n : ℕ) (pf : Platform E) where
  unfoldable pub start_blocks : ℕ → M Class E (Unit {0})
  start_blocks cli = do
    there ← block_bind (vtable n pf) hook_id (pos 0) cli_id
    back ← block_bind (vtable n pf) cli_id (pos 0) hook_id
    hook_started ← block_start (vtable n pf) hook_id
    cli_started ← block_start (vtable n pf) cli_id
    edit_ncli cli (λ c. record c { received_answer = some false; timeout_expired = some false })

  -- The loop that waits, a round for each unit of fuel.
  unfoldable pub wait_loop : ℕ → ℕ → M Class E (Unit {0})
  wait_loop zero cli w = fault out_of_fuel
  wait_loop (suc rounds) cli w =
      (do
        waiting ← is_waiting cli
        elim waiting [
          | false ↦ pure tt
          | true ↦ do
            polled ← fd_poll pf.sys (vtable n pf)
            timer_check_exp n pf.sys (vtable n pf)
            wait_loop rounds cli
        ])
        w

  unfoldable pub destroy_blocks : M Class E (Unit {0})
  destroy_blocks = do
    hook_stopped ← block_stop (vtable n pf) hook_id
    cli_stopped ← block_stop (vtable n pf) cli_id
    hook_deleted ← block_del (vtable n pf) hook_id
    cli_deleted ← block_del (vtable n pf) cli_id
    block_factory_unregister "ncli"
    block_factory_unregister "hook_zmq"

module _ {E : Type 0} (n : ℕ) (sh : Shell E) (pf : Platform E) where
  -- Creation: the addresses of the hook and of the client.
  unfoldable pub create_blocks : M Class E (ℕ × ℕ)
  create_blocks = do
    block_factory_register "hook_zmq" hook_zmq_factory
    hook_added ← block_add (vtable n pf) hook_id "hook_zmq"
    hook ← asserted (← block_get hook_id)
    block_factory_register "ncli" ncli_factory
    cli_added ← block_add (vtable n pf) cli_id "ncli"
    cli ← asserted (← block_get cli_id)
    pure (hook, cli)

  unfoldable pub configure_blocks : List String → ℕ → ℕ → M Class E (Unit {0})
  configure_blocks argv hook cli = do
    h ← hook_at hook
    set_self hook (
        hook_zmq (record h {
          client = true;
          socket_type = pf.sys.zmq_pair;
          addr = "tcp://127.0.0.1:1665";
        }))
    is_ok ← options_parse sh n argv cli
    elim is_ok [ true ↦ pure tt | false ↦ fail exited ]

  -- `main`, with the exit status that it returns
  unfoldable pub client_main : ℕ → List String → M Class E ℤ
  client_main rounds argv = do
    (hook, cli) ← create_blocks
    configure_blocks argv hook cli
    start_blocks n pf cli
    wait_loop n pf rounds cli
    status ← return_status cli
    destroy_blocks n pf
    pure status
