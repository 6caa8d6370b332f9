-- ===== src/Program/Client/Invariant.antt =====
-- app/src/ncli.cpp: the client keeps the invariant of the engine from its start to its end.
use c3qo.Base.{ℕ, zero, suc, true, false, List, String, pos}
use c3qo.World.{pure, fail, exited}
use c3qo.World.Keeps.{Post, Keeps, Keeps-bind}
use c3qo.Classes.{Class, hook_at, set_self, ncli_at, written}
use c3qo.Timer.{timer_check_exp}
use c3qo.Poll.{fd_poll}
use c3qo.Blocks.{
  block_get, block_add, block_start, block_stop, block_del, block_bind, block_factory_register,
  block_factory_unregister,
}
use c3qo.Blocks.Invariant.{
  block_add-Inv, block_start-Inv, block_stop-Inv, block_del-Inv, block_bind-Inv,
}
use c3qo.Dispatch.{Platform, vtable, hook_zmq_factory, ncli_factory}
use c3qo.Dispatch.Invariant.{vtable-Respects}
use c3qo.Ncli.Options.{Shell, asserted, options_parse}
use c3qo.Ncli.Invariant.Options.{asserted-Inv, options_parse-Inv}
use c3qo.Invariant.{Inv}
use c3qo.Invariant.Calls.{fd_poll-Inv, timer_check_exp-Inv}
use c3qo.Invariant.Rules.{
  Keeps-pure, Keeps-if, Keeps-written, Keeps-hook_at, Keeps-set_self, Keeps-ncli_at,
  Keeps-edit_ncli,
}
use c3qo.Program.{new_world}
use c3qo.Program.Invariant.{new_world-Inv, block_factory_register-Inv, block_get-Inv}
use c3qo.Program.Client.{
  hook_id, cli_id, create_blocks, configure_blocks, start_blocks, is_waiting, wait_loop,
  return_status, destroy_blocks, client_main,
}

module _ {E : Type 0} where
  block_factory_unregister-Inv :
      (type_name : String) → Keeps {S = Class} {E = E} Inv (block_factory_unregister type_name)
  unfolding block_factory_unregister
  block_factory_unregister-Inv type_name w i = record {
    registered = i.registered;
    unused = i.unused;
    timers = i.timers;
    table = i.table;
  }

  is_waiting-Inv : (p : ℕ) → Keeps {E = E} Inv (is_waiting p)
  unfolding is_waiting
  is_waiting-Inv p = Keeps-bind Inv (ncli_at p) _ (Keeps-ncli_at p) λ c.
      Keeps-bind Inv (written c.received_answer) _ (Keeps-written c.received_answer) λ answered.
        Keeps-if answered (pure false) _ (Keeps-pure false) (
          Keeps-bind Inv (written c.timeout_expired) _ (Keeps-written c.timeout_expired) λ expired.
            Keeps-if expired (pure false) (pure true) (Keeps-pure false) (Keeps-pure true))

  return_status-Inv : (p : ℕ) → Keeps {E = E} Inv (return_status p)
  unfolding return_status
  return_status-Inv p = Keeps-bind Inv (ncli_at p) _ (Keeps-ncli_at p) λ c.
      Keeps-bind Inv (written c.received_answer) _ (Keeps-written c.received_answer) λ answered.
        Keeps-if answered (pure (pos 0)) (pure (pos 1)) (Keeps-pure (pos 0)) (Keeps-pure (pos 1))

  module _ (n : ℕ) (pf : Platform E) where
    start_blocks-Inv : (p : ℕ) → Keeps Inv (start_blocks n pf p)
    unfolding start_blocks
    start_blocks-Inv p =
        let v = vtable n pf in
        let r = vtable-Respects n pf in
        Keeps-bind Inv (block_bind v hook_id (pos 0) cli_id) _
          (block_bind-Inv v r hook_id (pos 0) cli_id)
          λ _.
            Keeps-bind Inv (block_bind v cli_id (pos 0) hook_id) _
              (block_bind-Inv v r cli_id (pos 0) hook_id)
              λ _. Keeps-bind Inv (block_start v hook_id) _ (block_start-Inv v r hook_id) λ _.
                Keeps-bind Inv (block_start v cli_id) _ (block_start-Inv v r cli_id)
                  λ _. Keeps-edit_ncli p _

    wait_loop-Inv : (rounds p : ℕ) → Keeps Inv (wait_loop n pf rounds p)
    unfolding wait_loop
    wait_loop-Inv zero p = λ w i. tt
    wait_loop-Inv (suc rounds) p =
        let v = vtable n pf in
        let r = vtable-Respects n pf in
        Keeps-bind Inv (is_waiting p) _ (is_waiting-Inv p) λ waits.
          Keeps-if waits _ _
            (Keeps-bind Inv (fd_poll pf.sys v) _ (fd_poll-Inv v r pf.sys) λ _.
              Keeps-bind Inv (timer_check_exp n pf.sys v) _ (timer_check_exp-Inv v r n pf.sys)
                λ _. wait_loop-Inv rounds p)
            (Keeps-pure tt)

    destroy_blocks-Inv : Keeps Inv (destroy_blocks n pf)
    unfolding destroy_blocks
    destroy_blocks-Inv =
        let v = vtable n pf in
        let r = vtable-Respects n pf in
        Keeps-bind Inv (block_stop v hook_id) _ (block_stop-Inv v r hook_id) λ _.
          Keeps-bind Inv (block_stop v cli_id) _ (block_stop-Inv v r cli_id) λ _.
            Keeps-bind Inv (block_del v hook_id) _ (block_del-Inv v r hook_id) λ _.
              Keeps-bind Inv (block_del v cli_id) _ (block_del-Inv v r cli_id) λ _.
                Keeps-bind Inv (block_factory_unregister "ncli") _
                  (block_factory_unregister-Inv "ncli") λ _. block_factory_unregister-Inv "hook_zmq"

    module _ (sh : Shell E) where
      create_blocks-Inv : Keeps Inv (create_blocks n sh pf)
      unfolding create_blocks
      create_blocks-Inv =
          let v = vtable n pf in
          let r = vtable-Respects n pf in
          Keeps-bind Inv (block_factory_register "hook_zmq" hook_zmq_factory) _
            (block_factory_register-Inv "hook_zmq" _)
            λ _.
              Keeps-bind Inv (block_add v hook_id "hook_zmq") _
                (block_add-Inv v r hook_id "hook_zmq")
                λ _. Keeps-bind Inv (block_get hook_id) _ (block_get-Inv hook_id) λ found.
                  Keeps-bind Inv (asserted found) _ (asserted-Inv sh found) λ hook.
                    Keeps-bind Inv (block_factory_register "ncli" ncli_factory) _
                      (block_factory_register-Inv "ncli" _)
                      λ _.
                        Keeps-bind Inv (block_add v cli_id "ncli") _
                          (block_add-Inv v r cli_id "ncli")
                          λ _. Keeps-bind Inv (block_get cli_id) _ (block_get-Inv cli_id) λ found'.
                            Keeps-bind Inv (asserted found') _ (asserted-Inv sh found')
                              λ cli. Keeps-pure {A = ℕ × ℕ} (hook, cli)

      configure_blocks-Inv :
          (argv : List String) (hook p : ℕ) → Keeps Inv (configure_blocks n sh pf argv hook p)
      unfolding configure_blocks
      configure_blocks-Inv argv hook p = Keeps-bind Inv (hook_at hook) _ (Keeps-hook_at hook) λ h.
          Keeps-bind Inv (set_self hook _) _ (Keeps-set_self hook _) λ _.
            Keeps-bind Inv (options_parse sh n argv p) _ (options_parse-Inv sh n argv p)
              λ is_ok. Keeps-if is_ok (pure tt) (fail exited) (Keeps-pure tt) (λ w i. tt)

      -- When the client ends, on any command line and any system, every identifier leads to the live
      -- block that has it, the timers are sorted with one to an identifier, and the two vectors of
      -- descriptors are aligned with one entry to a key.
      pub client_main-Inv :
          (rounds : ℕ) (argv : List String) (e : E)
          → Post (λ _ w. Inv w) (client_main n sh pf rounds argv (new_world e))
      unfolding client_main
      client_main-Inv rounds argv e =
          Keeps-bind Inv (create_blocks n sh pf) _ create_blocks-Inv
            (λ made.
              Keeps-bind Inv (configure_blocks n sh pf argv made.0 made.1) _
                (configure_blocks-Inv argv made.0 made.1)
                λ _. Keeps-bind Inv (start_blocks n pf made.1) _ (start_blocks-Inv made.1) λ _.
                  Keeps-bind Inv (wait_loop n pf rounds made.1) _ (wait_loop-Inv rounds made.1) λ _.
                    Keeps-bind Inv (return_status made.1) _ (return_status-Inv made.1) λ status.
                      Keeps-bind Inv (destroy_blocks n pf) _ destroy_blocks-Inv
                        λ _. Keeps-pure status)
            (new_world e) (new_world-Inv e)
