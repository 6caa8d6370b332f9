-- ===== src/Program.antt =====
-- app/src/c3qo.cpp: the monitored program. The log is left out, and a signal is a test of the
-- system's state.
pub mod Client
pub mod Identity
pub mod Delivery
pub mod Server
pub mod Ending
pub mod Leaving
pub mod Starting
pub mod Whole
pub mod Invariant
mod BlockTests
mod Tests
mod ClientTests
mod CommandTests
mod ServerTests
use c3qo.Base.{
  ℕ, zero, suc, Bool, true, false, ◌||◌, Option, none, some, eq_ℤ, List, [], ◌∷◌, String, ℤ, pos,
  negsuc, Ptr,
}
use c3qo.World.{
  Block, Manager, World, Vtable, M, call, ok, fault, fail, dangling, pure, out_of_fuel,
  null_pointer, not_null, ◌>>=◌, ◌>>◌,
}
use c3qo.Ncli.{text_at}
use c3qo.Ncli.Options.{Shell, is_option}
use c3qo.Classes.{Class, CharPtr, HookZmq, hook_zmq, hook_at, set_self}
use c3qo.Timer.{timer_check_exp, timer_clear}
use c3qo.Poll.{fd_poll}
use c3qo.Blocks.{
  block_get, block_add, block_start, block_bind, block_factory_register, block_factory_clear,
  block_clear, manager_start,
}
use c3qo.Dispatch.{Platform, vtable, hello_factory, trans_pb_factory, hook_zmq_factory}

-- `manager::manager`
abbrev pub new_manager : Manager
new_manager = record {
  is_term = true;
  bk_factory = [];
  bk_map = [];
  tm_list = [];
  callback = [];
  fd = [];
  epoch = 0;
}

abbrev pub new_world : {S E : Type 0} → E → World S E
new_world e = record { mgr = new_manager; heap = λ _. none; heap_next = 0; env = e }

-- `manager::~manager`; `n` bounds the rounds of `block_clear`.
unfoldable pub manager_destructor : {S E : Type 0} → ℕ → Vtable S E → M S E (Unit {0})
manager_destructor n v = do timer_clear; block_clear n v; block_factory_clear

-- The identifiers of the monitoring client and of the transcoder.
abbrev pub monitor : ℤ
monitor = negsuc 0

abbrev pub transcoder : ℤ
transcoder = negsuc 1

module _ {E : Type 0} where
  unfoldable pub register_factories : M Class E (Unit {0})
  register_factories = do
    block_factory_register "hello" hello_factory
    block_factory_register "trans_pb" trans_pb_factory
    block_factory_register "hook_zmq" hook_zmq_factory

  unfoldable pub add_monitor : ℕ → Platform E → CharPtr → M Class E (Unit {0})
  add_monitor n pf identity = do
    added ← block_add (vtable n pf) monitor "hook_zmq"
    p ← not_null (← block_get monitor)
    h ← hook_at p
    name ← text_at identity
    set_self p (
        hook_zmq (record h {
          socket_type = pf.sys.zmq_dealer;
          name = name;
          addr = "tcp://127.0.0.1:1664";
          client = true;
        }))
    started ← block_start (vtable n pf) monitor
    pure tt

  unfoldable pub add_transcoder : ℕ → Platform E → M Class E (Unit {0})
  add_transcoder n pf = do
    added ← block_add (vtable n pf) transcoder "trans_pb"
    started ← block_start (vtable n pf) transcoder
    there ← block_bind (vtable n pf) monitor (pos 0) transcoder
    back ← block_bind (vtable n pf) transcoder (pos 0) monitor
    pure tt

  -- `main` up to the loop
  unfoldable pub set_up : ℕ → Platform E → CharPtr → M Class E (Unit {0})
  set_up n pf identity = do
    register_factories
    add_monitor n pf identity
    add_transcoder n pf
    manager_start

  -- The main loop, a round for each unit of fuel; `n` bounds what happens in a round.
  unfoldable pub main_loop : ℕ → ℕ → Platform E → M Class E (Unit {0})
  main_loop zero n pf w = fault out_of_fuel
  main_loop (suc rounds) n pf w = elim (pf.end_signal w.env || w.mgr.is_term) [
    | true ↦ ok (tt, w)
    | false ↦
        (do
          polled ← fd_poll pf.sys (vtable n pf)
          timer_check_exp n pf.sys (vtable n pf)
          main_loop rounds n pf)
          w
  ]

  unfoldable pub main : ℕ → ℕ → Platform E → CharPtr → M Class E (Unit {0})
  main rounds n pf identity = do set_up n pf identity; main_loop rounds n pf

  -- The loop over the options of `main`, from the identity so far: `none` is an early return of 1.
  unfoldable pub identity_loop : ℕ → Shell E → List String → CharPtr → M Class E (Option CharPtr)
  identity_loop zero sh argv identity w = fault out_of_fuel
  identity_loop (suc n) sh argv identity w =
      (do
        (opt, arg) ← call (sh.getopt argv "hi:")
        elim (eq_ℤ opt (negsuc 0)) [
          | true ↦ pure (some identity)
          | false ↦ elim (is_option b'h' opt) [
            | true ↦ pure none
            | false ↦ elim (is_option b'i' opt) [
              | true ↦ identity_loop n sh argv arg
              | false ↦ pure none
            ]
          ]
        ])
        w

  -- `main` whole, with its exit status
  unfoldable pub run : ℕ → ℕ → Shell E → Platform E → List String → M Class E ℤ
  run rounds n sh pf argv = do
    chosen ← identity_loop n sh argv (some "default_identity")
    elim chosen [ none ↦ pure (pos 1) | some identity ↦ do main rounds n pf identity; pure (pos 0) ]
