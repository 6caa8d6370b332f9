-- ===== src/Dispatch.antt =====
-- The virtual methods of the repository's blocks and factories: which method runs for which class.
-- A block's class stands in its own part; a factory is known by its address. Methods call one
-- another through the manager, so a table of depth `n` may nest `n` calls; at depth 0 there is
-- none left, and the call faults with `out_of_fuel`.
pub mod Invariant
pub mod Serving
pub mod Returning
pub mod Carrying
use c3qo.Base.{
  String, ◌≡◌, ℕ, zero, suc, Bool, true, false, Option, none, some, List, ℤ, Ptr, ◌==◌,
  if◌then◌else◌,
}
use c3qo.World.{
  Block, World, FileDesc, Timer, Message, Vtable, Sys, M, pure, fail, out_of_fuel, bad_cast, deref,
  alloc, free, ◌>>=◌, ◌>>◌,
}
use c3qo.World.Keeps.{bind-ok, deref-live}
use c3qo.Classes.{Class, CharPtr, Ncli, plain, hello, hook_zmq, trans_pb, ncli}
use c3qo.Hello.{new_hello, hello_data, hello_ctrl}
use c3qo.HookZmq.{new_hook_zmq, hook_start, hook_stop, hook_data, hook_on_fd}
use c3qo.Command.{Command}
use c3qo.TransPb.{trans_data}
use c3qo.Ncli.{new_ncli, ncli_start, ncli_stop, ncli_data, ncli_on_timer}
use c3qo.Flow.{new_block}

-- The addresses of the factories.
abbrev pub hello_factory : ℕ
hello_factory = 1

abbrev pub trans_pb_factory : ℕ
trans_pb_factory = 2

abbrev pub hook_zmq_factory : ℕ
hook_zmq_factory = 3

abbrev pub ncli_factory : ℕ
ncli_factory = 4

-- What a program runs on: the system calls, `command__unpack` and `command__pack`, and whether a
-- signal has come.
pub record Platform (E : Type 0) : Type 0 where
  pub sys : Sys E
  pub unpack : List ℕ → Option (Command String)
  pub pack : Command CharPtr → List ℕ
  pub end_signal : E → Bool

-- The class that a factory builds, as its constructor leaves it.
unfoldable pub built_by : ℤ → ℕ → Option Class
built_by zmq_pair f =
    if f == hello_factory
    then some new_hello
    else if f == trans_pb_factory
    then some trans_pb
    else if f == hook_zmq_factory
    then some (new_hook_zmq zmq_pair)
    else if f == ncli_factory
    then some new_ncli
    else none

unfoldable pub same_class : Class → Class → Bool
same_class plain plain = true
same_class (hello _) (hello _) = true
same_class (hook_zmq _) (hook_zmq _) = true
same_class trans_pb trans_pb = true
same_class (ncli _) (ncli _) = true
same_class _ _ = false

module _ {E : Type 0} where
  -- `new struct …(mgr)`; a factory at another address fails
  unfoldable pub construct : Option Class → M Class E Ptr
  construct none = pure none
  construct (some s) = do p ← alloc (new_block s); pure (some p)

  -- `delete static_cast<struct … *>(bk)`
  unfoldable pub destruct : Option Class → ℕ → M Class E (Unit {0})
  unfolding same_class
  destruct none p = fail bad_cast
  destruct (some s) p = do
    b ← deref p
    elim (same_class s b.self) [ true ↦ free p | false ↦ fail bad_cast ]

  unfoldable pub start_of : ℕ → Platform E → Vtable Class E → ℕ → Class → M Class E (Unit {0})
  start_of n pf v p (hook_zmq h) = hook_start pf.sys p
  start_of n pf v p (ncli c) = ncli_start n pf.sys v pf.pack p
  start_of n pf v p _ = pure tt

  unfoldable pub stop_of : Sys E → ℕ → Class → M Class E (Unit {0})
  stop_of sys p (hook_zmq h) = hook_stop sys p
  stop_of sys p (ncli c) = ncli_stop p
  stop_of sys p _ = pure tt

  unfoldable pub on_timer_of : ℕ → Timer → Class → M Class E (Unit {0})
  on_timer_of p t (ncli c) = ncli_on_timer p t
  on_timer_of p t _ = pure tt

  unfoldable pub on_fd_of : ℕ → Sys E → Vtable Class E → ℕ → FileDesc → Class → M Class E (Unit {0})
  on_fd_of n sys v p d (hook_zmq h) = hook_on_fd n sys v p d
  on_fd_of n sys v p d _ = pure tt

  unfoldable pub data_of : ℕ → Platform E → Vtable Class E → ℕ → Message → Class → M Class E Bool
  data_of n pf v p msg plain = pure false
  data_of n pf v p msg (hello h) = hello_data p msg
  data_of n pf v p msg (hook_zmq h) = hook_data pf.sys p msg
  data_of n pf v p msg trans_pb = trans_data n v pf.unpack p msg
  data_of n pf v p msg (ncli c) = ncli_data p msg

  ctrl_of : ℕ → Message → Class → M Class E (Unit {0})
  ctrl_of p msg (hello h) = hello_ctrl p msg
  ctrl_of p msg _ = pure tt

  abbrev pub by_class : {A : Type 0} → ℕ → (Class → M Class E A) → M Class E A
  by_class p f = do b ← deref p; f b.self

  -- The methods, where those that they call are given.
  unfoldable pub methods : ℕ → Platform E → Vtable Class E → Vtable Class E
  unfolding start_of stop_of on_timer_of on_fd_of data_of ctrl_of built_by
  methods n pf v = record {
    constructor = λ f. construct (built_by pf.sys.zmq_pair f);
    destructor = λ f p. destruct (built_by pf.sys.zmq_pair f) p;
    bind = λ p port q. by_class p (λ _. pure tt);
    start = λ p. by_class p (start_of n pf v p);
    stop = λ p. by_class p (stop_of pf.sys p);
    on_timer = λ p t. by_class p (on_timer_of p t);
    on_fd = λ p d. by_class p (on_fd_of n pf.sys v p d);
    on_data = λ p msg. by_class p (data_of n pf v p msg);
    on_ctrl = λ p msg. by_class p (ctrl_of p msg);
  }

  abbrev pub exhausted : Vtable Class E
  exhausted = record {
    constructor = λ f. fail out_of_fuel;
    destructor = λ f p. fail out_of_fuel;
    bind = λ p port q. fail out_of_fuel;
    start = λ p. fail out_of_fuel;
    stop = λ p. fail out_of_fuel;
    on_timer = λ p t. fail out_of_fuel;
    on_fd = λ p d. fail out_of_fuel;
    on_data = λ p msg. fail out_of_fuel;
    on_ctrl = λ p msg. fail out_of_fuel;
  }

  unfoldable pub vtable : ℕ → Platform E → Vtable Class E
  vtable zero pf = exhausted
  vtable (suc n) pf = methods n pf (vtable n pf)

  -- The timer of a client.
  pub on_timer-ncli :
      (n : ℕ) (pf : Platform E) (p : ℕ) (t : Timer) (w : World Class E) (b : Block Class) (c : Ncli)
      → w.heap p ≡ some (record b { self = ncli c })
      → (vtable (suc n) pf).on_timer p t w ≡ ncli_on_timer p t w
  unfolding vtable methods on_timer_of
  on_timer-ncli n pf p t w b c live = bind-ok (deref p) _ w _ w (deref-live p w _ live)
