-- ===== src/Program/Starting.antt =====
-- app/src/c3qo.cpp: the blocks of the monitored program once they are set up.
use c3qo.Base.{
  ℕ, suc, ◌≡◌, refl, ◌∙◌, true, false, Option, none, some, [], ◌∷◌, String, negsuc, eq_ℤ_iff,
  int_eq, string_eq,
}
use c3qo.UnorderedMap
use c3qo.World.{Block, World, Manager, PollItem, ok, update, deref, modify_block, alloc, pure}
use c3qo.World.Keeps.{bind-ok}
use c3qo.Classes.{Class, HookZmq, hook_zmq, trans_pb, hook_at}
use c3qo.Poll.{register, store_entry, fd_find, find_from}
use c3qo.Flow.{new_block}
use c3qo.HookZmq.{hook_start, new_hook_zmq}
use c3qo.HookZmq.Stopping.{started_world, after_dummy, start-dealer}
use c3qo.HookZmq.Opening.{Opens, entry, hooked}
use c3qo.Blocks.{
  block_get, block_add, block_start, block_bind, start_block, bind_block, build_block, enter_block,
  find_factory, block_factory_register, manager_start,
}
use c3qo.Dispatch.{Platform, vtable, methods, built_by, construct, start_of}
use c3qo.Program.{
  new_manager, new_world, register_factories, add_monitor, add_transcoder, set_up, monitor,
  transcoder,
}

-- What is polled.
abbrev pub polled_item : ℕ → PollItem
polled_item s = record {
  socket = some s;
  fd = negsuc 0;
  events = record { pollin = true; pollout = false };
}

module _ {E : Type 0} (pf : Platform E) (name : String) where
  -- The hook as `main` configures it.
  abbrev pub monitoring : HookZmq
  monitoring = record {
    zmq_ctx = none;
    zmq_socket = none;
    zmq_sock = none;
    client = true;
    socket_type = pf.sys.zmq_dealer;
    name = name;
    addr = "tcp://127.0.0.1:1664";
    rx_pkt = 0;
    tx_pkt = 0;
  }

  abbrev pub monitor_block : Block Class
  monitor_block = record {
    id = monitor;
    type_name = "hook_zmq";
    is_started = true;
    sink = none;
    self = hook_zmq monitoring;
  }

  -- The manager once the first block is entered, and the memory when it is configured.
  abbrev first_manager : Manager
  first_manager = record new_manager {
    bk_factory = ("hook_zmq", 3) ∷ ("trans_pb", 2) ∷ ("hello", 1) ∷ [];
    bk_map = (monitor, 0) ∷ [];
  }

  abbrev made : ℕ → Option (Block Class)
  made = update (λ _. none) 0 (some (new_block (new_hook_zmq pf.sys.zmq_pair)))

  abbrev named : ℕ → Option (Block Class)
  named = update made 0 (
      some (record (new_block (new_hook_zmq pf.sys.zmq_pair)) {
        id = monitor;
        type_name = "hook_zmq";
      }))

  abbrev configured : E → World Class E
  configured e = record {
    mgr = first_manager;
    heap = update named 0 (some (record monitor_block { is_started = false }));
    heap_next = 1;
    env = e;
  }

  abbrev monitored : ℕ → ℕ → E → World Class E
  monitored ctx s e = started_world pf.sys 0 monitor_block (configured e) monitoring ctx s e

  abbrev registered : E → World Class E
  registered e = record (new_world e) {
    mgr = record new_manager { bk_factory = ("hook_zmq", 3) ∷ ("trans_pb", 2) ∷ ("hello", 1) ∷ [] };
  }

  -- The two blocks once all is done.
  abbrev pub monitor_ready : ℕ → ℕ → Block Class
  monitor_ready ctx s = record monitor_block {
    self = hook_zmq (record monitoring {
      zmq_ctx = some (some ctx);
      zmq_socket = some (some s);
      zmq_sock = some (entry 0 s);
    });
    sink = some 1;
  }

  abbrev pub transcoder_ready : Block Class
  transcoder_ready = record {
    id = transcoder;
    type_name = "trans_pb";
    is_started = true;
    sink = some 0;
    self = trans_pb;
  }

  -- The world once all is done.
  pub record Ready (ctx s : ℕ) (e : E) (w : World Class E) : Type 0 where
    pub monitor_at : w.heap 0 ≡ some (monitor_ready ctx s)
    pub transcoder_at : w.heap 1 ≡ some transcoder_ready
    pub ids : w.mgr.bk_map ≡ (transcoder, 1) ∷ (monitor, 0) ∷ []
    pub callbacks : w.mgr.callback ≡ entry 0 s ∷ []
    pub fds : w.mgr.fd ≡ polled_item s ∷ []
    pub no_timers : w.mgr.tm_list ≡ []
    pub env : w.env ≡ e

  module _ (k : ℕ) where
    start-monitor :
        (ctx s : ℕ) {e e' : E}
        → Opens pf.sys monitoring e ctx s e'
        → block_start (vtable (suc k) pf) monitor (configured e)
          ≡ ok (true, monitored ctx s (after_dummy pf.sys s e'))
    unfolding block_start block_get UnorderedMap.find start_block deref modify_block vtable methods
        start_of
    start-monitor ctx s {e} {e'} o =
        let is =
          start-dealer pf.sys 0 monitor_block (configured e) monitoring ctx s
            ((eq_ℤ_iff pf.sys.zmq_dealer pf.sys.zmq_dealer).1 refl) o in
        bind-ok (hook_start pf.sys 0) _ (hooked 0 monitor_block (configured e) monitoring e) tt _ is

    register_factories-registered :
        (e : E) → register_factories (new_world e) ≡ ok (tt, registered e)
    unfolding register_factories block_factory_register UnorderedMap.insert UnorderedMap.find
    register_factories-registered e = refl

    add_monitor-configured :
        (e : E) (w' : World Class E)
        → block_start (vtable (suc k) pf) monitor (configured e) ≡ ok (true, w')
        → add_monitor (suc k) pf (some name) (registered e) ≡ ok (tt, w')
    unfolding UnorderedMap.insert UnorderedMap.find add_monitor block_add block_get find_factory
        build_block enter_block vtable methods built_by construct alloc modify_block hook_at deref
    add_monitor-configured e w' is =
        bind-ok (block_start (vtable (suc k) pf) monitor) (λ _. pure tt) (configured e) true w' is

    add_transcoder-Ready :
        (ctx s : ℕ) (e : E)
        → (w' : World Class E) × (add_transcoder (suc k) pf (monitored ctx s e) ≡ ok (tt, w'))
          × Ready ctx s e w'
    unfolding UnorderedMap.insert UnorderedMap.find add_transcoder block_add block_get find_factory
        build_block enter_block vtable methods built_by construct alloc modify_block deref
        block_start start_block start_of block_bind bind_block register store_entry fd_find
        find_from
    add_transcoder-Ready ctx s e = (
      _,
      refl,
      record {
        monitor_at = refl;
        transcoder_at = refl;
        ids = refl;
        callbacks = refl;
        fds = refl;
        no_timers = refl;
        env = refl;
      },
    )

    -- Where the socket of the monitoring hook opens, `main` comes to its loop: both blocks are started
    -- and bound to each other, the socket is polled for messages to read, no timer runs, and the
    -- manager is not terminating.
    pub set_up-Ready :
        (ctx s : ℕ) {e e' : E}
        → Opens pf.sys monitoring e ctx s e'
        → (w : World Class E) × (set_up (suc k) pf (some name) (new_world e) ≡ ok (tt, w))
          × Ready ctx s (after_dummy pf.sys s e') w
          × (w.mgr.is_term ≡ false)
    unfolding set_up manager_start
    set_up-Ready ctx s {e} {e'} o =
        let e2 = after_dummy pf.sys s e' in
        let w1 = monitored ctx s e2 in
        let (w2, ran, r) = add_transcoder-Ready ctx s e2 in
        let w3 : World Class E = record w2 { mgr = record w2.mgr { is_term = false } } in
        (
          w3,
          bind-ok register_factories _ (new_world e) tt (registered e)
                (register_factories-registered e)
              ∙ bind-ok (add_monitor (suc k) pf (some name)) _ (registered e) tt w1
                  (add_monitor-configured e w1 (start-monitor ctx s o))
              ∙ bind-ok (add_transcoder (suc k) pf) _ w1 tt w2 ran,
          record {
            monitor_at = r.monitor_at;
            transcoder_at = r.transcoder_at;
            ids = r.ids;
            callbacks = r.callbacks;
            fds = r.fds;
            no_timers = r.no_timers;
            env = r.env;
          },
          refl,
        )
