-- ===== src/HookZmq/Tests.antt =====
-- An example of the framing: a system that is no more than the frames on their way.
use c3qo.Base.{
  ℕ, ◌≡◌, refl, Bool, true, false, none, some, List, [], ◌∷◌, ◌++◌, pos, negsuc, length, arith,
}
use c3qo.Buffer.{whole, BufferPart, no_parts}
use c3qo.World.{Block, World, Sys, Received, ok, fault, uninitialised, ◌>>=◌}
use c3qo.Classes.{Class, HookZmq, hook_zmq}
use c3qo.Flow.{new_block}
use c3qo.Poll.{register}
use c3qo.HookZmq.{recv, send_parts, hook_start, hook_stop}
use c3qo.HookZmq.Opening.{entry, hooked, opens, no_address}
use c3qo.HookZmq.Starting.{with_handles}
use c3qo.HookZmq.Stopping.{hook_stop-hook_start, hook_stop-GivesUp}
use c3qo.HookZmq.Framing.{IsPipe, send_parts-recv}

abbrev Wire : Type 0
Wire = List (List ℕ × Bool)

abbrev receive : Wire → Received × Wire
receive [] = (record { ret = negsuc 0; bytes = []; more = false }, [])
receive ((bytes, more) ∷ rest) =
    (record { ret = pos (length bytes); bytes = bytes; more = more }, rest)

abbrev wire : Sys Wire
wire = record {
  zmq_pair = pos 0;
  zmq_dealer = pos 5;
  zmq_router = pos 6;
  zmq_proxy = λ from to e. (negsuc 0, e);
  clock_gettime = λ e. (record { tv_sec = pos 0; tv_nsec = pos 0 }, e);
  zmq_poll = λ items timeout e. ((pos 0, []), e);
  zmq_ctx_new = λ e. (some 1, e);
  zmq_socket = λ ctx type e. (some 2, e);
  zmq_set_identity = λ s name e. (pos 0, e);
  zmq_connect = λ s addr e. (pos 0, e);
  zmq_bind = λ s addr e. (pos 0, e);
  zmq_close = λ s e. e;
  zmq_ctx_term = λ ctx e. e;
  zmq_msg_recv = λ s e. receive e;
  zmq_msg_send = λ s bytes more e. (pos (length bytes), e ++ (bytes, more) ∷ []);
}

wire-IsPipe : IsPipe wire (some 2) (some 3) (λ e. e)
wire-IsPipe = record {
  sends = λ bytes more e. (ground arith, refl);
  receives = λ bytes more rest e q. rw q (refl, refl);
}

abbrev world : World Class Wire
world = record {
  mgr = record {
    is_term = true;
    bk_factory = [];
    bk_map = [];
    tm_list = [];
    callback = [];
    fd = [];
    epoch = 0;
  };
  heap = λ _. none;
  heap_next = 0;
  env = [];
}

abbrev parts : List BufferPart
parts = whole (80 ∷ []) ∷ whole (1 ∷ 2 ∷ 3 ∷ []) ∷ []

send_parts-recv_example :
    (e : Wire) × ((do sent ← send_parts wire (some 2) parts; recv 2 wire (some 3) no_parts) world
      ≡ ok ((true, record { parts = parts }), record world { env = e }))
    × (e ≡ [])
send_parts-recv_example =
    send_parts-recv wire (some 2) (some 3) (λ e. e) wire-IsPipe parts 2 world
      ((80 ∷ [], refl, omega arith), ((1 ∷ 2 ∷ 3 ∷ [], refl, omega arith), tt)) (omega arith)
      (omega arith) refl

-- A hook that is bound to an address, in a block of its own.
abbrev server : HookZmq
server = record {
  zmq_ctx = none;
  zmq_socket = none;
  zmq_sock = none;
  client = false;
  socket_type = pos 0;
  name = "";
  addr = "tcp://127.0.0.1:6666";
  rx_pkt = 0;
  tx_pkt = 0;
}

abbrev server_block : Block Class
server_block = new_block (hook_zmq server)

hook_stop-hook_start_example :
    (u : World Class Wire) × (u' : World Class Wire) × (hook_start wire 4
        (hooked 4 server_block world server [])
      ≡ ok (tt, u))
    × (u.mgr ≡ register (entry 4 2) world.mgr)
    × (hook_stop wire 4 u ≡ ok (tt, u'))
    × (u'.mgr.fd ≡ [])
    × (u'.mgr.callback ≡ [])
    × (u'.env ≡ wire.zmq_ctx_term (some 1) (wire.zmq_close (some 2) u.env))
hook_stop-hook_start_example =
    hook_stop-hook_start wire 4 server_block world server 1 2
      (record { aligned = tt; distinct = tt; usable = tt }) tt
      (opens (pos 0) refl refl refl refl refl)

-- The address is taken.
abbrev taken : Sys Wire
taken = record wire { zmq_bind = λ s addr e. (negsuc 0, e) }

hook_stop-GivesUp_example :
    (hook_start taken 4 (hooked 4 server_block world server [])
      ≡ ok (
        tt,
        hooked 4 server_block world (with_handles taken 4 server_block world server 1 (some 2)) [],
      ))
    × (hook_stop taken 4 (
          hooked 4 server_block world
            (with_handles taken 4 server_block world server 1 (some 2))
            [])
        ≡ fault uninitialised)
hook_stop-GivesUp_example =
    hook_stop-GivesUp taken 4 server_block world server 1 (some 2) refl
      (no_address (negsuc 0) refl refl refl refl refl)
