-- ===== src/World/Idle.antt =====
-- The methods of `struct block` itself, which do nothing (engine/src/block.cpp), with factories that
-- build nothing and a destructor that frees the block, and a system where nothing happens: what
-- examples start from.
use c3qo.Base.{ℕ, suc, false, none, some, [], pos, negsuc, length}
use c3qo.World.Monad.{Vtable, pure, ok}
use c3qo.World.Heap.{update}
use c3qo.World.System.{Sys}

abbrev pub idle : {S E : Type 0} → Vtable S E
idle = record {
  constructor = λ f. pure none;
  destructor = λ f p w. ok (tt, record w { heap = update w.heap p none });
  bind = λ p port q. pure tt;
  start = λ p. pure tt;
  stop = λ p. pure tt;
  on_timer = λ p t. pure tt;
  on_fd = λ p d. pure tt;
  on_data = λ p m. pure false;
  on_ctrl = λ p m. pure tt;
}

-- The state counts the calls of `zmq_poll`; no descriptor is ever ready.
abbrev pub quiet_system : Sys ℕ
quiet_system = record {
  zmq_pair = pos 0;
  zmq_dealer = pos 5;
  zmq_router = pos 6;
  zmq_proxy = λ from to e. (negsuc 0, e);
  clock_gettime = λ e. (record { tv_sec = pos e; tv_nsec = pos 0 }, e);
  zmq_poll = λ items timeout e. ((pos 0, []), suc e);
  zmq_ctx_new = λ e. (some 1, e);
  zmq_socket = λ ctx type e. (some 2, e);
  zmq_set_identity = λ s name e. (pos 0, e);
  zmq_connect = λ s addr e. (pos 0, e);
  zmq_bind = λ s addr e. (pos 0, e);
  zmq_close = λ s e. e;
  zmq_ctx_term = λ ctx e. e;
  zmq_msg_recv = λ s e. (record { ret = negsuc 0; bytes = []; more = false }, e);
  zmq_msg_send = λ s bytes more e. (pos (length bytes), e);
}
