-- ===== src/Proxy.antt =====
-- app/src/proxy.cpp: two hooks, and the messages between them, which ZeroMQ carries. The hooks are
-- local objects: blocks that no identifier leads to. The log and the signal handler, which does
-- nothing, are left out.
pub mod Ending
mod Tests
use c3qo.Base.{ℕ, Bool, true, false, String, ℤ, pos, negsuc, eq_ℤ}
use c3qo.World.{M, Sys, pure, fail, call, alloc, exited, ◌>>=◌, ◌>>◌}
use c3qo.Classes.{Class, hook_zmq, hook_at, set_self, written}
use c3qo.Flow.{new_block}
use c3qo.HookZmq.{new_hook_zmq, hook_start, hook_stop}

module _ {E : Type 0} (sys : Sys E) where
  -- A local hook of a type, bound to an address and started.
  unfoldable pub local_hook : ℤ → String → M Class E ℕ
  local_hook socket_type addr = do
    p ← alloc (new_block (new_hook_zmq sys.zmq_pair))
    h ← hook_at p
    set_self p (hook_zmq (record h { socket_type = socket_type; client = false; addr = addr }))
    hook_start sys p
    pure p

  -- The call of `zmq_proxy`, and the end.
  unfoldable pub carry : ℕ → ℕ → M Class E ℤ
  carry frontend backend = do
    f ← hook_at frontend
    from ← written f.zmq_socket
    b ← hook_at backend
    to ← written b.zmq_socket
    rc ← call (sys.zmq_proxy from to)
    elim (eq_ℤ rc (negsuc 0)) [
      | false ↦ fail exited
      | true ↦ do hook_stop sys backend; hook_stop sys frontend; pure (pos 0)
    ]

  -- `main`, with its exit status
  unfoldable pub proxy_main : M Class E ℤ
  proxy_main = do
    frontend ← local_hook sys.zmq_router "tcp://127.0.0.1:1664"
    backend ← local_hook sys.zmq_pair "tcp://127.0.0.1:1665"
    carry frontend backend
