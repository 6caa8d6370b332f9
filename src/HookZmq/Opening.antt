-- ===== src/HookZmq/Opening.antt =====
-- block/hook_zmq, `start_`: how a hook opens its socket, or gives up.
use c3qo.Base.{
  ℕ, ◌≡◌, ap, ◌∙◌, true, false, none, some, ℤ, pos, negsuc, eq_ℤ, Ptr, if◌then◌else◌, ◌==◌, arith,
}
use c3qo.World.{Block, FileDesc, World, Sys, ok, update, deref}
use c3qo.World.Keeps.{update_twice, bind-ok, deref-live, write-live}
use c3qo.Classes.{Class, HookZmq, hook_zmq, hook_at, set_self}

-- `zmq_connect` or `zmq_bind`
abbrev pub reach : {E : Type 0} → Sys E → HookZmq → Ptr → E → ℤ × E
reach sys h socket e =
    if h.client then sys.zmq_connect socket h.addr e else sys.zmq_bind socket h.addr e

-- The calls of a start that opens a socket, with the context and the socket.
pub data Opens {E : Type 0} (sys : Sys E) (h : HookZmq) : E → ℕ → ℕ → E → Type 0 where
  opens :
      {e e1 e2 e3 e4 : E} {ctx s : ℕ} (rc : ℤ)
      → sys.zmq_ctx_new e ≡ (some ctx, e1)
      → sys.zmq_socket (some ctx) h.socket_type e1 ≡ (some s, e2)
      → sys.zmq_set_identity (some s) h.name e2 ≡ (pos 0, e3)
      → reach sys h (some s) e3 ≡ (rc, e4)
      → eq_ℤ rc (negsuc 0) ≡ false
      → Opens sys h e ctx s e4

-- The calls of a start that gives up, with what `zmq_socket` returned.
pub data GivesUp {E : Type 0} (sys : Sys E) (h : HookZmq) : E → ℕ → Ptr → E → Type 0 where
  no_socket :
      {e e1 e2 : E} {ctx : ℕ}
      → sys.zmq_ctx_new e ≡ (some ctx, e1)
      → sys.zmq_socket (some ctx) h.socket_type e1 ≡ (none, e2)
      → GivesUp sys h e ctx none e2
  no_identity :
      {e e1 e2 e3 : E} {ctx s : ℕ} (rc : ℤ)
      → sys.zmq_ctx_new e ≡ (some ctx, e1)
      → sys.zmq_socket (some ctx) h.socket_type e1 ≡ (some s, e2)
      → sys.zmq_set_identity (some s) h.name e2 ≡ (rc, e3)
      → eq_ℤ rc (pos 0) ≡ false
      → GivesUp sys h e ctx (some s) e3
  no_address :
      {e e1 e2 e3 e4 : E} {ctx s : ℕ} (rc : ℤ)
      → sys.zmq_ctx_new e ≡ (some ctx, e1)
      → sys.zmq_socket (some ctx) h.socket_type e1 ≡ (some s, e2)
      → sys.zmq_set_identity (some s) h.name e2 ≡ (pos 0, e3)
      → reach sys h (some s) e3 ≡ (rc, e4)
      → eq_ℤ rc (negsuc 0) ≡ true
      → GivesUp sys h e ctx (some s) e4

-- The entry of a hook in the vectors of the manager.
abbrev pub entry : ℕ → ℕ → FileDesc
entry p s = record { bk = some p; fd = negsuc 0; socket = some s; read = true; write = false }

module _ {E : Type 0} (p : ℕ) (b : Block Class) (w : World Class E) where
  -- The world with a hook at `p` whose fields are `h`, and the system in state `e`.
  abbrev pub hooked : HookZmq → E → World Class E
  hooked h e = record w { heap = update w.heap p (some (record b { self = hook_zmq h })); env = e }

  pub hooked-live :
      (h : HookZmq) (e : E) → (hooked h e).heap p ≡ some (record b { self = hook_zmq h })
  hooked-live h e = let self : (p == p) ≡ true = ground arith in rw self

  pub hook_at-hooked : (h : HookZmq) (e : E) → hook_at p (hooked h e) ≡ ok (h, hooked h e)
  unfolding hook_at
  hook_at-hooked h e =
      bind-ok (deref p) _ (hooked h e) _ (hooked h e)
        (deref-live p (hooked h e) _ (hooked-live h e))

  pub set_self-hooked :
      (h h' : HookZmq) (e : E) → set_self p (hook_zmq h') (hooked h e) ≡ ok (tt, hooked h' e)
  set_self-hooked h h' e =
      write-live p (hooked h e) _ _ (hooked-live h e)
      ∙ ap (λ x. ok (tt, record w { heap = x; env = e })) (update_twice w.heap p _ _)
