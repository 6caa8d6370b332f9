-- ===== src/HookZmq/Invariant.antt =====
-- The methods of block/hook_zmq keep the invariant of the engine.
use c3qo.Base.{
  ℕ, zero, suc, Bool, true, false, not, none, some, List, [], ◌∷◌, pos, negsuc, eq_ℤ, Ptr, eq_ptr,
  take, length, Bool-cases, Option-cases, inl, inr, int_eq, string_eq,
}
use c3qo.Buffer.{Buffer, BufferPart, no_parts, push_back}
use c3qo.World.{FileDesc, Vtable, Message, Sys, M, pure, call, ◌>>=◌}
use c3qo.World.Keeps.{Keeps, Keeps-bind}
use c3qo.Classes.{Class, hook_zmq, HookZmq, hook_at, written, set_self}
use c3qo.HookZmq.{
  append, recv, send_parts, send, hook_on_fd, send_dummy, with_socket, with_context,
  register_socket, connect_socket, open_socket, hook_start, hook_stop, hook_data, not_positive,
  is_last,
}
use c3qo.Poll.{fd_add, fd_remove}
use c3qo.Invariant.{Inv, Respects}
use c3qo.Invariant.Calls.{Inv-call, fd_add-Inv, fd_remove-Inv, process_data-Inv}
use c3qo.Invariant.Rules.{Keeps-pure, Keeps-if, Keeps-set_self, Keeps-written, Keeps-hook_at}

module _ {E : Type 0} where
  pub append-Inv :
      (buf : Buffer) (mem : List ℕ) (n : ℕ) → Keeps {S = Class} {E = E} Inv (append buf mem n)
  append-Inv buf mem n w i = elim (Option-cases (push_back buf mem n)) [
    | inl over ↦ rw (over, append) tt
    | inr (b, fits) ↦ rw (fits, append) i
  ]

  recv-Inv :
      (n : ℕ) (sys : Sys E) (socket : Ptr) (buf : Buffer)
      → Keeps {S = Class} {E = E} Inv (recv n sys socket buf)
  unfolding recv
  recv-Inv zero sys socket buf w i = tt
  recv-Inv (suc n) sys socket buf w i =
      Keeps-bind Inv (call (sys.zmq_msg_recv socket)) _ (Inv-call (sys.zmq_msg_recv socket))
        (λ part.
          Keeps-if (not_positive part.ret) (pure (false, buf)) _
            (Keeps-pure {A = Bool × Buffer} (false, buf))
            (Keeps-bind Inv (append buf part.bytes (length part.bytes)) _
              (append-Inv buf part.bytes (length part.bytes))
              λ buf'.
                Keeps-if part.more (recv n sys socket buf') (pure (true, buf'))
                  (recv-Inv n sys socket buf') (Keeps-pure {A = Bool × Buffer} (true, buf'))))
        w i

  send_parts-Inv :
      (sys : Sys E) (socket : Ptr) (l : List BufferPart)
      → Keeps {S = Class} {E = E} Inv (send_parts sys socket l)
  unfolding send_parts
  send_parts-Inv sys socket [] = Keeps-pure true
  send_parts-Inv sys socket (part ∷ rest) =
      let sent = sys.zmq_msg_send socket (take part.len part.bytes) (not (is_last rest)) in
      Keeps-bind Inv (call sent) _ (Inv-call sent) λ rc.
        Keeps-if (eq_ℤ rc (negsuc 0)) (pure false) (send_parts sys socket rest) (Keeps-pure false)
          (send_parts-Inv sys socket rest)

  send-Inv : (sys : Sys E) (p : ℕ) (buf : Buffer) → Keeps {S = Class} {E = E} Inv (send sys p buf)
  unfolding send
  send-Inv sys p buf = go buf.parts
    where
      go :
          (l : List BufferPart)
          → Keeps {S = Class} {E = E} Inv (elim l as (λ _. M Class E Bool) [
            | [] ↦ pure true
            | part ∷ rest ↦ do
              h ← hook_at p
              socket ← written h.zmq_socket
              send_parts sys socket (part ∷ rest)
          ])
      go [] = Keeps-pure true
      go (part ∷ rest) = Keeps-bind Inv (hook_at p) _ (Keeps-hook_at p) λ h.
          Keeps-bind Inv (written h.zmq_socket) _ (Keeps-written _)
            λ socket. send_parts-Inv sys socket (part ∷ rest)

  pub hook_data-Inv :
      (sys : Sys E) (p : ℕ) (m : Message) → Keeps {S = Class} {E = E} Inv (hook_data sys p m)
  unfolding hook_data
  hook_data-Inv sys p none = Keeps-pure false
  hook_data-Inv sys p (some buf) = Keeps-bind Inv (send sys p buf) _ (send-Inv sys p buf) λ is_ok.
      Keeps-if is_ok _ (pure false)
        (Keeps-bind Inv (hook_at p) _ (Keeps-hook_at p)
          λ h. Keeps-bind Inv (set_self p _) _ (Keeps-set_self p _) λ _. Keeps-pure false)
        (Keeps-pure false)

  pub hook_on_fd-Inv :
      (n : ℕ) (sys : Sys E) (v : Vtable Class E)
      → Respects v
      → (p : ℕ) (d : FileDesc) → Keeps Inv (hook_on_fd n sys v p d)
  unfolding hook_on_fd
  hook_on_fd-Inv n sys v r p d = Keeps-bind Inv (hook_at p) _ (Keeps-hook_at p) λ h.
      Keeps-bind Inv (written h.zmq_socket) _ (Keeps-written _) λ socket.
        Keeps-if (eq_ptr d.socket socket) _ (pure tt)
          (Keeps-bind Inv (recv n sys socket no_parts) _ (recv-Inv n sys socket no_parts) λ got.
            Keeps-if got.0 _ (pure tt)
              (Keeps-bind Inv (set_self p _) _ (Keeps-set_self p _)
                λ _. process_data-Inv v r n (some got.1) p)
              (Keeps-pure tt))
          (Keeps-pure tt)

  send_dummy-Inv : (sys : Sys E) (p : ℕ) → Keeps {S = Class} {E = E} Inv (send_dummy sys p)
  unfolding send_dummy
  send_dummy-Inv sys p =
      Keeps-bind Inv (append no_parts _ 5) _ (append-Inv no_parts _ 5)
        λ buf. Keeps-bind Inv (send sys p buf) _ (send-Inv sys p buf) λ _. Keeps-pure tt

  register_socket-Inv :
      (sys : Sys E) (p : ℕ) (h : HookZmq) (socket : Ptr)
      → Keeps {S = Class} {E = E} Inv (register_socket sys p h socket)
  unfolding register_socket
  register_socket-Inv sys p h socket = Keeps-bind Inv (set_self p _) _ (Keeps-set_self p _) λ _.
      Keeps-bind Inv (fd_add _) _ (fd_add-Inv _) λ _.
        Keeps-if (eq_ℤ h.socket_type sys.zmq_dealer) _ (pure tt) (send_dummy-Inv sys p)
          (Keeps-pure tt)

  connect_socket-Inv :
      (sys : Sys E) (h : HookZmq) (socket : Ptr)
      → Keeps {S = Class} {E = E} Inv (connect_socket sys h socket)
  unfolding connect_socket
  connect_socket-Inv sys h socket w i = elim (Bool-cases h.client) [
    | inl client ↦ rw client (Inv-call (sys.zmq_connect socket h.addr) w i)
    | inr server ↦ rw server (Inv-call (sys.zmq_bind socket h.addr) w i)
  ]

  open_socket-Inv :
      (sys : Sys E) (p : ℕ) (h : HookZmq) (socket : Ptr)
      → Keeps {S = Class} {E = E} Inv (open_socket sys p h socket)
  unfolding open_socket
  open_socket-Inv sys p h socket =
      let identified = sys.zmq_set_identity socket h.name in
      Keeps-bind Inv (call identified) _ (Inv-call identified) λ identity.
        Keeps-if (eq_ℤ identity (pos 0)) _ (pure tt)
          (Keeps-bind Inv (connect_socket sys h socket) _ (connect_socket-Inv sys h socket)
            λ connected.
              Keeps-if (eq_ℤ connected (negsuc 0)) (pure tt) (register_socket sys p h socket)
                (Keeps-pure tt) (register_socket-Inv sys p h socket))
          (Keeps-pure tt)

  with_socket-Inv :
      (sys : Sys E) (p : ℕ) (h : HookZmq) (socket : Ptr)
      → Keeps {S = Class} {E = E} Inv (with_socket sys p h socket)
  unfolding with_socket
  with_socket-Inv sys p h none = Keeps-pure tt
  with_socket-Inv sys p h (some s) = open_socket-Inv sys p h (some s)

  with_context-Inv :
      (sys : Sys E) (p : ℕ) (h : HookZmq) (ctx : Ptr)
      → Keeps {S = Class} {E = E} Inv (with_context sys p h ctx)
  unfolding with_context
  with_context-Inv sys p h none = λ w i. tt
  with_context-Inv sys p h (some ctx) =
      let opened = sys.zmq_socket (some ctx) h.socket_type in
      Keeps-bind Inv (call opened) _ (Inv-call opened) λ socket.
        let h' : HookZmq = record h { zmq_ctx = some (some ctx); zmq_socket = some socket } in
        Keeps-bind Inv (set_self p (hook_zmq h')) _ (Keeps-set_self p (hook_zmq h'))
          λ _. with_socket-Inv sys p h' socket

  pub hook_start-Inv : (sys : Sys E) (p : ℕ) → Keeps {S = Class} {E = E} Inv (hook_start sys p)
  unfolding hook_start
  hook_start-Inv sys p = Keeps-bind Inv (call sys.zmq_ctx_new) _ (Inv-call sys.zmq_ctx_new) λ ctx.
      Keeps-bind Inv (hook_at p) _ (Keeps-hook_at p) λ h.
        let s = hook_zmq (record h { zmq_ctx = some ctx }) in
        Keeps-bind Inv (set_self p s) _ (Keeps-set_self p s) λ _. with_context-Inv sys p h ctx

  pub hook_stop-Inv : (sys : Sys E) (p : ℕ) → Keeps {S = Class} {E = E} Inv (hook_stop sys p)
  unfolding hook_stop
  hook_stop-Inv sys p = Keeps-bind Inv (hook_at p) _ (Keeps-hook_at p) λ h.
      Keeps-bind Inv (written h.zmq_socket) _ (Keeps-written _) λ socket.
        Keeps-bind Inv (written h.zmq_sock) _ (Keeps-written _) λ d.
          Keeps-bind Inv (fd_remove _) _ (fd_remove-Inv (record d { socket = socket })) λ _.
            let closed : E → Unit {0} × E = λ e. (tt, sys.zmq_close socket e) in
            Keeps-bind Inv (call closed) _ (Inv-call closed) λ _.
              let ended : Ptr → E → Unit {0} × E = λ ctx e. (tt, sys.zmq_ctx_term ctx e) in
              Keeps-bind Inv (written h.zmq_ctx) (λ ctx. call (ended ctx)) (Keeps-written _)
                λ ctx. Inv-call (ended ctx)
