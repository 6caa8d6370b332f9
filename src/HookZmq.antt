-- ===== src/HookZmq.antt =====
-- block/hook_zmq: a block that joins the data flow to a ZeroMQ socket.
pub mod Opening
pub mod Starting
pub mod Stopping
pub mod Framing
pub mod Passing
mod Tests
pub mod Invariant
use c3qo.Base.{
  ℕ, zero, suc, ◌+◌, ◌%◌, ◌^◌, Bool, true, false, not, Option, none, some, List, [], ◌∷◌, String, ℤ,
  pos, negsuc, eq_ℤ, ltb_ℤ, leb, Ptr, eq_ptr, take, length, codes, if◌then◌else◌,
}
use c3qo.Buffer.{Buffer, BufferPart, no_parts, push_back}
use c3qo.World.{
  FileDesc, Block, Message, World, Vtable, Sys, Received, M, ok, fault, pure, fail, call,
  out_of_fuel, out_of_range, exited, uninitialised, deref, ◌>>=◌, ◌>>◌,
}
use c3qo.Classes.{Class, HookZmq, hook_zmq, hook_at, set_self, written}
use c3qo.Poll.{fd_add, fd_remove}
use c3qo.Flow.{process_data}

abbrev pub word : ℕ
word = 2 ^ 64

abbrev pub new_hook_zmq : ℤ → Class
new_hook_zmq zmq_pair = hook_zmq (record {
  zmq_ctx = none;
  zmq_socket = none;
  zmq_sock = none;
  client = false;
  socket_type = zmq_pair;
  name = "";
  addr = "tcp://127.0.0.1:6666";
  rx_pkt = 0;
  tx_pkt = 0;
})

-- `ret <= 0`
abbrev pub not_positive : ℤ → Bool
not_positive ret = not (ltb_ℤ (pos 0) ret)

-- `idx == buf.parts_.size() - 1`, by the parts behind
abbrev pub is_last : List BufferPart → Bool
is_last [] = true
is_last (_ ∷ _) = false

module _ {E : Type 0} where
  abbrev pub append : Buffer → List ℕ → ℕ → M Class E Buffer
  append buf mem size = elim (push_back buf mem size) [ none ↦ fail out_of_range | some b ↦ pure b ]

  -- The loop of `recv_`, a part for each unit of fuel; `buf` is handed back as it was filled.
  unfoldable pub recv : ℕ → Sys E → Ptr → Buffer → M Class E (Bool × Buffer)
  recv zero sys socket buf w = fault out_of_fuel
  recv (suc n) sys socket buf w =
      (do
        part ← call (sys.zmq_msg_recv socket)
        elim (not_positive part.ret) [
          | true ↦ pure (false, buf)
          | false ↦ do
            buf' ← append buf part.bytes (length part.bytes)
            elim part.more [ true ↦ recv n sys socket buf' | false ↦ pure (true, buf') ]
        ])
        w

  -- The loop of `send_` over the parts that are left.
  unfoldable pub send_parts : Sys E → Ptr → List BufferPart → M Class E Bool
  send_parts sys socket [] = pure true
  send_parts sys socket (part ∷ rest) = do
    rc ← call (sys.zmq_msg_send socket (take part.len part.bytes) (not (is_last rest)))
    elim (eq_ℤ rc (negsuc 0)) [ true ↦ pure false | false ↦ send_parts sys socket rest ]

  -- `send_`, from the block at `p`: the socket is read only if there is a part.
  unfoldable pub send : Sys E → ℕ → Buffer → M Class E Bool
  send sys p buf = elim buf.parts [
    | [] ↦ pure true
    | part ∷ rest ↦ do
      h ← hook_at p
      socket ← written h.zmq_socket
      send_parts sys socket (part ∷ rest)
  ]

  -- `n` bounds the parts of a message and the hops of the data flow.
  unfoldable pub hook_on_fd : ℕ → Sys E → Vtable Class E → ℕ → FileDesc → M Class E (Unit {0})
  hook_on_fd n sys v p d = do
    h ← hook_at p
    socket ← written h.zmq_socket
    elim (eq_ptr d.socket socket) [
      | false ↦ pure tt
      | true ↦ do
        (is_ok, buf) ← recv n sys socket no_parts
        elim is_ok [
          | false ↦ pure tt
          | true ↦ do
            set_self p (hook_zmq (record h { rx_pkt = (h.rx_pkt + 1) % word }))
            process_data n v (some buf) p
        ]
    ]

  -- The message by which a dealer registers its identity.
  unfoldable pub send_dummy : Sys E → ℕ → M Class E (Unit {0})
  send_dummy sys p = do buf ← append no_parts (codes "dummy") 5; sent ← send sys p buf; pure tt

  -- `start_` once the socket is connected or bound
  unfoldable pub register_socket : Sys E → ℕ → HookZmq → Ptr → M Class E (Unit {0})
  register_socket sys p h socket = do
    let desc : FileDesc = record {
      bk = some p;
      fd = negsuc 0;
      socket = socket;
      read = true;
      write = false;
    }
    set_self p (hook_zmq (record h { zmq_sock = some desc }))
    added ← fd_add desc
    elim (eq_ℤ h.socket_type sys.zmq_dealer) [ true ↦ send_dummy sys p | false ↦ pure tt ]

  unfoldable pub connect_socket : Sys E → HookZmq → Ptr → M Class E ℤ
  connect_socket sys h socket =
      if h.client then call (sys.zmq_connect socket h.addr) else call (sys.zmq_bind socket h.addr)

  -- `start_` once there is a socket
  unfoldable pub open_socket : Sys E → ℕ → HookZmq → Ptr → M Class E (Unit {0})
  open_socket sys p h socket = do
    identity ← call (sys.zmq_set_identity socket h.name)
    elim (eq_ℤ identity (pos 0)) [
      | false ↦ pure tt
      | true ↦ do
        connected ← connect_socket sys h socket
        elim (eq_ℤ connected (negsuc 0)) [ true ↦ pure tt | false ↦ register_socket sys p h socket ]
    ]

  -- `start_` once `zmq_socket` has returned
  unfoldable pub with_socket : Sys E → ℕ → HookZmq → Ptr → M Class E (Unit {0})
  with_socket sys p h none = pure tt
  with_socket sys p h (some s) = open_socket sys p h (some s)

  -- `start_` once `zmq_ctx_new` has returned: without a context the process exits
  unfoldable pub with_context : Sys E → ℕ → HookZmq → Ptr → M Class E (Unit {0})
  with_context sys p h none = fail exited
  with_context sys p h (some ctx) = do
    socket ← call (sys.zmq_socket (some ctx) h.socket_type)
    let h' = record h { zmq_ctx = some (some ctx); zmq_socket = some socket }
    set_self p (hook_zmq h')
    with_socket sys p h' socket

  unfoldable pub hook_start : Sys E → ℕ → M Class E (Unit {0})
  hook_start sys p = do
    ctx ← call sys.zmq_ctx_new
    h ← hook_at p
    set_self p (hook_zmq (record h { zmq_ctx = some ctx }))
    with_context sys p h ctx

  unfoldable pub hook_stop : Sys E → ℕ → M Class E (Unit {0})
  hook_stop sys p = do
    h ← hook_at p
    socket ← written h.zmq_socket
    d ← written h.zmq_sock
    fd_remove (record d { socket = socket })
    call (λ e. (tt, sys.zmq_close socket e))
    ctx ← written h.zmq_ctx
    call (λ e. (tt, sys.zmq_ctx_term ctx e))

  unfoldable pub hook_data : Sys E → ℕ → Message → M Class E Bool
  hook_data sys p none = pure false
  hook_data sys p (some buf) = do
    is_ok ← send sys p buf
    elim is_ok [
      | false ↦ pure false
      | true ↦ do
        h ← hook_at p
        set_self p (hook_zmq (record h { tx_pkt = (h.tx_pkt + 1) % word }))
        pure false
    ]
