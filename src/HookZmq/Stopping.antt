-- ===== src/HookZmq/Stopping.antt =====
-- block/hook_zmq, `stop_`: what it undoes of `start_`, and where it is undefined.
use c3qo.Base.{
  take, not, codes, [], ◌∷◌, Bool, true, Bool-cases, inl, inr, ℤ, ℕ, ◌≡◌, refl, ap, ◌∙◌, false,
  Option, none, some, negsuc, eq_ℤ, Ptr,
}
use c3qo.World.{
  Block, FileDesc, World, Sys, M, ok, pure, fault, uninitialised, call, deref, ◌>>=◌, ◌>>◌,
}
use c3qo.World.Keeps.{bind-ok, bind-fault, deref-live}
use c3qo.Classes.{Class, HookZmq, hook_zmq, hook_at, written}
use c3qo.Poll.{register, unregister, fd_remove}
use c3qo.Poll.Table.{NoEntry}
use c3qo.Poll.Valid.{HasTable}
use c3qo.Poll.RoundTrip.{unregister-register}
use c3qo.Buffer.{BufferPart, whole, no_parts}
use c3qo.HookZmq.Framing.{append-whole}
use c3qo.HookZmq.{append, is_last, send, send_parts, send_dummy, hook_start, hook_stop}
use c3qo.HookZmq.Opening.{Opens, GivesUp, entry, hooked, hook_at-hooked, hooked-live}
use c3qo.HookZmq.Starting.{with_handles, started_hook, hook_start-Opens, hook_start-GivesUp}

-- The system once a dealer's first message is sent, or not.
abbrev pub after_dummy : {E : Type 0} → Sys E → ℕ → E → E
after_dummy sys s e = (sys.zmq_msg_send (some s) (codes "dummy") false e).1

module _ {E : Type 0} (sys : Sys E) (p : ℕ) where
  -- A hook with an open socket that stops.
  pub stop-open :
      (u : World Class E) (b : Block Class) (h : HookZmq) (ctx s : ℕ)
      → h.zmq_ctx ≡ some (some ctx)
      → h.zmq_socket ≡ some (some s)
      → h.zmq_sock ≡ some (entry p s)
      → u.heap p ≡ some (record b { self = hook_zmq h })
      → hook_stop sys p u
        ≡ ok (
          tt,
          record u {
            mgr = unregister (entry p s) u.mgr;
            env = sys.zmq_ctx_term (some ctx) (sys.zmq_close (some s) u.env);
          },
        )
  unfolding hook_stop fd_remove hook_at
  stop-open u b h ctx s has_ctx has_socket has_sock live =
      bind-ok (hook_at p) (λ g. body g.zmq_socket g.zmq_sock g.zmq_ctx) u h u
        (bind-ok (deref p) _ u _ u (deref-live p u _ live))
      ∙ ap (λ o. body o h.zmq_sock h.zmq_ctx u) has_socket
      ∙ ap (λ o. body (some (some s)) o h.zmq_ctx u) has_sock
      ∙ ap (λ o. body (some (some s)) (some (entry p s)) o u) has_ctx
    where
      body : Option Ptr → Option FileDesc → Option Ptr → M Class E (Unit {0})
      body x y z = do
        socket ← written x
        d ← written y
        fd_remove (record d { socket = socket })
        call (λ e. (tt, sys.zmq_close socket e))
        ctx ← written z
        call (λ e. (tt, sys.zmq_ctx_term ctx e))

module _ {E : Type 0} (sys : Sys E) (p : ℕ) (b : Block Class) (w : World Class E)
    (h : HookZmq) where
  -- A start that gives up, because there is no socket, its identity is refused or its address is,
  -- returns, leaves the manager as it was and keeps the handles; the stop that follows on a hook whose
  -- entry was never written reads that entry, which is undefined.
  pub hook_stop-GivesUp :
      (ctx : ℕ) (socket : Ptr) {e e' : E}
      → h.zmq_sock ≡ none
      → GivesUp sys h e ctx socket e'
      → (hook_start sys p (hooked p b w h e)
          ≡ ok (tt, hooked p b w (with_handles sys p b w h ctx socket) e'))
        × (hook_stop sys p (hooked p b w (with_handles sys p b w h ctx socket) e')
            ≡ fault uninitialised)
  unfolding hook_stop
  hook_stop-GivesUp ctx socket {e} {e'} unwritten gives_up =
      let g = with_handles sys p b w h ctx socket in
      let u : World Class E = hooked p b w g e' in
      (
        hook_start-GivesUp sys p b w h ctx socket gives_up,
        bind-ok (hook_at p) _ u g u (hook_at-hooked p b w g e')
            ∙ bind-fault (written h.zmq_sock) _ u uninitialised (ap (λ o. written o u) unwritten),
      )

  -- A message of one part is sent or not; either way nothing changes but the system.
  send-one :
      (g : HookZmq) (s : ℕ) (x : BufferPart) (e : E)
      → g.zmq_socket ≡ some (some s)
      → (sent : Bool) × (send sys p (record { parts = x ∷ [] }) (hooked p b w g e)
          ≡ ok (
            sent,
            hooked p b w g (sys.zmq_msg_send (some s) (take x.len x.bytes) (not (is_last [])) e).1,
          ))
  unfolding send send_parts
  send-one g s x e has_socket =
      let u : World Class E = hooked p b w g e in
      let rc = (sys.zmq_msg_send (some s) (take x.len x.bytes) (not (is_last []))) e in
      let start : send sys p (record { parts = x ∷ [] }) u ≡ after rc.0 (hooked p b w g rc.1) =
        bind-ok (hook_at p) (λ h. with_socket h.zmq_socket) u g u (hook_at-hooked p b w g e)
        ∙ ap (λ o. with_socket o u) has_socket in
      elim (Bool-cases (eq_ℤ rc.0 (negsuc 0))) [
        | inl failed ↦ (false, start ∙ rw failed refl)
        | inr good ↦ (true, start ∙ rw good refl)
      ]
    where
      after : ℤ → M Class E Bool
      after rc = elim (eq_ℤ rc (negsuc 0)) [ true ↦ pure false | false ↦ pure true ]

      with_socket : Option Ptr → M Class E Bool
      with_socket o = do socket ← written o; send_parts sys socket (x ∷ [])

  send_dummy-one :
      (g : HookZmq) (s : ℕ) (e : E)
      → g.zmq_socket ≡ some (some s)
      → send_dummy sys p (hooked p b w g e) ≡ ok (tt, hooked p b w g (after_dummy sys s e))
  unfolding send_dummy
  send_dummy-one g s e has_socket =
      let u : World Class E = hooked p b w g e in
      let dummy = whole (codes "dummy") in
      let (sent, is) = send-one g s dummy e has_socket in
      bind-ok (append no_parts (codes "dummy") 5) _ u (record { parts = dummy ∷ [] }) u
        (append-whole no_parts (codes "dummy") u)
      ∙ bind-ok (send sys p (record { parts = dummy ∷ [] })) (λ _. pure tt) u sent _ is

module _ {E : Type 0} (sys : Sys E) (p : ℕ) (b : Block Class) (w : World Class E)
    (h : HookZmq) where
  abbrev pub started_world : ℕ → ℕ → E → World Class E
  started_world ctx s e =
      hooked p b (record w { mgr = register (entry p s) w.mgr }) (started_hook sys p b w h ctx s) e

  -- A dealer sends its first message.
  pub start-dealer :
      (ctx s : ℕ) {e e' : E}
      → eq_ℤ h.socket_type sys.zmq_dealer ≡ true
      → Opens sys h e ctx s e'
      → hook_start sys p (hooked p b w h e) ≡ ok (tt, started_world ctx s (after_dummy sys s e'))
  start-dealer ctx s {e} {e'} dealer o =
      hook_start-Opens sys p b w h ctx s o
      ∙ rw dealer (
          send_dummy-one sys p b (record w { mgr = register (entry p s) w.mgr }) h
            (started_hook sys p b w h ctx s) s e' refl)

  pub start-ends :
      (ctx s : ℕ) {e e' : E}
      → Opens sys h e ctx s e'
      → (e1 : E) × (hook_start sys p (hooked p b w h e) ≡ ok (tt, started_world ctx s e1))
  start-ends ctx s {e} {e'} o = elim (Bool-cases (eq_ℤ h.socket_type sys.zmq_dealer)) [
    | inr other ↦ (e', hook_start-Opens sys p b w h ctx s o ∙ rw other refl)
    | inl dealer ↦ (after_dummy sys s e', start-dealer ctx s dealer o)
  ]

  -- A hook whose socket opens starts by registering the entry of that socket, a dealer whether or
  -- not its first message is sent; on a well-formed table without an entry for the socket, the stop
  -- that follows returns, leaves both vectors of the manager as they were before the start, closes
  -- the socket and then ends the context.
  pub hook_stop-hook_start :
      (ctx s : ℕ) {e e' : E}
      → HasTable w.mgr
      → NoEntry (negsuc 0) (some s) w.mgr.fd
      → Opens sys h e ctx s e'
      → (u : World Class E) × (u' : World Class E) × (hook_start sys p (hooked p b w h e)
          ≡ ok (tt, u))
        × (u.mgr ≡ register (entry p s) w.mgr)
        × (hook_stop sys p u ≡ ok (tt, u'))
        × (u'.mgr.fd ≡ w.mgr.fd)
        × (u'.mgr.callback ≡ w.mgr.callback)
        × (u'.env ≡ sys.zmq_ctx_term (some ctx) (sys.zmq_close (some s) u.env))
  hook_stop-hook_start ctx s table is_free o =
      let (same_fd, same_callback) = unregister-register (entry p s) w.mgr table is_free in
      let (e1, started) = start-ends ctx s o in
      let u = started_world ctx s e1 in
      (
        u,
        _,
        started,
        refl,
        stop-open sys p u b (started_hook sys p b w h ctx s) ctx s refl refl refl (
            hooked-live p b (record w { mgr = register (entry p s) w.mgr })
              (started_hook sys p b w h ctx s) e1),
        same_fd,
        same_callback,
        refl,
      )
