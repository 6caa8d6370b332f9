-- ===== src/Proxy/Ending.antt =====
-- app/src/proxy.cpp, `main`, where both sockets open.
use c3qo.Base.{
  ℕ, suc, ◌≡◌, ◌≢◌, refl, ap, ◌∙◌, true, false, Option, none, some, [], String, ℤ, pos, negsuc,
  eq_ℤ, ◌==◌, arith,
}
use c3qo.World.{
  Block, FileDesc, Manager, World, Sys, M, ok, fail, pure, call, alloc, update, deref, exited,
  ◌>>=◌, ◌>>◌,
}
use c3qo.World.Keeps.{bind-ok, deref-live, write-live}
use c3qo.Classes.{Class, HookZmq, hook_zmq, hook_at, set_self, written}
use c3qo.Flow.{new_block}
use c3qo.Poll.{register, unregister, fd_find, find_from}
use c3qo.Poll.Table.{NoEntry, register-new}
use c3qo.Poll.Valid.{HasTable, register-IsTable}
use c3qo.Poll.RoundTrip.{unregister-register, unregister-vectors}
use c3qo.HookZmq.{new_hook_zmq, hook_start, hook_stop}
use c3qo.HookZmq.Opening.{Opens, entry, hooked}
use c3qo.HookZmq.Starting.{started_hook, hook_start-Opens}
use c3qo.HookZmq.Stopping.{stop-open}
use c3qo.Program.{new_world, new_manager}
use c3qo.Proxy.{local_hook, carry, proxy_main}

-- A hook of the proxy before it starts.
abbrev pub configured : ℤ → String → HookZmq
configured socket_type addr = record {
  zmq_ctx = none;
  zmq_socket = none;
  zmq_sock = none;
  client = false;
  socket_type = socket_type;
  name = "";
  addr = addr;
  rx_pkt = 0;
  tx_pkt = 0;
}

-- A hook with an open socket.
abbrev IsOpen : ℕ → ℕ → ℕ → HookZmq → Type 0
IsOpen p ctx s h =
    (h.zmq_ctx ≡ some (some ctx)) × (h.zmq_socket ≡ some (some s)) × (h.zmq_sock ≡ some (entry p s))

two-entries :
    (p q s s' : ℕ)
    → s ≢ s'
    → let m : Manager =
        unregister
          (entry p s)
          (unregister (entry q s') (register (entry q s') (register (entry p s) new_manager))) in
      (m.fd ≡ []) × (m.callback ≡ [])
unfolding fd_find find_from
two-entries p q s s' differ =
    let d1 : FileDesc = entry p s in
    let d2 : FileDesc = entry q s' in
    let m1 : Manager = register d1 new_manager in
    let empty : HasTable new_manager = record { aligned = tt; distinct = tt; usable = tt } in
    let one : HasTable m1 = register-IsTable d1 new_manager (λ h. cc, refl) empty in
    let other : (s == s') ≡ false = ground (arith, differ) in
    let is_free : NoEntry (negsuc 0) (some s') m1.fd =
      rw (register-new d1 new_manager refl) (other, tt) in
    let (same_fd, same_callback) = unregister-register d2 m1 one is_free in
    let backend_gone =
      unregister-vectors d1 (unregister d2 (register d2 m1)) m1 same_fd same_callback in
    let frontend_gone = unregister-register d1 new_manager empty tt in
    (backend_gone.0 ∙ frontend_gone.0, backend_gone.1 ∙ frontend_gone.1)

module _ {E : Type 0} (sys : Sys E) where
  abbrev b0 : Block Class
  b0 = new_block (new_hook_zmq sys.zmq_pair)

  -- The world with the local object.
  abbrev with_local : World Class E → World Class E
  with_local w = record w {
    heap = update w.heap w.heap_next (some b0);
    heap_next = suc w.heap_next;
  }

  abbrev opened : World Class E → HookZmq → ℕ → ℕ → E → World Class E
  opened w h ctx s e =
      let u : World Class E = record (with_local w) {
        mgr = register (entry w.heap_next s) w.mgr;
      } in
      hooked w.heap_next b0 u (started_hook sys w.heap_next b0 u h ctx s) e

  local_hook-Opens :
      (w : World Class E) (socket_type : ℤ) (addr : String) (ctx s : ℕ) {e : E}
      → eq_ℤ socket_type sys.zmq_dealer ≡ false
      → Opens sys (configured socket_type addr) w.env ctx s e
      → local_hook sys socket_type addr w
        ≡ ok (w.heap_next, opened w (configured socket_type addr) ctx s e)
  unfolding local_hook alloc hook_at
  local_hook-Opens w socket_type addr ctx s {e} not_dealer o =
      let p = w.heap_next in
      let self : (p == p) ≡ true = ground arith in
      let live : (with_local w).heap p ≡ some b0 = rw self in
      let h = configured socket_type addr in
      bind-ok (hook_at p) _ (with_local w) (configured sys.zmq_pair "tcp://127.0.0.1:6666")
        (with_local w)
        (bind-ok (deref p) _ (with_local w) b0 (with_local w) (deref-live p (with_local w) b0 live))
      ∙ bind-ok (set_self p (hook_zmq h)) (λ _. start_it p) (with_local w) tt
          (hooked p b0 (with_local w) h w.env) (write-live p (with_local w) _ b0 live)
      ∙ bind-ok (hook_start sys p) (λ _. pure p) (hooked p b0 (with_local w) h w.env) tt
          (opened w h ctx s e)
          (hook_start-Opens sys p b0 (with_local w) h ctx s o ∙ rw not_dealer refl)
    where
      start_it : ℕ → M Class E ℕ
      start_it p = do hook_start sys p; pure p

  -- What follows once both hooks are open, at addresses that differ.
  carry-open :
      (u : World Class E) (p q c1 s1 c2 s2 : ℕ) (f g : HookZmq) (e3 : E)
      → u.heap p ≡ some (record b0 { self = hook_zmq f })
      → u.heap q ≡ some (record b0 { self = hook_zmq g })
      → IsOpen p c1 s1 f
      → IsOpen q c2 s2 g
      → sys.zmq_proxy (some s1) (some s2) u.env ≡ (negsuc 0, e3)
      → carry sys p q u
        ≡ ok (
          pos 0,
          record u {
            mgr = unregister (entry p s1) (unregister (entry q s2) u.mgr);
            env =
                sys.zmq_ctx_term (some c1) (
                  sys.zmq_close
                    (some s1)
                    (sys.zmq_ctx_term (some c2) (sys.zmq_close (some s2) e3)));
          },
        )
  unfolding carry hook_at
  carry-open u p q c1 s1 c2 s2 f g e3 live_f live_g (ctx1, sock1, entry1) (ctx2, sock2, entry2)
        proxied =
      bind-ok (hook_at p) from_frontend u f u (bind-ok (deref p) _ u _ u (deref-live p u _ live_f))
      ∙ bind-ok (written f.zmq_socket) with_from u (some s1) u (ap (λ o. written o u) sock1)
      ∙ bind-ok (hook_at q) (from_backend (some s1)) u g u
          (bind-ok (deref q) _ u _ u (deref-live q u _ live_g))
      ∙ bind-ok (written g.zmq_socket) (with_both (some s1)) u (some s2) u
          (ap (λ o. written o u) sock2)
      ∙ ap (λ r. finish r.0 (record u { env = r.1 })) proxied
      ∙ bind-ok (hook_stop sys q) (λ _. stop_frontend) (record u { env = e3 }) tt _
          (stop-open sys q (record u { env = e3 }) b0 g c2 s2 ctx2 sock2 entry2 live_g)
      ∙ bind-ok (hook_stop sys p) (λ _. pure (pos 0)) backend_stopped tt _
          (stop-open sys p backend_stopped b0 f c1 s1 ctx1 sock1 entry1 live_f)
    where
      backend_stopped : World Class E
      backend_stopped = record u {
        mgr = unregister (entry q s2) u.mgr;
        env = sys.zmq_ctx_term (some c2) (sys.zmq_close (some s2) e3);
      }

      stop_frontend : M Class E ℤ
      stop_frontend = do hook_stop sys p; pure (pos 0)

      finish : ℤ → M Class E ℤ
      finish rc = elim (eq_ℤ rc (negsuc 0)) [
        | false ↦ fail exited
        | true ↦ do hook_stop sys q; stop_frontend
      ]

      with_both : Option ℕ → Option ℕ → M Class E ℤ
      with_both from to = do rc ← call (sys.zmq_proxy from to); finish rc

      from_backend : Option ℕ → HookZmq → M Class E ℤ
      from_backend from h = do to ← written h.zmq_socket; with_both from to

      with_from : Option ℕ → M Class E ℤ
      with_from from = do h ← hook_at q; from_backend from h

      from_frontend : HookZmq → M Class E ℤ
      from_frontend h = do from ← written h.zmq_socket; with_from from

  -- Where both hooks open, with sockets that differ and on a system where neither type is a dealer's,
  -- and `zmq_proxy` on the two sockets returns -1: the proxy ends with exit status 0, leaves no
  -- descriptor in the manager, and has ended the backend's socket and context and then the
  -- frontend's.
  pub proxy_main-Opens :
      (c1 s1 c2 s2 : ℕ) {e e1 e2 e3 : E}
      → eq_ℤ sys.zmq_router sys.zmq_dealer ≡ false
      → eq_ℤ sys.zmq_pair sys.zmq_dealer ≡ false
      → Opens sys (configured sys.zmq_router "tcp://127.0.0.1:1664") e c1 s1 e1
      → Opens sys (configured sys.zmq_pair "tcp://127.0.0.1:1665") e1 c2 s2 e2
      → s1 ≢ s2
      → sys.zmq_proxy (some s1) (some s2) e2 ≡ (negsuc 0, e3)
      → (w : World Class E) × (proxy_main sys (new_world e) ≡ ok (pos 0, w))
        × (w.mgr.fd ≡ [])
        × (w.mgr.callback ≡ [])
        × (w.env
            ≡ sys.zmq_ctx_term
                (some c1)
                (sys.zmq_close (some s1) (sys.zmq_ctx_term (some c2) (sys.zmq_close (some s2) e3))))
  unfolding proxy_main
  proxy_main-Opens c1 s1 c2 s2 {e} {e1} {e2} {e3} router pair o1 o2 differ proxied =
      let w1 : World Class E =
        opened (new_world e) (configured sys.zmq_router "tcp://127.0.0.1:1664") c1 s1 e1 in
      let w2 : World Class E =
        opened w1 (configured sys.zmq_pair "tcp://127.0.0.1:1665") c2 s2 e2 in
      let (no_fd, no_callback) = two-entries 0 1 s1 s2 differ in
      (
        _,
        bind-ok (local_hook sys sys.zmq_router "tcp://127.0.0.1:1664") _ (new_world e) 0 w1
              (local_hook-Opens (new_world e) sys.zmq_router "tcp://127.0.0.1:1664" c1 s1 router o1)
            ∙ bind-ok (local_hook sys sys.zmq_pair "tcp://127.0.0.1:1665") (λ q. carry sys 0 q) w1 1
                w2 (local_hook-Opens w1 sys.zmq_pair "tcp://127.0.0.1:1665" c2 s2 pair o2)
            ∙ carry-open w2 0 1 c1 s1 c2 s2 _ _ e3 refl refl (refl, refl, refl) (refl, refl, refl)
                proxied,
        no_fd,
        no_callback,
        refl,
      )
