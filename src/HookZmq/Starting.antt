-- ===== src/HookZmq/Starting.antt =====
-- block/hook_zmq, `start_`: what it does where the socket opens, and where it gives up.
use c3qo.Base.{
  ℕ, ◌≡◌, refl, ap, ◌∙◌, Bool, true, false, none, some, ℤ, pos, negsuc, eq_ℤ, Ptr, if◌then◌else◌,
}
use c3qo.World.{Block, World, Sys, M, ok, call, pure, ◌>>=◌, ◌>>◌}
use c3qo.World.Keeps.{bind-ok}
use c3qo.Classes.{Class, HookZmq, hook_zmq, hook_at, set_self}
use c3qo.Poll.{register, fd_add}
use c3qo.HookZmq.{
  send_dummy, register_socket, connect_socket, open_socket, with_socket, with_context, hook_start,
}
use c3qo.HookZmq.Opening.{
  reach, Opens, opens, GivesUp, no_socket, no_identity, no_address, entry, hooked, hook_at-hooked,
  set_self-hooked,
}

module _ {E : Type 0} (sys : Sys E) (p : ℕ) (b : Block Class) (w : World Class E)
    (h : HookZmq) where
  -- The hook once `zmq_socket` has returned.
  abbrev pub with_handles : ℕ → Ptr → HookZmq
  with_handles ctx socket = record h { zmq_ctx = some (some ctx); zmq_socket = some socket }

  start-context :
      (e e1 : E) (ctx : ℕ)
      → sys.zmq_ctx_new e ≡ (some ctx, e1)
      → hook_start sys p (hooked p b w h e)
        ≡ with_context sys p h (some ctx) (hooked p b w (record h { zmq_ctx = some (some ctx) }) e1)
  unfolding hook_start
  start-context e e1 ctx new =
      ap (λ r. with_new r.0 (hooked p b w h r.1)) new
      ∙ bind-ok (hook_at p) store (hooked p b w h e1) h (hooked p b w h e1)
          (hook_at-hooked p b w h e1)
      ∙ bind-ok (set_self p _) (λ _. with_context sys p h (some ctx)) (hooked p b w h e1) tt _
          (set_self-hooked p b w h (record h { zmq_ctx = some (some ctx) }) e1)
    where
      with_new : Ptr → M Class E (Unit {0})
      with_new c = do
        g ← hook_at p
        set_self p (hook_zmq (record g { zmq_ctx = some c }))
        with_context sys p g c

      store : HookZmq → M Class E (Unit {0})
      store g = do
        set_self p (hook_zmq (record g { zmq_ctx = some (some ctx) }))
        with_context sys p g (some ctx)

  start-socket :
      (e e1 e2 : E) (ctx : ℕ) (socket : Ptr)
      → sys.zmq_ctx_new e ≡ (some ctx, e1)
      → sys.zmq_socket (some ctx) h.socket_type e1 ≡ (socket, e2)
      → hook_start sys p (hooked p b w h e)
        ≡ with_socket sys p
            (with_handles ctx socket)
            socket
            (hooked p b w (with_handles ctx socket) e2)
  unfolding with_context
  start-socket e e1 e2 ctx socket new opened =
      let h1 : HookZmq = record h { zmq_ctx = some (some ctx) } in
      start-context e e1 ctx new
      ∙ ap (λ r. store r.0 (hooked p b w h1 r.1)) opened
      ∙ bind-ok (set_self p _) (λ _. with_socket sys p (with_handles ctx socket) socket)
          (hooked p b w h1 e2) tt _ (set_self-hooked p b w h1 (with_handles ctx socket) e2)
    where
      store : Ptr → M Class E (Unit {0})
      store s = do
        set_self p (hook_zmq (with_handles ctx s))
        with_socket sys p (with_handles ctx s) s

  connect-reach :
      (u : World Class E) (g : HookZmq) (socket : Ptr) (rc : ℤ) (e1 : E)
      → reach sys g socket u.env ≡ (rc, e1)
      → connect_socket sys g socket u ≡ ok (rc, record u { env = e1 })
  unfolding connect_socket
  connect-reach u g socket rc e1 is =
      by_side g.client ∙ ap (λ r. ok (r.0, record u { env = r.1 })) is
    where
      by_side :
          (x : Bool)
          → (if x then call (sys.zmq_connect socket g.addr) else call (sys.zmq_bind socket g.addr))
              u
            ≡ (let r =
                  if x
                  then sys.zmq_connect socket g.addr u.env
                  else sys.zmq_bind socket g.addr u.env in
                ok (r.0, record u { env = r.1 }))
      by_side true = refl
      by_side false = refl

  -- What `open_socket` does with the answer to the identity, and with that to the address.
  after_address : ℕ → HookZmq → Ptr → ℤ → M Class E (Unit {0})
  after_address q g socket rc = elim (eq_ℤ rc (negsuc 0)) [
    | true ↦ pure tt
    | false ↦ register_socket sys q g socket
  ]

  after_identity : ℕ → HookZmq → Ptr → ℤ → M Class E (Unit {0})
  after_identity q g socket rc = elim (eq_ℤ rc (pos 0)) [
    | false ↦ pure tt
    | true ↦ do connected ← connect_socket sys g socket; after_address q g socket connected
  ]

  open-identity :
      (g : HookZmq) (socket : Ptr) (u : World Class E) (rc : ℤ) (e1 : E)
      → sys.zmq_set_identity socket g.name u.env ≡ (rc, e1)
      → open_socket sys p g socket u ≡ after_identity p g socket rc (record u { env = e1 })
  unfolding open_socket after_identity after_address
  open-identity g socket u rc e1 is =
      ap (λ r. after_identity p g socket r.0 (record u { env = r.1 })) is

  open-address :
      (g : HookZmq) (socket : Ptr) (u : World Class E) (rc : ℤ) (e1 : E)
      → reach sys g socket u.env ≡ (rc, e1)
      → after_identity p g socket (pos 0) u ≡ after_address p g socket rc (record u { env = e1 })
  unfolding after_identity
  open-address g socket u rc e1 is =
      bind-ok (connect_socket sys g socket) (after_address p g socket) u rc (record u { env = e1 })
        (connect-reach u g socket rc e1 is)

  -- The hook once it is registered.
  abbrev pub started_hook : ℕ → ℕ → HookZmq
  started_hook ctx s = record (with_handles ctx (some s)) { zmq_sock = some (entry p s) }

  abbrev pub registered_world : ℕ → World Class E
  registered_world s = record w { mgr = register (entry p s) w.mgr }

  register-opened :
      (g : HookZmq) (e : E) (s : ℕ)
      → register_socket sys p g (some s) (hooked p b w g e)
        ≡ (elim (eq_ℤ g.socket_type sys.zmq_dealer) as (λ _. M Class E (Unit {0})) [
          | true ↦ send_dummy sys p
          | false ↦ pure tt
        ])
            (hooked p b (registered_world s) (record g { zmq_sock = some (entry p s) }) e)
  unfolding register_socket fd_add
  register-opened g e s =
      bind-ok (set_self p _) _ (hooked p b w g e) tt _
        (set_self-hooked p b w g (record g { zmq_sock = some (entry p s) }) e)

  address-reached :
      (g : HookZmq) (socket : Ptr) (rc : ℤ) (u : World Class E)
      → eq_ℤ rc (negsuc 0) ≡ false
      → after_address p g socket rc u ≡ register_socket sys p g socket u
  unfolding after_address
  address-reached g socket rc u good = rw (good, after_address) refl

  address-refused :
      (g : HookZmq) (socket : Ptr) (rc : ℤ) (u : World Class E)
      → eq_ℤ rc (negsuc 0) ≡ true
      → after_address p g socket rc u ≡ ok (tt, u)
  unfolding after_address
  address-refused g socket rc u bad = rw (bad, after_address) refl

  identity-refused :
      (g : HookZmq) (socket : Ptr) (rc : ℤ) (u : World Class E)
      → eq_ℤ rc (pos 0) ≡ false
      → after_identity p g socket rc u ≡ ok (tt, u)
  unfolding after_identity
  identity-refused g socket rc u bad = rw (bad, after_identity) refl

  pub hook_start-Opens :
      (ctx s : ℕ) {e e' : E}
      → Opens sys h e ctx s e'
      → hook_start sys p (hooked p b w h e)
        ≡ (elim (eq_ℤ h.socket_type sys.zmq_dealer) as (λ _. M Class E (Unit {0})) [
          | true ↦ send_dummy sys p
          | false ↦ pure tt
        ])
            (hooked p b (registered_world s) (started_hook ctx s) e')
  unfolding with_socket
  hook_start-Opens ctx s {e} {e'}
        (opens {e1 = e1} {e2 = e2} {e3 = e3} rc new opened identified reached good) =
      let g = with_handles ctx (some s) in
      start-socket e e1 e2 ctx (some s) new opened
      ∙ open-identity g (some s) (hooked p b w g e2) (pos 0) e3 identified
      ∙ open-address g (some s) (hooked p b w g e3) rc e' reached
      ∙ address-reached g (some s) rc (hooked p b w g e') good
      ∙ register-opened g e' s

  pub hook_start-GivesUp :
      (ctx : ℕ) (socket : Ptr) {e e' : E}
      → GivesUp sys h e ctx socket e'
      → hook_start sys p (hooked p b w h e) ≡ ok (tt, hooked p b w (with_handles ctx socket) e')
  unfolding with_socket
  hook_start-GivesUp ctx socket {e} {e'} (no_socket {e1 = e1} new refused) =
      start-socket e e1 e' ctx none new refused
  hook_start-GivesUp ctx socket {e} {e'}
        (no_identity {e1 = e1} {e2 = e2} {s = s} rc new opened identified bad) =
      let g = with_handles ctx (some s) in
      start-socket e e1 e2 ctx (some s) new opened
      ∙ open-identity g (some s) (hooked p b w g e2) rc e' identified
      ∙ identity-refused g (some s) rc (hooked p b w g e') bad
  hook_start-GivesUp ctx socket {e} {e'}
        (no_address {e1 = e1} {e2 = e2} {e3 = e3} {s = s} rc new opened identified reached bad) =
      let g = with_handles ctx (some s) in
      start-socket e e1 e2 ctx (some s) new opened
      ∙ open-identity g (some s) (hooked p b w g e2) (pos 0) e3 identified
      ∙ open-address g (some s) (hooked p b w g e3) rc e' reached
      ∙ address-refused g (some s) rc (hooked p b w g e') bad
