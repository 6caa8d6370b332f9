-- ===== src/Program/Delivery.antt =====
-- app/src, engine/src/manager_fd.cpp and block/hook_zmq: a message that arrives on a hook's socket,
-- from the poll to the block behind the hook.
use c3qo.Base.{
  ℕ, suc, ◌+◌, ◌%◌, ◌≤◌, ◌<◌, ◌≡◌, refl, sym, ap, ◌∙◌, Bool, true, false, some, List, ◌∷◌, ◌++◌,
  Ptr, eq_ptr, length, All, arith, ◌==◌, pos, negsuc, eq_ℤ, ℤ,
}
use c3qo.Buffer.{BufferPart}
use c3qo.World.{Block, World, Vtable, FileDesc, Events, PollItem, Sys, M, ok, deref, pure, ◌>>◌}
use c3qo.World.Keeps.{bind-ok, deref-live}
use c3qo.Classes.{Class, HookZmq, hook_zmq}
use c3qo.HookZmq.{word}
use c3qo.HookZmq.Framing.{IsPart, IsPipe, frames}
use c3qo.HookZmq.Passing.{Holds, counting, hook_on_fd-receives}
use c3qo.Poll.{fd_poll, poll_loop, is_ready}
use c3qo.Poll.Dispatch.{loop-last}
use c3qo.Flow.Route.{consumed, process_data-Route}
use c3qo.Dispatch.{Platform, vtable, methods, on_fd_of}

-- A socket `s` connected with its peer's: what comes in and what goes out are two queues, and
-- neither `zmq_poll` nor the clock, nor `zmq_msg_recv`, changes what has gone out.
pub record IsChannel {E : Type 0} (sys : Sys E) (s peer : Ptr)
    (inbound outbound : E → List (List ℕ × Bool)) : Type 0 where
  pub from_peer : IsPipe sys peer s inbound
  pub to_peer : IsPipe sys s peer outbound
  pub recv_keeps : (e : E) → outbound (sys.zmq_msg_recv s e).1 ≡ outbound e
  pub poll_keeps :
      (items : List PollItem) (e : E) → outbound (sys.zmq_poll items 10 e).1 ≡ outbound e
  pub clock_keeps : (e : E) → outbound (sys.clock_gettime e).1 ≡ outbound e

-- The world in which a hook at `a` hands on what it received.
abbrev pub received :
    {E : Type 0} → ℕ → Block Class → HookZmq → Ptr → World Class E → E → World Class E
received a b h s w e = counting a b h s ((h.rx_pkt + 1) % word) h.tx_pkt e w

module _ {E : Type 0} (pf : Platform E) (s peer : Ptr) (inbound outbound : E → List (List ℕ × Bool))
    (channel : IsChannel pf.sys s peer inbound outbound) (a t : ℕ) (d : FileDesc) (ev : Events)
    (cs : List FileDesc) (es : List Events) (l : List BufferPart) (rest : List (List ℕ × Bool))
    (b : Block Class) (h : HookZmq) (w : World Class E) (e1 : E) where
  -- What the poll finds first is the message `l` on the socket of the hook at `a`, which is bound to
  -- the block at `t`.
  pub record Arrives : Type 0 where
    pub hook : Holds a b h s w
    pub forwards : b.sink ≡ some t
    pub entry : w.mgr.callback ≡ d ∷ cs
    pub owner : d.bk ≡ some a
    pub socket : eq_ptr d.socket s ≡ true
    pub polls : pf.sys.zmq_poll w.mgr.fd 10 w.env ≡ ((pos 1, ev ∷ es), e1)
    pub is_ready : is_ready ev ≡ true
    pub queued : inbound e1 ≡ frames l ++ rest
    pub parts : All IsPart l
    pub some_part : 0 < length l

  -- A message that is the first that `fd_poll` finds, on the socket of a hook: the hook counts it
  -- and hands it to its sink, and if that keeps it the poll ends, nothing having gone out before.
  pub fd_poll-delivers :
      (m : ℕ) (after : E → World Class E)
      → Arrives
      → length l ≤ m
      → ((e : E)
          → (vtable (suc m) pf).on_data t (some (record { parts = l })) (received a b h s w e)
            ≡ ok (false, after e))
      → (e : E) × (fd_poll pf.sys (vtable (suc (suc m)) pf) w ≡ ok (pos 1, after e))
        × (outbound e ≡ outbound w.env)
  unfolding vtable methods on_fd_of fd_poll
  fd_poll-delivers m after i enough kept =
      let v1 = vtable (suc m) pf in
      let w1 : World Class E = record w { env = e1 } in
      let (e2, taken, left, same) =
        hook_on_fd-receives a b h s pf.sys peer inbound (suc m) v1 d l rest w1 outbound
          channel.from_peer channel.recv_keeps
          (record { live = i.hook.live; socket = i.hook.socket }) i.socket i.parts i.some_part
          (omega arith) i.queued in
      let self : (a == a) ≡ true = ground arith in
      let b2 : Block Class = record b {
        self = hook_zmq (record h { rx_pkt = (h.rx_pkt + 1) % word });
      } in
      let at_a : (received a b h s w e2).heap a ≡ some b2 = rw self refl in
      let some_part : 0 < length l = i.some_part in
      let called : (vtable (suc (suc m)) pf).on_fd a d w1 ≡ ok (tt, after e2) =
        bind-ok (deref a) _ w1 _ w1 (deref-live a w1 _ i.hook.live)
        ∙ taken
        ∙ process_data-Route v1 _ (suc m) (consumed b2 t at_a i.forwards (kept e2)) (omega arith) in
      let looped : poll_loop v (pos 1) w.mgr.epoch 0 w.mgr.callback (ev ∷ es) w1
          ≡ ok (tt, after e2) =
        ap (λ l. poll_loop v (pos 1) w.mgr.epoch 0 l (ev ∷ es) w1) i.entry
        ∙ loop-last v w.mgr.epoch (pos 1) 0 d cs ev es a w1 (after e2) i.is_ready i.owner called
            refl in
      (
        e2,
        ap (λ r. polled r.0 (record w { env = r.1 })) i.polls
            ∙ bind-ok (poll_loop v (pos 1) w.mgr.epoch 0 w.mgr.callback (ev ∷ es)) _ w1 tt
                (after e2) looped,
        same ∙ ap (λ r. outbound r.1) (sym i.polls) ∙ channel.poll_keeps w.mgr.fd w.env,
      )
    where
      v : Vtable Class E
      v = vtable (suc (suc m)) pf

      polled : ℤ × List Events → M Class E ℤ
      polled (ret, revents) = elim (eq_ℤ ret (negsuc 0)) [
        | true ↦ pure (negsuc 0)
        | false ↦ elim (eq_ℤ ret (pos 0)) [
          | true ↦ pure ret
          | false ↦ do poll_loop v ret w.mgr.epoch 0 w.mgr.callback revents; pure ret
        ]
      ]
