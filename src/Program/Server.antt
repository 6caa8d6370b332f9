-- ===== src/Program/Server.antt =====
-- app/src/c3qo.cpp with block/hook_zmq and block/trans_pb: a command that arrives on the monitoring
-- socket, from the poll to the reply.
use c3qo.Base.{
  ℕ, suc, ◌+◌, ◌%◌, ◌≡◌, ◌≢◌, refl, ap, ◌∙◌, Bool, false, Option, none, some, List, [], ◌∷◌, ◌++◌,
  String, Ptr, length, take, codes, arith, inl, inr, ◌==◌, pos,
}
use c3qo.Buffer.{BufferPart, whole, take-whole}
use c3qo.Command.{Command}
use c3qo.World.{Block, World, FileDesc, Events, M, ok, deref, pure}
use c3qo.World.Keeps.{bind-ok, deref-live}
use c3qo.Classes.{Class, HookZmq, trans_pb}
use c3qo.HookZmq.{word}
use c3qo.HookZmq.Framing.{frames}
use c3qo.HookZmq.Passing.{Holds, counting, hook_data-sends}
use c3qo.Poll.{fd_poll}
use c3qo.Flow.Route.{consumed, process_data-Route}
use c3qo.Ncli.Answer.{reply, reply-sent}
use c3qo.TransPb.{run_command, proto_command_parse, proto_command_reply, trans_data}
use c3qo.TransPb.Topic.{trans_data-topic}
use c3qo.Program.Delivery.{IsChannel, Arrives, received, fd_poll-delivers}
use c3qo.Dispatch.{Platform, vtable, methods, data_of}

-- The parts of a request.
abbrev pub request : List ℕ → List BufferPart
request body = whole (codes "PROTO.CMD") ∷ whole body ∷ []

module _ {E : Type 0} (pf : Platform E) (s peer : Ptr) (inbound outbound : E → List (List ℕ × Bool))
    (channel : IsChannel pf.sys s peer inbound outbound) (a t : ℕ) where
  -- A block hook_zmq at `a` on the socket, and a block at `t` whose sink it is.
  pub record Replies (b : Block Class) (h : HookZmq) (c : Block Class) (w : World Class E)
      : Type 0 where
    pub hook : Holds a b h s w
    pub there : w.heap t ≡ some c
    pub sink : c.sink ≡ some a

  -- The reply goes out.
  reply-out :
      (k : ℕ) (b c : Block Class) (h : HookZmq) (is_ok : Bool) (w : World Class E)
      → Replies b h c w
      → (e : E) × (proto_command_reply (suc (suc k)) (vtable (suc (suc k)) pf) t is_ok w
          ≡ ok (tt, counting a b h s h.rx_pkt ((h.tx_pkt + 1) % word) e w))
        × (outbound e ≡ outbound w.env ++ frames (reply is_ok))
  unfolding vtable methods data_of
  reply-out k b c h is_ok w r =
      let (e, ran, out) =
        hook_data-sends a b h s pf.sys peer outbound _ _ w channel.to_peer r.hook in
      (
        e,
        reply-sent (suc (suc k)) _ t is_ok w
            ∙ process_data-Route _ _ (suc (suc k))
                (consumed c a r.there r.sink
                  (bind-ok (deref a) _ w _ w (deref-live a w _ r.hook.live) ∙ ran))
                (omega arith),
        out,
      )

  -- A command is run, and replied to.
  served :
      (k : ℕ) (body : List ℕ) (cmd : Command String) (is_ok : Bool) (w w' : World Class E)
      (b c : Block Class) (h : HookZmq)
      → pf.unpack body ≡ some cmd
      → run_command (vtable (suc (suc k)) pf) cmd w ≡ ok (is_ok, w')
      → Replies b h c w'
      → (e : E) × (trans_data
            (suc (suc k))
            (vtable (suc (suc k)) pf)
            pf.unpack
            t
            (some (record { parts = request body }))
            w
          ≡ ok (false, counting a b h s h.rx_pkt ((h.tx_pkt + 1) % word) e w'))
        × (outbound e ≡ outbound w'.env ++ frames (reply is_ok))
  unfolding proto_command_parse
  served k body cmd is_ok w w' b c h asked ran r =
      let v = vtable (suc (suc k)) pf in
      let (e, replied, out) = reply-out k b c h is_ok w' r in
      let parsed : proto_command_parse v pf.unpack (take (length body) (whole body).bytes) w
          ≡ ok (is_ok, w') =
        ap (λ m. parse (pf.unpack m) w) (take-whole body) ∙ ap (λ o. parse o w) asked ∙ ran in
      (
        e,
        elim (trans_data-topic (suc (suc k)) v pf.unpack t (whole (codes "PROTO.CMD")) (whole body)
            w (omega arith) (omega arith)) [
              | inl (same, run) ↦
                  run
                  ∙ bind-ok
                      (proto_command_parse v pf.unpack (take (length body) (whole body).bytes)) _ w
                      is_ok w' parsed
                  ∙ bind-ok (proto_command_reply (suc (suc k)) v t is_ok) _ w' tt _ replied
              | inr (other, run) ↦ absurd (other refl)
            ],
        out,
      )
    where
      parse : Option (Command String) → M Class E Bool
      parse o = elim o [ none ↦ pure false | some cmd ↦ run_command (vtable (suc (suc k)) pf) cmd ]

  module _ (d : FileDesc) (ev : Events) (cs : List FileDesc) (es : List Events) (body : List ℕ)
      (cmd : Command String) (rest : List (List ℕ × Bool)) (b c : Block Class) (h : HookZmq)
      (w : World Class E) (e1 : E) where
    -- The command `cmd` arrives on a hook that is bound to a block trans_pb.
    pub record Commands : Type 0 where
      pub arrives :
          Arrives pf s peer inbound outbound channel a t d ev cs es (request body) rest b h w e1
      pub there : w.heap t ≡ some (record c { self = trans_pb })
      pub apart : a ≢ t
      pub asked : pf.unpack body ≡ some cmd

    -- A command that arrives on the socket of a hook that is bound to a block trans_pb is run in that
    -- poll, one received message more being counted, and its outcome is sent back to the socket's
    -- peer, if then a hook on that socket is the sink of the block trans_pb.
    pub fd_poll-command :
        (k : ℕ) (is_ok : Bool) (after : E → World Class E) (b' c' : Block Class) (h' : HookZmq)
        → Commands
        → ((e : E)
            → run_command (vtable (suc (suc k)) pf) cmd (received a b h s w e)
              ≡ ok (is_ok, after e))
        → ((e : E) → Replies b' h' c' (after e))
        → ((e : E) → outbound (after e).env ≡ outbound e)
        → (e e' : E) × (fd_poll pf.sys (vtable (suc (suc (suc (suc k)))) pf) w
            ≡ ok (pos 1, counting a b' h' s h'.rx_pkt ((h'.tx_pkt + 1) % word) e' (after e)))
          × (outbound e' ≡ outbound w.env ++ frames (reply is_ok))
    unfolding vtable methods data_of
    fd_poll-command k is_ok after b' c' h' i runs replies quiet =
        let miss : (a == t) ≡ false = ground (arith, i.apart) in
        let serving = λ (e : E).
          served k body cmd is_ok (received a b h s w e) (after e) b' c' h' i.asked (runs e)
            (replies e) in
        let at_t : (e : E) → (received a b h s w e).heap t ≡ some (record c { self = trans_pb }) =
          λ e. rw miss i.there in
        let (e2, ran, same) =
          fd_poll-delivers pf s peer inbound outbound channel a t d ev cs es (request body) rest b h
            w e1 (suc (suc k))
            (λ e. counting a b' h' s h'.rx_pkt ((h'.tx_pkt + 1) % word) (serving e).0 (after e))
            i.arrives (omega arith)
            (λ e.
              bind-ok (deref t) _ (received a b h s w e) _ (received a b h s w e)
                (deref-live t (received a b h s w e) _ (at_t e))
              ∙ (serving e).1) in
        (
          e2,
          (serving e2).0,
          ran,
          (serving e2).2 ∙ ap (λ q. q ++ frames (reply is_ok)) (quiet e2 ∙ same),
        )
