-- ===== src/Program/Whole.antt =====
-- app/src/c3qo.cpp, `main` from its blocks to its end: a run that a command terminates.
use c3qo.Base.{
  ℕ, suc, ◌<◌, ◌≡◌, refl, ap, ◌∙◌, Bool, true, false, some, List, All, inl, inr, [], ◌∷◌, ◌++◌,
  String, Ptr, length, codes, pos, arith,
}
use c3qo.Command.{term}
use c3qo.World.{World, Events, ok, pure, ◌>>◌}
use c3qo.World.Keeps.{bind-ok}
use c3qo.Classes.{Class, HookZmq}
use c3qo.HookZmq.Framing.{frames}
use c3qo.HookZmq.Opening.{Opens, entry}
use c3qo.HookZmq.Stopping.{after_dummy}
use c3qo.Poll.{is_ready}
use c3qo.Ncli.Answer.{reply}
use c3qo.Dispatch.{Platform}
use c3qo.Ncli.Options.{Shell}
use c3qo.Ncli.Scan.{Opt, Yields}
use c3qo.Ncli.Fields.{last_text}
use c3qo.Program.Identity.{IsIdentity, run-IsIdentity}
use c3qo.Program.{new_world, set_up, main, run}
use c3qo.Program.Delivery.{IsChannel}
use c3qo.Program.Server.{Commands, request}
use c3qo.Program.Ending.{main_loop-term}
use c3qo.Program.Starting.{monitoring, monitor_ready, transcoder_ready, polled_item, set_up-Ready}

module _ {E : Type 0} (pf : Platform E) (s : ℕ) (peer : Ptr)
    (inbound outbound : E → List (List ℕ × Bool))
    (channel : IsChannel pf.sys (some s) peer inbound outbound) where
  -- Where the socket of the monitoring hook opens, no signal comes before the first poll, and the
  -- command "term" is what this poll finds first: `main`, given two rounds of its loop, returns, and
  -- all that has gone out since the first message is the outcome "OK".
  pub main-term :
      (name : String) (ctx : ℕ) (ev : Events) (es : List Events) (body : List ℕ) (arg : Bool)
      (rest : List (List ℕ × Bool)) (k rounds : ℕ) {e e' e1 : E}
      → Opens pf.sys (monitoring pf name) e ctx s e'
      → pf.end_signal (after_dummy pf.sys s e') ≡ false
      → pf.sys.zmq_poll (polled_item s ∷ []) 10 (after_dummy pf.sys s e') ≡ ((pos 1, ev ∷ es), e1)
      → is_ready ev ≡ true
      → inbound e1 ≡ frames (request body) ++ rest
      → 0 < length body
      → pf.unpack body ≡ some (term arg)
      → (w' : World Class E) × (main
            (suc (suc rounds))
            (suc (suc (suc (suc k))))
            pf
            (some name)
            (new_world e)
          ≡ ok (tt, w'))
        × (outbound w'.env ≡ outbound (after_dummy pf.sys s e') ++ frames (reply true))
  unfolding main
  main-term name ctx ev es body arg rest k rounds {e} {e'} {e1} opened no_signal polls ready queued
        some_byte asked =
      let n = suc (suc (suc (suc k))) in
      let (w, up, r, on) = set_up-Ready pf name (suc (suc (suc k))) ctx s opened in
      let h : HookZmq = record (monitoring pf name) {
        zmq_ctx = some (some ctx);
        zmq_socket = some (some s);
        zmq_sock = some (entry 0 s);
      } in
      let i : Commands pf (some s) peer inbound outbound channel 0 1 (entry 0 s) ev [] es body
          (term arg) rest (monitor_ready pf name ctx s) (transcoder_ready pf name) h w e1 =
        record {
          arrives = record {
            hook = record { live = r.monitor_at; socket = refl };
            forwards = refl;
            entry = r.callbacks;
            owner = refl;
            socket = ground arith;
            polls =
                ap (λ l. pf.sys.zmq_poll l 10 w.env) r.fds
                ∙ ap (pf.sys.zmq_poll (polled_item s ∷ []) 10) r.env
                ∙ polls;
            is_ready = ready;
            queued = queued;
            parts = ((codes "PROTO.CMD", refl, omega arith), ((body, refl, some_byte), tt));
            some_part = omega arith;
          };
          there = r.transcoder_at;
          apart = omega arith;
          asked = asked;
        } in
      let (w', ran, out) =
        main_loop-term pf (some s) peer inbound outbound channel 0 1 (entry 0 s) ev [] es body arg
          rest (monitor_ready pf name ctx s) (transcoder_ready pf name) h w e1 k rounds i refl
          (ap pf.end_signal r.env ∙ no_signal) on r.no_timers in
      (
        w',
        bind-ok (set_up n pf (some name)) _ (new_world e) tt w up ∙ ran,
        out ∙ ap (λ x. outbound x ++ frames (reply true)) r.env,
      )

  -- Where `getopt` returns options `-i` only, the last of which gives the name (or none, and it is the
  -- default one), the socket of the monitoring hook opens, no signal comes before the first poll, and
  -- the command "term" is what this poll finds first: the program, given two rounds of its loop, ends
  -- with exit status 0, and all that has gone out since the first message is the outcome "OK".
  pub run-term :
      (sh : Shell E) (argv : List String) (l : List Opt) (name : String) (ctx : ℕ) (ev : Events)
      (es : List Events) (body : List ℕ) (arg : Bool) (rest : List (List ℕ × Bool)) (k rounds : ℕ)
      {e0 e e' e1 : E}
      → Yields sh argv "hi:" e0 l e
      → All IsIdentity l
      → length l < suc (suc (suc (suc k)))
      → last_text b'i' l (some "default_identity") ≡ some name
      → Opens pf.sys (monitoring pf name) e ctx s e'
      → pf.end_signal (after_dummy pf.sys s e') ≡ false
      → pf.sys.zmq_poll (polled_item s ∷ []) 10 (after_dummy pf.sys s e') ≡ ((pos 1, ev ∷ es), e1)
      → is_ready ev ≡ true
      → inbound e1 ≡ frames (request body) ++ rest
      → 0 < length body
      → pf.unpack body ≡ some (term arg)
      → (w' : World Class E) × (run
            (suc (suc rounds))
            (suc (suc (suc (suc k))))
            sh
            pf
            argv
            (new_world e0)
          ≡ ok (pos 0, w'))
        × (outbound w'.env ≡ outbound (after_dummy pf.sys s e') ++ frames (reply true))
  run-term sh argv l name ctx ev es body arg rest k rounds {e0} {e} yields identities enough named
        opened no_signal polls ready queued some_byte asked =
      let n = suc (suc (suc (suc k))) in
      let (w', ran, out) =
        main-term name ctx ev es body arg rest k rounds opened no_signal polls ready queued
          some_byte asked in
      elim (run-IsIdentity sh argv (suc (suc rounds)) n pf (new_world e0) yields enough) [
        | inl (all, chosen) ↦ (
          w',
          chosen
              ∙ ap (λ i. (do main (suc (suc rounds)) n pf i; pure (pos 0)) (new_world e)) named
              ∙ bind-ok (main (suc (suc rounds)) n pf (some name)) (λ _. pure (pos 0)) (new_world e)
                  tt w' ran,
          out,
        )
        | inr (other, refused) ↦ absurd (other identities)
      ]
