-- ===== src/Program/Ending.antt =====
-- app/src/c3qo.cpp: how the main loop of the monitored program ends.
use c3qo.Base.{
  ℕ, suc, ◌+◌, ◌%◌, ◌≡◌, refl, ap, ◌∙◌, Bool, true, false, ◌||◌, some, List, [], ◌++◌, Ptr, arith,
  ◌==◌, ℤ, pos, int_eq, string_eq,
}
use mathlib.Core.Bool.{or-true}
use c3qo.Command.{term}
use c3qo.World.{Block, World, FileDesc, Events, Result, ok, ◌>>=◌, ◌>>◌}
use c3qo.World.Keeps.{bind-ok}
use c3qo.Classes.{Class, HookZmq, trans_pb}
use c3qo.HookZmq.{word}
use c3qo.HookZmq.Framing.{frames}
use c3qo.HookZmq.Passing.{counting}
use c3qo.Poll.{fd_poll}
use c3qo.Timer.{timer_check_exp}
use c3qo.Timer.Expiry.{check_loop-nil}
use c3qo.Blocks.{manager_stop}
use c3qo.Ncli.Answer.{reply}
use c3qo.TransPb.{run_command}
use c3qo.Dispatch.{Platform, vtable}
use c3qo.Program.{main_loop}
use c3qo.Program.Delivery.{IsChannel, received}
use c3qo.Program.Server.{Commands, fd_poll-command}

module _ {E : Type 0} (pf : Platform E) where
  -- A turn of the main loop, by the test at its head.
  abbrev turn : ℕ → ℕ → World Class E → Bool → Result (Unit {0} × World Class E)
  turn rounds n w over = elim over [
    | true ↦ ok (tt, w)
    | false ↦
        (do
          polled ← fd_poll pf.sys (vtable n pf)
          timer_check_exp n pf.sys (vtable n pf)
          main_loop rounds n pf)
          w
  ]

  main_loop-turn :
      (rounds n : ℕ) (w : World Class E) (over : Bool)
      → (pf.end_signal w.env || w.mgr.is_term) ≡ over
      → main_loop (suc rounds) n pf w ≡ turn rounds n w over
  unfolding main_loop
  main_loop-turn rounds n w over test = ap (turn rounds n w) test

  main_loop-round :
      (rounds n : ℕ) (w w1 w2 : World Class E) (polled : ℤ)
      → pf.end_signal w.env ≡ false
      → w.mgr.is_term ≡ false
      → fd_poll pf.sys (vtable n pf) w ≡ ok (polled, w1)
      → timer_check_exp n pf.sys (vtable n pf) w1 ≡ ok (tt, w2)
      → main_loop (suc rounds) n pf w ≡ main_loop rounds n pf w2
  main_loop-round rounds n w w1 w2 polled no_signal on ran checked =
      main_loop-turn rounds n w false (rw (no_signal, on) refl)
      ∙ bind-ok (fd_poll pf.sys (vtable n pf)) _ w polled w1 ran
      ∙ bind-ok (timer_check_exp n pf.sys (vtable n pf)) _ w1 tt w2 checked

module _ {E : Type 0} (pf : Platform E) (s peer : Ptr) (inbound outbound : E → List (List ℕ × Bool))
    (channel : IsChannel pf.sys s peer inbound outbound) (a t : ℕ) where
  -- Where no signal has come, the manager is not terminating and no timer runs, the command "term",
  -- if it is what the poll finds first, ends the main loop: given two rounds, it returns, and the
  -- outcome "OK" has gone out to the socket's peer.
  pub main_loop-term :
      (d : FileDesc) (ev : Events) (cs : List FileDesc) (es : List Events) (body : List ℕ)
      (arg : Bool) (rest : List (List ℕ × Bool)) (b c : Block Class) (h : HookZmq)
      (w : World Class E) (e1 : E) (k rounds : ℕ)
      → Commands pf s peer inbound outbound channel a t d ev cs es body (term arg) rest b c h w e1
      → c.sink ≡ some a
      → pf.end_signal w.env ≡ false
      → w.mgr.is_term ≡ false
      → w.mgr.tm_list ≡ []
      → (w' : World Class E) × (main_loop (suc (suc rounds)) (suc (suc (suc (suc k)))) pf w
          ≡ ok (tt, w'))
        × (outbound w'.env ≡ outbound w.env ++ frames (reply true))
  unfolding run_command manager_stop timer_check_exp
  main_loop-term d ev cs es body arg rest b c h w e1 k rounds i back no_signal on idle =
      let n = suc (suc (suc (suc k))) in
      let h1 : HookZmq = record h { rx_pkt = (h.rx_pkt + 1) % word } in
      let after : E → World Class E =
        λ e. record (received a b h s w e) { mgr = record w.mgr { is_term = true } } in
      let self : (a == a) ≡ true = ground arith in
      let miss : (a == t) ≡ false = ground (arith, i.apart) in
      let (e2, e3, ran, out) =
        fd_poll-command pf s peer inbound outbound channel a t d ev cs es body (term arg) rest b c h
          w e1 k true after b (record c { self = trans_pb }) h1 i (λ e. refl)
          (λ e. record {
            hook = record { live = rw self refl; socket = i.arrives.hook.socket };
            there = rw miss i.there;
            sink = back;
          })
          (λ e. refl) in
      let w1 = counting a b h1 s h1.rx_pkt ((h1.tx_pkt + 1) % word) e3 (after e2) in
      let w2 : World Class E = record w1 { env = (pf.sys.clock_gettime e3).1 } in
      let checked : timer_check_exp n pf.sys (vtable n pf) w1 ≡ ok (tt, w2) =
        check_loop-nil (vtable n pf) (pf.sys.clock_gettime e3).0 (suc (suc (suc k))) w2 idle in
      (
        w2,
        main_loop-round pf (suc rounds) n w w1 w2 (pos 1) no_signal on ran checked
            ∙ main_loop-turn pf rounds n w2 true (or-true (pf.end_signal w2.env)),
        channel.clock_keeps e3 ∙ out,
      )
