-- ===== src/Program/Client/Answered.antt =====
-- app/src/ncli.cpp, the loop of `main` that waits: what happens when the answer comes.
use c3qo.Base.{
  ℕ, suc, ◌≡◌, ◌≢◌, refl, ap, ◌∙◌, Bool, true, false, some, List, [], ◌∷◌, String, Ptr, ℤ, pos,
  arith, Bool-cases, inl, inr, ◌==◌, sym, if◌then◌else◌,
}
use c3qo.Buffer.{whole}
use c3qo.World.{Message, Timer, FileDesc, Events, Block, World, ok, deref}
use c3qo.World.Keeps.{bind-ok, deref-live}
use c3qo.Classes.{Class, HookZmq, Ncli, ncli}
use c3qo.Timer.{lt_timespec, timer_check_exp}
use c3qo.Poll.{fd_poll}
use c3qo.Dispatch.{Platform, vtable, methods, data_of}
use c3qo.Ncli.{c_string, ncli_data}
use c3qo.Ncli.Answer.{status_of, reply, agree, ncli_data-reply}
use c3qo.Ncli.Scan.{put, put-self}
use c3qo.Program.Delivery.{IsChannel, Arrives, received, fd_poll-delivers}
use c3qo.Program.Client.{wait_loop, return_status}
use c3qo.Program.Client.Waiting.{
  waiting, wait_loop-turn, timer-fires, timer-waits, is_waiting-answered, wait_loop-over,
  return_status-answer,
}

agree_self : (x : Bool) → agree x x ≡ true
agree_self true = refl
agree_self false = refl

module _ {E : Type 0} (pf : Platform E) (n p : ℕ) (b : Block Class) where
  -- A poll that leaves the client with its answer is the last: the timers are still checked.
  leaves :
      (w u : World Class E) (t : Timer) (c d : Ncli) (e e2 : E) (polled : ℤ) (rounds : ℕ)
      → c.received_answer ≡ some false
      → c.timeout_expired ≡ some false
      → t.bk ≡ some p
      → d.received_answer ≡ some true
      → fd_poll pf.sys (vtable (suc (suc n)) pf) (waiting n pf p b w (t ∷ []) c e)
        ≡ ok (polled, waiting n pf p b u (t ∷ []) d e2)
      → (w' : World Class E) × (wait_loop
            (suc (suc n))
            pf
            (suc (suc rounds))
            p
            (waiting n pf p b w (t ∷ []) c e)
          ≡ ok (tt, w'))
        × (return_status p w' ≡ ok (pos 0, w'))
  leaves w u t c d e e2 polled rounds no_answer flag at answered ran =
      let now = (pf.sys.clock_gettime e2).0 in
      let e3 = (pf.sys.clock_gettime e2).1 in
      elim (Bool-cases (lt_timespec t.time now)) [
        | inl late ↦
            ends [] (record d { timeout_expired = some true }) answered
              (timer-fires n pf p b u t d e2 e3 now at refl late)
        | inr early ↦ ends (t ∷ []) d answered (timer-waits n pf p b u t d e2 e3 now refl early)
      ]
    where
      ends :
          (l : List Timer) (f : Ncli)
          → f.received_answer ≡ some true
          → timer_check_exp
              (suc (suc n))
              pf.sys
              (vtable (suc (suc n)) pf)
              (waiting n pf p b u (t ∷ []) d e2)
            ≡ ok (tt, waiting n pf p b u l f (pf.sys.clock_gettime e2).1)
          → (w' : World Class E) × (wait_loop
                (suc (suc n))
                pf
                (suc (suc rounds))
                p
                (waiting n pf p b w (t ∷ []) c e)
              ≡ ok (tt, w'))
            × (return_status p w' ≡ ok (pos 0, w'))
      ends l f has checked =
          let e3 = (pf.sys.clock_gettime e2).1 in
          (
            waiting n pf p b u l f e3,
            wait_loop-turn n pf p b w (suc rounds) (t ∷ []) c e _ _ polled no_answer flag ran
                  checked
                ∙ wait_loop-over n pf p b u rounds l f e3
                    (is_waiting-answered n pf p b u l f e3 has),
            return_status-answer n pf p b u l f e3 true has,
          )

module _ {E : Type 0} (pf : Platform E) (s peer : Ptr) (inbound outbound : E → List (List ℕ × Bool))
    (channel : IsChannel pf.sys s peer inbound outbound) (a p : ℕ) where
  -- While the client waits with neither flag set, the answer that it was told to expect arrives on
  -- the socket of a hook that is bound to it: whether or not its only timer expires in the same
  -- round, it leaves its loop, given two rounds, and the exit status is 0.
  pub wait_loop-answers :
      (d : FileDesc) (ev : Events) (cs : List FileDesc) (es : List Events) (name : String)
      (is_ok : Bool) (rest : List (List ℕ × Bool)) (bh b : Block Class) (h : HookZmq) (t : Timer)
      (c : Ncli) (w : World Class E) (e e1 : E) (k rounds : ℕ)
      → let n = suc (suc (suc k)) in
        let w0 = waiting n pf p b w (t ∷ []) c e in
        Arrives pf s peer inbound outbound channel a p d ev cs es
          (whole (c_string name) ∷ reply is_ok)
          rest
          bh
          h
          w0
          e1
        → a ≢ p
        → t.bk ≡ some p
        → c.received_answer ≡ some false
        → c.timeout_expired ≡ some false
        → c.ncli_peer ≡ some name
        → c.ncli_cmd_ret ≡ some (status_of is_ok)
        → (w' : World Class E) × (wait_loop (suc (suc n)) pf (suc (suc rounds)) p w0 ≡ ok (tt, w'))
          × (return_status p w' ≡ ok (pos 0, w'))
  unfolding vtable methods data_of
  wait_loop-answers d ev cs es name is_ok rest bh b h t c w e e1 k rounds i apart at no_answer flag
        has_peer has_ret =
      let n = suc (suc (suc k)) in
      let w0 = waiting n pf p b w (t ∷ []) c e in
      let msg : Message = some (record { parts = whole (c_string name) ∷ reply is_ok }) in
      let answered : Ncli = record c { received_answer = some true } in
      let got : E → World Class E = λ x. received a bh h s w0 x in
      let self : (p == p) ≡ true = ground arith in
      let miss : (a == p) ≡ false = ground (arith, apart) in
      let live : (x : E) → (got x).heap p ≡ some (record b { self = ncli c }) =
        λ x. rw (miss, self) refl in
      let taken : (x : E) → ncli_data p msg (got x) ≡ ok (false, put p b (got x) answered x) = λ x.
        ap (ncli_data p msg) (sym (put-self p b (got x) c (live x)))
        ∙ (ncli_data-reply 0 (vtable 0 pf) p is_ok is_ok (got x) p b (got x) c x name has_peer
            has_ret).1
        ∙ ap (λ z. ok (false, put p b (got x) (if z then answered else c) x)) (agree_self is_ok) in
      let (e2, ran, out) =
        fd_poll-delivers pf s peer inbound outbound channel a p d ev cs es
          (whole (c_string name) ∷ reply is_ok) rest bh h w0 e1 n (λ x. put p b (got x) answered x)
          i (omega arith)
          (λ x.
            bind-ok (deref p) _ (got x) _ (got x) (deref-live p (got x) _ (live x)) ∙ taken x) in
      leaves pf n p b w (got e2) t c answered e e2 (pos 1) rounds no_answer flag at refl ran
