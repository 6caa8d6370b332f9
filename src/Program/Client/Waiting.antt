-- ===== src/Program/Client/Waiting.antt =====
-- app/src/ncli.cpp, the loop of `main` that waits: what happens when no answer comes.
use c3qo.Base.{
  ℕ, zero, suc, ◌<◌, ◌≡◌, refl, ap, ◌∙◌, Bool, true, false, not, Option, some, List, [], ◌∷◌, ℤ,
  pos, negsuc, eq_ℤ, arith, Bool-cases, inl, inr, ◌||◌, if◌then◌else◌,
}
use c3qo.World.{
  Timespec, Timer, Events, PollItem, Block, World, Sys, M, Vtable, ok, pure, ◌>>=◌, ◌>>◌,
}
use c3qo.World.Keeps.{bind-ok}
use c3qo.Classes.{Class, Ncli, ncli_at, written}
use c3qo.Timer.{lt_timespec, check_loop, timer_check_exp}
use c3qo.Timer.Expiry.{set_timers, check_loop-nil, check_loop-pending, check_loop-expired}
use c3qo.Poll.{fd_poll, poll_loop}
use c3qo.Dispatch.{Platform, vtable, on_timer-ncli}
use c3qo.Ncli.{ncli_on_timer}
use c3qo.Ncli.Scan.{put, ncli_at-put, edit_ncli-put, put-live}
use c3qo.Program.Client.{is_waiting, wait_loop, return_status}

-- The return values of `zmq_poll` that end `fd_poll` at once.
abbrev pub is_idle : ℤ → Bool
is_idle ret = eq_ℤ ret (negsuc 0) || eq_ℤ ret (pos 0)

-- Rounds of the loop on a system where no descriptor is ready, up to the one that finds that the
-- clock has passed `date`.
pub data Lapses {E : Type 0} (sys : Sys E) (items : List PollItem) (date : Timespec)
    : ℕ → E → E → Type 0 where
  expires :
      {e e1 e2 : E} (ret : ℤ) (revents : List Events) (now : Timespec)
      → sys.zmq_poll items 10 e ≡ ((ret, revents), e1)
      → is_idle ret ≡ true
      → sys.clock_gettime e1 ≡ (now, e2)
      → lt_timespec date now ≡ true
      → Lapses sys items date 1 e e2
  goes_on :
      {k : ℕ} {e e1 e2 e3 : E} (ret : ℤ) (revents : List Events) (now : Timespec)
      → sys.zmq_poll items 10 e ≡ ((ret, revents), e1)
      → is_idle ret ≡ true
      → sys.clock_gettime e1 ≡ (now, e2)
      → lt_timespec date now ≡ false
      → Lapses sys items date k e2 e3
      → Lapses sys items date (suc k) e e3

module _ {E : Type 0} (n : ℕ) (pf : Platform E) (p : ℕ) (b : Block Class) (w : World Class E) where
  abbrev v : Vtable Class E
  v = vtable (suc (suc n)) pf

  -- The client waits with the timers `l`.
  abbrev pub waiting : List Timer → Ncli → E → World Class E
  waiting l c e = put p b (set_timers l w) c e

  fd_poll-idle :
      (l : List Timer) (c : Ncli) (e e1 : E) (ret : ℤ) (revents : List Events)
      → pf.sys.zmq_poll w.mgr.fd 10 e ≡ ((ret, revents), e1)
      → is_idle ret ≡ true
      → (polled : ℤ) × (fd_poll pf.sys v (waiting l c e) ≡ ok (polled, waiting l c e1))
  unfolding fd_poll
  fd_poll-idle l c e e1 ret revents polled idle =
      let start : fd_poll pf.sys v (waiting l c e) ≡ after (ret, revents) (waiting l c e1) =
        ap (λ r. after r.0 (waiting l c r.1)) polled in
      elim (Bool-cases (eq_ℤ ret (negsuc 0))) [
        | inl failed ↦ (negsuc 0, start ∙ rw failed refl)
        | inr not_failed ↦ elim (Bool-cases (eq_ℤ ret (pos 0))) [
          | inl none_ready ↦ (ret, start ∙ rw (not_failed, none_ready) refl)
          | inr some_ready ↦ absurd (ground (arith, idle, not_failed, some_ready))
        ]
      ]
    where
      after : ℤ × List Events → M Class E ℤ
      after r = elim (eq_ℤ r.0 (negsuc 0)) [
        | true ↦ pure (negsuc 0)
        | false ↦ elim (eq_ℤ r.0 (pos 0)) [
          | true ↦ pure r.0
          | false ↦ do poll_loop v r.0 w.mgr.epoch 0 w.mgr.callback r.1; pure r.0
        ]
      ]

  pub timer-fires :
      (t : Timer) (c : Ncli) (e e1 : E) (now : Timespec)
      → t.bk ≡ some p
      → pf.sys.clock_gettime e ≡ (now, e1)
      → lt_timespec t.time now ≡ true
      → timer_check_exp (suc (suc n)) pf.sys v (waiting (t ∷ []) c e)
        ≡ ok (tt, waiting [] (record c { timeout_expired = some true }) e1)
  unfolding timer_check_exp ncli_on_timer
  timer-fires t c e e1 now at clock late =
      let over : World Class E = waiting [] (record c { timeout_expired = some true }) e1 in
      ap (λ r. check_loop (suc (suc n)) v r.0 (waiting (t ∷ []) c r.1)) clock
      ∙ check_loop-expired v now (suc n) (waiting (t ∷ []) c e1) over t [] p refl late at (
          on_timer-ncli (suc n) pf p t (waiting [] c e1) b c (put-live p b (set_timers [] w) c e1)
          ∙ edit_ncli-put p b (set_timers [] w) (λ d. record d { timeout_expired = some true }) c
              e1)
      ∙ check_loop-nil v now n over refl

  pub timer-waits :
      (t : Timer) (c : Ncli) (e e1 : E) (now : Timespec)
      → pf.sys.clock_gettime e ≡ (now, e1)
      → lt_timespec t.time now ≡ false
      → timer_check_exp (suc (suc n)) pf.sys v (waiting (t ∷ []) c e)
        ≡ ok (tt, waiting (t ∷ []) c e1)
  unfolding timer_check_exp
  timer-waits t c e e1 now clock early =
      ap (λ r. check_loop (suc (suc n)) v r.0 (waiting (t ∷ []) c r.1)) clock
      ∙ check_loop-pending v now (suc n) (waiting (t ∷ []) c e1) t [] refl early

  -- What a client with these flags does next.
  decide : Option Bool → Option Bool → M Class E Bool
  decide answer timeout = do
    answered ← written answer
    elim answered [
      | true ↦ pure false
      | false ↦ do expired ← written timeout; elim expired [ true ↦ pure false | false ↦ pure true ]
    ]

  is_waiting-decide :
      (l : List Timer) (d : Ncli) (e : E) (x : Bool)
      → d.received_answer ≡ some false
      → d.timeout_expired ≡ some x
      → is_waiting p (waiting l d e) ≡ ok (not x, waiting l d e)
  unfolding is_waiting decide
  is_waiting-decide l d e x no_answer flag =
      bind-ok (ncli_at p) (λ f. decide f.received_answer f.timeout_expired) (waiting l d e) d
        (waiting l d e) (ncli_at-put p b (set_timers l w) d e)
      ∙ ap (λ a. decide a d.timeout_expired (waiting l d e)) no_answer
      ∙ ap (λ a. decide (some false) a (waiting l d e)) flag
      ∙ by_flag x
    where
      by_flag :
          (x : Bool) → decide (some false) (some x) (waiting l d e) ≡ ok (not x, waiting l d e)
      by_flag true = refl
      by_flag false = refl

  -- What a round of the loop does behind its test.
  round : ℕ → Bool → M Class E (Unit {0})
  round rounds waits = elim waits [
    | false ↦ pure tt
    | true ↦ do
      polled ← fd_poll pf.sys v
      timer_check_exp (suc (suc n)) pf.sys v
      wait_loop (suc (suc n)) pf rounds p
  ]

  pub is_waiting-answered :
      (l : List Timer) (d : Ncli) (e : E)
      → d.received_answer ≡ some true
      → is_waiting p (waiting l d e) ≡ ok (false, waiting l d e)
  unfolding is_waiting decide
  is_waiting-answered l d e answered =
      bind-ok (ncli_at p) (λ f. decide f.received_answer f.timeout_expired) (waiting l d e) d
        (waiting l d e) (ncli_at-put p b (set_timers l w) d e)
      ∙ ap (λ a. decide a d.timeout_expired (waiting l d e)) answered

  pub wait_loop-over :
      (rounds : ℕ) (l : List Timer) (d : Ncli) (e : E)
      → is_waiting p (waiting l d e) ≡ ok (false, waiting l d e)
      → wait_loop (suc (suc n)) pf (suc rounds) p (waiting l d e) ≡ ok (tt, waiting l d e)
  unfolding wait_loop round
  wait_loop-over rounds l d e over =
      bind-ok (is_waiting p) (round rounds) (waiting l d e) false (waiting l d e) over

  -- A round that polls and checks the timers, however that goes.
  pub wait_loop-turn :
      (rounds : ℕ) (l : List Timer) (c : Ncli) (e : E) (w1 w2 : World Class E) (polled : ℤ)
      → c.received_answer ≡ some false
      → c.timeout_expired ≡ some false
      → fd_poll pf.sys v (waiting l c e) ≡ ok (polled, w1)
      → timer_check_exp (suc (suc n)) pf.sys v w1 ≡ ok (tt, w2)
      → wait_loop (suc (suc n)) pf (suc rounds) p (waiting l c e)
        ≡ wait_loop (suc (suc n)) pf rounds p w2
  unfolding wait_loop round
  wait_loop-turn rounds l c e w1 w2 polled no_answer flag is checked =
      let before = waiting l c e in
      bind-ok (is_waiting p) (round rounds) before true before
        (is_waiting-decide l c e false no_answer flag)
      ∙ bind-ok (fd_poll pf.sys v) (λ _. check_and_go) before polled w1 is
      ∙ bind-ok (timer_check_exp (suc (suc n)) pf.sys v) (λ _. wait_loop (suc (suc n)) pf rounds p)
          w1 tt w2 checked
    where
      check_and_go : M Class E (Unit {0})
      check_and_go = do timer_check_exp (suc (suc n)) pf.sys v; wait_loop (suc (suc n)) pf rounds p

  wait_loop-round :
      (rounds : ℕ) (t : Timer) (c d : Ncli) (l : List Timer) (e e1 e2 : E) (ret : ℤ)
      (revents : List Events)
      → c.received_answer ≡ some false
      → c.timeout_expired ≡ some false
      → pf.sys.zmq_poll w.mgr.fd 10 e ≡ ((ret, revents), e1)
      → is_idle ret ≡ true
      → timer_check_exp (suc (suc n)) pf.sys v (waiting (t ∷ []) c e1) ≡ ok (tt, waiting l d e2)
      → wait_loop (suc (suc n)) pf (suc rounds) p (waiting (t ∷ []) c e)
        ≡ wait_loop (suc (suc n)) pf rounds p (waiting l d e2)
  wait_loop-round rounds t c d l e e1 e2 ret revents no_answer flag polls idle checked =
      let (polled, is) = fd_poll-idle (t ∷ []) c e e1 ret revents polls idle in
      wait_loop-turn rounds (t ∷ []) c e _ (waiting l d e2) polled no_answer flag is checked

  pub return_status-answer :
      (l : List Timer) (d : Ncli) (e : E) (x : Bool)
      → d.received_answer ≡ some x
      → return_status p (waiting l d e) ≡ ok (if x then pos 0 else pos 1, waiting l d e)
  unfolding return_status
  return_status-answer l d e x answer =
      bind-ok (ncli_at p) (λ f. status f.received_answer) (waiting l d e) d (waiting l d e)
        (ncli_at-put p b (set_timers l w) d e)
      ∙ ap (λ a. status a (waiting l d e)) answer
      ∙ by_answer x
    where
      status : Option Bool → M Class E ℤ
      status answer = do
        answered ← written answer
        elim answered [ true ↦ pure (pos 0) | false ↦ pure (pos 1) ]

      by_answer :
          (x : Bool)
          → status (some x) (waiting l d e) ≡ ok (if x then pos 0 else pos 1, waiting l d e)
      by_answer true = refl
      by_answer false = refl

  -- On a system where no descriptor is ready and whose clock passes the date of the client's only
  -- timer in round `k`, a client that waits with neither flag set leaves its loop, given one
  -- round more than `k`: the timer is gone, the time-out is set, and the exit status is 1.
  pub wait_loop-expires :
      (t : Timer) (c : Ncli) (k rounds : ℕ) {e e' : E}
      → t.bk ≡ some p
      → c.received_answer ≡ some false
      → c.timeout_expired ≡ some false
      → Lapses pf.sys w.mgr.fd t.time k e e'
      → k < rounds
      → let over = waiting [] (record c { timeout_expired = some true }) e' in
        (wait_loop (suc (suc n)) pf rounds p (waiting (t ∷ []) c e) ≡ ok (tt, over))
        × (return_status p over ≡ ok (pos 1, over))
  wait_loop-expires t c k zero at no_answer flag lapses enough = absurd (omega arith)
  wait_loop-expires t c k (suc zero) at no_answer flag
        (expires ret revents now polls idle clock late) enough =
      absurd (omega arith)
  wait_loop-expires t c k (suc (suc rounds)) {e} {e'} at no_answer flag
        (expires {e1 = e1} ret revents now polls idle clock late) enough =
      let d : Ncli = record c { timeout_expired = some true } in
      (
        wait_loop-round (suc rounds) t c d [] e e1 e' ret revents no_answer flag polls idle
              (timer-fires t c e1 e' now at clock late)
            ∙ wait_loop-over rounds [] d e' (is_waiting-decide [] d e' true no_answer refl),
        return_status-answer [] d e' false no_answer,
      )
  wait_loop-expires t c k (suc rounds) {e} {e'} at no_answer flag
        (goes_on {k = j} {e1 = e1} {e2 = e2} ret revents now polls idle clock early rest) enough =
      let (ends, status) = wait_loop-expires t c j rounds at no_answer flag rest (omega arith) in
      (
        wait_loop-round rounds t c c (t ∷ []) e e1 e2 ret revents no_answer flag polls idle
              (timer-waits t c e1 e2 now clock early)
            ∙ ends,
        status,
      )
