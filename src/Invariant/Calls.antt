-- ===== src/Invariant/Calls.antt =====
-- The operations on timers and descriptors, and the data flow, keep the invariant.
use c3qo.Base.{
  ℕ, zero, suc, ◌≡◌, true, false, none, some, List, [], ◌∷◌, ℤ, pos, negsuc, eq_ℤ, Ptr, Bool-cases,
  Option-cases, inl, inr, int_eq, ◌==◌,
}
use c3qo.UnorderedMap
use c3qo.World.{
  Timespec, Timer, FileDesc, Events, Manager, World, Vtable, Message, ok, M, pure, Sys, call,
  not_null, modify_mgr, ◌>>=◌, ◌>>◌,
}
use c3qo.World.Keeps.{Post, Keeps, Keeps-bind, Post-deref}
use c3qo.Timer.{timer_add, timer_del, check_loop, timer_check_exp, lt_timespec}
use c3qo.Timer.Queue.{schedule-IsQueue, remove-IsQueue, IsQueue}
use c3qo.Poll.{fd_add, fd_remove, fd_poll, poll_loop, check_epoch, register, unregister, is_ready}
use c3qo.Poll.Valid.{HasTable, fd_add-cases, register-IsTable, unregister-IsTable}
use c3qo.Poll.Table.{register-rest, unregister-rest}
use c3qo.Blocks.{block_get}
use c3qo.Flow.{process_data, process_ctrl}
use c3qo.Invariant.{Inv, Respects}

module _ {S E : Type 0} where
  -- A new list of timers.
  Inv-timers :
      (w : World S E) (l : List Timer)
      → Inv w
      → IsQueue l
      → Inv (record w { mgr = record w.mgr { tm_list = l } })
  Inv-timers w l i q = record {
    registered = i.registered;
    unused = i.unused;
    timers = q;
    table = i.table;
  }

  pub Inv-call : {A : Type 0} (f : E → A × E) → Keeps {S = S} {E = E} Inv (call f)
  Inv-call f w i = record {
    registered = i.registered;
    unused = i.unused;
    timers = i.timers;
    table = i.table;
  }

  pub timer_add-Inv : (sys : Sys E) (tm : Timer) → Keeps {S = S} {E = E} Inv (timer_add sys tm)
  unfolding timer_add
  timer_add-Inv sys tm w i = elim (Option-cases tm.bk) [
    | inl null ↦ rw null i
    | inr (p, at) ↦ rw at (
        Inv-timers (record w { env = (sys.clock_gettime w.env).1 }) _
          (Inv-call sys.clock_gettime w i) (schedule-IsQueue _ w.mgr.tm_list i.timers))
  ]

  pub timer_del-Inv : (tm : Timer) → Keeps {S = S} {E = E} Inv (timer_del tm)
  unfolding timer_del
  timer_del-Inv tm w i = Inv-timers w _ i (remove-IsQueue tm w.mgr.tm_list i.timers)

  -- New vectors.
  Inv-table :
      (w : World S E) (m : Manager)
      → Inv w
      → HasTable m
      → m.bk_map ≡ w.mgr.bk_map
      → m.tm_list ≡ w.mgr.tm_list
      → Inv (record w { mgr = m })
  Inv-table w m i t maps timers = record {
    registered = λ id p found. i.registered id p (rw maps at found);
    unused = i.unused;
    timers = rw timers i.timers;
    table = t;
  }

  pub fd_add-Inv : (d : FileDesc) → Keeps {S = S} {E = E} Inv (fd_add d)
  fd_add-Inv d w i = elim (fd_add-cases d w) [
    | inr (_, e) ↦ rw e i
    | inl (u, e) ↦
        let (maps, timers) = register-rest d w.mgr in
        rw e (Inv-table w (register d w.mgr) i (register-IsTable d w.mgr u i.table) maps timers)
  ]

  pub fd_remove-Inv : (d : FileDesc) → Keeps {S = S} {E = E} Inv (fd_remove d)
  unfolding fd_remove
  fd_remove-Inv d w i =
      let (maps, timers) = unregister-rest d w.mgr in
      Inv-table w (unregister d w.mgr) i (unregister-IsTable d w.mgr i.table) maps timers

  pub not_null-Keeps : (P : World S E → Type 0) (o : Ptr) → Keeps P (not_null o)
  not_null-Keeps P none w p = tt
  not_null-Keeps P (some q) w p = p

  check_epoch-Inv : (epoch : ℕ) → Keeps {S = S} {E = E} Inv (check_epoch epoch)
  unfolding check_epoch
  check_epoch-Inv epoch w i = elim (Bool-cases (w.mgr.epoch == epoch)) [
    | inl same ↦ rw same i
    | inr differs ↦ rw differs tt
  ]

module _ {S E : Type 0} (v : Vtable S E) (r : Respects v) where
  pub check_loop-Inv : (n : ℕ) (time : Timespec) → Keeps Inv (check_loop n v time)
  unfolding check_loop
  check_loop-Inv zero time w i = tt
  check_loop-Inv (suc n) time w i = go w.mgr.tm_list i.timers (check_loop-Inv n time)
    where
      go :
          (l : List Timer)
          → IsQueue l
          → Keeps Inv (check_loop n v time)
          → Post
              (λ _ w'. Inv w')
              (elim l [
                | [] ↦ ok (tt, w)
                | timer ∷ rest ↦ elim (lt_timespec timer.time time) [
                  | true ↦
                      (do
                        modify_mgr (λ m. record m { tm_list = rest })
                        v.on_timer (← not_null timer.bk) timer
                        check_loop n v time)
                        w
                  | false ↦ ok (tt, w)
                ]
              ])
      go [] q k = i
      go (t ∷ l) q k = elim (Bool-cases (lt_timespec t.time time)) [
        | inr late ↦ rw late i
        | inl due ↦ rw due (
            Keeps-bind Inv (not_null t.bk) _ (not_null-Keeps Inv t.bk)
              (λ p. Keeps-bind Inv (v.on_timer p t) _ (r.on_timer p t) (λ _. k)) _
              (Inv-timers w l i (q.0.1, q.1.1)))
      ]

  pub timer_check_exp-Inv : (n : ℕ) (sys : Sys E) → Keeps Inv (timer_check_exp n sys v)
  unfolding timer_check_exp
  timer_check_exp-Inv n sys w i = check_loop-Inv n _ _ (Inv-call sys.clock_gettime w i)

  poll_loop-Inv :
      (ret : ℤ) (epoch count : ℕ) (cs : List FileDesc) (es : List Events)
      → Keeps Inv (poll_loop v ret epoch count cs es)
  unfolding poll_loop
  poll_loop-Inv ret epoch count cs [] w i = i
  poll_loop-Inv ret epoch count [] (e ∷ es) w i = tt
  poll_loop-Inv ret epoch count (c ∷ cs) (e ∷ es) w i =
      let more = λ (k : ℕ).
        Keeps-bind Inv (check_epoch epoch) _ (check_epoch-Inv epoch)
          (λ _. poll_loop-Inv ret epoch k cs es) in
      elim (Bool-cases (is_ready e)) [
        | inl hit ↦
            rw (hit, poll_loop)
              (Keeps-bind Inv (not_null c.bk) _ (not_null-Keeps Inv c.bk)
                (λ p. Keeps-bind Inv (v.on_fd p c) _ (r.on_fd p c) (λ _ w' i'.
                  elim (Bool-cases (eq_ℤ (pos (suc count)) ret)) [
                    | inl stop ↦ rw stop i'
                    | inr further ↦ rw further (more (suc count) w' i')
                  ]))
                w i)
        | inr skip ↦
            rw (skip, poll_loop)
              (elim (Bool-cases (eq_ℤ (pos count) ret)) [
                | inl stop ↦ rw stop i
                | inr further ↦ rw further (more count w i)
              ])
      ]

  pub fd_poll-Inv : (sys : Sys E) → Keeps Inv (fd_poll sys v)
  unfolding fd_poll
  fd_poll-Inv sys w i =
      let ((ret, es), e) = sys.zmq_poll w.mgr.fd 10 w.env in
      let i' = Inv-call (sys.zmq_poll w.mgr.fd 10) w i in
      elim (Bool-cases (eq_ℤ ret (negsuc 0))) [
        | inl failed ↦ rw failed i'
        | inr polled ↦ rw polled (elim (Bool-cases (eq_ℤ ret (pos 0))) [
          | inl idle ↦ rw idle i'
          | inr some_ready ↦ rw some_ready (
              Keeps-bind Inv (poll_loop v ret w.mgr.epoch 0 w.mgr.callback es) _
                (poll_loop-Inv ret w.mgr.epoch 0 w.mgr.callback es) (λ _ w' j. j) _ i')
        ])
      ]

  pub process_ctrl-Inv : (id : ℤ) (m : Message) → Keeps Inv (process_ctrl v id m)
  unfolding process_ctrl block_get
  process_ctrl-Inv id m w i = go (UnorderedMap.find id w.mgr.bk_map)
    where
      go :
          (o : Ptr)
          → Post
              (λ _ w'. Inv w')
              ((elim o as (λ _. M S E (Unit {0})) [ none ↦ pure tt | some p ↦ v.on_ctrl p m ]) w)
      go none = i
      go (some p) = r.on_ctrl p m w i

  pub process_data-Inv : (n : ℕ) (m : Message) (p : ℕ) → Keeps Inv (process_data n v m p)
  unfolding process_data
  process_data-Inv zero m p w i = tt
  process_data-Inv (suc n) m p w i = Post-deref p _ w _ λ b live. elim (Option-cases b.sink) [
    | inl unbound ↦ rw unbound i
    | inr (q, bound) ↦ rw bound (
        Keeps-bind Inv (v.on_data q m) _ (r.on_data q m)
          (λ forward w' i'. elim (Bool-cases forward) [
            | inl go_on ↦ rw go_on (process_data-Inv n m q w' i')
            | inr stop ↦ rw stop i'
          ])
          w i)
  ]
