-- ===== src/Dispatch/Invariant.antt =====
-- Every method of every block keeps the invariant of the engine, whatever blocks and system do.
use c3qo.Base.{
  ℕ, zero, suc, ◌≡◌, refl, true, false, Option, none, some, arith, ltb, ◌==◌, Bool-cases, inl, inr,
  int_eq, string_eq,
}
use c3qo.World.{FileDesc, Timer, Block, World, Vtable, Message, alloc, free, update}
use c3qo.World.Keeps.{Post, Keeps, Keeps-bind, Post-deref}
use c3qo.World.{deref, dangling}
use c3qo.World.Keeps.{bind-fault, deref-dead}
use c3qo.Flow.Dangling.{NeedsBlock}
use c3qo.Classes.{Class, plain, hello, hook_zmq, trans_pb, ncli, hello_at}
use c3qo.Hello.{bump_count, hello_data, hello_ctrl, int_max}
use c3qo.Flow.{new_block}
use c3qo.Dispatch.{
  Platform, same_class, construct, destruct, start_of, stop_of, on_timer_of, on_fd_of, data_of,
  ctrl_of, methods, exhausted, vtable,
}
use c3qo.HookZmq.Invariant.{hook_data-Inv, hook_on_fd-Inv, hook_start-Inv, hook_stop-Inv}
use c3qo.Ncli.Invariant.{ncli_start-Inv, ncli_stop-Inv, ncli_data-Inv, ncli_on_timer-Inv}
use c3qo.TransPb.Invariant.{trans_data-Inv}
use c3qo.Invariant.{Inv, Made, Respects}
use c3qo.Invariant.Rules.{Keeps-pure, Keeps-deref, Keeps-set_self, Keeps-hello_at}

beq_self : (n : ℕ) → (n == n) ≡ true
beq_self n = ground arith

module _ {E : Type 0} where
  bump_count-Inv : (p : ℕ) → Keeps {S = Class} {E = E} Inv (bump_count p)
  unfolding bump_count
  bump_count-Inv p = Keeps-bind Inv (hello_at p) _ (Keeps-hello_at p) λ h w i.
      elim (Bool-cases (ltb h.count int_max)) [
        | inl fits ↦ rw fits (Keeps-set_self p _ w i)
        | inr over ↦ rw over tt
      ]

  construct-Inv :
      (c : Option Class) (w : World Class E)
      → Inv w
      → Post (λ made w'. Made made w' × Inv w') (construct c w)
  unfolding construct alloc
  construct-Inv none w i = (tt, i)
  construct-Inv (some s) w i = (
    (
      new_block s,
      rw (beq_self w.heap_next),
      λ id found.
          let (b, live, _) = i.registered id w.heap_next found in
          ground (arith, i.unused w.heap_next (omega arith)),
    ),
    record {
      registered = λ id q found.
          let (b, live, is) = i.registered id q found in
          (b, ground (arith, i.unused w.heap_next (omega arith)), is);
      unused = λ q le. ground (arith, i.unused q (omega arith));
      timers = i.timers;
      table = i.table;
    },
  )

  destruct-frees :
      (c : Option Class) (p : ℕ) (w : World Class E)
      → Post (λ _ w'. w' ≡ record w { heap = update w.heap p none }) (destruct c p w)
  unfolding destruct free
  destruct-frees none p w = tt
  destruct-frees (some s) p w = Post-deref p _ w _ λ b live.
      elim (Bool-cases (same_class s b.self)) [
        | inl same ↦ rw same (freed b live)
        | inr other ↦ rw other tt
      ]
    where
      freed :
          (b : Block Class)
          → w.heap p ≡ some b
          → Post (λ _ w'. w' ≡ record w { heap = update w.heap p none }) (free p w)
      freed b live = rw (live, free) refl

  module _ (n : ℕ) (pf : Platform E) (v : Vtable Class E) (r : Respects v) where
    start_of-Inv : (p : ℕ) (c : Class) → Keeps Inv (start_of n pf v p c)
    unfolding start_of
    start_of-Inv p (hook_zmq h) = hook_start-Inv pf.sys p
    start_of-Inv p (ncli c) = ncli_start-Inv n pf.sys v r pf.pack p
    start_of-Inv p _ = Keeps-pure tt

    stop_of-Inv : (p : ℕ) (c : Class) → Keeps Inv (stop_of pf.sys p c)
    unfolding stop_of
    stop_of-Inv p (hook_zmq h) = hook_stop-Inv pf.sys p
    stop_of-Inv p (ncli c) = ncli_stop-Inv p
    stop_of-Inv p _ = Keeps-pure tt

    on_timer_of-Inv : (p : ℕ) (t : Timer) (c : Class) → Keeps {E = E} Inv (on_timer_of p t c)
    unfolding on_timer_of
    on_timer_of-Inv p t (ncli c) = ncli_on_timer-Inv p t
    on_timer_of-Inv p t _ = Keeps-pure tt

    on_fd_of-Inv : (p : ℕ) (d : FileDesc) (c : Class) → Keeps Inv (on_fd_of n pf.sys v p d c)
    unfolding on_fd_of
    on_fd_of-Inv p d (hook_zmq h) = hook_on_fd-Inv n pf.sys v r p d
    on_fd_of-Inv p d _ = Keeps-pure tt

    data_of-Inv : (p : ℕ) (m : Message) (c : Class) → Keeps Inv (data_of n pf v p m c)
    unfolding data_of hello_data
    data_of-Inv p m plain = Keeps-pure false
    data_of-Inv p m (hello h) =
        Keeps-bind Inv (bump_count p) _ (bump_count-Inv p) λ _. Keeps-pure true
    data_of-Inv p m (hook_zmq h) = hook_data-Inv pf.sys p m
    data_of-Inv p m trans_pb = trans_data-Inv n v r pf.unpack p m
    data_of-Inv p m (ncli c) = ncli_data-Inv p m

    ctrl_of-Inv : (p : ℕ) (m : Message) (c : Class) → Keeps {E = E} Inv (ctrl_of p m c)
    unfolding ctrl_of hello_ctrl
    ctrl_of-Inv p m (hello h) = bump_count-Inv p
    ctrl_of-Inv p m _ = Keeps-pure tt

    methods-Respects : Respects (methods n pf v)
    unfolding methods
    methods-Respects = record {
      constructor = λ f w i. construct-Inv _ w i;
      destructor = λ f p w i. destruct-frees _ p w;
      bind = λ p port q. Keeps-deref p _ (λ _. Keeps-pure tt);
      start = λ p. Keeps-deref p _ (λ b. start_of-Inv p b.self);
      stop = λ p. Keeps-deref p _ (λ b. stop_of-Inv p b.self);
      on_timer = λ p t. Keeps-deref p _ (λ b. on_timer_of-Inv p t b.self);
      on_fd = λ p d. Keeps-deref p _ (λ b. on_fd_of-Inv p d b.self);
      on_data = λ p m. Keeps-deref p _ (λ b. data_of-Inv p m b.self);
      on_ctrl = λ p m. Keeps-deref p _ (λ b. ctrl_of-Inv p m b.self);
    }

  exhausted-Respects : Respects {E = E} exhausted
  exhausted-Respects = record {
    constructor = λ f w i. tt;
    destructor = λ f p w i. tt;
    bind = λ p port q w i. tt;
    start = λ p w i. tt;
    stop = λ p w i. tt;
    on_timer = λ p t w i. tt;
    on_fd = λ p d w i. tt;
    on_data = λ p m w i. tt;
    on_ctrl = λ p m w i. tt;
  }

  -- At every depth, each virtual method of the repository's blocks keeps the invariant, whatever
  -- blocks there are and whatever the system and the messages are.
  pub vtable-Respects : (n : ℕ) (pf : Platform E) → Respects (vtable n pf)
  unfolding vtable
  vtable-Respects zero pf = exhausted-Respects
  vtable-Respects (suc n) pf = methods-Respects n pf (vtable n pf) (vtable-Respects n pf)

  -- No method of the repository's blocks runs on a freed block.
  pub vtable-NeedsBlock : (n : ℕ) (pf : Platform E) → NeedsBlock (vtable (suc n) pf)
  unfolding vtable methods
  vtable-NeedsBlock n pf = record {
    dies = λ q msg w dead. bind-fault (deref q) _ w dangling (deref-dead q w dead);
    timer_dies = λ q t w dead. bind-fault (deref q) _ w dangling (deref-dead q w dead);
  }
