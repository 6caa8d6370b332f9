-- ===== src/Program/Invariant.antt =====
-- The program keeps the invariant of the engine from its start, through every round of its loop.
use c3qo.Base.{ℕ, zero, suc, refl, ◌||◌, String, ℤ, pos, Bool-cases, inl, inr}
use mathlib.Core.Option.{none-ne-some}
use c3qo.UnorderedMap
use c3qo.World.Keeps.{Post, Keeps, Keeps-bind}
use c3qo.Ncli.{text_at}
use c3qo.Ncli.Invariant.{text_at-Inv}
use c3qo.Classes.{Class, CharPtr, hook_at, set_self}
use c3qo.Timer.{timer_check_exp}
use c3qo.Poll.{fd_poll}
use c3qo.Blocks.{
  block_get, block_add, block_start, block_bind, block_factory_register, manager_start,
}
use c3qo.Blocks.Invariant.{block_add-Inv, block_start-Inv, block_bind-Inv}
use c3qo.Dispatch.{Platform, vtable}
use c3qo.Dispatch.Invariant.{vtable-Respects}
use c3qo.Invariant.{Inv}
use c3qo.Invariant.Calls.{not_null-Keeps, fd_poll-Inv, timer_check_exp-Inv}
use c3qo.Invariant.Rules.{Keeps-pure, Keeps-hook_at, Keeps-set_self}
use c3qo.Program.{
  new_world, monitor, transcoder, register_factories, add_monitor, add_transcoder, set_up,
  main_loop, main,
}

pub new_world-Inv : {S E : Type 0} (e : E) → Inv {S = S} (new_world e)
unfolding UnorderedMap.find
new_world-Inv e = record {
  registered = λ id p found. absurd (none-ne-some p found);
  unused = λ p le. refl;
  timers = (tt, tt);
  table = record { aligned = tt; distinct = tt; usable = tt };
}

module _ {E : Type 0} where
  -- A change of the manager's flag or of the factories.
  pub block_factory_register-Inv :
      (type_name : String) (f : ℕ)
      → Keeps {S = Class} {E = E} Inv (block_factory_register type_name f)
  unfolding block_factory_register
  block_factory_register-Inv type_name f w i = record {
    registered = i.registered;
    unused = i.unused;
    timers = i.timers;
    table = i.table;
  }

  manager_start-Inv : Keeps {S = Class} {E = E} Inv manager_start
  unfolding manager_start
  manager_start-Inv w i = record {
    registered = i.registered;
    unused = i.unused;
    timers = i.timers;
    table = i.table;
  }

  pub block_get-Inv : (id : ℤ) → Keeps {S = Class} {E = E} Inv (block_get id)
  unfolding block_get
  block_get-Inv id w i = i

  module _ (n : ℕ) (pf : Platform E) where
    register_factories-Inv : Keeps {S = Class} {E = E} Inv register_factories
    unfolding register_factories
    register_factories-Inv =
        Keeps-bind Inv (block_factory_register "hello" _) _ (block_factory_register-Inv "hello" _)
          λ _.
            Keeps-bind Inv (block_factory_register "trans_pb" _) _
              (block_factory_register-Inv "trans_pb" _) λ _. block_factory_register-Inv "hook_zmq" _

    add_monitor-Inv : (identity : CharPtr) → Keeps Inv (add_monitor n pf identity)
    unfolding add_monitor
    add_monitor-Inv identity =
        let v = vtable n pf in
        let r = vtable-Respects n pf in
        Keeps-bind Inv (block_add v monitor "hook_zmq") _ (block_add-Inv v r monitor "hook_zmq")
          λ _. Keeps-bind Inv (block_get monitor) _ (block_get-Inv monitor) λ found.
            Keeps-bind Inv _ _ (not_null-Keeps Inv found) λ p.
              Keeps-bind Inv (hook_at p) _ (Keeps-hook_at p) λ h.
                Keeps-bind Inv (text_at identity) _ (text_at-Inv identity) λ name.
                  Keeps-bind Inv (set_self p _) _ (Keeps-set_self p _) λ _.
                    Keeps-bind Inv (block_start v monitor) _ (block_start-Inv v r monitor)
                      λ _. Keeps-pure tt

    add_transcoder-Inv : Keeps Inv (add_transcoder n pf)
    unfolding add_transcoder
    add_transcoder-Inv =
        let v = vtable n pf in
        let r = vtable-Respects n pf in
        Keeps-bind Inv (block_add v transcoder "trans_pb") _
          (block_add-Inv v r transcoder "trans_pb")
          λ _. Keeps-bind Inv (block_start v transcoder) _ (block_start-Inv v r transcoder) λ _.
            Keeps-bind Inv (block_bind v monitor (pos 0) transcoder) _
              (block_bind-Inv v r monitor (pos 0) transcoder)
              λ _.
                Keeps-bind Inv (block_bind v transcoder (pos 0) monitor) _
                  (block_bind-Inv v r transcoder (pos 0) monitor) λ _. Keeps-pure tt

    set_up-Inv : (identity : CharPtr) → Keeps Inv (set_up n pf identity)
    unfolding set_up
    set_up-Inv identity = Keeps-bind Inv register_factories _ register_factories-Inv λ _.
        Keeps-bind Inv (add_monitor n pf identity) _ (add_monitor-Inv identity)
          λ _. Keeps-bind Inv (add_transcoder n pf) _ add_transcoder-Inv λ _. manager_start-Inv

    main_loop-Inv : (rounds : ℕ) → Keeps Inv (main_loop rounds n pf)
    unfolding main_loop
    main_loop-Inv zero w i = tt
    main_loop-Inv (suc rounds) w i =
        let v = vtable n pf in
        let r = vtable-Respects n pf in
        elim (Bool-cases (pf.end_signal w.env || w.mgr.is_term)) [
          | inl over ↦ rw (over, main_loop) i
          | inr running ↦
              rw (running, main_loop)
                (Keeps-bind Inv (fd_poll pf.sys v) _ (fd_poll-Inv v r pf.sys)
                  (λ _.
                    Keeps-bind Inv (timer_check_exp n pf.sys v) _ (timer_check_exp-Inv v r n pf.sys)
                      λ _. main_loop-Inv rounds)
                  w i)
        ]

    -- When the program ends, after any number of rounds on any system, every identifier leads to
    -- the live block that has it, the timers are sorted with one to an identifier, and the two
    -- vectors of descriptors are aligned with one entry to a key.
    pub main-Inv :
        (rounds : ℕ) (identity : CharPtr) (e : E)
        → Post (λ _ w. Inv w) (main rounds n pf identity (new_world e))
    unfolding main
    main-Inv rounds identity e =
        Keeps-bind Inv (set_up n pf identity) _ (set_up-Inv identity) (λ _. main_loop-Inv rounds)
          (new_world e) (new_world-Inv e)
