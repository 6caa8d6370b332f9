-- ===== src/Program/Leaving.antt =====
-- engine/src/manager.cpp, `~manager`, to which the end of `main` in app/src/c3qo.cpp comes.
use c3qo.Base.{ℕ, ◌<◌, ◌≡◌, refl, [], length, int_eq, string_eq}
use c3qo.World.{World, Vtable, ok}
use c3qo.World.Keeps.{bind-ok}
use c3qo.Timer.{timer_clear}
use c3qo.Blocks.{block_clear, block_factory_clear}
use c3qo.Blocks.Clear.{AllTyped, Calm, block_clear-empties}
use c3qo.Blocks.Typed.{Frees}
use c3qo.Invariant.{Inv}
use c3qo.Program.{manager_destructor}

module _ {S E : Type 0} where
  -- What the destructor does first.
  abbrev unset_timers : World S E → World S E
  unset_timers w = record w { mgr = record w.mgr { tm_list = [] } }

  unset-Inv : (w : World S E) → Inv w → Inv (unset_timers w)
  unset-Inv w i = record {
    registered = i.registered;
    unused = i.unused;
    timers = (tt, tt);
    table = record {
      aligned = i.table.aligned;
      distinct = i.table.distinct;
      usable = i.table.usable;
    };
  }

  -- Where the invariant holds, every block is one of a type that a factory is registered for, the
  -- destructors free the blocks of their factory and do no more, and the own `stop_` of each block
  -- returns, keeps all this and the map of the blocks, and leaves stopped blocks stopped: given one
  -- round more than there are blocks, the manager's destructor returns, and leaves neither a block
  -- nor a factory.
  pub manager_destructor-empties :
      (Fits : ℕ → S → Type 0) (v : Vtable S E) (n : ℕ) (w : World S E)
      → ((q : ℕ) → Calm Fits q (v.stop q))
      → Frees Fits v
      → Inv w
      → AllTyped Fits w
      → length w.mgr.bk_map < n
      → (w' : World S E) × (manager_destructor n v w ≡ ok (tt, w'))
        × (w'.mgr.bk_map ≡ [])
        × (w'.mgr.bk_factory ≡ [])
  unfolding manager_destructor timer_clear block_factory_clear
  manager_destructor-empties Fits v n w calm frees i typed enough =
      let w1 = unset_timers w in
      let (w2, ran, empty) =
        block_clear-empties Fits v calm frees n w1 (unset-Inv w i) typed enough in
      (_, bind-ok (block_clear n v) _ w1 tt w2 ran, empty, refl)
