-- ===== src/TransPb/Series.antt =====
-- block/trans_pb, `proto_command_parse`: a series of commands against a table of statuses.
use c3qo.Base.{
  ℕ, ◌≡◌, ◌≢◌, ◌⊎◌, refl, sym, ap, ◌∙◌, subst, Bool, true, false, none, some, List, [], ◌∷◌, String,
  ℤ, int_eq, string_eq,
}
use c3qo.UnorderedMap
use c3qo.Command.{Command, add, start, stop, del, bind, hook_zmq, term, not_set}
use c3qo.World.{Block, World, Vtable, ok, fault, bad_cast, uninitialised, update, pure, ◌>>◌}
use c3qo.World.Keeps.{Post}
use c3qo.Classes.{Class, HookZmq}
use c3qo.Blocks.{block_add, block_start, block_del, manager_stop, block_get, find_factory}
use c3qo.Blocks.Status.{
  status-same, status, switched, switched-live, Moves, is_known, is_stopped, after_start, after_del,
}
use c3qo.Blocks.Automaton.{Calls, block_start-Calls, block_start-Moves, block_del-Moves}
use c3qo.Blocks.Adding.{is_added, after_add, block_add-Moves, Builds, added, build_block-added}
use c3qo.Blocks.Runs.{Destroys, delete_block-off}
use c3qo.Blocks.Binding.{block_bind-sink, address, after_bind, sink}
use c3qo.Blocks.Typed.{
  HasTypes, write-HasTypes, block_start-HasTypes, block_del-HasTypes, block_add-HasTypes,
  block_bind-HasTypes,
}
use c3qo.Blocks.Writes.{Inv-write}
use c3qo.Blocks.Invariant.{block_add-Inv, block_start-Inv, block_del-Inv, block_bind-Inv}
use c3qo.Invariant.{Inv}
use c3qo.TransPb.Table.{Table, answer, after}
use c3qo.TransPb.Session.{
  IsUnwritten, IsNoHook, Carries, Shows, moved, factory-types, both_known-is_known,
}
use c3qo.TransPb.{run_command}

module _ {E : Type 0} (Fits : ℕ → Class → Type 0) (types : List (String × ℕ))
    (v : Vtable Class E) where
  -- What a command does beside moving statuses, from a world to the next: the block that is added,
  -- the own `start_` or `stop_` that is called, the block that is destroyed, the sinks, the fields of
  -- a hook, and the end of the program.
  abbrev pub Effect : Command String → World Class E → World Class E → Type 0
  Effect (add id t) w w1 =
      (f : ℕ) (b : Builds v f)
      → UnorderedMap.find id w.mgr.bk_map ≡ none
      → UnorderedMap.find t w.mgr.bk_factory ≡ some f
      → run_command v (add id t) w ≡ ok (true, added v id t w b)
  Effect (start id) w w1 = Calls v id (run_command v (start id)) w
  Effect (stop id) w w1 =
      (p : ℕ) (b : Block Class)
      → UnorderedMap.find id w.mgr.bk_map ≡ some p
      → w.heap p ≡ some b
      → b.is_started ≡ true
      → run_command v (stop id) w ≡ (do v.stop p; pure true) (switched false p b w)
  Effect (del id) w w1 =
      (p f : ℕ) (b : Block Class)
      → UnorderedMap.find id w.mgr.bk_map ≡ some p
      → w.heap p ≡ some b
      → b.is_started ≡ false
      → UnorderedMap.find b.type_name w.mgr.bk_factory ≡ some f
      → Destroys v f p w
      → run_command v (del id) w
        ≡ ok (
          true,
          record w {
            heap = update w.heap p none;
            mgr = record w.mgr { bk_map = UnorderedMap.erase id w.mgr.bk_map };
          },
        )
  Effect (bind a port b) w w1 =
      (sink a w1 ≡ after_bind (address a w) (address b w) (sink a w))
      × ((j : ℤ) → j ≢ a → sink j w1 ≡ sink j w)
  Effect (hook_zmq id client socket_type name addr) w w1 =
      ((UnorderedMap.find id w.mgr.bk_map ≡ none) × (w1 ≡ w))
      ⊎ ((p : ℕ) × (b : Block Class) × (h : HookZmq) × (UnorderedMap.find id w.mgr.bk_map ≡ some p)
          × (w.heap p ≡ some b)
          × (b.self ≡ Class.hook_zmq h)
          × (w1 ≡ record w {
            heap = update w.heap p (
                some (record b {
                  self = Class.hook_zmq (record h {
                    client = client;
                    socket_type = socket_type;
                    name = name;
                    addr = addr;
                  });
                }));
          }))
  Effect (term b) w w1 = w1 ≡ record w { mgr = record w.mgr { is_term = true } }
  Effect not_set w w1 = w1 ≡ w

  -- A run of a series of commands from a world and the table that it shows. Each is answered as the
  -- table says and leads to a world that shows the next table; a run ends early only in the two
  -- ways that are undefined: a hook's fields written to a block of another class, and the stop of a
  -- started hook that has a handle that was never written.
  pub data Runs : World Class E → Table → List (Command String) → Type 0 where
    done : {w : World Class E} {m : Table} → Shows Fits types w m → Runs w m []
    next :
        {w w1 : World Class E} {m : Table} {l : List (Command String)} (c : Command String)
        → Shows Fits types w m
        → run_command v c w ≡ ok (answer types c m, w1)
        → Effect c w w1
        → Runs w1 (after types c m) l
        → Runs w m (c ∷ l)
    wrong_class :
        {w : World Class E} {m : Table} {l : List (Command String)} (id : ℤ) (client : Bool)
        (socket_type : ℤ) (name addr : String) (p : ℕ) (b : Block Class)
        → Shows Fits types w m
        → UnorderedMap.find id w.mgr.bk_map ≡ some p
        → w.heap p ≡ some b
        → IsNoHook b.self
        → run_command v (hook_zmq id client socket_type name addr) w ≡ fault bad_cast
        → Runs w m (hook_zmq id client socket_type name addr ∷ l)
    never_written :
        {w : World Class E} {m : Table} {l : List (Command String)} (id : ℤ) (p : ℕ)
        (b : Block Class)
        → Shows Fits types w m
        → UnorderedMap.find id w.mgr.bk_map ≡ some p
        → w.heap p ≡ some b
        → b.is_started ≡ true
        → IsUnwritten b.self
        → run_command v (stop id) w ≡ fault uninitialised
        → Runs w m (stop id ∷ l)

  module _ (s : Carries Fits types v) (l : List (Command String))
      (further : (w : World Class E) (m : Table) → Shows Fits types w m → Runs w m l) where
    pub run_add :
        (id : ℤ) (t : String) (w : World Class E) (m : Table)
        → Shows Fits types w m
        → Runs w m (add id t ∷ l)
    unfolding run_command answer after block_add block_get find_factory
    run_add id t w m h =
        let same = factory-types Fits types v t w h.has_types in
        let (w1, e, h1) =
          moved Fits types v id (block_add v id t) w m (λ x. is_added x (UnorderedMap.find t types))
            (λ x. after_add x (UnorderedMap.find t types)) h (block_add-Inv v s.respects id t)
            (block_add-HasTypes Fits types v s.builds id t)
            (subst
              (λ f.
                Moves id (block_add v id t) w (is_added (status id w) f)
                  (after_add (status id w) f))
              same
              (block_add-Moves v id t w h.inv (λ f known. (s.builds t f (sym same ∙ known)).0))) in
        next (add id t) h e
          (λ f b missing known. rw (missing, known) (build_block-added v id t w f b))
          (further w1 _ h1)

    pub run_start :
        (id : ℤ) (w : World Class E) (m : Table) → Shows Fits types w m → Runs w m (start id ∷ l)
    unfolding run_command answer after
    run_start id w m h =
        let (w1, e, h1) =
          moved Fits types v id (block_start v id) w m is_known after_start h
            (block_start-Inv v s.respects id) (block_start-HasTypes Fits types v s.start_types id)
            (block_start-Moves v id w h.inv (λ q b live.
              s.starts q _ _ (Inv-write w q b _ h.inv live refl)
                (write-HasTypes Fits types v w q b _ h.has_types live refl refl)
                (switched-live true q b w))) in
        next (start id) h e (block_start-Calls v id w h.inv) (further w1 _ h1)

    pub run_del :
        (id : ℤ) (w : World Class E) (m : Table) → Shows Fits types w m → Runs w m (del id ∷ l)
    unfolding run_command answer after block_del block_get
    run_del id w m h =
        let (w1, e, h1) =
          moved Fits types v id (block_del v id) w m is_stopped after_del h
            (block_del-Inv v s.respects id) (block_del-HasTypes Fits types v s.frees id)
            (block_del-Moves v id w h.inv (λ p b live.
              let (f, known, fits) = h.has_types.typed p b live in
              (
                f,
                factory-types Fits types v b.type_name w h.has_types ∙ known,
                s.frees f p w b live fits,
              ))) in
        next (del id) h e
          (λ p f b found live off known frees.
            rw found (delete_block-off v id p f w b frees live off known))
          (further w1 _ h1)

    pub run_bind :
        (a port b : ℤ) (w : World Class E) (m : Table)
        → Shows Fits types w m
        → Runs w m (bind a port b ∷ l)
    unfolding run_command answer after
    run_bind a port b w m h =
        let (w1, e, bound, others, same) = block_bind-sink v a port b w h.inv s.binds in
        let h1 : Shows Fits types w1 m = record {
          inv = subst (Post (λ _ u. Inv u)) e (block_bind-Inv v s.respects a port b w h.inv);
          has_types =
              subst (Post (λ _ u. HasTypes Fits types u)) e
                (block_bind-HasTypes Fits types v s.binds a port b w h.has_types);
          shows = λ j. same j ∙ h.shows j;
        } in
        next (bind a port b) h
          (e ∙ ap (λ x. ok (x, w1)) (both_known-is_known Fits types v a b w m h)) (bound, others)
          (further w1 m h1)

    pub run_term :
        (b : Bool) (w : World Class E) (m : Table) → Shows Fits types w m → Runs w m (term b ∷ l)
    unfolding run_command answer after manager_stop
    run_term b w m h =
        let w1 : World Class E = record w { mgr = record w.mgr { is_term = true } } in
        let h1 : Shows Fits types w1 m = record {
          inv = record {
            registered = h.inv.registered;
            unused = h.inv.unused;
            timers = h.inv.timers;
            table = h.inv.table;
          };
          has_types = record { factories = h.has_types.factories; typed = h.has_types.typed };
          shows = λ j. status-same w w1 j refl (λ q at. refl) ∙ h.shows j;
        } in
        next (term b) h refl refl (further w1 m h1)
