-- ===== src/TransPb/Outcomes.antt =====
-- block/trans_pb, `proto_command_parse`: every series of commands has a run.
use mathlib.Core.Option.{none-ne-some}
use c3qo.Base.{
  ℕ, ◌≡◌, refl, sym, ap, ◌∙◌, subst, Bool, true, false, none, some, List, [], ◌∷◌, String, ℤ,
  int_eq, string_eq, Bool-cases, Option-cases, inl, inr, arith,
}
use c3qo.UnorderedMap
use c3qo.Command.{Command, add, start, stop, del, bind, hook_zmq, term, not_set}
use c3qo.World.{Block, World, Vtable, ok, update}
use c3qo.World.Keeps.{bind-fault}
use c3qo.Classes.{Class, HookZmq}
use c3qo.Blocks.{block_stop}
use c3qo.Blocks.Status.{
  status, Quiet, switched, switched-live, known-cases, is_known, after_stop, status-missing,
}
use c3qo.Blocks.Automaton.{block_stop-on, block_stop-Moves}
use c3qo.Blocks.Typed.{IsTyped-write, write-HasTypes, block_stop-HasTypes}
use c3qo.Blocks.Writes.{Inv-write}
use c3qo.Blocks.Invariant.{block_stop-Inv}
use c3qo.TransPb.Table.{Table, answer, after}
use c3qo.TransPb.Session.{IsNoHook, status-rewrite, Carries, Shows, moved}
use c3qo.TransPb.Series.{
  Runs, done, next, wrong_class, never_written, run_add, run_start, run_del, run_bind, run_term,
}
use c3qo.TransPb.Commands.{Configures, run_command-hook_zmq}
use c3qo.TransPb.{run_command}

module _ {E : Type 0} (Fits : ℕ → Class → Type 0) (types : List (String × ℕ)) (v : Vtable Class E)
    (s : Carries Fits types v) where
  -- A quiet `stop_` of the block that is there.
  quiet_at :
      (id : ℤ) (p q : ℕ) (b c : Block Class) (w : World Class E)
      → UnorderedMap.find id w.mgr.bk_map ≡ some p
      → w.heap p ≡ some b
      → UnorderedMap.find id w.mgr.bk_map ≡ some q
      → w.heap q ≡ some c
      → (q ≡ p) × (c ≡ b)
  quiet_at id p q b c w found live at live' =
      let same : q ≡ p = ap (λ o. elim o [ none ↦ q | some z ↦ z ]) (sym at ∙ found) in
      (same, ap (λ o. elim o [ none ↦ c | some z ↦ z ]) (sym live' ∙ ap w.heap same ∙ live))

  module _ (l : List (Command String))
      (further : (w : World Class E) (m : Table)
        → Shows Fits types w m
        → Runs Fits types v w m l) where
    stopped :
        (id : ℤ) (w : World Class E) (m : Table)
        → Shows Fits types w m
        → ((q : ℕ) (c : Block Class)
            → UnorderedMap.find id w.mgr.bk_map ≡ some q
            → w.heap q ≡ some c
            → c.is_started ≡ true
            → Quiet (v.stop q) (switched false q c w))
        → Runs Fits types v w m (stop id ∷ l)
    unfolding run_command answer after
    stopped id w m h quiet =
        let (w1, e, h1) =
          moved Fits types v id (block_stop v id) w m is_known after_stop h
            (block_stop-Inv v s.respects id) (block_stop-HasTypes Fits types v s.stop_types id)
            (block_stop-Moves v id w h.inv quiet) in
        next (stop id) h e (λ p b at live on. block_stop-on v id p b w at live on) (further w1 _ h1)

    run_stop :
        (id : ℤ) (w : World Class E) (m : Table)
        → Shows Fits types w m
        → Runs Fits types v w m (stop id ∷ l)
    unfolding run_command
    run_stop id w m h = elim (Option-cases (UnorderedMap.find id w.mgr.bk_map)) [
      | inl missing ↦
          stopped id w m h (λ q c at live on. absurd (none-ne-some q (sym missing ∙ at)))
      | inr (p, found) ↦
          let (b, live, is) = h.inv.registered id p found in
          elim (Bool-cases b.is_started) [
            | inr off ↦ stopped id w m h (λ q c at live' on.
                let (same, block) = quiet_at id p q b c w found live at live' in
                absurd (ground (arith, on, off, ap Block.is_started block)))
            | inl on ↦
                elim (s.stops p _ _ (Inv-write w p b _ h.inv live refl)
                  (write-HasTypes Fits types v w p b _ h.has_types live refl refl)
                  (switched-live false p b w)) [
                    | inl quiet ↦ stopped id w m h (λ q c at live' on'.
                        let (same, block) = quiet_at id p q b c w found live at live' in
                        subst (λ r. Quiet (v.stop r) (switched false r c w)) (sym same)
                          (subst (λ d. Quiet (v.stop p) (switched false p d w)) (sym block) quiet))
                    | inr (unwritten, undefined) ↦ never_written id p b h found live on unwritten (
                        block_stop-on v id p b w found live on
                        ∙ bind-fault (v.stop p) _ (switched false p b w) _ undefined)
                  ]
          ]
    ]

    module _ (id : ℤ) (client : Bool) (socket_type : ℤ) (name addr : String) (w : World Class E)
        (m : Table) (h : Shows Fits types w m) where
      configured :
          (p : ℕ) (b : Block Class) (k : Class)
          → UnorderedMap.find id w.mgr.bk_map ≡ some p
          → w.heap p ≡ some b
          → b.self ≡ k
          → Configures v id client socket_type name addr p b w k
          → Runs Fits types v w m (hook_zmq id client socket_type name addr ∷ l)
      unfolding answer after
      configured p b (Class.hook_zmq g) found live is run =
          let g1 : HookZmq = record g {
            client = client;
            socket_type = socket_type;
            name = name;
            addr = addr;
          } in
          let c : Block Class = record b { self = Class.hook_zmq g1 } in
          let w1 : World Class E = record w { heap = update w.heap p (some c) } in
          let (f, listed, fits) = h.has_types.typed p b live in
          let h1 : Shows Fits types w1 m = record {
            inv = Inv-write w p b c h.inv live refl;
            has_types = record {
              factories = h.has_types.factories;
              typed =
                  IsTyped-write Fits types w.heap p c h.has_types.typed
                    (f, listed, s.writes f g g1 (subst (Fits f) is fits));
            };
            shows = λ j. status-rewrite p b c w.mgr w.env w j live refl refl ∙ h.shows j;
          } in
          let known : is_known (m id) ≡ true = ap is_known (sym (h.shows id)) ∙ is_there p found in
          next (hook_zmq id client socket_type name addr) h (run ∙ ap (λ x. ok (x, w1)) (sym known))
            (inr (p, b, g, found, live, is, refl)) (further w1 m h1)
        where
          is_there :
              (p : ℕ) → UnorderedMap.find id w.mgr.bk_map ≡ some p → is_known (status id w) ≡ true
          is_there p found = elim (known-cases w id h.inv) [
            | inl (missing, _) ↦ absurd (none-ne-some p (sym missing ∙ found))
            | inr (q, _, known) ↦ known
          ]
      configured p b Class.plain found live is run =
          wrong_class id client socket_type name addr p b h found live (subst IsNoHook (sym is) tt)
            run
      configured p b (Class.hello g) found live is run =
          wrong_class id client socket_type name addr p b h found live (subst IsNoHook (sym is) tt)
            run
      configured p b Class.trans_pb found live is run =
          wrong_class id client socket_type name addr p b h found live (subst IsNoHook (sym is) tt)
            run
      configured p b (Class.ncli g) found live is run =
          wrong_class id client socket_type name addr p b h found live (subst IsNoHook (sym is) tt)
            run

      run_hook : Runs Fits types v w m (hook_zmq id client socket_type name addr ∷ l)
      unfolding answer after
      run_hook = elim (run_command-hook_zmq v id client socket_type name addr w h.inv) [
        | inl (missing, run) ↦
            let unknown : is_known (m id) ≡ false =
              ap is_known (sym (h.shows id) ∙ status-missing w id missing) in
            next (hook_zmq id client socket_type name addr) h
              (run ∙ ap (λ x. ok (x, w)) (sym unknown)) (inl (missing, refl)) (further w m h)
        | inr (p, b, found, live, run) ↦ configured p b b.self found live refl run
      ]

    step :
        (c : Command String) (w : World Class E) (m : Table)
        → Shows Fits types w m
        → Runs Fits types v w m (c ∷ l)
    unfolding run_command answer after
    step (add id t) w m h = run_add Fits types v s l further id t w m h
    step (start id) w m h = run_start Fits types v s l further id w m h
    step (stop id) w m h = run_stop id w m h
    step (del id) w m h = run_del Fits types v s l further id w m h
    step (bind a port b) w m h = run_bind Fits types v s l further a port b w m h
    step (hook_zmq id client socket_type name addr) w m h =
        run_hook id client socket_type name addr w m h
    step (term b) w m h = run_term Fits types v s l further b w m h
    step not_set w m h = next not_set h refl refl (further w m h)

  -- With virtual methods and factories that do their part on the blocks of the registered types, and
  -- in a world that satisfies the invariant and shows a table of statuses, every series of commands
  -- has a run: each command is answered as the table says, has the effect of its kind (the block
  -- that is added or destroyed, the `start_` or `stop_` that is called, the sink, the fields of the
  -- hook, the end of the program), and leads to a world that shows the next table; the
  -- run goes through the whole series, or ends at a command for a hook on a block of another class,
  -- or at the stop of a started hook that has a handle that was never written.
  pub Runs-commands :
      (l : List (Command String)) (w : World Class E) (m : Table)
      → Shows Fits types w m
      → Runs Fits types v w m l
  Runs-commands [] w m h = done h
  Runs-commands (c ∷ l) w m h = step l (λ w1 m1 h1. Runs-commands l w1 m1 h1) c w m h
