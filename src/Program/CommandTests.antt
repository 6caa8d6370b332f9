-- ===== src/Program/CommandTests.antt =====
-- Examples of the commands of a block trans_pb, on the repository's own blocks.
use mathlib.Core.Option.{none-ne-some}
use c3qo.Base.{
  Bool, if◌then◌else◌, Bool-cases, inl, ap, subst, sym, ◌==◌, inr, ◌∙◌, arith, ◌≡◌, ◌≢◌, ◌⊎◌, refl,
  true, false, none, some, List, [], ◌∷◌, ℤ, pos, negsuc, ℕ, int_eq, string_eq, String, codes,
}
use c3qo.UnorderedMap
use c3qo.Buffer.{whole}
use c3qo.Command.{Command, add, start, stop, del, bind, term}
use c3qo.World.{Block, World, ok, fault, dangling, update}
use c3qo.World.Idle.{idle}
use c3qo.Classes.{Class, trans_pb}
use c3qo.Invariant.{Inv}
use c3qo.Flow.{new_block}
use c3qo.Blocks.{block_add, block_bind}
use c3qo.Blocks.Status.{status, Moves}
use c3qo.Blocks.Adding.{is_added, after_add, block_add-Moves}
use c3qo.Blocks.Binding.{block_bind-sink, both_known, address, after_bind, sink}
use c3qo.TransPb.{run_command, trans_data}
use c3qo.TransPb.Session.{Carries, Shows}
use c3qo.TransPb.Series.{Runs}
use c3qo.TransPb.Outcomes.{Runs-commands}
use c3qo.World.Idle.{quiet_system}
use c3qo.HookZmq.Opening.{opens}
use c3qo.Dispatch.Carrying.{vtable-Carries}
use c3qo.Dispatch.Returning.{all_types, Starts}
use c3qo.Program.{register_factories}
use c3qo.Blocks.{block_factory_register}
use c3qo.TransPb.Commands.{Configures, run_command-hook_zmq, trans_data-del_self}
use c3qo.Dispatch.{vtable, built_by, same_class}
use c3qo.Dispatch.Serving.{IsOf, plain_types, IsPlain, vtable-Serves, vtable-Frees, vtable-Calm}
use c3qo.Program.{new_manager, new_world}
use c3qo.Blocks.Clear.{AllTyped}
use c3qo.Blocks.Typed.{Typed}
use c3qo.Program.Leaving.{manager_destructor-empties}
use c3qo.Program.{manager_destructor}
use c3qo.Program.Tests.{quiet_platform}
use c3qo.Program.BlockTests.{one_block, one_block-Inv}

-- A manager with the factories of the types hello and trans_pb.
abbrev empty : World Class ℕ
empty = record (new_world 0) { mgr = record new_manager { bk_factory = plain_types } }

empty-Inv : Inv empty
unfolding UnorderedMap.find
empty-Inv = record {
  registered = λ id p found. absurd (none-ne-some p found);
  unused = λ p le. refl;
  timers = (tt, tt);
  table = record { aligned = tt; distinct = tt; usable = tt };
}

-- The manager once `main` has registered its factories.
abbrev registered : World Class ℕ
registered = record (new_world 0) { mgr = record new_manager { bk_factory = all_types } }

register_factories_test : register_factories (new_world 0) ≡ ok (tt, registered)
unfolding register_factories block_factory_register UnorderedMap.find UnorderedMap.insert
register_factories_test = refl

registered-Shows : Shows (IsOf (pos 0)) all_types registered (λ j. status j registered)
unfolding UnorderedMap.find
registered-Shows = record {
  inv = record {
    registered = λ id p found. absurd (none-ne-some p found);
    unused = λ p le. refl;
    timers = (tt, tt);
    table = record { aligned = tt; distinct = tt; usable = tt };
  };
  has_types = record { factories = refl; typed = λ p b live. absurd (none-ne-some b live) };
  shows = λ j. refl;
}

quiet-Starts : Starts quiet_system
quiet-Starts h e = inl (1, 2, e, opens (pos 0) refl refl refl (reached h.client) refl)
  where
    reached :
        (client : Bool)
        → (if client
            then quiet_system.zmq_connect (some 2) h.addr e
            else quiet_system.zmq_bind (some 2) h.addr e)
          ≡ (pos 0, e)
    reached true = refl
    reached false = refl

vtable-Carries_example : Carries (IsOf (pos 0)) all_types (vtable 2 quiet_platform)
vtable-Carries_example = vtable-Carries 1 quiet_platform quiet-Starts

-- The blocks of the monitored program, set up by commands, and the monitor then taken down.
abbrev orders : List (Command String)
orders =
    add (negsuc 0) "hook_zmq"
    ∷ Command.hook_zmq (negsuc 0) true (pos 5) "program" "tcp://127.0.0.1:1664"
    ∷ start (negsuc 0)
    ∷ add (negsuc 1) "trans_pb"
    ∷ start (negsuc 1)
    ∷ bind (negsuc 0) (pos 0) (negsuc 1)
    ∷ bind (negsuc 1) (pos 0) (negsuc 0)
    ∷ del (negsuc 0)
    ∷ stop (negsuc 0)
    ∷ del (negsuc 0)
    ∷ term true
    ∷ []

Runs-commands_example :
    Runs
      (IsOf (pos 0))
      all_types
      (vtable 2 quiet_platform)
      registered
      (λ j. status j registered)
      orders
Runs-commands_example =
    Runs-commands (IsOf (pos 0)) all_types (vtable 2 quiet_platform)
      (vtable-Carries 1 quiet_platform quiet-Starts) orders registered (λ j. status j registered)
      registered-Shows

block_add-Moves_example :
    Moves
      (pos 3)
      (block_add (vtable 2 quiet_platform) (pos 3) "hello")
      empty
      (is_added (status (pos 3) empty) (UnorderedMap.find "hello" plain_types))
      (after_add (status (pos 3) empty) (UnorderedMap.find "hello" plain_types))
block_add-Moves_example =
    block_add-Moves (vtable 2 quiet_platform) (pos 3) "hello" empty empty-Inv
      (λ f known. ((vtable-Serves 1 quiet_platform).builds "hello" f known).0)

block_bind-sink_example :
    (w' : World Class ℕ) × (block_bind idle (pos 1) (pos 0) (pos 1) one_block
      ≡ ok (both_known (address (pos 1) one_block) (address (pos 1) one_block), w'))
    × (sink (pos 1) w'
        ≡ after_bind
            (address (pos 1) one_block)
            (address (pos 1) one_block)
            (sink (pos 1) one_block))
    × ((j : ℤ) → j ≢ pos 1 → sink j w' ≡ sink j one_block)
    × ((j : ℤ) → status j w' ≡ status j one_block)
block_bind-sink_example =
    block_bind-sink idle (pos 1) (pos 0) (pos 1) one_block one_block-Inv (λ p port q w b live. refl)

run_command-hook_zmq_example :
    ((UnorderedMap.find (pos 1) one_block.mgr.bk_map ≡ none)
      × (run_command
            (vtable 2 quiet_platform)
            (Command.hook_zmq (pos 1) true (pos 5) "client" "tcp://127.0.0.1:1664")
            one_block
          ≡ ok (false, one_block)))
    ⊎ ((p : ℕ) × (b : Block Class) × (UnorderedMap.find (pos 1) one_block.mgr.bk_map ≡ some p)
        × (one_block.heap p ≡ some b)
        × Configures
            (vtable 2 quiet_platform)
            (pos 1)
            true
            (pos 5)
            "client"
            "tcp://127.0.0.1:1664"
            p
            b
            one_block
            b.self)
run_command-hook_zmq_example =
    run_command-hook_zmq (vtable 2 quiet_platform) (pos 1) true (pos 5) "client"
      "tcp://127.0.0.1:1664" one_block one_block-Inv

-- A block trans_pb alone.
abbrev alone_block : Block Class
alone_block = record (new_block trans_pb) { id = pos 1; type_name = "trans_pb" }

abbrev alone : World Class ℕ
alone = record empty {
  mgr = record empty.mgr { bk_map = (pos 1, 0) ∷ [] };
  heap = update (λ _. none) 0 (some alone_block);
  heap_next = 1;
}

trans_data-del_self_example :
    trans_data 1
      (vtable 2 quiet_platform)
      (λ bytes. some (del (pos 1)))
      0
      (some (record { parts = whole (codes "PROTO.CMD") ∷ whole [] ∷ [] }))
      alone
    ≡ fault dangling
unfolding UnorderedMap.find built_by same_class
trans_data-del_self_example =
    trans_data-del_self 0 (vtable 2 quiet_platform) (λ bytes. some (del (pos 1))) 0 (pos 1) 2
      (whole []) alone alone_block
      (vtable-Frees 1 quiet_platform 2 0 alone alone_block refl (trans_pb, refl, refl)) refl refl
      refl refl refl

alone-Inv : Inv alone
unfolding UnorderedMap.find
alone-Inv = record {
  registered = λ id p found. (alone_block, ground arith, ground arith);
  unused = λ p le. ground arith;
  timers = (tt, tt);
  table = record { aligned = tt; distinct = tt; usable = tt };
}

alone-AllTyped : AllTyped (IsPlain (pos 0)) alone
unfolding UnorderedMap.find built_by same_class
alone-AllTyped p b live = elim (Bool-cases (0 == p)) [
  | inl hit ↦
      let same : some alone_block ≡ some b = sym (rw hit refl) ∙ live in
      subst (Typed (IsPlain (pos 0)) plain_types)
        (ap (λ o. elim o [ none ↦ alone_block | some c ↦ c ]) same)
        (2, refl, ((trans_pb, refl, refl), inr refl))
  | inr miss ↦ absurd (none-ne-some b (sym (rw miss refl) ∙ live))
]

manager_destructor-empties_example :
    (w' : World Class ℕ) × (manager_destructor 2 (vtable 2 quiet_platform) alone ≡ ok (tt, w'))
    × (w'.mgr.bk_map ≡ [])
    × (w'.mgr.bk_factory ≡ [])
manager_destructor-empties_example =
    manager_destructor-empties (IsPlain (pos 0)) (vtable 2 quiet_platform) 2 alone
      (vtable-Calm 1 quiet_platform)
      (λ f p w b live fits. vtable-Frees 1 quiet_platform f p w b live fits.0) alone-Inv
      alone-AllTyped (omega arith)
