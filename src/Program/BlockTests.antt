-- ===== src/Program/BlockTests.antt =====
-- Examples of the life of blocks and of the route of a message, with methods that do nothing.
use mathlib.Core.Option.{none-ne-some}
use c3qo.Base.{
  ◌≡◌, inl, inr, refl, sym, ap, ◌∙◌, true, none, some, [], ◌∷◌, ℤ, pos, ℕ, suc, arith, Bool-cases,
  Option, int_eq, string_eq, ◌==◌,
}
use c3qo.UnorderedMap
use c3qo.World.{Block, World, Vtable, deref, ok, fault, out_of_fuel, update, pure, ◌>>=◌}
use c3qo.World.Keeps.{bind-fault, deref-dead}
use c3qo.World.{dangling}
use c3qo.Flow.Dangling.{NeedsBlock, block_del-dangles}
use c3qo.World.Idle.{idle}
use c3qo.Classes.{Class, plain}
use c3qo.Invariant.{Inv}
use c3qo.Flow.{new_block, process_data}
use c3qo.Flow.Route.{stay, forwarded, process_data-Route}
use c3qo.Blocks.{block_start, block_del}
use c3qo.Blocks.Status.{status, Moves, is_known, is_stopped, after_start, after_del}
use c3qo.Blocks.Typed.{Typed}
use c3qo.Blocks.Writes.{Inv-write}
use c3qo.Blocks.Stuck.{block_clear-stuck}
use c3qo.Blocks.{block_clear}
use c3qo.Blocks.Automaton.{Calls, block_start-Starts, block_del-Moves}
use c3qo.Program.{new_manager}

abbrev block : ℤ → Option ℕ → Block Class
block id sink = record (new_block plain) { id = id; type_name = "plain"; sink = sink }

-- A world with one block, which the identifier 1 leads to.
abbrev pub one_block : World Class ℕ
one_block = record {
  mgr = record new_manager { bk_factory = ("plain", 7) ∷ []; bk_map = (pos 1, 0) ∷ [] };
  heap = update (λ _. none) 0 (some (block (pos 1) none));
  heap_next = 1;
  env = 0;
}

pub one_block-Inv : Inv one_block
unfolding UnorderedMap.find
one_block-Inv = record {
  registered = λ id p found. (block (pos 1) none, ground arith, ground arith);
  unused = λ p le. ground arith;
  timers = (tt, tt);
  table = record { aligned = tt; distinct = tt; usable = tt };
}

block_start-Starts_example :
    Calls idle (pos 1) (block_start idle (pos 1)) one_block
    × Moves
        (pos 1)
        (block_start idle (pos 1))
        one_block
        (is_known (status (pos 1) one_block))
        (after_start (status (pos 1) one_block))
block_start-Starts_example =
    block_start-Starts idle (pos 1) one_block one_block-Inv
      (λ q b live. (_, refl, Inv-write one_block q b _ one_block-Inv live refl, λ j. refl))

-- Any class fits any factory.
abbrev Any : ℕ → Class → Type 0
Any f s = Unit {0}

one_block-Typed :
    (p : ℕ) (b : Block Class) → one_block.heap p ≡ some b → Typed Any one_block.mgr.bk_factory b
unfolding UnorderedMap.find
one_block-Typed p b live = elim (Bool-cases (0 == p)) [
  | inl hit ↦
      let same : some (block (pos 1) none) ≡ some b = ground arith in
      (
        7,
        sym (
            ap (λ c. UnorderedMap.find (Block.type_name c) one_block.mgr.bk_factory)
              (ap (λ o. elim o [ none ↦ block (pos 1) none | some c ↦ c ]) same)),
        tt,
      )
  | inr miss ↦
      let dead : one_block.heap p ≡ none = rw miss in absurd (none-ne-some b (sym dead ∙ live))
]

block_del-Moves_example :
    Moves
      (pos 1)
      (block_del idle (pos 1))
      one_block
      (is_stopped (status (pos 1) one_block))
      (after_del (status (pos 1) one_block))
block_del-Moves_example =
    block_del-Moves idle (pos 1) one_block one_block-Inv
      (λ p b live. let (f, known, fits) = one_block-Typed p b live in (f, known, refl))

-- Two blocks, the second the sink of the first, and the sink of the second as given.
abbrev chain : Option ℕ → World Class ℕ
chain sink = record one_block {
  heap =
      update (update (λ _. none) 0 (some (block (pos 1) (some 1)))) 1 (some (block (pos 2) sink));
}

abbrev bound : World Class ℕ
bound = record (chain none) { mgr = record one_block.mgr { bk_map = (pos 2, 1) ∷ (pos 1, 0) ∷ [] } }

-- Methods that read their block.
abbrev reading : Vtable Class ℕ
reading = record idle {
  on_data = λ p m. do
    b ← deref p
    pure b.is_started;
  on_timer = λ p t. do
    b ← deref p
    pure tt;
}

reading-NeedsBlock : NeedsBlock reading
reading-NeedsBlock = record {
  dies = λ q msg w dead. bind-fault (deref q) _ w dangling (deref-dead q w dead);
  timer_dies = λ q t w dead. bind-fault (deref q) _ w dangling (deref-dead q w dead);
}

block_del-dangles_example :
    (w' : World Class ℕ) × (block_del reading (pos 2) bound ≡ ok (true, w'))
    × ((n : ℕ) → process_data (suc n) reading none 0 w' ≡ fault dangling)
unfolding UnorderedMap.find
block_del-dangles_example =
    block_del-dangles reading (pos 2) 0 1 7 none bound (block (pos 1) (some 1)) (block (pos 2) none)
      refl reading-NeedsBlock refl refl refl refl refl refl (omega arith)

-- Methods that hand every message on.
abbrev forwarding : Vtable Class ℕ
forwarding = record idle { on_data = λ p m. pure true }

process_data-Route_example : process_data 2 forwarding none 0 (chain none) ≡ ok (tt, chain none)
process_data-Route_example =
    process_data-Route forwarding none 2
      (forwarded (block (pos 1) (some 1)) 1 refl refl refl (stay (block (pos 2) none) refl refl))
      (omega arith)

-- The factory of the block is unregistered.
abbrev no_factory : World Class ℕ
no_factory = record one_block { mgr = record one_block.mgr { bk_factory = [] } }

block_clear-stuck_example : block_clear 7 idle no_factory ≡ fault out_of_fuel
unfolding UnorderedMap.find
block_clear-stuck_example =
    block_clear-stuck idle 7 (pos 1) 0 [] no_factory (block (pos 1) none) refl refl refl refl
