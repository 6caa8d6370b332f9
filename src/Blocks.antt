-- ===== src/Blocks.antt =====
-- engine/src/manager_bk.cpp and engine/src/manager.cpp: the blocks of the manager, by identifier,
-- and the factories, by type. Log lines are left out, also those that read a block.
pub mod Status
pub mod Runs
pub mod Automaton
pub mod Adding
pub mod Binding
pub mod Clear
pub mod Stuck
pub mod Typed
pub mod Writes
pub mod Invariant
use c3qo.Base.{
  ℕ, zero, suc, Bool, true, false, none, some, List, [], ◌∷◌, String, ℤ, Ptr, int_eq, string_eq,
}
use c3qo.UnorderedMap
use c3qo.World.{
  Block, Vtable, M, ok, fault, out_of_fuel, pure, gets, modify_mgr, or_false, false_unless_null,
  deref, modify_block, ◌>>=◌, ◌>>◌,
}

module _ {S E : Type 0} where
  unfoldable pub block_get : ℤ → M S E Ptr
  block_get id = gets (λ w. UnorderedMap.find id w.mgr.bk_map)

  unfoldable pub find_factory : String → M S E Ptr
  find_factory type_name = gets (λ w. UnorderedMap.find type_name w.mgr.bk_factory)

  -- The block's fields are set and it is entered under its identifier.
  unfoldable pub enter_block : ℤ → String → ℕ → M S E Bool
  enter_block id type_name p = do
    modify_block p (λ b. record b { id = id; type_name = type_name; is_started = false })
    modify_mgr (λ m. record m { bk_map = UnorderedMap.insert id p m.bk_map })
    pure true

  unfoldable pub build_block : Vtable S E → ℤ → String → ℕ → M S E Bool
  build_block v id type_name factory = do
    bk ← v.constructor factory
    or_false bk (enter_block id type_name)

  unfoldable pub block_add : Vtable S E → ℤ → String → M S E Bool
  unfolding block_get find_factory
  block_add v id type_name = do
    bk ← block_get id
    false_unless_null bk
        (do factory ← find_factory type_name; or_false factory (build_block v id type_name))

  unfoldable pub start_block : Vtable S E → ℕ → M S E Bool
  start_block v p = do
    b ← deref p
    elim b.is_started [
      | true ↦ pure true
      | false ↦ do modify_block p (λ c. record c { is_started = true }); v.start p; pure true
    ]

  unfoldable pub block_start : Vtable S E → ℤ → M S E Bool
  unfolding block_get
  block_start v id = do bk ← block_get id; or_false bk (start_block v)

  unfoldable pub stop_block : Vtable S E → ℕ → M S E Bool
  stop_block v p = do
    b ← deref p
    elim b.is_started [
      | false ↦ pure true
      | true ↦ do modify_block p (λ c. record c { is_started = false }); v.stop p; pure true
    ]

  unfoldable pub block_stop : Vtable S E → ℤ → M S E Bool
  unfolding block_get
  block_stop v id = do bk ← block_get id; or_false bk (stop_block v)

  -- The destructor runs before the block is taken out of the map.
  unfoldable pub destroy_block : Vtable S E → ℤ → ℕ → ℕ → M S E Bool
  destroy_block v id p factory = do
    v.destructor factory p
    modify_mgr (λ m. record m { bk_map = UnorderedMap.erase id m.bk_map })
    pure true

  unfoldable pub delete_block : Vtable S E → ℤ → ℕ → M S E Bool
  unfolding find_factory
  delete_block v id p = do
    b ← deref p
    elim b.is_started [
      | true ↦ pure false
      | false ↦ do factory ← find_factory b.type_name; or_false factory (destroy_block v id p)
    ]

  unfoldable pub block_del : Vtable S E → ℤ → M S E Bool
  unfolding block_get
  block_del v id = do bk ← block_get id; or_false bk (delete_block v id)

  unfoldable pub bind_block : Vtable S E → ℕ → ℤ → ℕ → M S E Bool
  bind_block v src port dst = do
    modify_block src (λ b. record b { sink = some dst })
    v.bind src port dst
    pure true

  unfoldable pub block_bind : Vtable S E → ℤ → ℤ → ℤ → M S E Bool
  unfolding block_get
  block_bind v bk_id_src port bk_id_dst = do
    src ← block_get bk_id_src
    dst ← block_get bk_id_dst
    or_false src (λ s. or_false dst (bind_block v s port))

  -- The loop of `block_clear`, a round for each unit of fuel.
  unfoldable pub block_clear : ℕ → Vtable S E → M S E (Unit {0})
  block_clear zero v w = fault out_of_fuel
  block_clear (suc n) v w = elim w.mgr.bk_map [
    | [] ↦ ok (tt, w)
    | entry ∷ rest ↦
        (do stopped ← block_stop v entry.0; deleted ← block_del v entry.0; block_clear n v) w
  ]

  unfoldable pub block_factory_register : String → ℕ → M S E (Unit {0})
  block_factory_register type_name factory =
      modify_mgr (λ m. record m { bk_factory = UnorderedMap.insert type_name factory m.bk_factory })

  unfoldable pub block_factory_unregister : String → M S E (Unit {0})
  block_factory_unregister type_name =
      modify_mgr (λ m. record m { bk_factory = UnorderedMap.erase type_name m.bk_factory })

  unfoldable pub block_factory_clear : M S E (Unit {0})
  block_factory_clear = modify_mgr (λ m. record m { bk_factory = [] })

  -- `manager::start_` and `manager::stop_`
  unfoldable pub manager_start : M S E (Unit {0})
  manager_start = modify_mgr (λ m. record m { is_term = false })

  unfoldable pub manager_stop : M S E (Unit {0})
  manager_stop = modify_mgr (λ m. record m { is_term = true })
