-- ===== src/Flow.antt =====
-- engine/src/block.cpp: a block's own methods, by its address.
pub mod Route
pub mod Dangling
use c3qo.Base.{ℕ, zero, suc, Bool, true, false, none, some, String, ℤ, Ptr}
use c3qo.World.{Block, Message, Vtable, M, fault, out_of_fuel, pure, deref, ◌>>=◌, ◌>>◌}
use c3qo.Blocks.{block_get}

-- `block::block`; the derived class gives its own part.
abbrev pub new_block : {S : Type 0} → S → Block S
new_block self = record {
  id = ℤ.pos 0;
  type_name = "";
  is_started = false;
  sink = none;
  self = self;
}

module _ {S E : Type 0} where
  unfoldable pub process_ctrl : Vtable S E → ℤ → Message → M S E (Unit {0})
  process_ctrl v bk_id notif = do
    bk ← block_get bk_id
    elim bk [ none ↦ pure tt | some p ↦ v.on_ctrl p notif ]

  -- The loop of `process_data_` from the block `current`, a hop for each unit of fuel.
  unfoldable pub process_data : ℕ → Vtable S E → Message → ℕ → M S E (Unit {0})
  process_data zero v msg current w = fault out_of_fuel
  process_data (suc n) v msg current w =
      (do
        b ← deref current
        elim b.sink [
          | none ↦ pure tt
          | some q ↦ do
            forward ← v.on_data q msg
            elim forward [ true ↦ process_data n v msg q | false ↦ pure tt ]
        ])
        w
