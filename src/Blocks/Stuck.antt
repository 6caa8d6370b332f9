-- ===== src/Blocks/Stuck.antt =====
-- engine/src/manager_bk.cpp, `block_clear`: a block that it cannot remove.
use c3qo.Base.{
  ℕ, zero, suc, ◌≡◌, refl, sym, ap, ◌∙◌, subst, false, true, none, some, List, [], ◌∷◌, ℤ, int_eq,
  string_eq,
}
use c3qo.UnorderedMap
use c3qo.World.{Block, World, Vtable, M, ok, fault, out_of_fuel, ◌>>=◌}
use c3qo.World.Keeps.{bind-ok}
use c3qo.Blocks.{block_stop, block_del, block_get, block_clear}
use c3qo.Blocks.Runs.{stop_block-off, delete_block-unknown}

module _ {S E : Type 0} (v : Vtable S E) where
  -- With a stopped block in front of the map, of a type that no factory is registered for,
  -- `block_clear` does not return, however many rounds it is given.
  pub block_clear-stuck :
      (n : ℕ) (id : ℤ) (p : ℕ) (rest : List (ℤ × ℕ)) (w : World S E) (b : Block S)
      → w.mgr.bk_map ≡ (id, p) ∷ rest
      → w.heap p ≡ some b
      → b.is_started ≡ false
      → UnorderedMap.find b.type_name w.mgr.bk_factory ≡ none
      → block_clear n v w ≡ fault out_of_fuel
  unfolding block_clear block_stop block_del block_get
  block_clear-stuck zero id p rest w b e live off unknown = refl
  block_clear-stuck (suc n) id p rest w b e live off unknown =
      let found : UnorderedMap.find id w.mgr.bk_map ≡ some p =
        subst (λ m. UnorderedMap.find id m ≡ some p) (sym e) (UnorderedMap.find_head id p rest) in
      let stopped : block_stop v id w ≡ ok (true, w) = rw found (stop_block-off v p w b live off) in
      let refused : block_del v id w ≡ ok (false, w) =
        rw found (delete_block-unknown v id p w b live off unknown) in
      ap (λ m. first_round m w) e
      ∙ bind-ok (block_stop v id) _ w true w stopped
      ∙ bind-ok (block_del v id) _ w false w refused
      ∙ block_clear-stuck n id p rest w b e live off unknown
    where
      first_round : List (ℤ × ℕ) → M S E (Unit {0})
      first_round l u = elim l [
        | [] ↦ ok (tt, u)
        | entry ∷ others ↦
            (do stopped ← block_stop v entry.0; deleted ← block_del v entry.0; block_clear n v) u
      ]
