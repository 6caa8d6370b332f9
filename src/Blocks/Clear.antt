-- ===== src/Blocks/Clear.antt =====
-- engine/src/manager_bk.cpp, `block_clear`: with the factories of all blocks it empties the map.
use c3qo.Base.{
  ℕ, zero, suc, ◌<◌, ◌≡◌, ◌⊎◌, refl, sym, ap, ◌∙◌, subst, true, false, none, some, List, [], ◌∷◌, ℤ,
  int_eq, string_eq, Bool-cases, inl, inr, length, arith, ◌==◌,
}
use c3qo.UnorderedMap
use c3qo.World.{Block, World, Vtable, M, ok, update, ◌>>=◌}
use c3qo.World.Keeps.{bind-ok}
use c3qo.Blocks.{block_stop, block_del, block_get, block_clear, stop_block, delete_block}
use c3qo.Blocks.Runs.{stop_block-on, stop_block-off, delete_block-off}
use c3qo.Blocks.Typed.{IsTyped, Frees, IsTyped-write, IsTyped-free}
use c3qo.Blocks.Writes.{Inv-write, Inv-free}
use c3qo.Invariant.{Inv}

List-cases : (l : List (ℤ × ℕ)) → (l ≡ []) ⊎ ((x : ℤ × ℕ) × (rest : List (ℤ × ℕ)) × (l ≡ x ∷ rest))
List-cases [] = inl refl
List-cases (x ∷ rest) = inr (x, rest, refl)

module _ {S E : Type 0} (Fits : ℕ → S → Type 0) where
  -- Every block is one of a type that a factory is registered for.
  abbrev pub AllTyped : World S E → Type 0
  AllTyped w = IsTyped Fits w.mgr.bk_factory w.heap

  -- A method of the block at `q` that returns, keeps the invariant, the types and the map of the
  -- blocks, and neither starts nor destroys a stopped block.
  pub record Calm (q : ℕ) (m : M S E (Unit {0})) : Type 0 where
    pub runs :
        (w : World S E) (b : Block S)
        → Inv w
        → AllTyped w
        → w.heap q ≡ some b
        → (w' : World S E) × (m w ≡ ok (tt, w'))
          × Inv w'
          × AllTyped w'
          × (w'.mgr.bk_map ≡ w.mgr.bk_map)
          × ((p : ℕ) (b : Block S)
              → w.heap p ≡ some b
              → b.is_started ≡ false
              → (c : Block S) × (w'.heap p ≡ some c) × (c.is_started ≡ false))

  module _ (v : Vtable S E) (calm : (q : ℕ) → Calm q (v.stop q)) where
    -- After `block_stop` the block is there, and stopped.
    pub stop_block-runs :
        (id : ℤ) (p : ℕ) (w : World S E)
        → Inv w
        → AllTyped w
        → UnorderedMap.find id w.mgr.bk_map ≡ some p
        → (w' : World S E) × (stop_block v p w ≡ ok (true, w'))
          × Inv w'
          × AllTyped w'
          × (w'.mgr.bk_map ≡ w.mgr.bk_map)
          × ((c : Block S) × (w'.heap p ≡ some c) × (c.is_started ≡ false))
    stop_block-runs id p w i t found =
        let (b, live, is) = i.registered id p found in
        elim (Bool-cases b.is_started) [
          | inr off ↦ (w, stop_block-off v p w b live off, i, t, refl, (b, live, off))
          | inl on ↦
              let c : Block S = record b { is_started = false } in
              let w1 = record w { heap = update w.heap p (some c) } in
              let self : (p == p) ≡ true = ground arith in
              let (w2, e2, i2, t2, map2, kept) =
                (calm p).runs w1 c (Inv-write w p b c i live refl)
                  (IsTyped-write Fits w.mgr.bk_factory w.heap p c t (t p b live)) (rw self refl) in
              (w2, stop_block-on v p w b w2 live on e2, i2, t2, map2, kept p c (rw self) refl)
        ]

    module _ (frees : Frees Fits v) where
      delete_block-runs :
          (id : ℤ) (p : ℕ) (w : World S E) (c : Block S)
          → Inv w
          → AllTyped w
          → UnorderedMap.find id w.mgr.bk_map ≡ some p
          → w.heap p ≡ some c
          → c.is_started ≡ false
          → (w' : World S E) × (delete_block v id p w ≡ ok (true, w'))
            × Inv w'
            × AllTyped w'
            × (w'.mgr.bk_map ≡ UnorderedMap.erase id w.mgr.bk_map)
      delete_block-runs id p w c i t found live off =
          let (f, known, fits) = t p c live in
          let (b, live', is) = i.registered id p found in
          (
            _,
            delete_block-off v id p f w c (frees f p w c live fits) live off known,
            subst
                (λ j. Inv (record w {
                  heap = update w.heap p none;
                  mgr = record w.mgr { bk_map = UnorderedMap.erase j w.mgr.bk_map };
                }))
                is (Inv-free w p b i live'),
            IsTyped-free Fits w.mgr.bk_factory w.heap p t,
            refl,
          )

      -- A round of `block_clear` takes the first entry of the map out.
      round :
          (n : ℕ) (id : ℤ) (p : ℕ) (w : World S E) (rest : List (ℤ × ℕ))
          → Inv w
          → AllTyped w
          → w.mgr.bk_map ≡ (id, p) ∷ rest
          → (w' : World S E) × (block_clear (suc n) v w ≡ block_clear n v w')
            × Inv w'
            × AllTyped w'
            × (length w'.mgr.bk_map < length w.mgr.bk_map)
      unfolding block_clear block_stop block_del block_get
      round n id p w rest i t e =
          let found : UnorderedMap.find id w.mgr.bk_map ≡ some p =
            subst (λ m. UnorderedMap.find id m ≡ some p) (sym e)
              (UnorderedMap.find_head id p rest) in
          let (w1, ran1, i1, t1, map1, (c, live, off)) = stop_block-runs id p w i t found in
          let found1 : UnorderedMap.find id w1.mgr.bk_map ≡ some p =
            subst (λ m. UnorderedMap.find id m ≡ some p) (sym map1) found in
          let (w2, ran2, i2, t2, map2) = delete_block-runs id p w1 c i1 t1 found1 live off in
          let stopped : block_stop v id w ≡ ok (true, w1) = rw found ran1 in
          let deleted : block_del v id w1 ≡ ok (true, w2) = rw found1 ran2 in
          (
            w2,
            ap (λ m. first_round m w) e
                ∙ bind-ok (block_stop v id) _ w true w1 stopped
                ∙ bind-ok (block_del v id) _ w1 true w2 deleted,
            i2,
            t2,
            omega (
              arith,
              ap length map2,
              ap length map1,
              UnorderedMap.length-erase-lt id p w1.mgr.bk_map found1,
            ),
          )
        where
          first_round : List (ℤ × ℕ) → M S E (Unit {0})
          first_round l u = elim l [
            | [] ↦ ok (tt, u)
            | entry ∷ others ↦
                (do stopped ← block_stop v entry.0; deleted ← block_del v entry.0; block_clear n v)
                  u
          ]

      -- Where the invariant holds, every block is one of a type that a factory is registered for, the
      -- destructors free the blocks of their factory and do no more, and the own `stop_` of each block
      -- returns, keeps all this and the map of the blocks, and leaves stopped blocks stopped: given one
      -- round more than there are blocks, `block_clear` returns and no block is left.
      pub block_clear-empties :
          (n : ℕ) (w : World S E)
          → Inv w
          → AllTyped w
          → length w.mgr.bk_map < n
          → (w' : World S E) × (block_clear n v w ≡ ok (tt, w')) × (w'.mgr.bk_map ≡ [])
      unfolding block_clear
      block_clear-empties zero w i t enough = absurd (omega arith)
      block_clear-empties (suc n) w i t enough = elim (List-cases w.mgr.bk_map) [
        | inl e ↦ (w, rw e, e)
        | inr (entry, rest, e) ↦
            let (w1, ran, i1, t1, less) = round n entry.0 entry.1 w rest i t e in
            let (w2, ran2, empty) = block_clear-empties n w1 i1 t1 (omega arith) in
            (w2, ran ∙ ran2, empty)
      ]
