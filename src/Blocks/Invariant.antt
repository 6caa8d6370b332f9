-- ===== src/Blocks/Invariant.antt =====
-- The operations on blocks keep the invariant.
use c3qo.Base.{
  ℕ, zero, suc, ◌≡◌, ◌≢◌, refl, sym, subst, false, none, some, List, [], ◌∷◌, ℤ, Ptr, String,
  int_eq, string_eq, Bool-cases, Option-cases, inl, inr,
}
use c3qo.UnorderedMap
use c3qo.World.{Block, World, Vtable, ok, or_false, update, ◌>>=◌}
use c3qo.World.Keeps.{
  Post, Keeps, Post-bind, Keeps-bind, Post-deref, Post-write, Post-or_false, Post-false_unless_null,
}
use c3qo.Blocks.{
  start_block, stop_block, bind_block, destroy_block, delete_block, build_block, enter_block,
  block_add, block_start, block_stop, block_del, block_bind, block_clear,
}
use c3qo.Invariant.{Inv, Made, Respects}
use c3qo.Blocks.Writes.{Inv-write, Inv-free, Inv-unmapped, Inv-enter}

module _ {S E : Type 0} (v : Vtable S E) (r : Respects v) where
  start_block-Inv : (p : ℕ) → Keeps Inv (start_block v p)
  unfolding start_block
  start_block-Inv p w i = Post-deref p _ w _ λ b live. elim (Bool-cases b.is_started) [
    | inl started ↦ rw started i
    | inr stopped ↦ rw stopped (
        Post-write p _ _ w _ λ c at.
          Keeps-bind Inv (v.start p) _ (r.start p) (λ _ w' i'. i') _ (Inv-write w p c _ i at refl))
  ]

  stop_block-Inv : (p : ℕ) → Keeps Inv (stop_block v p)
  unfolding stop_block
  stop_block-Inv p w i = Post-deref p _ w _ λ b live. elim (Bool-cases b.is_started) [
    | inr stopped ↦ rw stopped i
    | inl started ↦ rw started (
        Post-write p _ _ w _ λ c at.
          Keeps-bind Inv (v.stop p) _ (r.stop p) (λ _ w' i'. i') _ (Inv-write w p c _ i at refl))
  ]

  bind_block-Inv : (src : ℕ) (port : ℤ) (dst : ℕ) → Keeps Inv (bind_block v src port dst)
  unfolding bind_block
  bind_block-Inv src port dst w i = Post-write src _ _ w _ λ c at.
      Keeps-bind Inv (v.bind src port dst) _ (r.bind src port dst) (λ _ w' i'. i') _
        (Inv-write w src c _ i at refl)

  destroy_block-Inv :
      (w : World S E) (id : ℤ) (p f : ℕ) (b : Block S)
      → Inv w
      → w.heap p ≡ some b
      → b.id ≡ id
      → Post (λ _ w'. Inv w') (destroy_block v id p f w)
  unfolding destroy_block
  destroy_block-Inv w id p f b i live is =
      Post-bind (v.destructor f p) _ w _ _ (r.destructor f p w i) λ _ w' e.
        subst
          (λ u.
            Inv (record u { mgr = record u.mgr { bk_map = UnorderedMap.erase id u.mgr.bk_map } }))
          (sym e)
          (subst
            (λ j. Inv (record w {
              heap = update w.heap p none;
              mgr = record w.mgr { bk_map = UnorderedMap.erase j w.mgr.bk_map };
            }))
            is (Inv-free w p b i live))

  delete_block-Inv :
      (w : World S E) (id : ℤ) (p : ℕ)
      → Inv w
      → UnorderedMap.find id w.mgr.bk_map ≡ some p
      → Post (λ _ w'. Inv w') (delete_block v id p w)
  unfolding delete_block
  delete_block-Inv w id p i found = Post-deref p _ w _ λ b live. elim (Bool-cases b.is_started) [
    | inl started ↦ rw started i
    | inr stopped ↦
        let (c, at, is) = i.registered id p found in
        rw stopped (
          Post-or_false w (λ _ w'. Inv w') (UnorderedMap.find b.type_name w.mgr.bk_factory)
            (destroy_block v id p) i λ f known. destroy_block-Inv w id p f c i at is)
  ]

  enter_block-Inv :
      (w : World S E) (id : ℤ) (type_name : String) (p : ℕ) (b : Block S)
      → Inv w
      → w.heap p ≡ some b
      → ((j : ℤ) → UnorderedMap.find j w.mgr.bk_map ≢ some p)
      → Post (λ _ w'. Inv w') (enter_block id type_name p w)
  unfolding enter_block
  enter_block-Inv w id type_name p b i live unmapped = Post-write p _ _ w _ λ c at.
      elim (Option-cases (UnorderedMap.find id w.mgr.bk_map)) [
        | inl absent ↦ Inv-enter w id p c _ i at unmapped absent refl
        | inr (q, there) ↦
            let c' = record c { id = id; type_name = type_name; is_started = false } in
            subst
              (λ l.
                Inv (record w {
                  heap = update w.heap p (some c');
                  mgr = record w.mgr { bk_map = l };
                }))
              (sym (UnorderedMap.insert_old id p q w.mgr.bk_map there))
              (Inv-unmapped w p c c' i at unmapped)
      ]

  build_block-Inv :
      (w : World S E) (id : ℤ) (type_name : String) (f : ℕ)
      → Inv w
      → Post (λ _ w'. Inv w') (build_block v id type_name f w)
  unfolding build_block enter_block
  build_block-Inv w id type_name f i =
      Post-bind (v.constructor f) _ w _ _ (r.constructor f w i) entered
    where
      entered :
          (made : Ptr) (w' : World S E)
          → Made made w' × Inv w'
          → Post (λ _ w''. Inv w'') (or_false made (enter_block id type_name) w')
      entered none w' h = h.1
      entered (some p) w' h = enter_block-Inv w' id type_name p h.0.0 h.1 h.0.1 h.0.2

  -- `block_add` keeps the invariant.
  pub block_add-Inv : (id : ℤ) (type_name : String) → Keeps Inv (block_add v id type_name)
  unfolding block_add
  block_add-Inv id type_name w i =
      Post-false_unless_null w (λ _ w'. Inv w') (UnorderedMap.find id w.mgr.bk_map) _ i
        λ absent.
          Post-or_false w (λ _ w'. Inv w') (UnorderedMap.find type_name w.mgr.bk_factory)
            (build_block v id type_name) i λ f known. build_block-Inv w id type_name f i

  pub block_start-Inv : (id : ℤ) → Keeps Inv (block_start v id)
  unfolding block_start
  block_start-Inv id w i =
      Post-or_false w (λ _ w'. Inv w') (UnorderedMap.find id w.mgr.bk_map) (start_block v) i
        λ p there. start_block-Inv p w i

  pub block_stop-Inv : (id : ℤ) → Keeps Inv (block_stop v id)
  unfolding block_stop
  block_stop-Inv id w i =
      Post-or_false w (λ _ w'. Inv w') (UnorderedMap.find id w.mgr.bk_map) (stop_block v) i
        λ p there. stop_block-Inv p w i

  pub block_del-Inv : (id : ℤ) → Keeps Inv (block_del v id)
  unfolding block_del
  block_del-Inv id w i =
      Post-or_false w (λ _ w'. Inv w') (UnorderedMap.find id w.mgr.bk_map) (delete_block v id) i
        λ p there. delete_block-Inv w id p i there

  pub block_bind-Inv : (src port dst : ℤ) → Keeps Inv (block_bind v src port dst)
  unfolding block_bind
  block_bind-Inv src port dst w i =
      Post-or_false w (λ _ w'. Inv w') (UnorderedMap.find src w.mgr.bk_map) _ i
        λ p there.
          Post-or_false w (λ _ w'. Inv w') (UnorderedMap.find dst w.mgr.bk_map)
            (bind_block v p port) i λ q there'. bind_block-Inv p port q w i

  pub block_clear-Inv : (n : ℕ) → Keeps Inv (block_clear n v)
  unfolding block_clear
  block_clear-Inv zero w i = tt
  block_clear-Inv (suc n) w i = go w.mgr.bk_map (block_clear-Inv n)
    where
      go :
          (l : List (ℤ × ℕ))
          → Keeps Inv (block_clear n v)
          → Post
              (λ _ w'. Inv w')
              (elim l [
                | [] ↦ ok (tt, w)
                | entry ∷ rest ↦
                    (do
                      stopped ← block_stop v entry.0
                      deleted ← block_del v entry.0
                      block_clear n v)
                      w
              ])
      go [] k = i
      go (entry ∷ rest) k =
          Keeps-bind Inv (block_stop v entry.0) _ (block_stop-Inv entry.0)
            (λ _. Keeps-bind Inv (block_del v entry.0) _ (block_del-Inv entry.0) (λ _. k)) w i
