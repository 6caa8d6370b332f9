-- ===== src/Blocks/Runs.antt =====
-- engine/src/manager_bk.cpp: what a call computes to on a block of which it is known whether it is
-- started.
use c3qo.Base.{ℕ, ◌≡◌, refl, ◌∙◌, true, false, none, some, ℤ, int_eq, string_eq}
use c3qo.UnorderedMap
use c3qo.World.{Block, World, Vtable, ok, update, deref, modify_block}
use c3qo.World.Keeps.{bind-ok, deref-live, write-live}
use c3qo.Blocks.{start_block, stop_block, delete_block, destroy_block, find_factory}

module _ {S E : Type 0} where
  module _ (v : Vtable S E) (p : ℕ) (w : World S E) (b : Block S) where
    pub start_block-on : w.heap p ≡ some b → b.is_started ≡ true → start_block v p w ≡ ok (true, w)
    unfolding start_block
    start_block-on live on = bind-ok (deref p) _ w b w (deref-live p w b live) ∙ rw on

    pub start_block-off :
        (w2 : World S E)
        → w.heap p ≡ some b
        → b.is_started ≡ false
        → v.start p (record w { heap = update w.heap p (some (record b { is_started = true })) })
          ≡ ok (tt, w2)
        → start_block v p w ≡ ok (true, w2)
    unfolding start_block
    start_block-off w2 live off e =
        bind-ok (deref p) _ w b w (deref-live p w b live)
        ∙ rw off (
            bind-ok (modify_block p _) _ w tt _ (write-live p w _ b live)
            ∙ bind-ok (v.start p) _ _ tt w2 e)

    pub stop_block-off : w.heap p ≡ some b → b.is_started ≡ false → stop_block v p w ≡ ok (true, w)
    unfolding stop_block
    stop_block-off live off = bind-ok (deref p) _ w b w (deref-live p w b live) ∙ rw off

    pub stop_block-on :
        (w2 : World S E)
        → w.heap p ≡ some b
        → b.is_started ≡ true
        → v.stop p (record w { heap = update w.heap p (some (record b { is_started = false })) })
          ≡ ok (tt, w2)
        → stop_block v p w ≡ ok (true, w2)
    unfolding stop_block
    stop_block-on w2 live on e =
        bind-ok (deref p) _ w b w (deref-live p w b live)
        ∙ rw on (
            bind-ok (modify_block p _) _ w tt _ (write-live p w _ b live)
            ∙ bind-ok (v.stop p) _ _ tt w2 e)

  -- The destructor of a factory frees the block, and does no more.
  abbrev pub Destroys : Vtable S E → ℕ → ℕ → World S E → Type 0
  Destroys v f p w = v.destructor f p w ≡ ok (tt, record w { heap = update w.heap p none })

  pub delete_block-on :
      (v : Vtable S E) (id : ℤ) (p : ℕ) (w : World S E) (b : Block S)
      → w.heap p ≡ some b
      → b.is_started ≡ true
      → delete_block v id p w ≡ ok (false, w)
  unfolding delete_block
  delete_block-on v id p w b live on = bind-ok (deref p) _ w b w (deref-live p w b live) ∙ rw on

  pub delete_block-off :
      (v : Vtable S E) (id : ℤ) (p f : ℕ) (w : World S E) (b : Block S)
      → Destroys v f p w
      → w.heap p ≡ some b
      → b.is_started ≡ false
      → UnorderedMap.find b.type_name w.mgr.bk_factory ≡ some f
      → delete_block v id p w
        ≡ ok (
          true,
          record w {
            heap = update w.heap p none;
            mgr = record w.mgr { bk_map = UnorderedMap.erase id w.mgr.bk_map };
          },
        )
  unfolding delete_block find_factory destroy_block
  delete_block-off v id p f w b frees live off known =
      bind-ok (deref p) _ w b w (deref-live p w b live)
      ∙ rw (off, known) (bind-ok (v.destructor f p) _ w tt _ frees)

  pub delete_block-unknown :
      (v : Vtable S E) (id : ℤ) (p : ℕ) (w : World S E) (b : Block S)
      → w.heap p ≡ some b
      → b.is_started ≡ false
      → UnorderedMap.find b.type_name w.mgr.bk_factory ≡ none
      → delete_block v id p w ≡ ok (false, w)
  unfolding delete_block find_factory
  delete_block-unknown v id p w b live off unknown =
      bind-ok (deref p) _ w b w (deref-live p w b live) ∙ rw (off, unknown) refl
