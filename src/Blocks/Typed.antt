-- ===== src/Blocks/Typed.antt =====
-- engine/src/manager_bk.cpp: the operations on blocks leave the factories alone, and every block
-- of a type that has one.
use mathlib.Core.Option.{none-ne-some}
use c3qo.Base.{
  ℕ, ◌≡◌, refl, sym, ap, ◌∙◌, subst, true, Option, none, some, ℤ, String, List, int_eq, string_eq,
  arith, Bool-cases, inl, inr, ◌==◌,
}
use c3qo.UnorderedMap
use c3qo.World.{Block, World, Vtable, update}
use c3qo.World.Keeps.{
  update_twice, bind-ok, Post, Keeps, Keeps-bind, Post-deref, Post-write, Post-or_false,
  Post-false_unless_null,
}
use c3qo.Blocks.{
  block_add, block_start, block_stop, block_del, block_bind, bind_block, block_get, start_block,
  stop_block, build_block, delete_block, destroy_block, find_factory,
}
use c3qo.Blocks.Adding.{Builds, entered, build_block-added}
use c3qo.Blocks.Runs.{Destroys}
use c3qo.Blocks.Binding.{BindsNothing}

-- A block whose type is one of `types`, and whose own part is one that the factory's blocks have.
abbrev pub Typed : {S : Type 0} → (ℕ → S → Type 0) → List (String × ℕ) → Block S → Type 0
Typed {S} Fits types b = (f : ℕ) × (UnorderedMap.find b.type_name types ≡ some f) × Fits f b.self

-- All blocks are such.
abbrev pub IsTyped :
    {S : Type 0} → (ℕ → S → Type 0) → List (String × ℕ) → (ℕ → Option (Block S)) → Type 0
IsTyped {S} Fits types heap = (p : ℕ) (b : Block S) → heap p ≡ some b → Typed Fits types b

-- The same, with `types` as the factories.
pub record HasTypes {S E : Type 0} (Fits : ℕ → S → Type 0) (types : List (String × ℕ))
    (w : World S E) : Type 0 where
  pub factories : w.mgr.bk_factory ≡ types
  pub typed : IsTyped Fits types w.heap

-- Destructors that free a block that is one of their factory, and do no more.
abbrev pub Frees : {S E : Type 0} → (ℕ → S → Type 0) → Vtable S E → Type 0
Frees {S} {E} Fits v =
    (f p : ℕ) (w : World S E) (b : Block S) → w.heap p ≡ some b → Fits f b.self → Destroys v f p w

module _ {S : Type 0} (Fits : ℕ → S → Type 0) (types : List (String × ℕ)) where
  -- A write of a block of a known type, and a free address.
  pub IsTyped-write :
      (heap : ℕ → Option (Block S)) (p : ℕ) (c : Block S)
      → IsTyped Fits types heap
      → Typed Fits types c
      → IsTyped Fits types (update heap p (some c))
  IsTyped-write heap p c t known q d at = elim (Bool-cases (p == q)) [
    | inl hit ↦
        let is : some c ≡ some d = sym (rw hit refl) ∙ at in
        subst (Typed Fits types) (ap (λ o. elim o [ none ↦ c | some z ↦ z ]) is) known
    | inr miss ↦ t q d (sym (rw miss refl) ∙ at)
  ]

  pub IsTyped-free :
      (heap : ℕ → Option (Block S)) (p : ℕ)
      → IsTyped Fits types heap
      → IsTyped Fits types (update heap p none)
  IsTyped-free heap p t q d at = elim (Bool-cases (p == q)) [
    | inl hit ↦ absurd (none-ne-some d (sym (rw hit refl) ∙ at))
    | inr miss ↦ t q d (sym (rw miss refl) ∙ at)
  ]

module _ {S E : Type 0} (Fits : ℕ → S → Type 0) (types : List (String × ℕ)) (v : Vtable S E) where
  abbrev P : World S E → Type 0
  P = HasTypes Fits types

  pub write-HasTypes :
      (w : World S E) (p : ℕ) (b c : Block S)
      → P w
      → w.heap p ≡ some b
      → c.type_name ≡ b.type_name
      → c.self ≡ b.self
      → P (record w { heap = update w.heap p (some c) })
  write-HasTypes w p b c t live same fit = record {
    factories = t.factories;
    typed =
        let (f, found, fits) = t.typed p b live in
        IsTyped-write Fits types w.heap p c t.typed
          (f, ap (λ n. UnorderedMap.find n types) same ∙ found, subst (Fits f) (sym fit) fits);
  }

  pub block_start-HasTypes : ((q : ℕ) → Keeps P (v.start q)) → (id : ℤ) → Keeps P (block_start v id)
  unfolding block_start block_get start_block
  block_start-HasTypes starts id w t =
      Post-or_false w (λ _ w'. P w') (UnorderedMap.find id w.mgr.bk_map) (start_block v) t
        λ p there. Post-deref p _ w _ λ b live. elim (Bool-cases b.is_started) [
          | inl on ↦ rw on t
          | inr off ↦ rw off (
              Post-write p _ _ w _ λ c at.
                Keeps-bind P (v.start p) _ (starts p) (λ _ w' t'. t') _
                  (write-HasTypes w p c _ t at refl refl))
        ]

  pub block_stop-HasTypes : ((q : ℕ) → Keeps P (v.stop q)) → (id : ℤ) → Keeps P (block_stop v id)
  unfolding block_stop block_get stop_block
  block_stop-HasTypes stops id w t =
      Post-or_false w (λ _ w'. P w') (UnorderedMap.find id w.mgr.bk_map) (stop_block v) t
        λ p there. Post-deref p _ w _ λ b live. elim (Bool-cases b.is_started) [
          | inr off ↦ rw off t
          | inl on ↦ rw on (
              Post-write p _ _ w _ λ c at.
                Keeps-bind P (v.stop p) _ (stops p) (λ _ w' t'. t') _
                  (write-HasTypes w p c _ t at refl refl))
        ]

  -- The factory that a block's type names is the one it fits.
  fits-known :
      (w : World S E) (p : ℕ) (b : Block S) (f : ℕ)
      → P w
      → w.heap p ≡ some b
      → UnorderedMap.find b.type_name w.mgr.bk_factory ≡ some f
      → Fits f b.self
  fits-known w p b f t live known =
      let (g, listed, fits) = t.typed p b live in
      let same : some g ≡ some f =
        sym listed ∙ ap (UnorderedMap.find b.type_name) (sym t.factories) ∙ known in
      subst (λ k. Fits k b.self) (ap (λ o. elim o [ none ↦ g | some k ↦ k ]) same) fits

  destroy_block-HasTypes :
      (id : ℤ) (p f : ℕ) (w : World S E)
      → Destroys v f p w
      → P w
      → Post (λ _ w'. P w') (destroy_block v id p f w)
  unfolding destroy_block
  destroy_block-HasTypes id p f w destroys t =
      subst (Post (λ _ w'. P w')) (sym (bind-ok (v.destructor f p) _ w tt _ destroys))
        (record { factories = t.factories; typed = IsTyped-free Fits types w.heap p t.typed })

  pub block_del-HasTypes : Frees Fits v → (id : ℤ) → Keeps P (block_del v id)
  unfolding block_del block_get delete_block find_factory
  block_del-HasTypes frees id w t =
      Post-or_false w (λ _ w'. P w') (UnorderedMap.find id w.mgr.bk_map) (delete_block v id) t
        λ p there. Post-deref p _ w _ λ b live. elim (Bool-cases b.is_started) [
          | inl on ↦ rw on t
          | inr off ↦ rw off (
              Post-or_false w (λ _ w'. P w') (UnorderedMap.find b.type_name w.mgr.bk_factory)
                (destroy_block v id p) t
                λ f known.
                  destroy_block-HasTypes id p f w
                    (frees f p w b live (fits-known w p b f t live known)) t)
        ]

  pub block_add-HasTypes :
      ((t : String) (f : ℕ)
        → UnorderedMap.find t types ≡ some f
        → (b : Builds v f) × Fits f b.made.self)
      → (id : ℤ) (type_name : String) → Keeps P (block_add v id type_name)
  unfolding block_add block_get find_factory
  block_add-HasTypes builds id type_name w t =
      Post-false_unless_null w (λ _ w'. P w') (UnorderedMap.find id w.mgr.bk_map) _ t
        λ absent.
          Post-or_false w (λ _ w'. P w') (UnorderedMap.find type_name w.mgr.bk_factory)
            (build_block v id type_name) t
            λ f known.
              let listed : UnorderedMap.find type_name types ≡ some f =
                ap (UnorderedMap.find type_name) (sym t.factories) ∙ known in
              let (b, fits) = builds type_name f listed in
              subst (Post (λ _ w'. P w')) (sym (build_block-added v id type_name w f b)) (record {
                factories = t.factories;
                typed =
                    subst (IsTyped Fits types)
                      (sym (
                        update_twice w.heap w.heap_next (some b.made)
                          (some (entered v id type_name w b))))
                      (IsTyped-write Fits types w.heap w.heap_next (entered v id type_name w b)
                        t.typed (f, listed, fits));
              })

  pub block_bind-HasTypes :
      BindsNothing v → (src port dst : ℤ) → Keeps P (block_bind v src port dst)
  unfolding block_bind block_get bind_block
  block_bind-HasTypes plain src port dst w t =
      Post-or_false w (λ _ w'. P w') (UnorderedMap.find src w.mgr.bk_map) _ t
        λ p from.
          Post-or_false w (λ _ w'. P w') (UnorderedMap.find dst w.mgr.bk_map) (bind_block v p port)
            t
            λ q to. Post-write p _ _ w _ λ c at.
              let d : Block S = record c { sink = some q } in
              let w1 : World S E = record w { heap = update w.heap p (some d) } in
              let self : (p == p) ≡ true = ground arith in
              subst (Post (λ _ u. P u))
                (sym (bind-ok (v.bind p port q) _ w1 tt w1 (plain p port q w1 d (rw self refl))))
                (write-HasTypes w p c d t at refl refl)
