-- ===== src/Blocks/Adding.antt =====
-- engine/src/manager_bk.cpp, `block_add`, on the status of an identifier.
use c3qo.Base.{
  ℕ, suc, ◌≡◌, ◌≢◌, refl, ap, ◌∙◌, Bool, true, false, none, some, ℤ, eq_ℤ, eq_ℤ_iff, Ptr, String,
  int_eq, string_eq, arith, Bool-cases, Option-cases, inl, inr, ◌==◌,
}
use c3qo.UnorderedMap
use c3qo.World.{Block, World, Vtable, ok, update, modify_block}
use c3qo.World.Keeps.{bind-ok, write-live}
use c3qo.Blocks.{block_add, block_get, build_block, enter_block, find_factory}
use c3qo.Blocks.Status.{
  Status, absent, stopped, started, status, Moves, status_of, status_of-stopped, status_of-started,
  status-same, status-write, status-missing, status-found,
}
use c3qo.Invariant.{Inv}

-- What `block_add` answers and where it leads, by the status it finds and whether the type has a
-- factory.
abbrev pub is_added : Status → Ptr → Bool
is_added absent (some f) = true
is_added _ _ = false

abbrev pub after_add : Status → Ptr → Status
after_add absent (some f) = stopped
after_add s _ = s

module _ {S E : Type 0} where
  -- Constructors that allocate a block, and do no more.
  pub record Builds (v : Vtable S E) (f : ℕ) : Type 0 where
    pub made : Block S
    pub builds :
        (w : World S E)
        → v.constructor f w
          ≡ ok (
            some w.heap_next,
            record w { heap = update w.heap w.heap_next (some made); heap_next = suc w.heap_next },
          )

  module _ (v : Vtable S E) (id : ℤ) (type_name : String) (w : World S E) where
    -- The block as it is entered.
    abbrev pub entered : {f : ℕ} → Builds v f → Block S
    entered b = record b.made { id = id; type_name = type_name; is_started = false }

    abbrev pub added : {f : ℕ} → Builds v f → World S E
    added b = record w {
      heap = update (update w.heap w.heap_next (some b.made)) w.heap_next (some (entered b));
      heap_next = suc w.heap_next;
      mgr = record w.mgr { bk_map = UnorderedMap.insert id w.heap_next w.mgr.bk_map };
    }

    pub build_block-added :
        (f : ℕ) (b : Builds v f) → build_block v id type_name f w ≡ ok (true, added b)
    unfolding build_block enter_block
    build_block-added f b =
        let w1 : World S E = record w {
          heap = update w.heap w.heap_next (some b.made);
          heap_next = suc w.heap_next;
        } in
        let self : (w.heap_next == w.heap_next) ≡ true = ground arith in
        bind-ok (v.constructor f) _ w (some w.heap_next) w1 (b.builds w)
        ∙ bind-ok (modify_block w.heap_next _) _ w1 tt _
            (write-live w.heap_next w1 _ b.made (rw self))

    status-added_other :
        Inv w
        → {f : ℕ} (b : Builds v f) (j : ℤ) → UnorderedMap.find id w.mgr.bk_map ≡ none
        → j ≢ id
        → status j (added b) ≡ status j w
    status-added_other i b j missing ne =
        let other : eq_ℤ j id ≡ false = ground (arith, ne, eq_ℤ_iff j id) in
        status-same w (added b) j
          (UnorderedMap.find-insert_new j id w.heap_next w.mgr.bk_map missing ∙ rw other refl)
          (λ q at.
            let (d, live, is) = i.registered j q at in
            let unused : w.heap w.heap_next ≡ none = i.unused w.heap_next (omega arith) in
            let miss : (w.heap_next == q) ≡ false = ground (arith, unused, live) in
            ap status_of (rw miss refl))

    status-added :
        {f : ℕ} (b : Builds v f)
        → UnorderedMap.find id w.mgr.bk_map ≡ none
        → status id (added b) ≡ stopped
    status-added b missing =
        let same : eq_ℤ id id ≡ true = ground (arith, eq_ℤ_iff id id) in
        let w1 : World S E = record w {
          heap = update w.heap w.heap_next (some b.made);
          heap_next = suc w.heap_next;
        } in
        status-write w1 id w.heap_next (some (entered b)) (added b).mgr.bk_map
          (UnorderedMap.find-insert_new id id w.heap_next w.mgr.bk_map missing ∙ rw same refl)
        ∙ status_of-stopped (entered b) refl

    -- Where the invariant holds and the constructor of the type, if it has a factory, allocates a
    -- block and does no more: `block_add` answers true exactly if the identifier is unknown and the
    -- type has a factory; the identifier then leads to a stopped block. Otherwise it leaves its
    -- status, and it changes the status of no other identifier.
    pub block_add-Moves :
        Inv w
        → ((f : ℕ) → UnorderedMap.find type_name w.mgr.bk_factory ≡ some f → Builds v f)
        → let factory = UnorderedMap.find type_name w.mgr.bk_factory in
          Moves id
            (block_add v id type_name)
            w
            (is_added (status id w) factory)
            (after_add (status id w) factory)
    unfolding block_add block_get find_factory
    block_add-Moves i builds = elim (Option-cases (UnorderedMap.find id w.mgr.bk_map)) [
      | inr (p, found) ↦
          let (b, live, is) = i.registered id p found in
          let now = status-found w id p b found live in
          elim (Bool-cases b.is_started) [
            | inl on ↦
                let is_now : status id w ≡ started = now ∙ status_of-started b on in
                rw is_now (w, rw found refl, is_now, λ j _. refl)
            | inr off ↦
                let is_now : status id w ≡ stopped = now ∙ status_of-stopped b off in
                rw is_now (w, rw found refl, is_now, λ j _. refl)
          ]
      | inl missing ↦ elim (Option-cases (UnorderedMap.find type_name w.mgr.bk_factory)) [
        | inl unknown ↦
            let is_now = status-missing w id missing in
            rw (is_now, unknown) (w, rw (missing, unknown) refl, is_now, λ j _. refl)
        | inr (f, known) ↦
            let is_now = status-missing w id missing in
            let b = builds f known in
            rw (is_now, known)
              (
                added b,
                rw (missing, known) (build_block-added f b),
                status-added b missing,
                λ j ne. status-added_other i b j missing ne,
              )
      ]
    ]
