-- ===== src/Blocks/Automaton.antt =====
-- engine/src/manager_bk.cpp: the calls that start, stop and remove a block, as an automaton on
-- the status of an identifier.
use c3qo.Base.{
  Bool, ℕ, ◌≡◌, refl, sym, ◌∙◌, ◌⊎◌, subst, true, false, none, some, ℤ, int_eq, string_eq,
  Bool-cases, Option-cases, inl, inr,
}
use c3qo.UnorderedMap
use c3qo.World.{M, Block, World, Vtable, ok, update, pure, deref, modify_block, ◌>>◌}
use c3qo.World.Keeps.{bind-ok, deref-live, write-live}
use c3qo.Blocks.{
  block_start, block_stop, block_del, block_get, start_block, stop_block, delete_block,
}
use c3qo.Invariant.{Inv}
use c3qo.Blocks.Runs.{
  start_block-on, start_block-off, stop_block-on, stop_block-off, delete_block-on, delete_block-off,
  Destroys,
}
use c3qo.Blocks.Status.{
  stopped, started, is_known, is_stopped, after_start, after_stop, after_del, status, Quiet,
  switched, Moves, status_of-started, status_of-stopped, status-write, status-write_other,
  status-found, status-missing,
}

module _ {S E : Type 0} where
  pub start_block-Moves :
      (v : Vtable S E) (id : ℤ) (p : ℕ) (w : World S E)
      → Inv w
      → ((q : ℕ) (b : Block S) → w.heap q ≡ some b → Quiet (v.start q) (switched true q b w))
      → UnorderedMap.find id w.mgr.bk_map ≡ some p
      → Moves id (start_block v p) w (is_known (status id w)) (after_start (status id w))
  start_block-Moves v id p w i quiet found =
      let (b, live, is) = i.registered id p found in
      let now = status-found w id p b found live in
      elim (Bool-cases b.is_started) [
        | inl on ↦
            let is_now : status id w ≡ started = now ∙ status_of-started b on in
            subst (λ s. Moves id (start_block v p) w (is_known s) (after_start s)) (sym is_now)
              (w, start_block-on v p w b live on, is_now, λ j _. refl)
        | inr off ↦
            let is_now : status id w ≡ stopped = now ∙ status_of-stopped b off in
            let c : Block S = record b { is_started = true } in
            let w1 = record w { heap = update w.heap p (some c) } in
            let (w2, e2, i2, kept) = quiet p b live in
            subst (λ s. Moves id (start_block v p) w (is_known s) (after_start s)) (sym is_now)
              (
                w2,
                start_block-off v p w b w2 live off e2,
                kept id
                    ∙ status-write w id p (some c) w.mgr.bk_map found
                    ∙ status_of-started c refl,
                λ j ne.
                    kept j
                    ∙ status-write_other w id j p (some c) b w.mgr.bk_map i found live is refl ne,
              )
      ]

  pub block_start-Moves :
      (v : Vtable S E) (id : ℤ) (w : World S E)
      → Inv w
      → ((q : ℕ) (b : Block S) → w.heap q ≡ some b → Quiet (v.start q) (switched true q b w))
      → Moves id (block_start v id) w (is_known (status id w)) (after_start (status id w))
  unfolding block_start block_get
  block_start-Moves v id w i quiet = elim (Option-cases (UnorderedMap.find id w.mgr.bk_map)) [
    | inl missing ↦
        let is_now = status-missing w id missing in
        subst (λ s. Moves id (block_start v id) w (is_known s) (after_start s)) (sym is_now)
          (w, rw missing, is_now, λ j _. refl)
    | inr (p, found) ↦
        let (w', e, moved, others) = start_block-Moves v id p w i quiet found in
        (w', rw found e, moved, others)
  ]

  -- What a call that is to start a block does: nothing for an unknown identifier or a started block, and the own
  -- `start_` of a stopped block, once, with the block marked as started.
  abbrev pub Calls : Vtable S E → ℤ → M S E Bool → World S E → Type 0
  Calls v id m w =
      ((UnorderedMap.find id w.mgr.bk_map ≡ none) × (m w ≡ ok (false, w)))
      ⊎ ((p : ℕ) × (b : Block S) × (UnorderedMap.find id w.mgr.bk_map ≡ some p)
          × (w.heap p ≡ some b)
          × (((b.is_started ≡ true) × (m w ≡ ok (true, w)))
              ⊎ ((b.is_started ≡ false) × (m w ≡ (do v.start p; pure true) (switched true p b w)))))

  pub block_start-Calls :
      (v : Vtable S E) (id : ℤ) (w : World S E) → Inv w → Calls v id (block_start v id) w
  unfolding block_start block_get start_block
  block_start-Calls v id w i = elim (Option-cases (UnorderedMap.find id w.mgr.bk_map)) [
    | inl missing ↦ inl (missing, rw missing refl)
    | inr (p, found) ↦
        let (b, live, is) = i.registered id p found in
        elim (Bool-cases b.is_started) [
          | inl on ↦
              inr (p, b, found, live, inl (on, rw found refl ∙ start_block-on v p w b live on))
          | inr off ↦ inr (
            p,
            b,
            found,
            live,
            inr (
              off,
              rw found (
                  bind-ok (deref p) _ w b w (deref-live p w b live)
                  ∙ rw off (bind-ok (modify_block p _) _ w tt _ (write-live p w _ b live))),
            ),
          )
        ]
  ]

  -- Where the invariant holds, `block_start` answers false and does nothing for an unknown
  -- identifier, answers true and does nothing for a started block, and marks a stopped block as
  -- started and then is a call of its own `start_` with the answer true. Where the own `start_` of
  -- each block returns and touches no block's life too, a known identifier is left started, and the
  -- status of no other identifier changes.
  pub block_start-Starts :
      (v : Vtable S E) (id : ℤ) (w : World S E)
      → Inv w
      → ((q : ℕ) (b : Block S) → w.heap q ≡ some b → Quiet (v.start q) (switched true q b w))
      → Calls v id (block_start v id) w
        × Moves id (block_start v id) w (is_known (status id w)) (after_start (status id w))
  block_start-Starts v id w i quiet = (block_start-Calls v id w i, block_start-Moves v id w i quiet)

  -- What `block_stop` calls at an address: the own `stop_` of a started block, marked as stopped.
  pub block_stop-on :
      (v : Vtable S E) (id : ℤ) (p : ℕ) (b : Block S) (w : World S E)
      → UnorderedMap.find id w.mgr.bk_map ≡ some p
      → w.heap p ≡ some b
      → b.is_started ≡ true
      → block_stop v id w ≡ (do v.stop p; pure true) (switched false p b w)
  unfolding block_stop block_get stop_block
  block_stop-on v id p b w found live on = rw found (
      bind-ok (deref p) _ w b w (deref-live p w b live)
      ∙ rw on (bind-ok (modify_block p _) _ w tt _ (write-live p w _ b live)))

  pub stop_block-Moves :
      (v : Vtable S E) (id : ℤ) (p : ℕ) (w : World S E)
      → Inv w
      → ((b : Block S)
          → w.heap p ≡ some b
          → b.is_started ≡ true
          → Quiet (v.stop p) (switched false p b w))
      → UnorderedMap.find id w.mgr.bk_map ≡ some p
      → Moves id (stop_block v p) w (is_known (status id w)) (after_stop (status id w))
  stop_block-Moves v id p w i quiet found =
      let (b, live, is) = i.registered id p found in
      let now = status-found w id p b found live in
      elim (Bool-cases b.is_started) [
        | inl active ↦
            let is_now : status id w ≡ started = now ∙ status_of-started b active in
            let c : Block S = record b { is_started = false } in
            let w1 = record w { heap = update w.heap p (some c) } in
            let (w2, e2, i2, kept) = quiet b live active in
            subst (λ s. Moves id (stop_block v p) w (is_known s) (after_stop s)) (sym is_now)
              (
                w2,
                stop_block-on v p w b w2 live active e2,
                kept id
                    ∙ status-write w id p (some c) w.mgr.bk_map found
                    ∙ status_of-stopped c refl,
                λ j ne.
                    kept j
                    ∙ status-write_other w id j p (some c) b w.mgr.bk_map i found live is refl ne,
              )
        | inr idle ↦
            let is_now : status id w ≡ stopped = now ∙ status_of-stopped b idle in
            subst (λ s. Moves id (stop_block v p) w (is_known s) (after_stop s)) (sym is_now)
              (w, stop_block-off v p w b live idle, is_now, λ j _. refl)
      ]

  -- Where the invariant holds and the own `stop_` of the block, if it is started, returns and
  -- touches no block's life, `block_stop` answers whether the identifier is known, leaves a known one
  -- stopped, and changes the status of no other identifier.
  pub block_stop-Moves :
      (v : Vtable S E) (id : ℤ) (w : World S E)
      → Inv w
      → ((p : ℕ) (b : Block S)
          → UnorderedMap.find id w.mgr.bk_map ≡ some p
          → w.heap p ≡ some b
          → b.is_started ≡ true
          → Quiet (v.stop p) (switched false p b w))
      → Moves id (block_stop v id) w (is_known (status id w)) (after_stop (status id w))
  unfolding block_stop block_get
  block_stop-Moves v id w i quiet = elim (Option-cases (UnorderedMap.find id w.mgr.bk_map)) [
    | inl missing ↦
        let is_now = status-missing w id missing in
        subst (λ s. Moves id (block_stop v id) w (is_known s) (after_stop s)) (sym is_now)
          (w, rw missing, is_now, λ j _. refl)
    | inr (p, found) ↦
        let (w', e, moved, others) =
          stop_block-Moves v id p w i (λ b live on. quiet p b found live on) found in
        (w', rw found e, moved, others)
  ]

  delete_block-Moves :
      (v : Vtable S E) (id : ℤ) (p f : ℕ) (w : World S E) (b : Block S)
      → Inv w
      → Destroys v f p w
      → UnorderedMap.find id w.mgr.bk_map ≡ some p
      → w.heap p ≡ some b
      → b.id ≡ id
      → UnorderedMap.find b.type_name w.mgr.bk_factory ≡ some f
      → Moves id (delete_block v id p) w (is_stopped (status id w)) (after_del (status id w))
  delete_block-Moves v id p f w b i frees found live is known =
      let now = status-found w id p b found live in
      elim (Bool-cases b.is_started) [
        | inl active ↦
            let is_now : status id w ≡ started = now ∙ status_of-started b active in
            subst (λ s. Moves id (delete_block v id p) w (is_stopped s) (after_del s)) (sym is_now)
              (w, delete_block-on v id p w b live active, is_now, λ j _. refl)
        | inr idle ↦
            let is_now : status id w ≡ stopped = now ∙ status_of-stopped b idle in
            subst (λ s. Moves id (delete_block v id p) w (is_stopped s) (after_del s)) (sym is_now)
              (
                _,
                delete_block-off v id p f w b frees live idle known,
                status-missing _ id (UnorderedMap.find-erase_self id w.mgr.bk_map),
                λ j ne.
                    status-write_other w id j p none b (UnorderedMap.erase id w.mgr.bk_map) i found
                      live is (UnorderedMap.find-erase_ne j id w.mgr.bk_map ne) ne,
              )
      ]

  -- Where the invariant holds, and every block's type has a factory whose destructor frees it and does
  -- no more, `block_del` answers true for a stopped block and removes it; it answers false for a
  -- started block and for an unknown identifier and leaves its status; no other identifier changes
  -- its status.
  pub block_del-Moves :
      (v : Vtable S E) (id : ℤ) (w : World S E)
      → Inv w
      → ((p : ℕ) (b : Block S)
          → w.heap p ≡ some b
          → (f : ℕ) × (UnorderedMap.find b.type_name w.mgr.bk_factory ≡ some f) × Destroys v f p w)
      → Moves id (block_del v id) w (is_stopped (status id w)) (after_del (status id w))
  unfolding block_del block_get
  block_del-Moves v id w i typed = elim (Option-cases (UnorderedMap.find id w.mgr.bk_map)) [
    | inl missing ↦
        let is_now = status-missing w id missing in
        subst (λ s. Moves id (block_del v id) w (is_stopped s) (after_del s)) (sym is_now)
          (w, rw missing, is_now, λ j _. refl)
    | inr (p, found) ↦
        let (b, live, is) = i.registered id p found in
        let (f, known, frees) = typed p b live in
        let (w', e, moved, others) = delete_block-Moves v id p f w b i frees found live is known in
        (w', rw found e, moved, others)
  ]
