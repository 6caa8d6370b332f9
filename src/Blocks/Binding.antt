-- ===== src/Blocks/Binding.antt =====
-- engine/src/manager_bk.cpp, `block_bind`: the sink of a block, by identifier.
use c3qo.Base.{
  ℕ, ◌≡◌, ◌≢◌, refl, sym, ap, ◌∙◌, Bool, true, false, Option, none, some, ℤ, Ptr, int_eq, string_eq,
  arith, Option-cases, inl, inr, ◌==◌, ==_iff, Bool-cases,
}
use c3qo.UnorderedMap
use c3qo.World.{Block, World, Vtable, ok, update, modify_block}
use c3qo.World.Keeps.{bind-ok, write-live}
use c3qo.Blocks.{block_bind, block_get, bind_block}
use c3qo.Blocks.Status.{status, status-same, status_of-same}
use c3qo.Blocks.Writes.{other_address}
use c3qo.Invariant.{Inv}

-- What `block_bind` answers, by the two addresses, and the sink of the source.
abbrev pub both_known : Ptr → Ptr → Bool
both_known (some p) (some q) = true
both_known _ _ = false

abbrev pub after_bind : Ptr → Ptr → Ptr → Ptr
after_bind (some p) (some q) before = some q
after_bind _ _ before = before

abbrev pub sink_at : {S : Type 0} → Option (Block S) → Ptr
sink_at none = none
sink_at (some b) = b.sink

module _ {S E : Type 0} where
  -- The address of an identifier, and the sink of its block.
  abbrev pub address : ℤ → World S E → Ptr
  address id w = UnorderedMap.find id w.mgr.bk_map

  abbrev pub sink_from : World S E → Ptr → Ptr
  sink_from w none = none
  sink_from w (some p) = sink_at (w.heap p)

  pub sink : ℤ → World S E → Ptr
  sink id w = sink_from w (address id w)

  -- `bind_` as `struct block` has it, which no block of the repository overrides.
  abbrev pub BindsNothing : Vtable S E → Type 0
  BindsNothing v =
      (p : ℕ) (port : ℤ) (q : ℕ) (w : World S E) (b : Block S)
      → w.heap p ≡ some b
      → v.bind p port q w ≡ ok (tt, w)

  module _ (v : Vtable S E) (src port dst : ℤ) (w : World S E) (i : Inv w)
      (plain : BindsNothing v) where
    -- Where the invariant holds and the blocks' own `bind_` does nothing: `block_bind` answers true
    -- exactly if both identifiers are known, and the destination's block is then the sink of the
    -- source; it changes the sink of no other identifier, and the status of none.
    pub block_bind-sink :
        (w' : World S E) × (block_bind v src port dst w
          ≡ ok (both_known (address src w) (address dst w), w'))
        × (sink src w' ≡ after_bind (address src w) (address dst w) (sink src w))
        × ((j : ℤ) → j ≢ src → sink j w' ≡ sink j w)
        × ((j : ℤ) → status j w' ≡ status j w)
    unfolding block_bind block_get bind_block sink
    block_bind-sink = elim (Option-cases (address src w)) [
      | inl missing ↦ (w, rw missing refl, rw missing refl, λ j _. refl, λ j. refl)
      | inr (p, from) ↦ elim (Option-cases (address dst w)) [
        | inl missing ↦
            (w, rw (from, missing) refl, rw (from, missing) refl, λ j _. refl, λ j. refl)
        | inr (q, to) ↦
            let (b, live, is) = i.registered src p from in
            let c : Block S = record b { sink = some q } in
            let w1 : World S E = record w { heap = update w.heap p (some c) } in
            let self : (p == p) ≡ true = ground arith in
            (
              w1,
              rw (from, to)
                  (bind-ok (modify_block p _) _ w tt w1 (write-live p w _ b live)
                    ∙ bind-ok (v.bind p port q) _ w1 tt w1 (plain p port q w1 c (rw self refl))),
              rw (from, to, self) refl,
              λ j ne. elim (Option-cases (address j w)) [
                | inl missing ↦ rw missing refl
                | inr (r, at) ↦
                    let (d, live', is') = i.registered j r at in
                    let miss =
                      other_address w p r b d live live' (λ e. ne (sym is' ∙ sym e ∙ is)) in
                    rw (at, miss) refl
              ],
              λ j. status-same w w1 j refl (λ r at. elim (Bool-cases (p == r)) [
                | inl hit ↦
                    let here : w.heap r ≡ some b = ap w.heap (sym ((==_iff p r).0 hit)) ∙ live in
                    rw (hit, here) (status_of-same c b refl)
                | inr miss ↦ rw miss refl
              ]),
            )
      ]
    ]
