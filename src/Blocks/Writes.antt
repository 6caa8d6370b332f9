-- ===== src/Blocks/Writes.antt =====
-- Writes to the heap and to the map of the blocks that keep the invariant.
use mathlib.Core.Option.{none-ne-some}
use c3qo.Base.{
  eq_ℤ, eq_ℤ_iff, ℕ, ◌≡◌, ◌≢◌, sym, ◌∙◌, subst, false, Option, none, some, ℤ, int_eq, string_eq,
  arith, ◌==◌, Bool-cases, inl, inr,
}
use c3qo.UnorderedMap
use c3qo.World.{Block, World, update}
use c3qo.Invariant.{Inv}

apart : (p q : ℕ) {o : Option ℕ} → o ≢ some p → o ≡ some q → (p == q) ≡ false
apart p q h e = ground arith

module _ {S E : Type 0} where
  -- A write to a block that keeps its identifier.
  pub Inv-write :
      (w : World S E) (p : ℕ) (b c : Block S)
      → Inv w
      → w.heap p ≡ some b
      → c.id ≡ b.id
      → Inv (record w { heap = update w.heap p (some c) })
  Inv-write w p b c i live same = record {
    registered = λ id q found.
        let (b', at, is) = i.registered id q found in
        elim (Bool-cases (p == q)) [
          | inl hit ↦ (c, rw hit, ground arith)
          | inr miss ↦ (b', rw miss at, is)
        ];
    unused = λ q le.
        let none_there = i.unused q le in
        elim (Bool-cases (p == q)) [ inl hit ↦ ground arith | inr miss ↦ rw miss none_there ];
    timers = i.timers;
    table = i.table;
  }

  -- What an identifier other than `b.id` leads to is not the block of `b.id`.
  pub other_address :
      (w : World S E) (p q : ℕ) (b c : Block S)
      → w.heap p ≡ some b
      → w.heap q ≡ some c
      → b.id ≢ c.id
      → (p == q) ≡ false
  other_address w p q b c hp hq differ = elim (Bool-cases (p == q)) [
    | inl same ↦ absurd (differ (ground arith))
    | inr other ↦ other
  ]

  pub Inv-free :
      (w : World S E) (p : ℕ) (b : Block S)
      → Inv w
      → w.heap p ≡ some b
      → Inv (record w {
        heap = update w.heap p none;
        mgr = record w.mgr { bk_map = UnorderedMap.erase b.id w.mgr.bk_map };
      })
  Inv-free w p b i live = record {
    registered = λ id q found. elim (Bool-cases (eq_ℤ b.id id)) [
      | inl same ↦
          let e : b.id ≡ id = (eq_ℤ_iff b.id id).0 same in
          absurd (
            none-ne-some q (
              sym (UnorderedMap.find-erase_self b.id w.mgr.bk_map)
              ∙ subst (λ j. UnorderedMap.find j (UnorderedMap.erase b.id w.mgr.bk_map) ≡ some q)
                  (sym e) found))
      | inr other ↦
          let ne : id ≢ b.id = λ e. ground arith in
          let (c, at, is) =
            i.registered id q (sym (UnorderedMap.find-erase_ne id b.id w.mgr.bk_map ne) ∙ found) in
          (c, rw (other_address w p q b c live at (λ e. ne (sym (e ∙ is)))) at, is)
    ];
    unused = λ q le. let none_there = i.unused q le in ground arith;
    timers = i.timers;
    table = i.table;
  }

  -- A write to a block that no identifier leads to.
  pub Inv-unmapped :
      (w : World S E) (p : ℕ) (b c : Block S)
      → Inv w
      → w.heap p ≡ some b
      → ((j : ℤ) → UnorderedMap.find j w.mgr.bk_map ≢ some p)
      → Inv (record w { heap = update w.heap p (some c) })
  Inv-unmapped w p b c i live unmapped = record {
    registered = λ id q found.
        let (b', at, is) = i.registered id q found in
        (b', rw (apart p q (unmapped id) found) at, is);
    unused = λ q le. let none_there = i.unused q le in ground arith;
    timers = i.timers;
    table = i.table;
  }

  pub Inv-enter :
      (w : World S E) (id : ℤ) (p : ℕ) (b c : Block S)
      → Inv w
      → w.heap p ≡ some b
      → ((j : ℤ) → UnorderedMap.find j w.mgr.bk_map ≢ some p)
      → UnorderedMap.find id w.mgr.bk_map ≡ none
      → c.id ≡ id
      → Inv (record w {
        heap = update w.heap p (some c);
        mgr = record w.mgr { bk_map = UnorderedMap.insert id p w.mgr.bk_map };
      })
  Inv-enter w id p b c i live unmapped absent is = record {
    registered = λ j q found.
        let found' = sym (UnorderedMap.find-insert_new j id p w.mgr.bk_map absent) ∙ found in
        elim (Bool-cases (eq_ℤ j id)) [
          | inl same ↦ (c, ground arith, ground arith)
          | inr other ↦
              let there = rw other at found' in
              let (c', at, is') = i.registered j q there in
              (c', rw (apart p q (unmapped j) there) at, is')
        ];
    unused = λ q le. let none_there = i.unused q le in ground arith;
    timers = i.timers;
    table = i.table;
  }
