-- ===== src/Flow/Dangling.antt =====
-- engine/src/manager_bk.cpp, `block_del`: the sink and the timers that a removed block leaves, in
-- engine/src/block.cpp, `process_data_`, and engine/src/manager_tm.cpp, `timer_check_exp`.
use c3qo.Base.{
  ℕ, suc, ◌≡◌, ◌≢◌, true, false, none, some, List, ◌∷◌, Ptr, ap, ◌∙◌, ℤ, int_eq, string_eq, ◌==◌,
  arith,
}
use c3qo.UnorderedMap
use c3qo.World.{
  Block, World, Vtable, Message, Timer, Sys, M, not_null, ◌>>=◌, ◌>>◌, ok, fault, dangling, update,
}
use c3qo.Blocks.{block_del, block_get}
use c3qo.Blocks.Runs.{Destroys, delete_block-off}
use c3qo.Timer.{lt_timespec, timer_check_exp, check_loop}
use c3qo.World.Keeps.{bind-fault}
use c3qo.Flow.{process_data}
use c3qo.Flow.Route.{process_data-fault}

module _ {S E : Type 0} where
  -- A virtual call needs the object.
  pub record NeedsBlock (v : Vtable S E) : Type 0 where
    pub dies :
        (q : ℕ) (msg : Message) (w : World S E)
        → w.heap q ≡ none
        → v.on_data q msg w ≡ fault dangling
    pub timer_dies :
        (q : ℕ) (t : Timer) (w : World S E) → w.heap q ≡ none → v.on_timer q t w ≡ fault dangling

  -- A stopped block that is the sink of another can be removed, if its factory's destructor frees it
  -- and does no more, and this does not unbind it: where virtual calls need their object, every flow
  -- from that other block from then on uses the freed block.
  pub block_del-dangles :
      (v : Vtable S E) (id : ℤ) (s q f : ℕ) (msg : Message) (w : World S E) (b c : Block S)
      → Destroys v f q w
      → NeedsBlock v
      → UnorderedMap.find id w.mgr.bk_map ≡ some q
      → w.heap q ≡ some c
      → c.is_started ≡ false
      → UnorderedMap.find c.type_name w.mgr.bk_factory ≡ some f
      → w.heap s ≡ some b
      → b.sink ≡ some q
      → s ≢ q
      → (w' : World S E) × (block_del v id w ≡ ok (true, w'))
        × ((n : ℕ) → process_data (suc n) v msg s w' ≡ fault dangling)
  unfolding block_del block_get
  block_del-dangles v id s q f msg w b c frees needs found live off known source bound apart =
      let other : (q == s) ≡ false = ground arith in
      let self : (q == q) ≡ true = ground arith in
      let w' : World S E = record w {
        heap = update w.heap q none;
        mgr = record w.mgr { bk_map = UnorderedMap.erase id w.mgr.bk_map };
      } in
      (
        w',
        rw found (delete_block-off v id q f w c frees live off known),
        λ n.
            process_data-fault v msg n s w' b q (rw other source) bound dangling
              (needs.dies q msg w' (rw self)),
      )

  -- A stopped block can be removed, under the same conditions, while a timer of it is in the list,
  -- which it stays in: when this is the first to expire, the next check of the timers uses the freed
  -- block.
  pub block_del-timer_dangles :
      (v : Vtable S E) (sys : Sys E) (id : ℤ) (q f n : ℕ) (t : Timer) (l : List Timer)
      (w : World S E) (c : Block S)
      → Destroys v f q w
      → NeedsBlock v
      → UnorderedMap.find id w.mgr.bk_map ≡ some q
      → w.heap q ≡ some c
      → c.is_started ≡ false
      → UnorderedMap.find c.type_name w.mgr.bk_factory ≡ some f
      → w.mgr.tm_list ≡ t ∷ l
      → t.bk ≡ some q
      → lt_timespec t.time (sys.clock_gettime w.env).0 ≡ true
      → (w' : World S E) × (block_del v id w ≡ ok (true, w'))
        × (timer_check_exp (suc n) sys v w' ≡ fault dangling)
  unfolding block_del block_get timer_check_exp check_loop
  block_del-timer_dangles v sys id q f n t l w c frees needs found live off known timers at late =
      let self : (q == q) ≡ true = ground arith in
      let w' : World S E = record w {
        heap = update w.heap q none;
        mgr = record w.mgr { bk_map = UnorderedMap.erase id w.mgr.bk_map };
      } in
      let w1 : World S E = record w' {
        env = (sys.clock_gettime w.env).1;
        mgr = record w'.mgr { tm_list = l };
      } in
      (
        w',
        rw found (delete_block-off v id q f w c frees live off known),
        rw (timers, late)
            (ap (λ o. called o w1) at
              ∙ bind-fault (v.on_timer q t) _ w1 dangling (needs.timer_dies q t w1 (rw self))),
      )
    where
      called : Ptr → M S E (Unit {0})
      called o = do p ← not_null o; v.on_timer p t; check_loop n v (sys.clock_gettime w.env).0
