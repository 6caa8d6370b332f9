-- ===== src/World/Heap.antt =====
-- Reads and writes through a block's address.
use c3qo.Base.{Bool, false, ℕ, suc, Option, none, some, ◌==◌, if◌then◌else◌, Ptr}
use c3qo.World.Monad.{Block, Manager, World, Fault, ok, fault, M, dangling, null_pointer, pure}

abbrev pub update : {A : Type 0} → (ℕ → Option A) → ℕ → Option A → ℕ → Option A
update f p v q = if p == q then v else f q

module _ {S E : Type 0} where
  abbrev pub fail : {A : Type 0} → Fault → M S E A
  fail e w = fault e

  abbrev pub gets : {A : Type 0} → (World S E → A) → M S E A
  gets f w = ok (f w, w)

  abbrev pub modify_mgr : (Manager → Manager) → M S E (Unit {0})
  modify_mgr f w = ok (tt, record w { mgr = f w.mgr })

  -- `bk->…`, a read
  unfoldable pub deref : ℕ → M S E (Block S)
  deref p w = elim (w.heap p) [ none ↦ fault dangling | some b ↦ ok (b, w) ]

  -- `bk->… = …`
  unfoldable pub modify_block : ℕ → (Block S → Block S) → M S E (Unit {0})
  modify_block p f w = elim (w.heap p) [
    | none ↦ fault dangling
    | some b ↦ ok (tt, record w { heap = update w.heap p (some (f b)) })
  ]

  -- a pointer that the source dereferences with no test
  abbrev pub not_null : Ptr → M S E ℕ
  not_null none = fail null_pointer
  not_null (some p) = pure p

  -- `new`: an address that was never used
  unfoldable pub alloc : Block S → M S E ℕ
  alloc b w = ok (
    w.heap_next,
    record w { heap = update w.heap w.heap_next (some b); heap_next = suc w.heap_next },
  )

  -- `delete`
  unfoldable pub free : ℕ → M S E (Unit {0})
  free p w = elim (w.heap p) [
    | none ↦ fault dangling
    | some b ↦ ok (tt, record w { heap = update w.heap p none })
  ]

  -- `if (p == nullptr) { … return false; }` before code that uses `p`
  abbrev pub or_false : Ptr → (ℕ → M S E Bool) → M S E Bool
  or_false none k = pure false
  or_false (some p) k = k p

  -- `if (p != nullptr) { … return false; }`
  abbrev pub false_unless_null : Ptr → M S E Bool → M S E Bool
  false_unless_null none m = m
  false_unless_null (some p) m = pure false
