-- ===== src/Invariant.antt =====
-- The invariant of the whole engine, and what it asks of the virtual methods: manager.hpp.
pub mod Calls
pub mod Rules
use c3qo.Base.{ℕ, ◌≤◌, ◌≡◌, ◌≢◌, Option, none, some, ℤ, Ptr, String, int_eq}
use c3qo.UnorderedMap
use c3qo.World.{Block, World, Vtable, Timer, FileDesc, Message, update}
use c3qo.World.Keeps.{Post, Keeps}
use c3qo.Timer.Queue.{IsQueue}
use c3qo.Poll.Valid.{HasTable}

module _ {S E : Type 0} where
  -- Each identifier of the map leads to a live block that has it; the timers are sorted, one to an
  -- identifier; the two vectors of `fd_poll` are aligned; addresses from `heap_next` on are unused.
  pub record Inv (w : World S E) : Type 0 where
    pub registered :
        (id : ℤ) (p : ℕ)
        → UnorderedMap.find id w.mgr.bk_map ≡ some p
        → (b : Block S) × (w.heap p ≡ some b) × (b.id ≡ id)
    pub unused : (p : ℕ) → w.heap_next ≤ p → w.heap p ≡ none
    pub timers : IsQueue w.mgr.tm_list
    pub table : HasTable w.mgr

  -- What a constructor returns: no block, or a live one that no identifier leads to.
  abbrev pub Made : Ptr → World S E → Type 0
  Made none w = Unit
  Made (some p) w =
      (b : Block S) × (w.heap p ≡ some b) × ((id : ℤ) → UnorderedMap.find id w.mgr.bk_map ≢ some p)

  -- Virtual methods that keep the invariant. A destructor only frees its block.
  pub record Respects (v : Vtable S E) : Type 0 where
    pub constructor :
        (f : ℕ) (w : World S E)
        → Inv w
        → Post (λ made w'. Made made w' × Inv w') (v.constructor f w)
    pub destructor :
        (f p : ℕ) (w : World S E)
        → Inv w
        → Post (λ _ w'. w' ≡ record w { heap = update w.heap p none }) (v.destructor f p w)
    pub bind : (p : ℕ) (port : ℤ) (q : ℕ) → Keeps Inv (v.bind p port q)
    pub start : (p : ℕ) → Keeps Inv (v.start p)
    pub stop : (p : ℕ) → Keeps Inv (v.stop p)
    pub on_timer : (p : ℕ) (t : Timer) → Keeps Inv (v.on_timer p t)
    pub on_fd : (p : ℕ) (d : FileDesc) → Keeps Inv (v.on_fd p d)
    pub on_data : (p : ℕ) (m : Message) → Keeps Inv (v.on_data p m)
    pub on_ctrl : (p : ℕ) (m : Message) → Keeps Inv (v.on_ctrl p m)
