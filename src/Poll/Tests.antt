-- ===== src/Poll/Tests.antt =====
-- Examples of the descriptors: a table of two, and methods that write each callback down.
use c3qo.Base.{inr, ◌≡◌, refl, true, false, none, some, List, [], ◌∷◌, ◌++◌, ℤ, pos, ℕ, arith}
use c3qo.World.{FileDesc, Events, Manager, World, Vtable, ok, fault, bad_iterator}
use c3qo.World.Idle.{idle}
use c3qo.Poll.{fd_find, register, unregister, poll_loop, fd_remove, find_from}
use c3qo.Poll.Table.{entry_of}
use c3qo.Poll.Valid.{HasTable}
use c3qo.Poll.Lookup.{find_item, find_callback, register-lookup, unregister-lookup}
use c3qo.Poll.Dispatch.{ready, Reports, poll_loop-fires, poll_loop-stale}

abbrev descriptor : ℕ → ℤ → FileDesc
descriptor bk fd = record { bk = some bk; fd = fd; socket = none; read = true; write = false }

abbrev first : FileDesc
first = descriptor 4 (pos 3)

abbrev second : FileDesc
second = descriptor 5 (pos 6)

-- The key of `first`, for another block and other events.
abbrev again : FileDesc
again = record first { bk = some 9; write = true }

abbrev manager : Manager
manager = record {
  is_term = false;
  bk_factory = [];
  bk_map = [];
  tm_list = [];
  callback = first ∷ second ∷ [];
  fd = entry_of first ∷ entry_of second ∷ [];
  epoch = 2;
}

manager-HasTable : HasTable manager
manager-HasTable = record {
  aligned = (refl, refl, (refl, refl, tt));
  distinct = ((refl, tt), (tt, tt));
  usable = ((λ h. cc, refl), ((λ h. cc, refl), tt));
}

register-lookup_example :
    (find_item (pos 3) none (register again manager).fd ≡ some (entry_of again))
    × (find_callback (pos 3) none (register again manager).callback ≡ some first)
unfolding find_callback
register-lookup_example = register-lookup again manager manager-HasTable (pos 3) none

unregister-lookup_example :
    (find_item (pos 3) none (unregister first manager).fd ≡ none)
    × (find_callback (pos 3) none (unregister first manager).callback ≡ none)
unregister-lookup_example = unregister-lookup first manager manager-HasTable (pos 3) none

-- The state of the system is the list of the entries that were called back.
abbrev logging : Vtable (Unit {0}) (List FileDesc)
logging = record idle { on_fd = λ p c w. ok (tt, record w { env = w.env ++ c ∷ [] }) }

abbrev logged : World (Unit {0}) (List FileDesc) → List FileDesc
logged w = w.env

logging-Reports : Reports logging (λ _. Unit) logged
logging-Reports = record {
  fires = λ p c w r. (record w { env = w.env ++ c ∷ [] }, refl, refl, refl, tt);
}

abbrev world : World (Unit {0}) (List FileDesc)
world = record { mgr = manager; heap = λ _. none; heap_next = 0; env = [] }

abbrev events : List Events
events = record { pollin = false; pollout = false } ∷ record { pollin = true; pollout = false } ∷ []

poll_loop-fires_example :
    (w' : World (Unit {0}) (List FileDesc)) × (poll_loop logging
        (pos 1)
        2
        0
        manager.callback
        events
        world
      ≡ ok (tt, w'))
    × (w'.env ≡ [] ++ ready manager.callback events)
    × (w'.mgr.epoch ≡ 2)
    × Unit {0}
unfolding ready
poll_loop-fires_example =
    poll_loop-fires logging 2 (λ _. Unit) logged logging-Reports manager.callback events 1 0 world
      refl refl (omega arith) ((4, refl), ((5, refl), tt)) refl tt

-- The callback removes the entry that it is called for.
abbrev leaving : Vtable (Unit {0}) (List FileDesc)
leaving = record idle { on_fd = λ p c. fd_remove c }

poll_loop-stale_example :
    poll_loop leaving
      (pos 2)
      2
      0
      (first ∷ second ∷ [])
      (record { pollin = true; pollout = false } ∷ record { pollin = true; pollout = false } ∷ [])
      world
    ≡ fault bad_iterator
unfolding fd_remove fd_find find_from
poll_loop-stale_example =
    poll_loop-stale leaving 2 (pos 2) 0 first first (second ∷ [])
      (record { pollin = true; pollout = false }) (record { pollin = true; pollout = false } ∷ []) 4
      world (record world { mgr = unregister first manager }) refl refl refl refl
      (inr (0, refl, refl)) refl
