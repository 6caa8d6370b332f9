-- ===== src/Poll.antt =====
-- engine/src/manager_fd.cpp: the descriptors and sockets of the manager, in two vectors of one
-- length, and the loop that calls the blocks back. An index is a number, which fits an `int`.
-- `revents` is the list that `zmq_poll` returns: no callback polls again.
pub mod Table
pub mod Valid
pub mod Lookup
pub mod RoundTrip
pub mod Dispatch
mod Tests
use c3qo.Base.{
  ℕ, zero, suc, ◌-◌, Bool, true, false, ◌&&◌, ◌||◌, none, some, List, [], ◌∷◌, ◌++◌, ℤ, pos, negsuc,
  eq_ℤ, ltb_ℤ, Ptr, eq_ptr, length, erase_idx, if◌then◌else◌, ◌==◌,
}
use c3qo.World.{
  FileDesc, Events, PollItem, Manager, Vtable, M, ok, fault, pure, bad_iterator, out_of_range,
  modify_mgr, gets, fail, not_null, ◌>>=◌, ◌>>◌, Sys, call,
}

abbrev pub modify_at {ℓ} : {A : Type ℓ} → List A → ℕ → (A → A) → List A
modify_at [] i f = []
modify_at (x ∷ l) zero f = f x ∷ l
modify_at (x ∷ l) (suc i) f = x ∷ modify_at l i f

-- the test in the loop of `fd_find`
abbrev pub is_entry : ℤ → Ptr → PollItem → Bool
is_entry fd socket entry = eq_ℤ entry.fd fd && eq_ptr entry.socket socket

unfoldable pub find_from : ℕ → ℤ → Ptr → List PollItem → ℤ
find_from i fd socket [] = negsuc 0
find_from i fd socket (entry ∷ l) =
    if is_entry fd socket entry then pos i else find_from (suc i) fd socket l

unfoldable pub fd_find : ℤ → Ptr → List PollItem → ℤ
unfolding find_from
fd_find fd socket l = find_from 0 fd socket l

-- `new_fd`, with the flags that are reset after it is stored
abbrev pub new_item : FileDesc → PollItem
new_item d = record {
  socket = d.socket;
  fd = d.fd;
  events = record { pollin = false; pollout = false };
}

abbrev pub mask : FileDesc → Events
mask d = record { pollin = d.read; pollout = d.write }

unfoldable pub store_entry : FileDesc → Manager → ℤ → Manager × ℕ
store_entry d m (pos i) = (m, i)
store_entry d m (negsuc _) = (
  record m { callback = m.callback ++ d ∷ []; fd = m.fd ++ new_item d ∷ []; epoch = suc m.epoch },
  length (m.fd ++ new_item d ∷ []) - 1,
)

-- `fd_add` behind the tests of its argument
unfoldable pub register : FileDesc → Manager → Manager
unfolding store_entry fd_find
register d m =
    let (m', index) = store_entry d m (fd_find d.fd d.socket m.fd) in
    record m' { fd = modify_at m'.fd index (λ item. record item { events = mask d }) }

unfoldable pub erase_at : Manager → ℤ → Manager
erase_at m (negsuc _) = m
erase_at m (pos i) = record m {
  callback = erase_idx m.callback i;
  fd = erase_idx m.fd i;
  epoch = suc m.epoch;
}

unfoldable pub unregister : FileDesc → Manager → Manager
unfolding erase_at fd_find
unregister d m = erase_at m (fd_find d.fd d.socket m.fd)

-- the test of `revents`
abbrev pub is_ready : Events → Bool
is_ready e = e.pollin || e.pollout

module _ {S E : Type 0} where
  unfoldable pub fd_add : FileDesc → M S E Bool
  fd_add d = elim d.bk [
    | none ↦ pure false
    | some _ ↦
        if ltb_ℤ d.fd (pos 0) && eq_ptr d.socket none
        then pure false
        else (do modify_mgr (register d); pure true)
  ]

  unfoldable pub fd_remove : FileDesc → M S E (Unit {0})
  fd_remove d = modify_mgr (unregister d)

  -- The range-based loop over `fd_` moves its iterator on and compares it with the end that it took
  -- first, and `cb_it` moves along. A `push_back` and an `erase` each make that end invalid, so that
  -- no change may lie between the start of the loop and such a step.
  unfoldable pub check_epoch : ℕ → M S E (Unit {0})
  check_epoch epoch w = if w.mgr.epoch == epoch then ok (tt, w) else fault bad_iterator

  -- The loop over `fd_`, from the entries that are left, `count` callbacks done.
  unfoldable pub poll_loop : Vtable S E → ℤ → ℕ → ℕ → List FileDesc → List Events → M S E (Unit {0})
  poll_loop v ret epoch count cbs [] = pure tt
  poll_loop v ret epoch count [] (e ∷ es) = fail out_of_range
  poll_loop v ret epoch count (c ∷ cs) (e ∷ es) = elim (is_ready e) [
    | true ↦ do
      v.on_fd (← not_null c.bk) c
      elim (eq_ℤ (pos (suc count)) ret) [
        | true ↦ pure tt
        | false ↦ do check_epoch epoch; poll_loop v ret epoch (suc count) cs es
      ]
    | false ↦ elim (eq_ℤ (pos count) ret) [
      | true ↦ pure tt
      | false ↦ do check_epoch epoch; poll_loop v ret epoch count cs es
    ]
  ]

  unfoldable pub fd_poll : Sys E → Vtable S E → M S E ℤ
  fd_poll sys v = do
    items ← gets (λ w. w.mgr.fd)
    (ret, revents) ← call (sys.zmq_poll items 10)
    callbacks ← gets (λ w. w.mgr.callback)
    epoch ← gets (λ w. w.mgr.epoch)
    elim (eq_ℤ ret (negsuc 0)) [
      | true ↦ pure (negsuc 0)
      | false ↦ elim (eq_ℤ ret (pos 0)) [
        | true ↦ pure ret
        | false ↦ do poll_loop v ret epoch 0 callbacks revents; pure ret
      ]
    ]
