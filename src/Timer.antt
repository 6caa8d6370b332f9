-- ===== src/Timer.antt =====
-- engine/src/manager_tm.cpp: the timers of the manager, a list sorted by date of expiry.
-- The list functions are those of `std::forward_list`; its `sort` is stable.
pub mod Order
pub mod Date
pub mod Queue
pub mod Expiry
mod Tests
use c3qo.Base.{
  ℕ, zero, suc, Bool, true, false, none, some, List, [], ◌∷◌, ℤ, ◌+ℤ◌, ltb_ℤ, eq_ℤ, quot_ℤ, rem_ℤ,
  if◌then◌else◌,
}
use c3qo.World.{
  Timespec, Timer, Vtable, M, ok, fault, pure, out_of_fuel, modify_mgr, not_null, ◌>>=◌, ◌>>◌, Sys,
  call,
}

-- `NSEC_MAX`
abbrev pub nsec_max : ℕ
nsec_max = 1000000000

-- `operator<` on `struct timespec`
unfoldable pub lt_timespec : Timespec → Timespec → Bool
lt_timespec a b =
    if ltb_ℤ a.tv_sec b.tv_sec
    then true
    else if eq_ℤ a.tv_sec b.tv_sec
    then ltb_ℤ a.tv_nsec b.tv_nsec
    else false

-- `operator==` on `struct timer`
unfoldable pub eq_timer : Timer → Timer → Bool
eq_timer a b = eq_ℤ a.tid b.tid

-- `operator<` on `struct timer`
unfoldable pub lt_timer : Timer → Timer → Bool
unfolding lt_timespec
lt_timer a b = lt_timespec a.time b.time

-- `tm_list_.remove(tm)`
unfoldable pub remove : Timer → List Timer → List Timer
unfolding eq_timer
remove t [] = []
remove t (x ∷ l) = let rest = remove t l in if eq_timer x t then rest else x ∷ rest

unfoldable pub insert : Timer → List Timer → List Timer
unfolding lt_timer
insert t [] = t ∷ []
insert t (x ∷ l) = let rest = insert t l in if lt_timer x t then x ∷ rest else t ∷ x ∷ l

-- `tm_list_.sort()`
unfoldable pub sort : List Timer → List Timer
unfolding insert
sort [] = []
sort (t ∷ l) = insert t (sort l)

-- The date at which a timer expires, from the time at which it is added.
unfoldable pub expiry_date : Timespec → Timer → Timer
expiry_date now tm =
    let sec = now.tv_sec +ℤ tm.time.tv_sec in
    let nsec = now.tv_nsec +ℤ tm.time.tv_nsec in
    record tm {
      time = record { tv_sec = sec +ℤ quot_ℤ nsec nsec_max; tv_nsec = rem_ℤ nsec nsec_max };
    }

-- What `timer_add` does to the list.
unfoldable pub schedule : Timer → List Timer → List Timer
unfolding remove sort
schedule t l = sort (t ∷ remove t l)

module _ {S E : Type 0} where
  unfoldable pub timer_add : Sys E → Timer → M S E Bool
  timer_add sys tm = elim tm.bk [
    | none ↦ pure false
    | some _ ↦ do
      now ← call sys.clock_gettime
      modify_mgr (λ m. record m { tm_list = schedule (expiry_date now tm) m.tm_list })
      pure true
  ]

  unfoldable pub timer_del : Timer → M S E (Unit {0})
  timer_del tm = modify_mgr (λ m. record m { tm_list = remove tm m.tm_list })

  unfoldable pub timer_clear : M S E (Unit {0})
  timer_clear = modify_mgr (λ m. record m { tm_list = [] })

  -- The loop of `timer_check_exp`, a round for each unit of fuel.
  unfoldable pub check_loop : ℕ → Vtable S E → Timespec → M S E (Unit {0})
  unfolding lt_timespec
  check_loop zero v time w = fault out_of_fuel
  check_loop (suc n) v time w = elim w.mgr.tm_list [
    | [] ↦ ok (tt, w)
    | timer ∷ rest ↦ elim (lt_timespec timer.time time) [
      | true ↦
          (do
            modify_mgr (λ m. record m { tm_list = rest })
            v.on_timer (← not_null timer.bk) timer
            check_loop n v time)
            w
      | false ↦ ok (tt, w)
    ]
  ]

  unfoldable pub timer_check_exp : ℕ → Sys E → Vtable S E → M S E (Unit {0})
  timer_check_exp n sys v = do time ← call sys.clock_gettime; check_loop n v time
