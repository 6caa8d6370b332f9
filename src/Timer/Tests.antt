-- ===== src/Timer/Tests.antt =====
-- Examples of the timers: a queue of two, and a table of methods that writes each callback down.
use c3qo.Base.{
  ◌≡◌, ◌≤ℤ◌, ◌+ℤ◌, false, not, ◌&&◌, ◌≢◌, refl, some, none, List, [], ◌∷◌, ◌++◌, ℤ, pos, negsuc,
  length, ℕ, arith,
}
use c3qo.World.{Timespec, Timer, World, Vtable, ok}
use c3qo.World.Idle.{idle}
use c3qo.Timer.{lt_timespec, lt_timer, eq_timer, schedule, expiry_date, check_loop}
use c3qo.Timer.Date.{
  instant, IsNormal, IsLong, instant-expiry_date, expiry_date-IsNormal, expiry_date-IsLong,
}
use c3qo.Timer.Queue.{
  IsQueue, find_tid, those, is_before, is_other, schedule-those, find_tid-schedule,
}
use c3qo.Timer.Expiry.{expired, pending, Reports, check_loop-fires}

abbrev at : ℤ → Timespec
at s = record { tv_sec = s; tv_nsec = pos 5 }

abbrev timer : ℤ → ℤ → Timer
timer tid s = record { bk = some 4; time = at s; arg = none; tid = tid }

abbrev queue : List Timer
queue = timer (pos 1) (pos 10) ∷ timer (pos 2) (pos 20) ∷ []

queue-IsQueue : IsQueue queue
unfolding lt_timer lt_timespec eq_timer
queue-IsQueue = (((refl, tt), (tt, tt)), ((refl, tt), (tt, tt)))

abbrev late : Timer
late = timer (pos 1) (pos 30)

find_tid-schedule_example : find_tid (pos 1) (schedule late queue) ≡ some late
find_tid-schedule_example = find_tid-schedule (pos 1) late queue queue-IsQueue

schedule-those_example :
    schedule late queue
    ≡ those (λ y. is_other (pos 1) y && is_before (at (pos 30)) y) queue
      ++ late ∷ those (λ y. is_other (pos 1) y && not (is_before (at (pos 30)) y)) queue
schedule-those_example = schedule-those late queue queue-IsQueue

-- A delay of minus five seconds and 10 nanoseconds.
abbrev back : Timer
back = record {
  bk = some 4;
  time = record { tv_sec = negsuc 4; tv_nsec = negsuc 9 };
  arg = none;
  tid = pos 3;
}

instant-expiry_date_example :
    instant (expiry_date (at (pos 7)) late).time ≡ instant (at (pos 7)) +ℤ instant late.time
instant-expiry_date_example = instant-expiry_date (at (pos 7)) late

expiry_date-IsNormal_example :
    (pos 0 ≤ℤ negsuc 4 → IsNormal (expiry_date (at (pos 7)) back).time)
    × (◌≢◌ {A = ℕ} 5 0 → ¬ IsNormal (expiry_date (at (pos 7)) back).time)
unfolding ◌+ℤ◌
expiry_date-IsNormal_example = expiry_date-IsNormal (at (pos 7)) back

expiry_date-IsLong_example :
    IsLong (pos 7 +ℤ pos 30)
    × IsLong (pos 5 +ℤ pos 5)
    × IsLong (expiry_date (at (pos 7)) late).time.tv_sec
    × IsLong (expiry_date (at (pos 7)) late).time.tv_nsec
expiry_date-IsLong_example =
    expiry_date-IsLong (at (pos 7)) late (omega arith) (omega arith) (omega arith) (omega arith)

-- The state of the system is the list of the timers that were reported.
abbrev logging : Vtable (Unit {0}) (List Timer)
logging = record idle { on_timer = λ p t w. ok (tt, record w { env = w.env ++ t ∷ [] }) }

abbrev logged : World (Unit {0}) (List Timer) → List Timer
logged w = w.env

logging-Reports : Reports logging (λ _. Unit) logged
logging-Reports = record {
  fires = λ p t w r. (record w { env = w.env ++ t ∷ [] }, refl, refl, refl, tt);
  log-set = λ l w. refl;
  Ready-set = λ l w r. tt;
}

abbrev queued : World (Unit {0}) (List Timer)
queued = record {
  mgr = record {
    is_term = false;
    bk_factory = [];
    bk_map = [];
    tm_list = queue;
    callback = [];
    fd = [];
    epoch = 0;
  };
  heap = λ _. none;
  heap_next = 0;
  env = [];
}

check_loop-fires_example :
    (w' : World (Unit {0}) (List Timer)) × (check_loop 3 logging (at (pos 15)) queued ≡ ok (tt, w'))
    × (w'.env ≡ [] ++ expired (at (pos 15)) queue)
    × (w'.mgr.tm_list ≡ pending (at (pos 15)) queue)
    × Unit {0}
check_loop-fires_example =
    check_loop-fires logging (at (pos 15)) (λ _. Unit) logged logging-Reports queue 3 queued refl
      queue-IsQueue.0 ((4, refl), ((4, refl), tt)) tt (omega arith)

expired_count : length (expired (at (pos 15)) queue) ≡ 1
unfolding expired lt_timespec
expired_count = refl
