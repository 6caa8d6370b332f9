-- ===== src/Timer/Date.antt =====
-- Dates against the clock: `expiry_date` and `operator<` read as numbers of nanoseconds.
use c3qo.Base.{
  ◌⊎◌, ◌≢◌, ◌%◌, one_part_zero, ℕ, ◌+◌, ◌-◌, ◌*◌, ◌^◌, ◌≡◌, ◌↔◌, true, ℤ, pos, negsuc, pos_part,
  neg_part, sub_ℕ, ◌+ℤ◌, ◌≤ℤ◌, ◌<ℤ◌, quot_ℤ, rem_ℤ, arith, int_laws,
}
use c3qo.World.{Timespec, Timer}
use c3qo.Timer.{nsec_max, lt_timespec, expiry_date}

abbrev pub scale : ℤ → ℕ → ℤ
scale a k = sub_ℕ (pos_part a * k) (neg_part a * k)

-- The nanoseconds since the epoch that a date stands for.
pub instant : Timespec → ℤ
instant t = scale t.tv_sec nsec_max +ℤ t.tv_nsec

-- The nanoseconds are in range and positive.
abbrev pub IsNormal : Timespec → Type 0
IsNormal t = (pos 0 ≤ℤ t.tv_nsec) × (t.tv_nsec <ℤ pos nsec_max)

scale_parts :
    (a : ℤ)
    → pos_part (scale a nsec_max) + neg_part a * nsec_max
      ≡ neg_part (scale a nsec_max) + pos_part a * nsec_max
scale_parts a = ground arith

wrap_parts :
    (a : ℤ)
    → pos_part (quot_ℤ a nsec_max) * nsec_max + pos_part (rem_ℤ a nsec_max) + neg_part a
      ≡ neg_part (quot_ℤ a nsec_max) * nsec_max + neg_part (rem_ℤ a nsec_max) + pos_part a
unfolding quot_ℤ rem_ℤ
wrap_parts (pos n) = ground arith
wrap_parts (negsuc n) = ground arith

-- The order in a form that `omega` reads: no case split is left.
lt_timespec-parts :
    (a b : Timespec)
    → (lt_timespec a b ≡ true) ↔ (
        (a.tv_sec <ℤ b.tv_sec)
        ⊎ ((a.tv_sec ≤ℤ b.tv_sec) × (b.tv_sec ≤ℤ a.tv_sec) × (a.tv_nsec <ℤ b.tv_nsec)))
unfolding lt_timespec
lt_timespec-parts a b = (λ h. ground arith, λ h. ground arith)

rem_parts :
    (a : ℤ)
    → (pos_part (rem_ℤ a nsec_max) ≡ pos_part a % nsec_max)
      × (neg_part (rem_ℤ a nsec_max) ≡ neg_part a % nsec_max)
unfolding rem_ℤ
rem_parts (pos n) = ground arith
rem_parts (negsuc n) = ground arith

-- On dates whose nanoseconds are in range, `operator<` compares the instants.
pub lt_timespec-instant :
    (a b : Timespec) → IsNormal a → IsNormal b → (lt_timespec a b ≡ true) ↔ (instant a <ℤ instant b)
unfolding instant
lt_timespec-instant a b ha hb = (
  λ h. omega (int_laws, scale_parts, (lt_timespec-parts a b).0 h),
  λ h. (lt_timespec-parts a b).1 (omega (int_laws, scale_parts)),
)

-- The date is the time of the call and the delay together, whatever their signs.
pub instant-expiry_date :
    (now : Timespec) (tm : Timer)
    → instant (expiry_date now tm).time ≡ instant now +ℤ instant tm.time
unfolding instant expiry_date
instant-expiry_date now tm = omega (int_laws, scale_parts, wrap_parts)

-- The nanoseconds of the date are in range when the nanoseconds of the clock and of the delay have
-- a sum that is not negative, and not in range when that sum is negative and no whole number of
-- seconds.
pub expiry_date-IsNormal :
    (now : Timespec) (tm : Timer)
    → let sum = now.tv_nsec +ℤ tm.time.tv_nsec in
      (pos 0 ≤ℤ sum → IsNormal (expiry_date now tm).time)
      × (neg_part sum % nsec_max ≢ 0 → ¬ IsNormal (expiry_date now tm).time)
unfolding expiry_date
expiry_date-IsNormal now tm = (
  λ h. omega (arith, rem_parts, one_part_zero (now.tv_nsec +ℤ tm.time.tv_nsec)),
  λ h k. h (omega (arith, rem_parts, one_part_zero (now.tv_nsec +ℤ tm.time.tv_nsec))),
)

-- The bounds of `long`, in which the source computes.
abbrev pub IsLong : ℤ → Type 0
IsLong a = (negsuc (2 ^ 63 - 1) ≤ℤ a) × (a <ℤ pos (2 ^ 63))

-- With the nanoseconds of the clock in range, the seconds of the clock and of the delay within 2^61
-- and the nanoseconds of the delay within 2^62, the two sums and the two fields of the date are in
-- the range of a 64-bit `long`.
pub expiry_date-IsLong :
    (now : Timespec) (tm : Timer)
    → IsNormal now
    → (negsuc (2 ^ 61) ≤ℤ now.tv_sec) × (now.tv_sec ≤ℤ pos (2 ^ 61))
    → (negsuc (2 ^ 61) ≤ℤ tm.time.tv_sec) × (tm.time.tv_sec ≤ℤ pos (2 ^ 61))
    → (negsuc (2 ^ 62) ≤ℤ tm.time.tv_nsec) × (tm.time.tv_nsec ≤ℤ pos (2 ^ 62))
    → IsLong (now.tv_sec +ℤ tm.time.tv_sec)
      × IsLong (now.tv_nsec +ℤ tm.time.tv_nsec)
      × IsLong (expiry_date now tm).time.tv_sec
      × IsLong (expiry_date now tm).time.tv_nsec
unfolding expiry_date
expiry_date-IsLong now tm n s d m = omega (int_laws, wrap_parts, rem_parts)
