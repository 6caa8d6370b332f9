-- ===== src/Timer/Queue.antt =====
-- `timer_add` and `timer_del` as operations on a queue: sorted by date, one timer to an identifier.
use c3qo.Base.{
  ◌≡◌, refl, sym, ap, ◌∙◌, Bool, true, false, not, ◌&&◌, ◌||◌, ltb_ℤ, ◌++◌, Option, none, some,
  List, [], ◌∷◌, ℤ, eq_ℤ, All, arith, if◌then◌else◌, Bool-cases, inl, inr,
}
use c3qo.World.{Timer, Timespec}
use c3qo.Timer.{lt_timespec, lt_timer, eq_timer, remove, insert, sort, schedule}
use c3qo.Timer.Order.{IsSorted, insert-IsSorted, sort-eq_of_sorted, All-insert, All-trans}

-- The first timer of that identifier.
pub find_tid : ℤ → List Timer → Option Timer
find_tid j [] = none
find_tid j (x ∷ l) = if eq_ℤ x.tid j then some x else find_tid j l

abbrev pub IsAbsent : Timer → List Timer → Type 0
IsAbsent t l = All (λ y. eq_timer y t ≡ false) l

abbrev pub IsDistinct : List Timer → Type 0
IsDistinct [] = Unit
IsDistinct (x ∷ l) = IsAbsent x l × IsDistinct l

abbrev pub IsQueue : List Timer → Type 0
IsQueue l = IsSorted l × IsDistinct l

remove-IsAbsent : (t : Timer) (l : List Timer) → IsAbsent t (remove t l)
unfolding remove
remove-IsAbsent t [] = tt
remove-IsAbsent t (x ∷ l) = elim (Bool-cases (eq_timer x t)) [
  | inl same ↦ rw (same, remove) (remove-IsAbsent t l)
  | inr other ↦ rw (other, remove) (other, remove-IsAbsent t l)
]

All-remove {ℓ} : (P : Timer → Type ℓ) (t : Timer) (l : List Timer) → All P l → All P (remove t l)
unfolding remove
All-remove P t [] a = tt
All-remove P t (x ∷ l) a = elim (Bool-cases (eq_timer x t)) [
  | inl same ↦ rw (same, remove) (All-remove P t l a.1)
  | inr other ↦ rw (other, remove) (a.0, All-remove P t l a.1)
]

pub remove-IsQueue : (t : Timer) (l : List Timer) → IsQueue l → IsQueue (remove t l)
unfolding remove
remove-IsQueue t [] q = q
remove-IsQueue t (x ∷ l) q = elim (Bool-cases (eq_timer x t)) [
  | inl same ↦ rw (same, remove) (remove-IsQueue t l (q.0.1, q.1.1))
  | inr other ↦
      let rest : IsQueue (remove t l) = remove-IsQueue t l (q.0.1, q.1.1) in
      rw (other, remove) ((All-remove _ t l q.0.0, rest.0), (All-remove _ t l q.1.0, rest.1))
]

eq_timer_sym : (a b : Timer) → eq_timer a b ≡ false → eq_timer b a ≡ false
unfolding eq_timer
eq_timer_sym a b h = ground arith

insert-IsDistinct :
    (t : Timer) (l : List Timer) → IsAbsent t l → IsDistinct l → IsDistinct (insert t l)
unfolding insert
insert-IsDistinct t [] a d = (tt, tt)
insert-IsDistinct t (x ∷ l) a d = elim (Bool-cases (lt_timer x t)) [
  | inl before ↦
      rw (before, insert)
        (All-insert _ t l (eq_timer_sym x t a.0) d.0, insert-IsDistinct t l a.1 d.1)
  | inr after ↦ rw (after, insert) (a, d)
]

schedule-insert : (t : Timer) (l : List Timer) → IsQueue l → schedule t l ≡ insert t (remove t l)
unfolding schedule sort
schedule-insert t l q = ap (insert t) (sort-eq_of_sorted (remove t l) (remove-IsQueue t l q).0)

-- A timer that expires before a date, and one of another identifier.
abbrev pub is_before : Timespec → Timer → Bool
is_before d x =
    ltb_ℤ x.time.tv_sec d.tv_sec || (eq_ℤ x.time.tv_sec d.tv_sec && ltb_ℤ x.time.tv_nsec d.tv_nsec)

abbrev pub is_other : ℤ → Timer → Bool
is_other tid x = if eq_ℤ x.tid tid then false else true

-- The timers that pass a test, in their order.
unfoldable pub those : (Timer → Bool) → List Timer → List Timer
those test [] = []
those test (x ∷ l) = let rest = those test l in if test x then x ∷ rest else rest

lt_timer-is_before : (x t : Timer) → lt_timer x t ≡ is_before t.time x
unfolding lt_timer lt_timespec
lt_timer-is_before x t = ground arith

those-none :
    (test : Timer → Bool) (l : List Timer) → All (λ y. test y ≡ false) l → those test l ≡ []
unfolding those
those-none test [] a = refl
those-none test (x ∷ l) a = rw (a.0, those) (those-none test l a.1)

those-all :
    (test : Timer → Bool) (l : List Timer)
    → All (λ y. test y ≡ false) l
    → those (λ y. not (test y)) l ≡ l
unfolding those
those-all test [] a = refl
those-all test (x ∷ l) a = rw (a.0, those) (ap (λ r. x ∷ r) (those-all test l a.1))

those-remove :
    (test : Timer → Bool) (t : Timer) (l : List Timer)
    → those test (remove t l) ≡ those (λ y. is_other t.tid y && test y) l
unfolding those remove eq_timer
those-remove test t [] = refl
those-remove test t (x ∷ l) = elim (Bool-cases (eq_ℤ x.tid t.tid)) [
  | inl same ↦ rw (same, remove, those) (those-remove test t l)
  | inr other ↦ rw (other, remove, those) (rw (those-remove test t l))
]

All-is_before :
    (t : Timer) (l : List Timer)
    → All (λ y. lt_timer y t ≡ false) l
    → All (λ y. is_before t.time y ≡ false) l
All-is_before t [] a = tt
All-is_before t (x ∷ l) a = (sym (lt_timer-is_before x t) ∙ a.0, All-is_before t l a.1)

insert-those :
    (t : Timer) (l : List Timer)
    → IsSorted l
    → insert t l ≡ those (is_before t.time) l ++ t ∷ those (λ y. not (is_before t.time y)) l
unfolding insert those
insert-those t [] s = refl
insert-those t (x ∷ l) s = elim (Bool-cases (lt_timer x t)) [
  | inl before ↦
      let is : is_before t.time x ≡ true = sym (lt_timer-is_before x t) ∙ before in
      rw (before, is, insert, those) (ap (λ r. x ∷ r) (insert-those t l s.1))
  | inr after ↦
      let none_before = All-is_before t (x ∷ l) (after, All-trans t x l after s.0) in
      rw (after, insert, those-none _ (x ∷ l) none_before, those-all _ (x ∷ l) none_before) refl
]

-- On a sorted list with one timer to an identifier, `timer_add` leaves the timers of the other
-- identifiers that expire before the new one, the new one, and the timers of the other identifiers
-- that do not, each part in the order that it had.
pub schedule-those :
    (t : Timer) (l : List Timer)
    → IsQueue l
    → schedule t l
      ≡ those (λ y. is_other t.tid y && is_before t.time y) l
        ++ t ∷ those (λ y. is_other t.tid y && not (is_before t.time y)) l
schedule-those t l q =
    schedule-insert t l q
    ∙ insert-those t (remove t l) (remove-IsQueue t l q).0
    ∙ rw (those-remove (is_before t.time) t l, those-remove (λ y. not (is_before t.time y)) t l)
        refl

-- `timer_add` keeps a list sorted by date, with one timer to an identifier.
pub schedule-IsQueue : (t : Timer) (l : List Timer) → IsQueue l → IsQueue (schedule t l)
schedule-IsQueue t l q =
    let kept : IsQueue (remove t l) = remove-IsQueue t l q in
    rw (schedule-insert t l q) (
      insert-IsSorted t (remove t l) kept.0,
      insert-IsDistinct t (remove t l) (remove-IsAbsent t l) kept.1,
    )

pub find_tid-remove :
    (j : ℤ) (t : Timer) (l : List Timer)
    → find_tid j (remove t l) ≡ (if eq_ℤ t.tid j then none else find_tid j l)
unfolding find_tid remove
find_tid-remove j t [] = ground arith
find_tid-remove j t (x ∷ l) = ground (arith, find_tid-remove j t l)

find_tid-insert :
    (j : ℤ) (t : Timer) (l : List Timer)
    → IsAbsent t l
    → find_tid j (insert t l) ≡ (if eq_ℤ t.tid j then some t else find_tid j l)
unfolding find_tid insert eq_timer
find_tid-insert j t [] a = refl
find_tid-insert j t (x ∷ l) a = elim (Bool-cases (lt_timer x t)) [
  | inl before ↦ rw (before, insert) (ground (arith, find_tid-insert j t l a.1))
  | inr after ↦ rw (after, insert) refl
]

-- After `timer_add`, on a sorted list with one timer to an identifier, the identifier of the new
-- timer leads to it, whatever it led to before, and every other identifier to what it led to.
pub find_tid-schedule :
    (j : ℤ) (t : Timer) (l : List Timer)
    → IsQueue l
    → find_tid j (schedule t l) ≡ (if eq_ℤ t.tid j then some t else find_tid j l)
find_tid-schedule j t l q =
    rw (schedule-insert t l q) (
      find_tid-insert j t (remove t l) (remove-IsAbsent t l)
      ∙ ground (arith, find_tid-remove j t l))
