-- ===== src/Timer/Order.antt =====
-- The two orders of manager_tm.cpp, and the sort that rests on them.
use mathlib.Core.List.{Perm}
use mathlib.Core.List.Perm
use c3qo.Base.{◌≡◌, refl, ap, ◌∙◌, true, false, List, [], ◌∷◌, All, arith, Bool-cases, inl, inr}
use c3qo.World.{Timespec, Timer}
use c3qo.Timer.{lt_timespec, lt_timer, insert, sort}

-- Each timer is followed by none that expires before it.
abbrev pub IsSorted : List Timer → Type 0
IsSorted [] = Unit
IsSorted (x ∷ l) = All (λ y. lt_timer y x ≡ false) l × IsSorted l

pub lt_timespec_irrefl : (a : Timespec) → lt_timespec a a ≡ false
unfolding lt_timespec
lt_timespec_irrefl a = ground arith

pub lt_timespec_asym : (a b : Timespec) → lt_timespec a b ≡ true → lt_timespec b a ≡ false
unfolding lt_timespec
lt_timespec_asym a b h = ground arith

-- `operator<` is a strict weak order, as `sort` demands.
pub lt_timespec_trans :
    (a b c : Timespec) → lt_timespec b a ≡ false → lt_timespec c b ≡ false → lt_timespec c a ≡ false
unfolding lt_timespec
lt_timespec_trans a b c h k = ground arith

pub All-trans :
    (t x : Timer) (l : List Timer)
    → lt_timer x t ≡ false
    → All (λ y. lt_timer y x ≡ false) l
    → All (λ y. lt_timer y t ≡ false) l
unfolding lt_timer
All-trans t x [] h a = tt
All-trans t x (y ∷ l) h a = (lt_timespec_trans t.time x.time y.time h a.0, All-trans t x l h a.1)

pub All-insert {ℓ} :
    (P : Timer → Type ℓ) (t : Timer) (l : List Timer) → P t → All P l → All P (insert t l)
unfolding insert
All-insert P t [] p a = (p, tt)
All-insert P t (x ∷ l) p a = elim (Bool-cases (lt_timer x t)) [
  | inl before ↦ rw (before, insert) (a.0, All-insert P t l p a.1)
  | inr after ↦ rw (after, insert) (p, a)
]

pub insert-IsSorted : (t : Timer) (l : List Timer) → IsSorted l → IsSorted (insert t l)
unfolding insert lt_timer
insert-IsSorted t [] s = (tt, tt)
insert-IsSorted t (x ∷ l) s = elim (Bool-cases (lt_timer x t)) [
  | inl before ↦
      rw (before, insert)
        (All-insert _ t l (lt_timespec_asym x.time t.time before) s.0, insert-IsSorted t l s.1)
  | inr after ↦ rw (after, insert) ((after, All-trans t x l after s.0), s)
]

pub sort-IsSorted : (l : List Timer) → IsSorted (sort l)
unfolding sort
sort-IsSorted [] = tt
sort-IsSorted (t ∷ l) = insert-IsSorted t (sort l) (sort-IsSorted l)

pub insert-perm : (t : Timer) (l : List Timer) → Perm (insert t l) (t ∷ l)
unfolding insert
insert-perm t [] = Perm.refl _
insert-perm t (x ∷ l) = elim (Bool-cases (lt_timer x t)) [
  | inl before ↦ rw (before, insert) (Perm.trans (Perm.cons x (insert-perm t l)) (Perm.swap t x l))
  | inr after ↦ rw (after, insert) (Perm.refl _)
]

pub sort-perm : (l : List Timer) → Perm (sort l) l
unfolding sort
sort-perm [] = Perm.refl _
sort-perm (t ∷ l) = Perm.trans (insert-perm t (sort l)) (Perm.cons t (sort-perm l))

insert-head : (t : Timer) (l : List Timer) → All (λ y. lt_timer y t ≡ false) l → insert t l ≡ t ∷ l
unfolding insert
insert-head t [] a = refl
insert-head t (x ∷ l) a = rw (a.0, insert)

-- Sorting a sorted list changes nothing.
pub sort-eq_of_sorted : (l : List Timer) → IsSorted l → sort l ≡ l
unfolding sort
sort-eq_of_sorted [] s = refl
sort-eq_of_sorted (t ∷ l) s = ap (insert t) (sort-eq_of_sorted l s.1) ∙ insert-head t l s.0
