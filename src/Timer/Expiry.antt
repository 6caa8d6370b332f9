-- ===== src/Timer/Expiry.antt =====
-- `timer_check_exp`: which timers expire, in which order, and that the loop ends.
use mathlib.Core.List.{append_assoc, append-nil}
use c3qo.Base.{
  ℕ, zero, suc, ◌<◌, ◌≤◌, ◌≡◌, ◌≢◌, refl, sym, ap, ◌∙◌, true, false, some, List, [], ◌∷◌, ◌++◌, All,
  length, arith, if◌then◌else◌, Bool-cases, Option-cases, inl, inr,
}
use c3qo.World.{Timespec, Timer, World, Vtable, Result, null_pointer, ok, fault, out_of_fuel}
use c3qo.Timer.{lt_timespec, lt_timer, check_loop}
use c3qo.Timer.Order.{IsSorted, lt_timespec_trans}

unfoldable pub expired : Timespec → List Timer → List Timer
expired time [] = []
expired time (t ∷ l) =
    let rest = expired time l in if lt_timespec t.time time then t ∷ rest else rest

unfoldable pub pending : Timespec → List Timer → List Timer
pending time [] = []
pending time (t ∷ l) =
    let rest = pending time l in if lt_timespec t.time time then rest else t ∷ rest

abbrev pub HasBlock : Timer → Type 0
HasBlock t = (p : ℕ) × (t.bk ≡ some p)

-- In a sorted list, what follows a timer that has not expired has not expired.
expired-nil :
    (time : Timespec) (t : Timer) (l : List Timer)
    → lt_timespec t.time time ≡ false
    → All (λ y. lt_timer y t ≡ false) l
    → (expired time l ≡ []) × (pending time l ≡ l)
unfolding expired pending lt_timer
expired-nil time t [] h a = (refl, refl)
expired-nil time t (x ∷ l) h a =
    let late : lt_timespec x.time time ≡ false = lt_timespec_trans time t.time x.time h a.0 in
    let rest = expired-nil time t l h a.1 in
    (rw (late, expired) rest.0, rw (late, pending) (ap (◌∷◌ x) rest.1))

module _ {S E : Type 0} where
  abbrev pub set_timers : List Timer → World S E → World S E
  set_timers l w = record w { mgr = record w.mgr { tm_list = l } }

  -- The callbacks of a table report each timer once, and leave the list of timers alone.
  pub record Reports (v : Vtable S E) (Ready : World S E → Type 0) (log : World S E → List Timer)
      : Type 0 where
    pub fires :
        (p : ℕ) (t : Timer) (w : World S E)
        → Ready w
        → (w' : World S E) × (v.on_timer p t w ≡ ok (tt, w'))
          × (log w' ≡ log w ++ t ∷ [])
          × (w'.mgr.tm_list ≡ w.mgr.tm_list)
          × Ready w'
    pub log-set : (l : List Timer) (w : World S E) → log (set_timers l w) ≡ log w
    pub Ready-set : (l : List Timer) (w : World S E) → Ready w → Ready (set_timers l w)

module _ {S E : Type 0} (v : Vtable S E) (time : Timespec) where
  pub check_loop-nil :
      (n : ℕ) (w : World S E) → w.mgr.tm_list ≡ [] → check_loop (suc n) v time w ≡ ok (tt, w)
  unfolding check_loop
  check_loop-nil n w e = ground arith

  pub check_loop-pending :
      (n : ℕ) (w : World S E) (t : Timer) (l : List Timer)
      → w.mgr.tm_list ≡ t ∷ l
      → lt_timespec t.time time ≡ false
      → check_loop (suc n) v time w ≡ ok (tt, w)
  unfolding check_loop
  check_loop-pending n w t l e h = ground arith

  pub check_loop-expired :
      (n : ℕ) (w w' : World S E) (t : Timer) (l : List Timer) (p : ℕ)
      → w.mgr.tm_list ≡ t ∷ l
      → lt_timespec t.time time ≡ true
      → t.bk ≡ some p
      → v.on_timer p t (set_timers l w) ≡ ok (tt, w')
      → check_loop (suc n) v time w ≡ check_loop n v time w'
  unfolding check_loop
  check_loop-expired n w w' t l p e h b c = ground arith

  module _ (Ready : World S E → Type 0) (log : World S E → List Timer)
      (r : Reports v Ready log) where
    -- On a sorted list of timers that all have a block, with callbacks that return and leave the list
    -- alone: given one round more than there are timers, the loop ends, has reported the timers that
    -- expire before `time`, in the order of the list, and has left the others.
    pub check_loop-fires :
        (l : List Timer) (n : ℕ) (w : World S E)
        → w.mgr.tm_list ≡ l
        → IsSorted l
        → All HasBlock l
        → Ready w
        → length l < n
        → (w' : World S E) × (check_loop n v time w ≡ ok (tt, w'))
          × (log w' ≡ log w ++ expired time l)
          × (w'.mgr.tm_list ≡ pending time l)
          × Ready w'
    unfolding expired pending
    check_loop-fires l zero w e s b ready fuel = absurd (omega arith)
    check_loop-fires [] (suc n) w e s b ready fuel =
        (w, check_loop-nil n w e, sym (append-nil (log w)), e, ready)
    check_loop-fires (t ∷ l) (suc n) w e s b ready fuel =
        elim (Bool-cases (lt_timespec t.time time)) [
          | inl due ↦
              let (p, at) = b.0 in
              let (w1, called, logged, kept, ready1) =
                r.fires p t (set_timers l w) (r.Ready-set l w ready) in
              let (w2, ran, logs, left, ready2) =
                check_loop-fires l n w1 kept s.1 b.1 ready1 (omega arith) in
              (
                w2,
                check_loop-expired n w w1 t l p e due at called ∙ ran,
                rw (due, expired)
                    (logs
                      ∙ ap (λ x. x ++ expired time l)
                          (logged ∙ ap (λ x. x ++ t ∷ []) (r.log-set l w))
                      ∙ append_assoc (log w) (t ∷ []) (expired time l)),
                rw (due, pending) left,
                ready2,
              )
          | inr late ↦
              let rest = expired-nil time t l late s.0 in
              (
                w,
                check_loop-pending n w t l e late,
                rw (late, expired, rest.0) (sym (append-nil (log w))),
                rw (late, pending, rest.1) e,
                ready,
              )
        ]

-- The first timer of the list, if any, has not expired.
abbrev pub NoneDue : Timespec → List Timer → Type 0
NoneDue time [] = Unit
NoneDue time (t ∷ l) = lt_timespec t.time time ≡ false

module _ {S E : Type 0} (time : Timespec) where
  abbrev pub Ends : Result (Unit {0} × World S E) → Type 0
  Ends (ok (_, w)) = NoneDue time w.mgr.tm_list
  Ends (fault e) = e ≢ out_of_fuel

  -- The callbacks of a table return, and may add timers again, but none that has expired by `time`.
  pub record Rearms (v : Vtable S E) : Type 0 where
    pub returns : (p : ℕ) (t : Timer) (w : World S E) → v.on_timer p t w ≢ fault out_of_fuel
    pub rearms :
        (p : ℕ) (t : Timer) (w w' : World S E)
        → v.on_timer p t w ≡ ok (tt, w')
        → length (expired time w'.mgr.tm_list) ≤ length (expired time w.mgr.tm_list)

  module _ (v : Vtable S E) (r : Rearms v) where
    Ends-expired :
        (n : ℕ) (w : World S E) (t : Timer) (l : List Timer) (p : ℕ)
        → ((w' : World S E)
            → length (expired time w'.mgr.tm_list) < n
            → Ends (check_loop n v time w'))
        → w.mgr.tm_list ≡ t ∷ l
        → lt_timespec t.time time ≡ true
        → t.bk ≡ some p
        → length (expired time l) < n
        → (res : Result (Unit {0} × World S E)) → v.on_timer p t (set_timers l w) ≡ res
        → Ends (check_loop (suc n) v time w)
    unfolding check_loop
    Ends-expired n w t l p ih e due at h (ok (tt, w')) c =
        rw (check_loop-expired v time n w w' t l p e due at c)
          (ih w' (omega (arith, r.rearms p t (set_timers l w) w' c)))
    Ends-expired n w t l p ih e due at h (fault x) c =
        let stops : check_loop (suc n) v time w ≡ fault x = ground arith in
        rw stops (λ k. r.returns p t (set_timers l w) (c ∙ ap fault k))

    Ends-step :
        (n : ℕ) (w : World S E) (l : List Timer)
        → ((w' : World S E)
            → length (expired time w'.mgr.tm_list) < n
            → Ends (check_loop n v time w'))
        → w.mgr.tm_list ≡ l
        → length (expired time l) < suc n
        → Ends (check_loop (suc n) v time w)
    unfolding check_loop expired
    Ends-step n w [] ih e h = rw (check_loop-nil v time n w e) (rw e tt)
    Ends-step n w (t ∷ l) ih e h = elim (Bool-cases (lt_timespec t.time time)) [
      | inr late ↦ rw (check_loop-pending v time n w t l e late) (rw e late)
      | inl due ↦ elim (Option-cases t.bk) [
        | inl null ↦
            let stops : check_loop (suc n) v time w ≡ fault null_pointer = ground arith in
            rw stops (λ k. cc)
        | inr (p, at) ↦
            Ends-expired n w t l p ih e due at (ground arith) (v.on_timer p t (set_timers l w)) refl
      ]
    ]

    -- Where callbacks return, or fail otherwise than by a lack of fuel, and do not add to the number
    -- of expired timers: given one round more than there are expired timers, the loop ends with a
    -- first timer that has not expired, or with no timer, or by a fault that is no lack of fuel.
    pub check_loop-Ends :
        (n : ℕ) (w : World S E)
        → length (expired time w.mgr.tm_list) < n
        → Ends (check_loop n v time w)
    check_loop-Ends zero w h = absurd (omega arith)
    check_loop-Ends (suc n) w h =
        Ends-step n w w.mgr.tm_list (λ w' k. check_loop-Ends n w' k) refl h
