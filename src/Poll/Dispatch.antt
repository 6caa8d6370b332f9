-- ===== src/Poll/Dispatch.antt =====
-- The callback loop of `fd_poll`: who is called, in which order, and when the iterators go bad.
use mathlib.Core.List.{append_assoc}
use c3qo.Base.{
  ℕ, suc, ◌+◌, ◌<◌, ◌≡◌, ◌≢◌, refl, sym, ap, ◌∙◌, true, false, some, List, [], ◌∷◌, ◌++◌, ℤ, pos,
  negsuc, ◌⊎◌, eq_ℤ, All, length, arith, if◌then◌else◌, Bool-cases, inl, inr, ==_iff, ◌==◌,
}
use c3qo.World.{Manager, FileDesc, Events, World, Vtable, ok, fault, bad_iterator}
use c3qo.Poll.{is_ready, poll_loop, check_epoch, fd_find, register, unregister}
use c3qo.Poll.Table.{register-new, unregister-some}

-- The callbacks whose entry is ready.
unfoldable pub ready : List FileDesc → List Events → List FileDesc
ready [] es = []
ready (c ∷ cs) [] = []
ready (c ∷ cs) (e ∷ es) = let rest = ready cs es in if is_ready e then c ∷ rest else rest

abbrev pub HasBlock : FileDesc → Type 0
HasBlock c = (p : ℕ) × (c.bk ≡ some p)

module _ {S E : Type 0} where
  -- The callbacks of a table report each entry once, and change neither vector's length.
  pub record Reports (v : Vtable S E) (Ready : World S E → Type 0) (log : World S E → List FileDesc)
      : Type 0 where
    pub fires :
        (p : ℕ) (c : FileDesc) (w : World S E)
        → Ready w
        → (w' : World S E) × (v.on_fd p c w ≡ ok (tt, w'))
          × (log w' ≡ log w ++ c ∷ [])
          × (w'.mgr.epoch ≡ w.mgr.epoch)
          × Ready w'

ready-hit :
    (c : FileDesc) (cs : List FileDesc) (e : Events) (es : List Events)
    → is_ready e ≡ true
    → ready (c ∷ cs) (e ∷ es) ≡ c ∷ ready cs es
unfolding ready
ready-hit c cs e es h = rw (h, ready)

length-zero : (l : List FileDesc) → length l ≡ 0 → l ≡ []
length-zero [] h = refl
length-zero (c ∷ l) h = absurd (omega arith)

module _ {S E : Type 0} (v : Vtable S E) (epoch : ℕ) where
  check_epoch-same : (w : World S E) → w.mgr.epoch ≡ epoch → check_epoch epoch w ≡ ok (tt, w)
  unfolding check_epoch
  check_epoch-same w e = rw ((==_iff w.mgr.epoch epoch).1 e)

  check_epoch-changed :
      (w : World S E) → w.mgr.epoch ≢ epoch → check_epoch epoch w ≡ fault bad_iterator
  unfolding check_epoch
  check_epoch-changed w h = elim (Bool-cases (w.mgr.epoch == epoch)) [
    | inl same ↦ absurd (h ((==_iff w.mgr.epoch epoch).0 same))
    | inr differs ↦ rw differs
  ]

  pub loop-last :
      (ret : ℤ) (count : ℕ) (c : FileDesc) (cs : List FileDesc) (e : Events) (es : List Events)
      (p : ℕ) (w w' : World S E)
      → is_ready e ≡ true
      → c.bk ≡ some p
      → v.on_fd p c w ≡ ok (tt, w')
      → eq_ℤ (pos (suc count)) ret ≡ true
      → poll_loop v ret epoch count (c ∷ cs) (e ∷ es) w ≡ ok (tt, w')
  unfolding poll_loop
  loop-last ret count c cs e es p w w' r at called stop = ground arith

  loop-ready :
      (ret : ℤ) (count : ℕ) (c : FileDesc) (cs : List FileDesc) (e : Events) (es : List Events)
      (p : ℕ) (w w' : World S E)
      → is_ready e ≡ true
      → c.bk ≡ some p
      → v.on_fd p c w ≡ ok (tt, w')
      → eq_ℤ (pos (suc count)) ret ≡ false
      → w'.mgr.epoch ≡ epoch
      → poll_loop v ret epoch count (c ∷ cs) (e ∷ es) w ≡ poll_loop v ret epoch (suc count) cs es w'
  unfolding poll_loop
  loop-ready ret count c cs e es p w w' r at called more same =
      ground (arith, check_epoch-same w' same)

  loop-skip :
      (ret : ℤ) (count : ℕ) (c : FileDesc) (cs : List FileDesc) (e : Events) (es : List Events)
      (w : World S E)
      → is_ready e ≡ false
      → eq_ℤ (pos count) ret ≡ false
      → w.mgr.epoch ≡ epoch
      → poll_loop v ret epoch count (c ∷ cs) (e ∷ es) w ≡ poll_loop v ret epoch count cs es w
  unfolding poll_loop
  loop-skip ret count c cs e es w r more same = ground (arith, check_epoch-same w same)

  loop-changed :
      (ret : ℤ) (count : ℕ) (c : FileDesc) (cs : List FileDesc) (e : Events) (es : List Events)
      (p : ℕ) (w w' : World S E)
      → is_ready e ≡ true
      → c.bk ≡ some p
      → v.on_fd p c w ≡ ok (tt, w')
      → eq_ℤ (pos (suc count)) ret ≡ false
      → w'.mgr.epoch ≢ epoch
      → poll_loop v ret epoch count (c ∷ cs) (e ∷ es) w ≡ fault bad_iterator
  unfolding poll_loop
  loop-changed ret count c cs e es p w w' r at called more differs =
      ground (arith, check_epoch-changed w' differs)

  -- What `fd_add` does with a new entry, or `fd_remove` with an entry that is there.
  abbrev pub Changes : FileDesc → Manager → Manager → Type 0
  Changes d m m' =
      ((fd_find d.fd d.socket m.fd ≡ negsuc 0) × (m' ≡ register d m))
      ⊎ ((k : ℕ) × (fd_find d.fd d.socket m.fd ≡ pos k) × (m' ≡ unregister d m))

  Changes-epoch : (d : FileDesc) (m m' : Manager) → Changes d m m' → m'.epoch ≡ suc m.epoch
  Changes-epoch d m m' (inl (new, is)) = rw (is, register-new d m new) refl
  Changes-epoch d m m' (inr (k, old, is)) = rw (is, unregister-some d m k old) refl

  -- A ready entry that is not the last one that `zmq_poll` counted is called back, and its callback
  -- leaves the manager as `fd_add` of a new entry or `fd_remove` of an entry that is there does:
  -- the loop of `fd_poll` then moves an iterator that the change made invalid.
  pub poll_loop-stale :
      (ret : ℤ) (count : ℕ) (c d : FileDesc) (cs : List FileDesc) (e : Events) (es : List Events)
      (p : ℕ) (w w' : World S E)
      → is_ready e ≡ true
      → c.bk ≡ some p
      → w.mgr.epoch ≡ epoch
      → v.on_fd p c w ≡ ok (tt, w')
      → Changes d w.mgr w'.mgr
      → eq_ℤ (pos (suc count)) ret ≡ false
      → poll_loop v ret epoch count (c ∷ cs) (e ∷ es) w ≡ fault bad_iterator
  poll_loop-stale ret count c d cs e es p w w' r at now called change more =
      let moved = Changes-epoch d w.mgr w'.mgr change in
      loop-changed ret count c cs e es p w w' r at called more (λ same. omega arith)

  module _ (Ready : World S E → Type 0) (log : World S E → List FileDesc)
      (r : Reports v Ready log) where
    -- Where callbacks return and do not change the vectors' length, every entry has a block, and
    -- `zmq_poll` has counted the entries that are ready, at least one: the loop calls back the block
    -- of each ready entry that is left once, in the order of the vector, and ends.
    pub poll_loop-fires :
        (cs : List FileDesc) (es : List Events) (k count : ℕ) (w : World S E)
        → length cs ≡ length es
        → count + length (ready cs es) ≡ k
        → count < k
        → All HasBlock cs
        → w.mgr.epoch ≡ epoch
        → Ready w
        → (w' : World S E) × (poll_loop v (pos k) epoch count cs es w ≡ ok (tt, w'))
          × (log w' ≡ log w ++ ready cs es)
          × (w'.mgr.epoch ≡ epoch)
          × Ready w'
    unfolding ready
    poll_loop-fires [] es k count w len total more b ep rd = absurd (omega arith)
    poll_loop-fires (c ∷ cs) [] k count w len total more b ep rd = absurd (omega arith)
    poll_loop-fires (c ∷ cs) (e ∷ es) k count w len total more b ep rd =
        elim (Bool-cases (is_ready e)) [
          | inr skip ↦
              let total' : count + length (ready cs es) ≡ k = rw (skip, ready) at total in
              let (w', ran, logs, ep', rd') =
                poll_loop-fires cs es k count w (omega arith) total' more b.1 ep rd in
              (
                w',
                loop-skip (pos k) count c cs e es w skip (ground arith) ep ∙ ran,
                rw (skip, ready) logs,
                ep',
                rd',
              )
          | inl hit ↦
              let (p, at) = b.0 in
              let (w1, called, logged, ep1, rd1) = r.fires p c w rd in
              let total' : count + length (c ∷ ready cs es) ≡ k = rw (hit, ready) at total in
              elim (Bool-cases (eq_ℤ (pos (suc count)) (pos k))) [
                | inl stop ↦ (
                  w1,
                  loop-last (pos k) count c cs e es p w w1 hit at called stop,
                  rw (hit, ready, length-zero (ready cs es) (ground arith)) logged,
                  ep1 ∙ ep,
                  rd1,
                )
                | inr further ↦
                    let (w2, ran, logs, ep2, rd2) =
                      poll_loop-fires cs es k (suc count) w1 (omega arith) (omega arith)
                        (ground arith) b.1 (ep1 ∙ ep) rd1 in
                    (
                      w2,
                      loop-ready (pos k) count c cs e es p w w1 hit at called further (ep1 ∙ ep)
                          ∙ ran,
                      logs
                          ∙ ap (λ x. x ++ ready cs es) logged
                          ∙ append_assoc (log w) (c ∷ []) (ready cs es)
                          ∙ ap (λ x. log w ++ x) (sym (ready-hit c cs e es hit)),
                      ep2,
                      rd2,
                    )
              ]
        ]
