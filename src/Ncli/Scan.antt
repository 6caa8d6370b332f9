-- ===== src/Ncli/Scan.antt =====
-- app/src/ncli.cpp: the loops over the options, against the list of what `getopt` returns.
use c3qo.Base.{
  ℕ, zero, suc, ◌<◌, ◌≡◌, refl, sym, ap, subst, ◌∙◌, Bool, true, false, some, List, [], ◌∷◌, String,
  ℤ, negsuc, eq_ℤ, length, arith, ◌==◌,
}
use c3qo.World.{
  Block, World, Result, M, ok, fault, null_pointer, update, deref, pure, fail, ◌>>=◌, ◌>>◌,
}
use c3qo.World.Keeps.{update_twice, update_same, bind-ok, deref-live, write-live}
use c3qo.Classes.{Class, CharPtr, Ncli, ncli, ncli_at, edit_ncli}
use c3qo.Ncli.Options.{Shell, Taken, set, unknown, null_argument, option_loop}

abbrev pub Opt : Type 0
Opt = ℤ × CharPtr

-- The calls of `getopt` from a state on: the options that they return, up to -1, and the last state.
pub data Yields {E : Type 0} (sh : Shell E) (argv : List String) (options : String)
    : E → List Opt → E → Type 0 where
  ends :
      {e e1 : E} (arg : CharPtr)
      → sh.getopt argv options e ≡ ((negsuc 0, arg), e1)
      → Yields sh argv options e [] e1
  gives :
      {e e1 e2 : E} {l : List Opt} (opt : ℤ) (arg : CharPtr)
      → sh.getopt argv options e ≡ ((opt, arg), e1)
      → eq_ℤ opt (negsuc 0) ≡ false
      → Yields sh argv options e1 l e2
      → Yields sh argv options e ((opt, arg) ∷ l) e2

-- The `switch` on each option in turn.
unfoldable pub take_all : (ℤ → CharPtr → Ncli → Taken) → List Opt → Ncli → Taken
take_all take [] c = set c
take_all take ((opt, arg) ∷ l) c = elim (take opt arg c) [
  | set d ↦ take_all take l d
  | unknown ↦ unknown
  | null_argument ↦ null_argument
]

module _ {E : Type 0} (p : ℕ) (b : Block Class) (w : World Class E) where
  -- The world with a client at `p` whose fields are `c`, and the system in state `e`.
  abbrev pub put : Ncli → E → World Class E
  put c e = record w { heap = update w.heap p (some (record b { self = ncli c })); env = e }

  pub put-live : (c : Ncli) (e : E) → (put c e).heap p ≡ some (record b { self = ncli c })
  put-live c e = let self : (p == p) ≡ true = ground arith in rw self

  pub ncli_at-put : (c : Ncli) (e : E) → ncli_at p (put c e) ≡ ok (c, put c e)
  unfolding ncli_at
  ncli_at-put c e =
      bind-ok (deref p) _ (put c e) _ (put c e) (deref-live p (put c e) _ (put-live c e))

  -- It is the world itself, where these are the client's fields and the system's state.
  pub put-self : (c : Ncli) → w.heap p ≡ some (record b { self = ncli c }) → put c w.env ≡ w
  put-self c live = ap (λ h. record w { heap = h }) (update_same w.heap p _ live)

  pub edit_ncli-put :
      (f : Ncli → Ncli) (c : Ncli) (e : E) → edit_ncli p f (put c e) ≡ ok (tt, put (f c) e)
  unfolding edit_ncli
  edit_ncli-put f c e =
      bind-ok (ncli_at p) _ (put c e) c (put c e) (ncli_at-put c e)
      ∙ write-live p (put c e) _ _ (put-live c e)
      ∙ ap (λ h. ok (tt, record w { heap = h; env = e })) (update_twice w.heap p _ _)

  module _ (sh : Shell E) (argv : List String) (options : String)
      (take : ℤ → CharPtr → Ncli → Taken) where
    -- A round of the loop once `getopt` has returned.
    round : ℕ → Opt → M Class E Bool
    round n o = elim (eq_ℤ o.0 (negsuc 0)) [
      | true ↦ pure true
      | false ↦ do
        c ← ncli_at p
        elim (take o.0 o.1 c) [
          | set d ↦ do edit_ncli p (λ _. d); option_loop sh n argv options take p
          | unknown ↦ pure false
          | null_argument ↦ fail null_pointer
        ]
    ]

    loop-round :
        (n : ℕ) (c : Ncli) (e : E)
        → option_loop sh (suc n) argv options take p (put c e)
          ≡ round n (sh.getopt argv options e).0 (put c (sh.getopt argv options e).1)
    unfolding option_loop round
    loop-round n c e = refl

    abbrev taken : ℕ → Taken → M Class E Bool
    taken n t = elim t [
      | set d ↦ do edit_ncli p (λ _. d); option_loop sh n argv options take p
      | unknown ↦ pure false
      | null_argument ↦ fail null_pointer
    ]

    loop-ends :
        (n : ℕ) (c : Ncli) (e e1 : E) (arg : CharPtr)
        → sh.getopt argv options e ≡ ((negsuc 0, arg), e1)
        → option_loop sh (suc n) argv options take p (put c e) ≡ ok (true, put c e1)
    unfolding round
    loop-ends n c e e1 arg g = loop-round n c e ∙ ap (λ x. round n x.0 (put c x.1)) g

    loop-taken :
        (n : ℕ) (c : Ncli) (e e1 : E) (opt : ℤ) (arg : CharPtr) (t : Taken)
        → sh.getopt argv options e ≡ ((opt, arg), e1)
        → eq_ℤ opt (negsuc 0) ≡ false
        → take opt arg c ≡ t
        → option_loop sh (suc n) argv options take p (put c e) ≡ taken n t (put c e1)
    unfolding round
    loop-taken n c e e1 opt arg t g more is =
        loop-round n c e
        ∙ ap (λ x. round n x.0 (put c x.1)) g
        ∙ rw (round, more) (bind-ok (ncli_at p) _ (put c e1) c (put c e1) (ncli_at-put c e1))
        ∙ ap (λ x. taken n x (put c e1)) is

    -- What the loop returns where the options, all together, come to `t`.
    abbrev pub LoopEnds : Taken → E → Result (Bool × World Class E) → Type 0
    LoopEnds (set d) e' r = r ≡ ok (true, put d e')
    LoopEnds unknown e' r = (d : Ncli) × (e1 : E) × (r ≡ ok (false, put d e1))
    LoopEnds null_argument e' r = r ≡ fault null_pointer

    -- With fuel for the options that `getopt` returns up to -1, the loop does what the `switch` on each
    -- of them in turn does: it returns true and leaves the fields that they set, or it returns false at
    -- an option that is unknown, or it reads the null argument of one that needs a number.
    pub option_loop-take_all :
        (n : ℕ) (c : Ncli) {e e' : E} {l : List Opt}
        → Yields sh argv options e l e'
        → length l < n
        → LoopEnds (take_all take l c) e' (option_loop sh n argv options take p (put c e))
    unfolding take_all
    option_loop-take_all zero c y enough = absurd (omega arith)
    option_loop-take_all (suc n) c {e} {e'} (ends arg g) enough = loop-ends n c e e' arg g
    option_loop-take_all (suc n) c {e} {e'} (gives {e1 = e1} {l = l} opt arg g more y) enough =
        by_switch (take opt arg c) refl (λ d. option_loop-take_all n d y (omega arith))
      where
        by_switch :
            (t : Taken)
            → take opt arg c ≡ t
            → ((d : Ncli)
                → LoopEnds (take_all take l d) e' (option_loop sh n argv options take p (put d e1)))
            → LoopEnds
                (elim t [
                  | set d ↦ take_all take l d
                  | unknown ↦ unknown
                  | null_argument ↦ null_argument
                ])
                e'
                (option_loop sh (suc n) argv options take p (put c e))
        by_switch (set d) is rest =
            subst (LoopEnds (take_all take l d) e')
              (sym (
                loop-taken n c e e1 opt arg (set d) g more is
                ∙ bind-ok (edit_ncli p (λ _. d)) _ (put c e1) tt (put d e1)
                    (edit_ncli-put (λ _. d) c e1)))
              (rest d)
        by_switch unknown is rest = (c, e1, loop-taken n c e e1 opt arg unknown g more is)
        by_switch null_argument is rest = loop-taken n c e e1 opt arg null_argument g more is
