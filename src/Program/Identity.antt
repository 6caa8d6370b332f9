-- ===== src/Program/Identity.antt =====
-- app/src/c3qo.cpp, `main`: the options of the monitored program.
use c3qo.Base.{
  ℕ, zero, suc, ◌<◌, ◌≡◌, ◌⊎◌, refl, ap, ◌∙◌, true, false, Option, none, some, List, String, ℤ, pos,
  negsuc, eq_ℤ, All, length, arith, Bool-cases, inl, inr,
}
use c3qo.World.{World, Result, M, ok, pure, ◌>>◌}
use c3qo.World.Keeps.{bind-ok}
use c3qo.Classes.{Class, CharPtr}
use c3qo.Dispatch.{Platform}
use c3qo.Ncli.Options.{Shell, is_option}
use c3qo.Ncli.Scan.{Opt, Yields, ends, gives}
use c3qo.Ncli.Fields.{last_text}
use c3qo.Program.{identity_loop, main, run}

-- An option `-i`, with its argument.
abbrev pub IsIdentity : Opt → Type 0
IsIdentity o = is_option b'i' o.0 ≡ true

module _ {E : Type 0} (sh : Shell E) (argv : List String) where
  after_option : ℕ → CharPtr → Opt → M Class E (Option CharPtr)
  after_option n identity o = elim (eq_ℤ o.0 (negsuc 0)) [
    | true ↦ pure (some identity)
    | false ↦ elim (is_option b'h' o.0) [
      | true ↦ pure none
      | false ↦ elim (is_option b'i' o.0) [ true ↦ identity_loop n sh argv o.1 | false ↦ pure none ]
    ]
  ]

  loop-option :
      (n : ℕ) (identity : CharPtr) (w : World Class E) (o : Opt) (e1 : E)
      → sh.getopt argv "hi:" w.env ≡ (o, e1)
      → identity_loop (suc n) sh argv identity w ≡ after_option n identity o (record w { env = e1 })
  unfolding identity_loop after_option
  loop-option n identity w o e1 g = ap (λ r. after_option n identity r.0 (record w { env = r.1 })) g

  module _ (n : ℕ) (identity : CharPtr) (w : World Class E) (opt : ℤ) (arg : CharPtr) (e1 : E)
      (g : sh.getopt argv "hi:" w.env ≡ ((opt, arg), e1)) (more : eq_ℤ opt (negsuc 0) ≡ false) where
    loop-identity :
        is_option b'i' opt ≡ true
        → identity_loop (suc n) sh argv identity w
          ≡ identity_loop n sh argv arg (record w { env = e1 })
    unfolding after_option
    loop-identity hit =
        let not_help : is_option b'h' opt ≡ false = grind (arith, hit) in
        let next : after_option n identity (opt, arg) (record w { env = e1 })
            ≡ identity_loop n sh argv arg (record w { env = e1 }) =
          rw (more, not_help, hit, after_option) refl in
        loop-option n identity w (opt, arg) e1 g ∙ next

    loop-refuses :
        is_option b'i' opt ≡ false
        → identity_loop (suc n) sh argv identity w ≡ ok (none, record w { env = e1 })
    unfolding after_option
    loop-refuses miss =
        let next : after_option n identity (opt, arg) (record w { env = e1 })
            ≡ ok (none, record w { env = e1 }) =
          elim (Bool-cases (is_option b'h' opt)) [
            | inl help ↦ rw (more, help, after_option) refl
            | inr other ↦ rw (more, other, miss, after_option) refl
          ] in
        loop-option n identity w (opt, arg) e1 g ∙ next

  -- What the loop returns: the last identity, or nothing at the first option that is not one.
  abbrev Chosen :
      List Opt → CharPtr → World Class E → E → Result (Option CharPtr × World Class E) → Type 0
  Chosen l identity w e' r =
      (All IsIdentity l × (r ≡ ok (some (last_text b'i' l identity), record w { env = e' })))
      ⊎ ((¬ All IsIdentity l) × ((e1 : E) × (r ≡ ok (none, record w { env = e1 }))))

  identity_loop-Chosen :
      (n : ℕ) (identity : CharPtr) (w : World Class E) {e e' : E} {l : List Opt}
      → Yields sh argv "hi:" e l e'
      → length l < n
      → Chosen l identity w e' (identity_loop n sh argv identity (record w { env = e }))
  unfolding last_text after_option
  identity_loop-Chosen zero identity w y enough = absurd (omega arith)
  identity_loop-Chosen (suc n) identity w {e} {e'} (ends arg g) enough =
      inl (tt, loop-option n identity (record w { env = e }) (negsuc 0, arg) e' g)
  identity_loop-Chosen (suc n) identity w {e} {e'} (gives {e1 = e1} {l = l} opt arg g more y)
        enough =
      elim (Bool-cases (is_option b'i' opt)) [
        | inr miss ↦ inr (
          λ h. absurd (ground (arith, miss, h.0)),
          (e1, loop-refuses n identity (record w { env = e }) opt arg e1 g more miss),
        )
        | inl hit ↦
            let step = loop-identity n identity (record w { env = e }) opt arg e1 g more hit in
            elim (identity_loop-Chosen n arg w y (omega arith)) [
              | inl (all, r) ↦ inl ((hit, all), step ∙ rw hit r)
              | inr (other, refused) ↦ inr (λ h. other h.1, (refused.0, step ∙ refused.1))
            ]
      ]

  -- With fuel for the options that `getopt` returns up to -1: the program runs under the last
  -- identity given, or the default one, and its exit status is 0 if it ends; where some option is not
  -- `-i`, it does nothing but read options, and its exit status is 1.
  pub run-IsIdentity :
      (rounds n : ℕ) (pf : Platform E) (w : World Class E) {e e' : E} {l : List Opt}
      → Yields sh argv "hi:" e l e'
      → length l < n
      → (All IsIdentity l
          × (run rounds n sh pf argv (record w { env = e })
              ≡ (do main rounds n pf (last_text b'i' l (some "default_identity")); pure (pos 0))
                  (record w { env = e' })))
        ⊎ ((¬ All IsIdentity l)
            × ((e1 : E) × (run rounds n sh pf argv (record w { env = e })
                  ≡ ok (pos 1, record w { env = e1 }))))
  unfolding run
  run-IsIdentity rounds n pf w {e} {e'} {l} y enough =
      let u : World Class E = record w { env = e } in
      let reading = identity_loop n sh argv (some "default_identity") in
      elim (identity_loop-Chosen n (some "default_identity") w y enough) [
        | inr (other, refused) ↦
            inr (other, (refused.0, bind-ok reading with_choice u none _ refused.1))
        | inl (all, r) ↦ inl (all, bind-ok reading with_choice u _ _ r)
      ]
    where
      with_choice : Option CharPtr → M Class E ℤ
      with_choice o = elim o [
        | none ↦ pure (pos 1)
        | some identity ↦ do main rounds n pf identity; pure (pos 0)
      ]
