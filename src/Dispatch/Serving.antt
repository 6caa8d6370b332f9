-- ===== src/Dispatch/Serving.antt =====
-- The factories and blocks hello and trans_pb, on which the commands of a block trans_pb do what they
-- are to do; and the destructors of all factories.
use c3qo.Base.{
  ℕ, suc, ◌≡◌, ◌⊎◌, refl, sym, ap, ◌∙◌, subst, Bool, true, Option-cases, none, some, List, [], ◌∷◌,
  String, ℤ, string_eq, arith, inl, inr,
}
use c3qo.UnorderedMap
use c3qo.World.{Block, World, M, ok, fault, dangling, pure, update, deref, alloc, free}
use c3qo.World.Keeps.{Post, Keeps, bind-ok, bind-fault, deref-live, deref-dead}
use c3qo.Classes.{Class, plain, hello, hook_zmq, trans_pb, ncli}
use c3qo.Blocks.Clear.{Calm}
use c3qo.Blocks.Adding.{Builds}
use c3qo.Blocks.Typed.{Frees, HasTypes}
use c3qo.Hello.{new_hello}
use c3qo.Flow.{new_block}
use c3qo.TransPb.Session.{Serves}
use c3qo.Dispatch.{
  Platform, vtable, methods, built_by, same_class, construct, destruct, start_of, stop_of,
}
use c3qo.Dispatch.Invariant.{vtable-Respects}

-- A class that the factory `f` builds.
abbrev pub IsOf : ℤ → ℕ → Class → Type 0
IsOf zmq_pair f s = (s0 : Class) × (built_by zmq_pair f ≡ some s0) × (same_class s0 s ≡ true)

-- The types without a `start_` or a `stop_`.
abbrev pub plain_types : List (String × ℕ)
plain_types = ("hello", 1) ∷ ("trans_pb", 2) ∷ []

-- The same for the factories of these types.
abbrev pub IsPlain : ℤ → ℕ → Class → Type 0
IsPlain zmq_pair f s = IsOf zmq_pair f s × ((f ≡ 1) ⊎ (f ≡ 2))

find-plain_types :
    (name : String) (f : ℕ) → UnorderedMap.find name plain_types ≡ some f → (f ≡ 1) ⊎ (f ≡ 2)
unfolding UnorderedMap.find
find-plain_types name f found = ground arith

-- Which of the two.
same_class-plain_types :
    (zmq_pair : ℤ) (f : ℕ) (s : Class)
    → (f ≡ 1) ⊎ (f ≡ 2)
    → IsOf zmq_pair f s
    → (same_class new_hello s ≡ true) ⊎ (same_class trans_pb s ≡ true)
unfolding built_by
same_class-plain_types zmq_pair f s (inl is) (s0, built, same) =
    let eq : some new_hello ≡ some s0 = ap (built_by zmq_pair) (sym is) ∙ built in
    inl (ap (λ o. elim o as (λ _. Bool) [ none ↦ true | some k ↦ same_class k s ]) eq ∙ same)
same_class-plain_types zmq_pair f s (inr is) (s0, built, same) =
    let eq : some trans_pb ≡ some s0 = ap (built_by zmq_pair) (sym is) ∙ built in
    inr (ap (λ o. elim o as (λ _. Bool) [ none ↦ true | some k ↦ same_class k s ]) eq ∙ same)

module _ {E : Type 0} (n : ℕ) (pf : Platform E) where
  free-live :
      (p : ℕ) (w : World Class E) (b : Block Class)
      → w.heap p ≡ some b
      → free p w ≡ ok (tt, record w { heap = update w.heap p none })
  unfolding free
  free-live p w b live = ground arith

  -- The destructor of a factory frees a block of the class that the factory builds, and does no more.
  pub vtable-Frees : Frees (IsOf pf.sys.zmq_pair) (vtable (suc n) pf)
  unfolding vtable methods destruct
  vtable-Frees f p w b live (s, built, same) =
      rw built (bind-ok (deref p) _ w b w (deref-live p w b live) ∙ rw same (free-live p w b live))

  nothing :
      (p : ℕ) (s : Class)
      → (same_class new_hello s ≡ true) ⊎ (same_class trans_pb s ≡ true)
      → (start_of n pf (vtable n pf) p s ≡ pure tt) × (stop_of pf.sys p s ≡ pure tt)
  unfolding start_of stop_of same_class
  nothing p plain is = (refl, refl)
  nothing p (hello h) is = (refl, refl)
  nothing p (hook_zmq h) is = absurd (ground arith)
  nothing p trans_pb is = (refl, refl)
  nothing p (ncli c) is = absurd (ground arith)

  module _ (q : ℕ) (b : Block Class) (w : World Class E) (live : w.heap q ≡ some b)
      (types : HasTypes (IsOf pf.sys.zmq_pair) plain_types w) where
    does_nothing :
        (start_of n pf (vtable n pf) q b.self ≡ pure tt) × (stop_of pf.sys q b.self ≡ pure tt)
    does_nothing =
        let (f, found, is) = types.typed q b live in
        nothing q b.self (
          same_class-plain_types pf.sys.zmq_pair f b.self (find-plain_types b.type_name f found) is)

    start-nothing : (vtable (suc n) pf).start q w ≡ ok (tt, w)
    unfolding vtable methods
    start-nothing = bind-ok (deref q) _ w b w (deref-live q w b live) ∙ ap (λ m. m w) does_nothing.0

    stop-nothing : (vtable (suc n) pf).stop q w ≡ ok (tt, w)
    unfolding vtable methods
    stop-nothing = bind-ok (deref q) _ w b w (deref-live q w b live) ∙ ap (λ m. m w) does_nothing.1

  built :
      (f : ℕ)
      → (f ≡ 1) ⊎ (f ≡ 2)
      → (b : Builds (vtable (suc n) pf) f) × IsOf pf.sys.zmq_pair f b.made.self
  unfolding vtable methods built_by construct alloc same_class
  built f (inl is) =
      subst (λ f. (b : Builds (vtable (suc n) pf) f) × IsOf pf.sys.zmq_pair f b.made.self) (sym is)
        (record { made = new_block new_hello; builds = λ w. refl }, (new_hello, refl, refl))
  built f (inr is) =
      subst (λ f. (b : Builds (vtable (suc n) pf) f) × IsOf pf.sys.zmq_pair f b.made.self) (sym is)
        (record { made = new_block trans_pb; builds = λ w. refl }, (trans_pb, refl, refl))

  start-dead :
      (q : ℕ) (w : World Class E) → w.heap q ≡ none → (vtable (suc n) pf).start q w ≡ fault dangling
  unfolding vtable methods
  start-dead q w dead = bind-fault (deref q) _ w dangling (deref-dead q w dead)

  stop-dead :
      (q : ℕ) (w : World Class E) → w.heap q ≡ none → (vtable (suc n) pf).stop q w ≡ fault dangling
  unfolding vtable methods
  stop-dead q w dead = bind-fault (deref q) _ w dangling (deref-dead q w dead)

  kept :
      (q : ℕ) (m : ℕ → M Class E (Unit {0}))
      → ((p : ℕ) (b : Block Class) (w : World Class E)
          → w.heap p ≡ some b
          → HasTypes (IsOf pf.sys.zmq_pair) plain_types w
          → m p w ≡ ok (tt, w))
      → ((p : ℕ) (w : World Class E) → w.heap p ≡ none → m p w ≡ fault dangling)
      → Keeps (HasTypes (IsOf pf.sys.zmq_pair) plain_types) (m q)
  kept q m runs dies w types = elim (Option-cases (w.heap q)) [
    | inl dead ↦
        subst (Post (λ _ u. HasTypes (IsOf pf.sys.zmq_pair) plain_types u)) (sym (dies q w dead)) tt
    | inr (b, live) ↦
        subst (Post (λ _ u. HasTypes (IsOf pf.sys.zmq_pair) plain_types u))
          (sym (runs q b w live types)) types
  ]

  pub vtable-Serves : Serves (IsOf pf.sys.zmq_pair) plain_types (vtable (suc n) pf)
  unfolding vtable methods
  vtable-Serves = record {
    respects = vtable-Respects (suc n) pf;
    frees = vtable-Frees;
    binds = λ p port q w b live. bind-ok (deref p) _ w b w (deref-live p w b live);
    builds = λ t f found. built f (find-plain_types t f found);
    starts = λ q b w i types live. (w, start-nothing q b w live types, i, λ j. refl);
    stops = λ q b w i types live. (w, stop-nothing q b w live types, i, λ j. refl);
    start_types = λ q. kept q (vtable (suc n) pf).start start-nothing start-dead;
    stop_types = λ q. kept q (vtable (suc n) pf).stop stop-nothing stop-dead;
  }

  -- Their `stop_` does nothing.
  pub vtable-Calm : (q : ℕ) → Calm (IsPlain pf.sys.zmq_pair) q ((vtable (suc n) pf).stop q)
  unfolding vtable methods
  vtable-Calm q = record {
    runs = λ w b i t live.
        let (f, known, (is, one)) = t q b live in
        let stops = nothing q b.self (same_class-plain_types pf.sys.zmq_pair f b.self one is) in
        (
          w,
          bind-ok (deref q) _ w b w (deref-live q w b live) ∙ ap (λ m. m w) stops.1,
          i,
          t,
          refl,
          λ p c at off. (c, at, off),
        );
  }
