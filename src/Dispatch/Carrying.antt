-- ===== src/Dispatch/Carrying.antt =====
-- The factories and blocks that `main` of app/src/c3qo.cpp registers, hook_zmq among them, on which a
-- series of commands has a run.
use c3qo.Base.{ℕ, suc, ◌≡◌, ◌⊎◌, refl, sym, subst, Option-cases, int_eq, string_eq, inl, inr}
use c3qo.World.{World, M, dangling, deref, alloc}
use c3qo.World.Keeps.{Post, Keeps, bind-ok, bind-fault, deref-live, deref-dead}
use c3qo.Classes.{Class}
use c3qo.Blocks.Adding.{Builds}
use c3qo.Blocks.Status.{Quiet}
use c3qo.Hello.{new_hello}
use c3qo.HookZmq.{new_hook_zmq}
use c3qo.Flow.{new_block}
use c3qo.Invariant.{Inv}
use c3qo.TransPb.Session.{Carries}
use c3qo.Dispatch.{Platform, vtable, methods, built_by, same_class, construct}
use c3qo.Dispatch.Invariant.{vtable-Respects}
use c3qo.Dispatch.Serving.{IsOf, vtable-Frees}
use c3qo.Dispatch.Returning.{
  all_types, Starts, find-all_types, Types, Returns, IsOf-hook, start-Returns, stop-Returns,
}

module _ {E : Type 0} (n : ℕ) (pf : Platform E) (opening : Starts pf.sys) where
  built :
      (f : ℕ)
      → (f ≡ 1) ⊎ ((f ≡ 2) ⊎ (f ≡ 3))
      → (b : Builds (vtable (suc n) pf) f) × IsOf pf.sys.zmq_pair f b.made.self
  unfolding vtable methods built_by construct alloc same_class
  built f (inl is) =
      subst (λ f. (b : Builds (vtable (suc n) pf) f) × IsOf pf.sys.zmq_pair f b.made.self) (sym is)
        (record { made = new_block new_hello; builds = λ w. refl }, (new_hello, refl, refl))
  built f (inr (inl is)) =
      subst (λ f. (b : Builds (vtable (suc n) pf) f) × IsOf pf.sys.zmq_pair f b.made.self) (sym is)
        (
          record { made = new_block Class.trans_pb; builds = λ w. refl },
          (Class.trans_pb, refl, refl),
        )
  built f (inr (inr is)) =
      subst (λ f. (b : Builds (vtable (suc n) pf) f) × IsOf pf.sys.zmq_pair f b.made.self) (sym is)
        (
          record { made = new_block (new_hook_zmq pf.sys.zmq_pair); builds = λ w. refl },
          (new_hook_zmq pf.sys.zmq_pair, refl, refl),
        )

  start-Types : (q : ℕ) → Keeps (Types n pf opening) ((vtable (suc n) pf).start q)
  unfolding vtable methods
  start-Types q w types = elim (Option-cases (w.heap q)) [
    | inl dead ↦
        subst (Post (λ _ u. Types n pf opening u))
          (sym (bind-fault (deref q) _ w dangling (deref-dead q w dead))) tt
    | inr (b, live) ↦
        let (w', ran, kept, same) = start-Returns n pf opening q b w live types in
        subst (Post (λ _ u. Types n pf opening u)) (sym ran) kept
  ]

  stop-Types : (q : ℕ) → Keeps (Types n pf opening) ((vtable (suc n) pf).stop q)
  unfolding vtable methods
  stop-Types q w types = elim (Option-cases (w.heap q)) [
    | inl dead ↦
        subst (Post (λ _ u. Types n pf opening u))
          (sym (bind-fault (deref q) _ w dangling (deref-dead q w dead))) tt
    | inr (b, live) ↦ elim (stop-Returns n pf opening q b w live types) [
      | inl (w', ran, kept, same) ↦ subst (Post (λ _ u. Types n pf opening u)) (sym ran) kept
      | inr (unwritten, undefined) ↦ subst (Post (λ _ u. Types n pf opening u)) (sym undefined) tt
    ]
  ]

  quiet :
      (m : M Class E (Unit {0})) (w : World Class E)
      → Keeps Inv m
      → Inv w
      → Returns n pf opening m w
      → Quiet m w
  quiet m w keeps i (w', ran, kept, same) =
      (w', ran, subst (Post (λ _ u. Inv u)) ran (keeps w i), same)

  -- The methods of the repository's blocks and factories do their part for a series of commands on
  -- all the types that the program registers, where every `start_` of a hook opens its socket, or
  -- gets a context and gives up.
  pub vtable-Carries : Carries (IsOf pf.sys.zmq_pair) all_types (vtable (suc n) pf)
  unfolding vtable methods
  vtable-Carries = record {
    respects = vtable-Respects (suc n) pf;
    frees = vtable-Frees n pf;
    binds = λ p port q w b live. bind-ok (deref p) _ w b w (deref-live p w b live);
    builds = λ t f found. built f (find-all_types t f found);
    starts = λ q b w i types live.
        quiet ((vtable (suc n) pf).start q) w ((vtable-Respects (suc n) pf).start q) i
          (start-Returns n pf opening q b w live types);
    stops = λ q b w i types live. elim (stop-Returns n pf opening q b w live types) [
      | inl returns ↦
          inl (quiet ((vtable (suc n) pf).stop q) w ((vtable-Respects (suc n) pf).stop q) i returns)
      | inr undefined ↦ inr undefined
    ];
    start_types = start-Types;
    stop_types = stop-Types;
    writes = IsOf-hook n pf opening;
  }
