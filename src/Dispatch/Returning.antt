-- ===== src/Dispatch/Returning.antt =====
-- What `start_` and `stop_` do on the blocks of the types that `main` of app/src/c3qo.cpp registers:
-- they return, or a `stop_` reads a handle that was never written.
use c3qo.Base.{
  ℕ, suc, ◌≡◌, ◌⊎◌, refl, sym, ap, ◌∙◌, subst, true, Option, Option-cases, none, some, List, [],
  ◌∷◌, String, ℤ, Ptr, int_eq, string_eq, arith, inl, inr,
}
use c3qo.UnorderedMap
use c3qo.World.{
  Block, Manager, FileDesc, World, Sys, M, ok, fault, uninitialised, deref, call, ◌>>=◌, ◌>>◌,
}
use c3qo.World.Keeps.{bind-ok, deref-live, update_same}
use c3qo.Classes.{Class, HookZmq, hook_at, hook_at-live, written}
use c3qo.Blocks.Status.{status, status-same}
use c3qo.Blocks.Typed.{HasTypes, IsTyped-write}
use c3qo.HookZmq.{hook_start, hook_stop}
use c3qo.HookZmq.Opening.{Opens, GivesUp, entry, hooked}
use c3qo.HookZmq.Starting.{with_handles, started_hook, hook_start-GivesUp}
use c3qo.HookZmq.Stopping.{started_world, start-ends}
use c3qo.Poll.{register, unregister, fd_remove}
use c3qo.Poll.Table.{
  fd_find-cases, register-new, register-old, unregister-none, unregister-some, register-rest,
  unregister-rest,
}
use c3qo.TransPb.Session.{IsUnwritten, status-rewrite}
use c3qo.Dispatch.{Platform, vtable, methods, built_by, same_class, start_of, stop_of}
use c3qo.Dispatch.Serving.{IsOf}

-- The factories of `main`.
abbrev pub all_types : List (String × ℕ)
all_types = ("hook_zmq", 3) ∷ ("trans_pb", 2) ∷ ("hello", 1) ∷ []

-- Every start of a hook gets a context from `zmq_ctx_new`, as it does unless memory or descriptors
-- run out, and then opens its socket or gives up.
abbrev pub Starts : {E : Type 0} → Sys E → Type 0
Starts {E} sys =
    (h : HookZmq) (e : E)
    → ((ctx : ℕ) × (s : ℕ) × (e' : E) × Opens sys h e ctx s e')
      ⊎ ((ctx : ℕ) × (socket : Ptr) × (e' : E) × GivesUp sys h e ctx socket e')

pub find-all_types :
    (name : String) (f : ℕ)
    → UnorderedMap.find name all_types ≡ some f
    → (f ≡ 1) ⊎ ((f ≡ 2) ⊎ (f ≡ 3))
unfolding UnorderedMap.find
find-all_types name f found = ground arith

-- The classes of these factories.
abbrev IsServed : Class → Type 0
IsServed Class.plain = ⊥
IsServed (Class.ncli c) = ⊥
IsServed _ = Unit

same_class-IsServed : (s k : Class) → IsServed s → same_class s k ≡ true → IsServed k
unfolding same_class
same_class-IsServed Class.plain k is same = absurd is
same_class-IsServed (Class.ncli c) k is same = absurd is
same_class-IsServed (Class.hello h) Class.plain is same = absurd (ground arith)
same_class-IsServed (Class.hello h) (Class.hello g) is same = tt
same_class-IsServed (Class.hello h) (Class.hook_zmq g) is same = tt
same_class-IsServed (Class.hello h) Class.trans_pb is same = tt
same_class-IsServed (Class.hello h) (Class.ncli c) is same = absurd (ground arith)
same_class-IsServed (Class.hook_zmq h) Class.plain is same = absurd (ground arith)
same_class-IsServed (Class.hook_zmq h) (Class.hello g) is same = tt
same_class-IsServed (Class.hook_zmq h) (Class.hook_zmq g) is same = tt
same_class-IsServed (Class.hook_zmq h) Class.trans_pb is same = tt
same_class-IsServed (Class.hook_zmq h) (Class.ncli c) is same = absurd (ground arith)
same_class-IsServed Class.trans_pb Class.plain is same = absurd (ground arith)
same_class-IsServed Class.trans_pb (Class.hello g) is same = tt
same_class-IsServed Class.trans_pb (Class.hook_zmq g) is same = tt
same_class-IsServed Class.trans_pb Class.trans_pb is same = tt
same_class-IsServed Class.trans_pb (Class.ncli c) is same = absurd (ground arith)

IsOf-IsServed :
    (zmq_pair : ℤ) (f : ℕ) (k : Class)
    → (f ≡ 1) ⊎ ((f ≡ 2) ⊎ (f ≡ 3))
    → IsOf zmq_pair f k
    → IsServed k
unfolding built_by
IsOf-IsServed zmq_pair f k one (s0, built, same) =
    let the : Option Class → Class = λ o. elim o [ none ↦ s0 | some s ↦ s ] in
    let is : IsServed s0 = elim one [
      | inl is ↦ subst IsServed (ap the (ap (built_by zmq_pair) (sym is) ∙ built)) tt
      | inr (inl is) ↦ subst IsServed (ap the (ap (built_by zmq_pair) (sym is) ∙ built)) tt
      | inr (inr is) ↦ subst IsServed (ap the (ap (built_by zmq_pair) (sym is) ∙ built)) tt
    ] in
    same_class-IsServed s0 k is same

-- The two operations on the vectors leave the factories.
register-types : (d : FileDesc) (m : Manager) → (register d m).bk_factory ≡ m.bk_factory
register-types d m = elim (fd_find-cases d.fd d.socket m.fd) [
  | inl (e, _) ↦ rw (register-new d m e) refl
  | inr (k, e, _) ↦ rw (register-old d m k e) refl
]

unregister-types : (d : FileDesc) (m : Manager) → (unregister d m).bk_factory ≡ m.bk_factory
unregister-types d m = elim (fd_find-cases d.fd d.socket m.fd) [
  | inl (e, _) ↦ rw (unregister-none d m e) refl
  | inr (k, e, _) ↦ rw (unregister-some d m k e) refl
]

module _ {E : Type 0} (n : ℕ) (pf : Platform E) (opening : Starts pf.sys) where
  abbrev pub Types : World Class E → Type 0
  Types = HasTypes (IsOf pf.sys.zmq_pair) all_types

  -- A method that returns, keeps the types, and starts, stops and removes no block.
  abbrev pub Returns : M Class E (Unit {0}) → World Class E → Type 0
  Returns m w =
      (w' : World Class E) × (m w ≡ ok (tt, w')) × Types w' × ((j : ℤ) → status j w' ≡ status j w)

  pub IsOf-hook :
      (f : ℕ) (h g : HookZmq)
      → IsOf pf.sys.zmq_pair f (Class.hook_zmq h)
      → IsOf pf.sys.zmq_pair f (Class.hook_zmq g)
  unfolding same_class
  IsOf-hook f h g (Class.plain, built, same) = absurd (ground arith)
  IsOf-hook f h g (Class.hello k, built, same) = absurd (ground arith)
  IsOf-hook f h g (Class.hook_zmq k, built, same) = (Class.hook_zmq k, built, refl)
  IsOf-hook f h g (Class.trans_pb, built, same) = absurd (ground arith)
  IsOf-hook f h g (Class.ncli k, built, same) = absurd (ground arith)

  module _ (p : ℕ) (b : Block Class) (w : World Class E) (live : w.heap p ≡ some b)
      (types : Types w) where
    -- A hook that is written to, with other vectors.
    rewritten :
        (h g : HookZmq) (m : Manager) (e : E)
        → b.self ≡ Class.hook_zmq h
        → m.bk_factory ≡ w.mgr.bk_factory
        → m.bk_map ≡ w.mgr.bk_map
        → Types (hooked p b (record w { mgr = m }) g e)
          × ((j : ℤ) → status j (hooked p b (record w { mgr = m }) g e) ≡ status j w)
    rewritten h g m e is same_types same_map =
        let (f, listed, fits) = types.typed p b live in
        (
          record {
            factories = same_types ∙ types.factories;
            typed =
                IsTyped-write (IsOf pf.sys.zmq_pair) all_types w.heap p
                  (record b { self = Class.hook_zmq g }) types.typed
                  (f, listed, IsOf-hook f h g (subst (IsOf pf.sys.zmq_pair f) is fits));
          },
          λ j. status-rewrite p b (record b { self = Class.hook_zmq g }) m e w j live refl same_map,
        )

    start-hook : (h : HookZmq) → b.self ≡ Class.hook_zmq h → Returns (hook_start pf.sys p) w
    start-hook h is =
        let itself : hooked p b w h w.env ≡ w =
          ap (λ heap. record w { heap = heap })
            (update_same w.heap p (some (record b { self = Class.hook_zmq h }))
              (live ∙ ap (λ s. some (record b { self = s })) is)) in
        subst (λ u. Returns' u) itself
          (elim (opening h w.env) [
            | inl (ctx, s, e', opened) ↦
                let (e1, ran) = start-ends pf.sys p b w h ctx s opened in
                let m = register (entry p s) w.mgr in
                let (typed, same) =
                  rewritten h (started_hook pf.sys p b w h ctx s) m e1 is
                    (register-types (entry p s) w.mgr) (register-rest (entry p s) w.mgr).0 in
                (started_world pf.sys p b w h ctx s e1, ran, typed, same)
            | inr (ctx, socket, e', gives_up) ↦
                let (typed, same) =
                  rewritten h (with_handles pf.sys p b w h ctx socket) w.mgr e' is refl refl in
                (_, hook_start-GivesUp pf.sys p b w h ctx socket gives_up, typed, same)
          ])
      where
        Returns' : World Class E → Type 0
        Returns' u =
            (w' : World Class E) × (hook_start pf.sys p u ≡ ok (tt, w'))
            × Types w'
            × ((j : ℤ) → status j w' ≡ status j w)

    start_of-Returns :
        (k : Class) → b.self ≡ k → IsServed k → Returns (start_of n pf (vtable n pf) p k) w
    unfolding start_of
    start_of-Returns Class.plain is known = absurd known
    start_of-Returns (Class.hello h) is known = (w, refl, types, λ j. refl)
    start_of-Returns (Class.hook_zmq h) is known = start-hook h is
    start_of-Returns Class.trans_pb is known = (w, refl, types, λ j. refl)
    start_of-Returns (Class.ncli c) is known = absurd known

    served : IsServed b.self
    served =
        let (f, listed, is) = types.typed p b live in
        IsOf-IsServed pf.sys.zmq_pair f b.self (find-all_types b.type_name f listed) is

    pub start-Returns : Returns ((vtable (suc n) pf).start p) w
    unfolding vtable methods
    start-Returns =
        let (w', ran, kept, same) = start_of-Returns b.self refl served in
        (w', bind-ok (deref p) _ w b w (deref-live p w b live) ∙ ran, kept, same)

    -- The three reads of `stop_`, and what it does with them.
    stop-hook :
        (h : HookZmq)
        → b.self ≡ Class.hook_zmq h
        → Returns (hook_stop pf.sys p) w
          ⊎ (IsUnwritten (Class.hook_zmq h) × (hook_stop pf.sys p w ≡ fault uninitialised))
    unfolding hook_stop fd_remove
    stop-hook h is =
        let read : hook_stop pf.sys p w ≡ body h.zmq_socket h.zmq_sock h.zmq_ctx w =
          bind-ok (hook_at p) (λ g. body g.zmq_socket g.zmq_sock g.zmq_ctx) w h w
            (hook_at-live p b w (Class.hook_zmq h) live is) in
        elim (Option-cases h.zmq_socket) [
          | inl none_there ↦ inr (inr (inl none_there), read ∙ rw none_there refl)
          | inr (x, there) ↦ elim (Option-cases h.zmq_sock) [
            | inl none_there ↦ inr (inr (inr none_there), read ∙ rw (there, none_there) refl)
            | inr (d, sock) ↦ elim (Option-cases h.zmq_ctx) [
              | inl none_there ↦ inr (inl none_there, read ∙ rw (there, sock, none_there) refl)
              | inr (ctx, context) ↦
                  let gone = record d { socket = x } in
                  let m = unregister gone w.mgr in
                  inl (
                    record w { mgr = m; env = pf.sys.zmq_ctx_term ctx (pf.sys.zmq_close x w.env) },
                    read ∙ rw (there, sock, context) refl,
                    record {
                      factories = unregister-types gone w.mgr ∙ types.factories;
                      typed = types.typed;
                    },
                    λ j.
                        status-same w _ j (ap (UnorderedMap.find j) (unregister-rest gone w.mgr).0)
                          (λ q at. refl),
                  )
            ]
          ]
        ]
      where
        body : Option Ptr → Option FileDesc → Option Ptr → M Class E (Unit {0})
        body x y z = do
          socket ← written x
          d ← written y
          fd_remove (record d { socket = socket })
          call (λ e. (tt, pf.sys.zmq_close socket e))
          ctx ← written z
          call (λ e. (tt, pf.sys.zmq_ctx_term ctx e))

    stop_of-Returns :
        (k : Class)
        → b.self ≡ k
        → IsServed k
        → Returns (stop_of pf.sys p k) w
          ⊎ (IsUnwritten k × (stop_of pf.sys p k w ≡ fault uninitialised))
    unfolding stop_of
    stop_of-Returns Class.plain is known = absurd known
    stop_of-Returns (Class.hello h) is known = inl (w, refl, types, λ j. refl)
    stop_of-Returns (Class.hook_zmq h) is known = stop-hook h is
    stop_of-Returns Class.trans_pb is known = inl (w, refl, types, λ j. refl)
    stop_of-Returns (Class.ncli c) is known = absurd known

    pub stop-Returns :
        Returns ((vtable (suc n) pf).stop p) w
        ⊎ (IsUnwritten b.self × ((vtable (suc n) pf).stop p w ≡ fault uninitialised))
    unfolding vtable methods
    stop-Returns =
        let start = bind-ok (deref p) _ w b w (deref-live p w b live) in
        elim (stop_of-Returns b.self refl served) [
          | inl (w', ran, kept, same) ↦ inl (w', start ∙ ran, kept, same)
          | inr (unwritten, undefined) ↦ inr (unwritten, start ∙ undefined)
        ]
