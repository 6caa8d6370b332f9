-- ===== src/TransPb/Session.antt =====
-- block/trans_pb, `proto_command_parse`: what the commands ask of the virtual methods, and a world that shows a
-- table of statuses.
use c3qo.Base.{
  ℕ, ◌≡◌, ◌⊎◌, ◌==◌, ==_iff, none, refl, sym, ap, ◌∙◌, subst, Bool, ◌&&◌, some, List, String, ℤ,
  eq_ℤ, eq_ℤ_iff, int_eq, string_eq, arith, Bool-cases, inl, inr,
}
use c3qo.UnorderedMap
use c3qo.World.{Block, Manager, World, Vtable, M, ok, fault, uninitialised, update}
use c3qo.World.Keeps.{Post, Keeps}
use c3qo.Classes.{Class, HookZmq}
use c3qo.Blocks.Status.{
  known-cases, status-same, status_of-same, Status, status, Quiet, Moves, is_known,
}
use c3qo.Blocks.Adding.{Builds}
use c3qo.Blocks.Binding.{BindsNothing, both_known, address}
use c3qo.Blocks.Typed.{HasTypes, Frees}
use c3qo.Invariant.{Inv, Respects}
use c3qo.TransPb.Table.{Table, put}

-- A hook, one of whose handles was never written, and a block that is no hook.
abbrev pub IsUnwritten : Class → Type 0
IsUnwritten (Class.hook_zmq h) = (h.zmq_ctx ≡ none) ⊎ ((h.zmq_socket ≡ none) ⊎ (h.zmq_sock ≡ none))
IsUnwritten _ = ⊥

abbrev pub IsNoHook : Class → Type 0
IsNoHook (Class.hook_zmq h) = ⊥
IsNoHook _ = Unit

-- A write to a block that leaves whether it is started, with whatever else but the map.
pub status-rewrite :
    {S E : Type 0} (p : ℕ) (b c : Block S) (mgr : Manager) (env : E) (w : World S E) (j : ℤ)
    → w.heap p ≡ some b
    → c.is_started ≡ b.is_started
    → mgr.bk_map ≡ w.mgr.bk_map
    → status j (record w { heap = update w.heap p (some c); mgr = mgr; env = env }) ≡ status j w
status-rewrite p b c mgr env w j live same map =
    status-same w _ j (ap (UnorderedMap.find j) map) (λ r at. elim (Bool-cases (p == r)) [
      | inl hit ↦
          let here : w.heap r ≡ some b = ap w.heap (sym ((==_iff p r).0 hit)) ∙ live in
          rw (hit, here) (status_of-same c b same)
      | inr miss ↦ rw miss refl
    ])

module _ {E : Type 0} (Fits : ℕ → Class → Type 0) (types : List (String × ℕ)) where
  -- Virtual methods and factories that do their part on the blocks of these types: they return, keep
  -- the invariant and the types, and touch no other block's life.
  pub record Serves (v : Vtable Class E) : Type 0 where
    pub respects : Respects v
    pub frees : Frees Fits v
    pub binds : BindsNothing v
    pub builds :
        (t : String) (f : ℕ)
        → UnorderedMap.find t types ≡ some f
        → (b : Builds v f) × Fits f b.made.self
    pub starts :
        (q : ℕ) (b : Block Class) (w : World Class E)
        → Inv w
        → HasTypes Fits types w
        → w.heap q ≡ some b
        → Quiet (v.start q) w
    pub stops :
        (q : ℕ) (b : Block Class) (w : World Class E)
        → Inv w
        → HasTypes Fits types w
        → w.heap q ≡ some b
        → Quiet (v.stop q) w
    pub start_types : (q : ℕ) → Keeps (HasTypes Fits types) (v.start q)
    pub stop_types : (q : ℕ) → Keeps (HasTypes Fits types) (v.stop q)

  -- The same, where a `stop_` may also read a handle of a hook that was never written.
  pub record Carries (v : Vtable Class E) : Type 0 where
    pub respects : Respects v
    pub frees : Frees Fits v
    pub binds : BindsNothing v
    pub builds :
        (t : String) (f : ℕ)
        → UnorderedMap.find t types ≡ some f
        → (b : Builds v f) × Fits f b.made.self
    pub starts :
        (q : ℕ) (b : Block Class) (w : World Class E)
        → Inv w
        → HasTypes Fits types w
        → w.heap q ≡ some b
        → Quiet (v.start q) w
    pub stops :
        (q : ℕ) (b : Block Class) (w : World Class E)
        → Inv w
        → HasTypes Fits types w
        → w.heap q ≡ some b
        → Quiet (v.stop q) w ⊎ (IsUnwritten b.self × (v.stop q w ≡ fault uninitialised))
    pub start_types : (q : ℕ) → Keeps (HasTypes Fits types) (v.start q)
    pub stop_types : (q : ℕ) → Keeps (HasTypes Fits types) (v.stop q)
    pub writes : (f : ℕ) (h h' : HookZmq) → Fits f (Class.hook_zmq h) → Fits f (Class.hook_zmq h')

  pub Serves-Carries :
      (v : Vtable Class E)
      → Serves v
      → ((f : ℕ) (h h' : HookZmq) → Fits f (Class.hook_zmq h) → Fits f (Class.hook_zmq h'))
      → Carries v
  Serves-Carries v s writes = record {
    respects = s.respects;
    frees = s.frees;
    binds = s.binds;
    builds = s.builds;
    starts = s.starts;
    stops = λ q b w i t live. inl (s.stops q b w i t live);
    start_types = s.start_types;
    stop_types = s.stop_types;
    writes = writes;
  }

  -- The world shows the table.
  pub record Shows (w : World Class E) (m : Table) : Type 0 where
    pub inv : Inv w
    pub has_types : HasTypes Fits types w
    pub shows : (j : ℤ) → status j w ≡ m j

  module _ (v : Vtable Class E) where
    -- A call that moves one identifier, as the table says.
    pub moved :
        (id : ℤ) (op : M Class E Bool) (w : World Class E) (m : Table) (ans : Status → Bool)
        (next_status : Status → Status)
        → Shows w m
        → Keeps Inv op
        → Keeps (HasTypes Fits types) op
        → Moves id op w (ans (status id w)) (next_status (status id w))
        → (w' : World Class E) × (op w ≡ ok (ans (m id), w'))
          × Shows w' (put id (next_status (m id)) m)
    moved id op w m ans next_status h keeps_inv keeps_types (w', e, self, others) = (
      w',
      e ∙ ap (λ x. ok (ans x, w')) (h.shows id),
      record {
        inv = subst (Post (λ _ u. Inv u)) e (keeps_inv w h.inv);
        has_types = subst (Post (λ _ u. HasTypes Fits types u)) e (keeps_types w h.has_types);
        shows = λ j. elim (Bool-cases (eq_ℤ j id)) [
          | inl same ↦
              rw same (
                ap (λ k. status k w') ((eq_ℤ_iff j id).0 same) ∙ self ∙ ap next_status (h.shows id))
          | inr other ↦ rw other (others j (λ e. ground arith) ∙ h.shows j)
        ];
      },
    )

    pub factory-types :
        (t : String) (w : World Class E)
        → HasTypes Fits types w
        → UnorderedMap.find t w.mgr.bk_factory ≡ UnorderedMap.find t types
    factory-types t w h = ap (UnorderedMap.find t) h.factories

    pub both_known-is_known :
        (a b : ℤ) (w : World Class E) (m : Table)
        → Shows w m
        → both_known (address a w) (address b w) ≡ (is_known (m a) && is_known (m b))
    both_known-is_known a b w m h =
        let at_a = ap is_known (sym (h.shows a)) in
        let at_b = ap is_known (sym (h.shows b)) in
        elim (known-cases w a h.inv) [
          | inl (missing, unknown) ↦ rw (missing, at_a, unknown) refl
          | inr (p, found, known) ↦ elim (known-cases w b h.inv) [
            | inl (missing, unknown) ↦ rw (found, missing, at_a, known, at_b, unknown) refl
            | inr (q, found', known') ↦ rw (found, found', at_a, known, at_b, known') refl
          ]
        ]
