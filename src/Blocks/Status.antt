-- ===== src/Blocks/Status.antt =====
-- The life of a block as its identifier shows it: absent, stopped or started. The operations of
-- manager_bk.cpp follow this automaton, and touch no other identifier.
use c3qo.Base.{
  ℕ, ◌≡◌, ◌≢◌, sym, ap, ◌∙◌, Bool, true, false, Option, none, some, List, ℤ, Ptr, int_eq, string_eq,
  arith, if◌then◌else◌, ◌==◌, Option-cases, Bool-cases, ◌⊎◌, inl, inr,
}
use c3qo.UnorderedMap
use c3qo.World.{Block, World, ok, M, update}
use c3qo.Blocks.Writes.{other_address}
use c3qo.Invariant.{Inv}

pub data Status : Type 0 where
  absent stopped started : Status

module _ {S : Type 0} where
  pub status_of : Option (Block S) → Status
  status_of none = absent
  status_of (some b) = if b.is_started then started else stopped

  pub status_of-started : (b : Block S) → b.is_started ≡ true → status_of (some b) ≡ started
  unfolding status_of
  status_of-started b on = ap (λ s. if s then started else stopped) on

  pub status_of-same :
      (b c : Block S) → b.is_started ≡ c.is_started → status_of (some b) ≡ status_of (some c)
  unfolding status_of
  status_of-same b c e = ap (λ s. if s then started else stopped) e

  pub status_of-stopped : (b : Block S) → b.is_started ≡ false → status_of (some b) ≡ stopped
  unfolding status_of
  status_of-stopped b off = ap (λ s. if s then started else stopped) off

-- What the calls answer and where they lead, by the status they find.
abbrev pub is_known : Status → Bool
is_known absent = false
is_known stopped = true
is_known started = true

abbrev pub is_stopped : Status → Bool
is_stopped absent = false
is_stopped stopped = true
is_stopped started = false

abbrev pub after_start : Status → Status
after_start absent = absent
after_start stopped = started
after_start started = started

abbrev pub after_stop : Status → Status
after_stop absent = absent
after_stop stopped = stopped
after_stop started = stopped

abbrev pub after_del : Status → Status
after_del absent = absent
after_del stopped = absent
after_del started = started

module _ {S E : Type 0} where
  pub at_address : World S E → Ptr → Status
  at_address w none = absent
  at_address w (some p) = status_of (w.heap p)

  pub status : ℤ → World S E → Status
  unfolding at_address status_of
  status id w = at_address w (UnorderedMap.find id w.mgr.bk_map)

  -- A callback that returns, keeps the invariant, and starts, stops and removes no block.
  abbrev pub Quiet : M S E (Unit {0}) → World S E → Type 0
  Quiet m w = (w' : World S E) × (m w ≡ ok (tt, w')) × Inv w' × ((j : ℤ) → status j w' ≡ status j w)

  -- The world in which a block's `start_` or `stop_` is called.
  abbrev pub switched : Bool → ℕ → Block S → World S E → World S E
  switched on p b w = record w { heap = update w.heap p (some (record b { is_started = on })) }

  pub switched-live :
      (on : Bool) (p : ℕ) (b : Block S) (w : World S E)
      → (switched on p b w).heap p ≡ some (record b { is_started = on })
  switched-live on p b w = let self : (p == p) ≡ true = ground arith in rw self

  -- A call that answers, brings `id` to a status, and leaves that of all the others.
  abbrev pub Moves : ℤ → M S E Bool → World S E → Bool → Status → Type 0
  Moves id m w answer after =
      (w' : World S E) × (m w ≡ ok (answer, w'))
      × (status id w' ≡ after)
      × ((j : ℤ) → j ≢ id → status j w' ≡ status j w)

  -- A write to the block of `id`, with what it leaves to read there.
  pub status-write :
      (w : World S E) (id : ℤ) (p : ℕ) (o : Option (Block S)) (table : List (ℤ × ℕ))
      → UnorderedMap.find id table ≡ some p
      → status id (record w { heap = update w.heap p o; mgr = record w.mgr { bk_map = table } })
        ≡ status_of o
  unfolding status
  status-write w id p o table found = let self : (p == p) ≡ true = ground arith in rw (found, self)

  pub status-write_other :
      (w : World S E) (id j : ℤ) (p : ℕ) (o : Option (Block S)) (b : Block S) (table : List (ℤ × ℕ))
      → Inv w
      → UnorderedMap.find id w.mgr.bk_map ≡ some p
      → w.heap p ≡ some b
      → b.id ≡ id
      → UnorderedMap.find j table ≡ UnorderedMap.find j w.mgr.bk_map
      → j ≢ id
      → status j (record w { heap = update w.heap p o; mgr = record w.mgr { bk_map = table } })
        ≡ status j w
  unfolding status
  status-write_other w id j p o b table i found live is kept ne =
      elim (Option-cases (UnorderedMap.find j w.mgr.bk_map)) [
        | inl missing ↦ rw (kept, missing)
        | inr (q, at) ↦
            let (d, live', is') = i.registered j q at in
            let miss = other_address w p q b d live live' (λ e. ne (sym is' ∙ sym e ∙ is)) in
            rw (kept, at, miss)
      ]

  pub status-found :
      (w : World S E) (id : ℤ) (p : ℕ) (b : Block S)
      → UnorderedMap.find id w.mgr.bk_map ≡ some p
      → w.heap p ≡ some b
      → status id w ≡ status_of (some b)
  unfolding status
  status-found w id p b found live = rw (found, live)

  pub status-missing :
      (w : World S E) (id : ℤ) → UnorderedMap.find id w.mgr.bk_map ≡ none → status id w ≡ absent
  unfolding status
  status-missing w id missing = rw missing

  -- The same address, with a block of the same status.
  pub status-same :
      (w w' : World S E) (j : ℤ)
      → UnorderedMap.find j w'.mgr.bk_map ≡ UnorderedMap.find j w.mgr.bk_map
      → ((q : ℕ)
          → UnorderedMap.find j w.mgr.bk_map ≡ some q
          → status_of (w'.heap q) ≡ status_of (w.heap q))
      → status j w' ≡ status j w
  unfolding status
  status-same w w' j kept same = elim (Option-cases (UnorderedMap.find j w.mgr.bk_map)) [
    | inl missing ↦ rw (kept, missing)
    | inr (q, at) ↦ rw (kept, at) (same q at)
  ]

  -- An identifier has an address exactly if its status is known.
  pub known-cases :
      (w : World S E) (id : ℤ)
      → Inv w
      → ((UnorderedMap.find id w.mgr.bk_map ≡ none) × (is_known (status id w) ≡ false))
        ⊎ ((p : ℕ) × (UnorderedMap.find id w.mgr.bk_map ≡ some p) × (is_known (status id w) ≡ true))
  known-cases w id i = elim (Option-cases (UnorderedMap.find id w.mgr.bk_map)) [
    | inl missing ↦ inl (missing, ap is_known (status-missing w id missing))
    | inr (p, found) ↦
        let (b, live, is) = i.registered id p found in
        let now = status-found w id p b found live in
        elim (Bool-cases b.is_started) [
          | inl active ↦ inr (p, found, ap is_known (now ∙ status_of-started b active))
          | inr idle ↦ inr (p, found, ap is_known (now ∙ status_of-stopped b idle))
        ]
  ]
