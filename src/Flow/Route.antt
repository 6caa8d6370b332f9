-- ===== src/Flow/Route.antt =====
-- engine/src/block.cpp, `block::process_data_`: the route of a message along the sinks, which the
-- code follows with no bound of its own.
use c3qo.Base.{
  ℕ, zero, suc, ◌<◌, ◌≡◌, refl, sym, subst, ◌∙◌, true, false, none, some, List, [], ◌∷◌, length,
  Option-cases, inl, inr, ◌⊎◌, arith,
}
use c3qo.World.{
  Block, World, Message, Vtable, Result, ok, fault, Fault, dangling, out_of_fuel, deref,
}
use c3qo.World.Keeps.{ok-injective, fault-ne-ok, bind-ok, bind-fault, deref-live, deref-dead}
use c3qo.Flow.{process_data}

Result-cases : {A : Type 0} (r : Result A) → ((a : A) × (r ≡ ok a)) ⊎ ((e : Fault) × (r ≡ fault e))
Result-cases (ok a) = inl (a, refl)
Result-cases (fault e) = inr (e, refl)

module _ {S E : Type 0} (v : Vtable S E) (msg : Message) where
  -- From a block and a state, the blocks whose `data_` the message is handed to, and the last
  -- state: each is the sink of the one before it, and the first that answers false is the last.
  pub data Route : ℕ → World S E → List ℕ → World S E → Type 0 where
    stay :
        {p : ℕ} {w : World S E} (b : Block S) → w.heap p ≡ some b → b.sink ≡ none → Route p w [] w
    consumed :
        {p : ℕ} {w w1 : World S E} (b : Block S) (q : ℕ)
        → w.heap p ≡ some b
        → b.sink ≡ some q
        → v.on_data q msg w ≡ ok (false, w1)
        → Route p w (q ∷ []) w1
    forwarded :
        {p : ℕ} {w w1 w2 : World S E} {qs : List ℕ} (b : Block S) (q : ℕ)
        → w.heap p ≡ some b
        → b.sink ≡ some q
        → v.on_data q msg w ≡ ok (true, w1)
        → Route q w1 qs w2
        → Route p w (q ∷ qs) w2

  module _ (n p : ℕ) (w : World S E) where
    process_data-dead : w.heap p ≡ none → process_data (suc n) v msg p w ≡ fault dangling
    unfolding process_data
    process_data-dead dead = bind-fault (deref p) _ w dangling (deref-dead p w dead)

    process_data-stay :
        (b : Block S)
        → w.heap p ≡ some b
        → b.sink ≡ none
        → process_data (suc n) v msg p w ≡ ok (tt, w)
    unfolding process_data
    process_data-stay b live last = bind-ok (deref p) _ w b w (deref-live p w b live) ∙ rw last

    module _ (b : Block S) (q : ℕ) (live : w.heap p ≡ some b) (next : b.sink ≡ some q) where
      process_data-forwarded :
          (w1 : World S E)
          → v.on_data q msg w ≡ ok (true, w1)
          → process_data (suc n) v msg p w ≡ process_data n v msg q w1
      unfolding process_data
      process_data-forwarded w1 e =
          bind-ok (deref p) _ w b w (deref-live p w b live)
          ∙ rw next (bind-ok (v.on_data q msg) _ w true w1 e)

      process_data-consumed :
          (w1 : World S E)
          → v.on_data q msg w ≡ ok (false, w1)
          → process_data (suc n) v msg p w ≡ ok (tt, w1)
      unfolding process_data
      process_data-consumed w1 e =
          bind-ok (deref p) _ w b w (deref-live p w b live)
          ∙ rw next (bind-ok (v.on_data q msg) _ w false w1 e)

      pub process_data-fault :
          (x : Fault) → v.on_data q msg w ≡ fault x → process_data (suc n) v msg p w ≡ fault x
      unfolding process_data
      process_data-fault x e =
          bind-ok (deref p) _ w b w (deref-live p w b live)
          ∙ rw next (bind-fault (v.on_data q msg) _ w x e)

  -- Where there is a route from a block, `process_data_` follows it to its end and returns, given a
  -- round for each block that the message is handed to and one more.
  pub process_data-Route :
      (n : ℕ) {p : ℕ} {w w' : World S E} {qs : List ℕ}
      → Route p w qs w'
      → length qs < n
      → process_data n v msg p w ≡ ok (tt, w')
  process_data-Route zero r le = absurd (omega arith)
  process_data-Route (suc n) {p = p} {w = w} (stay b live last) le =
      process_data-stay n p w b live last
  process_data-Route (suc n) {p = p} {w = w} (consumed b q live next e) le =
      process_data-consumed n p w b q live next _ e
  process_data-Route (suc n) {p = p} {w = w} (forwarded b q live next e rest) le =
      process_data-forwarded n p w b q live next _ e ∙ process_data-Route n rest (omega arith)

  -- Whenever `process_data_` returns, the message has been handed to the blocks of a route, and the
  -- state is the one at the end of it.
  pub Route-process_data :
      (n p : ℕ) (w w' : World S E)
      → process_data n v msg p w ≡ ok (tt, w')
      → (qs : List ℕ) × Route p w qs w'
  unfolding process_data
  Route-process_data zero p w w' h = absurd (fault-ne-ok out_of_fuel w' h)
  Route-process_data (suc n) p w w' h = elim (Option-cases (w.heap p)) [
    | inl dead ↦ absurd (fault-ne-ok dangling w' (sym (process_data-dead n p w dead) ∙ h))
    | inr (b, live) ↦ elim (Option-cases b.sink) [
      | inl last ↦ (
        [],
        subst (Route p w []) (ok-injective w w' (sym (process_data-stay n p w b live last) ∙ h))
            (stay b live last),
      )
      | inr (q, next) ↦ elim (Result-cases (v.on_data q msg w)) [
        | inr (x, e) ↦
            absurd (fault-ne-ok x w' (sym (process_data-fault n p w b q live next x e) ∙ h))
        | inl ((true, w1), e) ↦
            let (qs, rest) =
              Route-process_data n q w1 w'
                (sym (process_data-forwarded n p w b q live next w1 e) ∙ h) in
            (q ∷ qs, forwarded b q live next e rest)
        | inl ((false, w1), e) ↦ (
          q ∷ [],
          subst (Route p w (q ∷ []))
              (ok-injective w1 w' (sym (process_data-consumed n p w b q live next w1 e) ∙ h))
              (consumed b q live next e),
        )
      ]
    ]
  ]
