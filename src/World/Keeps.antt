-- ===== src/World/Keeps.antt =====
-- What a method leaves true, however it ends: the rules for the monad.
use c3qo.Base.{
  Bool, true, false, ==_iff, ◌∙◌, ap, sym, subst, ℕ, ◌≡◌, refl, none, some, arith, Ptr, Option,
  ◌==◌, Bool-cases, Option-cases, inl, inr,
}
use c3qo.World.Monad.{Block, World, Result, Fault, ok, fault, dangling, M, ◌>>=◌, ◌>>◌}
use c3qo.World.Heap.{or_false, false_unless_null, update, deref, modify_block}

module _ {S E : Type 0} where
  -- A method that ends has a result and a state that satisfy `Q`; a fault satisfies anything.
  abbrev pub Post : {A : Type 0} → (A → World S E → Type 0) → Result (A × World S E) → Type 0
  Post Q (ok (a, w)) = Q a w
  Post Q (fault e) = Unit {0}

  abbrev pub Keeps : {A : Type 0} → (World S E → Type 0) → M S E A → Type 0
  Keeps P m = (w : World S E) → P w → Post (λ _ w'. P w') (m w)

module _ {S E A B : Type 0} where
  pub Post-bind :
      (m : M S E A) (f : A → M S E B) (w : World S E) (P : A → World S E → Type 0)
      (Q : B → World S E → Type 0)
      → Post P (m w)
      → ((a : A) (w' : World S E) → P a w' → Post Q (f a w'))
      → Post Q ((m >>= f) w)
  Post-bind m f w P Q h k = go (m w) h
    where
      go :
          (r : Result (A × World S E))
          → Post P r
          → Post Q (elim r [ ok (a, w') ↦ f a w' | fault e ↦ fault e ])
      go (ok (a, w')) p = k a w' p
      go (fault e) p = tt

  pub Keeps-bind :
      (P : World S E → Type 0) (m : M S E A) (f : A → M S E B)
      → Keeps P m
      → ((a : A) → Keeps P (f a))
      → Keeps P (m >>= f)
  Keeps-bind P m f h k w p =
      Post-bind m f w (λ _ w'. P w') (λ _ w'. P w') (h w p) (λ a w' q. k a w' q)

module _ {S E A : Type 0} where
  pub Keeps-either :
      (P : World S E → Type 0) (b : Bool) (m k : M S E A)
      → Keeps P m
      → Keeps P k
      → Keeps P (elim b as (λ _. M S E A) [ true ↦ m | false ↦ k ])
  Keeps-either P true m k hm hk = hm
  Keeps-either P false m k hm hk = hk

module _ {S E A B : Type 0} (m : M S E A) (f : A → M S E B) (w : World S E) where
  pub bind-ok : (a : A) (w' : World S E) → m w ≡ ok (a, w') → (m >>= f) w ≡ f a w'
  bind-ok a w' e = ap (λ r. elim r [ ok (a, w') ↦ f a w' | fault e ↦ fault e ]) e

  pub bind-fault : (x : Fault) → m w ≡ fault x → (m >>= f) w ≡ fault x
  bind-fault x e = ap (λ r. elim r [ ok (a, w') ↦ f a w' | fault e ↦ fault e ]) e

pub update_twice :
    {A : Type 0} (f : ℕ → Option A) (p : ℕ) (x y : Option A)
    → update (update f p x) p y ≡ update f p y
update_twice f p x y = λ i q. by_test q i
  where
    by_test : (q : ℕ) → update (update f p x) p y q ≡ update f p y q
    by_test q = elim (Bool-cases (p == q)) [ inl hit ↦ rw hit | inr miss ↦ rw miss ]

pub update_same :
    {A : Type 0} (f : ℕ → Option A) (p : ℕ) (x : Option A) → f p ≡ x → update f p x ≡ f
update_same f p x e = λ i q. by_test q i
  where
    by_test : (q : ℕ) → update f p x q ≡ f q
    by_test q = elim (Bool-cases (p == q)) [
      | inl hit ↦ rw hit (sym e ∙ ap f ((==_iff p q).0 hit))
      | inr miss ↦ rw miss
    ]

module _ {S E : Type 0} (p : ℕ) (w : World S E) where
  pub deref-live : (b : Block S) → w.heap p ≡ some b → deref p w ≡ ok (b, w)
  unfolding deref
  deref-live b e = ground arith

  pub deref-dead : w.heap p ≡ none → deref p w ≡ fault dangling
  unfolding deref
  deref-dead e = ground arith

  pub write-live :
      (g : Block S → Block S) (b : Block S)
      → w.heap p ≡ some b
      → modify_block p g w ≡ ok (tt, record w { heap = update w.heap p (some (g b)) })
  unfolding modify_block
  write-live g b e = ground arith

  pub write-dead : (g : Block S → Block S) → w.heap p ≡ none → modify_block p g w ≡ fault dangling
  unfolding modify_block
  write-dead g e = ground arith

module _ {S E B : Type 0} (p : ℕ) where
  -- A block that is read is live.
  pub Post-deref :
      (f : Block S → M S E B) (w : World S E) (Q : B → World S E → Type 0)
      → ((b : Block S) → w.heap p ≡ some b → Post Q (f b w))
      → Post Q ((deref p >>= f) w)
  Post-deref f w Q h = elim (Option-cases (w.heap p)) [
    | inl dead ↦ subst (Post Q) (sym (bind-fault (deref p) f w dangling (deref-dead p w dead))) tt
    | inr (b, live) ↦
        subst (Post Q) (sym (bind-ok (deref p) f w b w (deref-live p w b live))) (h b live)
  ]

  -- So is one that is written.
  pub Post-write :
      (g : Block S → Block S) (m : M S E B) (w : World S E) (Q : B → World S E → Type 0)
      → ((b : Block S)
          → w.heap p ≡ some b
          → Post Q (m (record w { heap = update w.heap p (some (g b)) })))
      → Post Q ((modify_block p g >> m) w)
  Post-write g m w Q h = elim (Option-cases (w.heap p)) [
    | inl dead ↦
        subst (Post Q)
          (sym (bind-fault (modify_block p g) (λ _. m) w dangling (write-dead p w g dead))) tt
    | inr (b, live) ↦
        subst (Post Q) (sym (bind-ok (modify_block p g) (λ _. m) w tt _ (write-live p w g b live)))
          (h b live)
  ]

module _ {S E : Type 0} (w : World S E) (Q : Bool → World S E → Type 0) where
  pub Post-or_false :
      (o : Ptr) (k : ℕ → M S E Bool)
      → Q false w
      → ((p : ℕ) → o ≡ some p → Post Q (k p w))
      → Post Q (or_false o k w)
  Post-or_false none k absent present = absent
  Post-or_false (some p) k absent present = present p refl

  pub Post-false_unless_null :
      (o : Ptr) (m : M S E Bool)
      → Q false w
      → (o ≡ none → Post Q (m w))
      → Post Q (false_unless_null o m w)
  Post-false_unless_null none m present absent = absent refl
  Post-false_unless_null (some p) m present absent = present

module _ {S E : Type 0} where
  ending : Result (Unit {0} × World S E) → World S E → World S E
  ending (ok (a, w)) other = w
  ending (fault e) other = other

  pub ok-injective :
      (w w' : World S E) → Path (Result (Unit {0} × World S E)) (ok (tt, w)) (ok (tt, w')) → w ≡ w'
  unfolding ending
  ok-injective w w' h = ap (λ r. ending r w) h

  pub fault-ne-ok :
      (x : Fault) (w : World S E) → Path (Result (Unit {0} × World S E)) (fault x) (ok (tt, w)) → ⊥
  fault-ne-ok x w h = cc
