-- ===== src/Invariant/Rules.antt =====
-- Rules for methods that keep the invariant, by the shape of their code.
use c3qo.Base.{ℕ, Bool, true, false, Option, none, some, refl, Option-cases, inl, inr}
use c3qo.World.{Block, M, pure, deref, ◌>>=◌}
use c3qo.World.Keeps.{Keeps, Keeps-bind, Keeps-either, Post-deref, write-live, write-dead}
use c3qo.Classes.{
  Class, Ncli, written, as_hello, as_hook_zmq, hello_at, hook_at, ncli_at, edit_ncli, as_ncli,
  set_self,
}
use c3qo.Blocks.Writes.{Inv-write}
use c3qo.Invariant.{Inv}

module _ {S E A : Type 0} where
  pub Keeps-pure : (a : A) → Keeps {S = S} {E = E} Inv (pure a)
  Keeps-pure a w i = i

  pub Keeps-if :
      (b : Bool) (m k : M S E A)
      → Keeps Inv m
      → Keeps Inv k
      → Keeps Inv (elim b as (λ _. M S E A) [ true ↦ m | false ↦ k ])
  Keeps-if b m k hm hk = Keeps-either Inv b m k hm hk

  pub Keeps-deref :
      (p : ℕ) (f : Block S → M S E A)
      → ((b : Block S) → Keeps Inv (f b))
      → Keeps Inv (deref p >>= f)
  Keeps-deref p f h w i = Post-deref p f w _ (λ b _. h b w i)

module _ {E : Type 0} where
  pub Keeps-set_self : (p : ℕ) (s : Class) → Keeps {S = Class} {E = E} Inv (set_self p s)
  Keeps-set_self p s w i = elim (Option-cases (w.heap p)) [
    | inl dead ↦ rw (write-dead p w _ dead) tt
    | inr (b, live) ↦ rw (write-live p w _ b live) (Inv-write w p b _ i live refl)
  ]

  pub Keeps-written : {A : Type 0} (o : Option A) → Keeps {S = Class} {E = E} Inv (written o)
  Keeps-written none w i = tt
  Keeps-written (some a) w i = i

  Keeps-as_hook : (s : Class) → Keeps {S = Class} {E = E} Inv (as_hook_zmq s)
  Keeps-as_hook (Class.hook_zmq h) w i = i
  Keeps-as_hook _ w i = tt

  Keeps-as_hello : (s : Class) → Keeps {S = Class} {E = E} Inv (as_hello s)
  Keeps-as_hello (Class.hello h) w i = i
  Keeps-as_hello _ w i = tt

  pub Keeps-hook_at : (p : ℕ) → Keeps {S = Class} {E = E} Inv (hook_at p)
  unfolding hook_at
  Keeps-hook_at p = Keeps-deref p _ (λ b. Keeps-as_hook b.self)

  pub Keeps-hello_at : (p : ℕ) → Keeps {S = Class} {E = E} Inv (hello_at p)
  unfolding hello_at
  Keeps-hello_at p = Keeps-deref p _ (λ b. Keeps-as_hello b.self)

  Keeps-as_ncli : (s : Class) → Keeps {S = Class} {E = E} Inv (as_ncli s)
  Keeps-as_ncli (Class.ncli c) w i = i
  Keeps-as_ncli _ w i = tt

  pub Keeps-ncli_at : (p : ℕ) → Keeps {S = Class} {E = E} Inv (ncli_at p)
  unfolding ncli_at
  Keeps-ncli_at p = Keeps-deref p _ (λ b. Keeps-as_ncli b.self)

  pub Keeps-edit_ncli : (p : ℕ) (f : Ncli → Ncli) → Keeps {S = Class} {E = E} Inv (edit_ncli p f)
  unfolding edit_ncli
  Keeps-edit_ncli p f = Keeps-bind Inv (ncli_at p) _ (Keeps-ncli_at p) λ c. Keeps-set_self p _
