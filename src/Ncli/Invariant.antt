-- ===== src/Ncli/Invariant.antt =====
-- The methods of app/src/ncli.cpp keep the invariant of the engine.
pub mod Options
use c3qo.Base.{
  ℕ, suc, Bool, true, false, Option, none, some, List, [], ◌∷◌, ◌++◌, length, codes, Option-cases,
  inl, inr,
}
use c3qo.Buffer.{BufferPart, no_parts}
use c3qo.Command.{Command, memcmp_eq, topic_reply}
use c3qo.World.{Timer, Message, Vtable, Sys, pure, fail, null_pointer}
use c3qo.World.Keeps.{Keeps, Keeps-bind}
use c3qo.Classes.{Class, CharPtr, Ncli, ncli_at, edit_ncli, written}
use c3qo.HookZmq.{append}
use c3qo.HookZmq.Invariant.{append-Inv}
use c3qo.Timer.{timer_add, timer_del}
use c3qo.Flow.{process_data}
use c3qo.Ncli.{
  text_at, c_string, differs, answer_timer, ncli_start, ncli_stop, is_unexpected, ncli_parts,
  ncli_data, ncli_on_timer,
}
use c3qo.Invariant.{Inv, Respects}
use c3qo.Invariant.Calls.{process_data-Inv, timer_add-Inv, timer_del-Inv}
use c3qo.Invariant.Rules.{Keeps-pure, Keeps-if, Keeps-written, Keeps-ncli_at, Keeps-edit_ncli}

module _ {E : Type 0} where
  pub text_at-Inv : (s : CharPtr) → Keeps {S = Class} {E = E} Inv (text_at s)
  text_at-Inv none w i = tt
  text_at-Inv (some t) w i = i

  differs-Inv :
      (part : BufferPart) (text : List ℕ) → Keeps {S = Class} {E = E} Inv (differs part text)
  unfolding differs
  differs-Inv part text w i = elim (Option-cases (memcmp_eq part.len part.bytes text)) [
    | inl over ↦ rw (over, differs) tt
    | inr (true, e) ↦ rw (e, differs) i
    | inr (false, e) ↦ rw (e, differs) i
  ]

  pub ncli_start-Inv :
      (n : ℕ) (sys : Sys E) (v : Vtable Class E) (r : Respects v) (pack : Command CharPtr → List ℕ)
      (p : ℕ)
      → Keeps Inv (ncli_start n sys v pack p)
  unfolding ncli_start
  ncli_start-Inv n sys v r pack p = Keeps-bind Inv (ncli_at p) _ (Keeps-ncli_at p) λ c.
      Keeps-bind Inv (text_at c.ncli_peer) _ (text_at-Inv c.ncli_peer) λ peer.
        Keeps-bind Inv (append no_parts _ _) _
          (append-Inv no_parts (c_string peer) (suc (length (codes peer))))
          λ buf. Keeps-bind Inv (written c.cmd) _ (Keeps-written c.cmd) λ cmd.
            Keeps-bind Inv (append buf _ _) _ (append-Inv buf (codes "PROTO.CMD") 9) λ buf'.
              Keeps-bind Inv (append buf' _ _) _ (append-Inv buf' (pack cmd) (length (pack cmd)))
                λ buf''.
                  Keeps-bind Inv (process_data n v (some buf'') p) _
                    (process_data-Inv v r n (some buf'') p)
                    λ _.
                      Keeps-bind Inv (timer_add sys (answer_timer p)) _
                        (timer_add-Inv sys (answer_timer p)) λ _. Keeps-pure tt

  pub ncli_stop-Inv : (p : ℕ) → Keeps {E = E} Inv (ncli_stop p)
  unfolding ncli_stop
  ncli_stop-Inv p =
      Keeps-bind Inv (timer_del (answer_timer p)) _ (timer_del-Inv (answer_timer p)) λ _.
        Keeps-bind Inv (ncli_at p) _ (Keeps-ncli_at p)
          λ c. Keeps-bind Inv (written c.words) _ (Keeps-written c.words) λ _. Keeps-pure tt

  is_unexpected-Inv :
      (c : Ncli) (peer topic status : BufferPart)
      → Keeps {E = E} Inv (is_unexpected c peer topic status)
  unfolding is_unexpected
  is_unexpected-Inv c peer topic status =
      Keeps-bind Inv (text_at c.ncli_peer) _ (text_at-Inv c.ncli_peer) λ expected.
        Keeps-bind Inv (differs peer (c_string expected)) _ (differs-Inv peer (c_string expected))
          λ other. Keeps-if other (pure true) _ (Keeps-pure true) (
            Keeps-bind Inv (differs topic topic_reply) _ (differs-Inv topic topic_reply) λ other'.
              Keeps-if other' (pure true) _ (Keeps-pure true) (
                Keeps-bind Inv (text_at c.ncli_cmd_ret) _ (text_at-Inv c.ncli_cmd_ret)
                  λ ret. differs-Inv status (c_string ret)))

  ncli_parts-Inv : (p : ℕ) (l : List BufferPart) → Keeps {E = E} Inv (ncli_parts p l)
  unfolding ncli_parts
  ncli_parts-Inv p (peer ∷ topic ∷ status ∷ []) =
      Keeps-bind Inv (ncli_at p) _ (Keeps-ncli_at p) λ c.
        Keeps-bind Inv (is_unexpected c peer topic status) _ (is_unexpected-Inv c peer topic status)
          λ u.
            Keeps-if u (pure false) _ (Keeps-pure false)
              (Keeps-bind Inv (edit_ncli p _) _ (Keeps-edit_ncli p _) λ _. Keeps-pure false)
  ncli_parts-Inv p _ = Keeps-pure false

  pub ncli_data-Inv : (p : ℕ) (m : Message) → Keeps {E = E} Inv (ncli_data p m)
  unfolding ncli_data
  ncli_data-Inv p none = λ w i. tt
  ncli_data-Inv p (some buf) = ncli_parts-Inv p buf.parts

  pub ncli_on_timer-Inv : (p : ℕ) (t : Timer) → Keeps {E = E} Inv (ncli_on_timer p t)
  unfolding ncli_on_timer
  ncli_on_timer-Inv p t = Keeps-edit_ncli p _
