-- ===== src/Ncli/Answer.antt =====
-- block/trans_pb, `proto_command_reply`, and app/src/ncli.cpp, `data_`: the answer to a command.
use c3qo.Base.{
  ℕ, ◌≡◌, ◌⊎◌, refl, sym, ◌∙◌, Bool, true, false, some, List, [], ◌∷◌, String, length,
  length-append, codes, arith, inl, inr, if◌then◌else◌,
}
use c3qo.Buffer.{Buffer, BufferPart, no_parts, whole, take-whole, take-length}
use c3qo.World.{Block, World, Vtable, ok, ◌>>=◌}
use c3qo.World.Keeps.{bind-ok}
use c3qo.Classes.{Class, Ncli}
use c3qo.HookZmq.{append}
use c3qo.HookZmq.Framing.{append-whole}
use c3qo.Flow.{process_data}
use c3qo.TransPb.{proto_command_reply}
use c3qo.Ncli.{c_string, ncli_data}
use c3qo.Ncli.Scan.{put}
use c3qo.Ncli.Receive.{IsPrefix, InBounds, ncli_data-received}

-- The status of an outcome.
abbrev pub status_of : Bool → String
status_of true = "OK"
status_of false = "KO"

abbrev pub agree : Bool → Bool → Bool
agree true true = true
agree false false = true
agree _ _ = false

-- The parts of a reply.
abbrev pub reply : Bool → List BufferPart
reply is_ok = whole (codes "PROTO.CMD.REP") ∷ whole (codes (status_of is_ok)) ∷ []

whole-InBounds : (s : String) → InBounds (whole (c_string s)) (c_string s)
whole-InBounds s = (omega (arith, length-append (c_string s) (0 ∷ [])), omega arith)

whole-IsPrefix : (s : String) → IsPrefix (whole (c_string s)) (c_string s)
whole-IsPrefix s = take-whole (c_string s) ∙ sym (take-length (c_string s))

status-InBounds : (x y : Bool) → InBounds (whole (codes (status_of x))) (c_string (status_of y))
status-InBounds true true = (omega arith, omega arith)
status-InBounds true false = (omega arith, omega arith)
status-InBounds false true = (omega arith, omega arith)
status-InBounds false false = (omega arith, omega arith)

prefix-agree :
    (x y : Bool)
    → (IsPrefix (whole (codes (status_of x))) (c_string (status_of y)) × (agree x y ≡ true))
      ⊎ ((¬ IsPrefix (whole (codes (status_of x))) (c_string (status_of y))) × (agree x y ≡ false))
prefix-agree true true = inl (refl, refl)
prefix-agree true false = inr (λ h. ground arith, refl)
prefix-agree false true = inr (λ h. ground arith, refl)
prefix-agree false false = inl (refl, refl)

module _ {E : Type 0} where
  both :
      (n : ℕ) (v : Vtable Class E) (q : ℕ) (u : World Class E) (status : List ℕ)
      → (do
        buf ← append no_parts (codes "PROTO.CMD.REP") 13
        buf' ← append buf status (length status)
        process_data n v (some buf') q)
          u
        ≡ process_data n v
            (some (record { parts = whole (codes "PROTO.CMD.REP") ∷ whole status ∷ [] }))
            q
            u
  both n v q u status =
      let topic : Buffer = record { parts = whole (codes "PROTO.CMD.REP") ∷ [] } in
      bind-ok (append no_parts (codes "PROTO.CMD.REP") 13) _ u topic u
        (append-whole no_parts (codes "PROTO.CMD.REP") u)
      ∙ bind-ok (append topic status (length status)) _ u _ u (append-whole topic status u)

  pub reply-sent :
      (n : ℕ) (v : Vtable Class E) (q : ℕ) (is_ok : Bool) (u : World Class E)
      → proto_command_reply n v q is_ok u
        ≡ process_data n v (some (record { parts = reply is_ok })) q u
  unfolding proto_command_reply
  reply-sent n v q true u = both n v q u (codes "OK")
  reply-sent n v q false u = both n v q u (codes "KO")

  -- A block trans_pb replies with two parts, "PROTO.CMD.REP" and the outcome. A client that receives
  -- them behind its peer's name with the null byte takes the answer as received exactly if the
  -- outcome is the one that it was told to expect.
  pub ncli_data-reply :
      (n : ℕ) (v : Vtable Class E) (q : ℕ) (is_ok expected : Bool) (u : World Class E) (p : ℕ)
      (b : Block Class) (w : World Class E) (c : Ncli) (e : E) (s : String)
      → c.ncli_peer ≡ some s
      → c.ncli_cmd_ret ≡ some (status_of expected)
      → (proto_command_reply n v q is_ok u
          ≡ process_data n v (some (record { parts = reply is_ok })) q u)
        × (ncli_data p (some (record { parts = whole (c_string s) ∷ reply is_ok })) (put p b w c e)
            ≡ ok (
              false,
              put p b w
                  (if agree is_ok expected then record c { received_answer = some true } else c)
                  e,
            ))
  ncli_data-reply n v q is_ok expected u p b w c e s has_peer has_ret =
      (reply-sent n v q is_ok u, by_outcome is_ok expected has_ret)
    where
      by_outcome :
          (x y : Bool)
          → c.ncli_cmd_ret ≡ some (status_of y)
          → ncli_data p (some (record { parts = whole (c_string s) ∷ reply x })) (put p b w c e)
            ≡ ok (
              false,
              put p b w (if agree x y then record c { received_answer = some true } else c) e,
            )
      by_outcome x y has =
          elim (ncli_data-received p b w c e (whole (c_string s)) (whole (codes "PROTO.CMD.REP"))
            (whole (codes (status_of x))) s (status_of y) has_peer has (whole-InBounds s)
            (omega arith, omega arith) (status-InBounds x y)) [
              | inl (all, r) ↦ elim (prefix-agree x y) [
                | inl (same, a) ↦ rw a r
                | inr (differ, a) ↦ absurd (differ all.2)
              ]
              | inr (other, r) ↦ elim (prefix-agree x y) [
                | inl (same, a) ↦ absurd (other (whole-IsPrefix s, refl, same))
                | inr (differ, a) ↦ rw a r
              ]
            ]
