-- ===== src/Ncli/Exchange.antt =====
-- app/src/ncli.cpp, `start_`, and block/trans_pb: a command from the client to its peer.
use c3qo.Base.{
  ℕ, suc, ◌≡◌, refl, ap, ◌∙◌, Bool, false, Option, none, some, List, [], ◌∷◌, String, length,
  length-append, codes, arith, inl, inr,
}
use c3qo.Buffer.{Buffer, BufferPart, no_parts, whole, take-whole}
use c3qo.Command.{Command, add, start, stop, del, bind, hook_zmq, term, not_set}
use c3qo.World.{Block, World, Vtable, M, Sys, pure, ◌>>=◌, ◌>>◌}
use c3qo.World.Keeps.{bind-ok}
use c3qo.Classes.{Class, CharPtr, Ncli, ncli_at, written}
use c3qo.TransPb.{run_command, trans_data, proto_command_parse, proto_command_reply}
use c3qo.TransPb.Topic.{trans_data-topic}
use c3qo.HookZmq.{append}
use c3qo.HookZmq.Framing.{append-whole}
use c3qo.Flow.{process_data}
use c3qo.Timer.{timer_add}
use c3qo.Ncli.{answer_timer, ncli_start, c_string, text_at}
use c3qo.Ncli.Scan.{put, ncli_at-put}

-- A string as it is received: protobuf sends a null pointer as the empty text.
abbrev pub received_text : CharPtr → String
received_text none = ""
received_text (some s) = s

unfoldable pub received : Command CharPtr → Command String
received (add id name) = add id (received_text name)
received (start id) = start id
received (stop id) = stop id
received (del id) = del id
received (bind id port dest) = bind id port dest
received (hook_zmq id client socket_type name addr) =
    hook_zmq id client socket_type (received_text name) (received_text addr)
received (term b) = term b
received not_set = not_set

length-c_string : (s : String) → suc (length (codes s)) ≡ length (c_string s)
length-c_string s = omega (arith, length-append (codes s) (0 ∷ []))

module _ {E : Type 0} (p : ℕ) (b : Block Class) (w : World Class E) where
  -- A client that knows its peer and its command sends three parts, the name of the peer with its
  -- null byte, "PROTO.CMD" and the packed command, and then adds the timer of the answer. Where
  -- unpacking gives back the command that was packed, a block trans_pb that gets the last two of
  -- these parts runs the client's command and replies with the outcome.
  pub ncli_start-run_command :
      (n m : ℕ) (sys : Sys E) (v v' : Vtable Class E) (pack : Command CharPtr → List ℕ)
      (unpack : List ℕ → Option (Command String)) (q : ℕ) (c : Ncli) (e : E) (s : String)
      (cmd : Command CharPtr) (u : World Class E)
      → c.ncli_peer ≡ some s
      → c.cmd ≡ some cmd
      → unpack (pack cmd) ≡ some (received cmd)
      → let topic = whole (codes "PROTO.CMD") in
        let body = whole (pack cmd) in
        (ncli_start n sys v pack p (put p b w c e)
          ≡ (do
            process_data n v (some (record { parts = whole (c_string s) ∷ topic ∷ body ∷ [] })) p
            added ← timer_add sys (answer_timer p)
            pure tt)
              (put p b w c e))
        × (trans_data m v' unpack q (some (record { parts = topic ∷ body ∷ [] })) u
            ≡ (do
              is_ok ← run_command v' (received cmd)
              proto_command_reply m v' q is_ok
              pure false)
                u)
  unfolding ncli_start proto_command_parse
  ncli_start-run_command n m sys v v' pack unpack q c e s cmd u has_peer has_cmd unpacks = (
    bind-ok (ncli_at p) _ start_world c start_world (ncli_at-put p b w c e)
        ∙ bind-ok (text_at c.ncli_peer) _ start_world s start_world
            (ap (λ o. text_at o start_world) has_peer)
        ∙ bind-ok (append no_parts (c_string s) (suc (length (codes s)))) _ start_world
            (buffer_of []) start_world
            (rw (length-c_string s) (append-whole no_parts (c_string s) start_world))
        ∙ bind-ok (written c.cmd) _ start_world cmd start_world
            (ap (λ o. written o start_world) has_cmd)
        ∙ bind-ok (append (buffer_of []) (codes "PROTO.CMD") 9) _ start_world _ start_world
            (append-whole (buffer_of []) (codes "PROTO.CMD") start_world)
        ∙ bind-ok
            (append (buffer_of (whole (codes "PROTO.CMD") ∷ [])) (pack cmd) (length (pack cmd))) _
            start_world _ start_world
            (append-whole (buffer_of (whole (codes "PROTO.CMD") ∷ [])) (pack cmd) start_world),
    elim (trans_data-topic m v' unpack q (whole (codes "PROTO.CMD")) (whole (pack cmd)) u
        (omega arith) (omega arith)) [
          | inr (other, x) ↦ absurd (other refl)
          | inl (same, x) ↦
              x
              ∙ ap (λ bytes. run_bytes bytes u) (take-whole (pack cmd))
              ∙ ap (λ o. run_unpacked o u) unpacks
        ],
  )
    where
      start_world : World Class E
      start_world = put p b w c e

      buffer_of : List BufferPart → Buffer
      buffer_of l = record { parts = whole (c_string s) ∷ l }

      run_bytes : List ℕ → M Class E Bool
      run_bytes bytes = do
        is_ok ← proto_command_parse v' unpack bytes
        proto_command_reply m v' q is_ok
        pure false

      run_unpacked : Option (Command String) → M Class E Bool
      run_unpacked o = do
        is_ok ← elim o as (λ _. M Class E Bool) [ none ↦ pure false | some x ↦ run_command v' x ]
        proto_command_reply m v' q is_ok
        pure false
