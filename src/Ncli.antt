-- ===== src/Ncli.antt =====
-- app/src/ncli.cpp: the block of the command line client, which sends one command to a peer and
-- waits for the answer.
pub mod Options
pub mod Scan
pub mod Fields
pub mod Parse
pub mod Exchange
pub mod Receive
pub mod Answer
pub mod Invariant
pub mod Samples
mod Tests
use c3qo.Base.{
  ℕ, suc, Bool, true, false, Option, none, some, List, [], ◌∷◌, ◌++◌, String, pos, length, codes,
}
use c3qo.Buffer.{BufferPart, no_parts}
use c3qo.Command.{Command, memcmp_eq, topic_reply}
use c3qo.World.{
  Timespec, Timer, Message, Vtable, Sys, M, pure, fail, call, out_of_range, null_pointer, ◌>>=◌,
  ◌>>◌,
}
use c3qo.Classes.{Class, CharPtr, Ncli, ncli, ncli_at, edit_ncli, written}
use c3qo.HookZmq.{append}
use c3qo.Timer.{timer_add, timer_del}
use c3qo.Flow.{process_data}

-- `ncli::ncli`
abbrev pub new_ncli : Class
new_ncli = ncli (record {
  ncli_peer = none;
  ncli_cmd_type = none;
  ncli_cmd_args = none;
  ncli_cmd_ret = none;
  words = none;
  cmd = none;
  add_id = pos 0;
  add_type = none;
  start_id = pos 0;
  stop_id = pos 0;
  del_id = pos 0;
  bind_id = pos 0;
  bind_port = pos 0;
  bind_dest = pos 0;
  hook_zmq_id = pos 0;
  hook_zmq_client = false;
  hook_zmq_type = pos 0;
  hook_zmq_name = none;
  hook_zmq_addr = none;
  received_answer = none;
  timeout_expired = none;
})

-- The timer of the answer, one second from now. `stop_` fills in `bk` and `tid` only, which is all
-- that the removal reads.
abbrev pub answer_timer : ℕ → Timer
answer_timer p = record {
  bk = some p;
  time = record { tv_sec = pos 1; tv_nsec = pos 0 };
  arg = none;
  tid = pos 1;
}

-- The array at a text's address, with its null byte.
abbrev pub c_string : String → List ℕ
c_string s = codes s ++ 0 ∷ []

module _ {E : Type 0} where
  -- A pointer that is dereferenced with no test.
  abbrev pub text_at : CharPtr → M Class E String
  text_at none = fail null_pointer
  text_at (some s) = pure s

  -- `memcmp(part.data, text, part.len) != 0`
  unfoldable pub differs : BufferPart → List ℕ → M Class E Bool
  differs part text = elim (memcmp_eq part.len part.bytes text) [
    | none ↦ fail out_of_range
    | some same ↦ elim same [ true ↦ pure false | false ↦ pure true ]
  ]

  -- `start_`; `pack` is `command__pack`, whose array is as long as `command__get_packed_size` says.
  unfoldable pub ncli_start :
      ℕ → Sys E → Vtable Class E → (Command CharPtr → List ℕ) → ℕ → M Class E (Unit {0})
  ncli_start n sys v pack p = do
    c ← ncli_at p
    peer ← text_at c.ncli_peer
    buf ← append no_parts (c_string peer) (suc (length (codes peer)))
    cmd ← written c.cmd
    buf' ← append buf (codes "PROTO.CMD") 9
    buf'' ← append buf' (pack cmd) (length (pack cmd))
    process_data n v (some buf'') p
    added ← timer_add sys (answer_timer p)
    pure tt

  -- `stop_`; what `wordfree` does to the words is left out.
  unfoldable pub ncli_stop : ℕ → M Class E (Unit {0})
  ncli_stop p = do timer_del (answer_timer p); c ← ncli_at p; words ← written c.words; pure tt

  -- `data_` on a message of three parts: the test of `||`, and what follows it
  unfoldable pub is_unexpected : Ncli → BufferPart → BufferPart → BufferPart → M Class E Bool
  is_unexpected c peer topic status = do
    expected_peer ← text_at c.ncli_peer
    other_peer ← differs peer (c_string expected_peer)
    elim other_peer [
      | true ↦ pure true
      | false ↦ do
        other_topic ← differs topic topic_reply
        elim other_topic [
          | true ↦ pure true
          | false ↦ do expected_ret ← text_at c.ncli_cmd_ret; differs status (c_string expected_ret)
        ]
    ]

  unfoldable pub ncli_parts : ℕ → List BufferPart → M Class E Bool
  ncli_parts p (peer ∷ topic ∷ status ∷ []) = do
    c ← ncli_at p
    unexpected ← is_unexpected c peer topic status
    elim unexpected [
      | true ↦ pure false
      | false ↦ do edit_ncli p (λ d. record d { received_answer = some true }); pure false
    ]
  ncli_parts p _ = pure false

  unfoldable pub ncli_data : ℕ → Message → M Class E Bool
  ncli_data p none = fail null_pointer
  ncli_data p (some buf) = ncli_parts p buf.parts

  unfoldable pub ncli_on_timer : ℕ → Timer → M Class E (Unit {0})
  ncli_on_timer p tm = edit_ncli p (λ d. record d { timeout_expired = some true })
