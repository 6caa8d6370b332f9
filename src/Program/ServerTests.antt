-- ===== src/Program/ServerTests.antt =====
-- Examples of commands that arrive: a system that is no more than what goes in and out on a socket.
use mathlib.Core.List.{append-nil}
use c3qo.Base.{
  ◌≡◌, refl, sym, true, false, Bool, none, some, List, [], ◌∷◌, ◌++◌, ℤ, pos, negsuc, ℕ, arith,
  int_eq, string_eq, length, eq_ptr, String, codes, if◌then◌else◌,
}
use c3qo.UnorderedMap
use c3qo.Buffer.{BufferPart, whole}
use c3qo.Command.{Command, start, term}
use c3qo.World.{Block, World, Sys, Received, FileDesc, Events, ok, update}
use c3qo.Classes.{Class, Ncli, HookZmq, hook_zmq, trans_pb}
use c3qo.Flow.{new_block}
use c3qo.Blocks.{block_start, block_get}
use c3qo.TransPb.{run_command}
use c3qo.Dispatch.{Platform, vtable}
use c3qo.HookZmq.Framing.{frames}
use c3qo.Ncli.Answer.{reply}
use c3qo.Program.Delivery.{IsChannel, received}
use c3qo.Program.Server.{Commands, request, fd_poll-command}
use c3qo.Poll.{fd_poll}
use c3qo.HookZmq.Passing.{counting}
use c3qo.Ncli.{c_string, answer_timer}
use c3qo.Ncli.Samples.{starting, client_block}
use c3qo.Program.Client.{wait_loop, return_status}
use c3qo.Program.Client.Waiting.{waiting}
use c3qo.Program.Client.Answered.{wait_loop-answers}
use c3qo.Program.Whole.{run-term}
use c3qo.Ncli.Options.{Shell}
use c3qo.Ncli.Scan.{ends}
use c3qo.Ncli.Fields.{last_text}
use c3qo.HookZmq.Opening.{opens}
use c3qo.Program.{new_manager, new_world, run}

-- What goes in and out on the socket 5, whose peer is the socket 9.
abbrev Wire : Type 0
Wire = List (List ℕ × Bool)

abbrev Net : Type 0
Net = Wire × Wire

abbrev inbound : Net → Wire
inbound e = e.0

abbrev outbound : Net → Wire
outbound e = e.1

abbrev take_frame : Wire → Received × Wire
take_frame [] = (record { ret = negsuc 0; bytes = []; more = false }, [])
take_frame ((bytes, more) ∷ rest) =
    (record { ret = pos (length bytes); bytes = bytes; more = more }, rest)

abbrev ready : Events
ready = record { pollin = true; pollout = false }

abbrev net : Sys Net
net = record {
  zmq_pair = pos 0;
  zmq_dealer = pos 5;
  zmq_router = pos 6;
  zmq_proxy = λ from to e. (negsuc 0, e);
  clock_gettime = λ e. (record { tv_sec = pos 0; tv_nsec = pos 0 }, e);
  zmq_poll = λ items timeout e. ((pos 1, ready ∷ []), e);
  zmq_ctx_new = λ e. (some 1, e);
  zmq_socket = λ ctx type e. (some 5, e);
  zmq_set_identity = λ s name e. (pos 0, e);
  zmq_connect = λ s addr e. (pos 0, e);
  zmq_bind = λ s addr e. (pos 0, e);
  zmq_close = λ s e. e;
  zmq_ctx_term = λ ctx e. e;
  zmq_msg_recv = λ s e.
      if eq_ptr s (some 5)
      then ((take_frame e.0).0, ((take_frame e.0).1, e.1))
      else ((take_frame e.1).0, (e.0, (take_frame e.1).1));
  zmq_msg_send = λ s bytes more e.
      if eq_ptr s (some 5)
      then (pos (length bytes), (e.0, e.1 ++ (bytes, more) ∷ []))
      else (pos (length bytes), (e.0 ++ (bytes, more) ∷ [], e.1));
}

net-IsChannel : IsChannel net (some 5) (some 9) inbound outbound
net-IsChannel = record {
  from_peer = record {
    sends = λ bytes more e. (ground arith, refl);
    receives = λ bytes more rest e q. rw q (refl, refl);
  };
  to_peer = record {
    sends = λ bytes more e. (ground arith, refl);
    receives = λ bytes more rest e q. rw q (refl, refl);
  };
  recv_keeps = λ e. refl;
  poll_keeps = λ items e. refl;
  clock_keeps = λ e. refl;
}

abbrev networked : Command String → Platform Net
networked cmd = record {
  sys = net;
  unpack = λ bytes. some cmd;
  pack = λ cmd. [];
  end_signal = λ e. false;
}

abbrev entry : FileDesc
entry = record { bk = some 0; fd = negsuc 0; socket = some 5; read = true; write = false }

abbrev hook_of : String → ℤ → HookZmq
hook_of name socket_type = record {
  zmq_ctx = some (some 1);
  zmq_socket = some (some 5);
  zmq_sock = some entry;
  client = true;
  socket_type = socket_type;
  name = name;
  addr = "tcp://127.0.0.1:1664";
  rx_pkt = 0;
  tx_pkt = 0;
}

-- The two blocks of the monitored program.
abbrev monitor_block : Block Class
monitor_block = record (new_block (hook_zmq (hook_of "program" (pos 5)))) {
  id = negsuc 0;
  type_name = "hook_zmq";
  is_started = true;
  sink = some 1;
}

abbrev transcoder_block : Block Class
transcoder_block = record (new_block trans_pb) {
  id = negsuc 1;
  type_name = "trans_pb";
  is_started = true;
  sink = some 0;
}

abbrev serving : World Class Net
serving = record {
  mgr = record new_manager {
    is_term = false;
    bk_map = (negsuc 0, 0) ∷ (negsuc 1, 1) ∷ [];
    callback = entry ∷ [];
  };
  heap = update (update (λ _. none) 0 (some monitor_block)) 1 (some transcoder_block);
  heap_next = 2;
  env = (frames (request (7 ∷ [])), []);
}

-- The command has arrived.
serving-Commands :
    (cmd : Command String)
    → Commands
        (networked cmd)
        (some 5)
        (some 9)
        inbound
        outbound
        net-IsChannel
        0
        1
        entry
        ready
        []
        []
        (7 ∷ [])
        cmd
        []
        monitor_block
        transcoder_block
        (hook_of "program" (pos 5))
        serving
        serving.env
serving-Commands cmd = record {
  arrives = record {
    hook = record { live = refl; socket = refl };
    forwards = refl;
    entry = refl;
    owner = refl;
    socket = refl;
    polls = refl;
    is_ready = refl;
    queued = sym (append-nil (frames (request (7 ∷ []))));
    parts = ((codes "PROTO.CMD", refl, omega arith), ((7 ∷ [], refl, omega arith), tt));
    some_part = omega arith;
  };
  there = refl;
  apart = omega arith;
  asked = refl;
}

-- No option.
abbrev shell : Shell Net
shell = record {
  getopt = λ argv options e. ((negsuc 0, none), e);
  reset_optind = λ e. e;
  wordexp = λ s e. (none, e);
  atoi = λ s. pos 0;
}

run-term_example :
    (w' : World Class Net) × (run 2 4 shell
        (networked (term true))
        ("c3qo" ∷ [])
        (new_world (frames (request (7 ∷ [])), []))
      ≡ ok (pos 0, w'))
    × (outbound w'.env ≡ (codes "dummy", false) ∷ [] ++ frames (reply true))
unfolding last_text
run-term_example =
    run-term (networked (term true)) 5 (some 9) inbound outbound net-IsChannel shell ("c3qo" ∷ [])
      [] "default_identity" 1 ready [] (7 ∷ []) true [] 0 0 (ends none refl) tt (omega arith) refl
      (opens (pos 0) refl refl refl refl refl) refl refl refl
      (sym (append-nil (frames (request (7 ∷ []))))) (omega arith) refl

-- The program once it has counted the command; this one is for a block that is not there.
abbrev counted : HookZmq
counted = record (hook_of "program" (pos 5)) { rx_pkt = 1 }

fd_poll-command_example :
    (e e' : Net) × (fd_poll net (vtable 4 (networked (start (pos 9)))) serving
      ≡ ok (
        pos 1,
        counting 0 monitor_block counted
            (some 5)
            1
            1
            e'
            (received 0 monitor_block (hook_of "program" (pos 5)) (some 5) serving e),
      ))
    × (outbound e' ≡ [] ++ frames (reply false))
unfolding run_command block_start block_get UnorderedMap.find
fd_poll-command_example =
    fd_poll-command (networked (start (pos 9))) (some 5) (some 9) inbound outbound net-IsChannel 0 1
      entry ready [] [] (7 ∷ []) (start (pos 9)) [] monitor_block transcoder_block
      (hook_of "program" (pos 5)) serving serving.env 0 false
      (received 0 monitor_block (hook_of "program" (pos 5)) (some 5) serving) monitor_block
      transcoder_block counted (serving-Commands (start (pos 9))) (λ e. refl)
      (λ e. record { hook = record { live = refl; socket = refl }; there = refl; sink = refl })
      (λ e. refl)

-- A client behind a hook, and the answer on its way.
abbrev client_hook : Block Class
client_hook = record (new_block (hook_zmq (hook_of "" (pos 0)))) {
  id = pos 1;
  type_name = "hook_zmq";
  is_started = true;
  sink = some 1;
}

abbrev awaiting : World Class Net
awaiting = record {
  mgr = record new_manager { bk_map = (pos 1, 0) ∷ (pos 2, 1) ∷ []; callback = entry ∷ [] };
  heap = update (λ _. none) 0 (some client_hook);
  heap_next = 2;
  env = ([], []);
}

abbrev in_loop : Ncli
in_loop = record starting { received_answer = some false; timeout_expired = some false }

abbrev answer : List BufferPart
answer = whole (c_string "probe") ∷ reply true

wait_loop-answers_example :
    (w' : World Class Net) × (wait_loop 5 (networked (term true)) 2 1 (
        waiting 3
          (networked (term true))
          1
          client_block
          awaiting
          (answer_timer 1 ∷ [])
          in_loop
          (frames answer, []))
      ≡ ok (tt, w'))
    × (return_status 1 w' ≡ ok (pos 0, w'))
wait_loop-answers_example =
    wait_loop-answers (networked (term true)) (some 5) (some 9) inbound outbound net-IsChannel 0 1
      entry ready [] [] "probe" true [] client_hook client_block (hook_of "" (pos 0))
      (answer_timer 1) in_loop awaiting (frames answer, []) (frames answer, []) 0 0
      (record {
        hook = record { live = refl; socket = refl };
        forwards = refl;
        entry = refl;
        owner = refl;
        socket = refl;
        polls = refl;
        is_ready = refl;
        queued = sym (append-nil (frames answer));
        parts = (
          (c_string "probe", refl, omega arith),
          ((codes "PROTO.CMD.REP", refl, omega arith), ((codes "OK", refl, omega arith), tt)),
        );
        some_part = omega arith;
      })
      (omega arith) refl refl refl refl refl
