-- ===== src/Ncli/Samples.antt =====
-- What examples of the client start from: a small `getopt`, the command line of an `add`, and clients
-- at several stages.
use c3qo.Base.{
  ℕ, zero, suc, ◌+◌, ◌*◌, ◌-◌, false, none, some, List, [], ◌∷◌, String, ℤ, pos, negsuc, codes,
  int_eq,
}
use c3qo.Command.{Command}
use c3qo.World.{Block, World}
use c3qo.Classes.{Class, CharPtr, Ncli}
use c3qo.Flow.{new_block}
use c3qo.Ncli.{new_ncli}
use c3qo.Ncli.Options.{Shell}

-- `atoi` on digits only.
abbrev pub digits : ℕ → List ℕ → ℕ
digits n [] = n
digits n (d ∷ l) = digits (10 * n + (d - 48)) l

-- The option of a word: its second byte.
abbrev pub letter : List ℕ → ℤ
letter (dash ∷ l ∷ rest) = pos l
letter _ = pos 63

-- A `getopt` whose options all have an argument, from the word at an index on; the state is that
-- index.
abbrev pub option_at : ℕ → List String → ℕ → (ℤ × CharPtr) × ℕ
option_at zero [] e = ((negsuc 0, none), e)
option_at zero (w ∷ []) e = ((pos 63, none), suc e)
option_at zero (w ∷ a ∷ rest) e = ((letter (codes w), some a), 2 + e)
option_at (suc n) [] e = ((negsuc 0, none), e)
option_at (suc n) (w ∷ rest) e = option_at n rest e

abbrev pub base_world : World Class ℕ
base_world = record {
  mgr = record {
    is_term = false;
    bk_factory = [];
    bk_map = (pos 2, 0) ∷ [];
    tm_list = [];
    callback = [];
    fd = [];
    epoch = 0;
  };
  heap = λ _. none;
  heap_next = 1;
  env = 1;
}

abbrev pub args : List String
args = "add" ∷ "-i" ∷ "7" ∷ "-t" ∷ "hello" ∷ "-i" ∷ "12" ∷ []

abbrev pub small_shell : Shell ℕ
small_shell = record {
  getopt = λ argv options e. option_at e argv e;
  reset_optind = λ e. 1;
  wordexp = λ s e. (some args, e);
  atoi = λ s. pos (digits 0 (codes s));
}

abbrev pub argv : List String
argv = "ncli" ∷ "-i" ∷ "probe" ∷ "-t" ∷ "add" ∷ "-o" ∷ "add -i 7 -t hello -i 12" ∷ "-r" ∷ "OK" ∷ []

abbrev pub fresh : Ncli
fresh = record {
  ncli_peer = none;
  ncli_cmd_type = none;
  ncli_cmd_args = none;
  ncli_cmd_ret = none;
  words = none;
  cmd = none;
  add_id = pos 0;
  add_type = none;
  start_id = pos 0;
  stop_id = pos 0;
  del_id = pos 0;
  bind_id = pos 0;
  bind_port = pos 0;
  bind_dest = pos 0;
  hook_zmq_id = pos 0;
  hook_zmq_client = false;
  hook_zmq_type = pos 0;
  hook_zmq_name = none;
  hook_zmq_addr = none;
  received_answer = none;
  timeout_expired = none;
}

abbrev pub client_block : Block Class
client_block = record (new_block new_ncli) { id = pos 2; type_name = "ncli" }

-- The client once its options are read, once the options of its command are, and with a command.
abbrev pub told : Ncli
told = record fresh {
  ncli_peer = some "probe";
  ncli_cmd_type = some "add";
  ncli_cmd_args = some "add -i 7 -t hello -i 12";
  ncli_cmd_ret = some "OK";
}

abbrev pub filled : Ncli
filled = record told { words = some args; add_id = pos 12; add_type = some "hello" }

abbrev pub starting : Ncli
starting = record told { cmd = some (Command.start (pos 12)) }
