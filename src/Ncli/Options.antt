-- ===== src/Ncli/Options.antt =====
-- app/src/ncli.cpp: the command line, `options_parse` and the `parse_` functions.
use c3qo.Base.{
  ℕ, zero, suc, Bool, true, false, Option, none, some, List, String, ℤ, pos, negsuc, eq_ℤ, str_eq,
  if◌then◌else◌,
}
use c3qo.Command.{Command}
use c3qo.World.{M, fault, pure, fail, call, out_of_fuel, null_pointer, exited, ◌>>=◌, ◌>>◌}
use c3qo.Classes.{Class, CharPtr, Ncli, ncli_at, edit_ncli}

-- What the C library does for the command line. `getopt` gives its return value and `optarg`; its
-- `optind` is part of the state. `wordexp` gives the words, or `none` where it does not return 0.
pub record Shell (E : Type 0) : Type 0 where
  pub getopt : List String → String → E → (ℤ × CharPtr) × E
  pub reset_optind : E → E
  pub wordexp : String → E → Option (List String) × E
  pub atoi : String → ℤ

-- What a `switch (opt)` does: it sets fields, or goes to `default`, or reads `optarg` at null.
pub data Taken : Type 0 where
  set : Ncli → Taken
  unknown : Taken
  null_argument : Taken

abbrev pub with_number : (String → ℤ) → CharPtr → (ℤ → Ncli) → Taken
with_number atoi none f = null_argument
with_number atoi (some s) f = set (f (atoi s))

abbrev pub is_option : ℕ → ℤ → Bool
is_option letter opt = eq_ℤ opt (pos letter)

module _ (atoi : String → ℤ) where
  unfoldable pub take_add : ℤ → CharPtr → Ncli → Taken
  take_add opt arg c =
      if is_option b'i' opt
      then with_number atoi arg (λ n. record c { add_id = n })
      else if is_option b't' opt
      then set (record c { add_type = arg })
      else unknown

  unfoldable pub take_start : ℤ → CharPtr → Ncli → Taken
  take_start opt arg c =
      if is_option b'i' opt then with_number atoi arg (λ n. record c { start_id = n }) else unknown

  unfoldable pub take_stop : ℤ → CharPtr → Ncli → Taken
  take_stop opt arg c =
      if is_option b'i' opt then with_number atoi arg (λ n. record c { stop_id = n }) else unknown

  unfoldable pub take_del : ℤ → CharPtr → Ncli → Taken
  take_del opt arg c =
      if is_option b'i' opt then with_number atoi arg (λ n. record c { del_id = n }) else unknown

  unfoldable pub take_bind : ℤ → CharPtr → Ncli → Taken
  take_bind opt arg c =
      if is_option b'i' opt
      then with_number atoi arg (λ n. record c { bind_id = n })
      else if is_option b'p' opt
      then with_number atoi arg (λ n. record c { bind_port = n })
      else if is_option b'd' opt
      then with_number atoi arg (λ n. record c { bind_dest = n })
      else unknown

  unfoldable pub take_hook_zmq : ℤ → CharPtr → Ncli → Taken
  take_hook_zmq opt arg c =
      if is_option b'i' opt
      then with_number atoi arg (λ n. record c { hook_zmq_id = n })
      else if is_option b'c' opt
      then set (record c { hook_zmq_client = true })
      else if is_option b't' opt
      then with_number atoi arg (λ n. record c { hook_zmq_type = n })
      else if is_option b'n' opt
      then set (record c { hook_zmq_name = arg })
      else if is_option b'a' opt
      then set (record c { hook_zmq_addr = arg })
      else unknown

-- the `switch` of `options_parse`
unfoldable pub take_client : ℤ → CharPtr → Ncli → Taken
take_client opt arg c =
    if is_option b'i' opt
    then set (record c { ncli_peer = arg })
    else if is_option b'o' opt
    then set (record c { ncli_cmd_args = arg })
    else if is_option b't' opt
    then set (record c { ncli_cmd_type = arg })
    else if is_option b'r' opt
    then set (record c { ncli_cmd_ret = arg })
    else unknown

module _ {E : Type 0} where
  -- `ASSERT(… != nullptr)`, and `ASSERT(wordexp(…) == 0)`
  abbrev pub asserted : {A : Type 0} → Option A → M Class E A
  asserted none = fail exited
  asserted (some a) = pure a

module _ {E : Type 0} (sh : Shell E) where
  -- The loop over the options, a call of `getopt` for each unit of fuel.
  unfoldable pub option_loop :
      ℕ → List String → String → (ℤ → CharPtr → Ncli → Taken) → ℕ → M Class E Bool
  option_loop zero argv options take p w = fault out_of_fuel
  option_loop (suc n) argv options take p w =
      (do
        (opt, arg) ← call (sh.getopt argv options)
        elim (eq_ℤ opt (negsuc 0)) [
          | true ↦ pure true
          | false ↦ do
            c ← ncli_at p
            elim (take opt arg c) [
              | set d ↦ do edit_ncli p (λ _. d); option_loop n argv options take p
              | unknown ↦ pure false
              | null_argument ↦ fail null_pointer
            ]
        ])
        w

  -- A `parse_` function: the loop, then the command from the fields.
  unfoldable pub parse_command :
      ℕ
      → List String
      → String
      → (ℤ → CharPtr → Ncli → Taken)
      → (Ncli → Command CharPtr)
      → ℕ
      → M Class E Bool
  parse_command n argv options take command p = do
    is_ok ← option_loop n argv options take p
    elim is_ok [
      | false ↦ pure false
      | true ↦ do edit_ncli p (λ c. record c { cmd = some (command c) }); pure true
    ]

  unfoldable pub parse_add : ℕ → List String → ℕ → M Class E Bool
  parse_add n argv =
      parse_command n argv "i:t:" (take_add sh.atoi) (λ c. Command.add c.add_id c.add_type)

  unfoldable pub parse_start : ℕ → List String → ℕ → M Class E Bool
  parse_start n argv =
      parse_command n argv "i:" (take_start sh.atoi) (λ c. Command.start c.start_id)

  unfoldable pub parse_stop : ℕ → List String → ℕ → M Class E Bool
  parse_stop n argv = parse_command n argv "i:" (take_stop sh.atoi) (λ c. Command.stop c.stop_id)

  unfoldable pub parse_del : ℕ → List String → ℕ → M Class E Bool
  parse_del n argv = parse_command n argv "i:" (take_del sh.atoi) (λ c. Command.del c.del_id)

  unfoldable pub parse_bind : ℕ → List String → ℕ → M Class E Bool
  parse_bind n argv =
      parse_command n argv "i:p:d:" (take_bind sh.atoi)
        (λ c. Command.bind c.bind_id c.bind_port c.bind_dest)

  unfoldable pub parse_hook_zmq : ℕ → List String → ℕ → M Class E Bool
  parse_hook_zmq n argv = parse_command n argv "i:ct:n:a:" (take_hook_zmq sh.atoi) (λ c.
      Command.hook_zmq c.hook_zmq_id c.hook_zmq_client c.hook_zmq_type c.hook_zmq_name
        c.hook_zmq_addr)

  unfoldable pub parse_term : ℕ → M Class E Bool
  parse_term p = do edit_ncli p (λ c. record c { cmd = some (Command.term true) }); pure true

  -- the chain of `strcmp`
  unfoldable pub parse_by_type : ℕ → String → List String → ℕ → M Class E Bool
  parse_by_type n name words p =
      if str_eq name "add"
      then parse_add n words p
      else if str_eq name "start"
      then parse_start n words p
      else if str_eq name "stop"
      then parse_stop n words p
      else if str_eq name "del"
      then parse_del n words p
      else if str_eq name "bind"
      then parse_bind n words p
      else if str_eq name "hook_zmq"
      then parse_hook_zmq n words p
      else if str_eq name "term"
      then parse_term p
      else pure false

  -- `options_parse` behind its loop
  unfoldable pub parse_client : ℕ → ℕ → M Class E Bool
  parse_client n p = do
    c ← ncli_at p
    peer ← asserted c.ncli_peer
    name ← asserted c.ncli_cmd_type
    args ← asserted c.ncli_cmd_args
    ret ← asserted c.ncli_cmd_ret
    words ← asserted (← call (sh.wordexp args))
    edit_ncli p (λ d. record d { words = some words })
    call (λ e. (tt, sh.reset_optind e))
    parse_by_type n name words p

  unfoldable pub options_parse : ℕ → List String → ℕ → M Class E Bool
  options_parse n argv p = do
    is_ok ← option_loop n argv "i:o:t:r:" take_client p
    elim is_ok [ false ↦ pure false | true ↦ parse_client n p ]
