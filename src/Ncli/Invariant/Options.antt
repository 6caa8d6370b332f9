-- ===== src/Ncli/Invariant/Options.antt =====
-- app/src/ncli.cpp: reading the command line keeps the invariant of the engine.
use c3qo.Base.{
  ℕ, zero, suc, Bool, true, false, Option, none, some, List, String, ℤ, negsuc, eq_ℤ, str_eq,
  if◌then◌else◌,
}
use c3qo.Command.{Command}
use c3qo.World.{M, call, pure, fail, null_pointer, ◌>>◌}
use c3qo.World.Keeps.{Keeps, Keeps-bind}
use c3qo.Classes.{Class, CharPtr, Ncli, ncli_at, edit_ncli}
use c3qo.Ncli.Options.{
  Shell, Taken, set, unknown, null_argument, asserted, option_loop, parse_command, parse_add,
  parse_start, parse_stop, parse_del, parse_bind, parse_hook_zmq, parse_term, parse_by_type,
  parse_client, options_parse, take_client,
}
use c3qo.Invariant.{Inv}
use c3qo.Invariant.Calls.{Inv-call}
use c3qo.Invariant.Rules.{Keeps-pure, Keeps-if, Keeps-ncli_at, Keeps-edit_ncli}

module _ {E : Type 0} (sh : Shell E) where
  pub asserted-Inv : {A : Type 0} (o : Option A) → Keeps {S = Class} {E = E} Inv (asserted o)
  asserted-Inv none w i = tt
  asserted-Inv (some a) w i = i

  option_loop-Inv :
      (n : ℕ) (argv : List String) (options : String) (take : ℤ → CharPtr → Ncli → Taken) (p : ℕ)
      → Keeps {E = E} Inv (option_loop sh n argv options take p)
  unfolding option_loop
  option_loop-Inv zero argv options take p = λ w i. tt
  option_loop-Inv (suc n) argv options take p =
      Keeps-bind Inv (call (sh.getopt argv options)) _ (Inv-call (sh.getopt argv options)) λ o.
        Keeps-if (eq_ℤ o.0 (negsuc 0)) (pure true) _ (Keeps-pure true) (
          Keeps-bind Inv (ncli_at p) _ (Keeps-ncli_at p)
            λ c. by_switch (take o.0 o.1 c) (option_loop-Inv n argv options take p))
    where
      by_switch :
          (t : Taken)
          → Keeps Inv (option_loop sh n argv options take p)
          → Keeps Inv (elim t as (λ _. M Class E Bool) [
            | set d ↦ do edit_ncli p (λ _. d); option_loop sh n argv options take p
            | unknown ↦ pure false
            | null_argument ↦ fail null_pointer
          ])
      by_switch (set d) rest = Keeps-bind Inv (edit_ncli p _) _ (Keeps-edit_ncli p _) (λ _. rest)
      by_switch unknown rest = Keeps-pure false
      by_switch null_argument rest = λ w i. tt

  parse_command-Inv :
      (n : ℕ) (argv : List String) (options : String) (take : ℤ → CharPtr → Ncli → Taken)
      (command : Ncli → Command CharPtr) (p : ℕ)
      → Keeps {E = E} Inv (parse_command sh n argv options take command p)
  unfolding parse_command
  parse_command-Inv n argv options take command p =
      Keeps-bind Inv (option_loop sh n argv options take p) _
        (option_loop-Inv n argv options take p) λ is_ok. if_ok is_ok
    where
      if_ok :
          (b : Bool)
          → Keeps Inv (elim b as (λ _. M Class E Bool) [
            | false ↦ pure false
            | true ↦ do edit_ncli p (λ c. record c { cmd = some (command c) }); pure true
          ])
      if_ok false = Keeps-pure false
      if_ok true = Keeps-bind Inv (edit_ncli p _) _ (Keeps-edit_ncli p _) (λ _. Keeps-pure true)

  -- Each test of the chain goes on or parses.
  Keeps-else :
      (b : Bool) (m k : M Class E Bool) → Keeps Inv m → Keeps Inv k → Keeps Inv (if b then m else k)
  Keeps-else true m k hm hk = hm
  Keeps-else false m k hm hk = hk

  parse_by_type-Inv :
      (n : ℕ) (name : String) (words : List String) (p : ℕ)
      → Keeps {E = E} Inv (parse_by_type sh n name words p)
  unfolding parse_by_type parse_add parse_start parse_stop parse_del parse_bind parse_hook_zmq
      parse_term
  parse_by_type-Inv n name words p =
      Keeps-else (str_eq name "add") _ _ (parse_command-Inv n words _ _ _ p) (
        Keeps-else (str_eq name "start") _ _ (parse_command-Inv n words _ _ _ p) (
          Keeps-else (str_eq name "stop") _ _ (parse_command-Inv n words _ _ _ p) (
            Keeps-else (str_eq name "del") _ _ (parse_command-Inv n words _ _ _ p) (
              Keeps-else (str_eq name "bind") _ _ (parse_command-Inv n words _ _ _ p) (
                Keeps-else (str_eq name "hook_zmq") _ _ (parse_command-Inv n words _ _ _ p) (
                  Keeps-else (str_eq name "term") _ _
                    (Keeps-bind Inv (edit_ncli p _) _ (Keeps-edit_ncli p _) (λ _. Keeps-pure true))
                    (Keeps-pure false)))))))

  parse_client-Inv : (n p : ℕ) → Keeps {E = E} Inv (parse_client sh n p)
  unfolding parse_client
  parse_client-Inv n p = Keeps-bind Inv (ncli_at p) _ (Keeps-ncli_at p) λ c.
      Keeps-bind Inv (asserted c.ncli_peer) _ (asserted-Inv c.ncli_peer) λ peer.
        Keeps-bind Inv (asserted c.ncli_cmd_type) _ (asserted-Inv c.ncli_cmd_type) λ name.
          Keeps-bind Inv (asserted c.ncli_cmd_args) _ (asserted-Inv c.ncli_cmd_args) λ args.
            Keeps-bind Inv (asserted c.ncli_cmd_ret) _ (asserted-Inv c.ncli_cmd_ret) λ ret.
              Keeps-bind Inv (call (sh.wordexp args)) _ (Inv-call (sh.wordexp args)) λ o.
                Keeps-bind Inv (asserted o) _ (asserted-Inv o) λ words.
                  Keeps-bind Inv (edit_ncli p (λ d. record d { words = some words })) _
                    (Keeps-edit_ncli p _)
                    λ _.
                      Keeps-bind Inv (call (λ e. (tt, sh.reset_optind e))) _
                        (Inv-call (λ e. (tt, sh.reset_optind e)))
                        λ _. parse_by_type-Inv n name words p

  pub options_parse-Inv :
      (n : ℕ) (argv : List String) (p : ℕ) → Keeps {E = E} Inv (options_parse sh n argv p)
  unfolding options_parse
  options_parse-Inv n argv p =
      Keeps-bind Inv (option_loop sh n argv "i:o:t:r:" take_client p) _
        (option_loop-Inv n argv _ _ p) λ is_ok. if_ok is_ok
    where
      if_ok :
          (b : Bool)
          → Keeps Inv
              (elim b as (λ _. M Class E Bool) [ false ↦ pure false | true ↦ parse_client sh n p ])
      if_ok false = Keeps-pure false
      if_ok true = parse_client-Inv n p
